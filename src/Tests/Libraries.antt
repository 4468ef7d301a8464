-- ===== src/Tests/Libraries.antt =====
-- Stand-ins for the libraries of the verifier: a certificate or a token is its bytes.
use sealr_verify.Common.{true, none, some, [], ◌∷◌, sym}
use sealr_verify.Common.Int.{ℤ}
use sealr_verify.Common.Text.{Bytes, codes}
use sealr_verify.Deps.{KeyPems}
use sealr_verify.Deps.X509.{X509}
use sealr_verify.Deps.Tokens.{Tokens, subject_key_identifier}
use sealr_verify.Tsa.{oid_signed_data, oid_sha256, oid_message_digest, oid_rsa_encryption}
use sealr_verify.Tests.Toy.{toy_hash}

-- Every text is one certificate, and every certificate has one name and the same key.
instance abbrev pub toy_x509 : X509
toy_x509 = record {
  Certificate = Bytes;
  Name = Unit {0};
  PublicKey = Bytes;
  Time = ℤ;
  iter_from_buffer = λ b. some (codes "CERTIFICATE", b) ∷ [];
  from_der = λ b. some b;
  issuer = λ c. tt;
  subject = λ c. tt;
  same_name = λ a b. true;
  common_names = λ c. some (codes "n") ∷ [];
  public_key = λ c. toy_hash 32 (1 ∷ 2 ∷ []);
  subject_public_key = λ k. k;
  extensions = λ c. none ∷ some true ∷ [];
  from_timestamp = λ t. some t;
  is_valid_at = λ c t. true;
  not_before = λ c. ℤ.pos 0;
  not_after = λ c. ℤ.pos 100;
  verify_signature = λ c k. true;
}

-- a key as a text is its bytes
instance abbrev pub toy_pems : KeyPems
toy_pems = record {
  from_pkcs8_pem = λ s. some s;
  to_pkcs8_pem = λ b. some b;
  from_public_key_pem = λ s. some s;
  to_public_key_pem = λ b. some b;
  from_pkcs8_pem-to_pkcs8_pem = λ seed pem h. sym h;
  from_public_key_pem-to_public_key_pem = λ key pem h. sym h;
}

-- A token is the digest that it binds; `sha256` is that of the tokens.
abbrev pub tokens_of : (Bytes → Bytes) → Tokens
tokens_of sha256 = record {
  ContentInfo = Bytes;
  SignedData = Bytes;
  SignerInfo = Bytes;
  TstInfo = Bytes;
  SignedAttributes = Bytes;
  Attribute = Bytes;
  Any = Bytes;
  Certificate = Unit {0};
  Name = Unit {0};
  Serial = Unit {0};
  RsaPublicKey = Bytes;
  time_stamp_resp = λ b. none;
  content_info = λ b. some b;
  content_type = λ c. oid_signed_data;
  signed_data = λ c. some c;
  econtent = λ s. some s;
  octet_string = λ a. some a;
  tst_info = λ b. some b;
  imprint_algorithm = λ i. oid_sha256;
  hashed_message = λ i. i;
  gen_time = λ i. (7, 0);
  format_time = λ s n. some (codes "t");
  signer_infos = λ s. s ∷ [];
  certificates = λ s. some (none ∷ some tt ∷ []);
  sid = λ s. subject_key_identifier;
  serial_number = λ c. tt;
  issuer = λ c. tt;
  same_serial = λ a b. true;
  same_name = λ a b. true;
  subject = λ c. codes "tsa";
  digest_alg = λ s. oid_sha256;
  signature_algorithm = λ s. oid_rsa_encryption;
  signature = λ s. [];
  signed_attrs = λ s. some (sha256 s);
  attributes = λ a. a ∷ [];
  attribute_oid = λ a. oid_message_digest;
  attribute_values = λ a. a ∷ [];
  attributes_der = λ a. some a;
  spki_der = λ c. some [];
  rsa_key = λ b. some b;
  rsa_verify = λ k p digest sig. true;
  sha384 = toy_hash 48;
  sha512 = toy_hash 64;
}

instance abbrev pub toy_tokens : Tokens
toy_tokens = tokens_of (λ b. toy_hash 32 (1 ∷ b))
