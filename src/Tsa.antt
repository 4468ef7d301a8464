-- ===== src/Tsa.antt =====
-- crates/verify/src/tsa.rs: the offline verification of a timestamp token.
pub mod Genuine
use sealr_verify.Common.{
  ℕ, zero, suc, ◌^◌, ◌&&◌, ◌||◌, Bool, true, false, not, Option, none, some, List, [], ◌∷◌, ltb,
  ◌==◌, if◌then◌else◌,
}
use sealr_verify.Common.Int.{ℤ}
use sealr_verify.Common.Text.{Bytes, Str, codes, str_eq}
use sealr_verify.Common.Result.{Result, ok, err, ◌>>=◌, or_error, require}
use sealr_verify.Deps.{Digests}
use sealr_verify.Deps.Tokens.{
  Tokens, SignerIdentifier, issuer_and_serial_number, subject_key_identifier, Padding, pad_sha256,
  pad_sha384, pad_sha512,
}

-- `TsaError`, without its texts
pub data TsaError : Type 0 where
  parse imprint_mismatch unsupported_algorithm signature_invalid signer_cert_missing : TsaError
  not_granted : ℕ → TsaError

pub record VerifiedToken : Type 0 where
  pub gen_time : Str
  pub signer_subject : Str
  pub signature_verified : Bool

abbrev pub oid_signed_data : Str
oid_signed_data = codes "1.2.840.113549.1.7.2"

abbrev pub oid_sha256 : Str
oid_sha256 = codes "2.16.840.1.101.3.4.2.1"

abbrev pub oid_sha384 : Str
oid_sha384 = codes "2.16.840.1.101.3.4.2.2"

abbrev pub oid_sha512 : Str
oid_sha512 = codes "2.16.840.1.101.3.4.2.3"

abbrev pub oid_message_digest : Str
oid_message_digest = codes "1.2.840.113549.1.9.4"

abbrev pub oid_rsa_encryption : Str
oid_rsa_encryption = codes "1.2.840.113549.1.1.1"

abbrev pub oid_sha256_with_rsa : Str
oid_sha256_with_rsa = codes "1.2.840.113549.1.1.11"

abbrev pub oid_sha384_with_rsa : Str
oid_sha384_with_rsa = codes "1.2.840.113549.1.1.12"

abbrev pub oid_sha512_with_rsa : Str
oid_sha512_with_rsa = codes "1.2.840.113549.1.1.13"

-- `i64::try_from` of a number of seconds
abbrev pub to_i64 : ℕ → Result TsaError ℤ
to_i64 secs = if ltb secs (2 ^ 63) then ok (ℤ.pos secs) else err parse

-- `iter().next()`
abbrev pub first_of {ℓ} : {A : Type ℓ} → List A → Option A
first_of [] = none
first_of (a ∷ l) = some a

-- the tag of an implicit [0] becomes that of a set
unfoldable pub retag : Bytes → Bytes
retag [] = []
retag (b ∷ bytes) = if b == 160 then 49 ∷ bytes else b ∷ bytes

-- the signature algorithms of RSA
unfoldable pub is_rsa : Str → Bool
is_rsa oid =
    str_eq oid oid_rsa_encryption
    || (str_eq oid oid_sha256_with_rsa
        || (str_eq oid oid_sha384_with_rsa || str_eq oid oid_sha512_with_rsa))

unfoldable pub padding_of : Str → Result TsaError Padding
padding_of oid =
    if str_eq oid oid_sha256
    then ok pad_sha256
    else if str_eq oid oid_sha384
    then ok pad_sha384
    else if str_eq oid oid_sha512
    then ok pad_sha512
    else err unsupported_algorithm

module _ ⦃t : Tokens⦄ where
  -- a token in a response
  abbrev pub granted : ℕ → Option t.ContentInfo → Result TsaError t.ContentInfo
  granted status token =
      if not (status == 0) && not (status == 1)
      then err (not_granted status)
      else or_error parse token

  unfoldable pub parse_token : Bytes → Result TsaError t.ContentInfo
  parse_token token_der = elim (t.time_stamp_resp token_der) [
    | some resp ↦ granted resp.0 resp.1
    | none ↦ or_error parse (t.content_info token_der)
  ]

  -- whether a certificate is the signer's
  unfoldable pub is_signer : SignerIdentifier t.Name t.Serial → t.Certificate → Bool
  is_signer (issuer_and_serial_number issuer serial) cert =
      t.same_serial (t.serial_number cert) serial && t.same_name (t.issuer cert) issuer
  is_signer subject_key_identifier cert = true

  -- the loop over the certificates
  unfoldable pub find_among :
      SignerIdentifier t.Name t.Serial → List (Option t.Certificate) → Result TsaError t.Certificate
  find_among sid [] = err signer_cert_missing
  find_among sid (none ∷ choices) = find_among sid choices
  find_among sid (some cert ∷ choices) =
      let rest = find_among sid choices in if is_signer sid cert then ok cert else rest

  unfoldable pub find_signer_cert : t.SignedData → t.SignerInfo → Result TsaError t.Certificate
  find_signer_cert signed_data signer = do
    certs ← or_error signer_cert_missing (t.certificates signed_data)
    find_among (t.sid signer) certs

  module _ ⦃d : Digests⦄ where
    unfoldable pub digest_bytes : Str → Bytes → Result TsaError Bytes
    digest_bytes oid bytes =
        if str_eq oid oid_sha256
        then ok (d.sha256 bytes)
        else if str_eq oid oid_sha384
        then ok (t.sha384 bytes)
        else if str_eq oid oid_sha512
        then ok (t.sha512 bytes)
        else err unsupported_algorithm

  -- what the first value of an attribute says of the digest
  unfoldable pub attribute_matches : Bytes → List t.Any → Bool → Result TsaError Bool
  attribute_matches digest [] md_ok = ok md_ok
  attribute_matches digest (v ∷ values) md_ok = do
    od ← or_error parse (t.octet_string v)
    ok (str_eq od digest)

  -- the loop over the signed attributes
  unfoldable pub check_digest : Bytes → List t.Attribute → Bool → Result TsaError Bool
  check_digest digest [] md_ok = ok md_ok
  check_digest digest (attr ∷ attrs) md_ok =
      if str_eq (t.attribute_oid attr) oid_message_digest
      then (attribute_matches digest (t.attribute_values attr) md_ok >>= check_digest digest attrs)
      else check_digest digest attrs md_ok

  unfoldable pub rsa_key_from_spki : Bytes → Result TsaError t.RsaPublicKey
  rsa_key_from_spki spki_der = or_error parse (t.rsa_key spki_der)

  -- the signature of RSA
  unfoldable pub verify_rsa :
      t.SignerInfo → t.Certificate → Str → Bytes → Result TsaError (Unit {0})
  verify_rsa signer cert digest_oid signed_digest = do
    spki_der ← or_error parse (t.spki_der cert)
    public_key ← rsa_key_from_spki spki_der
    padding ← padding_of digest_oid
    require signature_invalid (t.rsa_verify public_key padding signed_digest (t.signature signer))

  unfoldable pub verify_cms_signature :
      ⦃d : Digests⦄ → t.SignerInfo → t.Certificate → Bytes → Result TsaError (Unit {0})
  verify_cms_signature signer cert econtent_bytes = do
    signed_attrs ← or_error parse (t.signed_attrs signer)
    econtent_digest ← digest_bytes (t.digest_alg signer) econtent_bytes
    md_ok ← check_digest econtent_digest (t.attributes signed_attrs) false
    matched ← require signature_invalid md_ok
    attrs_der ← or_error parse (t.attributes_der signed_attrs)
    signed_digest ← digest_bytes (t.digest_alg signer) (retag attrs_der)
    rsa ← require unsupported_algorithm (is_rsa (t.signature_algorithm signer))
    verify_rsa signer cert (t.digest_alg signer) signed_digest

  unfoldable pub gen_time_text : t.TstInfo → Result TsaError Str
  gen_time_text tst_info = do
    secs ← to_i64 (t.gen_time tst_info).0
    or_error parse (t.format_time secs (t.gen_time tst_info).1)

  unfoldable pub verify_token : ⦃d : Digests⦄ → Bytes → Bytes → Result TsaError VerifiedToken
  verify_token token_der expected_sha256_imprint = do
    content_info ← parse_token token_der
    is_signed ← require parse (str_eq (t.content_type content_info) oid_signed_data)
    signed_data ← or_error parse (t.signed_data content_info)
    econtent ← or_error parse (t.econtent signed_data)
    tst_bytes ← or_error parse (t.octet_string econtent)
    tst_info ← or_error parse (t.tst_info tst_bytes)
    is_sha256 ← require unsupported_algorithm (str_eq (t.imprint_algorithm tst_info) oid_sha256)
    bound ← require imprint_mismatch (str_eq (t.hashed_message tst_info) expected_sha256_imprint)
    gen_time ← gen_time_text tst_info
    signer_info ← or_error parse (first_of (t.signer_infos signed_data))
    signer_cert ← find_signer_cert signed_data signer_info
    verified ← verify_cms_signature signer_info signer_cert tst_bytes
    ok (record {
      gen_time = gen_time;
      signer_subject = t.subject signer_cert;
      signature_verified = true;
    })
