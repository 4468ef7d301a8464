-- ===== src/Deps/Tokens.antt =====
-- The crates `cms`, `der`, `x509_cert`, `x509_tsp`, `rsa` and `sha2` as an interface: time-stamp
-- tokens by what the source reads of them. An object identifier is its dotted text.
use sealr_verify.Common.{ℕ, Bool, Option, List}
use sealr_verify.Common.Int.{ℤ}
use sealr_verify.Common.Text.{Bytes, Str}

-- `SignerIdentifier`
pub data SignerIdentifier (Name Serial : Type 0) : Type 0 where
  issuer_and_serial_number : Name → Serial → SignerIdentifier Name Serial
  subject_key_identifier : SignerIdentifier Name Serial

-- the digests that `Pkcs1v15Sign::new` is called with
pub data Padding : Type 0 where
  pad_sha256 pad_sha384 pad_sha512 : Padding

pub record Tokens : Type 1 where
  pub ContentInfo : Type 0
  pub SignedData : Type 0
  pub SignerInfo : Type 0
  pub TstInfo : Type 0
  pub SignedAttributes : Type 0
  pub Attribute : Type 0
  pub Any : Type 0
  pub Certificate : Type 0
  pub Name : Type 0
  pub Serial : Type 0
  pub RsaPublicKey : Type 0
  -- `TimeStampResp::from_der`: the status as a number, and the token
  pub time_stamp_resp : Bytes → Option (ℕ × Option ContentInfo)
  -- `ContentInfo::from_der`
  pub content_info : Bytes → Option ContentInfo
  pub content_type : ContentInfo → Str
  -- `content.decode_as::<SignedData>()`
  pub signed_data : ContentInfo → Option SignedData
  -- `encap_content_info.econtent`
  pub econtent : SignedData → Option Any
  -- `decode_as::<OctetString>()`, and its bytes
  pub octet_string : Any → Option Bytes
  -- `TstInfo::from_der`
  pub tst_info : Bytes → Option TstInfo
  pub imprint_algorithm : TstInfo → Str
  pub hashed_message : TstInfo → Bytes
  -- `gen_time.to_unix_duration()`: seconds and nanoseconds
  pub gen_time : TstInfo → ℕ × ℕ
  -- `chrono::DateTime::from_timestamp` and its form with milliseconds
  pub format_time : ℤ → ℕ → Option Str
  pub signer_infos : SignedData → List SignerInfo
  -- the certificates, where a choice is one
  pub certificates : SignedData → Option (List (Option Certificate))
  pub sid : SignerInfo → SignerIdentifier Name Serial
  pub serial_number : Certificate → Serial
  pub issuer : Certificate → Name
  pub same_serial : Serial → Serial → Bool
  pub same_name : Name → Name → Bool
  -- `subject.to_string()`
  pub subject : Certificate → Str
  pub digest_alg : SignerInfo → Str
  pub signature_algorithm : SignerInfo → Str
  pub signature : SignerInfo → Bytes
  pub signed_attrs : SignerInfo → Option SignedAttributes
  pub attributes : SignedAttributes → List Attribute
  pub attribute_oid : Attribute → Str
  pub attribute_values : Attribute → List Any
  -- `signed_attrs.to_der()`
  pub attributes_der : SignedAttributes → Option Bytes
  -- `subject_public_key_info.to_der()`
  pub spki_der : Certificate → Option Bytes
  -- `RsaPublicKey::from_public_key_der`
  pub rsa_key : Bytes → Option RsaPublicKey
  -- `public_key.verify(padding, digest, signature)`
  pub rsa_verify : RsaPublicKey → Padding → Bytes → Bytes → Bool
  pub sha384 : Bytes → Bytes
  pub sha512 : Bytes → Bytes
