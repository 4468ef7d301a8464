-- ===== src/Deps/X509.antt =====
-- The crate `x509_parser` as an interface: certificates by what the source reads of them.
use sealr_verify.Common.{Bool, Option, List}
use sealr_verify.Common.Int.{ℤ}
use sealr_verify.Common.Text.{Bytes, Str}

pub record X509 : Type 1 where
  -- `X509Certificate`, `X509Name`, `SubjectPublicKeyInfo` and `ASN1Time`
  pub Certificate : Type 0
  pub Name : Type 0
  pub PublicKey : Type 0
  pub Time : Type 0
  -- `Pem::iter_from_buffer`: the label and the contents of each block, where it can be read
  pub iter_from_buffer : Bytes → List (Option (Str × Bytes))
  -- `X509Certificate::from_der`, less what follows the certificate
  pub from_der : Bytes → Option Certificate
  pub issuer : Certificate → Name
  pub subject : Certificate → Name
  -- `==` on names
  pub same_name : Name → Name → Bool
  -- `subject().iter_common_name()`, each as a text where it is one
  pub common_names : Certificate → List (Option Str)
  pub public_key : Certificate → PublicKey
  -- the bytes of the bit string `subject_public_key`
  pub subject_public_key : PublicKey → Bytes
  -- for each extension that is a BasicConstraints, its flag `ca`
  pub extensions : Certificate → List (Option Bool)
  pub from_timestamp : ℤ → Option Time
  pub is_valid_at : Certificate → Time → Bool
  -- the bounds of the validity as timestamps
  pub not_before : Certificate → ℤ
  pub not_after : Certificate → ℤ
  -- `verify_signature` under a given key
  pub verify_signature : Certificate → PublicKey → Bool
