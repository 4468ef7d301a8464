-- ===== src/Revocation.antt =====
-- crates/evidence/src/revocation.rs: the signed list of revoked recorder certificates.
pub mod Boundary
use sealr_verify.Common.{
  ℕ, ◌≤◌, ◌&&◌, ◌||◌, Bool, true, false, Option, none, some, List, [], ◌∷◌, leb, map,
}
use sealr_verify.Common.Text.{Str, codes, str_eq}
use sealr_verify.Common.Result.{Result, ok, EvidenceError, ◌>>=◌}
use sealr_verify.Deps.{Digests, Ed25519, Chrono}
use sealr_verify.Json.{Value, field, end, object, array, items, text}
use sealr_verify.Record.{parse_wall}
use sealr_verify.Keys.{SigningKey, VerifyingKey, sign_jcs, verify_jcs}

pub record RevocationEntry : Type 0 where
  pub cert_fingerprint : Str
  pub effective_at : Str
  pub reason : Str

pub record RevocationList : Type 0 where
  pub updated_at : Str
  pub revocations : List RevocationEntry

pub record SignedRevocationList : Type 0 where
  pub list : RevocationList
  pub console_key_id : Str
  pub signature : Str

entry_value : RevocationEntry → Value
entry_value r = object (
    field (codes "cert_fingerprint") (text r.cert_fingerprint) (
      field (codes "effective_at") (text r.effective_at)
        (field (codes "reason") (text r.reason) end)))

-- the list as `Serialize` writes it
unfoldable pub list_value : RevocationList → Value
unfolding entry_value
list_value l = object (
    field (codes "updated_at") (text l.updated_at)
      (field (codes "revocations") (array (items (map entry_value l.revocations))) end))

module _ ⦃e : Ed25519⦄ ⦃d : Digests⦄ where
  unfoldable pub create :
      RevocationList → Str → SigningKey → Result EvidenceError SignedRevocationList
  create list console_key_id k = do
    signature ← sign_jcs k (list_value list)
    ok (record { list = list; console_key_id = console_key_id; signature = signature })

  unfoldable pub verify : SignedRevocationList → VerifyingKey → Result EvidenceError (Unit {0})
  verify s console_key = verify_jcs console_key (list_value s.list) s.signature

-- `is_ok_and(|eff| at >= eff)`
unfoldable pub reached : ℕ → Option ℕ → Bool
reached at none = false
reached at (some eff) = leb eff at

module _ ⦃c : Chrono⦄ where
  unfoldable pub entry_applies : Str → ℕ → RevocationEntry → Bool
  entry_applies cert_fingerprint at r =
      str_eq r.cert_fingerprint cert_fingerprint && reached at (parse_wall r.effective_at)

  -- `any` over the entries
  unfoldable pub any_applies : Str → ℕ → List RevocationEntry → Bool
  unfolding entry_applies
  any_applies cert_fingerprint at [] = false
  any_applies cert_fingerprint at (r ∷ rs) =
      entry_applies cert_fingerprint at r || any_applies cert_fingerprint at rs

  unfoldable pub is_revoked_at : SignedRevocationList → Str → ℕ → Bool
  is_revoked_at s cert_fingerprint at = any_applies cert_fingerprint at s.list.revocations
