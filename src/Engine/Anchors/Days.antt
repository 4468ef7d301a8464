-- ===== src/Engine/Anchors/Days.antt =====
-- The days of `verify_anchors` leave the streams as they are.
use sealr_verify.Common.{
  ◌≡◌, refl, ◌∙◌, ◌&&◌, not, inl, inr, Bool-cases, Option, none, some, List, [], ◌∷◌, length, ◌==◌,
}
use sealr_verify.Common.Text.{Bytes, Str, str_eq}
use sealr_verify.Common.Result.{Result, ok, err, EvidenceError, BundleError, collect}
use sealr_verify.Deps.{Digests, Ed25519}
use sealr_verify.Deps.Tokens.{Tokens}
use sealr_verify.Merkle.{merkle_root}
use sealr_verify.Hash.{hex_encode, sha256_raw, hex_decode_digest}
use sealr_verify.Tsa.{TsaError, VerifiedToken, verify_token}
use sealr_verify.Bundle.Anchors.{DailyRoot}
use sealr_verify.Engine.Identity.{KeyMap}
use sealr_verify.Engine.Anchors.{
  Anchoring, accept_day, read_qts, bind_qts, check_qts, any_day_key, check_day_signature,
  check_day_roots, check_day, check_days,
}

module _ ⦃d : Digests⦄ ⦃t : Tokens⦄ (entry_bytes : Str → Result BundleError Bytes) where
  accept_day-streams :
      (out : Result TsaError VerifiedToken) (a : Anchoring)
      → (accept_day entry_bytes out a).streams ≡ a.streams
  unfolding accept_day
  accept_day-streams (err problem) a = refl
  accept_day-streams (ok token) a = refl

  read_qts-streams :
      (sha : Bytes) (out : Result BundleError Bytes) (a : Anchoring)
      → (read_qts entry_bytes sha out a).streams ≡ a.streams
  unfolding read_qts
  read_qts-streams sha (err problem) a = refl
  read_qts-streams sha (ok bytes) a = accept_day-streams (verify_token bytes sha) a

  bind_qts-streams :
      (qts : Str) (out : Result EvidenceError Bytes) (a : Anchoring)
      → (bind_qts entry_bytes qts out a).streams ≡ a.streams
  unfolding bind_qts
  bind_qts-streams qts (err problem) a = refl
  bind_qts-streams qts (ok root_raw) a = read_qts-streams (sha256_raw root_raw) (entry_bytes qts) a

  check_qts-streams :
      (root : Str) (qts : Option Str) (a : Anchoring)
      → (check_qts entry_bytes root qts a).streams ≡ a.streams
  unfolding check_qts
  check_qts-streams root none a = refl
  check_qts-streams root (some qts) a = bind_qts-streams qts (hex_decode_digest root) a

  module _ ⦃e : Ed25519⦄ where
    check_day_signature-streams :
        (keys : KeyMap) (day : DailyRoot) (sig key_id : Option Str) (a : Anchoring)
        → (check_day_signature entry_bytes keys day sig key_id a).streams ≡ a.streams
    unfolding check_day_signature
    check_day_signature-streams keys day none key_id a = refl
    check_day_signature-streams keys day (some sig) none a = refl
    check_day_signature-streams keys day (some sig) (some key_id) a =
        elim (Bool-cases (not (any_day_key entry_bytes day sig keys) && not (length keys == 0))) [
          | inl t ↦ rw t refl
          | inr t ↦ rw t refl
        ]

    check_day_roots-streams :
        (keys : KeyMap) (day : DailyRoot) (out : Result EvidenceError (List Bytes)) (a : Anchoring)
        → (check_day_roots entry_bytes keys day out a).streams ≡ a.streams
    unfolding check_day_roots
    check_day_roots-streams keys day (err problem) a = refl
    check_day_roots-streams keys day (ok leaves) a =
        elim (Bool-cases (str_eq (hex_encode (merkle_root leaves)) day.root_blake3)) [
          | inr t ↦ rw t refl
          | inl t ↦ rw t (
              check_qts-streams day.root_blake3 day.qts_file _
              ∙ check_day_signature-streams keys day day.signature day.console_key_id a)
        ]

    check_day-streams :
        (keys : KeyMap) (day : DailyRoot) (a : Anchoring)
        → (check_day entry_bytes keys day a).streams ≡ a.streams
    unfolding check_day
    check_day-streams keys day a =
        check_day_roots-streams keys day (collect hex_decode_digest day.batch_roots) a

    pub check_days-streams :
        (keys : KeyMap) (days : List DailyRoot) (a : Anchoring)
        → (check_days entry_bytes keys days a).streams ≡ a.streams
    unfolding check_days
    check_days-streams keys [] a = refl
    check_days-streams keys (day ∷ days) a =
        check_days-streams keys days (check_day entry_bytes keys day a)
        ∙ check_day-streams keys day a
