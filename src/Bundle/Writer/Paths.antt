-- ===== src/Bundle/Writer/Paths.antt =====
-- The paths of the entries of a bundle, as ADR-014 lists them.
use sealr_verify.Common.{ℕ, refl, false, ◌==◌, arith, ◌∷◌, ◌++◌, ◌≡◌, ◌≢◌}
use sealr_verify.Common.Text.{Str, codes}
use sealr_verify.Bundle.Writer.Records.{shard_path}

-- every path but that of the manifest
pub data ContentPath : Str → Type 0 where
  shard : (stream_id : Str) (shard_no : ℕ) → ContentPath (shard_path stream_id shard_no)
  index : ContentPath (codes "records/index.json")
  checkpoints :
      (stream_id : Str) → ContentPath (codes "checkpoints/" ++ (stream_id ++ codes ".json"))
  rfc3161 : (batch_id : Str) → ContentPath (codes "anchors/rfc3161/" ++ (batch_id ++ codes ".tsr"))
  qts : (day : Str) → ContentPath (codes "anchors/qts/" ++ (day ++ codes ".der"))
  proofs : ContentPath (codes "anchors/proofs.json")
  certs : ContentPath (codes "identity/certs.pem")
  revocations : ContentPath (codes "identity/revocations.json")
  roots : ContentPath (codes "identity/roots.json")
  vault : (name : Str) → ContentPath (codes "vault/" ++ name)
  readme : ContentPath (codes "VERIFY.md")

pub cons-ne : (c e : ℕ) {s t : Str} → (c == e) ≡ false → (c ∷ s) ≢ (e ∷ t)
cons-ne c e ne h = let same : c ≡ e = cc in ground (arith)

pub ContentPath-ne-manifest : {p : Str} → ContentPath p → p ≢ codes "manifest.json"
unfolding shard_path
ContentPath-ne-manifest (shard s n) = cons-ne b'r' b'm' refl
ContentPath-ne-manifest index = cons-ne b'r' b'm' refl
ContentPath-ne-manifest (checkpoints s) = cons-ne b'c' b'm' refl
ContentPath-ne-manifest (rfc3161 s) = cons-ne b'a' b'm' refl
ContentPath-ne-manifest (qts s) = cons-ne b'a' b'm' refl
ContentPath-ne-manifest proofs = cons-ne b'a' b'm' refl
ContentPath-ne-manifest certs = cons-ne b'i' b'm' refl
ContentPath-ne-manifest revocations = cons-ne b'i' b'm' refl
ContentPath-ne-manifest roots = cons-ne b'i' b'm' refl
ContentPath-ne-manifest (vault s) = cons-ne b'v' b'm' refl
ContentPath-ne-manifest readme = cons-ne b'V' b'm' refl
