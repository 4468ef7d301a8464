-- ===== src/Bundle/Writer/Reach.antt =====
-- What every method of the bundle writer keeps holds in every state that is reached.
use sealr_verify.Common.Run.{Keeps, Keeps-bind, Keeps-pure}
use sealr_verify.Deps.{Digests, Serde}
use sealr_verify.Deps.Archives.{Zips, Zstd}
use sealr_verify.Bundle.Writer.{BundleWriter, Pretty}
use sealr_verify.Bundle.Writer.Keeps.{
  Stable, shards_of, Keeps-add_stream_records, Keeps-add_stream_checkpoints,
  Keeps-add_rfc3161_token, Keeps-add_qts_token, Keeps-add_anchor_proofs, Keeps-add_identity,
  Keeps-add_vault_entry,
}
use sealr_verify.Bundle.Writer.Methods.{
  Method, stream_records, stream_checkpoints, rfc3161_token, qts_token, anchor_proofs, identity,
  vault_entry, run, Reach, here, next,
}

module _ ⦃z : Zips⦄ ⦃c : Zstd⦄ ⦃d : Digests⦄ ⦃s : Serde⦄ ⦃p : Pretty⦄ {P : BundleWriter → Type 0}
    (st : Stable P) where
  pub Keeps-run : (m : Method) → Keeps P (run m)
  Keeps-run (stream_records id lines) =
      Keeps-bind P _ _ (Keeps-add_stream_records (shards_of st) id lines) (λ entry. Keeps-pure P tt)
  Keeps-run (stream_checkpoints id cps) = Keeps-add_stream_checkpoints st id cps
  Keeps-run (rfc3161_token id token) = Keeps-add_rfc3161_token st id token
  Keeps-run (qts_token day token) = Keeps-add_qts_token st day token
  Keeps-run (anchor_proofs proofs) = Keeps-add_anchor_proofs st proofs
  Keeps-run (identity pem rev roots) = Keeps-add_identity st pem rev roots
  Keeps-run (vault_entry name bytes) = Keeps-add_vault_entry st name bytes

  pub Reach-keeps : {w v : BundleWriter} → Reach w v → P w → P v
  Reach-keeps here q = q
  Reach-keeps (next m r call) q = Keeps-run m _ _ _ (Reach-keeps r q) call
