-- ===== src/Bundle/Writer/Forward.antt =====
-- No method of the bundle writer goes back to an earlier phase, with or without an error.
use sealr_verify.Common.{
  ◌≤◌, ◌≡◌, refl, ap, ◌∙◌, Option, none, some, List, [], ◌∷◌, arith, Bool-cases, inl, inr, ltb,
  ◌==◌, leb, length, ◌++◌, if◌then◌else◌,
}
use sealr_verify.Common.Text.{Bytes, Str, codes}
use sealr_verify.Common.Result.{Result, BundleError, invalid}
use sealr_verify.Common.Run.{◌>>=◌, lift, fail, Moves, Moves-bind, Moves-if}
use sealr_verify.Deps.{Digests, Serde}
use sealr_verify.Deps.Archives.{Zips, Zstd}
use sealr_verify.Revocation.{SignedRevocationList}
use sealr_verify.Bundle.Writer.{
  BundleWriter, Write, Pretty, Phase, rank, records, checkpoints, anchors, vault, require_phase,
  start_file, write_all, write_entry, finish_records, close_records,
}
use sealr_verify.Bundle.Writer.Documents.{
  add_revocations, add_stream_checkpoints, add_rfc3161_token, add_qts_token, add_anchor_proofs,
  add_identity, add_vault_entry, invalid_vault_name,
}
use sealr_verify.Bundle.Writer.Records.{
  Shards, flush_shard, take_line, add_line, add_lines, push_stream, write_stream_records,
  add_stream_records, is_empty, no_shards,
}
use sealr_verify.Bundle.Writer.Methods.{
  Method, stream_records, stream_checkpoints, rfc3161_token, qts_token, anchor_proofs, identity,
  vault_entry, run, Tried, start, call,
}

module _ ⦃z : Zips⦄ where
  -- what leaves the phase alone
  abbrev Same : BundleWriter → BundleWriter → Type 0
  Same w v = v.phase ≡ w.phase

  abbrev pub Up : BundleWriter → BundleWriter → Type 0
  Up w v = rank w.phase ≤ rank v.phase

  Same-bind :
      {A B : Type 0} (m : Write A) (f : A → Write B)
      → Moves Same m
      → ((a : A) → Moves Same (f a))
      → Moves Same (m >>= f)
  Same-bind m f = Moves-bind Same m f (λ w u v p q. q ∙ p)

  Up-bind :
      {A B : Type 0} (m : Write A) (f : A → Write B)
      → Moves Up m
      → ((a : A) → Moves Up (f a))
      → Moves Up (m >>= f)
  Up-bind m f = Moves-bind Up m f (λ w u v p q. omega arith)

  Up-Same : {A : Type 0} (m : Write A) → Moves Same m → Moves Up m
  Up-Same m h w = omega (arith, ap rank (h w))

  Up-require_phase :
      (at_most next : Phase) → rank at_most ≤ rank next → Moves Up (require_phase at_most next)
  unfolding require_phase
  Up-require_phase at_most next le w = elim (Bool-cases (ltb (rank at_most) (rank w.phase))) [
    | inl late ↦ rw late (omega arith)
    | inr early ↦ rw early (ground (arith))
  ]

module _ ⦃z : Zips⦄ ⦃d : Digests⦄ where
  Same-write_entry : (path : Str) (bytes : Bytes) → Moves Same (write_entry path bytes)
  unfolding write_entry start_file write_all
  Same-write_entry path bytes =
      Same-bind (start_file path) _ (λ w. refl)
        (λ u. Same-bind (write_all bytes) _ (λ w. refl) (λ v w. refl))

  module _ ⦃c : Zstd⦄ where
    Same-flush_shard : (id : Str) (s : Shards) → Moves Same (flush_shard id s)
    unfolding flush_shard
    Same-flush_shard id s =
        Moves-if Same (is_empty s.shard_buf) _ _ (λ w. refl)
          (Same-bind (lift _) _ (λ w. refl)
            (λ b. Same-bind (write_entry _ b) _ (Same-write_entry _ b) (λ u w. refl)))

    Same-add_line : (id : Str) (line : Bytes) (s : Shards) → Moves Same (add_line id line s)
    unfolding add_line
    Same-add_line id line s w =
        elim (Bool-cases (leb w.shard_threshold (length (take_line line s).shard_buf))) [
          | inl e ↦ rw e (
              Same-bind (flush_shard id (take_line line s)) _
                (Same-flush_shard id (take_line line s)) (λ cut w. refl) w)
          | inr e ↦ rw e
        ]

    Same-add_lines :
        (id : Str) (lines : List (Result BundleError Bytes)) (s : Shards)
        → Moves Same (add_lines id lines s)
    unfolding add_lines
    Same-add_lines id [] s = λ w. refl
    Same-add_lines id (l ∷ lines) s =
        Same-bind (lift l) _ (λ w. refl)
          (λ line.
            Same-bind (add_line id line s) _ (Same-add_line id line s) (Same-add_lines id lines))

    Same-write_stream_records :
        ⦃s : Serde⦄ (id : Str) (lines : List (Result BundleError Bytes))
        → Moves Same (write_stream_records id lines)
    unfolding write_stream_records push_stream
    Same-write_stream_records id lines =
        Same-bind (add_lines id lines no_shards) _ (Same-add_lines id lines no_shards) (λ all.
          Same-bind (flush_shard id all) _ (Same-flush_shard id all)
            (λ rest. Same-bind (lift _) _ (λ w. refl) (λ entry w. refl)))

    Up-add_stream_records :
        ⦃s : Serde⦄ (id : Str) (lines : List (Result BundleError Bytes))
        → Moves Up (add_stream_records id lines)
    unfolding add_stream_records
    Up-add_stream_records id lines =
        Up-bind (require_phase records records) _ (Up-require_phase records records (omega arith))
          (λ u. Up-Same (write_stream_records id lines) (Same-write_stream_records id lines))

  module _ ⦃p : Pretty⦄ where
    Up-finish_records : (w : BundleWriter) → rank w.phase ≡ 0 → Up w (finish_records w).1
    Up-finish_records w e = omega (arith, e)

    Up-close_records : Moves Up close_records
    unfolding close_records
    Up-close_records w = elim (Bool-cases (rank w.phase == 0)) [
      | inl e ↦ let zero : rank w.phase ≡ 0 = ground (arith) in rw e (Up-finish_records w zero)
      | inr e ↦ rw e (omega arith)
    ]

    Up-method :
        (at_most next : Phase) (write : Write (Unit {0}))
        → rank at_most ≤ rank next
        → Moves Same write
        → Moves Up (close_records >>= λ u. require_phase at_most next >>= λ v. write)
    Up-method at_most next write le h = Up-bind close_records _ Up-close_records (λ u.
        Up-bind (require_phase at_most next) _ (Up-require_phase at_most next le)
          (λ v. Up-Same write h))

    Same-printed :
        (path : Str) (bytes : Result BundleError Bytes)
        → Moves Same (lift bytes >>= write_entry path)
    Same-printed path bytes = Same-bind (lift bytes) _ (λ w. refl) (Same-write_entry path)

    Same-add_revocations : (rev : Option SignedRevocationList) → Moves Same (add_revocations rev)
    unfolding add_revocations
    Same-add_revocations none = λ w. refl
    Same-add_revocations (some rev) = Same-printed _ _

module _ ⦃z : Zips⦄ ⦃c : Zstd⦄ ⦃d : Digests⦄ ⦃s : Serde⦄ ⦃p : Pretty⦄ where
  Up-run : (m : Method) → Moves Up (run m)
  unfolding add_stream_checkpoints add_rfc3161_token add_qts_token add_anchor_proofs add_identity
      add_vault_entry
  Up-run (stream_records id lines) =
      Up-bind (add_stream_records id lines) _ (Up-add_stream_records id lines) (λ e w. omega arith)
  Up-run (stream_checkpoints id cps) =
      Up-method checkpoints checkpoints _ (omega arith) (Same-printed _ _)
  Up-run (rfc3161_token id b) = Up-method anchors anchors _ (omega arith) (Same-write_entry _ b)
  Up-run (qts_token day b) = Up-method anchors anchors _ (omega arith) (Same-write_entry _ b)
  Up-run (anchor_proofs proofs) = Up-method anchors anchors _ (omega arith) (Same-printed _ _)
  Up-run (identity pem rev roots) = Up-method anchors Phase.identity _ (omega arith) (
      Same-bind (write_entry _ _) _ (Same-write_entry _ _)
        (λ u. Same-bind (add_revocations rev) _ (Same-add_revocations rev) (λ v. Same-printed _ _)))
  Up-run (vault_entry name b) =
      let write : Write (Unit {0}) =
        if invalid_vault_name name then fail invalid else write_entry (codes "vault/" ++ name) b in
      Up-bind (require_phase vault vault) _ (Up-require_phase vault vault (omega arith)) (λ u.
        Up-Same write
          (Moves-if Same (invalid_vault_name name) _ _ (λ w. refl) (Same-write_entry _ b)))

  -- Whatever calls are made, and whether they succeed or not, the phase only goes forward.
  pub Tried-Up : (w v : BundleWriter) → Tried w v → Up w v
  Tried-Up w v start = omega arith
  Tried-Up w v (call {u} m t) = omega (arith, Tried-Up w u t, Up-run m u)
