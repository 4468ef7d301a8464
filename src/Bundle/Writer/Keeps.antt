-- ===== src/Bundle/Writer/Keeps.antt =====
-- A predicate on the bundle writer that an entry, a change of the phase and a change of the index
-- keep is kept by every method that succeeds.
use sealr_verify.Common.{
  ltb, ◌≡◌, Option, none, some, List, [], ◌∷◌, Bool-cases, inl, inr, leb, length, ◌==◌,
}
use sealr_verify.Common.Text.{Bytes, Str}
use sealr_verify.Common.Result.{Result, BundleError, invalid}
use sealr_verify.Common.Run.{
  Run, ◌>>=◌, lift, gets, Keeps-if, Keeps, Keeps-bind, Keeps-pure, Keeps-lift, Keeps-gets,
  Keeps-fail, Keeps-modify,
}
use sealr_verify.Deps.{Digests, Serde}
use sealr_verify.Deps.Archives.{Zips, Zstd}
use sealr_verify.Bundle.Types.{RecordIndex, RecordIndexStream, index_value}
use sealr_verify.Bundle.Writer.{
  ℕ, BundleWriter, Phase, Pretty, require_phase, write_entry, or_json, finish_records,
  close_records, rank, records, checkpoints, anchors, identity, vault,
}
use sealr_verify.Revocation.{SignedRevocationList}
use sealr_verify.Bundle.Types.{BundleCheckpoint, RootsFile}
use sealr_verify.Bundle.Anchors.{AnchorProofs}
use sealr_verify.Bundle.Writer.Documents.{
  add_stream_checkpoints, add_rfc3161_token, add_qts_token, add_anchor_proofs, add_revocations,
  add_identity, add_vault_entry, invalid_vault_name,
}
use sealr_verify.Bundle.Writer.Paths.{ContentPath}
use sealr_verify.Bundle.Writer.Records.{
  push_stream, write_stream_records, is_empty, shard_path, Shards, flush_shard, add_line, add_lines,
  add_stream_records, no_shards, take_line,
}

module _ ⦃z : Zips⦄ ⦃c : Zstd⦄ ⦃d : Digests⦄ where
  -- what the methods for records need of a predicate
  pub record ShardStable (P : BundleWriter → Type 0) : Type 0 where
    pub on_shard :
        (id : Str) (n : ℕ) (bytes : Bytes) → Keeps P (write_entry (shard_path id n) bytes)
    pub on_phase : (w : BundleWriter) (next : Phase) → P w → P (record w { phase = next })
    pub on_index : (w : BundleWriter) (x : RecordIndex) → P w → P (record w { index = x })

  -- and what the others need
  pub record Stable (P : BundleWriter → Type 0) : Type 0 where
    pub on_entry :
        (path : Str) (bytes : Bytes) → ContentPath path → Keeps P (write_entry path bytes)
    pub on_phase : (w : BundleWriter) (next : Phase) → P w → P (record w { phase = next })
    pub on_index : (w : BundleWriter) (x : RecordIndex) → P w → P (record w { index = x })

  pub shards_of : {P : BundleWriter → Type 0} → Stable P → ShardStable P
  shards_of st = record {
    on_shard = λ id n bytes. st.on_entry _ bytes (ContentPath.shard id n);
    on_phase = st.on_phase;
    on_index = st.on_index;
  }

  module _ {P : BundleWriter → Type 0} (st : ShardStable P) where
    pub Keeps-require_phase : (at_most next : Phase) → Keeps P (require_phase at_most next)
    unfolding require_phase
    Keeps-require_phase at_most next s t u p h =
        elim (Bool-cases (ltb (rank at_most) (rank s.phase))) [
          | inl late ↦ absurd (cc (rw late at h))
          | inr early ↦
              let same : record s { phase = next } ≡ t = cc (rw early at h) in
              rw (← same) (st.on_phase s next p)
        ]

    pub Keeps-flush_shard : (id : Str) (s : Shards) → Keeps P (flush_shard id s)
    unfolding flush_shard
    Keeps-flush_shard id s = Keeps-if P (is_empty s.shard_buf) (Keeps-pure P s) (
        Keeps-bind P _ _ (Keeps-lift P _) (λ compressed.
          Keeps-bind P _ _ (st.on_shard id s.shard_no compressed) (λ u. Keeps-pure P _)))

    pub Keeps-add_line : (id : Str) (line : Bytes) (s : Shards) → Keeps P (add_line id line s)
    unfolding add_line
    Keeps-add_line id line s w t a p h =
        elim (Bool-cases (leb w.shard_threshold (length (take_line line s).shard_buf))) [
          | inl e ↦
              Keeps-bind P _ _ (Keeps-flush_shard id (take_line line s)) (λ cut. Keeps-pure P _) w t
                a p (rw e at h)
          | inr e ↦ let same : w ≡ t = cc (rw e at h) in rw (← same) p
        ]

    pub Keeps-add_lines :
        (id : Str) (lines : List (Result BundleError Bytes)) (s : Shards)
        → Keeps P (add_lines id lines s)
    unfolding add_lines
    Keeps-add_lines id [] s = Keeps-pure P s
    Keeps-add_lines id (l ∷ lines) s = Keeps-bind P _ _ (Keeps-lift P l) (λ line.
        Keeps-bind P _ _ (Keeps-add_line id line s) (λ more. Keeps-add_lines id lines more))

    Keeps-push_stream : (entry : RecordIndexStream) → Keeps P (push_stream entry)
    unfolding push_stream
    Keeps-push_stream entry =
        Keeps-bind P _ _ (Keeps-modify P _ (λ w p. st.on_index w _ p)) (λ u. Keeps-pure P entry)

    Keeps-write_stream_records :
        ⦃s : Serde⦄ (id : Str) (lines : List (Result BundleError Bytes))
        → Keeps P (write_stream_records id lines)
    unfolding write_stream_records
    Keeps-write_stream_records id lines =
        Keeps-bind P _ _ (Keeps-add_lines id lines no_shards) (λ all.
          Keeps-bind P _ _ (Keeps-flush_shard id all)
            (λ rest. Keeps-bind P _ _ (Keeps-lift P _) Keeps-push_stream))

    pub Keeps-add_stream_records :
        ⦃s : Serde⦄ (id : Str) (lines : List (Result BundleError Bytes))
        → Keeps P (add_stream_records id lines)
    unfolding add_stream_records
    Keeps-add_stream_records id lines =
        Keeps-bind P _ _ (Keeps-require_phase records records)
          (λ u. Keeps-write_stream_records id lines)

  module _ {P : BundleWriter → Type 0} (st : Stable P) where
    -- `write_entry` of bytes that `serde_json` gives
    Keeps-printed :
        (path : Str) (bytes : Result BundleError Bytes)
        → ContentPath path
        → Keeps P (lift bytes >>= write_entry path)
    Keeps-printed path bytes is = Keeps-bind P _ _ (Keeps-lift P bytes) (λ b. st.on_entry path b is)

    module _ ⦃p : Pretty⦄ where
      pub Keeps-finish_records : Keeps P finish_records
      unfolding finish_records
      Keeps-finish_records =
          Keeps-bind P (gets (λ w. w.index)) _ (Keeps-gets P (λ w. w.index)) (λ x.
            Keeps-bind P (lift (or_json (p.to_vec_pretty (index_value x)))) _ (Keeps-lift P _)
              (λ bytes.
                Keeps-bind P _ _ (st.on_entry _ bytes ContentPath.index)
                  (λ u. Keeps-modify P _ (λ w. st.on_phase w checkpoints))))

      pub Keeps-close_records : Keeps P close_records
      unfolding close_records
      Keeps-close_records w t u q h = elim (Bool-cases (rank w.phase == 0)) [
        | inl e ↦ Keeps-finish_records w t u q (rw e at h)
        | inr e ↦ let same : w ≡ t = cc (rw e at h) in rw (← same) q
      ]

      -- a method that closes the records, asks for a phase and writes
      Keeps-method :
          (at_most next : Phase) {write : Run BundleError BundleWriter (Unit {0})}
          → Keeps P write
          → Keeps P (close_records >>= λ u. require_phase at_most next >>= λ v. write)
      Keeps-method at_most next keeps =
          Keeps-bind P _ _ Keeps-close_records
            (λ u. Keeps-bind P _ _ (Keeps-require_phase (shards_of st) at_most next) (λ v. keeps))

      pub Keeps-add_stream_checkpoints :
          (id : Str) (cps : List BundleCheckpoint) → Keeps P (add_stream_checkpoints id cps)
      unfolding add_stream_checkpoints
      Keeps-add_stream_checkpoints id cps =
          Keeps-method checkpoints checkpoints (Keeps-printed _ _ (ContentPath.checkpoints id))

      pub Keeps-add_rfc3161_token : (id : Str) (b : Bytes) → Keeps P (add_rfc3161_token id b)
      unfolding add_rfc3161_token
      Keeps-add_rfc3161_token id b =
          Keeps-method anchors anchors (st.on_entry _ b (ContentPath.rfc3161 id))

      pub Keeps-add_qts_token : (day : Str) (b : Bytes) → Keeps P (add_qts_token day b)
      unfolding add_qts_token
      Keeps-add_qts_token day b =
          Keeps-method anchors anchors (st.on_entry _ b (ContentPath.qts day))

      pub Keeps-add_anchor_proofs : (proofs : AnchorProofs) → Keeps P (add_anchor_proofs proofs)
      unfolding add_anchor_proofs
      Keeps-add_anchor_proofs proofs =
          Keeps-method anchors anchors (Keeps-printed _ _ ContentPath.proofs)

      Keeps-add_revocations : (rev : Option SignedRevocationList) → Keeps P (add_revocations rev)
      unfolding add_revocations
      Keeps-add_revocations none = Keeps-pure P tt
      Keeps-add_revocations (some rev) = Keeps-printed _ _ ContentPath.revocations

      pub Keeps-add_identity :
          (pem : Str) (rev : Option SignedRevocationList) (roots : RootsFile)
          → Keeps P (add_identity pem rev roots)
      unfolding add_identity
      Keeps-add_identity pem rev roots = Keeps-method anchors identity (
          Keeps-bind P _ _ (st.on_entry _ _ ContentPath.certs) (λ u.
            Keeps-bind P _ _ (Keeps-add_revocations rev)
              (λ v. Keeps-printed _ _ ContentPath.roots)))

      pub Keeps-add_vault_entry : (name : Str) (b : Bytes) → Keeps P (add_vault_entry name b)
      unfolding add_vault_entry
      Keeps-add_vault_entry name b =
          Keeps-bind P _ _ (Keeps-require_phase (shards_of st) vault vault) (λ u.
            Keeps-if P (invalid_vault_name name) (Keeps-fail P invalid)
              (st.on_entry _ b (ContentPath.vault name)))
