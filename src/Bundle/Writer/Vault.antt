-- ===== src/Bundle/Writer/Vault.antt =====
-- A vault entry that comes before anything but records leaves the bundle without its index.
use sealr_verify.Common.{
  subst, inl, inr, ltb, Bool-cases, ℕ, ◌≡◌, ◌≢◌, refl, sym, ap, ◌∙◌, Option, some, List, [], ◌∷◌,
  ◌++◌, All, All-append, arith,
}
use sealr_verify.Common.Text.{Bytes, Str, codes, utf8}
use sealr_verify.Common.Result.{Result, ok, BundleError, invalid}
use sealr_verify.Common.Run.{Keeps, Keeps-if, Keeps-fail, >>=-succeeds}
use sealr_verify.Deps.{Digests, Serde}
use sealr_verify.Deps.Archives.{Zips, Zstd}
use sealr_verify.Checkpoint.{last}
use sealr_verify.Bundle.Manifest.{ContentEntry, ExportLevel, ToolInfo, Manifest}
use sealr_verify.Bundle.Types.{RecordIndexStream}
use sealr_verify.Bundle.Writer.{
  BundleWriter, Pretty, Phase, rank, vault, new, with_shard_threshold, require_phase, write_entry,
  close_records, content_of,
}
use sealr_verify.Bundle.Writer.Documents.{add_vault_entry, finish, manifest_of, invalid_vault_name}
use sealr_verify.Bundle.Writer.Finish.{write_manifest_ok}
use sealr_verify.Bundle.Writer.Phases.{close_records-late}
use sealr_verify.Bundle.Writer.Readme.{verify_md_template}
use sealr_verify.Bundle.Writer.Keeps.{ShardStable, Keeps-add_stream_records}
use sealr_verify.Bundle.Writer.Listed.{write_entry_ok}
use sealr_verify.Bundle.Writer.Paths.{cons-ne}
use sealr_verify.Bundle.Writer.Records.{add_stream_records, shard_path, padded}

last-cons : (x : ℕ) (l : Str) {c : ℕ} → last l ≡ some c → last (x ∷ l) ≡ some c
last-cons x [] h = absurd (cc)
last-cons x (y ∷ l) h = h

last-append : (s t : Str) {c : ℕ} → last t ≡ some c → last (s ++ t) ≡ some c
last-append [] t h = h
last-append (x ∷ s) t h = last-cons x (s ++ t) (last-append s t h)

-- the path of a shard ends in another character than that of the index
shard_path-ne-index : (id : Str) (n : ℕ) → shard_path id n ≢ codes "records/index.json"
unfolding shard_path
shard_path-ne-index id n h =
    let ends : last (shard_path id n) ≡ some b't' =
      last-append (codes "records/") (id ++ (codes ".part-" ++ (padded n ++ codes ".ndjson.zst"))) (
        last-append id (codes ".part-" ++ (padded n ++ codes ".ndjson.zst")) (
          last-append (codes ".part-") (padded n ++ codes ".ndjson.zst")
            (last-append (padded n) (codes ".ndjson.zst") refl))) in
    let both : ◌≡◌ {A = Option ℕ} (some b't') (some b'n') = sym ends ∙ ap last h in
    let same : ◌≡◌ {A = ℕ} b't' b'n' = cc in omega (arith, same)

module _ ⦃z : Zips⦄ ⦃c : Zstd⦄ ⦃d : Digests⦄ where
  abbrev pub HasNoIndex : List ContentEntry → Type 0
  HasNoIndex = All (λ (c : ContentEntry). c.path ≢ codes "records/index.json")

  abbrev NoIndex : BundleWriter → Type 0
  NoIndex w = HasNoIndex w.contents

  NoIndex-write_entry :
      (path : Str) (bytes : Bytes)
      → path ≢ codes "records/index.json"
      → Keeps NoIndex (write_entry path bytes)
  NoIndex-write_entry path bytes ne w v u h e =
      let grown : w.contents ++ content_of path bytes ∷ [] ≡ v.contents =
        ap (λ x. x.contents) (sym (write_entry_ok path bytes w v e).0) in
      rw (← grown) (All-append _ w.contents _ h (ne, tt))

  NoIndex-stable : ShardStable NoIndex
  NoIndex-stable = record {
    on_shard = λ id n bytes. NoIndex-write_entry _ bytes (shard_path-ne-index id n);
    on_phase = λ w next h. h;
    on_index = λ w x h. h;
  }

  -- in the vault phase, without an index
  abbrev IsSealed : BundleWriter → Type 0
  IsSealed w = (rank w.phase ≡ 4) × NoIndex w

  IsSealed-write_entry :
      (path : Str) (bytes : Bytes)
      → path ≢ codes "records/index.json"
      → Keeps IsSealed (write_entry path bytes)
  IsSealed-write_entry path bytes ne w v u h e = (
    ap (λ x. rank x.phase) (write_entry_ok path bytes w v e).0 ∙ h.0,
    NoIndex-write_entry path bytes ne w v u h.1 e,
  )

module _ ⦃z : Zips⦄ where
  require_phase_ok :
      (at_most next : Phase) (w v : BundleWriter) {u : Unit {0}}
      → require_phase at_most next w ≡ (ok u, v)
      → record w { phase = next } ≡ v
  unfolding require_phase
  require_phase_ok at_most next w v h = elim (Bool-cases (ltb (rank at_most) (rank w.phase))) [
    | inl late ↦ absurd (cc (rw late at h))
    | inr early ↦ cc (rw early at h)
  ]

module _ ⦃z : Zips⦄ ⦃c : Zstd⦄ ⦃d : Digests⦄ ⦃p : Pretty⦄ where
  IsSealed-add_vault_entry :
      (name : Str) (bytes : Bytes) (w v : BundleWriter)
      → add_vault_entry name bytes w ≡ (ok tt, v)
      → NoIndex w
      → IsSealed v
  unfolding add_vault_entry
  IsSealed-add_vault_entry name bytes w v h n =
      let (u, w1, e1, h1) = >>=-succeeds (require_phase vault vault) _ w v h in
      let start = require_phase_ok vault vault w w1 e1 in
      Keeps-if IsSealed (invalid_vault_name name) (Keeps-fail IsSealed invalid)
        (IsSealed-write_entry (codes "vault/" ++ name) bytes (cons-ne b'v' b'r' refl)) w1 v tt
        (ap (λ x. rank x.phase) (sym start), subst NoIndex start n) h1

  finish-HasNoIndex :
      (level : ExportLevel) (from to : Option Str) (resources : List Str) (w v : BundleWriter)
      (m : Manifest) (hash : Str) (target : z.Target)
      → finish level from to resources w ≡ (ok (m, hash, target), v)
      → IsSealed w
      → HasNoIndex m.contents
  unfolding finish manifest_of
  finish-HasNoIndex level from to resources w v m hash target h n =
      let (a, w1, e1, h1) = >>=-succeeds close_records _ w v h in
      let still : w ≡ w1 = ap (λ o. o.1) (sym (close_records-late w (omega (arith, n.0))) ∙ e1) in
      let (b, w2, e2, h2) =
        >>=-succeeds (write_entry (codes "VERIFY.md") (utf8 (verify_md_template w1.tool))) _ w1 v
          h1 in
      let kept =
        NoIndex-write_entry _ _ (cons-ne b'V' b'r' refl) w1 w2 b (subst NoIndex still n.1) e2 in
      subst HasNoIndex (ap (λ x. x.contents) (write_manifest_ok _ m w2 v hash target h2).0) kept

module _ ⦃z : Zips⦄ ⦃c : Zstd⦄ ⦃d : Digests⦄ ⦃q : Serde⦄ ⦃p : Pretty⦄ where
  -- the states that only records lead to
  pub data RecordsOnly (w : BundleWriter) : BundleWriter → Type 0 where
    start : RecordsOnly w w
    add :
        {u v : BundleWriter} (id : Str) (lines : List (Result BundleError Bytes))
        (entry : RecordIndexStream)
        → RecordsOnly w u
        → add_stream_records id lines u ≡ (ok entry, v)
        → RecordsOnly w v

  RecordsOnly-NoIndex : {w v : BundleWriter} → RecordsOnly w v → NoIndex w → NoIndex v
  RecordsOnly-NoIndex start n = n
  RecordsOnly-NoIndex (add id lines entry r h) n =
      Keeps-add_stream_records NoIndex-stable id lines _ _ entry (RecordsOnly-NoIndex r n) h

  -- A new writer that is given records of any streams, then a vault entry, and is finished then,
  -- returns a manifest that has no index of the records, which the reader needs for every stream.
  pub index_missing :
      (source : z.Target) (id at : Str) (tool : ToolInfo) (threshold : ℕ) (name : Str)
      (bytes : Bytes) (w v u : BundleWriter) (level : ExportLevel) (from to : Option Str)
      (resources : List Str) (m : Manifest) (hash : Str) (target : z.Target)
      → RecordsOnly (with_shard_threshold (new source id at tool) threshold) w
      → add_vault_entry name bytes w ≡ (ok tt, v)
      → finish level from to resources v ≡ (ok (m, hash, target), u)
      → HasNoIndex m.contents
  unfolding new with_shard_threshold
  index_missing source id at tool threshold name bytes w v u level from to resources m hash target r
        stored done =
      finish-HasNoIndex level from to resources v u m hash target done
        (IsSealed-add_vault_entry name bytes w v stored (RecordsOnly-NoIndex r tt))
