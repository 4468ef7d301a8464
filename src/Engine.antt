-- ===== src/Engine.antt =====
-- crates/verify/src/engine.rs: what is collected for a stream, and findings.
pub mod Stream
pub mod Trust
pub mod Maps
pub mod Findings
pub mod Run
pub mod Anchors
pub mod Identity
pub mod Base64
pub mod Coverage
pub mod Checkpoints
use sealr_verify.Common.{
  ℕ, Bool, true, false, Option, none, some, List, [], ◌∷◌, ◌++◌, ◌==◌, if◌then◌else◌,
}
use sealr_verify.Common.Text.{Bytes, Str, str_eq}
use sealr_verify.Report.{Finding, Severity}

-- A `BTreeMap<u64, String>`: one entry for each key, whose order is not used.
abbrev pub SeqMap : Type 0
SeqMap = List (ℕ × Str)

-- `BTreeMap::get`
unfoldable pub seq_get : ℕ → SeqMap → Option Str
seq_get k [] = none
seq_get k (e ∷ m) = if e.0 == k then some e.1 else seq_get k m

-- `BTreeMap::insert`
unfoldable pub seq_insert : ℕ → Str → SeqMap → SeqMap
seq_insert k v [] = (k, v) ∷ []
seq_insert k v (e ∷ m) = if e.0 == k then (k, v) ∷ m else e ∷ seq_insert k v m

-- a `HashMap` with texts as keys
unfoldable pub str_get {ℓ} : {A : Type ℓ} → Str → List (Str × A) → Option A
str_get k [] = none
str_get k (e ∷ m) = if str_eq e.0 k then some e.1 else str_get k m

unfoldable pub str_insert {ℓ} : {A : Type ℓ} → Str → A → List (Str × A) → List (Str × A)
str_insert k v [] = (k, v) ∷ []
str_insert k v (e ∷ m) = if str_eq e.0 k then (k, v) ∷ m else e ∷ str_insert k v m

-- a `HashSet<u64>`
unfoldable pub has_seq : ℕ → List ℕ → Bool
has_seq k [] = false
has_seq k (x ∷ l) = if x == k then true else has_seq k l

unfoldable pub add_seq : ℕ → List ℕ → List ℕ
add_seq k l = if has_seq k l then l else k ∷ l

-- a `HashSet<String>`
unfoldable pub has_str : Str → List Str → Bool
has_str k [] = false
has_str k (x ∷ l) = if str_eq x k then true else has_str k l

unfoldable pub add_str : Str → List Str → List Str
add_str k l = if has_str k l then l else k ∷ l

-- `StreamData`, less the checkpoints themselves
pub record StreamData : Type 0 where
  pub hashes_by_seq : SeqMap
  pub ts_min : Option Str
  pub ts_max : Option Str
  pub coverage_gap_count : ℕ
  pub segments_without_end : List Str
  pub attested_seqs : List ℕ
  pub anchored_seqs : List ℕ
  pub checkpoint_digests : List (Str × Bytes)
  pub valid_checkpoint_ranges : List (Str × (ℕ × ℕ))
  pub checkpoint_note_hashes : List Str
  pub checkpoint_links : List (Str × Str)
  pub countersigned_checkpoints : List Str
  pub countersigned_high_water : Option ℕ
  pub top_checkpoint : Option (Str × ℕ)

-- `StreamData::default()`
abbrev pub no_data : StreamData
no_data = record {
  hashes_by_seq = [];
  ts_min = none;
  ts_max = none;
  coverage_gap_count = 0;
  segments_without_end = [];
  attested_seqs = [];
  anchored_seqs = [];
  checkpoint_digests = [];
  valid_checkpoint_ranges = [];
  checkpoint_note_hashes = [];
  checkpoint_links = [];
  countersigned_checkpoints = [];
  countersigned_high_water = none;
  top_checkpoint = none;
}

-- `Ctx::add_at`
unfoldable pub add_at : Severity → Str → Str → Option ℕ → List Finding → List Finding
add_at severity class stream seq findings =
    findings
    ++ record { severity = severity; class = class; stream_id = some stream; seq = seq } ∷ []
