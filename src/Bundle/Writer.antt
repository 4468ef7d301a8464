-- ===== src/Bundle/Writer.antt =====
-- crates/bundle/src/write.rs: the writer of a bundle, a method at a time.
pub mod Readme
pub mod Records
pub mod Documents
pub mod Paths
pub mod Keeps
pub mod Reach
pub mod Methods
pub mod Phases
pub mod Vault
pub mod Forward
pub mod Listed
pub mod Finish
use sealr_verify.Common.{
  ℕ, zero, suc, ◌+◌, ◌-◌, ◌%◌, ◌^◌, Bool, true, false, ◌||◌, Option, none, some, List, [], ◌∷◌,
  ◌++◌, map, length, ltb, leb, ◌==◌, if◌then◌else◌,
}
use sealr_verify.Common.Text.{Bytes, Str, codes, utf8, str_eq}
use sealr_verify.Common.Result.{
  Result, ok, err, EvidenceError, BundleError, io, zip, json, invalid, evidence,
}
use sealr_verify.Common.Run.{Run, ◌>>=◌, ◌>>◌, pure, lift, fail, gets, modify}
use sealr_verify.Deps.{Digests, Serde}
use sealr_verify.Deps.Archives.{ZipError, Zips, Zstd}
use sealr_verify.Hash.{blake3_hex}
use sealr_verify.Jcs.{decimal, to_jcs_bytes}
use sealr_verify.Json.{Value, get_key, as_u64, and_then}
use sealr_verify.Revocation.{SignedRevocationList}
use sealr_verify.Bundle.Anchors.{AnchorProofs}
use sealr_verify.Bundle.Types.{
  BundleCheckpoint, StreamCheckpoints, RecordIndexStream, RecordIndex, RootsFile,
  stream_checkpoints_value, index_value, roots_value, revocations_value, proofs_value,
}
use sealr_verify.Bundle.Manifest.{
  ExportLevel, StreamScope, BundleScope, ContentEntry, ToolInfo, Manifest, manifest_value, jcs_hash,
}
use sealr_verify.Bundle.Writer.Readme.{verify_md_template}

abbrev pub bundle_schema_version : Str
bundle_schema_version = codes "1"

abbrev pub shard_size_bytes : ℕ
shard_size_bytes = 536_870_912

pub data Phase : Type 0 where
  records checkpoints anchors identity vault finished : Phase

-- the derived order
abbrev pub rank : Phase → ℕ
rank records = 0
rank checkpoints = 1
rank anchors = 2
rank identity = 3
rank vault = 4
rank finished = 5

-- `?` on what `serde_json` returns
abbrev pub or_json : {A : Type 0} → Option A → Result BundleError A
or_json none = err json
or_json (some a) = ok a

-- `?` on an `EvidenceError`
abbrev pub or_evidence : {A : Type 0} → Result EvidenceError A → Result BundleError A
or_evidence (ok a) = ok a
or_evidence (err e) = err (evidence e)

-- `?` on what the crate `zip` returns
abbrev pub or_zip : {A : Type 0} → Result ZipError A → Result BundleError A
or_zip (ok a) = ok a
or_zip (err e) = err zip

-- `?` on what `std::io` returns
abbrev pub or_io : {A : Type 0} → Option A → Result BundleError A
or_io none = err io
or_io (some a) = ok a

-- The crate `serde_json`: a value printed over several lines.
pub record Pretty : Type 0 where
  pub to_vec_pretty : Value → Option Bytes

module _ ⦃z : Zips⦄ where
  pub record BundleWriter : Type 0 where
    pub zip_writer : z.ZipWriter
    pub contents : List ContentEntry
    pub index : RecordIndex
    pub phase : Phase
    pub tool : ToolInfo
    pub bundle_id : Str
    pub created_at : Str
    pub shard_threshold : ℕ

  abbrev pub Write : Type 0 → Type 0
  Write A = Run BundleError BundleWriter A

  unfoldable pub new : z.Target → Str → Str → ToolInfo → BundleWriter
  new target bundle_id created_at tool = record {
    zip_writer = z.new_writer target;
    contents = [];
    index = record { streams = [] };
    phase = records;
    tool = tool;
    bundle_id = bundle_id;
    created_at = created_at;
    shard_threshold = shard_size_bytes;
  }

  unfoldable pub with_shard_threshold : BundleWriter → ℕ → BundleWriter
  with_shard_threshold w bytes = record w { shard_threshold = bytes }

  unfoldable pub require_phase : Phase → Phase → Write (Unit {0})
  require_phase at_most next w =
      if ltb (rank at_most) (rank w.phase)
      then (err invalid, w)
      else (ok tt, record w { phase = next })

  -- `self.zip.start_file(path, entry_options())?`
  unfoldable pub start_file : Str → Write (Unit {0})
  start_file path w =
      let (r, zw) = z.start_file path w.zip_writer in (or_zip r, record w { zip_writer = zw })

  -- `self.zip.write_all(bytes)?`
  unfoldable pub write_all : Bytes → Write (Unit {0})
  write_all bytes w =
      let (r, zw) = z.write_all bytes w.zip_writer in (or_io r, record w { zip_writer = zw })

-- the entry that the manifest has for a path and its bytes
abbrev pub content_of : ⦃d : Digests⦄ → Str → Bytes → ContentEntry
content_of path bytes = record { path = path; blake3 = blake3_hex bytes; bytes = length bytes }

module _ ⦃z : Zips⦄ ⦃d : Digests⦄ where
  unfoldable pub write_entry : Str → Bytes → Write (Unit {0})
  write_entry path bytes = do
    start_file path
    write_all bytes
    modify (λ w. record w { contents = w.contents ++ content_of path bytes ∷ [] })

  -- `finish_records`
  unfoldable pub finish_records : ⦃p : Pretty⦄ → Write (Unit {0})
  finish_records ⦃p⦄ = do
    index ← gets (λ w. w.index)
    bytes ← lift (or_json (p.to_vec_pretty (index_value index)))
    write_entry (codes "records/index.json") bytes
    modify (λ w. record w { phase = checkpoints })

  -- `if self.phase == Phase::Records { self.finish_records()?; }`
  unfoldable pub close_records : ⦃p : Pretty⦄ → Write (Unit {0})
  close_records w =
      let closed = finish_records w in if rank w.phase == 0 then closed else (ok tt, w)
