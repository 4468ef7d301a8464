-- ===== src/Bundle/Reader.antt =====
-- crates/bundle/src/read.rs: the reader of a bundle.
pub mod Streams
pub mod Lines
pub mod Binding
use sealr_verify.Common.{
  ℕ, zero, suc, ◌+◌, ◌%◌, ◌^◌, Bool, true, false, ◌&&◌, not, Option, none, some, List, [], ◌∷◌,
  ◌++◌, map, length, ◌==◌, if◌then◌else◌,
}
use sealr_verify.Common.Text.{Bytes, Str, codes, str_eq}
use sealr_verify.Common.Result.{
  Result, ok, err, ◌>>=◌, EvidenceError, BundleError, io, zip, json, manifest,
  content_hash_mismatch, missing_entry, evidence, invalid,
}
use sealr_verify.Common.Utf8.{from_utf8}
use sealr_verify.Deps.{Digests}
use sealr_verify.Deps.Archives.{ZipError, file_not_found, other_error, Zips, Zstd}
use sealr_verify.Hash.{blake3_hex}
use sealr_verify.Revocation.{SignedRevocationList}
use sealr_verify.Bundle.Anchors.{AnchorProofs}
use sealr_verify.Bundle.Types.{
  StreamCheckpoints, RecordIndexStream, RecordIndex, RootsFile, BundleIdentity,
}
use sealr_verify.Bundle.Manifest.{ContentEntry, Manifest, jcs_hash}
use sealr_verify.Bundle.Writer.{or_json, or_zip, or_io, or_evidence}

-- The crates `serde_json` and `serde` with the derived `Deserialize`: `from_slice` at each type.
pub record Parsers : Type 0 where
  pub manifest_from_slice : Bytes → Option Manifest
  pub index_from_slice : Bytes → Option RecordIndex
  pub checkpoints_from_slice : Bytes → Option StreamCheckpoints
  pub proofs_from_slice : Bytes → Option AnchorProofs
  pub revocations_from_slice : Bytes → Option SignedRevocationList
  pub roots_from_slice : Bytes → Option RootsFile

-- `map_err` on the parse of the manifest
abbrev pub or_manifest : {A : Type 0} → Option A → Result BundleError A
or_manifest none = err BundleError.manifest
or_manifest (some a) = ok a

-- `map_err` on `String::from_utf8`
abbrev pub or_invalid : {A : Type 0} → Option A → Result BundleError A
or_invalid none = err invalid
or_invalid (some a) = ok a

-- a `HashSet<&str>`
abbrev pub is_listed : Str → List ContentEntry → Bool
is_listed name [] = false
is_listed name (c ∷ cs) = if str_eq c.path name then true else is_listed name cs

-- `name.ends_with('/')`
abbrev pub is_directory : Str → Bool
is_directory [] = false
is_directory (c ∷ []) = c == b'/'
is_directory (c ∷ e ∷ s) = is_directory (e ∷ s)

-- the test of an entry that the manifest does not list
unfoldable pub is_unlisted : Str → List ContentEntry → Bool
is_unlisted name contents =
    not (str_eq name (codes "manifest.json"))
    && (not (is_listed name contents) && not (is_directory name))

module _ ⦃z : Zips⦄ where
  pub record BundleReader : Type 0 where
    pub archive : z.ZipArchive
    pub manifest : Manifest

  -- the file of an entry, or why there is none
  abbrev pub found : {A : Type 0} → Result ZipError A → Result BundleError A
  found (ok f) = ok f
  found (err file_not_found) = err missing_entry
  found (err other_error) = err zip

  unfoldable pub read_entry : z.ZipArchive → Str → Result BundleError Bytes
  read_entry a path = do file ← found (z.by_name a path); or_io (z.read_to_end file)

  unfoldable pub entry_bytes : BundleReader → Str → Result BundleError Bytes
  entry_bytes r path = read_entry r.archive path

  unfoldable pub open_bundle : ⦃p : Parsers⦄ → z.Target → Result BundleError BundleReader
  open_bundle ⦃p⦄ source = do
    a ← or_zip (z.new_archive source)
    manifest_bytes ← read_entry a (codes "manifest.json")
    m ← or_manifest (p.manifest_from_slice manifest_bytes)
    ok (record { archive = a; manifest = m })

  -- the second loop of `verify_content_hashes`, over `n` entries from number `i`
  unfoldable pub unlisted_from : BundleReader → ℕ → ℕ → Result BundleError (List Str)
  unlisted_from r zero i = ok []
  unlisted_from r (suc n) i = do
    name ← or_zip (z.by_index r.archive i)
    rest ← unlisted_from r n (i + 1)
    ok (if is_unlisted name r.manifest.contents then name ∷ rest else rest)

module _ ⦃z : Zips⦄ ⦃d : Digests⦄ where
  unfoldable pub manifest_hash : BundleReader → Result BundleError Str
  manifest_hash r = or_evidence (jcs_hash r.manifest)

  -- one turn of the first loop of `verify_content_hashes`
  unfoldable pub check_entry : z.ZipArchive → ContentEntry → Result BundleError (Unit {0})
  check_entry a entry = do
    bytes ← read_entry a entry.path
    (if not (str_eq (blake3_hex bytes) entry.blake3)
        then err content_hash_mismatch
        else if not (length bytes == entry.bytes)
        then err BundleError.manifest
        else ok tt)

  unfoldable pub check_entries : z.ZipArchive → List ContentEntry → Result BundleError (Unit {0})
  check_entries a [] = ok tt
  check_entries a (entry ∷ rest) = do done ← check_entry a entry; check_entries a rest

  unfoldable pub verify_content_hashes : BundleReader → Result BundleError (List Str)
  verify_content_hashes r = do
    done ← check_entries r.archive r.manifest.contents
    unlisted_from r (z.len r.archive) 0

module _ ⦃z : Zips⦄ ⦃p : Parsers⦄ where
  unfoldable pub record_index : BundleReader → Result BundleError RecordIndex
  record_index r = do
    bytes ← read_entry r.archive (codes "records/index.json")
    or_json (p.index_from_slice bytes)

  unfoldable pub stream_checkpoints : BundleReader → Str → Result BundleError StreamCheckpoints
  stream_checkpoints r stream_id = do
    bytes ← read_entry r.archive (codes "checkpoints/" ++ (stream_id ++ codes ".json"))
    or_json (p.checkpoints_from_slice bytes)

  -- an absent document is an empty one
  abbrev pub proofs_of : Result BundleError Bytes → Result BundleError AnchorProofs
  proofs_of (ok bytes) = or_json (p.proofs_from_slice bytes)
  proofs_of (err e) = elim e [
    | missing_entry ↦ ok (record { batches = []; daily = [] })
    | io ↦ err io
    | zip ↦ err zip
    | json ↦ err json
    | manifest ↦ err BundleError.manifest
    | content_hash_mismatch ↦ err content_hash_mismatch
    | invalid ↦ err invalid
    | evidence e ↦ err (evidence e)
  ]

  unfoldable pub anchor_proofs : BundleReader → Result BundleError AnchorProofs
  anchor_proofs r = proofs_of (read_entry r.archive (codes "anchors/proofs.json"))

  -- an absent list is none
  abbrev pub revocations_of :
      Result BundleError Bytes → Result BundleError (Option SignedRevocationList)
  revocations_of (ok bytes) = elim (p.revocations_from_slice bytes) [
    | none ↦ err json
    | some list ↦ ok (some list)
  ]
  revocations_of (err e) = elim e [
    | missing_entry ↦ ok none
    | io ↦ err io
    | zip ↦ err zip
    | json ↦ err json
    | manifest ↦ err BundleError.manifest
    | content_hash_mismatch ↦ err content_hash_mismatch
    | invalid ↦ err invalid
    | evidence e ↦ err (evidence e)
  ]

  unfoldable pub identity_documents : BundleReader → Result BundleError BundleIdentity
  identity_documents r = do
    pem ← read_entry r.archive (codes "identity/certs.pem")
    certs_pem ← or_invalid (from_utf8 pem)
    revocations ← revocations_of (read_entry r.archive (codes "identity/revocations.json"))
    roots_bytes ← read_entry r.archive (codes "identity/roots.json")
    roots ← or_json (p.roots_from_slice roots_bytes)
    ok (record { certs_pem = certs_pem; revocations = revocations; roots = roots })
