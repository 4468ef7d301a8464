-- ===== src/Tests/Bundles.antt =====
-- A small bundle: two lines of a stream, each in a shard of its own, and a token.
use sealr_verify.Common.{
  ◌&&◌, ◌++◌, inl, inr, ◌∙◌, not, Bool-cases, false, Bool, ◌≡◌, ◌≢◌, refl, ap, ◌⊎◌, true, Option,
  none, some, List, [], ◌∷◌, map, arith, get_elem?, All,
}
use sealr_verify.Common.Text.{utf16, utf8, str_eq_refl, str_eq, Bytes, Str, codes}
use sealr_verify.Common.Utf8.{from_utf8}
use sealr_verify.Common.Result.{Result, ok, err, BundleError, invalid}
use sealr_verify.Common.Run.{Run, after, pure}
use sealr_verify.Deps.{Serde}
use sealr_verify.Deps.Archives.{Entry, Zstd, Distinct}
use sealr_verify.Json.{items, put_opt, get, get_key, object, field, end, u64}
use sealr_verify.Jcs.{write_members, sort_members, lex_le, write_number, to_jcs_bytes}
use sealr_verify.Bundle.Manifest.{
  jcs_hash, ContentEntry, ExportLevel, ToolInfo, Manifest, manifest_value,
}
use sealr_verify.Bundle.Types.{RecordIndexStream}
use sealr_verify.Bundle.Writer.{
  write_all, start_file, write_entry, finish_records, close_records, require_phase, BundleWriter,
  Pretty, new, with_shard_threshold,
}
use sealr_verify.Bundle.Writer.Documents.{
  manifest_of, finish_zip, write_manifest, add_rfc3161_token, finish,
}
use sealr_verify.Bundle.Writer.Methods.{Method, Reach, here, next, run, start, call}
use sealr_verify.Bundle.Writer.Records.{
  shard_path, padded, zeros, push_stream, index_entry, flush_shard, no_shards, take_line, add_line,
  add_lines, write_stream_records, add_stream_records,
}
use sealr_verify.Bundle.Reader.{Parsers}
use sealr_verify.Bundle.Reader.Lines.{stored_line, IsBody}
use sealr_verify.Hash.Collision.{Clash}
use sealr_verify.Bundle.Writer.{rank}
use sealr_verify.Bundle.Writer.Readme.{verify_md_template}
use sealr_verify.Bundle.Writer.Listed.{IsListed, Reach-IsListed}
use sealr_verify.Bundle.Writer.Phases.{run-late}
use sealr_verify.Bundle.Writer.Forward.{Up, Tried-Up}
use sealr_verify.Bundle.Reader.{entry_bytes}
use sealr_verify.Bundle.Reader.Binding.{contents_binding}
use sealr_verify.Bundle.Reader.Streams.{read_shards}
use sealr_verify.Bundle.RoundTrip.{IsAccepted, finish_round_trip}
use sealr_verify.Bundle.Shards.RoundTrip.{stream_round_trip}
use sealr_verify.Bundle.Writer.Documents.{
  add_vault_entry, invalid_vault_name, contains, starts_with,
}
use sealr_verify.Bundle.Writer.Vault.{HasNoIndex, RecordsOnly, index_missing}
use sealr_verify.Tests.Toy.{toy_digests}
use sealr_verify.Tests.Containers.{toy_write, toy_start, toy_zips}

abbrev toy_decode : Bytes → Option (Bytes × Bool)
toy_decode [] = none
toy_decode (x ∷ b) = some (b, true)

toy_decoder :
    (f plain packed : Bytes)
    → ◌≡◌ {A = Option Bytes} (some (b'Z' ∷ plain)) (some packed)
    → ◌≡◌ {A = Option Bytes} (some f) (some packed)
    → toy_decode f ≡ some (plain, true)
toy_decoder f plain packed e r = let same : f ≡ b'Z' ∷ plain = cc in rw same

instance abbrev toy_zstd : Zstd
toy_zstd = record {
  encode_all = λ b. some (b'Z' ∷ b);
  decoder = toy_decode;
  decoder-encode_all = λ f plain packed e r. toy_decoder f plain packed e r;
}

instance abbrev toy_serde : Serde
toy_serde = record { from_slice = λ b. some (object (field (codes "seq") (u64 0) end)) }

instance abbrev toy_pretty : Pretty
toy_pretty = record { to_vec_pretty = λ v. some (codes "{}") }

abbrev tool : ToolInfo
tool = record { name = codes "t"; version = codes "1" }

abbrev empty_writer : BundleWriter
empty_writer = with_shard_threshold (new [] (codes "b") (codes "now") tool) 1

abbrev bodies : List Bytes
bodies = (1 ∷ []) ∷ (2 ∷ []) ∷ []

abbrev added : Result BundleError RecordIndexStream × BundleWriter
added = add_stream_records (codes "s") (map (λ b. ok (stored_line b)) bodies) empty_writer

abbrev no_entry : RecordIndexStream
no_entry = record { stream_id = []; shards = []; seq_from = 0; seq_to = 0; record_count = 0 }

abbrev value_or : {A : Type 0} → A → Result BundleError A → A
value_or d (ok a) = a
value_or d (err e) = d

abbrev entry : RecordIndexStream
entry = value_or no_entry added.0

abbrev after_stream : BundleWriter
after_stream = added.1

abbrev with_token : Result BundleError (Unit {0}) × BundleWriter
with_token = run (Method.rfc3161_token (codes "a") (7 ∷ [])) after_stream

abbrev is_ok : {A : Type 0} → Result BundleError A → Bool
is_ok (ok a) = true
is_ok (err e) = false

outcome :
    {A : Type 0} (d : A) (out : Result BundleError A × BundleWriter)
    → is_ok out.0 ≡ true
    → out ≡ (ok (value_or d out.0), out.1)
outcome d (ok a, w) h = refl
outcome d (err e, w) h = absurd (cc)

added_ok : added ≡ (ok entry, after_stream)
unfolding add_stream_records require_phase with_shard_threshold new write_stream_records add_lines
    add_line take_line no_shards flush_shard write_entry start_file toy_start write_all toy_write
    index_entry get_key get push_stream str_eq
added_ok = outcome no_entry added refl

token_ok : with_token ≡ (ok tt, with_token.1)
unfolding add_rfc3161_token close_records finish_records add_stream_records require_phase
    with_shard_threshold new write_stream_records add_lines add_line take_line no_shards flush_shard
    write_entry start_file toy_start write_all toy_write index_entry get_key get push_stream str_eq
token_ok = outcome tt with_token refl

abbrev no_manifest : Manifest × Str × List Entry
no_manifest = (
  record {
    schema_version = [];
    bundle_id = [];
    created_at = [];
    tool = tool;
    scope = record {
      level = ExportLevel.full;
      ts_from = none;
      ts_to = none;
      resources = [];
      streams = [];
    };
    contents = [];
  },
  [],
  [],
)

abbrev finished : Result BundleError (Manifest × Str × List Entry) × BundleWriter
finished = finish ExportLevel.full none none [] with_token.1

abbrev sealed : Manifest × Str × List Entry
sealed = value_or no_manifest finished.0

finished_ok : finished ≡ (ok sealed, finished.1)
unfolding finish write_manifest finish_zip add_rfc3161_token close_records finish_records
    add_stream_records require_phase with_shard_threshold new write_stream_records add_lines
    add_line take_line no_shards flush_shard write_entry start_file toy_start write_all toy_write
    index_entry get_key get push_stream str_eq jcs_hash to_jcs_bytes manifest_value write_members
    sort_members lex_le utf16 items manifest_of write_number utf8 verify_md_template put_opt
finished_ok = outcome no_manifest finished refl

instance abbrev toy_parsers : Parsers
toy_parsers = record {
  manifest_from_slice = λ b. some sealed.0;
  index_from_slice = λ b. none;
  checkpoints_from_slice = λ b. none;
  proofs_from_slice = λ b. none;
  revocations_from_slice = λ b. none;
  roots_from_slice = λ b. none;
}

abbrev new_name : Str → List Str → Bool
new_name x [] = true
new_name x (y ∷ l) = not (str_eq x y) && new_name x l

abbrev all_new : List Str → Bool
all_new [] = true
all_new (x ∷ l) = new_name x l && all_new l

new_name-All : (x : Str) (l : List Str) → new_name x l ≡ true → All (λ y. x ≢ y) l
new_name-All x [] h = tt
new_name-All x (y ∷ l) h = elim (Bool-cases (str_eq x y)) [
  | inl e ↦ absurd (cc (rw e at h))
  | inr e ↦ ((λ p. cc (rw (p, str_eq_refl y) at e)), new_name-All x l (rw e at h))
]

all_new-Distinct : (l : List Str) → all_new l ≡ true → Distinct l
all_new-Distinct [] h = tt
all_new-Distinct (x ∷ l) h = elim (Bool-cases (new_name x l)) [
  | inl e ↦ (new_name-All x l e, all_new-Distinct l (rw e at h))
  | inr e ↦ absurd (cc (rw e at h))
]

abbrev sealed_paths : List Str
sealed_paths = map (λ (c : ContentEntry). c.path) sealed.0.contents

paths_differ : Distinct sealed_paths
unfolding finish write_manifest finish_zip add_rfc3161_token close_records finish_records
    add_stream_records require_phase with_shard_threshold new write_stream_records add_lines
    add_line take_line no_shards flush_shard write_entry start_file toy_start write_all toy_write
    index_entry get_key get push_stream str_eq jcs_hash to_jcs_bytes manifest_value write_members
    sort_members lex_le utf16 items manifest_of write_number utf8 verify_md_template put_opt
    shard_path padded zeros
paths_differ = all_new-Distinct sealed_paths refl

stream_run :
    run (Method.stream_records (codes "s") (map (λ b. ok (stored_line b)) bodies)) empty_writer
    ≡ (ok tt, after_stream)
stream_run = ap (after (λ a. pure tt)) added_ok

token_phase : rank with_token.1.phase ≡ 2
unfolding add_rfc3161_token close_records finish_records add_stream_records require_phase
    with_shard_threshold new write_stream_records add_lines add_line take_line no_shards flush_shard
    write_entry start_file toy_start write_all toy_write index_entry get_key get push_stream str_eq
token_phase = refl

token_reached : Reach empty_writer with_token.1
token_reached =
    next (Method.rfc3161_token (codes "a") (7 ∷ []))
      (next (Method.stream_records (codes "s") (map (λ b. ok (stored_line b)) bodies)) here
        stream_run)
      token_ok

Reach-IsListed_example : IsListed with_token.1
Reach-IsListed_example =
    Reach-IsListed [] (codes "b") (codes "now") tool 1 with_token.1 token_reached

bodies-IsBody : All IsBody bodies
bodies-IsBody = (
  record { head = 1; tail = []; is = refl; no_newline = (refl, tt) },
  (record { head = 2; tail = []; is = refl; no_newline = (refl, tt) }, tt),
)

finish_round_trip_example : IsAccepted sealed.2 sealed.0 sealed.1
finish_round_trip_example =
    finish_round_trip [] (codes "b") (codes "now") tool 1 with_token.1 finished.1 ExportLevel.full
      none none [] sealed.0 sealed.1 sealed.2 token_reached finished_ok paths_differ (λ b h. refl)

-- a callback that keeps what it is given
abbrev remember : Bytes → Run BundleError (List Bytes) (Unit {0})
remember b seen = (ok tt, seen ++ b ∷ [])

stream_round_trip_example :
    (r : IsAccepted sealed.2 sealed.0 sealed.1) × (read_shards remember r.reader.archive
        entry.shards 0 []
      ≡ (ok 2, bodies))
stream_round_trip_example =
    stream_round_trip remember [] [] (codes "b") (codes "now") (codes "s") tool 1 bodies
      empty_writer after_stream with_token.1 finished.1 entry ExportLevel.full none none [] sealed.0
      sealed.1 sealed.2 bodies-IsBody here added_ok
      (next (Method.rfc3161_token (codes "a") (7 ∷ [])) here token_ok) finished_ok paths_differ
      (λ b h. refl)

abbrev late_call : Result BundleError (Unit {0}) × BundleWriter
late_call = run (Method.stream_records (codes "s") []) with_token.1

run-late_example : late_call ≡ (err invalid, with_token.1)
run-late_example =
    run-late (Method.stream_records (codes "s") []) with_token.1 (omega (arith, token_phase))

Tried-Up_example : Up with_token.1 late_call.1
Tried-Up_example =
    Tried-Up with_token.1 late_call.1 (call (Method.stream_records (codes "s") []) start)

abbrev head_or : ContentEntry → List ContentEntry → ContentEntry
head_or d [] = d
head_or d (x ∷ l) = x

abbrev first_entry : ContentEntry
first_entry = head_or (record { path = []; blake3 = []; bytes = 0 }) sealed.0.contents

first_listed : get_elem? sealed.0.contents 0 ≡ some first_entry
unfolding finish write_manifest finish_zip add_rfc3161_token close_records finish_records
    add_stream_records require_phase with_shard_threshold new write_stream_records add_lines
    add_line take_line no_shards flush_shard write_entry start_file toy_start write_all toy_write
    index_entry get_key get push_stream str_eq jcs_hash to_jcs_bytes manifest_value write_members
    sort_members lex_le utf16 items manifest_of write_number utf8 verify_md_template put_opt
first_listed = refl

contents_binding_example :
    (a : Bytes) × (b : Bytes) × (entry_bytes finish_round_trip_example.reader first_entry.path
      ≡ ok a)
    × (entry_bytes finish_round_trip_example.reader first_entry.path ≡ ok b)
    × ((a ≡ b) ⊎ Clash a b)
contents_binding_example =
    let r = finish_round_trip_example.reader in
    contents_binding r r 0 first_entry [] [] refl finish_round_trip_example.verified
      finish_round_trip_example.verified
      (ap (λ (m : Manifest). get_elem? m.contents 0) finish_round_trip_example.read ∙ first_listed)

from_utf8_runs :
    from_utf8 (0x61 ∷ 0xc3 ∷ 0xa9 ∷ 0xe2 ∷ 0x82 ∷ 0xac ∷ []) ≡ some (0x61 ∷ 0xe9 ∷ 0x20ac ∷ [])
unfolding from_utf8
from_utf8_runs = refl

from_utf8_refuses : from_utf8 (0xc0 ∷ 0x80 ∷ []) ≡ none
unfolding from_utf8
from_utf8_refuses = refl

abbrev with_vault : Result BundleError (Unit {0}) × BundleWriter
with_vault = add_vault_entry (codes "n") (9 ∷ []) after_stream

vault_ok : with_vault ≡ (ok tt, with_vault.1)
unfolding finish write_manifest finish_zip add_vault_entry invalid_vault_name contains starts_with
    close_records finish_records add_stream_records require_phase with_shard_threshold new
    write_stream_records add_lines add_line take_line no_shards flush_shard write_entry start_file
    toy_start write_all toy_write index_entry get_key get push_stream str_eq jcs_hash to_jcs_bytes
    manifest_value write_members sort_members lex_le utf16 items manifest_of write_number utf8
    verify_md_template put_opt
vault_ok = outcome tt with_vault refl

abbrev without_index : Result BundleError (Manifest × Str × List Entry) × BundleWriter
without_index = finish ExportLevel.full none none [] with_vault.1

without_index_ok : without_index ≡ (ok (value_or no_manifest without_index.0), without_index.1)
unfolding finish write_manifest finish_zip add_vault_entry invalid_vault_name contains starts_with
    close_records finish_records add_stream_records require_phase with_shard_threshold new
    write_stream_records add_lines add_line take_line no_shards flush_shard write_entry start_file
    toy_start write_all toy_write index_entry get_key get push_stream str_eq jcs_hash to_jcs_bytes
    manifest_value write_members sort_members lex_le utf16 items manifest_of write_number utf8
    verify_md_template put_opt
without_index_ok = outcome no_manifest without_index refl

index_missing_example : HasNoIndex (value_or no_manifest without_index.0).0.contents
index_missing_example =
    index_missing [] (codes "b") (codes "now") tool 1 (codes "n") (9 ∷ []) after_stream with_vault.1
      without_index.1 ExportLevel.full none none [] (value_or no_manifest without_index.0).0
      (value_or no_manifest without_index.0).1 (value_or no_manifest without_index.0).2
      (RecordsOnly.add (codes "s") (map (λ b. ok (stored_line b)) bodies) entry RecordsOnly.start
        added_ok)
      vault_ok without_index_ok
