-- ===== src/Record.antt =====
-- crates/evidence/src/record.rs: the record schema, its JSON form and its hash.
pub mod Types
pub mod ToValue
pub mod Fields
use sealr_verify.Common.{ℕ, Bool, true, Option, none, some, ◌++◌, ◌∷◌, []}
use sealr_verify.Common.Text.{Bytes, Str, codes, utf8}
use sealr_verify.Common.Result.{Result, ok, err, EvidenceError, schema, ◌>>=◌}
use sealr_verify.Deps.{Digests, Ulids, Chrono}
use sealr_verify.Hash.{blake3_hex}
use sealr_verify.Json.{Value, null, bool, number, string, array, object, remove}
use sealr_verify.Jcs.{to_jcs_bytes}
use Types.{Record}
use ToValue.{to_value}

abbrev pub genesis_prefix : Str
genesis_prefix = codes "SEALR-GENESIS"

abbrev pub segment_break_prefix : Str
segment_break_prefix = codes "SEALR-SEGMENT-BREAK"

module _ ⦃d : Digests⦄ ⦃u : Ulids⦄ where
  unfoldable pub genesis_prev_hash : ℕ → Str
  genesis_prev_hash stream_id = blake3_hex (utf8 genesis_prefix ++ utf8 (u.to_string stream_id))

  unfoldable pub segment_break_prev_hash : ℕ → ℕ → Str
  segment_break_prev_hash stream_id segment_id =
      blake3_hex (
        utf8 segment_break_prefix
        ++ (utf8 (u.to_string stream_id) ++ utf8 (u.to_string segment_id)))

module _ ⦃d : Digests⦄ where
  unfoldable pub compute_hash_of_value : Value → Result EvidenceError Str
  compute_hash_of_value (object fs) = do
    bytes ← to_jcs_bytes (object (remove (codes "record_hash") fs))
    ok (blake3_hex bytes)
  compute_hash_of_value null = err schema
  compute_hash_of_value (bool b) = err schema
  compute_hash_of_value (number n) = err schema
  compute_hash_of_value (string s) = err schema
  compute_hash_of_value (array l) = err schema

  unfoldable pub compute_hash : Record → Result EvidenceError Str
  compute_hash r = compute_hash_of_value (to_value r)

  -- the record with its hash set, and the hash
  unfoldable pub finalize : Record → Result EvidenceError (Record × Str)
  finalize r = do h ← compute_hash r; ok (record r { record_hash = h }, h)

unfoldable pub to_ndjson_line : Record → Result EvidenceError Bytes
to_ndjson_line r = do bytes ← to_jcs_bytes (to_value r); ok (bytes ++ b'\n' ∷ [])

unfoldable pub parse_wall : ⦃c : Chrono⦄ → Str → Option ℕ
parse_wall ⦃c⦄ s = c.parse_from_rfc3339 s
