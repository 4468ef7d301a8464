-- ===== src/Tests/Chains.antt =====
-- A recorder that appends two records, and the verifier behind it.
use sealr_verify.Common.{◌↔◌, inl, ℕ, ◌≡◌, refl, none, some, List, [], ◌∷◌, map, arith}
use sealr_verify.Common.Text.{Str, codes, str_eq, utf8, utf16}
use sealr_verify.Common.Result.{Result, ok, err, EvidenceError, ◌>>=◌}
use sealr_verify.Hash.{blake3_hex, hex_encode}
use sealr_verify.Json.{get, remove, put_opt, strings}
use sealr_verify.Jcs.{
  decimal, write_number, write_string, lex_le, insert_member, sort_members, write_members,
  write_value, to_jcs_bytes,
}
use sealr_verify.Record.{
  parse_wall, genesis_prev_hash, compute_hash_of_value, compute_hash, finalize,
}
use sealr_verify.Record.Types.{Record, RecordType, Attribution}
use sealr_verify.Record.ToValue.{
  record_type_name, to_value, to_fields, head_fields, optional_fields, tail_fields,
}
use sealr_verify.Chain.{ChainHead, genesis, next_seq, append, append_all}
use sealr_verify.Chain.Verifier.{advance, verify_next, StreamVerifier, verify_all, new, head}
use sealr_verify.Chain.View.{RecordView}
use sealr_verify.Chain.Accepts.{Accepts, verify_next_clean_iff}
use sealr_verify.Chain.Appended.{view_of, Appended, append_sound}
use sealr_verify.Chain.RoundTrip.{verify_stream-append_all}
use sealr_verify.Tests.Toy.{toy_time, toy_digests, toy_ulids, toy_chrono, toy_hash, toy_ulid}

-- a record of the stream "uuu" before it is chained
abbrev pub sample : Str → ℕ → Record
sample wall ns = record {
  schema_version = codes "1";
  record_id = codes "r";
  stream_id = codes "uuu";
  segment_id = codes "uu";
  seq = 0;
  ts_wall = wall;
  ts_mono_ns = ns;
  record_type = RecordType.operation;
  recorder = record {
    recorder_id = codes "a";
    version = codes "0.1.0";
    host_fingerprint = codes "abc";
    platform = codes "linux";
  };
  subject = record {
    agent_kind = codes "agent";
    agent_session = codes "s";
    human_principal = none;
    attribution = Attribution.unattributed;
    source = codes "hook";
  };
  action = record {
    integration = codes "sql";
    operation = codes "query";
    verb_class = codes "read";
    target_resource = codes "db";
    resource_labels = [];
  };
  action_detail = none;
  payload_commitment = none;
  payload_ref = none;
  verdict = none;
  approval_ref = none;
  links = none;
  prev_hash = [];
  record_hash = [];
}

abbrev pub two : List Record
two = sample (codes "ss") 5 ∷ sample (codes "sss") 9 ∷ []

abbrev pub got : Result EvidenceError (ChainHead × List Record) → ChainHead × List Record
got (ok x) = x
got (err e) = (genesis 3, [])

abbrev pub last_head : ChainHead
last_head = (got (append_all (genesis 3) two)).0

pub two_chained : append_all (genesis 3) two ≡ ok (got (append_all (genesis 3) two))
unfolding append_all append genesis next_seq finalize compute_hash compute_hash_of_value blake3_hex
    genesis_prev_hash toy_hash toy_ulid str_eq utf8 utf16 hex_encode to_value to_fields head_fields
    optional_fields tail_fields record_type_name get remove put_opt strings to_jcs_bytes write_value
    write_members write_string write_number decimal lex_le insert_member sort_members
two_chained = refl

verify_stream-append_all_example :
    (v' : StreamVerifier) × ((new (codes "uuu") >>= λ v.
    verify_all v (map to_value (got (append_all (genesis 3) two)).1))
      ≡ ok (v', []))
    × (v'.records_verified ≡ 2)
    × (head v' ≡ some last_head.head_hash)
unfolding toy_ulid toy_time parse_wall
verify_stream-append_all_example =
    verify_stream-append_all 3 (sample (codes "ss") 5) (sample (codes "sss") 9 ∷ []) _ _ two_chained
      (omega arith) (((λ e. omega arith), inl (omega arith)), tt)

-- the first of the two records, chained
abbrev got_first : Result EvidenceError (ChainHead × Record) → ChainHead × Record
got_first (ok x) = x
got_first (err e) = (genesis 3, sample [] 0)

abbrev first : ChainHead × Record
first = got_first (append (genesis 3) (sample (codes "ss") 5))

append_sound_example : Appended (genesis 3) first.0 (sample (codes "ss") 5) first.1
unfolding append genesis next_seq finalize compute_hash compute_hash_of_value blake3_hex
    genesis_prev_hash toy_hash toy_ulid str_eq utf8 utf16 hex_encode to_value to_fields head_fields
    optional_fields tail_fields record_type_name get remove put_opt strings to_jcs_bytes write_value
    write_members write_string write_number decimal lex_le insert_member sort_members
append_sound_example = append_sound (genesis 3) first.0 (sample (codes "ss") 5) first.1 refl

abbrev start : StreamVerifier
start = record {
  stream_id = codes "uuu";
  genesis = genesis_prev_hash 3;
  prev = none;
  prev_wall_ms = none;
  records_verified = 0;
}

verify_next_clean_iff_example :
    (verify_next start (to_value first.1) ≡ ok (advance start (view_of first.1), [])) ↔ (
      (view : RecordView) × Accepts start (to_value first.1) view
      × (advance start (view_of first.1) ≡ advance start view))
verify_next_clean_iff_example =
    verify_next_clean_iff start (advance start (view_of first.1)) (to_value first.1)
