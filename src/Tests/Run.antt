-- ===== src/Tests/Run.antt =====
-- A whole run on a small bundle: one record, one checkpoint, one batch with a token.
use sealr_verify.Chain.View.{view_of_fields, u64_field, str_field, from_value}
use sealr_verify.Record.{parse_wall, genesis_prev_hash, compute_hash_of_value}
use sealr_verify.Merkle
use sealr_verify.Engine.Checkpoints
use sealr_verify.Chain.Verifier
use sealr_verify.Chain.Verifier.{verify_next}
use sealr_verify.Json.{remove, get_key, get, put_opt}
use sealr_verify.Common.Utf8.{from_utf8}
use sealr_verify.Bundle.Reader.Streams.{
  trim_newline, read_stream_records, read_shards, read_lines, raw_lines, find_stream, deliver,
}
use sealr_verify.Engine.Stream.{verify_stream_chain, on_value, on_lines, collect_stats}
use sealr_verify.Certs.{
  walk_up, verify_signed_by, validate_chain, pool_of, parse_pem_chain, is_ca, extract_ed25519_key,
  common_name, check_validity, check_last, certificate_blocks,
}
use sealr_verify.Tsa.{
  verify_token, verify_rsa, verify_cms_signature, rsa_key_from_spki, retag, parse_token, padding_of,
  is_signer, is_rsa, gen_time_text, find_signer_cert, find_among, digest_bytes, check_digest,
  attribute_matches,
}
use sealr_verify.Engine.Checkpoints.{
  verify_checkpoints, revoked_at, raise_top, keep, fork_findings, covered_from, check_signed,
  check_one, check_fork, check_countersignature, check_all, add_range,
}
use sealr_verify.Engine.Identity.{
  root_keys, resolve_console_keys, others, join_lines, build_from, build_cert_map, add_entries,
  add_certs, add_cert,
}
use sealr_verify.Common.{ℕ, zero, suc, Option, ◌≡◌, refl, true, none, some, [], ◌∷◌, get_elem?}
use sealr_verify.Common.Int.{ℤ}
use sealr_verify.Common.Text.{utf16, str_eq, Bytes, Str, codes, utf8}
use sealr_verify.Deps.{Serde}
use sealr_verify.Deps.Archives.{Zstd}
use sealr_verify.Hash.{
  try_into, sha256_hex, hex_encode, hex_decode_digest, hex_decode, blake3_hex, blake3_raw,
  sha256_raw,
}
use sealr_verify.Jcs.{
  write_value, insert_member, write_string, write_number, write_members, sort_members, lex_le,
  decimal, to_jcs_bytes,
}
use sealr_verify.Merkle.{subtree_root, path, leaf_hash, inclusion_proof, climb, merkle_root}
use sealr_verify.Keys.{verifying_key, verify_jcs, verify_digest, sign_digest, from_bytes, sign_jcs}
use sealr_verify.Json.{Value, object, field, end, text, u64}
use sealr_verify.Checkpoint.{
  verify_root, verify, note_hash, not_contiguous, merkle_root_of_record_hashes, check_head,
  CheckpointNote, note_value, build_note,
}
use sealr_verify.Bundle.Types.{BundleCheckpoint}
use sealr_verify.Bundle.Manifest.{ExportLevel}
use sealr_verify.Bundle.Anchors.{
  verify_inclusion, to_step, inclusions_from, inclusion_at, from_step, AnchorBatch, build_batch,
}
use sealr_verify.Bundle.Reader.{
  record_index, read_entry, identity_documents, entry_bytes, anchor_proofs, BundleReader, Parsers,
  stream_checkpoints,
}
use sealr_verify.Engine.{
  str_insert, str_get, seq_insert, seq_get, has_str, add_str, add_seq, StreamData, has_seq, no_data,
}
use sealr_verify.Engine.Base64.{
  table_at, sextet, lines_of_64, chunk_bits, base64_encode, der_to_pem,
}
use sealr_verify.Engine.Trust.{select_roots, VerifyOptions}
use sealr_verify.Engine.Anchors.{
  verify_anchors, match_leaf, mark_all, mark, imprint_of, find_digest, compare_leaf, check_token,
  check_inclusions, check_days, check_bound_batch, check_batches, check_batch_token, check_batch,
  anchor_range, add_inclusion, accept_batch, Streams,
}
use sealr_verify.Engine.Run.{
  stream_insert, checkpoint_streams, checkpoint_stream, chain_streams, chain_stream, identity_phase,
  run_chains, run_checkpoints, run_identity, run_anchors,
}
use sealr_verify.Engine.Run.Attested.{IsVouched, IsCertified, run_attested}
use sealr_verify.Engine.Run.Anchored.{HasTimestamp, run_anchored}
use sealr_verify.Tests.Quick.{zeros, quick_digests, quick_ed25519, quick_tokens, quick}
use sealr_verify.Tests.Toy.{toy_ulid, toy_time, toy_parse, toy_hash, toy_ulids, toy_chrono}
use sealr_verify.Tests.Containers.{toy_by_name, toy_zips}
use sealr_verify.Tests.Libraries.{toy_x509, toy_pems}

pub never_packed : {A : Type 0} {packed : Bytes} → ◌≡◌ {A = Option Bytes} none (some packed) → A
never_packed e = absurd (cc)

instance abbrev pub plain_zstd : Zstd
plain_zstd = record {
  encode_all = λ b. none;
  decoder = λ f. some (f, true);
  decoder-encode_all = λ f plain packed e r. never_packed e;
}

-- `n` digits 0
abbrev pub digits : ℕ → Str
digits zero = []
digits (suc n) = b'0' ∷ digits n

-- what the verifier reads of a record, the first of its stream
abbrev small_value : Value
small_value = object (
    field (codes "record_id") (text []) (
      field (codes "stream_id") (text (codes "uuu")) (
        field (codes "segment_id") (text []) (
          field (codes "seq") (u64 0) (
            field (codes "ts_wall") (text []) (
              field (codes "ts_mono_ns") (u64 0) (
                field (codes "record_type") (text []) (
                  field (codes "prev_hash") (text [])
                    (field (codes "record_hash") (text (digits 64)) end)))))))))

instance abbrev one_line : Serde
one_line = record { from_slice = λ b. some small_value }

-- the checkpoint of the record; digests and signatures are those of the stand-ins
abbrev pub note : CheckpointNote
note = record {
  checkpoint_id = codes "c";
  stream_id = codes "uuu";
  segment_id = [];
  seq_from = 0;
  seq_to = 0;
  chain_head_hash = digits 64;
  merkle_root = digits 64;
  tree_size = 1;
  ts_wall = codes "s";
  recorder_cert_fingerprint = b'2' ∷ b'd' ∷ digits 62;
  prev_checkpoint_hash = none;
}

abbrev pub signed : BundleCheckpoint
signed = record {
  checkpoint = record { note = note; signature = b'7' ∷ b'b' ∷ digits 126 };
  countersignature = none;
}

abbrev batch : AnchorBatch
batch = record {
  batch_id = codes "b";
  created_at = codes "s";
  root_blake3 = digits 64;
  root_sha256 = digits 64;
  tsr_file = some (codes "t");
  qualified = true;
  checkpoints =
      record {
        checkpoint_id = codes "c";
        leaf = b'7' ∷ b'b' ∷ digits 62;
        leaf_index = 0;
        tree_size = 1;
        proof = [];
      }
      ∷ [];
}

instance abbrev documents : Parsers
documents = record {
  manifest_from_slice = λ b. none;
  index_from_slice = λ b. some (record {
    streams =
        record {
          stream_id = codes "uuu";
          shards = codes "l" ∷ [];
          seq_from = 0;
          seq_to = 0;
          record_count = 1;
        }
        ∷ [];
  });
  checkpoints_from_slice =
      λ b. some (record { stream_id = codes "uuu"; checkpoints = signed ∷ [] });
  proofs_from_slice = λ b. some (record { batches = batch ∷ []; daily = [] });
  revocations_from_slice = λ b. none;
  roots_from_slice = λ b. some (record { roots = []; console_keys = [] });
}

abbrev reader : BundleReader
reader = record {
  archive =
      (codes "l", codes "r\n")
      ∷ (codes "t", zeros 32)
      ∷ (codes "records/index.json", [])
      ∷ (codes "checkpoints/uuu.json", [])
      ∷ (codes "anchors/proofs.json", [])
      ∷ (codes "identity/certs.pem", codes "d")
      ∷ (codes "identity/roots.json", [])
      ∷ [];
  manifest = record {
    schema_version = codes "1";
    bundle_id = codes "b";
    created_at = codes "s";
    tool = record { name = codes "t"; version = codes "1" };
    scope = record {
      level = ExportLevel.metadata;
      ts_from = none;
      ts_to = none;
      resources = [];
      streams = record { stream_id = codes "uuu"; seq_from = 0; seq_to = 0; record_count = 1 } ∷ [];
    };
    contents = [];
  };
}

abbrev pub options : VerifyOptions
options = record {
  root_pem_override = some (codes "root");
  console_key_override = none;
  now_unix = none;
  expected_high_water = [];
}

abbrev final_streams : Streams
final_streams = (run_anchors [] (ℤ.pos 5) reader options).streams

abbrev first_stream : Streams → Str × StreamData
first_stream [] = ([], no_data)
first_stream (s ∷ streams) = s

abbrev one_stream : Str × StreamData
one_stream = first_stream final_streams

-- the record is attested and anchored
run_counts :
    (get_elem? final_streams 0 ≡ some (one_stream.0, one_stream.1))
    × (has_seq 0 one_stream.1.attested_seqs ≡ true)
    × (has_seq 0 one_stream.1.anchored_seqs ≡ true)
unfolding run_anchors run_checkpoints run_chains run_identity identity_phase select_roots
    build_cert_map build_from add_certs add_cert others join_lines parse_pem_chain
    certificate_blocks validate_chain pool_of check_validity walk_up check_last verify_signed_by
    is_ca common_name extract_ed25519_key from_bytes try_into resolve_console_keys add_entries
    root_keys identity_documents from_utf8 chain_streams chain_stream read_stream_records
    read_shards read_lines deliver record_index read_entry toy_by_name raw_lines trim_newline
    find_stream verify_stream_chain on_lines on_value collect_stats verify_next from_value
    view_of_fields str_field u64_field get get_key remove compute_hash_of_value toy_parse toy_ulid
    genesis_prev_hash parse_wall toy_time insert_member write_value stream_insert stream_checkpoints
    checkpoint_streams checkpoint_stream verify_checkpoints check_all check_one str_get str_insert
    str_eq check_signed verify verify_jcs check_fork fork_findings Checkpoints.check_root
    Merkle.verify_inclusion Verifier.new covered_from verify_root check_head check_countersignature
    keep seq_get seq_insert add_range add_seq has_seq revoked_at build_note not_contiguous
    merkle_root_of_record_hashes hex_decode_digest hex_decode hex_encode utf8 toy_hash merkle_root
    to_jcs_bytes sign_jcs verify_digest sign_digest quick verifying_key note_value write_members
    sort_members put_opt lex_le utf16 write_number decimal blake3_raw write_string subtree_root
    leaf_hash note_hash raise_top add_str has_str base64_encode der_to_pem lines_of_64 sextet
    chunk_bits table_at blake3_hex sha256_hex sha256_raw verify_anchors check_days anchor_proofs
    check_batches check_batch check_bound_batch check_inclusions add_inclusion match_leaf
    compare_leaf find_digest check_batch_token check_token imprint_of entry_bytes accept_batch
    mark_all mark anchor_range build_batch inclusions_from inclusion_at inclusion_proof path
    verify_inclusion climb to_step from_step verify_token parse_token verify_cms_signature
    check_digest attribute_matches digest_bytes is_rsa verify_rsa rsa_key_from_spki padding_of
    find_signer_cert find_among is_signer gen_time_text retag
run_counts = (refl, refl, refl)

run_attested_example :
    (v : IsVouched
      (run_identity [] (ℤ.pos 5) reader options).1
      (stream_checkpoints reader)
      one_stream.0
      one_stream.1.hashes_by_seq
      0)
    × IsCertified []
        (ℤ.pos 5)
        reader
        options
        v.bc.checkpoint.note.recorder_cert_fingerprint
        v.attests.cert
run_attested_example =
    run_attested [] (ℤ.pos 5) reader options 0 one_stream.0 one_stream.1 0 run_counts.0 run_counts.1

run_anchored_example :
    (has_seq 0 one_stream.1.attested_seqs ≡ true)
    × HasTimestamp [] (ℤ.pos 5) reader options one_stream.0 one_stream.1.hashes_by_seq 0
run_anchored_example =
    run_anchored [] (ℤ.pos 5) reader options 0 one_stream.0 one_stream.1 0 run_counts.0 run_counts.2
