-- ===== src/Tests/Engine.antt =====
-- The engine on the checkpoint of a small stream.
use sealr_verify.Bundle.Types.{BundleCheckpoint}
use sealr_verify.Common.{◌↔◌, ◌≡◌, refl, ◌⊎◌, ℕ, true, false, none, some, [], ◌∷◌, get_elem?}
use sealr_verify.Common.Int.{ℤ}
use sealr_verify.Common.Text.{codes, str_eq, utf8, utf16}
use sealr_verify.Hash.{blake3_raw, hex_encode, hex_decode_digest, hex_decode, try_into}
use sealr_verify.Merkle.{merkle_root, subtree_root, leaf_hash}
use sealr_verify.Json.{put_opt}
use sealr_verify.Jcs.{to_jcs_bytes, write_number, write_string, lex_le, sort_members, write_members}
use sealr_verify.Keys.{verifying_key, sign_jcs, verify_jcs, sign_digest, verify_digest}
use sealr_verify.Checkpoint.{
  note_value, verify, verify_root, merkle_root_of_record_hashes, check_head, build_note,
  not_contiguous,
}
use sealr_verify.Engine.{has_seq, add_seq, StreamData, no_data, seq_get, str_get}
use sealr_verify.Engine.Checkpoints.{
  Trust, verify_checkpoints, check_all, check_one, check_signed, check_fork, check_root,
  check_countersignature, fork_findings, covered_from, add_range, keep, revoked_at,
}
use sealr_verify.Engine.Checkpoints.Attested.{Attests, verify_checkpoints_attested}
use sealr_verify.Report.{is_error, any_severity}
use sealr_verify.Engine.Coverage.{coverage_findings}
use sealr_verify.Engine.Coverage.Complete.{Linked, ReachesOpt, coverage_no_error_iff}
use sealr_verify.Tests.Toy.{
  toy_digests, toy_ed25519, toy_ulids, toy_chrono, toy_hash, toy_sign, toy_verify,
}
use sealr_verify.Tests.Files.{a_key, a_note, hashed, value_or_nil}

abbrev signed_note : BundleCheckpoint
signed_note = record {
  checkpoint = record {
    note = a_note;
    signature = value_or_nil (sign_jcs a_key (note_value a_note));
  };
  countersignature = none;
}

abbrev trust : Trust
trust = record {
  stream_id = hashed.stream_id;
  cert_map =
      (
        codes "f",
        record {
          subject_common_name = [];
          public_key = verifying_key a_key;
          fingerprint = codes "f";
          not_before_unix = ℤ.pos 0;
          not_after_unix = ℤ.pos 100;
        },
      )
      ∷ [];
  revocations = none;
  console_keys = (codes "k", verifying_key a_key) ∷ [];
}

abbrev one_record : StreamData
one_record = record no_data { hashes_by_seq = (0, hashed.record_hash) ∷ [] }

is_attested :
    has_seq 0 (verify_checkpoints trust (signed_note ∷ []) [] one_record).1.attested_seqs ≡ true
unfolding verify_checkpoints check_all check_one str_get str_eq check_signed verify verify_jcs
    check_fork fork_findings check_root covered_from verify_root check_head check_countersignature
    keep seq_get add_range add_seq has_seq revoked_at build_note not_contiguous
    merkle_root_of_record_hashes hex_decode_digest hex_decode try_into hex_encode utf8 toy_hash
    merkle_root to_jcs_bytes sign_jcs verify_digest sign_digest toy_sign toy_verify verifying_key
    note_value write_members sort_members put_opt lex_le utf16 write_number blake3_raw write_string
    subtree_root leaf_hash
is_attested = refl

verify_checkpoints_attested_example :
    (has_seq 0 one_record.attested_seqs ≡ true)
    ⊎ ((i : ℕ) × (bc : BundleCheckpoint) × (get_elem? (signed_note ∷ []) i ≡ some bc)
        × Attests trust one_record.hashes_by_seq 0 bc)
verify_checkpoints_attested_example =
    verify_checkpoints_attested trust (signed_note ∷ []) [] one_record 0 is_attested

coverage_no_error_iff_example :
    (any_severity is_error (coverage_findings (codes "uuu") (some 4) one_record) ≡ false) ↔ (
      Linked one_record.checkpoint_note_hashes one_record.checkpoint_links
      × ReachesOpt one_record.hashes_by_seq (some 4)
      × ReachesOpt one_record.hashes_by_seq one_record.countersigned_high_water)
coverage_no_error_iff_example = coverage_no_error_iff (codes "uuu") (some 4) one_record
