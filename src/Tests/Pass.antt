-- ===== src/Tests/Pass.antt =====
-- A run that reports `Pass`: a record and two linked checkpoints in a bundle that is whole.
use sealr_verify.Merkle.{path}
use sealr_verify.Chain.Verifier
use sealr_verify.Engine.Coverage
use sealr_verify.Engine.Checkpoints
use sealr_verify.Common.{refl, none, some, List, [], ◌∷◌, length, map}
use sealr_verify.Json.{Value, object, field, end, text, u64}
use sealr_verify.Common.{◌≢◌}
use sealr_verify.Engine.Run.Roots.{run_without_roots}
use sealr_verify.Tests.Trust.{placeholder, placeholder_empty}
use sealr_verify.Common.Int.{ℤ}
use sealr_verify.Common.Text.{Str}
use sealr_verify.Common.Text.{codes}
use sealr_verify.Deps.{Serde}
use sealr_verify.Deps.Archives.{Entry}
use sealr_verify.Hash.{blake3_hex}
use sealr_verify.Bundle.Manifest.{ContentEntry, ExportLevel}
use sealr_verify.Bundle.Reader.{stream_checkpoints, BundleReader, Parsers}
use sealr_verify.Report.{pass}
use sealr_verify.Engine.Run.{verify_bundle}
use sealr_verify.Tests.Quick.{quick_digests, quick_ed25519, quick_tokens}
use sealr_verify.Tests.Toy.{toy_ulids, toy_chrono}
use sealr_verify.Tests.Containers.{toy_zips}
use sealr_verify.Tests.Libraries.{toy_x509, toy_pems}
use sealr_verify.Tests.Run.{plain_zstd, options, note, signed, digits}
use sealr_verify.Bundle.Types.{BundleCheckpoint}
use sealr_verify.Engine.Trust.{VerifyOptions}
use sealr_verify.Bundle.Reader.{stream_checkpoints}

-- the digests of the stand-ins: they keep the first byte of a structure or of the genesis text
abbrev structure_digest : Str
structure_digest = b'7' ∷ b'b' ∷ digits 62

abbrev genesis_digest : Str
genesis_digest = b'5' ∷ b'3' ∷ digits 62

-- a record with its hash, the first of its stream
abbrev whole_value : Value
whole_value = object (
    field (codes "record_id") (text []) (
      field (codes "stream_id") (text (codes "uuu")) (
        field (codes "segment_id") (text []) (
          field (codes "seq") (u64 0) (
            field (codes "ts_wall") (text []) (
              field (codes "ts_mono_ns") (u64 0) (
                field (codes "record_type") (text []) (
                  field (codes "prev_hash") (text genesis_digest)
                    (field (codes "record_hash") (text structure_digest) end)))))))))

instance abbrev whole_line : Serde
whole_line = record { from_slice = λ b. some whole_value }

-- a checkpoint of the record, and one that names it
abbrev opening : BundleCheckpoint
opening = record signed {
  checkpoint = record signed.checkpoint {
    note = record note { chain_head_hash = structure_digest };
  };
}

abbrev next : BundleCheckpoint
next = record opening {
  checkpoint = record opening.checkpoint {
    note = record opening.checkpoint.note {
      checkpoint_id = codes "d";
      prev_checkpoint_hash = some structure_digest;
    };
  };
}

instance abbrev pass_documents : Parsers
pass_documents = record {
  manifest_from_slice = λ b. none;
  index_from_slice = λ b. some (record {
    streams =
        record {
          stream_id = codes "uuu";
          shards = codes "l" ∷ [];
          seq_from = 0;
          seq_to = 0;
          record_count = 1;
        }
        ∷ [];
  });
  checkpoints_from_slice =
      λ b. some (record { stream_id = codes "uuu"; checkpoints = opening ∷ next ∷ [] });
  proofs_from_slice = λ b. none;
  revocations_from_slice = λ b. none;
  roots_from_slice = λ b. some (record { roots = []; console_keys = [] });
}

abbrev entries : List Entry
entries =
    (codes "l", codes "r\n")
    ∷ (codes "records/index.json", [])
    ∷ (codes "checkpoints/uuu.json", [])
    ∷ (codes "identity/certs.pem", codes "d")
    ∷ (codes "identity/roots.json", [])
    ∷ []

-- the number of the record is pinned
abbrev pinned : VerifyOptions
pinned = record options { expected_high_water = (codes "uuu", 0) ∷ [] }

abbrev listed : Entry → ContentEntry
listed e = record { path = e.0; blake3 = blake3_hex e.1; bytes = length e.1 }

abbrev whole_bundle : BundleReader
whole_bundle = record {
  archive = entries;
  manifest = record {
    schema_version = codes "1";
    bundle_id = codes "b";
    created_at = codes "s";
    tool = record { name = codes "t"; version = codes "1" };
    scope = record {
      level = ExportLevel.metadata;
      ts_from = none;
      ts_to = none;
      resources = [];
      streams = record { stream_id = codes "uuu"; seq_from = 0; seq_to = 0; record_count = 1 } ∷ [];
    };
    contents = map listed entries;
  };
}

-- without a root that is given
abbrev own : VerifyOptions
own = record pinned { root_pem_override = none }

run_without_roots_example :
    (verify_bundle placeholder (ℤ.pos 5) whole_bundle own (codes "1")).result ≢ pass
run_without_roots_example =
    run_without_roots placeholder (ℤ.pos 5) whole_bundle own (codes "1") refl placeholder_empty
