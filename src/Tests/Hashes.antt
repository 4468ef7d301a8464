-- ===== src/Tests/Hashes.antt =====
-- Hex, trees and audit paths on small inputs.
use sealr_verify.Common.{
  true, ℕ, ◌*◌, ◌++◌, ◌≤◌, ◌<◌, ◌^◌, ◌≡◌, refl, ◌⊎◌, some, List, [], ◌∷◌, arith, length, get_elem?,
}
use sealr_verify.Common.Text.{Bytes, str_eq, codes, utf8}
use sealr_verify.Common.Result.{ok, err, invalid_hex}
use sealr_verify.Hash.{hex_encode, hex_decode, hex_decode_digest}
use sealr_verify.Hash.RoundTrip.{
  IsSpelling, hex_decode-hex_encode, hex_decode_digest-hex_encode, hex_decode_sound,
}
use sealr_verify.Hash.Collision.{CollisionIn}
use sealr_verify.Merkle.Inputs.{RootHashes}
use sealr_verify.Merkle.{
  ProofStep, split_point, subtree_root, leaf_hash, node_hash, merkle_root, inclusion_proof,
  verify_inclusion,
}
use sealr_verify.Merkle.Split.{split_point_lem}
use sealr_verify.Merkle.Standard.{IsTreeHash, merkle_root-IsTreeHash}
use sealr_verify.Merkle.Inclusion.{verify_inclusion-inclusion_proof}
use sealr_verify.Merkle.Soundness.{ProofHashes, verify_inclusion_sound}
use sealr_verify.Merkle.Binding.{merkle_root_injective}
use sealr_verify.Tests.Toy.{length-toy_hash, toy_hash-IsByte, toy_digests, toy_hash}

hex_encode_runs : hex_encode (0 ∷ 1 ∷ 0xab ∷ 0xff ∷ []) ≡ codes "0001abff"
unfolding hex_encode
hex_encode_runs = refl

hex_decode_runs :
    (hex_decode (codes "0001ABFF") ≡ ok (0 ∷ 1 ∷ 0xab ∷ 0xff ∷ []))
    × (hex_decode (codes "xy") ≡ err invalid_hex)
    × (hex_decode (codes "abc") ≡ err invalid_hex)
unfolding hex_decode utf8
hex_decode_runs = (refl, refl, refl)

hex_decode-hex_encode_example : hex_decode (hex_encode (0xab ∷ 7 ∷ [])) ≡ ok (0xab ∷ 7 ∷ [])
hex_decode-hex_encode_example = hex_decode-hex_encode (0xab ∷ 7 ∷ []) (omega arith)

decodes_capitals : hex_decode (codes "AB") ≡ ok (0xab ∷ [])
unfolding hex_decode utf8
decodes_capitals = refl

hex_decode_sound_example : IsSpelling (0xab ∷ []) (utf8 (codes "AB"))
hex_decode_sound_example = hex_decode_sound (codes "AB") (0xab ∷ []) decodes_capitals

split_point_runs : split_point 7 ≡ 4
unfolding split_point
split_point_runs = refl

split_point_lem_example :
    (i : ℕ) × (split_point 7 ≡ 2 ^ i)
    × (1 ≤ split_point 7)
    × (split_point 7 < 7)
    × (7 ≤ split_point 7 * 2)
split_point_lem_example = split_point_lem 7 (omega arith)

abbrev three : List Bytes
three = (1 ∷ []) ∷ (2 ∷ 2 ∷ []) ∷ (3 ∷ []) ∷ []

merkle_root-IsTreeHash_example : IsTreeHash three (merkle_root three)
merkle_root-IsTreeHash_example = merkle_root-IsTreeHash three

verify_inclusion-inclusion_proof_example :
    (proof : List ProofStep) × (inclusion_proof three 2 ≡ ok proof)
    × (verify_inclusion (3 ∷ []) 2 (length three) proof (merkle_root three) ≡ ok tt)
verify_inclusion-inclusion_proof_example = verify_inclusion-inclusion_proof three 2 (3 ∷ []) refl

abbrev last_path : List ProofStep
last_path =
    record {
      sibling = toy_hash 32 (1 ∷ (toy_hash 32 (0 ∷ 1 ∷ []) ++ toy_hash 32 (0 ∷ 2 ∷ 2 ∷ [])));
      sibling_on_left = true;
    }
    ∷ []

last_path_accepted : verify_inclusion (3 ∷ []) 2 3 last_path (merkle_root three) ≡ ok tt
unfolding verify_inclusion merkle_root subtree_root toy_hash split_point leaf_hash node_hash str_eq
last_path_accepted = refl

verify_inclusion_sound_example :
    ((i : ℕ) × (get_elem? three i ≡ some (3 ∷ [])))
    ⊎ CollisionIn (ProofHashes (3 ∷ []) last_path) (RootHashes three)
unfolding toy_hash
verify_inclusion_sound_example =
    verify_inclusion_sound three (3 ∷ []) 2 3 last_path (refl, tt) last_path_accepted

merkle_root_injective_example : (three ≡ three) ⊎ CollisionIn (RootHashes three) (RootHashes three)
merkle_root_injective_example = merkle_root_injective three three refl

abbrev digest : Bytes
digest = toy_hash 32 []

hex_decode_digest-hex_encode_example : hex_decode_digest (hex_encode digest) ≡ ok digest
hex_decode_digest-hex_encode_example =
    hex_decode_digest-hex_encode digest (toy_hash-IsByte 32 []) (length-toy_hash 32 [])
