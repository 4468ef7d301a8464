-- ===== src/Checkpoint/Roots.antt =====
-- The root in a checkpoint: an honest one is recomputed, and it binds the record hashes.
use sealr_verify.Common.{
  ◌∙◌, ◌≡◌, refl, ap, sym, ◌⊎◌, inl, inr, Bool-cases, Option, none, some, List, [], ◌∷◌, length,
  ◌==◌, ==_iff, ==_refl, arith,
}
use sealr_verify.Common.Text.{Str, str_eq, str_eq→eq, str_eq_refl, str_eq_iff}
use sealr_verify.Common.Result.{ok, >>=-eq-ok, collect}
use sealr_verify.Deps.{Digests}
use sealr_verify.Hash.{hex_encode, hex_decode_digest}
use sealr_verify.Hash.RoundTrip.{hex_encode_injective}
use sealr_verify.Hash.Collision.{CollisionIn}
use sealr_verify.Merkle.Inputs.{RootHashes}
use sealr_verify.Merkle.{merkle_root}
use sealr_verify.Merkle.Width.{merkle_root-IsByte}
use sealr_verify.Merkle.Binding.{merkle_root_injective}
use sealr_verify.Record.Types.{Record}
use sealr_verify.Checkpoint.{
  Bytes, CheckpointNote, SignedCheckpoint, last, last_of, hashes_of, not_contiguous, check_head,
  build_note, merkle_root_of_record_hashes, verify_root,
}

last-hashes_of :
    (first : Record) (rest : List Record)
    → last (hashes_of (first ∷ rest)) ≡ some (last_of first rest).record_hash
last-hashes_of first [] = refl
last-hashes_of first (next ∷ rest) = last-hashes_of next rest

module _ ⦃d : Digests⦄ where
  -- The note that is built over a run of records passes `verify_root` for the hashes of these
  -- records, whatever its signature.
  pub verify_root-build_note :
      (id : Str) (records : List Record) (ts_wall fingerprint signature : Str)
      (note : CheckpointNote)
      → build_note id records ts_wall fingerprint ≡ ok note
      → verify_root (record { note = note; signature = signature }) (hashes_of records) ≡ ok tt
  unfolding build_note verify_root check_head
  verify_root-build_note id [] ts_wall fingerprint signature note h = cc
  verify_root-build_note id (first ∷ rest) ts_wall fingerprint signature note h =
      elim (Bool-cases
        (not_contiguous (length (first ∷ rest)) first.seq (last_of first rest).seq)) [
          | inl bad ↦ absurd (cc (rw bad at h))
          | inr good ↦
              let (root, r, h2) =
                >>=-eq-ok (merkle_root_of_record_hashes (hashes_of (first ∷ rest))) _
                  (rw good at h) in
              let same : record {
                checkpoint_id = id;
                stream_id = first.stream_id;
                segment_id = first.segment_id;
                seq_from = first.seq;
                seq_to = (last_of first rest).seq;
                chain_head_hash = (last_of first rest).record_hash;
                merkle_root = root;
                tree_size = length (hashes_of (first ∷ rest));
                ts_wall = ts_wall;
                recorder_cert_fingerprint = fingerprint;
                prev_checkpoint_hash = none;
              }
                  ≡ note =
                cc in
              rw (
                ← same,
                ==_refl (length (hashes_of (first ∷ rest))),
                r,
                str_eq_refl root,
                last-hashes_of first rest,
                str_eq_refl (last_of first rest).record_hash,
              )
        ]

  -- what `verify_root` has checked when it accepts
  pub record RootOk (s : SignedCheckpoint) (hashes : List Str) : Type 0 where
    pub sized : length hashes ≡ s.note.tree_size
    pub rooted : merkle_root_of_record_hashes hashes ≡ ok s.note.merkle_root
    pub headed : last hashes ≡ some s.note.chain_head_hash

  check_head_sound : (head : Str) (o : Option Str) → check_head head o ≡ ok tt → o ≡ some head
  unfolding check_head
  check_head_sound head none h = cc
  check_head_sound head (some hash) h = ground (arith, str_eq_iff hash head)

  root_ok :
      (s : SignedCheckpoint) (hashes : List Str) → verify_root s hashes ≡ ok tt → RootOk s hashes
  unfolding verify_root
  root_ok s hashes h = elim (Bool-cases (length hashes == s.note.tree_size)) [
    | inr bad ↦ absurd (cc (rw bad at h))
    | inl sized ↦
        let (root, r, h2) = >>=-eq-ok (merkle_root_of_record_hashes hashes) _ (rw sized at h) in
        elim (Bool-cases (str_eq root s.note.merkle_root)) [
          | inr bad ↦ absurd (cc (rw bad at h2))
          | inl eq ↦ record {
            sized = (==_iff (length hashes) s.note.tree_size).0 sized;
            rooted = r ∙ ap ok (str_eq→eq root s.note.merkle_root eq);
            headed = check_head_sound s.note.chain_head_hash (last hashes) (rw eq at h2);
          }
        ]
  ]

  -- One checkpoint accepts one run of record hashes: if it accepts two, the runs have the same
  -- length, their digests are the same, in order, and their last hashes are spelled alike, unless
  -- a text that is hashed for one root and a different one that is hashed for the other have the
  -- same digest.
  pub verify_root_binding :
      (s : SignedCheckpoint) (hashes others : List Str)
      → verify_root s hashes ≡ ok tt
      → verify_root s others ≡ ok tt
      → ((length hashes ≡ length others)
          × (collect hex_decode_digest hashes ≡ collect hex_decode_digest others)
          × (last hashes ≡ last others))
        ⊎ ((l : List Bytes) × (m : List Bytes) × (collect hex_decode_digest hashes ≡ ok l)
            × (collect hex_decode_digest others ≡ ok m)
            × CollisionIn (RootHashes l) (RootHashes m))
  unfolding merkle_root_of_record_hashes
  verify_root_binding s hashes others h h' =
      let a = root_ok s hashes h in
      let b = root_ok s others h' in
      let (l, dl, el) = >>=-eq-ok (collect hex_decode_digest hashes) _ a.rooted in
      let (m, dm, em) = >>=-eq-ok (collect hex_decode_digest others) _ b.rooted in
      let roots : hex_encode (merkle_root l) ≡ hex_encode (merkle_root m) = cc in
      elim (merkle_root_injective l m
        (hex_encode_injective _ _ (merkle_root-IsByte l) (merkle_root-IsByte m) roots)) [
          | inr broken ↦ inr (l, m, dl, dm, broken)
          | inl same ↦
              inl (a.sized ∙ sym b.sized, dl ∙ ap ok same ∙ sym dm, a.headed ∙ sym b.headed)
        ]
