-- ===== src/Engine/Anchors/Anchored.antt =====
-- How the loops of `verify_anchors` change the streams: only anchored numbers are added.
use sealr_verify.Common.{
  subst, ℕ, zero, suc, ◌+◌, ◌≤◌, ◌<◌, ◌≡◌, refl, sym, ap, ◌∙◌, ◌⊎◌, inl, inr, true, Bool-cases,
  Option-cases, Option, none, some, List, [], ◌∷◌, ◌++◌, arith, get_elem?,
}
use sealr_verify.Common.Text.{Bytes, Str, str_eq, str_eq→eq}
use sealr_verify.Common.Result.{some_injective}
use sealr_verify.Engine.{str_get, has_seq, StreamData}
use sealr_verify.Engine.Checkpoints.{range_size}
use sealr_verify.Engine.Checkpoints.Attested.{has_seq-add_seq}
use sealr_verify.Engine.Anchors.{Streams, find_digest, anchor_range, anchor_ranges, mark, mark_all}

-- a number in the range of a checkpoint
abbrev pub IsWithin : StreamData → Str → ℕ → Type 0
IsWithin stream_data cp_id s =
    (range : ℕ × ℕ) × (str_get cp_id stream_data.valid_checkpoint_ranges ≡ some range)
    × (range.0 ≤ s)
    × (s ≤ range.1)

-- A stream before and after: only anchored numbers are added, and each has one of these reasons.
pub record Grows (C : Str → Str → Type 0) (before after : Str × StreamData) : Type 0 where
  pub id : after.0 ≡ before.0
  pub hashes : after.1.hashes_by_seq ≡ before.1.hashes_by_seq
  pub digests : after.1.checkpoint_digests ≡ before.1.checkpoint_digests
  pub ranges : after.1.valid_checkpoint_ranges ≡ before.1.valid_checkpoint_ranges
  pub note_hashes : after.1.checkpoint_note_hashes ≡ before.1.checkpoint_note_hashes
  pub links : after.1.checkpoint_links ≡ before.1.checkpoint_links
  pub attested : after.1.attested_seqs ≡ before.1.attested_seqs
  pub anchored :
      (s : ℕ)
      → has_seq s after.1.anchored_seqs ≡ true
      → (has_seq s before.1.anchored_seqs ≡ true)
        ⊎ ((cp_id : Str) × C before.0 cp_id
            × IsWithin before.1 cp_id s
            × (has_seq s before.1.attested_seqs ≡ true))

-- the same for all streams, one by one
abbrev pub AllGrow : (C : Str → Str → Type 0) → Streams → Streams → Type 0
AllGrow C [] [] = Unit
AllGrow C [] (t ∷ after) = ⊥
AllGrow C (s ∷ before) [] = ⊥
AllGrow C (s ∷ before) (t ∷ after) = Grows C s t × AllGrow C before after

pub AllGrow-refl : (C : Str → Str → Type 0) (streams : Streams) → AllGrow C streams streams
AllGrow-refl C [] = tt
AllGrow-refl C (s ∷ streams) = (
  record {
    id = refl;
    hashes = refl;
    digests = refl;
    ranges = refl;
    note_hashes = refl;
    links = refl;
    attested = refl;
    anchored = λ s h. inl h;
  },
  AllGrow-refl C streams,
)

has_seq-anchor_range :
    (attested : List ℕ) (n from s : ℕ) (l : List ℕ)
    → has_seq s (anchor_range attested n from l) ≡ true
    → ((from ≤ s) × (s < from + n) × (has_seq s attested ≡ true)) ⊎ (has_seq s l ≡ true)
unfolding anchor_range
has_seq-anchor_range attested zero from s l h = inr h
has_seq-anchor_range attested (suc n) from s l h =
    elim (has_seq-anchor_range attested n (from + 1) s _ h) [
      | inl (lo, hi, there) ↦ inl (omega arith, omega arith, there)
      | inr h2 ↦ elim (Bool-cases (has_seq from attested)) [
        | inr t ↦ inr (rw t at h2)
        | inl t ↦ elim (has_seq-add_seq s from l (rw t at h2)) [
          | inl e ↦ inl (omega arith, omega arith, rw e t)
          | inr old ↦ inr old
        ]
      ]
    ]

module _ (C : Str → Str → Type 0) where
  anchor_ranges-Grows :
      (before after : Str × StreamData) (cp_id : Str)
      → C before.0 cp_id
      → Grows C before after
      → Grows C before
          (after.0, anchor_ranges (str_get cp_id after.1.valid_checkpoint_ranges) after.1)
  anchor_ranges-Grows before after cp_id reason g =
      split (str_get cp_id after.1.valid_checkpoint_ranges) refl
    where
      split :
          (range : Option (ℕ × ℕ))
          → str_get cp_id after.1.valid_checkpoint_ranges ≡ range
          → Grows C before (after.0, anchor_ranges range after.1)
      split none found = g
      split (some range) found = record {
        id = g.id;
        hashes = g.hashes;
        digests = g.digests;
        ranges = g.ranges;
        note_hashes = g.note_hashes;
        links = g.links;
        attested = g.attested;
        anchored = λ s h.
            elim (has_seq-anchor_range after.1.attested_seqs (range_size range.0 range.1) range.0 s
              after.1.anchored_seqs h) [
                | inr old ↦ g.anchored s old
                | inl (lo, hi, there) ↦ inr (
                  cp_id,
                  reason,
                  (range, rw g.ranges at found, lo, omega arith),
                  rw g.attested at there,
                )
              ];
      }

  mark-AllGrow :
      (stream_id cp_id : Str) (before after : Streams)
      → C stream_id cp_id
      → AllGrow C before after
      → AllGrow C before (mark stream_id cp_id after)
  unfolding mark
  mark-AllGrow stream_id cp_id [] [] reason g = tt
  mark-AllGrow stream_id cp_id [] (t ∷ after) reason g = absurd g
  mark-AllGrow stream_id cp_id (s ∷ before) [] reason g = absurd g
  mark-AllGrow stream_id cp_id (s ∷ before) (t ∷ after) reason g =
      elim (Bool-cases (str_eq t.0 stream_id)) [
        | inl it ↦
            let same : stream_id ≡ s.0 = sym (str_eq→eq t.0 stream_id it) ∙ g.0.id in
            let its_reason = subst (λ i. C i cp_id) same reason in
            rw it (anchor_ranges-Grows s t cp_id its_reason g.0, g.1)
        | inr other ↦ rw other (g.0, mark-AllGrow stream_id cp_id before after reason g.1)
      ]

  -- reasons for what is included
  abbrev pub HasReasons : List (Str × Str) → Type 0
  HasReasons [] = Unit
  HasReasons (b ∷ batch) = C b.0 b.1 × HasReasons batch

  pub HasReasons-push :
      (batch : List (Str × Str)) (b : Str × Str)
      → HasReasons batch
      → C b.0 b.1
      → HasReasons (batch ++ b ∷ [])
  HasReasons-push [] b rs r = (r, tt)
  HasReasons-push (a ∷ batch) b rs r = (rs.0, HasReasons-push batch b rs.1 r)

  pub mark_all-AllGrow :
      (batch : List (Str × Str)) (before after : Streams)
      → HasReasons batch
      → AllGrow C before after
      → AllGrow C before (mark_all batch after)
  unfolding mark_all
  mark_all-AllGrow [] before after rs g = g
  mark_all-AllGrow (b ∷ batch) before after rs g =
      mark_all-AllGrow batch before (mark b.0 b.1 after) rs.1
        (mark-AllGrow b.0 b.1 before after rs.0 g)

  -- a digest that is found is of a stream, before as after
  pub find_digest_sound :
      (cp_id : Str) (before after : Streams) {found : Str × Bytes}
      → AllGrow C before after
      → find_digest cp_id after ≡ some found
      → (i : ℕ) × (stream_data : StreamData) × (get_elem? before i ≡ some (found.0, stream_data))
        × (str_get cp_id stream_data.checkpoint_digests ≡ some found.1)
  unfolding find_digest
  find_digest_sound cp_id [] [] g h = absurd (cc (h))
  find_digest_sound cp_id [] (t ∷ after) g h = absurd g
  find_digest_sound cp_id (s ∷ before) [] g h = absurd g
  find_digest_sound cp_id (s ∷ before) (t ∷ after) {found} g h =
      elim (Option-cases (str_get cp_id t.1.checkpoint_digests)) [
        | inl absent ↦
            let (i, stream_data, listed, digest) =
              find_digest_sound cp_id before after g.1 (rw (absent, find_digest) at h) in
            (suc i, stream_data, listed, digest)
        | inr (digest, there) ↦
            let same : (t.0, digest) ≡ found = some_injective (rw (there, find_digest) at h) in
            let id : s.0 ≡ found.0 = sym g.0.id ∙ ap (λ f. f.0) same in
            let its : digest ≡ found.1 = ap (λ f. f.1) same in
            (
              0,
              s.1,
              ap (λ i. some (i, s.1)) id,
              ap (λ l. str_get cp_id l) (sym g.0.digests) ∙ (there ∙ ap some its),
            )
      ]
