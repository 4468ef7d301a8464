-- ===== src/Engine/Checkpoints/Sources.antt =====
-- The checkpoints that the notes of a stream come from.
use sealr_verify.Bundle.Types.{BundleCheckpoint}
use sealr_verify.Common.{
  ℕ, ◌≡◌, ◌⊎◌, inl, inr, refl, ap, true, false, Bool-cases, Option, none, some, List, [], ◌∷◌, ◌++◌,
  All, All-map,
}
use sealr_verify.Common.Text.{Bytes, Str, str_eq, str_eq→eq}
use sealr_verify.Common.Result.{Result, ok, err, EvidenceError}
use sealr_verify.Deps.{Digests, Ed25519, Chrono}
use sealr_verify.Hash.{blake3_raw}
use sealr_verify.Jcs.{to_jcs_bytes}
use sealr_verify.Checkpoint.{note_value, note_hash}
use sealr_verify.Engine.{SeqMap, str_get, str_insert, has_str, add_str}
use sealr_verify.Engine.Maps.{str_get-str_insert}
use sealr_verify.Engine.Checkpoints.{Trust, if_ok, push_link}
use sealr_verify.Engine.Checkpoints.Kept.{
  Notes, no_notes, push_if, is_kept, notes_after, Among, notes_after-Among,
}

-- the range of a checkpoint with this id
abbrev pub HasRange : Str → ℕ × ℕ → BundleCheckpoint → Type 0
HasRange cp_id range bc =
    (bc.checkpoint.note.checkpoint_id ≡ cp_id)
    × ((bc.checkpoint.note.seq_from, bc.checkpoint.note.seq_to) ≡ range)

-- the digest of the note of a checkpoint with this id
abbrev pub HasDigest : ⦃d : Digests⦄ → Str → Bytes → BundleCheckpoint → Type 0
HasDigest cp_id digest bc =
    (bc.checkpoint.note.checkpoint_id ≡ cp_id)
    × ((jcs : Bytes) × (to_jcs_bytes (note_value bc.checkpoint.note) ≡ ok jcs)
        × (blake3_raw jcs ≡ digest))

-- the hash by which the next checkpoint names this one
abbrev pub HasHash : ⦃d : Digests⦄ → Str → BundleCheckpoint → Type 0
HasHash hash bc = note_hash bc.checkpoint.note ≡ ok hash

-- what a link of the checkpoint must satisfy, when it names a predecessor
abbrev pub Named : (Str × Str → Type 0) → Str → Option Str → Type 0
Named P cp_id none = Unit
Named P cp_id (some prev) = P (cp_id, prev)

has_str-add_str :
    (k h : Str) (l : List Str) → has_str h (add_str k l) ≡ true → (has_str h l ≡ true) ⊎ (k ≡ h)
unfolding add_str has_str
has_str-add_str k h l t = elim (Bool-cases (has_str k l)) [
  | inl old ↦ inl (rw old at t)
  | inr new ↦ elim (Bool-cases (str_eq k h)) [
    | inl e ↦ inr (str_eq→eq k h e)
    | inr e ↦ inl (rw (new, e) at t)
  ]
]

str_get-if_ok :
    (cp_id k : Str) (f : Bytes → Bytes) (m : List (Str × Bytes)) {digest : Bytes}
    (out : Result EvidenceError Bytes)
    → str_get cp_id (if_ok out (λ jcs. str_insert k (f jcs)) m) ≡ some digest
    → (str_get cp_id m ≡ some digest)
      ⊎ ((k ≡ cp_id) × ((jcs : Bytes) × (out ≡ ok jcs) × (f jcs ≡ digest)))
str_get-if_ok cp_id k f m (err problem) h = inl h
str_get-if_ok cp_id k f m (ok jcs) h = elim (str_get-str_insert k cp_id (f jcs) m h) [
  | inl (same, its) ↦ inr (same, (jcs, refl, its))
  | inr old ↦ inl old
]

has_str-if_ok :
    (h : Str) (l : List Str) (out : Result EvidenceError Str)
    → has_str h (if_ok out add_str l) ≡ true
    → (has_str h l ≡ true) ⊎ (out ≡ ok h)
has_str-if_ok h l (err problem) t = inl t
has_str-if_ok h l (ok k) t = elim (has_str-add_str k h l t) [
  | inl old ↦ inl old
  | inr same ↦ inr (ap ok same)
]

All-split :
    (P : Str × Str → Type 0) (xs ys : List (Str × Str)) → All P (xs ++ ys) → All P xs × All P ys
All-split P [] ys h = (tt, h)
All-split P (x ∷ xs) ys (px, h) = let (hx, hy) = All-split P xs ys h in ((px, hx), hy)

All-push_link :
    (P : Str × Str → Type 0) (cp_id : Str) (prev : Option Str) (links : List (Str × Str))
    → All P (push_link cp_id prev links)
    → All P links × Named P cp_id prev
All-push_link P cp_id none links h = (h, tt)
All-push_link P cp_id (some prev) links h = let (old, new) = All-split P links _ h in (old, new.0)

module _ ⦃e : Ed25519⦄ ⦃d : Digests⦄ ⦃c : Chrono⦄ (t : Trust) (hashes : SeqMap)
    (bcs : List BundleCheckpoint) where
  -- a range that is noted is that of a checkpoint
  pub range_sound :
      (cp_id : Str) (range : ℕ × ℕ)
      → str_get cp_id (notes_after t hashes bcs no_notes).ranges ≡ some range
      → Among t hashes bcs (HasRange cp_id range)
  unfolding str_get
  range_sound cp_id range h =
      elim (notes_after-Among t hashes (λ n. str_get cp_id n.ranges ≡ some range)
        (HasRange cp_id range)
        (λ bc n there.
          elim (str_get-str_insert bc.checkpoint.note.checkpoint_id cp_id _ n.ranges there) [
            | inl its ↦ inr its
            | inr old ↦ inl old
          ])
        bcs no_notes h) [ inl nothing ↦ absurd (cc (nothing)) | inr among ↦ among ]

  -- a digest that is noted is that of a checkpoint's note
  pub digest_sound :
      (cp_id : Str) (digest : Bytes)
      → str_get cp_id (notes_after t hashes bcs no_notes).digests ≡ some digest
      → Among t hashes bcs (HasDigest cp_id digest)
  unfolding str_get
  digest_sound cp_id digest h =
      elim (notes_after-Among t hashes (λ n. str_get cp_id n.digests ≡ some digest)
        (HasDigest cp_id digest)
        (λ bc n there.
          str_get-if_ok cp_id bc.checkpoint.note.checkpoint_id blake3_raw n.digests _ there)
        bcs no_notes h) [ inl nothing ↦ absurd (cc (nothing)) | inr among ↦ among ]

  -- a hash that is noted is that of a checkpoint's note
  pub hash_sound :
      (hash : Str)
      → has_str hash (notes_after t hashes bcs no_notes).hashes ≡ true
      → Among t hashes bcs (HasHash hash)
  unfolding has_str
  hash_sound hash h =
      elim (notes_after-Among t hashes (λ n. has_str hash n.hashes ≡ true) (HasHash hash)
        (λ bc n there. has_str-if_ok hash n.hashes _ there) bcs no_notes h) [
          | inl nothing ↦ absurd (cc (nothing))
          | inr among ↦ among
        ]

module _ ⦃e : Ed25519⦄ ⦃d : Digests⦄ ⦃c : Chrono⦄ (t : Trust) (hashes : SeqMap) where
  -- a checkpoint that is not kept, or whose link satisfies this
  abbrev LinkOf : (Str × Str → Type 0) → BundleCheckpoint → Type 0
  LinkOf P bc =
      (is_kept t hashes bc ≡ false)
      ⊎ Named P bc.checkpoint.note.checkpoint_id bc.checkpoint.note.prev_checkpoint_hash

  -- the links of all checkpoints that are kept are noted
  links_sound :
      (P : Str × Str → Type 0) (bcs : List BundleCheckpoint) (n : Notes)
      → All P (notes_after t hashes bcs n).links
      → All P n.links × All (LinkOf P) bcs
  unfolding notes_after
  links_sound P [] n h = (h, tt)
  links_sound P (bc ∷ rest) n h =
      let (before, others) =
        links_sound P rest (push_if (is_kept t hashes bc) bc.checkpoint.note n) h in
      elim (Bool-cases (is_kept t hashes bc)) [
        | inr k ↦ (rw k at before, (inl k, others))
        | inl k ↦
            let (old, new) =
              All-push_link P bc.checkpoint.note.checkpoint_id
                bc.checkpoint.note.prev_checkpoint_hash n.links (rw k at before) in
            (old, (inr new, others))
      ]

  -- a checkpoint that is not kept, or names no predecessor, or one of those that are kept
  abbrev pub IsLinked : List BundleCheckpoint → BundleCheckpoint → Type 0
  IsLinked bcs = LinkOf (λ link. Among t hashes bcs (HasHash link.1))

  Named-map :
      (P Q : Str × Str → Type 0) (cp_id : Str) (prev : Option Str)
      → ((l : Str × Str) → P l → Q l)
      → Named P cp_id prev
      → Named Q cp_id prev
  Named-map P Q cp_id none f h = tt
  Named-map P Q cp_id (some prev) f h = f (cp_id, prev) h

  -- if all links that are noted lead to hashes that are noted, then the checkpoints are linked
  pub checkpoints-IsLinked :
      (bcs : List BundleCheckpoint)
      → All
          (λ (l : Str × Str). has_str l.1 (notes_after t hashes bcs no_notes).hashes ≡ true)
          (notes_after t hashes bcs no_notes).links
      → All (IsLinked bcs) bcs
  checkpoints-IsLinked bcs h =
      All-map bcs
        (λ bc link. elim link [
          | inl passed ↦ inl passed
          | inr named ↦ inr (
              Named-map _ _ bc.checkpoint.note.checkpoint_id bc.checkpoint.note.prev_checkpoint_hash
                (λ l there. hash_sound t hashes bcs l.1 there) named)
        ])
        (links_sound
          (λ (l : Str × Str). has_str l.1 (notes_after t hashes bcs no_notes).hashes ≡ true) bcs
          no_notes h).1

  -- a checkpoint that is kept, and that names no predecessor or one of those that are kept
  abbrev pub IsChained : List BundleCheckpoint → BundleCheckpoint → Type 0
  IsChained bcs bc =
      (is_kept t hashes bc ≡ true)
      × Named (λ link. Among t hashes bcs (HasHash link.1)) bc.checkpoint.note.checkpoint_id
          bc.checkpoint.note.prev_checkpoint_hash

  pub checkpoints-IsChained :
      (bcs rest : List BundleCheckpoint)
      → All (λ bc. is_kept t hashes bc ≡ true) rest
      → All (IsLinked bcs) rest
      → All (IsChained bcs) rest
  checkpoints-IsChained bcs [] kept linked = tt
  checkpoints-IsChained bcs (bc ∷ rest) (kept, others) (linked, links) = (
    (kept, elim linked [ inl passed ↦ absurd (cc (kept, passed)) | inr named ↦ named ]),
    checkpoints-IsChained bcs rest others links,
  )
