-- ===== src/Engine/Checkpoints/Kept.antt =====
-- What `verify_checkpoints` keeps of the checkpoints that it was given, without its loop.
use sealr_verify.Bundle.Types.{BundleCheckpoint}
use sealr_verify.Common.{
  ℕ, suc, ◌≡◌, ◌⊎◌, inl, inr, refl, ap, ◌∙◌, Bool, true, false, not, ◌&&◌, ◌||◌, Bool-cases,
  Option-cases, Option, none, some, List, [], ◌∷◌, length, get_elem?, ◌==◌,
}
use sealr_verify.Common.Text.{Bytes, Str, codes, str_eq}
use sealr_verify.Deps.{Digests, Ed25519, Chrono}
use sealr_verify.Hash.{blake3_raw}
use sealr_verify.Jcs.{to_jcs_bytes}
use sealr_verify.Record.{parse_wall}
use sealr_verify.Certs.{ValidatedCert}
use sealr_verify.Checkpoint.{
  CheckpointNote, Countersignature, note_value, note_hash, verify, verify_root,
}
use sealr_verify.Report.{error, Finding}
use sealr_verify.Engine.{SeqMap, str_get, str_insert, add_str, StreamData}
use sealr_verify.Engine.Checkpoints.{
  Trust, Range, Progress, report, is_ok, covered, expected_count, is_fork, fork_findings, push_link,
  if_ok, any_key, keep, check_countersignature, check_root, check_fork, revoked_at, check_signed,
  check_one, check_all, verify_checkpoints,
}
use sealr_verify.Engine.Checkpoints.Attested.{check_one-Step}

-- the part of a stream's data that its checkpoints are kept in
pub record Notes : Type 0 where
  pub digests : List (Str × Bytes)
  pub hashes : List Str
  pub links : List (Str × Str)
  pub ranges : List (Str × (ℕ × ℕ))

abbrev pub notes_of : StreamData → Notes
notes_of stream_data = record {
  digests = stream_data.checkpoint_digests;
  hashes = stream_data.checkpoint_note_hashes;
  links = stream_data.checkpoint_links;
  ranges = stream_data.valid_checkpoint_ranges;
}

abbrev pub no_notes : Notes
no_notes = record { digests = []; hashes = []; links = []; ranges = [] }

module _ ⦃e : Ed25519⦄ ⦃d : Digests⦄ where
  -- a note more
  abbrev push_note : CheckpointNote → Notes → Notes
  push_note note n = record {
    digests =
        if_ok (to_jcs_bytes (note_value note))
          (λ jcs. str_insert note.checkpoint_id (blake3_raw jcs)) n.digests;
    hashes = if_ok (note_hash note) add_str n.hashes;
    links = push_link note.checkpoint_id note.prev_checkpoint_hash n.links;
    ranges = str_insert note.checkpoint_id (note.seq_from, note.seq_to) n.ranges;
  }

  abbrev pub push_if : Bool → CheckpointNote → Notes → Notes
  push_if true note n = push_note note n
  push_if false note n = n

  -- no countersignature, one that verifies, or no key to check it with
  abbrev pub countersignature_fits : Trust → Option Countersignature → Bool
  countersignature_fits t none = true
  countersignature_fits t (some cs) = any_key cs t.console_keys || (length t.console_keys == 0)

  -- not all of its records are there, or they have its root
  abbrev pub root_fits : SeqMap → BundleCheckpoint → Bool
  root_fits hashes bc =
      not (length (covered hashes bc.checkpoint.note) == expected_count bc.checkpoint.note)
      || is_ok (verify_root bc.checkpoint (covered hashes bc.checkpoint.note))

  pub fork_findings-data :
      (t : Trust) (note : CheckpointNote) (rs : List Range) (p : Progress)
      → (fork_findings t note rs p).stream_data ≡ p.stream_data
  unfolding fork_findings
  fork_findings-data t note [] p = refl
  fork_findings-data t note (r ∷ rs) p = elim (Bool-cases (is_fork note r)) [
    | inl f ↦
        rw (f, fork_findings)
          (fork_findings-data t note rs (report t error (codes "chain_fork_detected") p))
    | inr f ↦ rw (f, fork_findings) (fork_findings-data t note rs p)
  ]

  check_countersignature-notes :
      (t : Trust) (note : CheckpointNote) (cs : Option Countersignature) (p : Progress)
      → notes_of (check_countersignature t note cs p).stream_data
        ≡ push_if (countersignature_fits t cs) note (notes_of p.stream_data)
  unfolding check_countersignature keep
  check_countersignature-notes t note none p = refl
  check_countersignature-notes t note (some cs) p = elim (Bool-cases (any_key cs t.console_keys)) [
    | inl k ↦ rw k refl
    | inr k ↦ elim (Bool-cases (length t.console_keys == 0)) [
      | inl z ↦ rw (k, z) refl
      | inr z ↦ rw (k, z) refl
    ]
  ]

  check_root-notes :
      (t : Trust) (bc : BundleCheckpoint) (p : Progress)
      → notes_of (check_root t bc p).stream_data
        ≡ push_if
            (root_fits p.stream_data.hashes_by_seq bc
              && countersignature_fits t bc.countersignature)
            bc.checkpoint.note
            (notes_of p.stream_data)
  unfolding check_root
  check_root-notes t bc p =
      let note = bc.checkpoint.note in
      let c = covered p.stream_data.hashes_by_seq note in
      elim (Bool-cases (length c == expected_count note)) [
        | inr l ↦ rw l (check_countersignature-notes t note bc.countersignature _)
        | inl l ↦ elim (Bool-cases (is_ok (verify_root bc.checkpoint c))) [
          | inr r ↦ rw (l, r) refl
          | inl r ↦ rw (l, r) (check_countersignature-notes t note bc.countersignature _)
        ]
      ]

  check_fork-notes :
      (t : Trust) (bc : BundleCheckpoint) (p : Progress)
      → notes_of (check_fork t bc p).stream_data
        ≡ push_if
            (root_fits p.stream_data.hashes_by_seq bc
              && countersignature_fits t bc.countersignature)
            bc.checkpoint.note
            (notes_of p.stream_data)
  unfolding check_fork
  check_fork-notes t bc p =
      check_root-notes t bc _
      ∙ ap
          (λ (x : StreamData).
            push_if (root_fits x.hashes_by_seq bc && countersignature_fits t bc.countersignature)
              bc.checkpoint.note (notes_of x))
          (fork_findings-data t bc.checkpoint.note p.ranges p)

module _ ⦃e : Ed25519⦄ ⦃d : Digests⦄ ⦃c : Chrono⦄ (t : Trust) (hashes : SeqMap) where
  abbrev pub cert_fits : BundleCheckpoint → Option ValidatedCert → Bool
  cert_fits bc none = false
  cert_fits bc (some cert) =
      is_ok (verify bc.checkpoint cert.public_key)
      && (not (
            revoked_at t.revocations bc.checkpoint.note.recorder_cert_fingerprint
              (parse_wall bc.checkpoint.note.ts_wall))
          && (root_fits hashes bc && countersignature_fits t bc.countersignature))

  -- A checkpoint that no check passes over: it is of the stream, signed under a validated
  -- certificate that the revocation list does not reach, its root is that of its records as far as
  -- these are all there, and a countersignature verifies as far as there is a key for it.
  abbrev pub is_kept : BundleCheckpoint → Bool
  is_kept bc =
      str_eq bc.checkpoint.note.stream_id t.stream_id
      && cert_fits bc (str_get bc.checkpoint.note.recorder_cert_fingerprint t.cert_map)

  -- the notes of the checkpoints that are kept, behind those that are there
  unfoldable pub notes_after : List BundleCheckpoint → Notes → Notes
  notes_after [] n = n
  notes_after (bc ∷ rest) n = notes_after rest (push_if (is_kept bc) bc.checkpoint.note n)

  -- one of the checkpoints that is kept, and of which this holds
  abbrev pub Among : List BundleCheckpoint → (BundleCheckpoint → Type 0) → Type 0
  Among bcs P =
      (i : ℕ) × (bc : BundleCheckpoint) × (get_elem? bcs i ≡ some bc) × (is_kept bc ≡ true) × P bc

  -- what holds of the notes at the end held before, or is due to a checkpoint
  pub notes_after-Among :
      (Q : Notes → Type 0) (P : BundleCheckpoint → Type 0)
      → ((bc : BundleCheckpoint) (n : Notes) → Q (push_note bc.checkpoint.note n) → Q n ⊎ P bc)
      → (bcs : List BundleCheckpoint) (n : Notes) → Q (notes_after bcs n)
      → Q n ⊎ Among bcs P
  unfolding notes_after
  notes_after-Among Q P one [] n h = inl h
  notes_after-Among Q P one (bc ∷ rest) n h =
      elim (notes_after-Among Q P one rest (push_if (is_kept bc) bc.checkpoint.note n) h) [
        | inr (i, other, listed, kept, its) ↦ inr (suc i, other, listed, kept, its)
        | inl h2 ↦ elim (Bool-cases (is_kept bc)) [
          | inr k ↦ inl (rw k at h2)
          | inl k ↦ elim (one bc n (rw k at h2)) [
            | inl old ↦ inl old
            | inr its ↦ inr (0, bc, refl, k, its)
          ]
        ]
      ]

module _ ⦃e : Ed25519⦄ ⦃d : Digests⦄ ⦃c : Chrono⦄ (t : Trust) where
  check_signed-notes :
      (bc : BundleCheckpoint) (k : ValidatedCert) (p : Progress)
      → notes_of (check_signed t bc k.public_key p).stream_data
        ≡ push_if
            (cert_fits t p.stream_data.hashes_by_seq bc (some k))
            bc.checkpoint.note
            (notes_of p.stream_data)
  unfolding check_signed
  check_signed-notes bc k p =
      let note = bc.checkpoint.note in
      elim (Bool-cases (is_ok (verify bc.checkpoint k.public_key))) [
        | inr v ↦ rw v refl
        | inl v ↦
            elim (Bool-cases
              (revoked_at t.revocations note.recorder_cert_fingerprint (parse_wall note.ts_wall))) [
                | inl r ↦ rw (v, r) refl
                | inr r ↦ rw (v, r) (check_fork-notes t bc p)
              ]
      ]

  check_one-notes :
      (bc : BundleCheckpoint) (p : Progress)
      → notes_of (check_one t bc p).stream_data
        ≡ push_if
            (is_kept t p.stream_data.hashes_by_seq bc)
            bc.checkpoint.note
            (notes_of p.stream_data)
  unfolding check_one
  check_one-notes bc p =
      let note = bc.checkpoint.note in
      elim (Bool-cases (str_eq note.stream_id t.stream_id)) [
        | inr m ↦ rw m refl
        | inl m ↦ elim (Option-cases (str_get note.recorder_cert_fingerprint t.cert_map)) [
          | inl u ↦ rw (m, u) refl
          | inr (k, u) ↦ rw (m, u) (check_signed-notes bc k p)
        ]
      ]

  check_all-notes :
      (bcs : List BundleCheckpoint) (p : Progress)
      → notes_of (check_all t bcs p).stream_data
        ≡ notes_after t p.stream_data.hashes_by_seq bcs (notes_of p.stream_data)
  unfolding check_all notes_after
  check_all-notes [] p = refl
  check_all-notes (bc ∷ rest) p =
      let hashes = (check_one-Step t bc p).hashes in
      check_all-notes rest (check_one t bc p)
      ∙ ap (λ h. notes_after t h rest (notes_of (check_one t bc p).stream_data)) hashes
      ∙ ap (λ n. notes_after t p.stream_data.hashes_by_seq rest n) (check_one-notes bc p)

  -- the loop keeps the notes of the checkpoints that `is_kept` accepts, in their order
  pub verify_checkpoints-notes :
      (bcs : List BundleCheckpoint) (findings : List Finding) (stream_data : StreamData)
      → notes_of (verify_checkpoints t bcs findings stream_data).1
        ≡ notes_after t stream_data.hashes_by_seq bcs (notes_of stream_data)
  unfolding verify_checkpoints
  verify_checkpoints-notes bcs findings stream_data =
      check_all-notes bcs (record { findings = findings; stream_data = stream_data; ranges = [] })
