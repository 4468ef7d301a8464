-- ===== src/Engine/Checkpoints/Attested.antt =====
-- Which records count as attested after `verify_checkpoints`.
use sealr_verify.Bundle.Types.{BundleCheckpoint}
use sealr_verify.Common.{
  ℕ, zero, suc, ◌+◌, ◌≤◌, ◌<◌, ◌≡◌, ◌⊎◌, inl, inr, refl, sym, ◌∙◌, true, false, Bool-cases,
  Option-cases, Option, none, some, List, [], ◌∷◌, arith, length, get_elem?, ◌==◌, ==_iff,
}
use sealr_verify.Common.Text.{Str, str_eq, str_eq→eq, codes}
use sealr_verify.Common.Result.{Result, ok, err, EvidenceError}
use sealr_verify.Deps.{Digests, Ed25519, Chrono}
use sealr_verify.Record.{parse_wall}
use sealr_verify.Certs.{ValidatedCert}
use sealr_verify.Checkpoint.{CheckpointNote, Countersignature, verify, verify_root}
use sealr_verify.Report.{Severity, error, info, Finding}
use sealr_verify.Engine.{SeqMap, str_get, has_seq, add_seq, StreamData}
use sealr_verify.Engine.Checkpoints.{
  Trust, Range, Progress, report, is_ok, range_size, covered, add_range, expected_count, is_fork,
  fork_findings, any_key, check_countersignature, check_root, check_fork, revoked_at, check_signed,
  check_one, check_all, verify_checkpoints, keep,
}

pub is_ok→eq : (r : Result EvidenceError (Unit {0})) → is_ok r ≡ true → r ≡ ok tt
is_ok→eq (ok x) h = refl
is_ok→eq (err e) h = cc

-- a checkpoint that vouches for the record with this number
pub record Attests ⦃e : Ed25519⦄ ⦃d : Digests⦄ ⦃c : Chrono⦄ (t : Trust) (hashes : SeqMap) (s : ℕ)
    (bc : BundleCheckpoint) : Type 0 where
  pub same_stream : bc.checkpoint.note.stream_id ≡ t.stream_id
  pub cert : ValidatedCert
  pub certified : str_get bc.checkpoint.note.recorder_cert_fingerprint t.cert_map ≡ some cert
  pub signed : verify bc.checkpoint cert.public_key ≡ ok tt
  pub not_revoked :
      revoked_at t.revocations bc.checkpoint.note.recorder_cert_fingerprint
        (parse_wall bc.checkpoint.note.ts_wall)
      ≡ false
  pub all_there : length (covered hashes bc.checkpoint.note) ≡ expected_count bc.checkpoint.note
  pub rooted : verify_root bc.checkpoint (covered hashes bc.checkpoint.note) ≡ ok tt
  pub from : bc.checkpoint.note.seq_from ≤ s
  pub to : s ≤ bc.checkpoint.note.seq_to

has_seq-cons : (s x : ℕ) (l : List ℕ) → has_seq s (x ∷ l) ≡ true → (s ≡ x) ⊎ (has_seq s l ≡ true)
unfolding has_seq
has_seq-cons s x l h = elim (Bool-cases (x == s)) [
  | inl t ↦ inl (sym ((==_iff x s).0 t))
  | inr t ↦ inr (rw t at h)
]

pub has_seq-add_seq :
    (s x : ℕ) (l : List ℕ) → has_seq s (add_seq x l) ≡ true → (s ≡ x) ⊎ (has_seq s l ≡ true)
unfolding add_seq
has_seq-add_seq s x l h = elim (Bool-cases (has_seq x l)) [
  | inl t ↦ inr (rw t at h)
  | inr t ↦ has_seq-cons s x l (rw t at h)
]

has_seq-add_range :
    (n from s : ℕ) (l : List ℕ)
    → has_seq s (add_range n from l) ≡ true
    → ((from ≤ s) × (s < from + n)) ⊎ (has_seq s l ≡ true)
unfolding add_range
has_seq-add_range zero from s l h = inr h
has_seq-add_range (suc n) from s l h = elim (has_seq-add_range n (from + 1) s (add_seq from l) h) [
  | inl (lo, hi) ↦ inl (omega arith, omega arith)
  | inr h2 ↦ elim (has_seq-add_seq s from l h2) [
    | inl e ↦ inl (omega arith, omega arith)
    | inr old ↦ inr old
  ]
]

-- the numbers that are attested, and the hashes, which no step changes
pub record Same (p q : Progress) : Type 0 where
  pub hashes : q.stream_data.hashes_by_seq ≡ p.stream_data.hashes_by_seq
  pub attested : q.stream_data.attested_seqs ≡ p.stream_data.attested_seqs
  pub anchored : q.stream_data.anchored_seqs ≡ p.stream_data.anchored_seqs

fork_findings-Same :
    (t : Trust) (note : CheckpointNote) (rs : List Range) (p : Progress)
    → Same p (fork_findings t note rs p)
unfolding fork_findings
fork_findings-Same t note [] p = record { hashes = refl; attested = refl; anchored = refl }
fork_findings-Same t note (r ∷ rs) p = elim (Bool-cases (is_fork note r)) [
  | inl f ↦
      let s = fork_findings-Same t note rs (report t error (codes "chain_fork_detected") p) in
      rw (f, fork_findings)
        (record { hashes = s.hashes; attested = s.attested; anchored = s.anchored })
  | inr f ↦ rw (f, fork_findings) (fork_findings-Same t note rs p)
]

module _ ⦃e : Ed25519⦄ ⦃d : Digests⦄ where
  check_countersignature-Same :
      (t : Trust) (note : CheckpointNote) (cs : Option Countersignature) (p : Progress)
      → Same p (check_countersignature t note cs p)
  unfolding check_countersignature keep
  check_countersignature-Same t note none p = record {
    hashes = refl;
    attested = refl;
    anchored = refl;
  }
  check_countersignature-Same t note (some cs) p = elim (Bool-cases (any_key cs t.console_keys)) [
    | inl k ↦ rw k (record { hashes = refl; attested = refl; anchored = refl })
    | inr k ↦ elim (Bool-cases (length t.console_keys == 0)) [
      | inl z ↦ rw (k, z) (record { hashes = refl; attested = refl; anchored = refl })
      | inr z ↦ rw (k, z) (record { hashes = refl; attested = refl; anchored = refl })
    ]
  ]

-- A step from `p` to `q` that keeps the hashes and attests a new number only on a condition.
pub record Step (p q : Progress) (C : ℕ → Type 0) : Type 0 where
  pub hashes : q.stream_data.hashes_by_seq ≡ p.stream_data.hashes_by_seq
  anchored : q.stream_data.anchored_seqs ≡ p.stream_data.anchored_seqs
  attested :
      (s : ℕ)
      → has_seq s q.stream_data.attested_seqs ≡ true
      → (has_seq s p.stream_data.attested_seqs ≡ true) ⊎ C s

report-Step :
    (t : Trust) (severity : Severity) (class : Str) (p : Progress) (C : ℕ → Type 0)
    → Step p (report t severity class p) C
report-Step t severity class p C = record {
  hashes = refl;
  anchored = refl;
  attested = λ s h. inl h;
}

Same-Step : (p q : Progress) (C : ℕ → Type 0) → Same p q → Step p q C
Same-Step p q C same = record {
  hashes = same.hashes;
  anchored = same.anchored;
  attested = λ s h. inl (rw same.attested at h);
}

-- the condition that `check_root` puts on a number
abbrev Rooted : ⦃d : Digests⦄ → SeqMap → BundleCheckpoint → ℕ → Type 0
Rooted hashes bc s =
    (length (covered hashes bc.checkpoint.note) ≡ expected_count bc.checkpoint.note)
    × (verify_root bc.checkpoint (covered hashes bc.checkpoint.note) ≡ ok tt)
    × (bc.checkpoint.note.seq_from ≤ s)
    × (s ≤ bc.checkpoint.note.seq_to)

module _ ⦃e : Ed25519⦄ ⦃d : Digests⦄ where
  -- the progress with the numbers of a note attested
  abbrev with_range : BundleCheckpoint → Progress → Progress
  with_range bc p =
      let note = bc.checkpoint.note in
      record p {
        stream_data = record p.stream_data {
          attested_seqs =
              add_range (range_size note.seq_from note.seq_to) note.seq_from
                p.stream_data.attested_seqs;
        };
      }

  with_range-Step :
      (bc : BundleCheckpoint) (p : Progress)
      → length (covered p.stream_data.hashes_by_seq bc.checkpoint.note)
        ≡ expected_count bc.checkpoint.note
      → verify_root bc.checkpoint (covered p.stream_data.hashes_by_seq bc.checkpoint.note) ≡ ok tt
      → Step p (with_range bc p) (Rooted p.stream_data.hashes_by_seq bc)
  with_range-Step bc p l r = record {
    hashes = refl;
    anchored = refl;
    attested = λ s h.
        elim (has_seq-add_range _ bc.checkpoint.note.seq_from s p.stream_data.attested_seqs h) [
          | inl (lo, hi) ↦ inr (l, r, lo, omega arith)
          | inr old ↦ inl old
        ];
  }

  -- a step, and one that attests nothing
  Step-Same : (p q r : Progress) (C : ℕ → Type 0) → Step p q C → Same q r → Step p r C
  Step-Same p q r C step same = record {
    hashes = same.hashes ∙ step.hashes;
    anchored = same.anchored ∙ step.anchored;
    attested = λ s h. step.attested s (rw same.attested at h);
  }

  check_root-Step :
      (t : Trust) (bc : BundleCheckpoint) (p : Progress)
      → Step p (check_root t bc p) (Rooted p.stream_data.hashes_by_seq bc)
  unfolding check_root
  check_root-Step t bc p =
      let note = bc.checkpoint.note in
      let hashes = covered p.stream_data.hashes_by_seq note in
      elim (Bool-cases (length hashes == expected_count note)) [
        | inr l ↦ rw l (
            Step-Same p (report t info (codes "checkpoint_range_not_fully_exported") p) _ _
              (report-Step t info (codes "checkpoint_range_not_fully_exported") p _)
              (check_countersignature-Same t note bc.countersignature _))
        | inl l ↦ elim (Bool-cases (is_ok (verify_root bc.checkpoint hashes))) [
          | inr r ↦ rw (l, r) (report-Step t error (codes "checkpoint_root_mismatch") p _)
          | inl r ↦
              rw (l, r)
                (Step-Same p (with_range bc p) _ _
                  (with_range-Step bc p ((==_iff _ _).0 l) (is_ok→eq _ r))
                  (check_countersignature-Same t note bc.countersignature _))
        ]
      ]

  check_fork-Step :
      (t : Trust) (bc : BundleCheckpoint) (p : Progress)
      → Step p (check_fork t bc p) (Rooted p.stream_data.hashes_by_seq bc)
  unfolding check_fork
  check_fork-Step t bc p =
      let same = fork_findings-Same t bc.checkpoint.note p.ranges p in
      let step = check_root-Step t bc _ in
      record {
        hashes = step.hashes ∙ same.hashes;
        anchored = step.anchored ∙ same.anchored;
        attested = λ s h. elim (step.attested s h) [
          | inl old ↦ inl (rw same.attested at old)
          | inr (l, r, lo, hi) ↦ inr (rw same.hashes at l, rw same.hashes at r, lo, hi)
        ];
      }

module _ ⦃e : Ed25519⦄ ⦃d : Digests⦄ ⦃c : Chrono⦄ where
  check_signed-Step :
      (t : Trust) (bc : BundleCheckpoint) (k : ValidatedCert) (p : Progress)
      → bc.checkpoint.note.stream_id ≡ t.stream_id
      → str_get bc.checkpoint.note.recorder_cert_fingerprint t.cert_map ≡ some k
      → Step p (check_signed t bc k.public_key p) (λ s. Attests t p.stream_data.hashes_by_seq s bc)
  unfolding check_signed
  check_signed-Step t bc k p same cert =
      let note = bc.checkpoint.note in
      elim (Bool-cases (is_ok (verify bc.checkpoint k.public_key))) [
        | inr v ↦ rw v (report-Step t error (codes "checkpoint_signature_invalid") p _)
        | inl v ↦
            elim (Bool-cases
              (revoked_at t.revocations note.recorder_cert_fingerprint (parse_wall note.ts_wall))) [
                | inl r ↦ rw (v, r) (report-Step t error (codes "checkpoint_after_revocation") p _)
                | inr r ↦
                    let step = check_fork-Step t bc p in
                    rw (v, r)
                      (record {
                        hashes = step.hashes;
                        anchored = step.anchored;
                        attested = λ s h. elim (step.attested s h) [
                          | inl old ↦ inl old
                          | inr (l, root, lo, hi) ↦ inr (record {
                            same_stream = same;
                            cert = k;
                            certified = cert;
                            signed = is_ok→eq _ v;
                            not_revoked = r;
                            all_there = l;
                            rooted = root;
                            from = lo;
                            to = hi;
                          })
                        ];
                      })
              ]
      ]

  pub check_one-Step :
      (t : Trust) (bc : BundleCheckpoint) (p : Progress)
      → Step p (check_one t bc p) (λ s. Attests t p.stream_data.hashes_by_seq s bc)
  unfolding check_one
  check_one-Step t bc p =
      let note = bc.checkpoint.note in
      elim (Bool-cases (str_eq note.stream_id t.stream_id)) [
        | inr m ↦ rw m (report-Step t error (codes "checkpoint_stream_mismatch") p _)
        | inl m ↦ elim (Option-cases (str_get note.recorder_cert_fingerprint t.cert_map)) [
          | inl u ↦ rw (m, u) (report-Step t error (codes "checkpoint_cert_unknown") p _)
          | inr (k, u) ↦ rw (m, u) (check_signed-Step t bc k p (str_eq→eq _ _ m) u)
        ]
      ]

  check_all-Step :
      (t : Trust) (bcs : List BundleCheckpoint) (p : Progress)
      → Step p (check_all t bcs p) (λ s.
        (i : ℕ) × (bc : BundleCheckpoint) × (get_elem? bcs i ≡ some bc)
        × Attests t p.stream_data.hashes_by_seq s bc)
  unfolding check_all
  check_all-Step t [] p = record { hashes = refl; anchored = refl; attested = λ s h. inl h }
  check_all-Step t (bc ∷ rest) p =
      let one = check_one-Step t bc p in
      let others = check_all-Step t rest (check_one t bc p) in
      record {
        hashes = others.hashes ∙ one.hashes;
        anchored = others.anchored ∙ one.anchored;
        attested = λ s h. elim (others.attested s h) [
          | inr (i, x, at, a) ↦ inr (suc i, x, at, rw one.hashes at a)
          | inl h2 ↦ elim (one.attested s h2) [ inl old ↦ inl old | inr a ↦ inr (0, bc, refl, a) ]
        ];
      }

  -- A record that counts as attested after `verify_checkpoints`, and did not before, is vouched for
  -- by one of the checkpoints: it is of this stream, its signature verifies under a validated
  -- certificate, which the revocation list does not revoke at the time of the note if this time can
  -- be read, its range holds the record and is all there, and its root is the root of the hashes
  -- that were read. A time that cannot be read leaves the revocation unchecked.
  pub verify_checkpoints_attested :
      (t : Trust) (bcs : List BundleCheckpoint) (findings : List Finding) (data_in : StreamData)
      (s : ℕ)
      → has_seq s (verify_checkpoints t bcs findings data_in).1.attested_seqs ≡ true
      → (has_seq s data_in.attested_seqs ≡ true)
        ⊎ ((i : ℕ) × (bc : BundleCheckpoint) × (get_elem? bcs i ≡ some bc)
            × Attests t data_in.hashes_by_seq s bc)
  unfolding verify_checkpoints
  verify_checkpoints_attested t bcs findings data_in s h =
      (check_all-Step t bcs
          (record { findings = findings; stream_data = data_in; ranges = [] })).attested
        s h

  -- the hashes and the anchored numbers stay
  pub verify_checkpoints-kept :
      (t : Trust) (bcs : List BundleCheckpoint) (findings : List Finding) (data_in : StreamData)
      → ((verify_checkpoints t bcs findings data_in).1.hashes_by_seq ≡ data_in.hashes_by_seq)
        × ((verify_checkpoints t bcs findings data_in).1.anchored_seqs ≡ data_in.anchored_seqs)
  unfolding verify_checkpoints
  verify_checkpoints-kept t bcs findings data_in =
      let step =
        check_all-Step t bcs (record { findings = findings; stream_data = data_in; ranges = [] }) in
      (step.hashes, step.anchored)
