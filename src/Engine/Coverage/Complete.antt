-- ===== src/Engine/Coverage/Complete.antt =====
-- When the coverage checks report no error.
use sealr_verify.Common.{
  ◌-◌, ℕ, ◌≤◌, ◌≡◌, ◌↔◌, refl, ap, sym, ◌∙◌, ◌||◌, Bool, true, false, Bool-cases, Option-cases, inl,
  inr, Option, none, some, List, [], ◌∷◌, ◌++◌, All, ltb, arith, ◌==◌, ==_iff, ==_refl, ◌&&◌,
  length,
}
use sealr_verify.Common.Text.{Str, codes}
use sealr_verify.Report.{warning, error, Finding, is_error, any_severity}
use sealr_verify.Report.Result.{any_severity-append}
use sealr_verify.Engine.{SeqMap, seq_get, has_str, StreamData}
use sealr_verify.Engine.Coverage.{
  only_if, at_stream, max_of, max_key, high_water, stops_below, truncation_findings, link_findings,
  is_none, tail_findings, segment_findings, coverage_findings,
}

-- a record of the stream with this number or a later one
abbrev pub Reaches : SeqMap → ℕ → Type 0
Reaches m k = (j : ℕ) × (h : Str) × (seq_get j m ≡ some h) × (k ≤ j)

later_key : (a k : ℕ) (o : Option ℕ) → max_of a o ≡ k → (a == k) ≡ false → o ≡ some k
later_key a k none e ne = absurd (cc (ne, ==_refl a, e))
later_key a k (some j) e ne = elim (Bool-cases (ltb a j)) [
  | inl t ↦ ap some (rw t at e)
  | inr t ↦ absurd (cc (ne, ==_refl a, rw t at e))
]

-- the larger of the two is at least each
max_of-left : (a : ℕ) (o : Option ℕ) → a ≤ max_of a o
max_of-left a none = omega arith
max_of-left a (some j) = ground arith

max_of-right : (a j : ℕ) → j ≤ max_of a (some j)
max_of-right a j = ground arith

max_key-present : (m : SeqMap) (k : ℕ) → max_key m ≡ some k → (h : Str) × (seq_get k m ≡ some h)
unfolding max_key seq_get
max_key-present [] k e = absurd (cc)
max_key-present (x ∷ m) k e = elim (Bool-cases (x.0 == k)) [
  | inl t ↦ (x.1, rw t)
  | inr t ↦ let (h, at) = max_key-present m k (later_key x.0 k (max_key m) (cc) t) in (h, rw t at)
]

max_key-most :
    (m : SeqMap) (j : ℕ) (h : Str) → seq_get j m ≡ some h → (k : ℕ) × (max_key m ≡ some k) × (j ≤ k)
unfolding max_key seq_get
max_key-most [] j h e = absurd (cc)
max_key-most (x ∷ m) j h e = elim (Bool-cases (x.0 == j)) [
  | inl t ↦
      let same = (==_iff x.0 j).0 t in
      (max_of x.0 (max_key m), refl, omega (arith, max_of-left x.0 (max_key m), same))
  | inr t ↦
      let (k, most, le) = max_key-most m j h (rw t at e) in
      (max_of x.0 (max_key m), refl, rw most (omega (arith, max_of-right x.0 k, le)))
]

Reaches-le : (m : SeqMap) (j k : ℕ) → j ≤ k → Reaches m k → Reaches m j
Reaches-le m j k le (i, h, at, most) = (i, h, at, omega arith)

stops_iff : (m : SeqMap) (k : ℕ) → (stops_below k (max_key m) ≡ false) ↔ Reaches m k
stops_iff m k = elim (Option-cases (max_key m)) [
  | inl empty ↦ (
    λ h. absurd (cc (rw empty at h)),
    λ r. let (j, most, le) = max_key-most m r.0 r.1 r.2 in absurd (cc (empty, most)),
  )
  | inr (j, most) ↦ (
    λ h. let (text, at) = max_key-present m j most in (j, text, at, ground (arith, rw most at h)),
    λ r.
        let (i, most2, le) = max_key-most m r.0 r.1 r.2 in
        let same : i ≡ j = cc (most, most2) in
        let low : k ≤ j = omega (arith, r.3, le, same) in rw most (ground (arith, low)),
  )
]

-- every checkpoint that another one names is there
abbrev pub Linked : List Str → List (Str × Str) → Type 0
Linked hashes links = All (λ l. has_str l.1 hashes ≡ true) links

abbrev pub ReachesOpt : SeqMap → Option ℕ → Type 0
ReachesOpt m none = Unit
ReachesOpt m (some k) = Reaches m k

links_iff :
    (s : Str) (hashes : List Str) (links : List (Str × Str))
    → (any_severity is_error (link_findings s hashes links) ≡ false) ↔ Linked hashes links
unfolding link_findings
links_iff s hashes [] = (λ h. tt, λ h. refl)
links_iff s hashes (l ∷ links) =
    let rest = links_iff s hashes links in
    elim (Bool-cases (has_str l.1 hashes)) [
      | inl t ↦ (λ h. (t, rest.0 (rw t at h)), λ h. rw t (rest.1 h.1))
      | inr t ↦ (λ h. absurd (cc (rw t at h)), λ h. absurd (cc (t, h.0)))
    ]

only_if_error :
    (b : Bool) (s class : Str) → any_severity is_error (only_if b (at_stream s error class)) ≡ b
only_if_error true s class = refl
only_if_error false s class = refl

only_if_warning :
    (b : Bool) (s class : Str)
    → any_severity is_error (only_if b (at_stream s warning class)) ≡ false
only_if_warning true s class = refl
only_if_warning false s class = refl

segments_no_error :
    (s : Str) (segs : List Str) → any_severity is_error (segment_findings s segs) ≡ false
unfolding segment_findings
segments_no_error s [] = refl
segments_no_error s (seg ∷ segs) = segments_no_error s segs

truncation_iff :
    (s : Str) (hw : Option ℕ) (m : SeqMap)
    → (any_severity is_error (truncation_findings s hw (max_key m)) ≡ false) ↔ ReachesOpt m hw
unfolding truncation_findings
truncation_iff s none m = (λ h. tt, λ h. refl)
truncation_iff s (some k) m =
    let same = only_if_error (stops_below k (max_key m)) s (codes "truncation_detected") in
    (λ h. (stops_iff m k).0 (sym same ∙ h), λ r. same ∙ (stops_iff m k).1 r)

high_water_iff :
    (m : SeqMap) (p c : Option ℕ)
    → ReachesOpt m (high_water p c) ↔ (ReachesOpt m p × ReachesOpt m c)
high_water_iff m none c = (λ h. (tt, h), λ h. h.1)
high_water_iff m (some p) none = (λ h. (h, tt), λ h. h.0)
high_water_iff m (some p) (some c) = (
  λ h. (
    Reaches-le m p (max_of p (some c)) (max_of-left p (some c)) h,
    Reaches-le m c (max_of p (some c)) (max_of-right p c) h,
  ),
  λ h. elim (Bool-cases (ltb p c)) [ inl t ↦ rw t h.1 | inr t ↦ rw t h.0 ],
)

two_parts : (a b : Bool) → ((a || (b || false)) ≡ false) ↔ ((a ≡ false) × (b ≡ false))
two_parts a b = ground arith

six_parts :
    (a l t b c e : List Finding)
    → any_severity is_error a ≡ false
    → any_severity is_error b ≡ false
    → any_severity is_error c ≡ false
    → any_severity is_error e ≡ false
    → any_severity is_error (a ++ (l ++ (t ++ (b ++ (c ++ e)))))
      ≡ (any_severity is_error l || (any_severity is_error t || false))
six_parts a l t b c e ha hb hc he =
    rw
      (
        any_severity-append is_error a (l ++ (t ++ (b ++ (c ++ e)))),
        ha,
        any_severity-append is_error l (t ++ (b ++ (c ++ e))),
        any_severity-append is_error t (b ++ (c ++ e)),
        any_severity-append is_error b (c ++ e),
        hb,
        any_severity-append is_error c e,
        hc,
        he,
      )
      refl

-- only two kinds of findings are errors
coverage_errors :
    (s : Str) (pinned : Option ℕ) (d : StreamData)
    → any_severity is_error (coverage_findings s pinned d) ≡ (
        any_severity is_error (link_findings s d.checkpoint_note_hashes d.checkpoint_links)
        || (any_severity is_error (
              truncation_findings s
                (high_water pinned d.countersigned_high_water)
                (max_key d.hashes_by_seq))
            || false))
unfolding coverage_findings tail_findings
coverage_errors s pinned d =
    six_parts
      (only_if (ltb 0 (length d.hashes_by_seq - length d.attested_seqs))
        (at_stream s warning (codes "unattested_tail")))
      (link_findings s d.checkpoint_note_hashes d.checkpoint_links)
      (truncation_findings s (high_water pinned d.countersigned_high_water)
        (max_key d.hashes_by_seq))
      (tail_findings s pinned d)
      (only_if (ltb 0 d.coverage_gap_count) (at_stream s warning (codes "coverage_gaps_recorded")))
      (segment_findings s d.segments_without_end)
      (only_if_warning (ltb 0 (length d.hashes_by_seq - length d.attested_seqs)) s
        (codes "unattested_tail"))
      (only_if_warning
        (is_none pinned && (ltb 0 (length d.hashes_by_seq) && is_none d.countersigned_high_water)) s
        (codes "tail_completeness_unproven"))
      (only_if_warning (ltb 0 d.coverage_gap_count) s (codes "coverage_gaps_recorded"))
      (segments_no_error s d.segments_without_end)

-- The checks of a stream report an error exactly if a checkpoint names a predecessor that is not
-- there, or the records stop below the number that was pinned or the highest one that a verified
-- countersignature vouches for.
pub coverage_no_error_iff :
    (s : Str) (pinned : Option ℕ) (d : StreamData)
    → (any_severity is_error (coverage_findings s pinned d) ≡ false) ↔ (
        Linked d.checkpoint_note_hashes d.checkpoint_links
        × ReachesOpt d.hashes_by_seq pinned
        × ReachesOpt d.hashes_by_seq d.countersigned_high_water)
coverage_no_error_iff s pinned d =
    let parts =
      two_parts
        (any_severity is_error (link_findings s d.checkpoint_note_hashes d.checkpoint_links))
        (any_severity is_error (
          truncation_findings s (high_water pinned d.countersigned_high_water)
            (max_key d.hashes_by_seq))) in
    let linked = links_iff s d.checkpoint_note_hashes d.checkpoint_links in
    let reached = truncation_iff s (high_water pinned d.countersigned_high_water) d.hashes_by_seq in
    let both = high_water_iff d.hashes_by_seq pinned d.countersigned_high_water in
    (
      (λ h.
          let (l, t) = parts.0 (sym (coverage_errors s pinned d) ∙ h) in
          let (p, c) = both.0 (reached.0 t) in (linked.0 l, p, c)),
      (λ h. coverage_errors s pinned d ∙ parts.1 (linked.1 h.0, reached.1 (both.1 (h.1, h.2)))),
    )
