-- ===== src/Chain/Accepts.antt =====
-- What a record without findings is: the rules of SPEC.md, sections 4 and 5, stated without the
-- verifier's tests, and their equivalence with `verify_next`.
use sealr_verify.Common.{
  sym, ap, ◌∙◌, ℕ, ◌+◌, ◌≤◌, ◌<◌, ◌≡◌, ◌↔◌, ◌⊎◌, refl, Option, none, some, List, [], ◌∷◌, ◌++◌,
  arith,
}
use sealr_verify.Common.Text.{Str, str_eq_iff}
use sealr_verify.Common.Result.{>>=-eq-ok, ok}
use sealr_verify.Deps.{Digests, Ulids, Chrono}
use sealr_verify.Json.{Value}
use sealr_verify.Record.{compute_hash_of_value, parse_wall}
use sealr_verify.Chain.View.{RecordView, from_value}
use sealr_verify.Chain.Verifier.{
  wall_findings, advance, verify_next, order_findings, StreamVerifier, wall_tolerance_ms,
  timestamp_millis, clock_anomaly, stream_findings, hash_findings, genesis_findings, seq_findings,
  link_findings, mono_findings, wall_test, wall_findings_at,
}

-- the clock went back no further than is tolerated, or one of the two records says why
abbrev pub ClockOk : (prev_type this_type : Str) → Option ℕ → Option ℕ → Type 0
ClockOk prev_type this_type none last = ⊥
ClockOk prev_type this_type (some t) none = Unit
ClockOk prev_type this_type (some t) (some last) =
    (last ≤ timestamp_millis t + wall_tolerance_ms)
    ⊎ (this_type ≡ clock_anomaly)
    ⊎ (prev_type ≡ clock_anomaly)

-- how a record follows the one before it
pub record IsNext ⦃c : Chrono⦄ (v : StreamVerifier) (prev view : RecordView) : Type 0 where
  pub later : prev.seq < view.seq
  pub dense : prev.segment_id ≡ view.segment_id → view.seq ≡ prev.seq + 1
  pub linked : view.prev_hash ≡ prev.record_hash
  pub monotonic : prev.segment_id ≡ view.segment_id → prev.ts_mono_ns ≤ view.ts_mono_ns
  pub clock : ClockOk prev.record_type view.record_type (parse_wall view.ts_wall) v.prev_wall_ms

abbrev pub InPlace : ⦃c : Chrono⦄ → Option RecordView → StreamVerifier → RecordView → Type 0
InPlace none v view = view.seq ≡ 0 → view.prev_hash ≡ v.genesis
InPlace (some prev) v view = IsNext v prev view

-- a raw record that the rules allow behind what the verifier has seen
pub record Accepts ⦃d : Digests⦄ ⦃c : Chrono⦄ (v : StreamVerifier) (raw : Value) (view : RecordView)
    : Type 0 where
  pub is_view : from_value raw ≡ ok view
  pub hashed : compute_hash_of_value raw ≡ ok view.record_hash
  pub same_stream : view.stream_id ≡ v.stream_id
  pub in_place : InPlace v.prev v view

append-eq-nil {ℓ} : {A : Type ℓ} (xs ys : List A) → (xs ++ ys ≡ []) ↔ ((xs ≡ []) × (ys ≡ []))
append-eq-nil [] ys = ((λ h. (refl, h)), λ h. h.1)
append-eq-nil (x ∷ xs) ys = ((λ h. absurd (cc)), λ h. absurd (cc (h.0)))

stream_findings_iff :
    (v : StreamVerifier) (view : RecordView)
    → (stream_findings v view ≡ []) ↔ (view.stream_id ≡ v.stream_id)
unfolding stream_findings
stream_findings_iff v view = ground (arith, str_eq_iff view.stream_id v.stream_id)

hash_findings_iff :
    (view : RecordView) (computed : Str)
    → (hash_findings view computed ≡ []) ↔ (computed ≡ view.record_hash)
unfolding hash_findings
hash_findings_iff view computed = ground (arith, str_eq_iff computed view.record_hash)

genesis_findings_iff :
    (v : StreamVerifier) (view : RecordView)
    → (genesis_findings v view ≡ []) ↔ (view.seq ≡ 0 → view.prev_hash ≡ v.genesis)
unfolding genesis_findings
genesis_findings_iff v view = ground (arith, str_eq_iff view.prev_hash v.genesis)

seq_findings_iff :
    (prev view : RecordView)
    → (seq_findings prev view ≡ [])
      ↔ ((prev.seq < view.seq) × (prev.segment_id ≡ view.segment_id → view.seq ≡ prev.seq + 1))
unfolding seq_findings
seq_findings_iff prev view = ground (arith, str_eq_iff prev.segment_id view.segment_id)

mono_findings_iff :
    (prev view : RecordView)
    → (mono_findings prev view ≡ [])
      ↔ (prev.segment_id ≡ view.segment_id → prev.ts_mono_ns ≤ view.ts_mono_ns)
unfolding mono_findings
mono_findings_iff prev view = ground (arith, str_eq_iff prev.segment_id view.segment_id)

link_findings_iff :
    ⦃d : Digests⦄
    → ⦃u : Ulids⦄ → (prev view : RecordView)
    → (link_findings prev view ≡ []) ↔ (view.prev_hash ≡ prev.record_hash)
unfolding link_findings
link_findings_iff prev view = ground (arith, str_eq_iff view.prev_hash prev.record_hash)

wall_findings_iff :
    (prev view : RecordView) (wall last : Option ℕ)
    → (wall_findings_at prev view wall last ≡ [])
      ↔ ClockOk prev.record_type view.record_type wall last
unfolding wall_findings_at wall_test
wall_findings_iff prev view none last = ((λ h. cc), λ h. absurd h)
wall_findings_iff prev view (some t) none = ((λ h. tt), λ h. refl)
wall_findings_iff prev view (some t) (some last) =
    ground
      (arith, str_eq_iff view.record_type clock_anomaly, str_eq_iff prev.record_type clock_anomaly)

module _ ⦃d : Digests⦄ ⦃u : Ulids⦄ ⦃c : Chrono⦄ where
  order_findings_iff :
      (prev : Option RecordView) (v : StreamVerifier) (view : RecordView)
      → (order_findings prev v view ≡ []) ↔ InPlace prev v view
  unfolding order_findings wall_findings
  order_findings_iff none v view = genesis_findings_iff v view
  order_findings_iff (some prev) v view =
      let wall = parse_wall view.ts_wall in
      (
        (λ h.
            let (s, h1) = (append-eq-nil (seq_findings prev view) _).0 h in
            let (l, h2) = (append-eq-nil (link_findings prev view) _).0 h1 in
            let (m, w) = (append-eq-nil (mono_findings prev view) _).0 h2 in
            record {
              later = ((seq_findings_iff prev view).0 s).0;
              dense = ((seq_findings_iff prev view).0 s).1;
              linked = (link_findings_iff prev view).0 l;
              monotonic = (mono_findings_iff prev view).0 m;
              clock = (wall_findings_iff prev view wall v.prev_wall_ms).0 w;
            }),
        (λ n. (append-eq-nil (seq_findings prev view) _).1 (
          (seq_findings_iff prev view).1 (n.later, n.dense),
          (append-eq-nil (link_findings prev view) _).1 (
            (link_findings_iff prev view).1 n.linked,
            (append-eq-nil (mono_findings prev view) _).1 (
              (mono_findings_iff prev view).1 n.monotonic,
              (wall_findings_iff prev view wall v.prev_wall_ms).1 n.clock,
            ),
          ),
        )),
      )

  verify_next-Accepts :
      (v : StreamVerifier) (raw : Value) (view : RecordView)
      → Accepts v raw view
      → verify_next v raw ≡ ok (advance v view, [])
  unfolding verify_next
  verify_next-Accepts v raw view a = rw (
    a.is_view,
    a.hashed,
    (stream_findings_iff v view).1 a.same_stream,
    (hash_findings_iff view view.record_hash).1 refl,
    (order_findings_iff v.prev v view).1 a.in_place,
  )

  Accepts-verify_next :
      (v v' : StreamVerifier) (raw : Value)
      → verify_next v raw ≡ ok (v', [])
      → (view : RecordView) × Accepts v raw view × (v' ≡ advance v view)
  unfolding verify_next
  Accepts-verify_next v v' raw h =
      let (view, is_view, h1) = >>=-eq-ok (from_value raw) _ h in
      let (computed, hashed, h2) = >>=-eq-ok (compute_hash_of_value raw) _ h1 in
      let none_found : stream_findings v view
            ++ (hash_findings view computed ++ order_findings v.prev v view)
          ≡ [] =
        cc in
      let (s, h3) = (append-eq-nil (stream_findings v view) _).0 none_found in
      let (e, o) = (append-eq-nil (hash_findings view computed) _).0 h3 in
      let same : computed ≡ view.record_hash = (hash_findings_iff view computed).0 e in
      (
        view,
        record {
          is_view = is_view;
          hashed = cc;
          same_stream = (stream_findings_iff v view).0 s;
          in_place = (order_findings_iff v.prev v view).0 o;
        },
        cc,
      )

  -- `verify_next` reports nothing for a record exactly if its fields are there, its stored hash is
  -- the hash of its canonical form, it is of this stream, and it is in its place. Behind another
  -- record it links to it, its number and its monotonic clock go on, and its wall time can be read
  -- and does not go back by more than the tolerance, next to no `clock_anomaly`. Of a first record
  -- only this is asked, that it carries the genesis hash if its number is 0: its wall time need not
  -- be readable. The verifier then has this record as the last one.
  pub verify_next_clean_iff :
      (v v' : StreamVerifier) (raw : Value)
      → (verify_next v raw ≡ ok (v', []))
        ↔ ((view : RecordView) × Accepts v raw view × (v' ≡ advance v view))
  verify_next_clean_iff v v' raw = (
    Accepts-verify_next v v' raw,
    λ h. verify_next-Accepts v raw h.0 h.1 ∙ ap (λ w. ok (w, [])) (sym h.2),
  )

  -- What is reported about the place of a first record does not depend on its wall-clock time,
  -- even if that time cannot be read.
  pub first_record_time_unchecked :
      (v : StreamVerifier) (view : RecordView) (wall : Str)
      → v.prev ≡ none
      → order_findings v.prev v (record view { ts_wall = wall }) ≡ order_findings v.prev v view
  unfolding order_findings genesis_findings
  first_record_time_unchecked v view wall h = rw h
