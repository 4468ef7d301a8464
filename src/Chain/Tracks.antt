-- ===== src/Chain/Tracks.antt =====
-- One step of the round trip: a record that `append` returns goes on from what is seen.
use sealr_verify.Common.{
  subst, ℕ, ◌+◌, ◌^◌, ◌≤◌, ◌<◌, ◌≡◌, refl, sym, ap, ◌∙◌, Option, none, some, List, [], ◌∷◌, arith,
}
use native.Mathlib.Nat.{mod-eq_of_lt}
use sealr_verify.Common.Result.{ok}
use sealr_verify.Deps.{Digests, Ulids, Chrono}
use sealr_verify.Record.{parse_wall}
use sealr_verify.Record.Types.{Record}
use sealr_verify.Record.ToValue.{to_value, record_type_name}
use sealr_verify.Chain.{ChainHead, next_seq}
use sealr_verify.Chain.View.{RecordView}
use sealr_verify.Chain.Verifier.{StreamVerifier, last_wall, advance, verify_next}
use sealr_verify.Chain.Accepts.{ClockOk, IsNext, Accepts, InPlace, verify_next_clean_iff}
use sealr_verify.Chain.Appended.{view_of, from_value-to_value, Appended}

module _ ⦃c : Chrono⦄ where
  -- the clocks of a record go on from the record before it
  abbrev pub TimedAfter : Record → Option ℕ → Record → Type 0
  TimedAfter p last r =
      (p.segment_id ≡ r.segment_id → p.ts_mono_ns ≤ r.ts_mono_ns)
      × ClockOk (record_type_name p.record_type) (record_type_name r.record_type)
          (parse_wall r.ts_wall) last

  abbrev pub time_after : Option ℕ → Record → Option ℕ
  time_after last r = last_wall (parse_wall r.ts_wall) last

  -- the same through a list of records behind one
  abbrev pub WellTimedFrom : Record → Option ℕ → List Record → Type 0
  WellTimedFrom p last [] = Unit
  WellTimedFrom p last (r ∷ rs) = TimedAfter p last r × WellTimedFrom r (time_after last r) rs

  abbrev pub WellTimed : List Record → Type 0
  WellTimed [] = Unit
  WellTimed (r ∷ rs) = WellTimedFrom r (time_after none r) rs

-- The verifier has seen last what the head has chained last, which `p` became.
pub record Tracks ⦃d : Digests⦄ ⦃u : Ulids⦄ (h : ChainHead) (v : StreamVerifier) (seen : RecordView)
    (p : Record) : Type 0 where
  pub prev : v.prev ≡ some seen
  pub stream : v.stream_id ≡ u.to_string h.stream_id
  pub number : h.last_seq ≡ some seen.seq
  pub hash : h.head_hash ≡ seen.record_hash
  pub segment : seen.segment_id ≡ p.segment_id
  pub mono : seen.ts_mono_ns ≡ p.ts_mono_ns
  pub type : seen.record_type ≡ record_type_name p.record_type

module _ ⦃d : Digests⦄ ⦃u : Ulids⦄ ⦃c : Chrono⦄ where
  -- a chained record where it stands is accepted
  pub append-Accepts :
      (h h' : ChainHead) (r r' : Record) (v : StreamVerifier)
      → Appended h h' r r'
      → v.stream_id ≡ u.to_string h.stream_id
      → InPlace v.prev v (view_of r')
      → Accepts v (to_value r') (view_of r')
  append-Accepts h h' r r' v a s place = record {
    is_view = from_value-to_value r';
    hashed = a.hashed;
    same_stream = ap (λ (x : Record). x.stream_id) a.is_chained ∙ a.is_mine ∙ sym s;
    in_place = place;
  }

  pub Tracks-append :
      (h h' : ChainHead) (r r' : Record) (v : StreamVerifier)
      → Appended h h' r r'
      → v.stream_id ≡ u.to_string h.stream_id
      → Tracks h' (advance v (view_of r')) (view_of r') r
  unfolding advance
  Tracks-append h h' r r' v a s = record {
    prev = refl;
    stream = s ∙ ap (λ (x : ChainHead). u.to_string x.stream_id) (sym a.new_head);
    number =
        ap (λ (x : ChainHead). x.last_seq) a.new_head
        ∙ ap some (sym (ap (λ (x : Record). x.seq) a.is_chained));
    hash = ap (λ (x : ChainHead). x.head_hash) a.new_head;
    segment = ap (λ (x : Record). x.segment_id) a.is_chained;
    mono = ap (λ (x : Record). x.ts_mono_ns) a.is_chained;
    type = ap (λ (x : Record). record_type_name x.record_type) a.is_chained;
  }

  next_seq-some :
      (h : ChainHead) (s : ℕ) → h.last_seq ≡ some s → s + 1 < 2 ^ 64 → next_seq h ≡ s + 1
  unfolding next_seq
  next_seq-some h s e lt = rw e (mod-eq_of_lt lt)

  append-IsNext :
      (h h' : ChainHead) (p r r' : Record) (v : StreamVerifier) (seen : RecordView)
      → (t : Tracks h v seen p) → Appended h h' r r'
      → seen.seq + 1 < 2 ^ 64
      → TimedAfter p v.prev_wall_ms r
      → IsNext v seen (view_of r')
  append-IsNext h h' p r r' v seen t a lt (mono, clock) =
      let q : r'.seq ≡ seen.seq + 1 =
        ap (λ (x : Record). x.seq) a.is_chained ∙ next_seq-some h seen.seq t.number lt in
      let seg = ap (λ (x : Record). x.segment_id) a.is_chained in
      let ns = ap (λ (x : Record). x.ts_mono_ns) a.is_chained in
      let wall = ap (λ (x : Record). x.ts_wall) a.is_chained in
      let type = ap (λ (x : Record). record_type_name x.record_type) a.is_chained in
      record {
        later = omega arith;
        dense = λ e. q;
        linked = ap (λ (x : Record). x.prev_hash) a.is_chained ∙ t.hash;
        monotonic = λ e.
            let same : p.segment_id ≡ r.segment_id = sym t.segment ∙ e ∙ seg in
            omega (arith, mono same, t.mono, ns);
        clock = rw (t.type, type, wall) clock;
      }

  -- the head of the writer is what the verifier has seen last, after `n` more records
  pub record EndsAt (h : ChainHead) (v v' : StreamVerifier) (n : ℕ) : Type 0 where
    pub last : RecordView
    pub is_last : v'.prev ≡ some last
    pub same_head : h.head_hash ≡ last.record_hash
    pub count : v'.records_verified ≡ v.records_verified + n

  pub verify_one :
      (h h' : ChainHead) (p r r' : Record) (v : StreamVerifier) (seen : RecordView)
      → (t : Tracks h v seen p) → Appended h h' r r'
      → seen.seq + 1 < 2 ^ 64
      → TimedAfter p v.prev_wall_ms r
      → verify_next v (to_value r') ≡ ok (advance v (view_of r'), [])
  verify_one h h' p r r' v seen t a lt timed =
      let next = append-IsNext h h' p r r' v seen t a lt timed in
      let place = subst (λ o. InPlace o v (view_of r')) (sym t.prev) next in
      (verify_next_clean_iff v _ (to_value r')).1
        (view_of r', append-Accepts h h' r r' v a t.stream place, refl)

  pub wall_after :
      (h h' : ChainHead) (r r' : Record) (v : StreamVerifier)
      → Appended h h' r r'
      → (advance v (view_of r')).prev_wall_ms ≡ time_after v.prev_wall_ms r
  unfolding advance
  wall_after h h' r r' v a =
      ap (λ (x : Record). last_wall (parse_wall x.ts_wall) v.prev_wall_ms) a.is_chained

  pub count_after :
      (v : StreamVerifier) (view : RecordView)
      → (advance v view).records_verified ≡ v.records_verified + 1
  unfolding advance
  count_after v view = refl

  pub number_after :
      (h h' : ChainHead) (p r r' : Record) (v : StreamVerifier) (seen : RecordView)
      → Tracks h v seen p
      → Appended h h' r r'
      → seen.seq + 1 < 2 ^ 64
      → r'.seq ≡ seen.seq + 1
  number_after h h' p r r' v seen t a lt =
      ap (λ (x : Record). x.seq) a.is_chained ∙ next_seq-some h seen.seq t.number lt
