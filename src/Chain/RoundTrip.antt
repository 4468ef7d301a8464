-- ===== src/Chain/RoundTrip.antt =====
-- What the recorder writes, the verifier accepts: a chain built by `append` has no findings.
use sealr_verify.Common.{
  ℕ, ◌+◌, ◌^◌, ◌<◌, ◌≡◌, refl, sym, ap, ◌∙◌, none, some, List, [], ◌∷◌, map, arith, length,
}
use sealr_verify.Common.Result.{ok, ◌>>=◌, >>=-eq-ok}
use sealr_verify.Deps.{Digests, Ulids, Chrono}
use sealr_verify.Json.{Value}
use sealr_verify.Record.{genesis_prev_hash}
use sealr_verify.Record.Types.{Record}
use sealr_verify.Record.ToValue.{to_value}
use sealr_verify.Chain.{ChainHead, genesis, next_seq, append, append_all}
use sealr_verify.Chain.View.{RecordView}
use sealr_verify.Chain.Verifier.{head, StreamVerifier, advance, verify_next, verify_all, new}
use sealr_verify.Chain.Accepts.{verify_next_clean_iff}
use sealr_verify.Chain.Appended.{view_of, Appended, append_sound}
use sealr_verify.Chain.Tracks.{
  WellTimedFrom, WellTimed, Tracks, EndsAt, append-Accepts, Tracks-append, verify_one, wall_after,
  number_after, count_after,
}

module _ ⦃d : Digests⦄ ⦃u : Ulids⦄ ⦃c : Chrono⦄ where
  fresh : ℕ → StreamVerifier
  fresh stream = record {
    stream_id = u.to_string stream;
    genesis = genesis_prev_hash stream;
    prev = none;
    prev_wall_ms = none;
    records_verified = 0;
  }

  new-fresh : (stream : ℕ) → new (u.to_string stream) ≡ ok (fresh stream)
  unfolding new fresh
  new-fresh stream = rw (u.parse-to_string stream, new)

  -- the first record carries number 0 and the genesis hash
  append-genesis :
      (stream : ℕ) (h' : ChainHead) (r r' : Record)
      → Appended (genesis stream) h' r r'
      → (r'.seq ≡ 0) × (r'.prev_hash ≡ genesis_prev_hash stream)
  unfolding genesis next_seq
  append-genesis stream h' r r' a =
      (ap (λ (x : Record). x.seq) a.is_chained, ap (λ (x : Record). x.prev_hash) a.is_chained)

  verify_all-cons :
      (v v1 v2 : StreamVerifier) (raw : Value) (rest : List Value)
      → verify_next v raw ≡ ok (v1, [])
      → verify_all v1 rest ≡ ok (v2, [])
      → verify_all v (raw ∷ rest) ≡ ok (v2, [])
  unfolding verify_all
  verify_all-cons v v1 v2 raw rest e f = rw (e, f)

  append_all-cons :
      (h h' : ChainHead) (r : Record) (rs rs' : List Record)
      → append_all h (r ∷ rs) ≡ ok (h', rs')
      → (one : ChainHead × Record) × (rest : List Record) × (append h r ≡ ok one)
        × (append_all one.0 rs ≡ ok (h', rest))
        × (one.1 ∷ rest ≡ rs')
  unfolding append_all
  append_all-cons h h' r rs rs' e =
      let (one, e1, e2) = >>=-eq-ok (append h r) _ e in
      let (rest, e3, e4) = >>=-eq-ok (append_all one.0 rs) _ e2 in
      let same : rest.0 ≡ h' = cc in (one, rest.1, e1, e3 ∙ ap (λ x. ok (x, rest.1)) same, cc)

  abbrev Verified : StreamVerifier → ChainHead → List Record → ℕ → Type 0
  Verified v h' rs' n =
      (v' : StreamVerifier) × (verify_all v (map to_value rs') ≡ ok (v', [])) × EndsAt h' v v' n

  verify_all-append_all :
      (rs rs' : List Record) (h h' : ChainHead) (p : Record) (v : StreamVerifier)
      (seen : RecordView)
      → Tracks h v seen p
      → append_all h rs ≡ ok (h', rs')
      → seen.seq + length rs < 2 ^ 64
      → WellTimedFrom p v.prev_wall_ms rs
      → Verified v h' rs' (length rs)
  verify_all-append_all [] rs' h h' p v seen t e lt w =
      unfold append_all verify_all in
      let none_left : [] ≡ rs' = cc in
      let same : h ≡ h' = cc in
      (
        v,
        rw (← none_left),
        record {
          last = seen;
          is_last = t.prev;
          same_head = rw (← same) t.hash;
          count = omega arith;
        },
      )
  verify_all-append_all (r ∷ rs) rs' h h' p v seen t e lt (timed, w) =
      let (one, rest, e1, e2, e3) = append_all-cons h h' r rs rs' e in
      let a = append_sound h one.0 r one.1 e1 in
      let v1 = advance v (view_of one.1) in
      let fits : seen.seq + 1 < 2 ^ 64 = omega arith in
      let number = number_after h one.0 p r one.1 v seen t a fits in
      let first = verify_one h one.0 p r one.1 v seen t a fits timed in
      let (v', clean, ends) =
        verify_all-append_all rs rest one.0 h' r v1 (view_of one.1)
          (Tracks-append h one.0 r one.1 v a t.stream) e2 (omega arith)
          (rw (wall_after h one.0 r one.1 v a) w) in
      (
        v',
        sym (ap (λ l. verify_all v (map to_value l)) e3)
            ∙ verify_all-cons v v1 v' (to_value one.1) (map to_value rest) first clean,
        record {
          last = ends.last;
          is_last = ends.is_last;
          same_head = ends.same_head;
          count = omega (arith, ends.count, count_after v (view_of one.1));
        },
      )

  -- A new stream: whatever records the recorder appends to a genesis head, if their clocks go on
  -- and there are fewer than 2^64 of them, a new verifier of that stream accepts the chained
  -- records without a finding, has verified all of them, and has the hash of the writer's head as
  -- its own head.
  pub verify_stream-append_all :
      (stream : ℕ) (r : Record) (rs rs' : List Record) (h' : ChainHead)
      → append_all (genesis stream) (r ∷ rs) ≡ ok (h', rs')
      → length (r ∷ rs) < 2 ^ 64
      → WellTimed (r ∷ rs)
      → (v' : StreamVerifier) × ((new (u.to_string stream) >>= λ v. verify_all v (map to_value rs'))
          ≡ ok (v', []))
        × (v'.records_verified ≡ length (r ∷ rs))
        × (head v' ≡ some h'.head_hash)
  unfolding head fresh genesis
  verify_stream-append_all stream r rs rs' h' e lt w =
      let (one, rest, e1, e2, e3) = append_all-cons (genesis stream) h' r rs rs' e in
      let a = append_sound (genesis stream) one.0 r one.1 e1 in
      let (zero_first, sentinel) = append-genesis stream one.0 r one.1 a in
      let v = fresh stream in
      let v1 = advance v (view_of one.1) in
      let accepted = append-Accepts (genesis stream) one.0 r one.1 v a refl (λ _. sentinel) in
      let first = (verify_next_clean_iff v v1 (to_value one.1)).1 (view_of one.1, accepted, refl) in
      let (v', clean, ends) =
        verify_all-append_all rs rest one.0 h' r v1 (view_of one.1)
          (Tracks-append (genesis stream) one.0 r one.1 v a refl) e2 (omega arith)
          (rw (wall_after (genesis stream) one.0 r one.1 v a) w) in
      (
        v',
        rw new-fresh (
            sym (ap (λ l. verify_all v (map to_value l)) e3)
            ∙ verify_all-cons v v1 v' (to_value one.1) (map to_value rest) first clean),
        omega (arith, ends.count, count_after v (view_of one.1)),
        rw ends.is_last (ap some (sym ends.same_head)),
      )
