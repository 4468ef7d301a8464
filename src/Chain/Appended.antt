-- ===== src/Chain/Appended.antt =====
-- What `append` does to a record and to the head.
use sealr_verify.Common.{◌≡◌, ◌∙◌, sym, ap, inl, inr, Bool-cases, some}
use sealr_verify.Common.Text.{Str, str_eq, str_eq→eq}
use sealr_verify.Common.Result.{ok, >>=-eq-ok}
use sealr_verify.Deps.{Digests, Ulids}
use sealr_verify.Record.{compute_hash, compute_hash_of_value, finalize}
use sealr_verify.Record.Types.{Record}
use sealr_verify.Record.ToValue.{to_value, record_type_name}
use sealr_verify.Record.Fields.{to_fields-HasFields, remove-record_hash}
use sealr_verify.Chain.{ChainHead, next_seq, append}
use sealr_verify.Chain.View.{RecordView, from_value, str_field, u64_field}

-- the fields of a record that the verifier sees
abbrev pub view_of : Record → RecordView
view_of r = record {
  record_id = r.record_id;
  stream_id = r.stream_id;
  segment_id = r.segment_id;
  seq = r.seq;
  ts_wall = r.ts_wall;
  ts_mono_ns = r.ts_mono_ns;
  record_type = record_type_name r.record_type;
  prev_hash = r.prev_hash;
  record_hash = r.record_hash;
}

-- The verifier reads from the JSON form of a record what the writer put there.
pub from_value-to_value : (r : Record) → from_value (to_value r) ≡ ok (view_of r)
unfolding from_value str_field u64_field to_value
from_value-to_value r =
    let f = to_fields-HasFields r in
    rw (
      f.record_id, f.stream_id, f.segment_id, f.seq, f.ts_wall, f.ts_mono_ns, f.record_type,
      f.prev_hash, f.record_hash,
    )

module _ ⦃d : Digests⦄ where
  -- Setting the hash of a record does not change the hash that is computed for it.
  pub compute_hash-record_hash :
      (r : Record) (h : Str) → compute_hash (record r { record_hash = h }) ≡ compute_hash r
  unfolding compute_hash compute_hash_of_value to_value
  compute_hash-record_hash r h = rw (remove-record_hash r h)

-- a record as it comes out of `append`, and the head after it
pub record Appended ⦃d : Digests⦄ ⦃u : Ulids⦄ (h h' : ChainHead) (r r' : Record) : Type 0 where
  pub is_mine : r.stream_id ≡ u.to_string h.stream_id
  pub is_chained :
      r' ≡ record r { seq = next_seq h; prev_hash = h.head_hash; record_hash = r'.record_hash }
  pub hashed : compute_hash_of_value (to_value r') ≡ ok r'.record_hash
  pub new_head : h' ≡ record h { head_hash = r'.record_hash; last_seq = some (next_seq h) }

-- the record with its place in the chain, before its hash is computed
abbrev placed : ChainHead → Record → Record
placed h r = record r { seq = next_seq h; prev_hash = h.head_hash }

module _ ⦃d : Digests⦄ ⦃u : Ulids⦄ where
  finalize_sound :
      (r r' : Record) (h : Str)
      → finalize r ≡ ok (r', h)
      → (r' ≡ record r { record_hash = h }) × (compute_hash_of_value (to_value r') ≡ ok h)
  unfolding finalize
  finalize_sound r r' h e =
      let (h2, hashed, e2) = >>=-eq-ok (compute_hash r) _ e in
      let same : h2 ≡ h = cc in
      let is : r' ≡ record r { record_hash = h } = cc in
      (is, rw is (unfold compute_hash in compute_hash-record_hash r h ∙ hashed ∙ ap ok same))

  -- A record that `append` returns is the record that it was given with the next number, the hash
  -- of the head and its own hash set; the head moves to that number and hash.
  pub append_sound :
      (h h' : ChainHead) (r r' : Record) → append h r ≡ ok (h', r') → Appended h h' r r'
  unfolding append
  append_sound h h' r r' e = elim (Bool-cases (str_eq r.stream_id (u.to_string h.stream_id))) [
    | inr other ↦ absurd (cc (rw other at e))
    | inl mine ↦
        let (chained, fin, e2) = >>=-eq-ok (finalize (placed h r)) _ (rw mine at e) in
        let (is, hashed) = finalize_sound (placed h r) chained.0 chained.1 fin in
        let same : chained.0 ≡ r' = cc in
        let whole : r' ≡ record (placed h r) { record_hash = chained.1 } = sym same ∙ is in
        let hash : r'.record_hash ≡ chained.1 = ap (λ (x : Record). x.record_hash) whole in
        let new : record h { head_hash = chained.1; last_seq = some (next_seq h) } ≡ h' = cc in
        record {
          is_mine = str_eq→eq _ _ mine;
          is_chained = whole ∙ ap (λ x. record (placed h r) { record_hash = x }) (sym hash);
          hashed =
              rw (← same, hashed)
                (ap ok (sym hash ∙ ap (λ (x : Record). x.record_hash) (sym same)));
          new_head =
              sym new
              ∙ ap (λ x. record h { head_hash = x; last_seq = some (next_seq h) }) (sym hash);
        }
  ]
