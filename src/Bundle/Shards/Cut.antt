-- ===== src/Bundle/Shards/Cut.antt =====
-- The loop of `add_stream_records`: the shards that it writes hold the lines, in order.
use sealr_verify.Common.{
  ℕ, ◌+◌, ◌%◌, ◌^◌, ◌≡◌, refl, sym, ap, ◌∙◌, subst, Bool-cases, inl, inr, some, List, [], ◌∷◌, ◌++◌,
  map, map-append, length, append_assoc, append-nil, leb,
}
use sealr_verify.Common.Text.{Bytes, Str}
use sealr_verify.Common.Result.{ok_injective, Result, ok, BundleError}
use sealr_verify.Common.Run.{>>=-succeeds, lift-succeeds}
use sealr_verify.Deps.{Digests, Serde}
use sealr_verify.Deps.Archives.{Zips, Zstd, Entry, names}
use sealr_verify.Bundle.Types.{RecordIndexStream}
use sealr_verify.Bundle.Writer.{BundleWriter, write_entry, or_io}
use sealr_verify.Bundle.Writer.Listed.{write_entry_ok}
use sealr_verify.Bundle.Writer.Records.{
  Shards, no_shards, take_line, is_empty, shard_path, flush_shard, add_line, add_lines, index_entry,
  push_stream, write_stream_records,
}
use sealr_verify.Bundle.Reader.Lines.{stored_line, joined}
use sealr_verify.Bundle.Shards.{concat, Packed}
use sealr_verify.Bundle.Shards.Loop.{
  concat-snoc, or_io_ok, joined-ne-nil, is_empty-true, index_entry_ok, Packed-snoc, Cutting,
  Cutting-outcome, Cutting-take_line,
}

module _ ⦃z : Zips⦄ ⦃c : Zstd⦄ where
  module _ ⦃d : Digests⦄ where
    Cutting-flush_shard :
        (base : List Entry) (done : List Bytes) (id : Str) (w v : BundleWriter) (s t : Shards)
        → Cutting base done w s
        → flush_shard id s w ≡ (ok t, v)
        → Cutting base done v t × (t.shard_buf ≡ [])
    unfolding flush_shard
    Cutting-flush_shard base done id w v s t k h = elim (Bool-cases (is_empty s.shard_buf)) [
      | inl e ↦
          let h' : ◌≡◌ {A = Result BundleError Shards × BundleWriter} (ok s, w) (ok t, v) =
            rw e at h in
          (
            Cutting-outcome base done w v s t h' k,
            ap (λ x. x.shard_buf) (sym (ok_injective (ap (λ o. o.0) h')))
                ∙ is_empty-true s.shard_buf e,
          )
      | inr e ↦
          let (packed, e1, h1) =
            lift-succeeds (or_io (c.encode_all s.shard_buf)) _ w v (rw e at h) in
          let (u, w1, e2, h2) =
            >>=-succeeds (write_entry (shard_path id s.shard_no) packed) _ w v h1 in
          let path : Str = shard_path id s.shard_no in
          let cut : Shards = record s { shards = s.shards ++ path ∷ []; shard_buf = [] } in
          let grown = (write_entry_ok path packed w w1 e2).1 in
          let encoded : c.encode_all (joined (map stored_line k.rest)) ≡ some packed =
            subst (λ b. c.encode_all b ≡ some packed) k.buf (or_io_ok _ e1) in
          let now : Cutting base done w1 cut = record {
            groups = k.groups ++ k.rest ∷ [];
            rest = [];
            es = k.es ++ (path, packed) ∷ [];
            all = append-nil _ ∙ concat-snoc k.groups k.rest ∙ k.all;
            buf = refl;
            packed = Packed-snoc k.groups k.es k.rest path packed k.packed encoded;
            written =
                grown
                ∙ ap (λ l. l ++ (path, packed) ∷ []) k.written
                ∙ append_assoc base k.es ((path, packed) ∷ []);
            named =
                ap (λ l. l ++ path ∷ []) k.named
                ∙ sym (map-append (λ (e : Entry). e.0) k.es ((path, packed) ∷ []));
            counted = k.counted;
          } in
          (
            Cutting-outcome base done w1 v cut t h2 now,
            ap (λ x. x.shard_buf) (sym (ok_injective (ap (λ o. o.0) h2))),
          )
    ]

    Cutting-shard_no :
        (base : List Entry) (done : List Bytes) (w : BundleWriter) (s : Shards) (n : ℕ)
        → Cutting base done w s
        → Cutting base done w (record s { shard_no = n })
    Cutting-shard_no base done w s n k = record {
      groups = k.groups;
      rest = k.rest;
      es = k.es;
      all = k.all;
      buf = k.buf;
      packed = k.packed;
      written = k.written;
      named = k.named;
      counted = k.counted;
    }

    Cutting-add_line :
        (base : List Entry) (done : List Bytes) (id : Str) (body : Bytes) (w v : BundleWriter)
        (s t : Shards)
        → Cutting base done w s
        → add_line id (stored_line body) s w ≡ (ok t, v)
        → Cutting base (done ++ body ∷ []) v t
    unfolding add_line
    Cutting-add_line base done id body w v s t k h =
        let s' : Shards = take_line (stored_line body) s in
        let k' = Cutting-take_line base done w s body k in
        elim (Bool-cases (leb w.shard_threshold (length s'.shard_buf))) [
          | inl e ↦
              let (cut, w1, e1, h1) = >>=-succeeds (flush_shard id s') _ w v (rw e at h) in
              let (k1, emptied) = Cutting-flush_shard base _ id w w1 s' cut k' e1 in
              Cutting-outcome base _ w1 v (record cut { shard_no = (cut.shard_no + 1) % 2 ^ 32 }) t
                h1 (Cutting-shard_no base (done ++ body ∷ []) w1 cut _ k1)
          | inr e ↦ Cutting-outcome base (done ++ body ∷ []) w v s' t (rw e at h) k'
        ]

    Cutting-add_lines :
        (base : List Entry) (done : List Bytes) (id : Str) (bodies : List Bytes)
        (w v : BundleWriter) (s t : Shards)
        → Cutting base done w s
        → add_lines id (map (λ b. ok (stored_line b)) bodies) s w ≡ (ok t, v)
        → Cutting base (done ++ bodies) v t
    unfolding add_lines
    Cutting-add_lines base done id [] w v s t k h =
        subst (λ l. Cutting base l v t) (sym (append-nil done))
          (Cutting-outcome base done w v s t h k)
    Cutting-add_lines base done id (b ∷ bodies) w v s t k h =
        let (s1, w1, e1, h1) = >>=-succeeds (add_line id (stored_line b) s) _ w v h in
        let k1 = Cutting-add_line base done id b w w1 s s1 k e1 in
        subst (λ l. Cutting base l v t) (append_assoc done (b ∷ []) bodies)
          (Cutting-add_lines base (done ++ b ∷ []) id bodies w1 v s1 t k1 h1)

    -- what `add_stream_records` leaves of its lines, when it succeeds
    pub record IsCut (base : List Entry) (bodies : List Bytes) (v : BundleWriter)
        (entry : RecordIndexStream) : Type 0 where
      pub groups : List (List Bytes)
      pub es : List Entry
      pub all : concat groups ≡ bodies
      pub packed : Packed groups es
      pub written : z.entries v.zip_writer ≡ base ++ es
      pub named : entry.shards ≡ names es
      pub counted : entry.record_count ≡ length bodies % 2 ^ 64

    Cutting-no_shards : (w : BundleWriter) → Cutting (z.entries w.zip_writer) [] w no_shards
    unfolding no_shards
    Cutting-no_shards w = record {
      groups = [];
      rest = [];
      es = [];
      all = refl;
      buf = refl;
      packed = tt;
      written = sym (append-nil _);
      named = refl;
      counted = refl;
    }

    pub write_stream_records_ok :
        ⦃q : Serde⦄ (id : Str) (bodies : List Bytes) (w v : BundleWriter)
        (entry : RecordIndexStream)
        → write_stream_records id (map (λ b. ok (stored_line b)) bodies) w ≡ (ok entry, v)
        → IsCut (z.entries w.zip_writer) bodies v entry
    unfolding write_stream_records push_stream
    write_stream_records_ok id bodies w v entry h =
        let base : List Entry = z.entries w.zip_writer in
        let (s1, w1, e1, h1) =
          >>=-succeeds (add_lines id (map (λ b. ok (stored_line b)) bodies) no_shards) _ w v h in
        let (s2, w2, e2, h2) = >>=-succeeds (flush_shard id s1) _ w1 v h1 in
        let (x, e3, h3) = lift-succeeds (index_entry id s2) _ w2 v h2 in
        let k1 = Cutting-add_lines base [] id bodies w w1 no_shards s1 (Cutting-no_shards w) e1 in
        let (k2, emptied) = Cutting-flush_shard base bodies id w1 w2 s1 s2 k1 e2 in
        let none_left = joined-ne-nil k2.rest (sym k2.buf ∙ emptied) in
        let (shards, count) = index_entry_ok id s2 x e3 in
        let same : x ≡ entry = ok_injective (ap (λ o. o.0) h3) in
        record {
          groups = k2.groups;
          es = k2.es;
          all = sym (append-nil _) ∙ ap (λ l. concat k2.groups ++ l) (sym none_left) ∙ k2.all;
          packed = k2.packed;
          written = ap z.entries (sym (ap (λ o. o.1.zip_writer) h3)) ∙ k2.written;
          named = ap (λ x. x.shards) (sym same) ∙ shards ∙ k2.named;
          counted = ap (λ x. x.record_count) (sym same) ∙ count ∙ k2.counted;
        }
