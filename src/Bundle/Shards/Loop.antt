-- ===== src/Bundle/Shards/Loop.antt =====
-- Where the loop of `add_stream_records` stands: what is in shards, and what is in the buffer.
use sealr_verify.Common.{
  ℕ, ◌%◌, ◌^◌, ◌≡◌, refl, sym, ap, ◌∙◌, subst, true, Bool-cases, inl, inr, Option, some, List, [],
  ◌∷◌, ◌++◌, map, map-append, length, length-append, append_assoc, append-nil, arith, ◌==◌,
}
use sealr_verify.Common.Text.{Bytes, Str}
use sealr_verify.Common.Result.{ok_injective, Result, ok, err, BundleError}
use sealr_verify.Deps.{Serde}
use sealr_verify.Deps.Archives.{Zips, Zstd, Entry, names}
use sealr_verify.Bundle.Types.{RecordIndexStream}
use sealr_verify.Bundle.Writer.{BundleWriter, or_io}
use sealr_verify.Bundle.Writer.Records.{
  Shards, take_line, is_empty, seq_at, entry_between, index_entry,
}
use sealr_verify.Bundle.Reader.Lines.{stored_line, joined}
use sealr_verify.Bundle.Shards.{concat, Packed}

pub concat-snoc : (gs : List (List Bytes)) (g : List Bytes) → concat (gs ++ g ∷ []) ≡ concat gs ++ g
concat-snoc [] g = append-nil g
concat-snoc (h ∷ gs) g = ap (λ l. h ++ l) (concat-snoc gs g) ∙ sym (append_assoc h (concat gs) g)

joined-snoc : (ls : List Bytes) (l : Bytes) → joined (ls ++ l ∷ []) ≡ joined ls ++ l
joined-snoc [] l = append-nil l
joined-snoc (h ∷ ls) l = ap (λ x. h ++ x) (joined-snoc ls l) ∙ sym (append_assoc h (joined ls) l)

pub or_io_ok : {A : Type 0} (r : Option A) {a : A} → or_io r ≡ ok a → r ≡ some a
or_io_ok Option.none h = absurd (cc)
or_io_ok (some x) h = cc

-- no line is empty, since it has its newline
pub joined-ne-nil : (bodies : List Bytes) → joined (map stored_line bodies) ≡ [] → bodies ≡ []
joined-ne-nil [] h = refl
joined-ne-nil ([] ∷ bodies) h = absurd (cc)
joined-ne-nil ((b ∷ body) ∷ bodies) h = absurd (cc)

pub is_empty-true : (b : Bytes) → is_empty b ≡ true → b ≡ []
is_empty-true [] h = refl
is_empty-true (x ∷ b) h = absurd (cc)

entry_between_ok :
    (id : Str) (s : Shards) (first last : Result BundleError ℕ) (entry : RecordIndexStream)
    → entry_between id s first last ≡ ok entry
    → (entry.shards ≡ s.shards) × (entry.record_count ≡ s.count)
entry_between_ok id s (err e) last entry h = absurd (cc)
entry_between_ok id s (ok from) (err e) entry h = absurd (cc)
entry_between_ok id s (ok from) (ok to) entry h =
    let same = sym (ok_injective h) in (ap (λ x. x.shards) same, ap (λ x. x.record_count) same)

pub index_entry_ok :
    ⦃q : Serde⦄ (id : Str) (s : Shards) (entry : RecordIndexStream)
    → index_entry id s ≡ ok entry
    → (entry.shards ≡ s.shards) × (entry.record_count ≡ s.count)
unfolding index_entry
index_entry_ok id s entry h = elim (Bool-cases (s.count == 0)) [
  | inl e ↦ absurd (cc (rw e at h))
  | inr e ↦ entry_between_ok id s (seq_at s.first_line) (seq_at s.last_line) entry (rw e at h)
]

module _ ⦃z : Zips⦄ ⦃c : Zstd⦄ where
  pub Packed-snoc :
      (gs : List (List Bytes)) (es : List Entry) (g : List Bytes) (path : Str) (b : Bytes)
      → Packed gs es
      → c.encode_all (joined (map stored_line g)) ≡ some b
      → Packed (gs ++ g ∷ []) (es ++ (path, b) ∷ [])
  Packed-snoc [] [] g path b p h = (h, tt)
  Packed-snoc [] (e ∷ es) g path b p h = absurd p
  Packed-snoc (x ∷ gs) [] g path b p h = absurd p
  Packed-snoc (x ∷ gs) (e ∷ es) g path b (this, p) h = (this, Packed-snoc gs es g path b p h)

  -- where the loop stands after the lines of `done`: some are in shards, the rest in the buffer
  pub record Cutting (base : List Entry) (done : List Bytes) (w : BundleWriter) (s : Shards)
      : Type 0 where
    pub groups : List (List Bytes)
    pub rest : List Bytes
    pub es : List Entry
    pub all : concat groups ++ rest ≡ done
    pub buf : s.shard_buf ≡ joined (map stored_line rest)
    pub packed : Packed groups es
    pub written : z.entries w.zip_writer ≡ base ++ es
    pub named : s.shards ≡ names es
    pub counted : s.count ≡ length done % 2 ^ 64

  -- the same loop, under the outcome that a step returned
  pub Cutting-outcome :
      (base : List Entry) (done : List Bytes) (w v : BundleWriter) (s t : Shards)
      → ◌≡◌ {A = Result BundleError Shards × BundleWriter} (ok s, w) (ok t, v)
      → Cutting base done w s
      → Cutting base done v t
  Cutting-outcome base done w v s t h k =
      subst (λ x. Cutting base done v x) (ok_injective (ap (λ o. o.0) h))
        (subst (λ x. Cutting base done x s) (ap (λ o. o.1) h) k)

  pub Cutting-take_line :
      (base : List Entry) (done : List Bytes) (w : BundleWriter) (s : Shards) (body : Bytes)
      → Cutting base done w s
      → Cutting base (done ++ body ∷ []) w (take_line (stored_line body) s)
  unfolding take_line
  Cutting-take_line base done w s body k = record {
    groups = k.groups;
    rest = k.rest ++ body ∷ [];
    es = k.es;
    all = sym (append_assoc (concat k.groups) k.rest (body ∷ [])) ∙ ap (λ l. l ++ body ∷ []) k.all;
    buf =
        ap (λ b. b ++ stored_line body) k.buf
        ∙ sym (joined-snoc (map stored_line k.rest) (stored_line body))
        ∙ ap joined (sym (map-append stored_line k.rest (body ∷ [])));
    packed = k.packed;
    written = k.written;
    named = k.named;
    counted = omega (arith, k.counted, length-append done (body ∷ []));
  }
