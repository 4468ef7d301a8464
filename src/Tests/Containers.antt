-- ===== src/Tests/Containers.antt =====
-- Stand-ins for the container and its compression: a container is the list of its entries, and
-- compressed bytes carry a mark in front.
use sealr_verify.Common.{
  false, ℕ, zero, suc, ◌≡◌, ◌≢◌, refl, sym, ap, ◌∙◌, Option, some, List, [], ◌∷◌, ◌++◌, length,
  get_elem?, All, Bool-cases, inl, inr, if◌then◌else◌,
}
use sealr_verify.Common.Text.{Bytes, Str, str_eq, str_eq→eq, str_eq_refl}
use sealr_verify.Common.Result.{Result, ok, err}
use sealr_verify.Deps.Archives.{ZipError, file_not_found, other_error, Zips, Entry, names, Distinct}

unfoldable pub toy_start : Str → List Entry → Result ZipError (Unit {0}) × List Entry
toy_start name w = (ok tt, w ++ (name, []) ∷ [])

-- the bytes go to the last entry
unfoldable pub toy_put : Bytes → List Entry → List Entry
toy_put bytes [] = []
toy_put bytes (e ∷ []) = (e.0, e.1 ++ bytes) ∷ []
toy_put bytes (e ∷ x ∷ w) = e ∷ toy_put bytes (x ∷ w)

unfoldable pub toy_write : Bytes → List Entry → Option (Unit {0}) × List Entry
unfolding toy_put
toy_write bytes w = (some tt, toy_put bytes w)

unfoldable pub toy_by_index : List Entry → ℕ → Result ZipError Str
toy_by_index [] i = err other_error
toy_by_index (e ∷ l) zero = ok e.0
toy_by_index (e ∷ l) (suc i) = toy_by_index l i

unfoldable pub toy_by_name : List Entry → Str → Result ZipError Bytes
toy_by_name [] name = err file_not_found
toy_by_name (e ∷ l) name = let rest = toy_by_name l name in if str_eq e.0 name then ok e.1 else rest

pub toy_put_last :
    (bytes : Bytes) (before : List Entry) (name : Str) (written : Bytes)
    → toy_put bytes (before ++ (name, written) ∷ []) ≡ before ++ (name, written ++ bytes) ∷ []
unfolding toy_put
toy_put_last bytes [] name written = refl
toy_put_last bytes (e ∷ []) name written = refl
toy_put_last bytes (e ∷ x ∷ before) name written =
    ap (λ l. e ∷ l) (toy_put_last bytes (x ∷ before) name written)

pub toy_by_index_ok :
    (l : List Entry) (i : ℕ) (e : Entry) → get_elem? l i ≡ some e → toy_by_index l i ≡ ok e.0
unfolding toy_by_index
toy_by_index_ok [] i e h = absurd (cc)
toy_by_index_ok (x ∷ l) zero e h = let same : x ≡ e = cc in rw same
toy_by_index_ok (x ∷ l) (suc i) e h = toy_by_index_ok l i e h

ne-str_eq : (a b : Str) → a ≢ b → str_eq a b ≡ false
ne-str_eq a b n = elim (Bool-cases (str_eq a b)) [
  | inl e ↦ absurd (n (str_eq→eq a b e))
  | inr e ↦ e
]

All-names :
    (l : List Entry) (P : Str → Type 0) (i : ℕ) (e : Entry)
    → All P (names l)
    → get_elem? l i ≡ some e
    → P e.0
All-names [] P i e h at = absurd (cc)
All-names (x ∷ l) P zero e h at = let same : x ≡ e = cc in rw (← same) h.0
All-names (x ∷ l) P (suc i) e h at = All-names l P i e h.1 at

pub toy_by_name_ok :
    (l : List Entry) (i : ℕ) (e : Entry)
    → Distinct (names l)
    → get_elem? l i ≡ some e
    → toy_by_name l e.0 ≡ ok e.1
unfolding toy_by_name
toy_by_name_ok [] i e d h = absurd (cc)
toy_by_name_ok (x ∷ l) zero e d h = let same : x ≡ e = cc in rw (same, str_eq_refl e.0)
toy_by_name_ok (x ∷ l) (suc i) e d h =
    rw (ne-str_eq x.0 e.0 (All-names l (λ y. x.0 ≢ y) i e d.0 h)) (toy_by_name_ok l i e d.1 h)

pub toy_by_name_none :
    (l : List Entry) (name : Str)
    → All (λ x. name ≢ x) (names l)
    → toy_by_name l name ≡ err file_not_found
unfolding toy_by_name
toy_by_name_none [] name h = refl
toy_by_name_none (e ∷ l) name h =
    rw (ne-str_eq e.0 name (λ p. h.0 (sym p))) (toy_by_name_none l name h.1)

-- the container is read back as it was written
pub toy_opens :
    (w t : List Entry)
    → ◌≡◌ {A = Result ZipError (List Entry)} (ok w) (ok t)
    → Distinct (names w)
    → (a : List Entry) × (◌≡◌ {A = Result ZipError (List Entry)} (ok t) (ok a))
      × (length a ≡ length w)
      × ((i : ℕ) (e : Entry)
          → get_elem? w i ≡ some e
          → (toy_by_index a i ≡ ok e.0)
            × ((f : Bytes) × (toy_by_name a e.0 ≡ ok f)
                × (◌≡◌ {A = Option Bytes} (some f) (some e.1))))
      × ((name : Str) → All (λ x. name ≢ x) (names w) → toy_by_name a name ≡ err file_not_found)
toy_opens w t h d =
    let same : w ≡ t = cc in
    (
      w,
      sym h,
      refl,
      λ i e at. (toy_by_index_ok w i e at, (e.1, toy_by_name_ok w i e d at, refl)),
      toy_by_name_none w,
    )

pub toy_started :
    (name : Str) (w v : List Entry) → toy_start name w ≡ (ok tt, v) → v ≡ w ++ (name, []) ∷ []
unfolding toy_start
toy_started name w v h = sym (ap (λ o. o.1) h)

pub toy_written :
    (bytes : Bytes) (w v before : List Entry) (name : Str) (written : Bytes)
    → toy_write bytes w ≡ (some tt, v)
    → w ≡ before ++ (name, written) ∷ []
    → v ≡ before ++ (name, written ++ bytes) ∷ []
unfolding toy_write
toy_written bytes w v before name written h at =
    sym (ap (λ o. o.1) h) ∙ ap (toy_put bytes) at ∙ toy_put_last bytes before name written

instance abbrev pub toy_zips : Zips
toy_zips = record {
  Target = List Entry;
  ZipWriter = List Entry;
  ZipArchive = List Entry;
  File = Bytes;
  new_writer = λ t. [];
  start_file = toy_start;
  write_all = toy_write;
  finish = λ w. ok w;
  new_archive = λ t. ok t;
  len = λ a. length a;
  by_index = toy_by_index;
  by_name = toy_by_name;
  read_to_end = λ f. some f;
  entries = λ w. w;
  entries-new_writer = λ t. refl;
  entries-start_file = toy_started;
  entries-write_all = toy_written;
  new_archive-finish = toy_opens;
}
