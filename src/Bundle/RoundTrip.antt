-- ===== src/Bundle/RoundTrip.antt =====
-- The writer and the reader of a bundle together: what is finished is opened and passes its own
-- content hashes.
use sealr_verify.Common.{
  Bool-cases, ℕ, suc, ◌+◌, ◌≡◌, ◌≢◌, refl, sym, ap, ◌∙◌, ◌⊎◌, inl, inr, Bool, true, false, not,
  ◌&&◌, Option, some, List, [], ◌∷◌, ◌++◌, map, map-append, length, get_elem?, All, All-append,
  ==_refl, arith, All-map, All-of_get_elem?, get_elem?-append, get_elem?-last, subst,
}
use sealr_verify.Common.Text.{Bytes, Str, codes, str_eq, str_eq_refl}
use sealr_verify.Common.Result.{ok}
use sealr_verify.Deps.{Digests, Serde}
use sealr_verify.Deps.Archives.{Zstd, Zips, Entry, names, Distinct}
use sealr_verify.Jcs.{to_jcs_bytes}
use sealr_verify.Bundle.Manifest.{ContentEntry, ExportLevel, ToolInfo, Manifest, manifest_value}
use sealr_verify.Bundle.Writer.{BundleWriter, Pretty, new, with_shard_threshold, content_of}
use sealr_verify.Bundle.Writer.Paths.{ContentPath, ContentPath-ne-manifest}
use sealr_verify.Bundle.Writer.Listed.{IsListed, IsListed-stable, Reach-IsListed}
use sealr_verify.Bundle.Writer.Finish.{IsFinished, finish_ok}
use sealr_verify.Bundle.Writer.Documents.{finish, manifest_of}
use sealr_verify.Bundle.Writer.Methods.{Reach}
use sealr_verify.Bundle.Reader.{
  BundleReader, Parsers, is_listed, is_unlisted, read_entry, open_bundle, unlisted_from,
  manifest_hash, check_entry, check_entries, verify_content_hashes,
}

and-false : (t : Bool) → (t && false) ≡ false
and-false true = refl
and-false false = refl

is_unlisted-listed :
    (name : Str) (contents : List ContentEntry)
    → is_listed name contents ≡ true
    → is_unlisted name contents ≡ false
unfolding is_unlisted
is_unlisted-listed name contents h = rw h (and-false (not (str_eq name (codes "manifest.json"))))

is_unlisted-manifest :
    (contents : List ContentEntry) → is_unlisted (codes "manifest.json") contents ≡ false
unfolding is_unlisted
is_unlisted-manifest contents = rw (str_eq_refl (codes "manifest.json"))

-- a listed name stays listed after an entry of any name
is_listed-cons :
    (name : Str) (c : ContentEntry) (cs : List ContentEntry)
    → is_listed name cs ≡ true
    → is_listed name (c ∷ cs) ≡ true
is_listed-cons name c cs h = elim (Bool-cases (str_eq c.path name)) [
  | inl e ↦ rw e
  | inr e ↦ rw e h
]

module _ ⦃z : Zips⦄ where
  -- an archive from which these entries are read, by number and by name
  abbrev pub Reads : z.ZipArchive → List Entry → Type 0
  Reads a l =
      (i : ℕ) (e : Entry)
      → get_elem? l i ≡ some e
      → (z.by_index a i ≡ ok e.0)
        × ((f : z.File) × (z.by_name a e.0 ≡ ok f) × (z.read_to_end f ≡ some e.1))

  read_entry_ok :
      (a : z.ZipArchive) (l : List Entry) (i : ℕ) (e : Entry)
      → Reads a l
      → get_elem? l i ≡ some e
      → read_entry a e.0 ≡ ok e.1
  unfolding read_entry
  read_entry_ok a l i e reads at =
      let (n, there) = reads i e at in let (f, named, bytes) = there in rw (named, bytes)

  -- the entries of the archive from a number on are all listed, or the manifest
  unlisted_from_ok :
      (r : BundleReader) (l : List Entry) (i : ℕ)
      → ((j : ℕ) (e : Entry) → get_elem? l j ≡ some e → z.by_index r.archive (i + j) ≡ ok e.0)
      → All
          (λ (e : Entry).
            (is_listed e.0 r.manifest.contents ≡ true) ⊎ (e.0 ≡ codes "manifest.json"))
          l
      → unlisted_from r (length l) i ≡ ok []
  unfolding unlisted_from
  unlisted_from_ok r [] i reads known = refl
  unlisted_from_ok r (e ∷ l) i reads (this, known) =
      let named : z.by_index r.archive i ≡ ok e.0 =
        ap (z.by_index r.archive) (omega arith) ∙ reads 0 e refl in
      let rest : unlisted_from r (length l) (i + 1) ≡ ok [] =
        unlisted_from_ok r l (i + 1)
          (λ j x at. ap (z.by_index r.archive) (omega arith) ∙ reads (suc j) x at) known in
      elim this [
        | inl listed ↦ rw (named, rest, is_unlisted-listed e.0 r.manifest.contents listed)
        | inr same ↦ rw (named, rest, same, is_unlisted-manifest r.manifest.contents)
      ]

module _ ⦃z : Zips⦄ ⦃d : Digests⦄ where
  check_entries_ok :
      (a : z.ZipArchive) (l : List Entry)
      → All (λ (e : Entry). read_entry a e.0 ≡ ok e.1) l
      → check_entries a (map (λ (e : Entry). content_of e.0 e.1) l) ≡ ok tt
  unfolding check_entries check_entry
  check_entries_ok a [] h = refl
  check_entries_ok a (e ∷ l) (this, h) =
      rw (this, str_eq_refl, ==_refl (length e.1), check_entries_ok a l h)

  -- every entry is listed by the contents that are made of the entries
  entries-listed :
      (l : List Entry)
      → All (λ (e : Entry). is_listed e.0 (map (λ (e : Entry). content_of e.0 e.1) l) ≡ true) l
  entries-listed [] = tt
  entries-listed (e ∷ l) = (
    rw (str_eq_refl e.0),
    All-map l (λ x h. is_listed-cons x.0 (content_of e.0 e.1) _ h) (entries-listed l),
  )

  paths-entries :
      (l : List Entry)
      → map (λ (c : ContentEntry). c.path) (map (λ (e : Entry). content_of e.0 e.1) l) ≡ names l
  paths-entries [] = refl
  paths-entries (e ∷ l) = ap (λ l. e.0 ∷ l) (paths-entries l)

Distinct-snoc : (l : List Str) (y : Str) → Distinct l → All (λ x. x ≢ y) l → Distinct (l ++ y ∷ [])
Distinct-snoc [] y h n = (tt, tt)
Distinct-snoc (x ∷ l) y (this, h) (n, ns) =
    (All-append (λ y. x ≢ y) l (y ∷ []) this (n, tt), Distinct-snoc l y h ns)

names-ne-manifest :
    (l : List Entry)
    → All (λ (e : Entry). ContentPath e.0) l
    → All (λ x. x ≢ codes "manifest.json") (names l)
names-ne-manifest [] h = tt
names-ne-manifest (e ∷ l) (this, h) = (ContentPath-ne-manifest this, names-ne-manifest l h)

module _ ⦃z : Zips⦄ ⦃d : Digests⦄ ⦃p : Parsers⦄ where
  -- what the reader makes of a finished bundle
  pub record IsAccepted (target : z.Target) (m : Manifest) (hash : Str) : Type 0 where
    pub reader : BundleReader
    pub opened : open_bundle target ≡ ok reader
    pub read : reader.manifest ≡ m
    pub named : manifest_hash reader ≡ ok hash
    pub verified : verify_content_hashes reader ≡ ok []

  -- an archive of listed entries, with the manifest after them
  module _ (a : z.ZipArchive) (l : List Entry) (m : Manifest) (bytes : Bytes)
      (reads : Reads a (l ++ (codes "manifest.json", bytes) ∷ []))
      (is_map : m.contents ≡ map (λ (e : Entry). content_of e.0 e.1) l) where
    checked : check_entries a m.contents ≡ ok tt
    checked = rw is_map (
        check_entries_ok a l (
          All-of_get_elem? (λ (e : Entry). read_entry a e.0 ≡ ok e.1) l
            (λ i e at. read_entry_ok a _ i e reads (get_elem?-append l _ i at))))

    manifest_read : read_entry a (codes "manifest.json") ≡ ok bytes
    manifest_read =
        read_entry_ok a _ (length l) (codes "manifest.json", bytes) reads (get_elem?-last l _)

    none_unlisted :
        z.len a ≡ length (l ++ (codes "manifest.json", bytes) ∷ [])
        → unlisted_from (record { archive = a; manifest = m }) (z.len a) 0 ≡ ok []
    none_unlisted sized =
        let r : BundleReader = record { archive = a; manifest = m } in
        let P : Entry → Type 0 =
          λ e. (is_listed e.0 m.contents ≡ true) ⊎ (e.0 ≡ codes "manifest.json") in
        let listed : All P l =
          All-map l (λ e h. inl (ap (is_listed e.0) is_map ∙ h)) (entries-listed l) in
        ap (λ n. unlisted_from r n 0) sized
        ∙ unlisted_from_ok r (l ++ (codes "manifest.json", bytes) ∷ []) 0
            (λ j e at. ap (z.by_index a) (omega arith) ∙ (reads j e at).0)
            (All-append P l _ listed (inr refl, tt))

  pub accepted :
      (w : BundleWriter) (m : Manifest) (hash : Str) (target : z.Target)
      → IsListed w
      → w.contents ≡ m.contents
      → Distinct (map (λ (c : ContentEntry). c.path) m.contents)
      → ((b : Bytes) → to_jcs_bytes (manifest_value m) ≡ ok b → p.manifest_from_slice b ≡ some m)
      → IsFinished w m hash target
      → (r : IsAccepted target m hash) × Reads r.reader.archive (z.entries w.zip_writer)
  unfolding open_bundle manifest_hash verify_content_hashes
  accepted w m hash target l contents distinct parses fin =
      let entries : List Entry = z.entries w.zip_writer in
      let last : Entry = (codes "manifest.json", fin.manifest_bytes) in
      let is_map : m.contents ≡ map (λ (e : Entry). content_of e.0 e.1) entries =
        sym contents ∙ l.listed in
      let unique : Distinct (names entries) =
        subst Distinct (ap (map (λ (c : ContentEntry). c.path)) is_map ∙ paths-entries entries)
          distinct in
      let all : Distinct (names (entries ++ last ∷ [])) =
        subst Distinct (sym (map-append (λ (e : Entry). e.0) entries (last ∷ []))) (
          Distinct-snoc (names entries) (codes "manifest.json") unique
            (names-ne-manifest entries l.paths)) in
      let (a, opens, sized, reads, absent) =
        z.new_archive-finish fin.writer target fin.finishes
          (subst (λ x. Distinct (names x)) (sym fin.holds) all) in
      let reads' : Reads a (entries ++ last ∷ []) = subst (Reads a) fin.holds reads in
      (
        record {
          reader = record { archive = a; manifest = m };
          opened = rw (
            opens,
            manifest_read a entries m fin.manifest_bytes reads' is_map,
            parses fin.manifest_bytes fin.printed,
          );
          read = refl;
          named = rw fin.hashed;
          verified = rw (checked a entries m fin.manifest_bytes reads' is_map) (
              none_unlisted a entries m fin.manifest_bytes reads' is_map
                (sized ∙ ap length fin.holds));
        },
        λ i e at. reads' i e (get_elem?-append entries (last ∷ []) i at),
      )

  -- A bundle that `finish` returns, after any calls that succeed, is opened again, when the paths
  -- of its entries differ and `serde_json` reads its manifest as it was printed: the reader has
  -- that manifest, computes the hash that `finish` gave, accepts every entry and finds none that
  -- is not listed.
  pub finish_round_trip :
      ⦃c : Zstd⦄ ⦃s : Serde⦄ ⦃pr : Pretty⦄ (source : z.Target) (id at : Str) (tool : ToolInfo)
      (threshold : ℕ) (w v : BundleWriter) (level : ExportLevel) (from to : Option Str)
      (resources : List Str) (m : Manifest) (hash : Str) (target : z.Target)
      → Reach (with_shard_threshold (new source id at tool) threshold) w
      → finish level from to resources w ≡ (ok (m, hash, target), v)
      → Distinct (map (λ (c : ContentEntry). c.path) m.contents)
      → ((b : Bytes) → to_jcs_bytes (manifest_value m) ≡ ok b → p.manifest_from_slice b ≡ some m)
      → IsAccepted target m hash
  unfolding manifest_of
  finish_round_trip source id at tool threshold w v level from to resources m hash target r done
        distinct parses =
      let (u, listed, same, fin) =
        finish_ok IsListed-stable level from to resources w v m hash target
          (Reach-IsListed source id at tool threshold w r) done in
      (accepted u m hash target listed (ap (λ m. m.contents) same) distinct parses fin).0
