-- ===== src/Bundle/Shards.antt =====
-- The records of a stream through a bundle: what the writer cuts into shards the reader delivers
-- again, line by line.
pub mod Loop
pub mod Cut
pub mod RoundTrip
use sealr_verify.Common.{
  ℕ, ◌+◌, ◌%◌, ◌^◌, ◌≡◌, refl, sym, ap, ◌∙◌, Option, some, List, [], ◌∷◌, ◌++◌, map, All, get_elem?,
  length,
}
use sealr_verify.Common.Text.{Bytes, Str}
use sealr_verify.Common.Result.{Result, ok, err, BundleError}
use sealr_verify.Common.Run.{Run, ◌>>=◌, after, after-cong}
use sealr_verify.Deps.Archives.{Zips, Zstd, Entry, names}
use sealr_verify.Bundle.Reader.{BundleReader}
use sealr_verify.Bundle.Reader.Streams.{raw_lines, read_lines, read_shards}
use sealr_verify.Bundle.Reader.Lines.{
  IsBody, stored_line, joined, raw_lines-joined, each, read_lines-each, each-append,
}

abbrev pub concat : List (List Bytes) → List Bytes
concat [] = []
concat (g ∷ gs) = g ++ concat gs

module _ ⦃z : Zips⦄ ⦃c : Zstd⦄ where
  -- entries that hold groups of lines, compressed
  abbrev pub Packed : List (List Bytes) → List Entry → Type 0
  Packed [] [] = Unit
  Packed [] (e ∷ es) = ⊥
  Packed (g ∷ gs) [] = ⊥
  Packed (g ∷ gs) (e ∷ es) = (c.encode_all (joined (map stored_line g)) ≡ some e.1) × Packed gs es

  -- an archive from which these entries are read by name
  abbrev pub Holds : z.ZipArchive → List Entry → Type 0
  Holds a =
      All (λ (e : Entry). (f : z.File) × (z.by_name a e.0 ≡ ok f) × (z.read_to_end f ≡ some e.1))

  pub read_shards-each :
      {S : Type 0} (f : Bytes → Run BundleError S (Unit {0})) (a : z.ZipArchive)
      (groups : List (List Bytes)) (es : List Entry) (count : ℕ) (s : S)
      → Packed groups es
      → Holds a es
      → All (All IsBody) groups
      → read_shards f a (names es) count s ≡ each f (concat groups) count s
  unfolding read_shards
  read_shards-each f a [] [] count s p h b = refl
  read_shards-each f a [] (e ∷ es) count s p h b = absurd p
  read_shards-each f a (g ∷ gs) [] count s p h b = absurd p
  read_shards-each f a (g ∷ gs) (e ∷ es) count s (packed, p) (this, h) (bodies, b) =
      let (file, named, stored) = this in
      let plain = c.decoder-encode_all file (joined (map stored_line g)) e.1 packed stored in
      rw (named, plain, raw_lines-joined g bodies, read_lines-each f g count s bodies)
        (after-cong (read_shards f a (names es)) (each f (concat gs)) (each f g count s)
            (λ more u. read_shards-each f a gs es more u p h b)
          ∙ sym (each-append f g (concat gs) count s))
