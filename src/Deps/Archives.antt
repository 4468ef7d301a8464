-- ===== src/Deps/Archives.antt =====
-- The crates `zip` and `zstd` as interfaces: the container that a bundle is written to and read
-- from, and the compression of its shards.
use sealr_verify.Common.{
  ℕ, Bool, true, Option, some, List, [], ◌∷◌, ◌++◌, ◌≡◌, ◌≢◌, length, get_elem?, All, map,
}
use sealr_verify.Common.Text.{Bytes, Str}
use sealr_verify.Common.Result.{Result, ok, err}

pub data ZipError : Type 0 where
  file_not_found other_error : ZipError

-- an entry of a container by its name and its bytes
abbrev pub Entry : Type 0
Entry = Str × Bytes

abbrev pub names : List Entry → List Str
names = map (λ (e : Entry). e.0)

abbrev pub Distinct : List Str → Type 0
Distinct [] = Unit
Distinct (x ∷ l) = All (λ y. x ≢ y) l × Distinct l

-- A target that is written to is read as a source later on, and a file is one that was found.
pub record Zips : Type 1 where
  pub Target : Type 0
  pub ZipWriter : Type 0
  pub ZipArchive : Type 0
  pub File : Type 0
  pub new_writer : Target → ZipWriter
  pub start_file : Str → ZipWriter → Result ZipError (Unit {0}) × ZipWriter
  pub write_all : Bytes → ZipWriter → Option (Unit {0}) × ZipWriter
  pub finish : ZipWriter → Result ZipError Target
  pub new_archive : Target → Result ZipError ZipArchive
  pub len : ZipArchive → ℕ
  -- the name of the entry with a number
  pub by_index : ZipArchive → ℕ → Result ZipError Str
  pub by_name : ZipArchive → Str → Result ZipError File
  pub read_to_end : File → Option Bytes
  -- what was written, in order
  pub entries : ZipWriter → List Entry
  pub entries-new_writer : (t : Target) → entries (new_writer t) ≡ []
  pub entries-start_file :
      (name : Str) (w v : ZipWriter)
      → start_file name w ≡ (ok tt, v)
      → entries v ≡ entries w ++ (name, []) ∷ []
  pub entries-write_all :
      (bytes : Bytes) (w v : ZipWriter) (before : List Entry) (name : Str) (written : Bytes)
      → write_all bytes w ≡ (some tt, v)
      → entries w ≡ before ++ (name, written) ∷ []
      → entries v ≡ before ++ (name, written ++ bytes) ∷ []
  -- A container with distinct names is read back as it was written.
  pub new_archive-finish :
      (w : ZipWriter) (t : Target)
      → finish w ≡ ok t
      → Distinct (names (entries w))
      → (a : ZipArchive) × (new_archive t ≡ ok a)
        × (len a ≡ length (entries w))
        × ((i : ℕ) (e : Entry)
            → get_elem? (entries w) i ≡ some e
            → (by_index a i ≡ ok e.0)
              × ((f : File) × (by_name a e.0 ≡ ok f) × (read_to_end f ≡ some e.1)))
        × ((name : Str)
            → All (λ x. name ≢ x) (names (entries w))
            → by_name a name ≡ err file_not_found)

-- `encode_all` at the level of the bundle writer; `decoder` is what reading all of a decoder gives:
-- the bytes that come out, and whether they end without an error.
pub record Zstd ⦃z : Zips⦄ : Type 0 where
  pub encode_all : Bytes → Option Bytes
  pub decoder : z.File → Option (Bytes × Bool)
  pub decoder-encode_all :
      (f : z.File) (plain packed : Bytes)
      → encode_all plain ≡ some packed
      → z.read_to_end f ≡ some packed
      → decoder f ≡ some (plain, true)
