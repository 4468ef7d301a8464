-- ===== src/Bundle/Reader/Binding.antt =====
-- What an accepted check of the content hashes says: each listed entry is there, with the bytes
-- that the manifest promises.
use sealr_verify.Common.{
  ℕ, zero, suc, ◌≡◌, sym, ◌∙◌, ◌⊎◌, inl, inr, Bool-cases, some, List, [], ◌∷◌, get_elem?, length,
  ◌==◌, ==_iff,
}
use sealr_verify.Common.Text.{Bytes, Str, str_eq, str_eq→eq}
use sealr_verify.Common.Result.{ok, >>=-eq-ok}
use sealr_verify.Deps.{Digests}
use sealr_verify.Deps.Archives.{Zips}
use sealr_verify.Hash.{blake3_hex}
use sealr_verify.Hash.RoundTrip.{hex_encode_injective}
use sealr_verify.Hash.Collision.{Clash, blake3_injective}
use sealr_verify.Bundle.Manifest.{ContentEntry}
use sealr_verify.Bundle.Reader.{
  BundleReader, read_entry, check_entry, check_entries, verify_content_hashes, entry_bytes,
}

module _ ⦃d : Digests⦄ where
  -- Bytes with one hash in hex are the same, or clash.
  pub blake3_hex_injective : (a b : Bytes) → blake3_hex a ≡ blake3_hex b → (a ≡ b) ⊎ Clash a b
  unfolding blake3_hex
  blake3_hex_injective a b h =
      blake3_injective a b
        (hex_encode_injective (d.blake3 a) (d.blake3 b) (d.blake3-IsByte a) (d.blake3-IsByte b) h)

module _ ⦃z : Zips⦄ ⦃d : Digests⦄ where
  -- the bytes of an entry are those that the manifest promises
  pub record Promised (a : z.ZipArchive) (e : ContentEntry) : Type 0 where
    pub stored : Bytes
    pub is_read : read_entry a e.path ≡ ok stored
    pub hashed : blake3_hex stored ≡ e.blake3
    pub sized : length stored ≡ e.bytes

  check_entry_sound : (a : z.ZipArchive) (e : ContentEntry) → check_entry a e ≡ ok tt → Promised a e
  unfolding check_entry
  check_entry_sound a e h =
      let (bytes, is_read, h2) = >>=-eq-ok (read_entry a e.path) _ h in
      elim (Bool-cases (str_eq (blake3_hex bytes) e.blake3)) [
        | inr bad ↦ absurd (cc (rw bad at h2))
        | inl hashed ↦ elim (Bool-cases (length bytes == e.bytes)) [
          | inr bad ↦ absurd (cc (rw (hashed, bad) at h2))
          | inl sized ↦ record {
            stored = bytes;
            is_read = is_read;
            hashed = str_eq→eq _ _ hashed;
            sized = (==_iff _ _).0 sized;
          }
        ]
      ]

  check_entries_sound :
      (a : z.ZipArchive) (es : List ContentEntry) (i : ℕ) (e : ContentEntry)
      → check_entries a es ≡ ok tt
      → get_elem? es i ≡ some e
      → Promised a e
  unfolding check_entries
  check_entries_sound a [] i e h at = absurd (cc)
  check_entries_sound a (x ∷ es) zero e h at =
      let (done, first, h2) = >>=-eq-ok (check_entry a x) _ h in
      let same : x ≡ e = cc in rw (← same) (check_entry_sound a x first)
  check_entries_sound a (x ∷ es) (suc i) e h at =
      let (done, first, h2) = >>=-eq-ok (check_entry a x) _ h in check_entries_sound a es i e h2 at

  pub verify_content_hashes_sound :
      (r : BundleReader) (i : ℕ) (e : ContentEntry) {unlisted : List Str}
      → verify_content_hashes r ≡ ok unlisted
      → get_elem? r.manifest.contents i ≡ some e
      → Promised r.archive e
  unfolding verify_content_hashes
  verify_content_hashes_sound r i e h at =
      let (done, checked, rest) = >>=-eq-ok (check_entries r.archive r.manifest.contents) _ h in
      check_entries_sound r.archive r.manifest.contents i e checked at

  -- Two bundles with one manifest whose content hashes are accepted store the same bytes under
  -- each listed path, unless these are different bytes with one digest of BLAKE3.
  pub contents_binding :
      (r q : BundleReader) (i : ℕ) (e : ContentEntry) (unlisted others : List Str)
      → r.manifest ≡ q.manifest
      → verify_content_hashes r ≡ ok unlisted
      → verify_content_hashes q ≡ ok others
      → get_elem? r.manifest.contents i ≡ some e
      → (a : Bytes) × (b : Bytes) × (entry_bytes r e.path ≡ ok a)
        × (entry_bytes q e.path ≡ ok b)
        × ((a ≡ b) ⊎ Clash a b)
  unfolding entry_bytes
  contents_binding r q i e unlisted others same hr hq at =
      let x = verify_content_hashes_sound r i e hr at in
      let y = verify_content_hashes_sound q i e hq (rw same at at) in
      (
        x.stored,
        y.stored,
        x.is_read,
        y.is_read,
        blake3_hex_injective x.stored y.stored (x.hashed ∙ sym y.hashed),
      )
