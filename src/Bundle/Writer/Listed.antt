-- ===== src/Bundle/Writer/Listed.antt =====
-- The contents that the bundle writer keeps are the entries of its container.
use sealr_verify.Common.{
  sym, ◌≡◌, refl, ap, ◌∙◌, Option, none, some, List, [], ◌∷◌, ◌++◌, map, map-append, All,
  All-append,
}
use sealr_verify.Common.Text.{Bytes, Str}
use sealr_verify.Common.Result.{Result, ok, err, BundleError}
use sealr_verify.Common.Run.{Keeps, >>=-succeeds}
use sealr_verify.Deps.{Digests, Serde}
use sealr_verify.Deps.Archives.{ZipError, Zips, Zstd, Entry}
use sealr_verify.Bundle.Manifest.{ToolInfo}
use sealr_verify.Bundle.Writer.{
  ℕ, or_io, or_io, or_io, BundleWriter, Pretty, new, with_shard_threshold, start_file, write_all,
  write_entry, content_of, or_zip, or_io,
}
use sealr_verify.Bundle.Writer.Keeps.{Stable}
use sealr_verify.Bundle.Writer.Paths.{ContentPath}
use sealr_verify.Bundle.Writer.Reach.{Reach-keeps}
use sealr_verify.Bundle.Writer.Methods.{Reach}

module _ ⦃z : Zips⦄ where
  -- a step of the container changes no other field of the writer
  pub start_file_ok :
      (path : Str) (w v : BundleWriter) {u : Unit {0}}
      → start_file path w ≡ (ok u, v)
      → (v ≡ record w { zip_writer = v.zip_writer })
        × (z.entries v.zip_writer ≡ z.entries w.zip_writer ++ (path, []) ∷ [])
  unfolding start_file
  start_file_ok path w v h = split (z.start_file path w.zip_writer) refl h
    where
      split :
          (out : Result ZipError (Unit {0}) × z.ZipWriter)
          → z.start_file path w.zip_writer ≡ out
          → ◌≡◌ {A = Result BundleError (Unit {0}) × BundleWriter}
              (or_zip out.0, record w { zip_writer = out.1 })
              (ok tt, v)
          → (v ≡ record w { zip_writer = v.zip_writer })
            × (z.entries v.zip_writer ≡ z.entries w.zip_writer ++ (path, []) ∷ [])
      split (ok u, zw) e h =
          let same : zw ≡ v.zip_writer = ap (λ o. o.1.zip_writer) h in
          let all : record w { zip_writer = zw } ≡ v = ap (λ o. o.1) h in
          (
            sym all ∙ ap (λ x. record w { zip_writer = x }) same,
            rw (← same) (z.entries-start_file path w.zip_writer zw e),
          )
      split (err x, zw) e h = absurd (cc)

  pub write_all_ok :
      (bytes : Bytes) (w v : BundleWriter) {u : Unit {0}} (before : List Entry) (path : Str)
      → write_all bytes w ≡ (ok u, v)
      → z.entries w.zip_writer ≡ before ++ (path, []) ∷ []
      → (v ≡ record w { zip_writer = v.zip_writer })
        × (z.entries v.zip_writer ≡ before ++ (path, bytes) ∷ [])
  unfolding write_all
  write_all_ok bytes w v before path h at = split (z.write_all bytes w.zip_writer) refl h
    where
      split :
          (out : Option (Unit {0}) × z.ZipWriter)
          → z.write_all bytes w.zip_writer ≡ out
          → ◌≡◌ {A = Result BundleError (Unit {0}) × BundleWriter}
              (or_io out.0, record w { zip_writer = out.1 })
              (ok tt, v)
          → (v ≡ record w { zip_writer = v.zip_writer })
            × (z.entries v.zip_writer ≡ before ++ (path, bytes) ∷ [])
      split (some u, zw) e h =
          let same : zw ≡ v.zip_writer = ap (λ o. o.1.zip_writer) h in
          let all : record w { zip_writer = zw } ≡ v = ap (λ o. o.1) h in
          (
            sym all ∙ ap (λ x. record w { zip_writer = x }) same,
            rw (← same) (z.entries-write_all bytes w.zip_writer zw before path [] e at),
          )
      split (none, zw) e h = absurd (cc)

module _ ⦃z : Zips⦄ ⦃d : Digests⦄ where
  -- what `write_entry` leaves, when it succeeds
  pub write_entry_ok :
      (path : Str) (bytes : Bytes) (w v : BundleWriter) {u : Unit {0}}
      → write_entry path bytes w ≡ (ok u, v)
      → (v ≡ record w {
        zip_writer = v.zip_writer;
        contents = w.contents ++ content_of path bytes ∷ [];
      })
        × (z.entries v.zip_writer ≡ z.entries w.zip_writer ++ (path, bytes) ∷ [])
  unfolding write_entry
  write_entry_ok path bytes w v h =
      let (a, w1, h1, r1) = >>=-succeeds (start_file path) _ w v h in
      let (b, w2, h2, r2) = >>=-succeeds (write_all bytes) _ w1 v r1 in
      let (e1, m1) = start_file_ok path w w1 h1 in
      let (e2, m2) = write_all_ok bytes w1 w2 (z.entries w.zip_writer) path h2 m1 in
      let list : BundleWriter → BundleWriter =
        λ x. record x { contents = x.contents ++ content_of path bytes ∷ [] } in
      let end : list w2 ≡ v = ap (λ o. o.1) r2 in
      let zips : w2.zip_writer ≡ v.zip_writer = ap (λ x. x.zip_writer) end in
      let only : w2 ≡ record w { zip_writer = w2.zip_writer } =
        e2 ∙ ap {A = BundleWriter} (λ x. record x { zip_writer = w2.zip_writer }) e1 in
      (sym end ∙ ap list only ∙ ap (λ x. record (list w) { zip_writer = x }) zips, rw (← zips) m2)

  -- the contents are the entries of the container, and these have the paths of a bundle
  pub record IsListed (w : BundleWriter) : Type 0 where
    pub listed : w.contents ≡ map (λ (e : Entry). content_of e.0 e.1) (z.entries w.zip_writer)
    pub paths : All (λ (e : Entry). ContentPath e.0) (z.entries w.zip_writer)

  pub IsListed-write_entry :
      (path : Str) (bytes : Bytes) → ContentPath path → Keeps IsListed (write_entry path bytes)
  IsListed-write_entry path bytes is w v u l h =
      let (e, m) = write_entry_ok path bytes w v h in
      let grown : w.contents ++ content_of path bytes ∷ [] ≡ v.contents =
        ap (λ x. x.contents) (sym e) in
      record {
        listed = rw (← grown, m, l.listed) (sym (map-append _ (z.entries w.zip_writer) _));
        paths = rw m (All-append _ (z.entries w.zip_writer) _ l.paths (is, tt));
      }

  pub IsListed-stable : ⦃c : Zstd⦄ → Stable IsListed
  IsListed-stable = record {
    on_entry = IsListed-write_entry;
    on_phase = λ w next l. record { listed = l.listed; paths = l.paths };
    on_index = λ w x l. record { listed = l.listed; paths = l.paths };
  }

  IsListed-new :
      (t : z.Target) (id at : Str) (tool : ToolInfo) (threshold : ℕ)
      → IsListed (with_shard_threshold (new t id at tool) threshold)
  unfolding new with_shard_threshold
  IsListed-new t id at tool threshold = record {
    listed = rw (z.entries-new_writer t);
    paths = rw (z.entries-new_writer t) tt;
  }

module _ ⦃z : Zips⦄ ⦃c : Zstd⦄ ⦃d : Digests⦄ ⦃s : Serde⦄ ⦃p : Pretty⦄ where
  -- After any calls that succeed, on a new writer with any shard threshold, the contents are the
  -- entries of the container, in order, each with its path, the BLAKE3 hash of its bytes and their
  -- number, and every entry has one of the paths that a bundle has for its content.
  pub Reach-IsListed :
      (t : z.Target) (id at : Str) (tool : ToolInfo) (threshold : ℕ) (w : BundleWriter)
      → Reach (with_shard_threshold (new t id at tool) threshold) w
      → IsListed w
  Reach-IsListed t id at tool threshold w r =
      Reach-keeps IsListed-stable r (IsListed-new t id at tool threshold)
