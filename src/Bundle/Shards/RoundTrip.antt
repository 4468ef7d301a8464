-- ===== src/Bundle/Shards/RoundTrip.antt =====
-- The records of a stream, from the call that adds them to the reader of the finished bundle.
use sealr_verify.Common.{
  ℕ, ◌+◌, length, get_elem?-skip, ◌≡◌, sym, ap, ◌∙◌, subst, Option, some, List, [], ◌∷◌, ◌++◌, map,
  All, All-of_get_elem?, get_elem?-append, append_assoc, append-nil,
}
use sealr_verify.Common.Text.{Bytes, Str}
use sealr_verify.Common.Result.{ok, BundleError}
use sealr_verify.Common.Run.{Run, >>=-succeeds}
use sealr_verify.Deps.{Digests, Serde}
use sealr_verify.Deps.Archives.{Zips, Zstd, Entry, Distinct}
use sealr_verify.Jcs.{to_jcs_bytes}
use sealr_verify.Bundle.Manifest.{ContentEntry, ExportLevel, ToolInfo, Manifest, manifest_value}
use sealr_verify.Bundle.Types.{RecordIndexStream}
use sealr_verify.Bundle.Writer.{
  BundleWriter, Pretty, new, with_shard_threshold, require_phase, records,
}
use sealr_verify.Bundle.Writer.Documents.{finish, manifest_of}
use sealr_verify.Bundle.Writer.Finish.{finish_ok}
use sealr_verify.Bundle.Writer.Keeps.{Stable, shards_of, Keeps-add_stream_records}
use sealr_verify.Bundle.Writer.Listed.{IsListed-stable, Reach-IsListed, write_entry_ok}
use sealr_verify.Bundle.Writer.Methods.{Reach}
use sealr_verify.Bundle.Writer.Reach.{Reach-keeps}
use sealr_verify.Bundle.Writer.Records.{add_stream_records}
use sealr_verify.Bundle.Reader.{Parsers}
use sealr_verify.Bundle.Reader.Lines.{IsBody, stored_line, each}
use sealr_verify.Bundle.Reader.Streams.{read_shards}
use sealr_verify.Bundle.RoundTrip.{IsAccepted, Reads, accepted}
use sealr_verify.Bundle.Shards.{concat, Holds, read_shards-each}
use sealr_verify.Bundle.Shards.Cut.{IsCut, write_stream_records_ok}

module _ ⦃z : Zips⦄ ⦃c : Zstd⦄ ⦃d : Digests⦄ where
  -- the container begins with these entries
  abbrev Grown : List Entry → BundleWriter → Type 0
  Grown base w = (later : List Entry) × (z.entries w.zip_writer ≡ base ++ later)

  Grown-stable : (base : List Entry) → Stable (Grown base)
  Grown-stable base = record {
    on_entry = λ path bytes is w v u g h. (
      g.0 ++ (path, bytes) ∷ [],
      (write_entry_ok path bytes w v h).1
          ∙ ap (λ l. l ++ (path, bytes) ∷ []) g.1
          ∙ append_assoc base g.0 ((path, bytes) ∷ []),
    );
    on_phase = λ w next g. g;
    on_index = λ w x g. g;
  }

  both-stable : {P Q : BundleWriter → Type 0} → Stable P → Stable Q → Stable (λ w. P w × Q w)
  both-stable p q = record {
    on_entry = λ path bytes is w v u h e.
        (p.on_entry path bytes is w v u h.0 e, q.on_entry path bytes is w v u h.1 e);
    on_phase = λ w next h. (p.on_phase w next h.0, q.on_phase w next h.1);
    on_index = λ w x h. (p.on_index w x h.0, q.on_index w x h.1);
  }

  add_stream_records_ok :
      ⦃q : Serde⦄ (id : Str) (bodies : List Bytes) (w v : BundleWriter) (entry : RecordIndexStream)
      → add_stream_records id (map (λ b. ok (stored_line b)) bodies) w ≡ (ok entry, v)
      → (base : List Entry) × IsCut base bodies v entry
  unfolding add_stream_records
  add_stream_records_ok id bodies w v entry h =
      let (u, w1, e1, h1) = >>=-succeeds (require_phase records records) _ w v h in
      (z.entries w1.zip_writer, write_stream_records_ok id bodies w1 v entry h1)

-- the groups of a list of bodies have bodies only
groups-IsBody : (gs : List (List Bytes)) → All IsBody (concat gs) → All (All IsBody) gs
groups-IsBody [] h = tt
groups-IsBody ([] ∷ gs) h = (tt, groups-IsBody gs h)
groups-IsBody ((b ∷ g) ∷ gs) (this, h) =
    let (first, rest) = groups-IsBody (g ∷ gs) h in ((this, first), rest)

module _ ⦃z : Zips⦄ ⦃c : Zstd⦄ where
  Reads-Holds :
      (a : z.ZipArchive) (base es later l : List Entry)
      → l ≡ (base ++ es) ++ later
      → Reads a l
      → Holds a es
  Reads-Holds a base es later l is reads =
      All-of_get_elem?
        (λ (e : Entry). (f : z.File) × (z.by_name a e.0 ≡ ok f) × (z.read_to_end f ≡ some e.1)) es
        (λ i e at.
          (subst (Reads a) is reads (length base + i) e (
            get_elem?-append (base ++ es) later (length base + i)
              (get_elem?-skip base es i ∙ at))).1)

module _ ⦃z : Zips⦄ ⦃c : Zstd⦄ ⦃d : Digests⦄ ⦃q : Serde⦄ ⦃pr : Pretty⦄ ⦃p : Parsers⦄ where
  -- Lines that are added to a new bundle for a stream, with any successful calls before and after
  -- and `finish` at the end, are read back from the opened bundle: the shards that the index entry
  -- names give the lines to the callback one by one, in order and without their newlines, however
  -- they were cut, and count them. The paths of the entries differ, `serde_json` reads the
  -- manifest as it was printed, and no line is empty or has a newline inside.
  pub stream_round_trip :
      {S : Type 0} (f : Bytes → Run BundleError S (Unit {0})) (state : S) (source : z.Target)
      (id at stream_id : Str) (tool : ToolInfo) (threshold : ℕ) (bodies : List Bytes)
      (w v u last : BundleWriter) (entry : RecordIndexStream) (level : ExportLevel)
      (from to : Option Str) (resources : List Str) (m : Manifest) (hash : Str) (target : z.Target)
      → All IsBody bodies
      → Reach (with_shard_threshold (new source id at tool) threshold) w
      → add_stream_records stream_id (map (λ b. ok (stored_line b)) bodies) w ≡ (ok entry, v)
      → Reach v u
      → finish level from to resources u ≡ (ok (m, hash, target), last)
      → Distinct (map (λ (c : ContentEntry). c.path) m.contents)
      → ((b : Bytes) → to_jcs_bytes (manifest_value m) ≡ ok b → p.manifest_from_slice b ≡ some m)
      → (r : IsAccepted target m hash) × (read_shards f r.reader.archive entry.shards 0 state
          ≡ each f bodies 0 state)
  unfolding manifest_of
  stream_round_trip f state source id at stream_id tool threshold bodies w v u last entry level from
        to resources m hash target body before added after_it done distinct parses =
      let listed_w = Reach-IsListed source id at tool threshold w before in
      let listed_v =
        Keeps-add_stream_records (shards_of IsListed-stable) stream_id _ w v entry listed_w added in
      let (base, cut) = add_stream_records_ok stream_id bodies w v entry added in
      let st = both-stable IsListed-stable (Grown-stable (base ++ cut.es)) in
      let now = Reach-keeps st after_it (listed_v, ([], cut.written ∙ sym (append-nil _))) in
      let (x, kept, same, fin) =
        finish_ok st level from to resources u last m hash target now done in
      let (r, reads) =
        accepted x m hash target kept.0 (ap (λ m. m.contents) same) distinct parses fin in
      let holds =
        Reads-Holds r.reader.archive base cut.es kept.1.0 (z.entries x.zip_writer) kept.1.1 reads in
      let all : All (All IsBody) cut.groups =
        groups-IsBody cut.groups (subst (All IsBody) (sym cut.all) body) in
      (
        r,
        ap (λ s. read_shards f r.reader.archive s 0 state) cut.named
            ∙ read_shards-each f r.reader.archive cut.groups cut.es 0 state cut.packed holds all
            ∙ ap (λ l. each f l 0 state) cut.all,
      )
