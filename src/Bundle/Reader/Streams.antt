-- ===== src/Bundle/Reader/Streams.antt =====
-- `read_stream_records`: the lines of a stream, in order across its shards.
use sealr_verify.Common.{
  ℕ, ◌+◌, ◌%◌, ◌^◌, Bool, true, false, Option, none, some, List, [], ◌∷◌, ◌==◌, if◌then◌else◌,
}
use sealr_verify.Common.Text.{Bytes, Str, str_eq}
use sealr_verify.Common.Result.{Result, ok, err, BundleError, io, missing_entry}
use sealr_verify.Common.Run.{Run, ◌>>=◌, ◌>>◌, pure, lift, fail}
use sealr_verify.Deps.Archives.{Zips, Zstd}
use sealr_verify.Bundle.Types.{RecordIndexStream}
use sealr_verify.Bundle.Writer.{or_zip, or_io}
use sealr_verify.Bundle.Reader.{BundleReader, Parsers, record_index}

-- a byte before the lines that follow it
abbrev pub put_byte : ℕ → List Bytes → List Bytes
put_byte b [] = (b ∷ []) ∷ []
put_byte b (line ∷ lines) = (b ∷ line) ∷ lines

-- what `read_until(b'\n')` gives, call after call: each line with its newline, and at the end the
-- bytes that no newline follows
unfoldable pub raw_lines : Bytes → List Bytes
raw_lines [] = []
raw_lines (b ∷ bs) = let rest = raw_lines bs in if b == 10 then (b ∷ []) ∷ rest else put_byte b rest

-- the line without its newline, and whether it had one
unfoldable pub trim_newline : Bytes → Bytes × Bool
trim_newline [] = ([], false)
trim_newline (b ∷ []) = if b == 10 then ([], true) else (b ∷ [], false)
trim_newline (b ∷ e ∷ line) = let (trimmed, ended) = trim_newline (e ∷ line) in (b ∷ trimmed, ended)

-- `RecordIndex` by the name of a stream
unfoldable pub find_stream : Str → List RecordIndexStream → Option RecordIndexStream
find_stream stream_id [] = none
find_stream stream_id (s ∷ rest) =
    if str_eq s.stream_id stream_id then some s else find_stream stream_id rest

abbrev pub or_missing : {A : Type 0} → Option A → Result BundleError A
or_missing none = err missing_entry
or_missing (some a) = ok a

module _ {S : Type 0} (f : Bytes → Run BundleError S (Unit {0})) where
  -- `f` on a line with or without its newline, unless it is empty; `count` goes up with it
  unfoldable pub deliver : Bytes → ℕ → Run BundleError S ℕ
  deliver [] count = pure count
  deliver (b ∷ line) count = do f (b ∷ line); pure ((count + 1) % 2 ^ 64)

  -- the loop over a decoder that gives these lines and ends without an error or with one; a line
  -- that the error cuts off is not delivered
  unfoldable pub read_lines : Bool → List Bytes → ℕ → Run BundleError S ℕ
  read_lines true [] count = pure count
  read_lines false [] count = fail io
  read_lines ends (line ∷ lines) count =
      let (trimmed, ended) = trim_newline line in
      (do
        more ← deliver (if ended then trimmed else if ends then trimmed else []) count
        read_lines ends lines more)

  module _ ⦃z : Zips⦄ ⦃c : Zstd⦄ where
    unfoldable pub read_shards : z.ZipArchive → List Str → ℕ → Run BundleError S ℕ
    read_shards a [] count = pure count
    read_shards a (shard ∷ shards) count = do
      file ← lift (or_zip (z.by_name a shard))
      plain ← lift (or_io (c.decoder file))
      more ← read_lines plain.1 (raw_lines plain.0) count
      read_shards a shards more

    unfoldable pub read_stream_records : ⦃p : Parsers⦄ → BundleReader → Str → Run BundleError S ℕ
    read_stream_records r stream_id = do
      index ← lift (record_index r)
      entry ← lift (or_missing (find_stream stream_id index.streams))
      read_shards r.archive entry.shards 0
