-- ===== src/Bundle/Writer/Records.antt =====
-- `add_stream_records`: the records of a stream, cut into compressed shards.
use sealr_verify.Common.{
  Bool, true, false, ℕ, ◌+◌, ◌-◌, ◌%◌, ◌^◌, Option, none, some, List, [], ◌∷◌, ◌++◌, length, leb,
  ◌==◌, if◌then◌else◌,
}
use sealr_verify.Common.Text.{Bytes, Str, codes}
use sealr_verify.Common.Result.{Result, ok, err, BundleError, json, invalid}
use sealr_verify.Common.Run.{◌>>=◌, ◌>>◌, pure, lift, modify}
use sealr_verify.Deps.{Digests, Serde}
use sealr_verify.Deps.Archives.{Zips, Zstd}
use sealr_verify.Jcs.{decimal}
use sealr_verify.Json.{get_key, as_u64, and_then}
use sealr_verify.Bundle.Types.{RecordIndexStream}
use sealr_verify.Bundle.Writer.{or_io, Write, records, require_phase, write_entry}

-- `{n:05}`
unfoldable pub zeros : ℕ → Str
zeros ℕ.zero = []
zeros (ℕ.suc n) = b'0' ∷ zeros n

unfoldable pub padded : ℕ → Str
unfolding zeros
padded n = zeros (5 - length (decimal n)) ++ decimal n

unfoldable pub shard_path : Str → ℕ → Str
unfolding padded
shard_path stream_id shard_no =
    codes "records/" ++ (stream_id ++ (codes ".part-" ++ (padded shard_no ++ codes ".ndjson.zst")))

-- the variables of the loop
pub record Shards : Type 0 where
  pub shards : List Str
  pub shard_buf : Bytes
  pub shard_no : ℕ
  pub count : ℕ
  pub first_line : Option Bytes
  pub last_line : Option Bytes

unfoldable pub no_shards : Shards
no_shards = record {
  shards = [];
  shard_buf = [];
  shard_no = 1;
  count = 0;
  first_line = none;
  last_line = none;
}

-- `if first_line.is_none() { first_line = Some(line.clone()) }`
abbrev pub or_first : Option Bytes → Bytes → Option Bytes
or_first none line = some line
or_first (some first) line = some first

-- the variables after a line is taken, before the shard is cut
unfoldable pub take_line : Bytes → Shards → Shards
take_line line s = record s {
  first_line = or_first s.first_line line;
  last_line = some line;
  shard_buf = s.shard_buf ++ line;
  count = (s.count + 1) % 2 ^ 64;
}

abbrev pub is_empty : Bytes → Bool
is_empty [] = true
is_empty (b ∷ bs) = false

-- `ok_or` on an option
abbrev pub or_error : {A : Type 0} → BundleError → Option A → Result BundleError A
or_error e none = err e
or_error e (some a) = ok a

-- a line that must be there
abbrev pub seq_of : ⦃s : Serde⦄ → Bytes → Result BundleError ℕ
seq_of ⦃s⦄ line = elim (s.from_slice line) [
  | none ↦ err json
  | some v ↦ or_error invalid (and_then (get_key (codes "seq") v) as_u64)
]

-- `seq_of(line.as_deref().expect("count>0"))`: there is a line when lines were counted
abbrev pub seq_at : ⦃s : Serde⦄ → Option Bytes → Result BundleError ℕ
seq_at none = err invalid
seq_at (some line) = seq_of line

-- the entry of the index for what the loop has left
abbrev pub entry_between :
    Str
    → Shards
    → Result BundleError ℕ
    → Result BundleError ℕ
    → Result BundleError RecordIndexStream
entry_between stream_id s (err e) last = err e
entry_between stream_id s (ok seq_from) (err e) = err e
entry_between stream_id s (ok seq_from) (ok seq_to) = ok (record {
  stream_id = stream_id;
  shards = s.shards;
  seq_from = seq_from;
  seq_to = seq_to;
  record_count = s.count;
})

-- with the error for no records
unfoldable pub index_entry : ⦃s : Serde⦄ → Str → Shards → Result BundleError RecordIndexStream
index_entry stream_id s =
    if s.count == 0
    then err invalid
    else entry_between stream_id s (seq_at s.first_line) (seq_at s.last_line)

module _ ⦃z : Zips⦄ ⦃c : Zstd⦄ ⦃d : Digests⦄ where
  unfoldable pub flush_shard : Str → Shards → Write Shards
  flush_shard stream_id s = if is_empty s.shard_buf then pure s else do
    compressed ← lift (or_io (c.encode_all s.shard_buf))
    write_entry (shard_path stream_id s.shard_no) compressed
    pure (record s { shards = s.shards ++ shard_path stream_id s.shard_no ∷ []; shard_buf = [] })

  -- one turn of the loop
  unfoldable pub add_line : Str → Bytes → Shards → Write Shards
  add_line stream_id line s w =
      let s' = take_line line s in
      let flushed =
        (do
          cut ← flush_shard stream_id s'
          pure (record cut { shard_no = (cut.shard_no + 1) % 2 ^ 32 }))
          w in
      if leb w.shard_threshold (length s'.shard_buf) then flushed else (ok s', w)

  -- the loop, over what the iterator gives
  unfoldable pub add_lines : Str → List (Result BundleError Bytes) → Shards → Write Shards
  add_lines stream_id [] s = pure s
  add_lines stream_id (next ∷ rest) s = do
    line ← lift next
    more ← add_line stream_id line s
    add_lines stream_id rest more

  -- `self.index.streams.push(entry.clone())`
  unfoldable pub push_stream : RecordIndexStream → Write RecordIndexStream
  push_stream entry = do
    modify (λ w. record w { index = record { streams = w.index.streams ++ entry ∷ [] } })
    pure entry

  -- `add_stream_records` after its check of the phase
  unfoldable pub write_stream_records :
      ⦃s : Serde⦄ → Str → List (Result BundleError Bytes) → Write RecordIndexStream
  write_stream_records stream_id lines = do
    all ← add_lines stream_id lines no_shards
    rest ← flush_shard stream_id all
    entry ← lift (index_entry stream_id rest)
    push_stream entry

  unfoldable pub add_stream_records :
      ⦃s : Serde⦄ → Str → List (Result BundleError Bytes) → Write RecordIndexStream
  add_stream_records stream_id lines = do
    require_phase records records
    write_stream_records stream_id lines
