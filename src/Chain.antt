-- ===== src/Chain.antt =====
-- crates/evidence/src/chain.rs: the writer's chain head, and the verifier of one stream.
pub mod View
pub mod Verifier
pub mod Accepts
pub mod Appended
pub mod Tracks
pub mod RoundTrip
use sealr_verify.Common.{ℕ, ◌+◌, ◌%◌, ◌^◌, Option, none, some, List, [], ◌∷◌, if◌then◌else◌}
use sealr_verify.Common.Text.{Str, str_eq}
use sealr_verify.Common.Result.{Result, ok, err, EvidenceError, schema, ◌>>=◌}
use sealr_verify.Deps.{Digests, Ulids}
use sealr_verify.Record.{genesis_prev_hash, finalize}
use sealr_verify.Record.Types.{Record}

-- `ChainHead`
pub record ChainHead : Type 0 where
  pub stream_id : ℕ
  pub head_hash : Str
  pub last_seq : Option ℕ

unfoldable pub genesis : ⦃d : Digests⦄ → ⦃u : Ulids⦄ → ℕ → ChainHead
genesis stream_id = record {
  stream_id = stream_id;
  head_hash = genesis_prev_hash stream_id;
  last_seq = none;
}

unfoldable pub resume : ℕ → Str → ℕ → ChainHead
resume stream_id head_hash last_seq = record {
  stream_id = stream_id;
  head_hash = head_hash;
  last_seq = some last_seq;
}

abbrev seq_after : Option ℕ → ℕ
seq_after none = 0
seq_after (some s) = (s + 1) % 2 ^ 64

-- `s + 1` in u64; a release build wraps around
unfoldable pub next_seq : ChainHead → ℕ
next_seq head = seq_after head.last_seq

module _ ⦃d : Digests⦄ ⦃u : Ulids⦄ where
  -- The new head and the chained record. On an error the head is left as it was.
  unfoldable pub append : ChainHead → Record → Result EvidenceError (ChainHead × Record)
  append head r =
      if str_eq r.stream_id (u.to_string head.stream_id)
      then (do
        chained ← finalize (record r { seq = next_seq head; prev_hash = head.head_hash })
        ok (record head { head_hash = chained.1; last_seq = some (next_seq head) }, chained.0))
      else err schema

  -- a recorder that appends one record after the other
  unfoldable pub append_all :
      ChainHead → List Record → Result EvidenceError (ChainHead × List Record)
  append_all head [] = ok (head, [])
  append_all head (r ∷ rs) = do
    first ← append head r
    rest ← append_all first.0 rs
    ok (rest.0, first.1 ∷ rest.1)
