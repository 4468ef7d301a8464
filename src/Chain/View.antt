-- ===== src/Chain/View.antt =====
-- `RecordView`: the fields of a raw record that the chain is about.
use sealr_verify.Common.{ℕ, Option, none, some}
use sealr_verify.Common.Text.{Str, codes}
use sealr_verify.Common.Result.{Result, ok, err, EvidenceError, schema, ◌>>=◌}
use sealr_verify.Json.{
  Value, Fields, null, bool, number, string, array, object, get, as_str, as_u64, and_then,
}

pub record RecordView : Type 0 where
  pub record_id : Str
  pub stream_id : Str
  pub segment_id : Str
  pub seq : ℕ
  pub ts_wall : Str
  pub ts_mono_ns : ℕ
  pub record_type : Str
  pub prev_hash : Str
  pub record_hash : Str

abbrev pub ok_or {ℓ} : {A : Type ℓ} → EvidenceError → Option A → Result EvidenceError A
ok_or e none = err e
ok_or e (some a) = ok a

-- the closures `s` and `u`
unfoldable pub str_field : Str → Fields → Result EvidenceError Str
str_field k fs = ok_or schema (and_then (get k fs) as_str)

unfoldable pub u64_field : Str → Fields → Result EvidenceError ℕ
u64_field k fs = ok_or schema (and_then (get k fs) as_u64)

unfoldable pub view_of_fields : Fields → Result EvidenceError RecordView
view_of_fields fs = do
  record_id ← str_field (codes "record_id") fs
  stream_id ← str_field (codes "stream_id") fs
  segment_id ← str_field (codes "segment_id") fs
  seq ← u64_field (codes "seq") fs
  ts_wall ← str_field (codes "ts_wall") fs
  ts_mono_ns ← u64_field (codes "ts_mono_ns") fs
  record_type ← str_field (codes "record_type") fs
  prev_hash ← str_field (codes "prev_hash") fs
  record_hash ← str_field (codes "record_hash") fs
  ok (record {
    record_id = record_id;
    stream_id = stream_id;
    segment_id = segment_id;
    seq = seq;
    ts_wall = ts_wall;
    ts_mono_ns = ts_mono_ns;
    record_type = record_type;
    prev_hash = prev_hash;
    record_hash = record_hash;
  })

unfoldable pub from_value : Value → Result EvidenceError RecordView
unfolding view_of_fields
from_value (object fs) = view_of_fields fs
from_value null = err schema
from_value (bool b) = err schema
from_value (number n) = err schema
from_value (string s) = err schema
from_value (array l) = err schema
