-- ===== src/Projection.antt =====
-- crates/evidence/src/projection.rs: the form of a record that may leave the customer.
pub mod Bounds
use mathlib.Core.Option
use sealr_verify.Common.{
  ℕ, ◌+◌, ◌&&◌, ◌||◌, Bool, true, false, Option, List, [], ◌∷◌, map, leb, take, length,
}
use sealr_verify.Common.Text.{Str, utf8}
use sealr_verify.Record.Types.{
  RecordType, RecorderInfo, Subject, Action, PayloadCommitment, Verdict, ApprovalRef, Links, Record,
}

abbrev pub max_projected_string : ℕ
max_projected_string = 512

abbrev pub max_projected_labels : ℕ
max_projected_labels = 32

-- `char::is_control`
abbrev pub is_control : ℕ → Bool
is_control c = leb c 0x1f || leb 0x7f c && leb c 0x9f

-- the bytes of one character
abbrev pub len_utf8 : ℕ → ℕ
len_utf8 c = length (utf8 (c ∷ []))

-- the loop of `sanitize`, with the bytes that are already in the output
unfoldable pub sanitize_from : ℕ → ℕ → Str → Str
sanitize_from max_len out_len [] = []
sanitize_from max_len out_len (c ∷ s) = elim (leb max_len out_len) [
  | true ↦ 0x2026 ∷ []
  | false ↦ elim (is_control c) [
    | true ↦ sanitize_from max_len out_len s
    | false ↦ c ∷ sanitize_from max_len (out_len + len_utf8 c) s
  ]
]

unfoldable pub sanitize : Str → ℕ → Str
unfolding sanitize_from
sanitize s max_len = sanitize_from max_len 0 s

pub record ConsoleSafeRecord : Type 0 where
  pub schema_version : Str
  pub record_id : Str
  pub stream_id : Str
  pub segment_id : Str
  pub seq : ℕ
  pub ts_wall : Str
  pub ts_mono_ns : ℕ
  pub record_type : RecordType
  pub recorder : RecorderInfo
  pub subject : Subject
  pub action : Action
  pub payload_commitment : Option PayloadCommitment
  pub verdict : Option Verdict
  pub approval_ref : Option ApprovalRef
  pub links : Option Links
  pub prev_hash : Str
  pub record_hash : Str

abbrev pub short : Str → Str
short v = sanitize v max_projected_string

unfoldable pub from_record : Record → ConsoleSafeRecord
from_record r = record {
  schema_version = r.schema_version;
  record_id = r.record_id;
  stream_id = r.stream_id;
  segment_id = r.segment_id;
  seq = r.seq;
  ts_wall = r.ts_wall;
  ts_mono_ns = r.ts_mono_ns;
  record_type = r.record_type;
  recorder = record {
    recorder_id = short r.recorder.recorder_id;
    version = short r.recorder.version;
    host_fingerprint = short r.recorder.host_fingerprint;
    platform = short r.recorder.platform;
  };
  subject = record {
    agent_kind = short r.subject.agent_kind;
    agent_session = short r.subject.agent_session;
    human_principal = Option.map short r.subject.human_principal;
    attribution = r.subject.attribution;
    source = short r.subject.source;
  };
  action = record {
    integration = short r.action.integration;
    operation = short r.action.operation;
    verb_class = short r.action.verb_class;
    target_resource = short r.action.target_resource;
    resource_labels = map short (take max_projected_labels r.action.resource_labels);
  };
  payload_commitment = r.payload_commitment;
  verdict = r.verdict;
  approval_ref = r.approval_ref;
  links = r.links;
  prev_hash = r.prev_hash;
  record_hash = r.record_hash;
}
