-- ===== src/Record/Types.antt =====
-- The structs and enums of the record schema.
use sealr_verify.Common.{ℕ, Option, List}
use sealr_verify.Common.Text.{Str}
use sealr_verify.Json.{Value}

pub data RecordType : Type 0 where
  operation outcome approval policy_event lifecycle coverage_gap guard_error spool_shed
        clock_anomaly generic_exec :
      RecordType

pub record RecorderInfo : Type 0 where
  pub recorder_id : Str
  pub version : Str
  pub host_fingerprint : Str
  pub platform : Str

pub data Attribution : Type 0 where
  attributed inferred unattributed : Attribution

pub record Subject : Type 0 where
  pub agent_kind : Str
  pub agent_session : Str
  pub human_principal : Option Str
  pub attribution : Attribution
  pub source : Str

pub record Action : Type 0 where
  pub integration : Str
  pub operation : Str
  pub verb_class : Str
  pub target_resource : Str
  pub resource_labels : List Str

pub record PayloadCommitment : Type 0 where
  pub alg : Str
  pub commitment : Str

pub record PayloadRef : Type 0 where
  pub vault_url : Str
  pub enc : Str
  pub key_ref : Str

pub record GuardRef : Type 0 where
  pub name : Str
  pub version : Str

pub data Decision : Type 0 where
  allow warn require_approval block : Decision

pub data RiskClass : Type 0 where
  low medium high critical : RiskClass

pub data Mode : Type 0 where
  observe enforce : Mode

pub record Verdict : Type 0 where
  pub decision : Decision
  pub mode : Mode
  pub risk_class : RiskClass
  pub policy_version : ℕ
  pub rule_ids : List Str
  pub reason_codes : List Str
  pub guard : GuardRef
  pub eval_ms : ℕ

pub record ApprovalRef : Type 0 where
  pub approval_record_id : Str

pub record Links : Type 0 where
  pub request_record_id : Option Str

pub record Record : Type 0 where
  pub schema_version : Str
  pub record_id : Str
  pub stream_id : Str
  pub segment_id : Str
  pub seq : ℕ
  pub ts_wall : Str
  pub ts_mono_ns : ℕ
  pub record_type : RecordType
  pub recorder : RecorderInfo
  pub subject : Subject
  pub action : Action
  pub action_detail : Option Value
  pub payload_commitment : Option PayloadCommitment
  pub payload_ref : Option PayloadRef
  pub verdict : Option Verdict
  pub approval_ref : Option ApprovalRef
  pub links : Option Links
  pub prev_hash : Str
  pub record_hash : Str
