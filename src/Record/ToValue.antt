-- ===== src/Record/ToValue.antt =====
-- `serde_json::to_value` of a record: what its `Serialize` attributes say, field by field.
use sealr_verify.Common.{Option, none, some, List, [], ◌∷◌}
use mathlib.Core.Option
use sealr_verify.Common.Text.{Str, codes}
use sealr_verify.Json.{Value, Fields, object, end, field, put_opt, strings, text, u64}
use sealr_verify.Record.Types.{
  RecordType, RecorderInfo, Attribution, Subject, Action, PayloadCommitment, PayloadRef, GuardRef,
  Decision, RiskClass, Mode, Verdict, ApprovalRef, Links, Record,
}

unfoldable pub record_type_name : RecordType → Str
record_type_name RecordType.operation = codes "operation"
record_type_name RecordType.outcome = codes "outcome"
record_type_name RecordType.approval = codes "approval"
record_type_name RecordType.policy_event = codes "policy_event"
record_type_name RecordType.lifecycle = codes "lifecycle"
record_type_name RecordType.coverage_gap = codes "coverage_gap"
record_type_name RecordType.guard_error = codes "guard_error"
record_type_name RecordType.spool_shed = codes "spool_shed"
record_type_name RecordType.clock_anomaly = codes "clock_anomaly"
record_type_name RecordType.generic_exec = codes "generic_exec"

recorder_value : RecorderInfo → Value
recorder_value r = object (
    field (codes "recorder_id") (text r.recorder_id) (
      field (codes "version") (text r.version) (
        field (codes "host_fingerprint") (text r.host_fingerprint)
          (field (codes "platform") (text r.platform) end))))

attribution_name : Attribution → Str
attribution_name Attribution.attributed = codes "attributed"
attribution_name Attribution.inferred = codes "inferred"
attribution_name Attribution.unattributed = codes "unattributed"

subject_value : Subject → Value
unfolding attribution_name
subject_value s = object (
    field (codes "agent_kind") (text s.agent_kind) (
      field (codes "agent_session") (text s.agent_session) (
        put_opt (codes "human_principal") (Option.map text s.human_principal) (
          field (codes "attribution") (text (attribution_name s.attribution))
            (field (codes "source") (text s.source) end)))))

-- a list under `skip_serializing_if = "Vec::is_empty"`
labels : List Str → Option Value
labels [] = none
labels (x ∷ l) = some (strings (x ∷ l))

action_value : Action → Value
unfolding labels
action_value a = object (
    field (codes "integration") (text a.integration) (
      field (codes "operation") (text a.operation) (
        field (codes "verb_class") (text a.verb_class) (
          field (codes "target_resource") (text a.target_resource)
            (put_opt (codes "resource_labels") (labels a.resource_labels) end)))))

commitment_value : PayloadCommitment → Value
commitment_value c =
    object (field (codes "alg") (text c.alg) (field (codes "commitment") (text c.commitment) end))

payload_ref_value : PayloadRef → Value
payload_ref_value p = object (
    field (codes "vault_url") (text p.vault_url)
      (field (codes "enc") (text p.enc) (field (codes "key_ref") (text p.key_ref) end)))

guard_value : GuardRef → Value
guard_value g =
    object (field (codes "name") (text g.name) (field (codes "version") (text g.version) end))

decision_name : Decision → Str
decision_name Decision.allow = codes "ALLOW"
decision_name Decision.warn = codes "WARN"
decision_name Decision.require_approval = codes "REQUIRE_APPROVAL"
decision_name Decision.block = codes "BLOCK"

risk_name : RiskClass → Str
risk_name RiskClass.low = codes "LOW"
risk_name RiskClass.medium = codes "MEDIUM"
risk_name RiskClass.high = codes "HIGH"
risk_name RiskClass.critical = codes "CRITICAL"

mode_name : Mode → Str
mode_name Mode.observe = codes "observe"
mode_name Mode.enforce = codes "enforce"

verdict_value : Verdict → Value
unfolding decision_name risk_name mode_name guard_value labels
verdict_value v = object (
    field (codes "decision") (text (decision_name v.decision)) (
      field (codes "mode") (text (mode_name v.mode)) (
        field (codes "risk_class") (text (risk_name v.risk_class)) (
          field (codes "policy_version") (u64 v.policy_version) (
            put_opt (codes "rule_ids") (labels v.rule_ids) (
              put_opt (codes "reason_codes") (labels v.reason_codes) (
                field (codes "guard") (guard_value v.guard)
                  (field (codes "eval_ms") (u64 v.eval_ms) end))))))))

approval_value : ApprovalRef → Value
approval_value a = object (field (codes "approval_record_id") (text a.approval_record_id) end)

links_value : Links → Value
links_value l =
    object (put_opt (codes "request_record_id") (Option.map text l.request_record_id) end)

-- the last two fields, behind the optional ones
unfoldable pub tail_fields : Record → Fields
tail_fields r =
    field (codes "prev_hash") (text r.prev_hash)
      (field (codes "record_hash") (text r.record_hash) end)

unfoldable pub optional_fields : Record → Fields → Fields
unfolding commitment_value payload_ref_value verdict_value approval_value links_value
optional_fields r rest = put_opt (codes "action_detail") r.action_detail (
    put_opt (codes "payload_commitment") (Option.map commitment_value r.payload_commitment) (
      put_opt (codes "payload_ref") (Option.map payload_ref_value r.payload_ref) (
        put_opt (codes "verdict") (Option.map verdict_value r.verdict) (
          put_opt (codes "approval_ref") (Option.map approval_value r.approval_ref)
            (put_opt (codes "links") (Option.map links_value r.links) rest)))))

-- the fields that every record has, up to `action`
unfoldable pub head_fields : Record → Fields → Fields
unfolding recorder_value subject_value action_value
head_fields r rest = field (codes "schema_version") (text r.schema_version) (
    field (codes "record_id") (text r.record_id) (
      field (codes "stream_id") (text r.stream_id) (
        field (codes "segment_id") (text r.segment_id) (
          field (codes "seq") (u64 r.seq) (
            field (codes "ts_wall") (text r.ts_wall) (
              field (codes "ts_mono_ns") (u64 r.ts_mono_ns) (
                field (codes "record_type") (text (record_type_name r.record_type)) (
                  field (codes "recorder") (recorder_value r.recorder) (
                    field (codes "subject") (subject_value r.subject)
                      (field (codes "action") (action_value r.action) rest))))))))))

unfoldable pub to_fields : Record → Fields
to_fields r = head_fields r (optional_fields r (tail_fields r))

unfoldable pub to_value : Record → Value
to_value r = object (to_fields r)
