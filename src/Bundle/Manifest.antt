-- ===== src/Bundle/Manifest.antt =====
-- crates/bundle/src/manifest.rs: what a bundle holds, and the hash that names it.
use mathlib.Core.Option
use sealr_verify.Common.{ℕ, Option, List, map}
use sealr_verify.Common.Text.{Str, codes}
use sealr_verify.Common.Result.{Result, ok, EvidenceError, ◌>>=◌}
use sealr_verify.Deps.{Digests}
use sealr_verify.Hash.{blake3_hex}
use sealr_verify.Jcs.{to_jcs_bytes}
use sealr_verify.Json.{Value, object, array, items, field, end, put_opt, text, u64}
use sealr_verify.Bundle.Types.{non_empty}

pub data ExportLevel : Type 0 where
  metadata full : ExportLevel

pub record StreamScope : Type 0 where
  pub stream_id : Str
  pub seq_from : ℕ
  pub seq_to : ℕ
  pub record_count : ℕ

pub record BundleScope : Type 0 where
  pub level : ExportLevel
  pub ts_from : Option Str
  pub ts_to : Option Str
  pub resources : List Str
  pub streams : List StreamScope

pub record ContentEntry : Type 0 where
  pub path : Str
  pub blake3 : Str
  pub bytes : ℕ

pub record ToolInfo : Type 0 where
  pub name : Str
  pub version : Str

pub record Manifest : Type 0 where
  pub schema_version : Str
  pub bundle_id : Str
  pub created_at : Str
  pub tool : ToolInfo
  pub scope : BundleScope
  pub contents : List ContentEntry

level_name : ExportLevel → Str
level_name metadata = codes "metadata"
level_name full = codes "full"

stream_value : StreamScope → Value
stream_value s = object (
    field (codes "stream_id") (text s.stream_id) (
      field (codes "seq_from") (u64 s.seq_from) (
        field (codes "seq_to") (u64 s.seq_to)
          (field (codes "record_count") (u64 s.record_count) end))))

scope_value : BundleScope → Value
unfolding level_name stream_value
scope_value s = object (
    field (codes "level") (text (level_name s.level)) (
      put_opt (codes "ts_from") (Option.map text s.ts_from) (
        put_opt (codes "ts_to") (Option.map text s.ts_to) (
          put_opt (codes "resources") (non_empty text s.resources)
            (field (codes "streams") (array (items (map stream_value s.streams))) end)))))

content_value : ContentEntry → Value
content_value c = object (
    field (codes "path") (text c.path)
      (field (codes "blake3") (text c.blake3) (field (codes "bytes") (u64 c.bytes) end)))

tool_value : ToolInfo → Value
tool_value t =
    object (field (codes "name") (text t.name) (field (codes "version") (text t.version) end))

-- the manifest as `Serialize` writes it
unfoldable pub manifest_value : Manifest → Value
unfolding scope_value content_value tool_value
manifest_value m = object (
    field (codes "schema_version") (text m.schema_version) (
      field (codes "bundle_id") (text m.bundle_id) (
        field (codes "created_at") (text m.created_at) (
          field (codes "tool") (tool_value m.tool) (
            field (codes "scope") (scope_value m.scope)
              (field (codes "contents") (array (items (map content_value m.contents))) end))))))

unfoldable pub jcs_hash : ⦃d : Digests⦄ → Manifest → Result EvidenceError Str
jcs_hash m = do bytes ← to_jcs_bytes (manifest_value m); ok (blake3_hex bytes)
