-- ===== src/Engine/Run/Roots.antt =====
-- No run passes on the strength of the bundle's own roots.
use mathlib.Core.Option
use sealr_verify.Common.{◌≡◌, ◌≢◌, sym, subst, false, Option, none, List, [], ◌∷◌}
use sealr_verify.Common.Int.{ℤ}
use sealr_verify.Common.Text.{Str, codes}
use sealr_verify.Deps.{Digests, Ed25519, Ulids, Chrono, Serde, KeyPems}
use sealr_verify.Deps.Archives.{Zips, Zstd}
use sealr_verify.Deps.X509.{X509}
use sealr_verify.Deps.Tokens.{Tokens}
use sealr_verify.Bundle.Types.{BundleIdentity}
use sealr_verify.Bundle.Manifest.{StreamScope}
use sealr_verify.Bundle.Writer.Documents.{contains}
use sealr_verify.Bundle.Reader.{
  BundleReader, Parsers, entry_bytes, stream_checkpoints, anchor_proofs, identity_documents,
  verify_content_hashes,
}
use sealr_verify.Bundle.Reader.Streams.{read_stream_records}
use sealr_verify.Report.{Finding, pass, compute_result}
use sealr_verify.Engine.Trust.{VerifyOptions, select_roots}
use sealr_verify.Engine.Trust.Pinned.{select_roots-not_pass}
use sealr_verify.Engine.Identity.{build_cert_map, resolve_console_keys}
use sealr_verify.Engine.Anchors.{Streams}
use sealr_verify.Engine.Findings.{IsBefore, IsBefore-refl, IsBefore-trans}
use sealr_verify.Engine.Findings.Identity.{
  build_cert_map-IsBefore, resolve_console_keys-IsBefore, revocation_findings-IsBefore,
  source_findings-IsBefore,
}
use sealr_verify.Engine.Findings.Streams.{
  verify_stream_chain-IsBefore, checkpoint_streams-IsBefore, coverage_streams-IsBefore,
}
use sealr_verify.Engine.Findings.Anchors.{verify_anchors-IsBefore}
use sealr_verify.Engine.Run.{
  identity_phase, unwrap_revocations, to_option, or_now, or_default, push_line, failed,
  content_findings, schema_findings, revocation_findings, chain_stream, chain_streams, run_identity,
  run_chains, run_checkpoints, run_anchors, run_findings, verify_bundle,
}

module _ ⦃e : Ed25519⦄ ⦃d : Digests⦄ ⦃x : X509⦄ ⦃k : KeyPems⦄ where
  identity_phase-IsBefore :
      (pem : Str) (opts : VerifyOptions) (now : ℤ) (identity : Option BundleIdentity)
      (fs : List Finding)
      → IsBefore
          (select_roots pem opts (Option.map (λ (i : BundleIdentity). i.roots) identity) fs).0
          (identity_phase pem opts now identity fs).0
  unfolding identity_phase
  identity_phase-IsBefore pem opts now identity fs =
      let roots = Option.map (λ (i : BundleIdentity). i.roots) identity in
      let certs = Option.map (λ (i : BundleIdentity). i.certs_pem) identity in
      let s1 = select_roots pem opts roots fs in
      let s2 = build_cert_map certs s1.1.0 now s1.0 in
      let s3 = resolve_console_keys opts roots s1.1.0 s2.0 in
      let f4 = revocation_findings (unwrap_revocations identity) s3.1 s3.0 in
      IsBefore-trans s1.0 s2.0 _ (build_cert_map-IsBefore certs s1.1.0 now s1.0) (
        IsBefore-trans s2.0 s3.0 _ (resolve_console_keys-IsBefore opts roots s1.1.0 s2.0) (
          IsBefore-trans s3.0 f4 _
            (revocation_findings-IsBefore (unwrap_revocations identity) s3.1 s3.0)
            (source_findings-IsBefore s1.1.1 f4)))

module _ ⦃z : Zips⦄ ⦃c : Zstd⦄ ⦃p : Parsers⦄ ⦃d : Digests⦄ ⦃u : Ulids⦄ ⦃h : Chrono⦄ ⦃j : Serde⦄
    (r : BundleReader) where
  chain_streams-IsBefore :
      (scopes : List StreamScope) (s : List Finding × Streams)
      → IsBefore s.0 (chain_streams r scopes s).0
  unfolding chain_streams chain_stream
  chain_streams-IsBefore [] s = IsBefore-refl s.0
  chain_streams-IsBefore (scope ∷ scopes) s =
      let delivered = read_stream_records push_line r scope.stream_id [] in
      IsBefore-trans s.0 _ _
        (verify_stream_chain-IsBefore scope.stream_id delivered.1 (failed delivered.0) s.0)
        (chain_streams-IsBefore scopes _)

module _ ⦃z : Zips⦄ ⦃c : Zstd⦄ ⦃p : Parsers⦄ ⦃d : Digests⦄ ⦃u : Ulids⦄ ⦃h : Chrono⦄ ⦃j : Serde⦄
    ⦃e : Ed25519⦄ ⦃x : X509⦄ ⦃k : KeyPems⦄ ⦃t : Tokens⦄ (embedded_pem : Str) (clock : ℤ)
    (r : BundleReader) (opts : VerifyOptions) where
  -- the findings of the identity phase are among those of the run
  run_identity-IsBefore :
      IsBefore (run_identity embedded_pem clock r opts).0 (run_chains embedded_pem clock r opts).0
  unfolding run_chains
  run_identity-IsBefore = chain_streams-IsBefore r r.manifest.scope.streams _

  run_chains-IsBefore :
      IsBefore
        (run_chains embedded_pem clock r opts).0
        (run_checkpoints embedded_pem clock r opts).0
  unfolding run_checkpoints
  run_chains-IsBefore =
      checkpoint_streams-IsBefore (run_identity embedded_pem clock r opts).1 (stream_checkpoints r)
        _ _

  pub run_checkpoints-IsBefore :
      IsBefore
        (run_checkpoints embedded_pem clock r opts).0
        (run_findings embedded_pem clock r opts)
  unfolding run_findings run_anchors
  run_checkpoints-IsBefore =
      IsBefore-trans (run_checkpoints embedded_pem clock r opts).0 _ _
        (verify_anchors-IsBefore (entry_bytes r) (or_default (anchor_proofs r))
          (run_identity embedded_pem clock r opts).1.console_keys _ _)
        (coverage_streams-IsBefore opts _ _)

  roots-IsBefore :
      IsBefore
        (select_roots embedded_pem opts
          (Option.map (λ (i : BundleIdentity). i.roots) (to_option (identity_documents r)))
          (content_findings (verify_content_hashes r) (schema_findings r.manifest []))).0
        (run_findings embedded_pem clock r opts)
  unfolding run_identity
  roots-IsBefore =
      IsBefore-trans _ (run_identity embedded_pem clock r opts).0 _
        (identity_phase-IsBefore embedded_pem opts (or_now opts.now_unix clock)
          (to_option (identity_documents r)) _)
        (IsBefore-trans _ (run_chains embedded_pem clock r opts).0 _ run_identity-IsBefore (
          IsBefore-trans _ (run_checkpoints embedded_pem clock r opts).0 _ run_chains-IsBefore
            run_checkpoints-IsBefore))

  -- A run for which no root is given and none is embedded in the build does not report `Pass`,
  -- whatever roots the bundle brings and whatever else the run finds.
  pub run_without_roots :
      (version : Str)
      → opts.root_pem_override ≡ none
      → contains (codes "BEGIN CERTIFICATE") embedded_pem ≡ false
      → (verify_bundle embedded_pem clock r opts version).result ≢ pass
  unfolding verify_bundle
  run_without_roots version no_override not_embedded =
      let (more, all) = roots-IsBefore in
      subst (λ fs. compute_result fs ≢ pass) (sym all)
        (select_roots-not_pass embedded_pem opts _ _ more no_override not_embedded)
