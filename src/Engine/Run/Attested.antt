-- ===== src/Engine/Run/Attested.antt =====
-- What the counts of a report rest on: attested and anchored records, from the run as a whole.
use sealr_verify.Common.{
  ℕ, ◌≡◌, refl, sym, ◌∙◌, subst, inl, inr, true, some, List, [], ◌∷◌, get_elem?, map, All-get_elem?,
}
use sealr_verify.Common.Int.{ℤ}
use sealr_verify.Common.Text.{Bytes, Str}
use sealr_verify.Common.Result.{Result, ok, err, BundleError}
use sealr_verify.Deps.{Digests, Ed25519, Ulids, Chrono, Serde, KeyPems}
use sealr_verify.Deps.Archives.{Zips, Zstd}
use sealr_verify.Deps.X509.{X509}
use sealr_verify.Deps.Tokens.{Tokens}
use sealr_verify.Bundle.Types.{BundleCheckpoint, StreamCheckpoints, BundleIdentity}
use sealr_verify.Bundle.Reader.{
  BundleReader, Parsers, entry_bytes, stream_checkpoints, anchor_proofs, identity_documents,
  verify_content_hashes,
}
use sealr_verify.Report.{Finding}
use sealr_verify.Engine.{SeqMap, StreamData, has_seq, str_get}
use sealr_verify.Engine.Trust.{VerifyOptions, select_roots}
use sealr_verify.Engine.Checkpoints.Attested.{
  Attests, verify_checkpoints_attested, verify_checkpoints-kept,
}
use sealr_verify.Engine.Anchors.{Streams}
use sealr_verify.Engine.Anchors.Anchored.{AllGrow, Grows, IsWithin}
use sealr_verify.Engine.Anchors.Timed.{IsTimed, verify_anchors_sound}
use sealr_verify.Engine.Run.{
  Identity, trust_for, checkpoint_stream, checkpoint_streams, or_default, run_identity, run_chains,
  run_checkpoints, run_anchors, or_now, identity_phase, to_option, schema_findings,
  content_findings,
}
use sealr_verify.Engine.Run.Start.{IsFresh, AllStreams, chain_streams-IsFresh}
use sealr_verify.Certs.{ValidatedCert, parse_pem_chain}
use sealr_verify.Engine.Base64.{der_to_pem}
use sealr_verify.Engine.Identity.{build_cert_map, join_lines}
use sealr_verify.Engine.Identity.Certificates.{IsValidated, build_cert_map_sound}

module _ ⦃e : Ed25519⦄ ⦃d : Digests⦄ ⦃h : Chrono⦄ (identity : Identity)
    (read : Str → Result BundleError StreamCheckpoints) where
  -- one of the checkpoints that were read for the stream vouches for the number
  pub record IsVouched (id : Str) (hashes : SeqMap) (s : ℕ) : Type 0 where
    pub checkpoints : StreamCheckpoints
    pub were_read : read id ≡ ok checkpoints
    pub index : ℕ
    pub bc : BundleCheckpoint
    pub listed : get_elem? checkpoints.checkpoints index ≡ some bc
    pub attests : Attests (trust_for identity id) hashes s bc

  -- a stream after the checkpoints
  record IsChecked (id : Str) (stream_data : StreamData) : Type 0 where
    vouched :
        (s : ℕ)
        → has_seq s stream_data.attested_seqs ≡ true
        → IsVouched id stream_data.hashes_by_seq s
    anchored : stream_data.anchored_seqs ≡ []

  none_attested :
      (stream_data : StreamData) (s : ℕ) {A : Type 0}
      → IsFresh stream_data
      → has_seq s stream_data.attested_seqs ≡ true
      → A
  unfolding has_seq
  none_attested stream_data s fresh is = absurd (cc (rw fresh.attested at is))

  checkpoint_stream-IsChecked :
      (id : Str) (findings : List Finding) (stream_data : StreamData)
      → IsFresh stream_data
      → IsChecked id (checkpoint_stream identity id (read id) findings stream_data).1
  unfolding checkpoint_stream
  checkpoint_stream-IsChecked id findings stream_data fresh = split (read id) refl
    where
      split :
          (out : Result BundleError StreamCheckpoints)
          → read id ≡ out
          → IsChecked id (checkpoint_stream identity id out findings stream_data).1
      split (err problem) missing = record {
        vouched = λ s is. none_attested stream_data s fresh is;
        anchored = fresh.anchored;
      }
      split (ok c) were_read =
          let t = trust_for identity id in
          let kept = verify_checkpoints-kept t c.checkpoints findings stream_data in
          record {
            vouched = λ s is.
                elim (verify_checkpoints_attested t c.checkpoints findings stream_data s is) [
                  | inl old ↦ none_attested stream_data s fresh old
                  | inr (i, bc, listed, attests) ↦ record {
                    checkpoints = c;
                    were_read = were_read;
                    index = i;
                    bc = bc;
                    listed = listed;
                    attests = subst (λ hashes. Attests t hashes s bc) (sym kept.0) attests;
                  }
                ];
            anchored = kept.1 ∙ fresh.anchored;
          }

  checkpoint_streams-IsChecked :
      (streams : Streams) (findings : List Finding)
      → AllStreams (λ id stream_data. IsFresh stream_data) streams
      → AllStreams IsChecked (checkpoint_streams identity read streams findings).1
  unfolding checkpoint_streams
  checkpoint_streams-IsChecked [] findings fresh = tt
  checkpoint_streams-IsChecked (s ∷ streams) findings fresh = (
    checkpoint_stream-IsChecked s.0 findings s.1 fresh.0,
    checkpoint_streams-IsChecked streams _ fresh.1,
  )

  -- A stream of the report: what is attested is vouched for, and what is anchored is attested and in
  -- the range of a checkpoint that has a reason.
  pub record IsSupported (C : Str → Str → Type 0) (id : Str) (stream_data : StreamData)
      : Type 0 where
    pub vouched :
        (s : ℕ)
        → has_seq s stream_data.attested_seqs ≡ true
        → IsVouched id stream_data.hashes_by_seq s
    pub anchored :
        (s : ℕ)
        → has_seq s stream_data.anchored_seqs ≡ true
        → (has_seq s stream_data.attested_seqs ≡ true)
          × ((cp_id : Str) × C id cp_id × IsWithin stream_data cp_id s)

  Grows-IsSupported :
      (C : Str → Str → Type 0) (before after : Str × StreamData)
      → Grows C before after
      → IsChecked before.0 before.1
      → IsSupported C after.0 after.1
  unfolding has_seq
  Grows-IsSupported C before after g checked = record {
    vouched = λ s is.
        let v = checked.vouched s (rw g.attested at is) in
        subst (λ id. IsVouched id after.1.hashes_by_seq s) (sym g.id)
          (subst (λ hashes. IsVouched before.0 hashes s) (sym g.hashes) v);
    anchored = λ s is. elim (g.anchored s is) [
      | inl old ↦ absurd (cc (rw checked.anchored at old))
      | inr (cp_id, reason, (range, found, lo, hi), attested) ↦ (
        rw g.attested attested,
        (cp_id, subst (λ id. C id cp_id) (sym g.id) reason, (range, rw g.ranges found, lo, hi)),
      )
    ];
  }

  AllGrow-IsSupported :
      (C : Str → Str → Type 0) (before after : Streams)
      → AllGrow C before after
      → AllStreams IsChecked before
      → AllStreams (IsSupported C) after
  AllGrow-IsSupported C [] [] g checked = tt
  AllGrow-IsSupported C [] (t ∷ after) g checked = absurd g
  AllGrow-IsSupported C (s ∷ before) [] g checked = absurd g
  AllGrow-IsSupported C (s ∷ before) (t ∷ after) g checked =
      (Grows-IsSupported C s t g.0 checked.0, AllGrow-IsSupported C before after g.1 checked.1)

module _ ⦃z : Zips⦄ ⦃c : Zstd⦄ ⦃p : Parsers⦄ ⦃d : Digests⦄ ⦃u : Ulids⦄ ⦃h : Chrono⦄ ⦃j : Serde⦄
    ⦃e : Ed25519⦄ ⦃x : X509⦄ ⦃k : KeyPems⦄ ⦃t : Tokens⦄ (embedded_pem : Str) (clock : ℤ)
    (r : BundleReader) (opts : VerifyOptions) where
  -- the reason for which a checkpoint of this run anchors numbers
  abbrev pub HasToken : Str → Str → Type 0
  HasToken =
      IsTimed (entry_bytes r) (run_checkpoints embedded_pem clock r opts).1
        (or_default (anchor_proofs r)).batches

  -- the roots of the run
  abbrev pub roots_of : BundleIdentity → List Str
  roots_of doc =
      (select_roots embedded_pem opts (some doc.roots)
        (content_findings (verify_content_hashes r) (schema_findings r.manifest []))).1.0

  -- a certificate that the bundle lists, with a chain to the first of the trusted roots
  pub record IsCertified (fp : Str) (v : ValidatedCert) : Type 0 where
    pub doc : BundleIdentity
    pub documents_read : identity_documents r ≡ ok doc
    pub ders : Bytes × List Bytes
    pub parsed : parse_pem_chain doc.certs_pem ≡ ok ders
    pub validated :
        IsValidated
          (map der_to_pem (ders.0 ∷ ders.1))
          (join_lines (roots_of doc))
          (or_now opts.now_unix clock)
          fp
          v

  -- A certificate of the run is listed in the bundle and chains to the trusted roots.
  run-IsCertified :
      (fp : Str) (v : ValidatedCert)
      → str_get fp (run_identity embedded_pem clock r opts).1.cert_map ≡ some v
      → IsCertified fp v
  unfolding run_identity identity_phase build_cert_map str_get
  run-IsCertified fp v there = split (identity_documents r) refl there
    where
      split :
          (out : Result BundleError BundleIdentity)
          → identity_documents r ≡ out
          → str_get fp
              (identity_phase embedded_pem opts (or_now opts.now_unix clock) (to_option out) (
                content_findings
                  (verify_content_hashes r)
                  (schema_findings r.manifest []))).1.cert_map
            ≡ some v
          → IsCertified fp v
      split (err problem) missing is = absurd (cc (is))
      split (ok doc) read is =
          let (ders, parsed, validated) =
            build_cert_map_sound doc.certs_pem (roots_of doc) (or_now opts.now_unix clock) _ fp v
              is in
          record {
            doc = doc;
            documents_read = read;
            ders = ders;
            parsed = parsed;
            validated = validated;
          }

  -- For each stream of a run, what counts as attested is vouched for by a checkpoint that was read
  -- for it, under the trust of the run, and what counts as anchored is attested and in the range of
  -- a checkpoint that a batch with a verified token includes.
  pub run_sound :
      AllStreams
        (IsSupported (run_identity embedded_pem clock r opts).1 (stream_checkpoints r) HasToken)
        (run_anchors embedded_pem clock r opts).streams
  unfolding run_anchors run_checkpoints run_chains
  run_sound =
      let identity = (run_identity embedded_pem clock r opts).1 in
      let fresh =
        chain_streams-IsFresh r r.manifest.scope.streams
          ((run_identity embedded_pem clock r opts).0, []) tt in
      AllGrow-IsSupported identity (stream_checkpoints r) HasToken _ _
        (verify_anchors_sound (entry_bytes r) (or_default (anchor_proofs r)) identity.console_keys _
          _)
        (checkpoint_streams-IsChecked identity (stream_checkpoints r) _ _ fresh)

  -- A record that counts as attested at the end of a run is vouched for by a checkpoint that was read
  -- for its stream, and the certificate that the checkpoint is signed under is listed in the bundle
  -- and has a chain to the first of the trusted roots, valid at the time of the run.
  pub run_attested :
      (i : ℕ) (id : Str) (stream_data : StreamData) (s : ℕ)
      → get_elem? (run_anchors embedded_pem clock r opts).streams i ≡ some (id, stream_data)
      → has_seq s stream_data.attested_seqs ≡ true
      → (v : IsVouched
          (run_identity embedded_pem clock r opts).1
          (stream_checkpoints r)
          id
          stream_data.hashes_by_seq
          s)
        × IsCertified v.bc.checkpoint.note.recorder_cert_fingerprint v.attests.cert
  run_attested i id stream_data s listed is =
      let supported = All-get_elem? _ _ i run_sound listed in
      let v = supported.vouched s is in
      (
        v,
        run-IsCertified v.bc.checkpoint.note.recorder_cert_fingerprint v.attests.cert
            v.attests.certified,
      )
