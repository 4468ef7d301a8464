-- ===== src/Bundle/Writer/Finish.antt =====
-- What `finish` leaves in the container: the entries before it, the readme and the manifest.
use sealr_verify.Common.{subst, ◌≡◌, ap, ◌∙◌, Option, List, [], ◌∷◌, ◌++◌}
use sealr_verify.Common.Text.{Bytes, Str, codes, utf8}
use sealr_verify.Common.Result.{ok_injective, Result, ok, err, EvidenceError}
use sealr_verify.Common.Run.{>>=-succeeds, lift-succeeds}
use sealr_verify.Deps.{Digests}
use sealr_verify.Deps.Archives.{ZipError, Zips, Zstd}
use sealr_verify.Jcs.{to_jcs_bytes}
use sealr_verify.Bundle.Manifest.{ExportLevel, Manifest, manifest_value, jcs_hash}
use sealr_verify.Bundle.Writer.{
  BundleWriter, Pretty, finished, start_file, write_all, write_entry, close_records, or_evidence,
  or_zip,
}
use sealr_verify.Bundle.Writer.Documents.{manifest_of, write_manifest, finish_zip, finish}
use sealr_verify.Bundle.Writer.Keeps.{Stable, Keeps-close_records}
use sealr_verify.Bundle.Writer.Listed.{start_file_ok, write_all_ok}
use sealr_verify.Bundle.Writer.Readme.{verify_md_template}
use sealr_verify.Bundle.Writer.Paths.{ContentPath}

or_evidence_ok : {A : Type 0} (r : Result EvidenceError A) {a : A} → or_evidence r ≡ ok a → r ≡ ok a
or_evidence_ok (ok x) h = cc
or_evidence_ok (err x) h = absurd (cc)

or_zip_ok : {A : Type 0} (r : Result ZipError A) {a : A} → or_zip r ≡ ok a → r ≡ ok a
or_zip_ok (ok x) h = cc
or_zip_ok (err x) h = absurd (cc)

module _ ⦃z : Zips⦄ ⦃d : Digests⦄ where
  -- the container that a finished bundle is, over the writer `w` that the manifest is made from
  pub record IsFinished (w : BundleWriter) (manifest : Manifest) (hash : Str) (target : z.Target)
      : Type 0 where
    pub manifest_bytes : Bytes
    pub printed : to_jcs_bytes (manifest_value manifest) ≡ ok manifest_bytes
    pub hashed : jcs_hash manifest ≡ ok hash
    pub writer : z.ZipWriter
    pub finishes : z.finish writer ≡ ok target
    pub holds :
        z.entries writer ≡ z.entries w.zip_writer ++ (codes "manifest.json", manifest_bytes) ∷ []

module _ ⦃z : Zips⦄ ⦃p : Pretty⦄ ⦃d : Digests⦄ where
  pub write_manifest_ok :
      (m n : Manifest) (w v : BundleWriter) (hash : Str) (target : z.Target)
      → write_manifest m w ≡ (ok (n, hash, target), v)
      → (m ≡ n) × IsFinished w m hash target
  unfolding write_manifest finish_zip
  write_manifest_ok m n w v hash target h =
      let (hs, e1, h1) = lift-succeeds (or_evidence (jcs_hash m)) _ w v h in
      let (bytes, e2, h2) =
        lift-succeeds (or_evidence (to_jcs_bytes (manifest_value m))) _ w v h1 in
      let (a, w1, e3, h3) = >>=-succeeds (start_file (codes "manifest.json")) _ w v h2 in
      let (b, w2, e4, h4) = >>=-succeeds (write_all bytes) _ w1 v h3 in
      let (t, w4, e6, h6) = >>=-succeeds finish_zip _ (record w2 { phase = finished }) v h4 in
      let started = start_file_ok _ w w1 e3 in
      let written = write_all_ok bytes w1 w2 _ _ e4 started.1 in
      let out : (m, hs, t) ≡ (n, hash, target) = ok_injective (ap (λ o. o.0) h6) in
      let zipped : z.finish w2.zip_writer ≡ ok t = or_zip_ok _ (ap (λ o. o.0) e6) in
      (
        ap (λ o. o.0) out,
        record {
          manifest_bytes = bytes;
          printed = or_evidence_ok _ e2;
          hashed = or_evidence_ok _ e1 ∙ ap (λ o. ok o.1) out;
          writer = w2.zip_writer;
          finishes = zipped ∙ ap (λ o. ok o.2) out;
          holds = written.1;
        },
      )

module _ ⦃z : Zips⦄ ⦃c : Zstd⦄ ⦃p : Pretty⦄ ⦃d : Digests⦄ {P : BundleWriter → Type 0}
    (st : Stable P) where
  -- `finish` writes the manifest of a state that it reaches by entries and a change of the phase,
  -- and returns it with its hash.
  pub finish_ok :
      (level : ExportLevel) (from to : Option Str) (resources : List Str) (w v : BundleWriter)
      (n : Manifest) (hash : Str) (target : z.Target)
      → P w
      → finish level from to resources w ≡ (ok (n, hash, target), v)
      → (u : BundleWriter) × P u
        × (manifest_of u level from to resources ≡ n)
        × IsFinished u n hash target
  unfolding finish
  finish_ok level from to resources w v n hash target l h =
      let (a, w1, e1, h1) = >>=-succeeds close_records _ w v h in
      let (b, w2, e2, h2) =
        >>=-succeeds (write_entry (codes "VERIFY.md") (utf8 (verify_md_template w1.tool))) _ w1 v
          h1 in
      let l1 = Keeps-close_records st w w1 a l e1 in
      let l2 = st.on_entry _ _ ContentPath.readme w1 w2 b l1 e2 in
      let (same, done) = write_manifest_ok _ n w2 v hash target h2 in
      (w2, l2, same, subst (λ x. IsFinished w2 x hash target) same done)
