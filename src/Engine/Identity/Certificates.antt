-- ===== src/Engine/Identity/Certificates.antt =====
-- What stands in the map of certificates.
use sealr_verify.Common.{ℕ, suc, ◌≡◌, refl, ◌⊎◌, inl, inr, some, List, [], ◌∷◌, map, get_elem?}
use sealr_verify.Common.Int.{ℤ}
use sealr_verify.Common.Text.{Bytes, Str}
use sealr_verify.Common.Result.{Result, ok, err, EvidenceError}
use sealr_verify.Deps.{Digests, Ed25519}
use sealr_verify.Deps.X509.{X509}
use sealr_verify.Certs.{ValidatedCert, parse_pem_chain, validate_chain}
use sealr_verify.Certs.Accepted.{IsAccepted, validate_chain_iff}
use sealr_verify.Report.{Finding}
use sealr_verify.Engine.{str_get}
use sealr_verify.Engine.Base64.{der_to_pem}
use sealr_verify.Engine.Maps.{str_get-str_insert}
use sealr_verify.Engine.Identity.{
  CertMap, join_lines, others, add_cert, add_certs, build_from, build_cert_map,
}

module _ ⦃x : X509⦄ ⦃d : Digests⦄ ⦃e : Ed25519⦄ where
  -- a certificate that is validated under the root with the help of the others
  pub record IsValidated (all : List Str) (root_pem : Str) (now_unix : ℤ) (fp : Str)
      (v : ValidatedCert) : Type 0 where
    pub index : ℕ
    pub pem : Str
    pub listed : get_elem? all index ≡ some pem
    pub accepted : IsAccepted pem (others pem all) root_pem now_unix v
    pub named : v.fingerprint ≡ fp

  module _ (all : List Str) (root_pem : Str) (now_unix : ℤ) (fp : Str) (v : ValidatedCert) where
    -- a certificate of the map after a turn is one from before or the one of the turn
    add_cert_sound :
        (r : Result EvidenceError ValidatedCert) (s : List Finding × CertMap)
        → str_get fp (add_cert r s).1 ≡ some v
        → ((r ≡ ok v) × (v.fingerprint ≡ fp)) ⊎ (str_get fp s.1 ≡ some v)
    unfolding add_cert
    add_cert_sound (err problem) s h = inr h
    add_cert_sound (ok validated) s h =
        elim (str_get-str_insert validated.fingerprint fp validated s.1 h) [
          | inl (named, same) ↦ inl (rw same refl, rw same at named)
          | inr old ↦ inr old
        ]

    add_certs_sound :
        (pems : List Str) (s : List Finding × CertMap)
        → ((i : ℕ) (p : Str) → get_elem? pems i ≡ some p → (j : ℕ) × (get_elem? all j ≡ some p))
        → str_get fp (add_certs all root_pem now_unix pems s).1 ≡ some v
        → IsValidated all root_pem now_unix fp v ⊎ (str_get fp s.1 ≡ some v)
    unfolding add_certs
    add_certs_sound [] s within h = inr h
    add_certs_sound (pem ∷ pems) s within h =
        let r = validate_chain pem (others pem all) root_pem now_unix in
        elim (add_certs_sound pems (add_cert r s) (λ i p q. within (suc i) p q) h) [
          | inl found ↦ inl found
          | inr before ↦ elim (add_cert_sound r s before) [
            | inr old ↦ inr old
            | inl (accepted, named) ↦
                let (j, listed) = within 0 pem refl in
                inl (record {
                  index = j;
                  pem = pem;
                  listed = listed;
                  accepted =
                      (validate_chain_iff pem (others pem all) root_pem now_unix v).0 accepted;
                  named = named;
                })
          ]
        ]

  -- A certificate in the map that `build_cert_map` makes from a bundle's certificates is listed in
  -- the bundle under its fingerprint, and has a chain through the others to the first of the roots.
  pub build_cert_map_sound :
      (certs_pem : Str) (root_pems : List Str) (now_unix : ℤ) (findings : List Finding) (fp : Str)
      (v : ValidatedCert)
      → str_get fp (build_cert_map (some certs_pem) root_pems now_unix findings).1 ≡ some v
      → (ders : Bytes × List Bytes) × (parse_pem_chain certs_pem ≡ ok ders)
        × IsValidated (map der_to_pem (ders.0 ∷ ders.1)) (join_lines root_pems) now_unix fp v
  unfolding build_cert_map build_from str_get
  build_cert_map_sound certs_pem [] now_unix findings fp v h = absurd (cc)
  build_cert_map_sound certs_pem (p ∷ pems) now_unix findings fp v h =
      split (parse_pem_chain certs_pem) refl h
    where
      split :
          (out : Result EvidenceError (Bytes × List Bytes))
          → parse_pem_chain certs_pem ≡ out
          → str_get fp (build_from out (join_lines (p ∷ pems)) now_unix findings).1 ≡ some v
          → (ders : Bytes × List Bytes) × (parse_pem_chain certs_pem ≡ ok ders)
            × IsValidated (map der_to_pem (ders.0 ∷ ders.1)) (join_lines (p ∷ pems)) now_unix fp v
      split (err problem) parsed g = absurd (cc (g))
      split (ok ders) parsed g =
          let single_pems = map der_to_pem (ders.0 ∷ ders.1) in
          elim (add_certs_sound single_pems (join_lines (p ∷ pems)) now_unix fp v single_pems
            (findings, []) (λ i p listed. (i, listed)) g) [
              | inl found ↦ (ders, parsed, found)
              | inr impossible ↦ absurd (cc (impossible))
            ]
