-- ===== src/Tsa/Genuine.antt =====
-- What `verify_token` accepts.
use sealr_verify.Common.{
  ℕ, suc, ◌≡◌, refl, sym, ◌∙◌, ap, ◌⊎◌, inl, inr, Bool, true, false, Bool-cases, Option, none, some,
  List, [], ◌∷◌, get_elem?, All, take, arith,
}
use sealr_verify.Common.Text.{Bytes, str_eq, str_eq→eq}
use sealr_verify.Common.Result.{
  some_unique, ok, >>=-eq-ok, ok_injective, or_error, require, or_error-ok, require-ok,
}
use sealr_verify.Deps.{Digests}
use sealr_verify.Deps.Tokens.{
  Tokens, Padding, SignerIdentifier, issuer_and_serial_number, subject_key_identifier,
}
use sealr_verify.Tsa.{
  VerifiedToken, parse, unsupported_algorithm, imprint_mismatch, signature_invalid,
  signer_cert_missing, oid_signed_data, oid_sha256, oid_message_digest, first_of, retag, is_rsa,
  padding_of, parse_token, is_signer, find_among, find_signer_cert, digest_bytes, attribute_matches,
  check_digest, rsa_key_from_spki, verify_rsa, verify_cms_signature, gen_time_text, verify_token,
}

module _ ⦃t : Tokens⦄ ⦃d : Digests⦄ where
  -- a digest that a signed attribute carries
  pub record IsCarried (digest : Bytes) (attrs : List t.Attribute) : Type 0 where
    pub index : ℕ
    pub attribute : t.Attribute
    pub listed : get_elem? attrs index ≡ some attribute
    pub message_digest : str_eq (t.attribute_oid attribute) oid_message_digest ≡ true
    pub value : t.Any
    pub first_value : first_of (t.attribute_values attribute) ≡ some value
    pub carried : t.octet_string value ≡ some digest

  -- The certificate at this place is one that the signer's identifier names. An identifier of the
  -- key names no certificate in this code: it is the first certificate of the token.
  abbrev pub IsNamed :
      SignerIdentifier t.Name t.Serial → List (Option t.Certificate) → ℕ → t.Certificate → Type 0
  IsNamed (issuer_and_serial_number issuer serial) certs i cert =
      (t.same_serial (t.serial_number cert) serial ≡ true)
      × (t.same_name (t.issuer cert) issuer ≡ true)
  IsNamed subject_key_identifier certs i cert = All (λ c. c ≡ none) (take i certs)

  -- The signed attributes carry the digest of the contents, and the signature over them verifies
  -- under the key of the certificate.
  pub record IsSigned (signer : t.SignerInfo) (cert : t.Certificate) (contents : Bytes)
      : Type 0 where
    pub attrs : t.SignedAttributes
    pub attrs_read : t.signed_attrs signer ≡ some attrs
    pub digest : Bytes
    pub digested : digest_bytes (t.digest_alg signer) contents ≡ ok digest
    pub carried : IsCarried digest (t.attributes attrs)
    pub attrs_der : Bytes
    pub encoded : t.attributes_der attrs ≡ some attrs_der
    pub signed_digest : Bytes
    pub attrs_digested : digest_bytes (t.digest_alg signer) (retag attrs_der) ≡ ok signed_digest
    pub spki : Bytes
    pub spki_read : t.spki_der cert ≡ some spki
    pub key : t.RsaPublicKey
    pub key_read : t.rsa_key spki ≡ some key
    pub padding : Padding
    pub padded : padding_of (t.digest_alg signer) ≡ ok padding
    pub verified : t.rsa_verify key padding signed_digest (t.signature signer) ≡ true

  pub record IsGenuine (token expected : Bytes) (v : VerifiedToken) : Type 0 where
    pub content_info : t.ContentInfo
    pub signed_data : t.SignedData
    pub econtent : t.Any
    pub contents : Bytes
    pub tst_info : t.TstInfo
    pub signer : t.SignerInfo
    pub certs : List (Option t.Certificate)
    pub cert_index : ℕ
    pub cert : t.Certificate
    pub parsed : parse_token token ≡ ok content_info
    pub type_is : str_eq (t.content_type content_info) oid_signed_data ≡ true
    pub data_read : t.signed_data content_info ≡ some signed_data
    pub econtent_read : t.econtent signed_data ≡ some econtent
    pub contents_read : t.octet_string econtent ≡ some contents
    pub info_read : t.tst_info contents ≡ some tst_info
    pub imprint_sha256 : str_eq (t.imprint_algorithm tst_info) oid_sha256 ≡ true
    pub imprint : t.hashed_message tst_info ≡ expected
    pub time : gen_time_text tst_info ≡ ok v.gen_time
    pub signer_read : first_of (t.signer_infos signed_data) ≡ some signer
    pub certs_read : t.certificates signed_data ≡ some certs
    pub cert_listed : get_elem? certs cert_index ≡ some (some cert)
    pub named : IsNamed (t.sid signer) certs cert_index cert
    pub subject : v.signer_subject ≡ t.subject cert
    pub signed : IsSigned signer cert contents
    pub flagged : v.signature_verified ≡ true

  IsNamed-later :
      (sid : SignerIdentifier t.Name t.Serial) (c : Option t.Certificate)
      (choices : List (Option t.Certificate)) (i : ℕ) (cert : t.Certificate)
      → ((c ≡ none) ⊎ ((one : t.Certificate) × (is_signer sid one ≡ false)))
      → IsNamed sid choices i cert
      → IsNamed sid (c ∷ choices) (suc i) cert
  unfolding is_signer
  IsNamed-later (issuer_and_serial_number issuer serial) c choices i cert passed is = is
  IsNamed-later subject_key_identifier c choices i cert (inl unread) is = (unread, is)
  IsNamed-later subject_key_identifier c choices i cert (inr (one, not_it)) is =
      absurd (cc (not_it))

  IsNamed-first :
      (sid : SignerIdentifier t.Name t.Serial) (choices : List (Option t.Certificate))
      (cert : t.Certificate)
      → is_signer sid cert ≡ true
      → IsNamed sid choices 0 cert
  unfolding is_signer
  IsNamed-first (issuer_and_serial_number issuer serial) choices cert it = ground (arith, it)
  IsNamed-first subject_key_identifier choices cert it = tt

  find_among_sound :
      (sid : _) (choices : List (Option t.Certificate)) {cert : t.Certificate}
      → find_among sid choices ≡ ok cert
      → (i : ℕ) × (get_elem? choices i ≡ some (some cert)) × IsNamed sid choices i cert
  unfolding find_among
  find_among_sound sid [] h = absurd (cc)
  find_among_sound sid (none ∷ choices) h =
      let (i, listed, is) = find_among_sound sid choices h in
      (suc i, listed, IsNamed-later sid none choices i _ (inl refl) is)
  find_among_sound sid (some c ∷ choices) {cert} h = elim (Bool-cases (is_signer sid c)) [
    | inl it ↦
        let same : c ≡ cert = ok_injective (rw it at h) in
        (0, ap (λ z. some (some z)) same, IsNamed-first sid (some c ∷ choices) cert (rw same at it))
    | inr not_it ↦
        let (i, listed, is) = find_among_sound sid choices (rw not_it at h) in
        (suc i, listed, IsNamed-later sid (some c) choices i _ (inr (c, not_it)) is)
  ]

  IsCarried-later :
      (digest : Bytes) (attr : t.Attribute) (attrs : List t.Attribute)
      → IsCarried digest attrs
      → IsCarried digest (attr ∷ attrs)
  IsCarried-later digest attr attrs c = record {
    index = suc c.index;
    attribute = c.attribute;
    listed = c.listed;
    message_digest = c.message_digest;
    value = c.value;
    first_value = c.first_value;
    carried = c.carried;
  }

  -- one attribute: its value is the digest, or the answer of before stays
  attribute_matches_sound :
      (digest : Bytes) (values : List t.Any) (before : Bool)
      → attribute_matches digest values before ≡ ok true
      → ((value : t.Any) × (first_of values ≡ some value) × (t.octet_string value ≡ some digest))
        ⊎ (before ≡ true)
  unfolding attribute_matches
  attribute_matches_sound digest [] before h = inr (ok_injective h)
  attribute_matches_sound digest (v ∷ values) before h =
      let (od, read, same) = >>=-eq-ok (or_error parse (t.octet_string v)) _ h in
      let equal = str_eq→eq od digest (ok_injective same) in
      inl (v, refl, or_error-ok _ (t.octet_string v) read ∙ ap some equal)

  check_digest_sound :
      (digest : Bytes) (attrs : List t.Attribute) (before : Bool)
      → check_digest digest attrs before ≡ ok true
      → IsCarried digest attrs ⊎ (before ≡ true)
  unfolding check_digest
  check_digest_sound digest [] before h = inr (ok_injective h)
  check_digest_sound digest (attr ∷ attrs) before h =
      elim (Bool-cases (str_eq (t.attribute_oid attr) oid_message_digest)) [
        | inr other ↦ elim (check_digest_sound digest attrs before (rw other at h)) [
          | inl c ↦ inl (IsCarried-later digest attr attrs c)
          | inr b ↦ inr b
        ]
        | inl it ↦
            let (now, first, rest) =
              >>=-eq-ok (attribute_matches digest (t.attribute_values attr) before) _
                (rw it at h) in
            elim (check_digest_sound digest attrs now rest) [
              | inl c ↦ inl (IsCarried-later digest attr attrs c)
              | inr b ↦ elim (attribute_matches_sound digest _ before (rw b at first)) [
                | inr b' ↦ inr b'
                | inl (value, is_first, carried) ↦ inl (record {
                  index = 0;
                  attribute = attr;
                  listed = refl;
                  message_digest = it;
                  value = value;
                  first_value = is_first;
                  carried = carried;
                })
              ]
            ]
      ]

  verify_cms_signature_sound :
      (signer : t.SignerInfo) (cert : t.Certificate) (contents : Bytes) {u : Unit {0}}
      → verify_cms_signature signer cert contents ≡ ok u
      → IsSigned signer cert contents
  unfolding verify_cms_signature verify_rsa rsa_key_from_spki
  verify_cms_signature_sound signer cert contents h0 =
      let (attrs, p0, h1) = >>=-eq-ok (or_error parse (t.signed_attrs signer)) _ h0 in
      let (digest, p1, h2) = >>=-eq-ok (digest_bytes (t.digest_alg signer) contents) _ h1 in
      let (md_ok, p2, h3) = >>=-eq-ok (check_digest digest (t.attributes attrs) false) _ h2 in
      let (u, p3, h4) = >>=-eq-ok (require signature_invalid md_ok) _ h3 in
      let (der, p4, h5) = >>=-eq-ok (or_error parse (t.attributes_der attrs)) _ h4 in
      let (sd, p5, h6) = >>=-eq-ok (digest_bytes (t.digest_alg signer) (retag der)) _ h5 in
      let (w, p6, h7) =
        >>=-eq-ok (require unsupported_algorithm (is_rsa (t.signature_algorithm signer))) _ h6 in
      let (spki, p7, h8) = >>=-eq-ok (or_error parse (t.spki_der cert)) _ h7 in
      let (key, p8, h9) = >>=-eq-ok (or_error parse (t.rsa_key spki)) _ h8 in
      let (padding, p9, h10) = >>=-eq-ok (padding_of (t.digest_alg signer)) _ h9 in
      let is_ok : md_ok ≡ true = require-ok _ md_ok p3 in
      record {
        attrs = attrs;
        attrs_read = or_error-ok _ (t.signed_attrs signer) p0;
        digest = digest;
        digested = p1;
        carried = elim (check_digest_sound digest (t.attributes attrs) false (p2 ∙ ap ok is_ok)) [
          | inl c ↦ c
          | inr impossible ↦ absurd (cc (impossible))
        ];
        attrs_der = der;
        encoded = or_error-ok _ (t.attributes_der attrs) p4;
        signed_digest = sd;
        attrs_digested = p5;
        spki = spki;
        spki_read = or_error-ok _ (t.spki_der cert) p7;
        key = key;
        key_read = or_error-ok _ (t.rsa_key spki) p8;
        padding = padding;
        padded = p9;
        verified = require-ok _ _ h10;
      }

  -- A token that is accepted for a digest holds a timestamp of this SHA-256 digest at the time that
  -- is returned, and the key of a certificate in the token verifies the RSA signature over
  -- attributes that carry the digest of the timestamp. It is a certificate with the issuer and the
  -- serial number that the signer is identified by; for a signer that is identified by its key it is
  -- the first certificate of the token, whatever its key.
  pub verify_token_sound :
      (token expected : Bytes) (v : VerifiedToken)
      → verify_token token expected ≡ ok v
      → IsGenuine token expected v
  unfolding verify_token find_signer_cert
  verify_token_sound token expected v h0 =
      let (ci, p0, h1) = >>=-eq-ok (parse_token token) _ h0 in
      let (a, p1, h2) =
        >>=-eq-ok (require parse (str_eq (t.content_type ci) oid_signed_data)) _ h1 in
      let (sd, p2, h3) = >>=-eq-ok (or_error parse (t.signed_data ci)) _ h2 in
      let (ec, p3, h4) = >>=-eq-ok (or_error parse (t.econtent sd)) _ h3 in
      let (tb, p4, h5) = >>=-eq-ok (or_error parse (t.octet_string ec)) _ h4 in
      let (ti, p5, h6) = >>=-eq-ok (or_error parse (t.tst_info tb)) _ h5 in
      let (b, p6, h7) =
        >>=-eq-ok (require unsupported_algorithm (str_eq (t.imprint_algorithm ti) oid_sha256)) _
          h6 in
      let (c, p7, h8) =
        >>=-eq-ok (require imprint_mismatch (str_eq (t.hashed_message ti) expected)) _ h7 in
      let (time, p8, h9) = >>=-eq-ok (gen_time_text ti) _ h8 in
      let (si, p9, h10) = >>=-eq-ok (or_error parse (first_of (t.signer_infos sd))) _ h9 in
      let (cert, p10, h11) = >>=-eq-ok (find_signer_cert sd si) _ h10 in
      let (u, p11, out) = >>=-eq-ok (verify_cms_signature si cert tb) _ h11 in
      let (certs, q0, q1) = >>=-eq-ok (or_error signer_cert_missing (t.certificates sd)) _ p10 in
      let (i, listed, is) = find_among_sound (t.sid si) certs q1 in
      let same = ok_injective out in
      record {
        content_info = ci;
        signed_data = sd;
        econtent = ec;
        contents = tb;
        tst_info = ti;
        signer = si;
        certs = certs;
        cert_index = i;
        cert = cert;
        parsed = p0;
        type_is = require-ok _ _ p1;
        data_read = or_error-ok _ _ p2;
        econtent_read = or_error-ok _ _ p3;
        contents_read = or_error-ok _ _ p4;
        info_read = or_error-ok _ _ p5;
        imprint_sha256 = require-ok _ _ p6;
        imprint = str_eq→eq _ _ (require-ok _ _ p7);
        time = p8 ∙ ap (λ (x : VerifiedToken). ok x.gen_time) same;
        signer_read = or_error-ok _ _ p9;
        certs_read = or_error-ok _ _ q0;
        cert_listed = listed;
        named = is;
        subject = ap (λ (x : VerifiedToken). x.signer_subject) (sym same);
        signed = verify_cms_signature_sound si cert tb p11;
        flagged = ap (λ (x : VerifiedToken). x.signature_verified) (sym same);
      }

  -- One token is accepted for one digest.
  pub verify_token_binding :
      (token expected expected' : Bytes) (v v' : VerifiedToken)
      → verify_token token expected ≡ ok v
      → verify_token token expected' ≡ ok v'
      → expected ≡ expected'
  verify_token_binding token expected expected' v v' h h' =
      let g = verify_token_sound token expected v h in
      let g' = verify_token_sound token expected' v' h' in
      let infos = ok_injective (sym g.parsed ∙ g'.parsed) in
      let datas = some_unique g.data_read (ap t.signed_data infos ∙ g'.data_read) in
      let contents = some_unique g.econtent_read (ap t.econtent datas ∙ g'.econtent_read) in
      let bytes = some_unique g.contents_read (ap t.octet_string contents ∙ g'.contents_read) in
      let tsts = some_unique g.info_read (ap t.tst_info bytes ∙ g'.info_read) in
      sym g.imprint ∙ (ap t.hashed_message tsts ∙ g'.imprint)
