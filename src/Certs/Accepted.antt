-- ===== src/Certs/Accepted.antt =====
-- What `validate_chain` accepts.
use sealr_verify.Common.{true, ◌∙◌, sym, subst, ap, ◌≡◌, ◌↔◌, ℕ, ◌≤◌, some, List}
use sealr_verify.Common.Int.{ℤ}
use sealr_verify.Common.Text.{Bytes, Str}
use sealr_verify.Common.Result.{
  ok, >>=-eq-ok, ok_injective, some_unique, certificate, or_error, or_error-ok, require-ok,
}
use sealr_verify.Deps.{Digests, Ed25519}
use sealr_verify.Deps.X509.{X509}
use sealr_verify.Hash.{blake3_hex}
use sealr_verify.Certs.{
  ValidatedCert, parse_pem_chain, pool_of, extract_ed25519_key, common_name, check_validity,
  walk_up, max_hops, validate_chain,
}
use sealr_verify.Certs.Chains.{Chain, walk_up_sound, walk_up_complete}

module _ ⦃x : X509⦄ ⦃d : Digests⦄ ⦃e : Ed25519⦄ where
  -- The first certificate of the leaf's text has a chain of at most 8 certificates up to the first
  -- certificate of the root's text, both are valid at the time, and it is what is described.
  pub record IsAccepted (leaf_pem : Str) (intermediates_pem : List Str) (root_pem : Str)
      (at_unix : ℤ) (v : ValidatedCert) : Type 0 where
    pub leaf_ders : Bytes × List Bytes
    pub root_ders : Bytes × List Bytes
    pub pool : List Bytes
    pub leaf : x.Certificate
    pub root : x.Certificate
    pub at : x.Time
    pub length : ℕ
    pub leaf_parsed : parse_pem_chain leaf_pem ≡ ok leaf_ders
    pub root_parsed : parse_pem_chain root_pem ≡ ok root_ders
    pub pool_parsed : pool_of intermediates_pem ≡ ok pool
    pub leaf_read : x.from_der leaf_ders.0 ≡ some leaf
    pub root_read : x.from_der root_ders.0 ≡ some root
    pub time_read : x.from_timestamp at_unix ≡ some at
    pub leaf_valid : x.is_valid_at leaf at ≡ true
    pub root_valid : x.is_valid_at root at ≡ true
    pub short : length ≤ max_hops
    pub chain : Chain at root pool length leaf
    pub key : extract_ed25519_key leaf ≡ ok v.public_key
    pub described : v ≡ record {
      subject_common_name = common_name leaf;
      public_key = v.public_key;
      fingerprint = blake3_hex leaf_ders.0;
      not_before_unix = x.not_before leaf;
      not_after_unix = x.not_after leaf;
    }

  module _ (leaf_pem : Str) (intermediates_pem : List Str) (root_pem : Str) (at_unix : ℤ) where
    validate_chain_sound :
        (v : ValidatedCert)
        → validate_chain leaf_pem intermediates_pem root_pem at_unix ≡ ok v
        → IsAccepted leaf_pem intermediates_pem root_pem at_unix v
    unfolding validate_chain check_validity
    validate_chain_sound v h0 =
        let (leaf_ders, p0, h1) = >>=-eq-ok (parse_pem_chain leaf_pem) _ h0 in
        let (root_ders, p1, h2) = >>=-eq-ok (parse_pem_chain root_pem) _ h1 in
        let (pool, p2, h3) = >>=-eq-ok (pool_of intermediates_pem) _ h2 in
        let (leaf, p3, h4) = >>=-eq-ok (or_error certificate (x.from_der leaf_ders.0)) _ h3 in
        let (root, p4, h5) = >>=-eq-ok (or_error certificate (x.from_der root_ders.0)) _ h4 in
        let (at, p5, h6) = >>=-eq-ok (or_error certificate (x.from_timestamp at_unix)) _ h5 in
        let (u, p6, h7) = >>=-eq-ok (check_validity leaf at) _ h6 in
        let (w, p7, h8) = >>=-eq-ok (check_validity root at) _ h7 in
        let (t, p8, h9) = >>=-eq-ok (walk_up at root pool max_hops leaf_ders.0) _ h8 in
        let (key, p9, out) = >>=-eq-ok (extract_ed25519_key leaf) _ h9 in
        let (n, leaf', bound, read', chain) = walk_up_sound at root pool max_hops leaf_ders.0 p8 in
        let read = or_error-ok _ (x.from_der leaf_ders.0) p3 in
        let same : leaf' ≡ leaf = some_unique read' read in
        let whole : v ≡ record {
          subject_common_name = common_name leaf;
          public_key = key;
          fingerprint = blake3_hex leaf_ders.0;
          not_before_unix = x.not_before leaf;
          not_after_unix = x.not_after leaf;
        } =
          sym (ok_injective out) in
        let its_key : v.public_key ≡ key = ap (λ (c : ValidatedCert). c.public_key) whole in
        record {
          leaf_ders = leaf_ders;
          root_ders = root_ders;
          pool = pool;
          leaf = leaf;
          root = root;
          at = at;
          length = n;
          leaf_parsed = p0;
          root_parsed = p1;
          pool_parsed = p2;
          leaf_read = read;
          root_read = or_error-ok _ (x.from_der root_ders.0) p4;
          time_read = or_error-ok _ (x.from_timestamp at_unix) p5;
          leaf_valid = require-ok _ _ p6;
          root_valid = require-ok _ _ p7;
          short = bound;
          chain = subst (λ c. Chain at root pool n c) same chain;
          key = p9 ∙ ap ok (sym its_key);
          described =
              whole
              ∙ ap
                  (λ k. record {
                    subject_common_name = common_name leaf;
                    public_key = k;
                    fingerprint = blake3_hex leaf_ders.0;
                    not_before_unix = x.not_before leaf;
                    not_after_unix = x.not_after leaf;
                  })
                  (sym its_key);
        }

    validate_chain_complete :
        (v : ValidatedCert)
        → IsAccepted leaf_pem intermediates_pem root_pem at_unix v
        → validate_chain leaf_pem intermediates_pem root_pem at_unix ≡ ok v
    unfolding validate_chain check_validity
    validate_chain_complete v a =
        let walked =
          walk_up_complete a.at a.root a.pool max_hops a.length a.leaf_ders.0 a.leaf a.leaf_read
            a.short a.chain in
        rw
          (
            a.leaf_parsed, a.root_parsed, a.pool_parsed, a.leaf_read, a.root_read, a.time_read,
            a.leaf_valid, a.root_valid, walked, a.key,
          )
          (ap ok (sym a.described))

    -- A leaf is accepted and described as `v` exactly if it has a chain of at most 8 certificates
    -- to the root: each is signed under the first certificate of the pool with its issuer's name,
    -- which is valid at the time and may issue certificates, as the root does for the last one; and
    -- leaf and root are valid at the time, and `v` is the leaf's name, key, fingerprint and times.
    pub validate_chain_iff :
        (v : ValidatedCert)
        → (validate_chain leaf_pem intermediates_pem root_pem at_unix ≡ ok v)
          ↔ IsAccepted leaf_pem intermediates_pem root_pem at_unix v
    validate_chain_iff v = (validate_chain_sound v, validate_chain_complete v)
