-- ===== src/Tests/Certificates.antt =====
-- Certificates, tokens and console keys on small inputs.
use sealr_verify.Common.{true, ◌≡◌, ◌↔◌, refl, none, some, [], ◌∷◌, ◌++◌}
use sealr_verify.Common.Int.{ℤ}
use sealr_verify.Common.Text.{utf16, str_eq, codes, utf8}
use sealr_verify.Common.Result.{ok}
use sealr_verify.Hash.{try_into, blake3_hex, blake3_raw, hex_decode, hex_encode}
use sealr_verify.Jcs.{write_members, sort_members, lex_le, write_string, to_jcs_bytes}
use sealr_verify.Keys.{verify_jcs, verify_digest, sign_digest, from_bytes, verifying_key, sign_jcs}
use sealr_verify.Keys.Pem.{from_spki_pem}
use sealr_verify.Certs.{
  common_name, extract_ed25519_key, is_ca, verify_signed_by, check_last, walk_up, check_validity,
  pool_of, certificate_blocks, parse_pem_chain, ValidatedCert, validate_chain,
}
use sealr_verify.Certs.Accepted.{IsAccepted, validate_chain_iff}
use sealr_verify.Tsa.{
  padding_of, rsa_key_from_spki, verify_rsa, is_rsa, attribute_matches, check_digest, digest_bytes,
  verify_cms_signature, is_signer, find_among, find_signer_cert, gen_time_text, parse_token,
  VerifiedToken, verify_token,
}
use sealr_verify.Tsa.Genuine.{IsGenuine, verify_token_sound}
use sealr_verify.Bundle.Types.{RootsFile, ConsoleKeyStatement, statement_value}
use sealr_verify.Report.{pass, compute_result}
use sealr_verify.Engine.{str_insert, str_get}
use sealr_verify.Engine.Trust.{VerifyOptions}
use sealr_verify.Engine.Identity.{
  add_entries, add_entry, add_key, any_root, keys_of_ders, resolve_console_keys, root_keys,
}
use sealr_verify.Engine.Identity.ConsoleKeys.{IsAttested, resolve_console_keys_sound}
use sealr_verify.Tests.Toy.{toy_digests, toy_ed25519, toy_hash, toy_verify, toy_sign}
use sealr_verify.Tests.Files.{a_key, value_or_nil}
use sealr_verify.Tests.Libraries.{toy_x509, toy_pems, toy_tokens}

abbrev validated : ValidatedCert
validated = record {
  subject_common_name = codes "n";
  public_key = verifying_key a_key;
  fingerprint = blake3_hex (codes "leaf");
  not_before_unix = ℤ.pos 0;
  not_after_unix = ℤ.pos 100;
}

validate_chain_runs :
    validate_chain (codes "leaf") (codes "other" ∷ []) (codes "root") (ℤ.pos 5) ≡ ok validated
unfolding validate_chain parse_pem_chain certificate_blocks str_eq pool_of check_validity walk_up
    check_last verify_signed_by is_ca extract_ed25519_key from_bytes toy_hash common_name
    verifying_key utf8
validate_chain_runs = refl

validate_chain_iff_example :
    (validate_chain (codes "leaf") (codes "other" ∷ []) (codes "root") (ℤ.pos 5) ≡ ok validated)
    ↔ IsAccepted (codes "leaf") (codes "other" ∷ []) (codes "root") (ℤ.pos 5) validated
validate_chain_iff_example =
    validate_chain_iff (codes "leaf") (codes "other" ∷ []) (codes "root") (ℤ.pos 5) validated

abbrev token : VerifiedToken
token = record { gen_time = codes "t"; signer_subject = codes "tsa"; signature_verified = true }

verify_token_runs : verify_token (4 ∷ 5 ∷ []) (4 ∷ 5 ∷ []) ≡ ok token
unfolding verify_token parse_token str_eq gen_time_text find_signer_cert find_among is_signer
    verify_cms_signature digest_bytes check_digest attribute_matches toy_hash is_rsa verify_rsa
    rsa_key_from_spki padding_of
verify_token_runs = refl

verify_token_sound_example : IsGenuine (4 ∷ 5 ∷ []) (4 ∷ 5 ∷ []) token
verify_token_sound_example = verify_token_sound (4 ∷ 5 ∷ []) (4 ∷ 5 ∷ []) token verify_token_runs

abbrev options : VerifyOptions
options = record {
  root_pem_override = none;
  console_key_override = none;
  now_unix = none;
  expected_high_water = [];
}

abbrev statement : ConsoleKeyStatement
statement = record {
  key_id = codes "k";
  public_key_pem = codes "p";
  not_before = [];
  not_after = [];
}

abbrev console_file : RootsFile
console_file = record {
  roots = [];
  console_keys =
      record {
        statement = statement;
        signature = some (value_or_nil (sign_jcs a_key (statement_value statement)));
        root_name = none;
      }
      ∷ [];
}

keys_resolved :
    (compute_result
        ((resolve_console_keys options (some console_file) (codes "root" ∷ []) []).0 ++ [])
      ≡ pass)
    × (str_get
          (codes "k")
          (resolve_console_keys options (some console_file) (codes "root" ∷ []) []).1
        ≡ some (record { as_bytes = codes "p" }))
unfolding compute_result resolve_console_keys add_entries add_entry from_spki_pem add_key any_root
    root_keys keys_of_ders parse_pem_chain certificate_blocks extract_ed25519_key from_bytes
    verify_jcs sign_jcs verify_digest sign_digest to_jcs_bytes hex_decode hex_encode try_into utf8
    toy_verify toy_sign toy_hash str_eq statement_value write_members sort_members lex_le utf16
    blake3_raw write_string str_insert str_get
keys_resolved = (refl, refl)

resolve_console_keys_sound_example :
    IsAttested
      (root_keys (codes "root" ∷ []))
      console_file.console_keys
      (codes "k")
      (record { as_bytes = codes "p" })
resolve_console_keys_sound_example =
    resolve_console_keys_sound options console_file (codes "root" ∷ []) [] [] (codes "k")
      (record { as_bytes = codes "p" }) refl keys_resolved.0 keys_resolved.1
