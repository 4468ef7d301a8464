-- ===== src/Keys/Pem.antt =====
-- The PEM forms of the keys.
use sealr_verify.Common.{Option, none, some}
use sealr_verify.Common.Text.{Bytes, Str}
use sealr_verify.Common.Result.{Result, ok, err, EvidenceError, key}
use sealr_verify.Deps.{KeyPems}
use sealr_verify.Keys.{SigningKey, VerifyingKey}

-- `map_err` to an error of the kind `Key`
abbrev pub or_key {ℓ} : {A : Type ℓ} → Option A → Result EvidenceError A
or_key none = err key
or_key (some a) = ok a

abbrev pub seed_key : Option Bytes → Result EvidenceError SigningKey
seed_key none = err key
seed_key (some seed) = ok (record { seed = seed })

abbrev pub public_key : Option Bytes → Result EvidenceError VerifyingKey
public_key none = err key
public_key (some bytes) = ok (record { as_bytes = bytes })

module _ ⦃k : KeyPems⦄ where
  unfoldable pub to_pkcs8_pem : SigningKey → Result EvidenceError Str
  to_pkcs8_pem s = or_key (k.to_pkcs8_pem s.seed)

  unfoldable pub from_pkcs8_pem : Str → Result EvidenceError SigningKey
  from_pkcs8_pem pem = seed_key (k.from_pkcs8_pem pem)

  unfoldable pub to_spki_pem : VerifyingKey → Result EvidenceError Str
  to_spki_pem v = or_key (k.to_public_key_pem v.as_bytes)

  unfoldable pub from_spki_pem : Str → Result EvidenceError VerifyingKey
  from_spki_pem pem = public_key (k.from_public_key_pem pem)
