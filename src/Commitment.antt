-- ===== src/Commitment.antt =====
-- crates/evidence/src/commitment.rs: salted commitments to payloads.
pub mod Binding
use sealr_verify.Common.{Bool, ◌&&◌, ◌++◌}
use sealr_verify.Common.Text.{Bytes, Str, codes, str_eq}
use sealr_verify.Common.Result.{Result, EvidenceError, invalid_hex, ◌>>=◌}
use sealr_verify.Deps.{Digests}
use sealr_verify.Hash.{hex_encode, hex_decode, try_into, blake3_hex}
use sealr_verify.Record.Types.{PayloadCommitment}

abbrev pub commitment_alg : Str
commitment_alg = codes "blake3-salted"

-- `Salt`: an array of 32 bytes
abbrev pub Salt : Type 0
Salt = Bytes

unfoldable pub salt_to_hex : Salt → Str
salt_to_hex salt = hex_encode salt

unfoldable pub salt_from_hex : Str → Result EvidenceError Salt
unfolding try_into
salt_from_hex hex = do v ← hex_decode hex; try_into 32 invalid_hex v

module _ ⦃d : Digests⦄ where
  unfoldable pub commit : Bytes → Salt → PayloadCommitment
  commit payload salt = record { alg = commitment_alg; commitment = blake3_hex (salt ++ payload) }

  unfoldable pub verify_commitment : Bytes → Salt → PayloadCommitment → Bool
  unfolding commit
  verify_commitment payload salt c =
      str_eq c.alg commitment_alg && str_eq (commit payload salt).commitment c.commitment
