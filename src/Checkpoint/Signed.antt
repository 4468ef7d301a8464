-- ===== src/Checkpoint/Signed.antt =====
-- Signatures under checkpoints and countersignatures that the code makes are accepted.
use sealr_verify.Common.{ℕ, ◌≡◌, Option}
use sealr_verify.Common.Text.{Str}
use sealr_verify.Common.Result.{ok, >>=-eq-ok}
use sealr_verify.Deps.{Digests, Ed25519}
use sealr_verify.Keys.{SigningKey, verifying_key, sign_jcs}
use sealr_verify.Keys.RoundTrip.{verify_jcs-sign_jcs}
use sealr_verify.Checkpoint.{
  CheckpointNote, SignedCheckpoint, Countersignature, CountersignatureNote, note_value,
  countersignature_value, sign_note, verify, countersign, verify_countersignature,
}

module _ ⦃e : Ed25519⦄ ⦃d : Digests⦄ where
  -- A checkpoint that `sign_note` signs verifies under the public half of the recorder's key.
  pub verify-sign_note :
      (note : CheckpointNote) (k : SigningKey) (s : SignedCheckpoint)
      → sign_note note k ≡ ok s
      → verify s (verifying_key k) ≡ ok tt
  unfolding sign_note verify
  verify-sign_note note k s h =
      let (sig, signed, h2) = >>=-eq-ok (sign_jcs k (note_value note)) _ h in
      let same : record { note = note; signature = sig } ≡ s = cc in
      rw (← same) (verify_jcs-sign_jcs k (note_value note) sig signed)

  -- A countersignature that the console creates verifies under the public half of its key.
  pub verify_countersignature-countersign :
      (checkpoint_id received_at console_key_id : Str) (high_water : Option ℕ) (k : SigningKey)
      (c : Countersignature)
      → countersign checkpoint_id received_at console_key_id high_water k ≡ ok c
      → verify_countersignature c (verifying_key k) ≡ ok tt
  unfolding countersign verify_countersignature
  verify_countersignature-countersign checkpoint_id received_at console_key_id high_water k c h =
      let note : CountersignatureNote = record {
        checkpoint_id = checkpoint_id;
        received_at = received_at;
        console_key_id = console_key_id;
        stream_high_water_seq = high_water;
      } in
      let (sig, signed, h2) = >>=-eq-ok (sign_jcs k (countersignature_value note)) _ h in
      let same : record { note = note; signature = sig } ≡ c = cc in
      rw (← same) (verify_jcs-sign_jcs k (countersignature_value note) sig signed)
