-- ===== src/Tests/Numbers.antt =====
-- A number in canonical JSON.
use sealr_verify.Common.{ℕ, ◌≤◌, ◌≡◌, refl, Bool, ◌&&◌, ltb}
use sealr_verify.Common.Text.{codes}
use sealr_verify.Common.Result.{ok}
use sealr_verify.Json.{neg_int}
use sealr_verify.Jcs.{write_number, max_safe_integer, decimal}
use sealr_verify.Jcs.Numbers.{IsInteger, read_int, write_number_sound}

minus_five : write_number (neg_int 5) ≡ ok (codes "-5")
unfolding write_number decimal
minus_five = refl

write_number_sound_example :
    (negative : Bool) × (m : ℕ) × IsInteger (neg_int 5) negative m
    × (m ≤ max_safe_integer)
    × (read_int (codes "-5") ≡ (negative && ltb 0 m, m))
write_number_sound_example = write_number_sound (neg_int 5) (codes "-5") minus_five
