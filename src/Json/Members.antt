-- ===== src/Json/Members.antt =====
-- Reading and removing members through optional fields.
use sealr_verify.Common.{◌≡◌, refl, false, Option, none, some}
use sealr_verify.Common.Text.{Str, str_eq}
use sealr_verify.Json.{Value, Fields, get, remove, put_opt}

pub get-put_opt_ne :
    (k j : Str) (o : Option Value) (fs : Fields)
    → str_eq j k ≡ false
    → get k (put_opt j o fs) ≡ get k fs
unfolding get put_opt
get-put_opt_ne k j none fs h = refl
get-put_opt_ne k j (some v) fs h = rw h

pub remove-put_opt_ne :
    (k j : Str) (o : Option Value) (fs : Fields)
    → str_eq j k ≡ false
    → remove k (put_opt j o fs) ≡ put_opt j o (remove k fs)
unfolding remove put_opt
remove-put_opt_ne k j none fs h = refl
remove-put_opt_ne k j (some v) fs h = rw h
