-- ===== src/Json.antt =====
-- `serde_json::Value` as the crates use it: an object keeps the order in which its members were
-- inserted (the workspace turns `preserve_order` on), and a number is a u64, a negative i64 or a
-- finite double.
pub mod Members
use sealr_verify.Common.{
  ℕ, Bool, true, false, Option, none, some, List, [], ◌∷◌, if◌then◌else◌, map,
}
use sealr_verify.Common.Text.{Str, str_eq, codes}

-- A finite double is the mantissa times 2^up / 2^down, with a sign.
pub record Double : Type 0 where
  pub negative : Bool
  pub mantissa : ℕ
  pub up : ℕ
  pub down : ℕ

pub data Number : Type 0 where
  pos_int : ℕ → Number
  -- `neg_int n` is -n
  neg_int : ℕ → Number
  float : Double → Number

mutual
  pub data Value : Type 0 where
    null : Value
    bool : Bool → Value
    number : Number → Value
    string : Str → Value
    array : Items → Value
    object : Fields → Value

  pub data Items : Type 0 where
    nil : Items
    cons : Value → Items → Items

  pub data Fields : Type 0 where
    end : Fields
    field : Str → Value → Fields → Fields

-- `Map::get`
unfoldable pub get : Str → Fields → Option Value
get k end = none
get k (field j v fs) = if str_eq j k then some v else get k fs

-- `Map::remove`; the order of the members that are left is not used
unfoldable pub remove : Str → Fields → Fields
remove k end = end
remove k (field j v fs) = if str_eq j k then fs else field j v (remove k fs)

-- what `Serialize` emits for a field under `skip_serializing_if`
unfoldable pub put_opt : Str → Option Value → Fields → Fields
put_opt k none fs = fs
put_opt k (some v) fs = field k v fs

abbrev pub as_str : Value → Option Str
as_str (string s) = some s
as_str null = none
as_str (bool b) = none
as_str (number n) = none
as_str (array l) = none
as_str (object fs) = none

abbrev pub as_u64 : Value → Option ℕ
as_u64 (number (pos_int n)) = some n
as_u64 (number (neg_int n)) = none
as_u64 (number (float x)) = none
as_u64 null = none
as_u64 (bool b) = none
as_u64 (string s) = none
as_u64 (array l) = none
as_u64 (object fs) = none

-- `Option::and_then`
abbrev pub and_then {ℓ κ} : {A : Type ℓ} {B : Type κ} → Option A → (A → Option B) → Option B
and_then none f = none
and_then (some a) f = f a

-- `Value::get`
unfoldable pub get_key : Str → Value → Option Value
unfolding get
get_key k (object fs) = get k fs
get_key k null = none
get_key k (bool b) = none
get_key k (number n) = none
get_key k (string s) = none
get_key k (array l) = none

unfoldable pub items : List Value → Items
items [] = nil
items (v ∷ vs) = cons v (items vs)

-- a `Vec<String>` as a value
unfoldable pub strings : List Str → Value
unfolding items
strings l = array (items (map string l))

abbrev pub text : Str → Value
text = string

abbrev pub u64 : ℕ → Value
u64 n = number (pos_int n)
