-- ===== src/Json.antt =====
-- The JSON values that the ledger stores and the model reports (`Any` in the source), and what the
-- code reads of them.
use qwen_autonomous_supervis.Prelude.{
  ℕ, ◌+◌, ◌-◌, ◌/◌, String, str_eq, Bool, true, false, Option, none, some, List, [], ◌∷◌, ltb, ◌&&◌,
  if◌then◌else◌, is_some,
}
use qwen_autonomous_supervis.Prelude.Int.{ℤ, pos, negsuc}

-- `int` is a whole number, `real` a float in millionths. A float that is no number of millionths,
-- an infinity or a NaN has no value here.
mutual
  pub data Json : Type 0 where
    null : Json
    bool : Bool → Json
    int : ℤ → Json
    real : ℤ → Json
    str : String → Json
    arr : Items → Json
    obj : Fields → Json

  pub data Items : Type 0 where
    nil : Items
    cons : Json → Items → Items

  pub data Fields : Type 0 where
    end : Fields
    field : String → Json → Fields → Fields

abbrev pub lookup : String → Fields → Option Json
lookup k end = none
lookup k (field j v fs) = if str_eq j k then some v else lookup k fs

-- `value.get(key)` on a mapping: a missing key reads as None.
abbrev pub or_null : Option Json → Json
or_null none = null
or_null (some v) = v

abbrev pub get : String → Fields → Json
get k fs = or_null (lookup k fs)

-- `isinstance(value, dict)`, with the mapping.
abbrev pub as_object : Json → Option Fields
as_object (obj fs) = some fs
as_object null = none
as_object (bool b) = none
as_object (int n) = none
as_object (real n) = none
as_object (str s) = none
as_object (arr xs) = none

-- `isinstance(value, dict)` and then `value.get(key)`, None where it is no mapping.
abbrev pub get_in : String → Json → Json
get_in k (obj fs) = get k fs
get_in k null = null
get_in k (bool b) = null
get_in k (int n) = null
get_in k (real n) = null
get_in k (str s) = null
get_in k (arr xs) = null

-- Python's `bool(value)`.
abbrev pub truthy : Json → Bool
truthy null = false
truthy (bool b) = b
truthy (int (pos n)) = ltb 0 n
truthy (int (negsuc n)) = true
truthy (real (pos n)) = ltb 0 n
truthy (real (negsuc n)) = true
truthy (str s) = if str_eq s "" then false else true
truthy (arr nil) = false
truthy (arr (cons v xs)) = true
truthy (obj end) = false
truthy (obj (field k v fs)) = true

-- `int(value)` of a number: a float loses its fraction, towards zero.
abbrev pub trunc : ℤ → ℤ
trunc (pos n) = pos (n / 1000000)
trunc (negsuc n) = if ltb (n + 1) 1000000 then pos 0 else negsuc ((n + 1) / 1000000 - 1)

abbrev pub has_key : String → Fields → Bool
has_key k fs = is_some (lookup k fs)

abbrev pub has_keys : List String → Fields → Bool
has_keys [] fs = true
has_keys (k ∷ ks) fs = has_key k fs && has_keys ks fs

abbrev pub opt_str : Option String → Json
opt_str none = null
opt_str (some s) = str s

abbrev pub opt_nat : Option ℕ → Json
opt_nat none = null
opt_nat (some n) = int (pos n)
