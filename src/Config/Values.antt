-- ===== src/Config/Values.antt =====
-- The values of a configuration file (src/qas/config.py): the functions that read one value and reject
-- what it may not be. `str`, `float` and `int` of texts, the matching of `_ENV` and the operations of
-- paths and files are parameters. A YAML value is read as JSON.
use qwen_autonomous_supervis.Prelude.{
  ℕ, String, Bool, true, false, Option, none, some, List, [], ◌∷◌, ltb, not, if◌then◌else◌, or_else,
}
use qwen_autonomous_supervis.Prelude.Int.{ℤ, pos, negsuc, scale}
use qwen_autonomous_supervis.Prelude.Text.{◌+s◌, is_blank}
use qwen_autonomous_supervis.Json.{
  Json, null, bool, int, real, str, arr, obj, Items, nil, cons, Fields, end, field, lookup, trunc,
}
use qwen_autonomous_supervis.Errors.{Result, ok, err, config_error, type_error, ◌>>=◌, ◌>>◌}
use qwen_autonomous_supervis.Config.Durations.{is_duration, number_text, is_above_zero}

-- What Python and the operating system do. A float is counted in millionths; `sub f` replaces each
-- `${name:-default}` of a text by what `f` makes of its name and its default.
pub record Builtins : Type 0 where
  pub str_of : Json → String
  pub float_of : String → Result ℤ
  pub int_of : String → Result ℤ
  pub environ : String → Option String
  pub sub : (String → Option String → Result String) → String → Result String
  pub is_file : String → Bool
  pub safe_load : String → Result Json
  pub resolve_path : String → String
  pub is_absolute : String → Bool
  pub join : String → String → String
  pub parent : String → String
  pub parents : String → List String
  pub anchor : String → String

-- `raise ConfigError(message)` if a test holds.
unfoldable pub raise_if : Bool → String → Result (Unit {0})
raise_if b message = if b then err (config_error message) else ok tt

-- `data.get(key, default)`
abbrev or_default : Option Json → Json → Json
or_default none v = v
or_default (some w) v = w

abbrev pub get_or : String → Json → Fields → Json
get_or k v fs = or_default (lookup k fs) v

-- An `int` that is no `bool`.
abbrev pub whole : Json → Option ℤ
whole (int n) = some n
whole null = none
whole (bool b) = none
whole (real n) = none
whole (str s) = none
whole (arr xs) = none
whole (obj fs) = none

-- An `int` that is no `bool`, or a `float`, in millionths.
abbrev pub number : Json → Option ℤ
number (int n) = some (scale 1000000 n)
number (real n) = some n
number null = none
number (bool b) = none
number (str s) = none
number (arr xs) = none
number (obj fs) = none

abbrev pub above_zero : Option ℤ → String → Result ℕ
above_zero none name = err (config_error (name +s " must be positive"))
above_zero (some (negsuc n)) name = err (config_error (name +s " must be positive"))
above_zero (some (pos n)) name =
    if ltb 0 n then ok n else err (config_error (name +s " must be positive"))

-- `_positive`
unfoldable pub positive : Json → String → Result ℕ
positive v name = above_zero (whole v) name

-- `_positive` with `allow_float`, in millionths. The source also accepts a NaN, of which `value <= 0` is false,
-- and an infinity; neither is a value of the model.
unfoldable pub positive_float : Json → String → Result ℕ
positive_float v name = above_zero (number v) name

-- `_optional_positive`, which accepts a NaN as `_positive` does.
unfoldable pub optional_positive : Json → String → Result (Option ℕ)
optional_positive null name = ok none
optional_positive (bool b) name = do n ← positive_float (bool b) name; ok (some n)
optional_positive (int i) name = do n ← positive_float (int i) name; ok (some n)
optional_positive (real x) name = do n ← positive_float (real x) name; ok (some n)
optional_positive (str s) name = do n ← positive_float (str s) name; ok (some n)
optional_positive (arr xs) name = do n ← positive_float (arr xs) name; ok (some n)
optional_positive (obj fs) name = do n ← positive_float (obj fs) name; ok (some n)

abbrev not_negative : Option ℤ → String → Result ℕ
not_negative none name = err (config_error (name +s " must be a non-negative integer"))
not_negative (some (negsuc n)) name = err (config_error (name +s " must be a non-negative integer"))
not_negative (some (pos n)) name = ok n

-- `_non_negative_integer`
unfoldable pub non_negative_integer : Json → String → Result ℕ
non_negative_integer v name = not_negative (whole v) name

-- `_boolean`
unfoldable pub boolean : Json → String → Result Bool
boolean (bool b) name = ok b
boolean null name = err (config_error (name +s " must be true or false"))
boolean (int n) name = err (config_error (name +s " must be true or false"))
boolean (real n) name = err (config_error (name +s " must be true or false"))
boolean (str s) name = err (config_error (name +s " must be true or false"))
boolean (arr xs) name = err (config_error (name +s " must be true or false"))
boolean (obj fs) name = err (config_error (name +s " must be true or false"))

-- `isinstance(value, str)`, with the text.
abbrev pub text_value : Json → Option String
text_value (str s) = some s
text_value null = none
text_value (bool b) = none
text_value (int n) = none
text_value (real n) = none
text_value (arr xs) = none
text_value (obj fs) = none

-- `isinstance(value, list)`, with the items.
abbrev pub items_value : Json → Option Items
items_value (arr xs) = some xs
items_value null = none
items_value (bool b) = none
items_value (int n) = none
items_value (real n) = none
items_value (str s) = none
items_value (obj fs) = none

abbrev also : Option String → Option (List String) → Option (List String)
also none rest = none
also (some s) none = none
also (some s) (some ss) = some (s ∷ ss)

-- The texts of a list in which each item is a text.
abbrev pub texts : Items → Option (List String)
texts nil = some []
texts (cons v xs) = also (text_value v) (texts xs)

abbrev texts_of : Option Items → Option (List String)
texts_of none = none
texts_of (some xs) = texts xs

-- `isinstance(value, list) and all(isinstance(item, str) for item in value)`, with the texts.
abbrev pub list_of_texts : Json → Option (List String)
list_of_texts v = texts_of (items_value v)

unfoldable pub found {ℓ} : {A : Type ℓ} → Option A → String → Result A
found none message = err (config_error message)
found (some a) message = ok a

-- `_string_list`
unfoldable pub string_list : Json → String → Result (List String)
string_list v name = found (list_of_texts v) (name +s " must be a list of strings")

-- `_mapping`
unfoldable pub mapping : Json → String → Result Fields
mapping null name = ok end
mapping (obj fs) name = ok fs
mapping (bool b) name = err (config_error (name +s " must be a mapping"))
mapping (int n) name = err (config_error (name +s " must be a mapping"))
mapping (real n) name = err (config_error (name +s " must be a mapping"))
mapping (str s) name = err (config_error (name +s " must be a mapping"))
mapping (arr xs) name = err (config_error (name +s " must be a mapping"))

unfoldable mutual
  -- `_expand_env`, with what it makes of a text.
  pub expand : (String → Result String) → Json → Result Json
  expand e null = ok null
  expand e (bool b) = ok (bool b)
  expand e (int n) = ok (int n)
  expand e (real n) = ok (real n)
  expand e (str s) = do t ← e s; ok (str t)
  expand e (arr xs) = do ys ← expand_items e xs; ok (arr ys)
  expand e (obj fs) = do gs ← expand_fields e fs; ok (obj gs)

  expand_items : (String → Result String) → Items → Result Items
  expand_items e nil = ok nil
  expand_items e (cons v vs) = do w ← expand e v; ws ← expand_items e vs; ok (cons w ws)

  pub expand_fields : (String → Result String) → Fields → Result Fields
  expand_fields e end = ok end
  expand_fields e (field k v fs) = do w ← expand e v; gs ← expand_fields e fs; ok (field k w gs)

module _ (py : Builtins) where
  -- `replace`: a variable's value, its default, or the error.
  abbrev pub replace : String → Option String → Result String
  replace name preset =
      found (or_else (py.environ name) preset) ("Environment variable " +s name +s " is required")

  unfoldable pub expand_env : Fields → Result Fields
  expand_env fs = expand_fields (py.sub replace) fs

  -- `int(value)`
  unfoldable pub int_value : Json → Result ℤ
  int_value (int n) = ok n
  int_value (real n) = ok (trunc n)
  int_value (bool true) = ok (pos 1)
  int_value (bool false) = ok (pos 0)
  int_value (str s) = py.int_of s
  int_value null = err (type_error "int() argument must be a string or a real number")
  int_value (arr xs) = err (type_error "int() argument must be a string or a real number")
  int_value (obj fs) = err (type_error "int() argument must be a string or a real number")

  -- `float(value)`, in millionths
  unfoldable pub float_value : Json → Result ℤ
  float_value (int n) = ok (scale 1000000 n)
  float_value (real n) = ok n
  float_value (bool true) = ok (pos 1000000)
  float_value (bool false) = ok (pos 0)
  float_value (str s) = py.float_of s
  float_value null = err (type_error "float() argument must be a string or a real number")
  float_value (arr xs) = err (type_error "float() argument must be a string or a real number")
  float_value (obj fs) = err (type_error "float() argument must be a string or a real number")

  -- `_duration`
  unfoldable pub duration : Json → String → Result String
  duration v name = do
    s ← found (text_value v) (name +s " must be a positive duration such as 90s, 20m, or 1.5h")
    raise_if (not (is_duration s))
        (name +s " must be a positive duration such as 90s, 20m, or 1.5h")
    x ← py.float_of (number_text s)
    raise_if (not (is_above_zero x)) (name +s " must be positive")
    ok s

  -- `_resolve`
  unfoldable pub resolve : String → Json → String → Result String
  resolve base raw name = do
    s ← found (text_value raw) (name +s " must be a non-empty path")
    raise_if (is_blank s) (name +s " must be a non-empty path")
    ok (py.resolve_path (if py.is_absolute s then s else py.join base s))
