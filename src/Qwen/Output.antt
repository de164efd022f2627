-- ===== src/Qwen/Output.antt =====
-- `validated_output` of src/qas/qwen.py. `json.loads` is a parameter, None where it raises.
use mathlib.Core.List.{reverse, reverse-append}
use qwen_autonomous_supervis.Prelude.{
  String, str_eq, ◌≡◌, refl, Bool, true, false, Option, none, some, List, [], ◌∷◌, ◌++◌, arith,
  ◌||◌, if◌then◌else◌,
}
use qwen_autonomous_supervis.Json.{
  Json, null, bool, int, real, str, arr, obj, Items, nil, cons, Fields, get, get_in, as_object,
  truthy, has_keys,
}
use qwen_autonomous_supervis.Errors.{Result, ok, err, value_error, type_error, ◌>>=◌}

abbrev items_of : Items → List Json
items_of nil = []
items_of (cons v vs) = v ∷ items_of vs

abbrev content_of : Json → List Json
content_of (arr vs) = items_of vs
content_of null = []
content_of (bool b) = []
content_of (int n) = []
content_of (real n) = []
content_of (str s) = []
content_of (obj fs) = []

-- The values of an event that may be the output.
abbrev candidates_in : Option Fields → List Json
candidates_in none = []
candidates_in (some fs) =
    get "structured_output" fs ∷ get "result" fs ∷ content_of (get_in "content" (get "message" fs))

abbrev candidates : Json → List Json
candidates event = event ∷ candidates_in (as_object event)

-- How the test `type in {"structured_output", "tool_use"}` ends: a list or a mapping cannot be hashed.
abbrev type_test : Json → Result Bool
type_test (str s) = ok (str_eq s "structured_output" || str_eq s "tool_use")
type_test null = ok false
type_test (bool b) = ok false
type_test (int n) = ok false
type_test (real n) = ok false
type_test (arr vs) = err (type_error "unhashable type: 'list'")
type_test (obj fs) = err (type_error "unhashable type: 'dict'")

-- `candidate.get("input") or candidate.get("structured_output")`
abbrev inner : Fields → Json
inner fs = if truthy (get "input" fs) then get "input" fs else get "structured_output" fs

-- A candidate mapping, without the block of those types that wraps it.
unfoldable pub unwrap : Fields → Result Json
unwrap fs = do wrapped ← type_test (get "type" fs); ok (if wrapped then inner fs else obj fs)

abbrev or_next : Option Fields → Result (Option Fields) → Result (Option Fields)
or_next none r = r
or_next (some fs) r = ok (some fs)

module _ (loads : String → Option Json) (required : List String) where
  abbrev pub complete : Option Fields → Option Fields
  complete none = none
  complete (some fs) = if has_keys required fs then some fs else none

  abbrev checked : Option Fields → Result (Option Fields)
  checked none = ok none
  checked (some fs) = do v ← unwrap fs; ok (complete (as_object v))

  abbrev loaded : Option Json → Result (Option Fields)
  loaded none = ok none
  loaded (some v) = checked (as_object v)

  -- One candidate: a text is read as JSON first.
  unfoldable pub accept : Json → Result (Option Fields)
  accept (str s) = loaded (loads s)
  accept (obj fs) = checked (some fs)
  accept null = ok none
  accept (bool b) = ok none
  accept (int n) = ok none
  accept (real n) = ok none
  accept (arr vs) = ok none

  unfoldable pub first_accepted : List Json → Result (Option Fields)
  first_accepted [] = ok none
  first_accepted (v ∷ vs) = let rest = first_accepted vs in accept v >>= λ o. or_next o rest

  abbrev in_line : Option Json → Result (Option Fields)
  in_line none = ok none
  in_line (some event) = first_accepted (candidates event)

  unfoldable pub scan_lines : List String → Result (Option Fields)
  scan_lines [] = ok none
  scan_lines (l ∷ ls) = let rest = scan_lines ls in in_line (loads l) >>= λ o. or_next o rest

  abbrev or_error : Option Fields → Result Fields
  or_error none = err (value_error "Qwen returned no valid structured output")
  or_error (some fs) = ok fs

  -- The structured output if it has the required keys, and else the first candidate of the output's
  -- lines that has them, from the last line on.
  unfoldable pub validated_output : Json → List String → Result Fields
  validated_output structured lines =
      or_next (complete (as_object structured)) (scan_lines (reverse lines)) >>= or_error

  complete-keys :
      (o : Option Fields) (fs : Fields) → complete o ≡ some fs → has_keys required fs ≡ true
  complete-keys none fs h = cc
  complete-keys (some gs) fs h = ground arith

  -- A result that, if it is a mapping, has the keys.
  record IsChecked (r : Result (Option Fields)) : Type 0 where
    keys : (fs : Fields) → r ≡ ok (some fs) → has_keys required fs ≡ true

  IsChecked-none : IsChecked (ok none)
  IsChecked-none = record { keys = λ fs h. cc }

  checked-IsChecked : (o : Option Fields) → IsChecked (checked o)
  checked-IsChecked none = IsChecked-none
  checked-IsChecked (some gs) = record { keys = λ fs h. unwrapped (unwrap gs) fs h }
    where
      unwrapped :
          (r : Result Json) (fs : Fields)
          → (r >>= λ v. ok (complete (as_object v))) ≡ ok (some fs)
          → has_keys required fs ≡ true
      unwrapped (ok v) fs h = complete-keys (as_object v) fs cc
      unwrapped (err e) fs h = cc

  loaded-IsChecked : (o : Option Json) → IsChecked (loaded o)
  loaded-IsChecked none = IsChecked-none
  loaded-IsChecked (some v) = checked-IsChecked (as_object v)

  accept-IsChecked : (v : Json) → IsChecked (accept v)
  unfolding accept
  accept-IsChecked (str s) = loaded-IsChecked (loads s)
  accept-IsChecked (obj gs) = checked-IsChecked (some gs)
  accept-IsChecked null = IsChecked-none
  accept-IsChecked (bool b) = IsChecked-none
  accept-IsChecked (int n) = IsChecked-none
  accept-IsChecked (real n) = IsChecked-none
  accept-IsChecked (arr vs) = IsChecked-none

  or_next-IsChecked :
      (r rest : Result (Option Fields))
      → IsChecked r
      → IsChecked rest
      → IsChecked (r >>= λ o. or_next o rest)
  or_next-IsChecked (ok none) rest a b = b
  or_next-IsChecked (ok (some fs)) rest a b = a
  or_next-IsChecked (err e) rest a b = record { keys = λ fs h. cc }

  first_accepted-IsChecked : (vs : List Json) → IsChecked (first_accepted vs)
  unfolding first_accepted
  first_accepted-IsChecked [] = IsChecked-none
  first_accepted-IsChecked (v ∷ vs) =
      or_next-IsChecked (accept v) (first_accepted vs) (accept-IsChecked v)
        (first_accepted-IsChecked vs)

  in_line-IsChecked : (o : Option Json) → IsChecked (in_line o)
  in_line-IsChecked none = IsChecked-none
  in_line-IsChecked (some e) = first_accepted-IsChecked (candidates e)

  scan_lines-IsChecked : (ls : List String) → IsChecked (scan_lines ls)
  unfolding scan_lines
  scan_lines-IsChecked [] = IsChecked-none
  scan_lines-IsChecked (l ∷ ls) =
      or_next-IsChecked (in_line (loads l)) (scan_lines ls) (in_line-IsChecked (loads l))
        (scan_lines-IsChecked ls)

  or_error-ok :
      (r : Result (Option Fields)) (fs : Fields) → (r >>= or_error) ≡ ok fs → r ≡ ok (some fs)
  or_error-ok (ok none) fs h = cc
  or_error-ok (ok (some gs)) fs h = cc
  or_error-ok (err e) fs h = cc

  -- If the validation returns an output, from wherever it was taken, the output has all the required
  -- keys.
  pub has_keys-validated_output :
      (structured : Json) (lines : List String) (fs : Fields)
      → validated_output structured lines ≡ ok fs
      → has_keys required fs ≡ true
  unfolding validated_output
  has_keys-validated_output structured lines fs h =
      (or_next-IsChecked (ok (complete (as_object structured))) (scan_lines (reverse lines))
          (record { keys = λ gs e. complete-keys (as_object structured) gs cc })
          (scan_lines-IsChecked (reverse lines))).keys
        fs (or_error-ok _ fs h)

  -- A last line of output that is a mapping whose `type` is a list makes the validation raise
  -- `TypeError`, whatever else was said, if the structured output lacks a required key.
  pub validated_output-raises :
      (structured : Json) (line : String) (lines : List String) (fs : Fields) (vs : Items)
      → complete (as_object structured) ≡ none
      → loads line ≡ some (obj fs)
      → get "type" fs ≡ arr vs
      → validated_output structured (lines ++ line ∷ [])
        ≡ err (type_error "unhashable type: 'list'")
  unfolding validated_output scan_lines first_accepted accept unwrap
  validated_output-raises structured line lines fs vs missing reads listed =
      rw (missing, reverse-append) (rw reads (rw listed refl))
