-- ===== src/Config/Durations.antt =====
-- The spelling of a duration in a configuration: `_DURATION` of src/qas/config.py and the number before the
-- unit.
use qwen_autonomous_supervis.Prelude.{
  ℕ, ◌-◌, String, str_eq, Bool, true, false, List, [], ◌∷◌, ◌&&◌, ◌||◌, ◌==◌, ltb, exists,
  if◌then◌else◌,
}
use qwen_autonomous_supervis.Prelude.Int.{ℤ, pos, negsuc}
use qwen_autonomous_supervis.Prelude.Text.{is_digit, strip, codes, last_chars, str_take, str_length}

-- A character that ends a duration, in either case; U+017F is a lower-case s to `re.IGNORECASE`.
abbrev is_unit : ℕ → Bool
is_unit c = c == b's' || c == b'm' || c == b'h' || c == b'S' || c == b'M' || c == b'H' || c == 0x17f

abbrev unit_or_end : List ℕ → Bool
unit_or_end [] = true
unit_or_end (c ∷ []) = is_unit c
unit_or_end (c ∷ d ∷ cs) = false

abbrev fraction : Bool → List ℕ → Bool
fraction seen [] = seen
fraction seen (c ∷ cs) =
    let more = fraction true cs in if is_digit c then more else seen && unit_or_end (c ∷ cs)

-- `_DURATION.fullmatch`, once digits were seen or not. Only the digits 0 to 9 are read as such.
abbrev fullmatch : Bool → List ℕ → Bool
fullmatch seen [] = seen
fullmatch seen (c ∷ cs) =
    let more = fullmatch true cs in
    if is_digit c
    then more
    else if c == b'.'
    then fraction false cs
    else seen && unit_or_end (c ∷ cs)

-- `_DURATION.fullmatch(value.strip())`
unfoldable pub is_duration : String → Bool
is_duration s = fullmatch false (codes (strip s))

-- The text without its last character, if that is a unit.
unfoldable pub number_text : String → String
number_text s =
    let unit = last_chars 1 s in
    if exists (str_eq unit) ("s" ∷ "m" ∷ "h" ∷ "S" ∷ "M" ∷ "H" ∷ [])
    then str_take (str_length s - 1) s
    else s

abbrev pub is_above_zero : ℤ → Bool
is_above_zero (pos n) = ltb 0 n
is_above_zero (negsuc n) = false
