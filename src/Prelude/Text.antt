-- ===== src/Prelude/Text.antt =====
-- Texts: their characters, and the slices that the program takes of them.
use Prim.Native.Char.{Char, code}
use Prim.Native.String.{◌++◌ as str_append}
use mathlib.Core.Option
use mathlib.Core.Option.{Option}
use qwen_autonomous_supervis.Prelude.{
  ℕ, zero, suc, ◌-◌, ◌+◌, ◌*◌, ◌/◌, ◌%◌, String, List, [], ◌∷◌, leb, ltb, ◌&&◌, ◌||◌, ◌==◌, Bool,
  true, false, if◌then◌else◌, none, some,
}
use qwen_autonomous_supervis.Prelude.Int.{ℤ, pos, negsuc, sub_ℕ}

abbrev pub codes : String → List ℕ
codes String.[] = []
codes (String.◌∷◌ c s) = code c ∷ codes s

-- `len(s)`
abbrev pub str_length : String → ℕ
str_length String.[] = 0
str_length (String.◌∷◌ c s) = suc (str_length s)

-- `s[n:]`
abbrev pub str_drop : ℕ → String → String
str_drop n String.[] = String.[]
str_drop zero (String.◌∷◌ c s) = String.◌∷◌ c s
str_drop (suc n) (String.◌∷◌ c s) = str_drop n s

-- `s[:n]`
abbrev pub str_take : ℕ → String → String
str_take zero s = String.[]
str_take (suc n) String.[] = String.[]
str_take (suc n) (String.◌∷◌ c s) = String.◌∷◌ c (str_take n s)

-- `s[-n:]`
unfoldable pub last_chars : ℕ → String → String
last_chars n s = str_drop (str_length s - n) s

infixr 66 ◌+s◌
abbrev pub ◌+s◌ : String → String → String
a +s b = str_append a b

-- `c.isspace()`
abbrev pub is_space : ℕ → Bool
is_space c =
    (leb 9 c && leb c 13)
    || (leb 28 c && leb c 32)
    || c == 0x85
    || c == 0xa0
    || c == 0x1680
    || (leb 0x2000 c && leb c 0x200a)
    || c == 0x2028
    || c == 0x2029
    || c == 0x202f
    || c == 0x205f
    || c == 0x3000

abbrev pub all_spaces : List ℕ → Bool
all_spaces [] = true
all_spaces (c ∷ cs) = is_space c && all_spaces cs

abbrev pub lstrip : String → String
lstrip String.[] = String.[]
lstrip (String.◌∷◌ c s) = let rest = lstrip s in if is_space (code c) then rest else String.◌∷◌ c s

abbrev pub rstrip : String → String
rstrip String.[] = String.[]
rstrip (String.◌∷◌ c s) =
    let rest = rstrip s in
    if all_spaces (codes (String.◌∷◌ c s)) then String.[] else String.◌∷◌ c rest

-- `s.strip()`
unfoldable pub strip : String → String
strip s = rstrip (lstrip s)

abbrev push : Char → List String → List String
push c [] = String.◌∷◌ c "" ∷ []
push c (x ∷ xs) = String.◌∷◌ c x ∷ xs

-- `s.split("\0")`
abbrev pub split_null : String → List String
split_null String.[] = "" ∷ []
split_null (String.◌∷◌ c s) =
    let rest = split_null s in if code c == 0 then "" ∷ rest else push c rest

-- `s.startswith(prefix)`
abbrev pub starts_with : String → String → Bool
starts_with String.[] s = true
starts_with (String.◌∷◌ c cs) String.[] = false
starts_with (String.◌∷◌ c cs) (String.◌∷◌ d ds) = code c == code d && starts_with cs ds

-- `part in s`
abbrev pub contains : String → String → Bool
contains part String.[] = starts_with part String.[]
contains part (String.◌∷◌ c s) =
    let later = contains part s in starts_with part (String.◌∷◌ c s) || later

-- `s.replace("\\\\", "/")`
abbrev pub slashes : String → String
slashes String.[] = String.[]
slashes (String.◌∷◌ c s) = (if code c == 92 then "/" else String.◌∷◌ c "") +s slashes s

-- `not s.strip()`
unfoldable pub is_blank : String → Bool
is_blank s = all_spaces (codes s)

abbrev digit : ℕ → String
digit d =
    if d == 0
    then "0"
    else if d == 1
    then "1"
    else if d == 2
    then "2"
    else if d == 3
    then "3"
    else if d == 4
    then "4"
    else if d == 5
    then "5"
    else if d == 6
    then "6"
    else if d == 7
    then "7"
    else if d == 8
    then "8"
    else "9"

-- The decimal digits of a number before `rest`. One unit of fuel is spent for each digit.
decimal_onto : ℕ → ℕ → String → String
decimal_onto zero n rest = rest
decimal_onto (suc fuel) n rest =
    let more = decimal_onto fuel (n / 10) (digit (n % 10) +s rest) in
    if ltb n 10 then digit n +s rest else more

-- `str(n)`: a number has no more digits than `n + 1`.
unfoldable pub decimal : ℕ → String
unfolding decimal_onto
decimal n = decimal_onto (n + 1) n ""

-- `str(n)`
abbrev pub decimal_ℤ : ℤ → String
decimal_ℤ (pos n) = decimal n
decimal_ℤ (negsuc n) = "-" +s decimal (n + 1)

abbrev pub is_digit : ℕ → Bool
is_digit c = leb b'0' c && leb c b'9'

-- The value of the digits, after the value `n` of those before. No digit, or another character, is
-- no number; Python's underscores between digits are not read.
digits_after : ℕ → List ℕ → Option ℕ
digits_after n [] = some n
digits_after n (c ∷ cs) =
    let rest = digits_after (10 * n + (c - b'0')) cs in if is_digit c then rest else none

unsigned : List ℕ → Option ℕ
unsigned [] = none
unsigned (c ∷ cs) = digits_after 0 (c ∷ cs)

signed : List ℕ → Option ℤ
signed [] = none
signed (c ∷ cs) =
    if c == b'-'
    then Option.map (λ n. sub_ℕ 0 n) (unsigned cs)
    else if c == b'+'
    then Option.map pos (unsigned cs)
    else Option.map pos (unsigned (c ∷ cs))

-- `int(s)` of a text with no space at its ends, None where it raises `ValueError`.
unfoldable pub parse_int : String → Option ℤ
unfolding signed unsigned digits_after
parse_int s = signed (codes s)
