-- ===== src/Policy/Secrets.antt =====
-- `scan_added_secrets` of src/qas/policy.py. The lines of a diff, the regular expressions of
-- `_SECRET_PATTERNS` and the search for the first number after a `+` are parameters.
pub mod Laws
use qwen_autonomous_supervis.Prelude.{
  ℕ, ◌+◌, String, Bool, true, false, Option, none, some, List, [], ◌∷◌, ◌++◌, ◌&&◌, not,
  if◌then◌else◌,
}
use qwen_autonomous_supervis.Prelude.Text.{starts_with, str_drop}

-- A name of `_SECRET_PATTERNS` with the search of its pattern.
pub record SecretPattern : Type 0 where
  pub kind : String
  pub search : String → Bool

pub record SecretFinding : Type 0 where
  pub kind : String
  pub file : String
  pub line : ℕ

-- The file and the line number that the loop stands at.
pub record Position : Type 0 where
  pub current_file : String
  pub added_line : ℕ

abbrev number_or_zero : Option ℕ → ℕ
number_or_zero none = 0
number_or_zero (some n) = n

-- What the patterns find in one added line.
unfoldable pub find_in : Position → String → List SecretPattern → List SecretFinding
find_in p content [] = []
find_in p content (pattern ∷ patterns) =
    let rest = find_in p content patterns in
    if pattern.search content
    then record { kind = pattern.kind; file = p.current_file; line = p.added_line } ∷ rest
    else rest

module _ (hunk_number : String → Option ℕ) (patterns : List SecretPattern) where
  abbrev pub is_added : String → Bool
  is_added line = starts_with "+" line && not (starts_with "+++" line)

  -- The position after a line.
  abbrev pub step : String → Position → Position
  step line p =
      if starts_with "+++ b/" line
      then record p { current_file = str_drop 6 line }
      else if starts_with "@@" line
      then record p { added_line = number_or_zero (hunk_number line) }
      else if is_added line
      then record p { added_line = p.added_line + 1 }
      else if starts_with "-" line
      then p
      else record p { added_line = p.added_line + 1 }

  -- The findings of a line.
  abbrev pub found_at : String → Position → List SecretFinding
  found_at line p =
      if starts_with "+++ b/" line
      then []
      else if starts_with "@@" line
      then []
      else if is_added line
      then find_in p (str_drop 1 line) patterns
      else []

  -- The loop over the lines, from a position on.
  unfoldable pub scan_lines : List String → Position → List SecretFinding
  scan_lines [] p = []
  scan_lines (line ∷ lines) p = found_at line p ++ scan_lines lines (step line p)

  unfoldable pub scan_added_secrets : List String → List SecretFinding
  scan_added_secrets lines = scan_lines lines (record { current_file = "unknown"; added_line = 0 })
