-- ===== src/Policy/Changes.antt =====
-- `changed_paths` of src/qas/policy.py: the paths that git reports. How `git` ended is a parameter.
pub mod Laws
pub mod Stripped
use qwen_autonomous_supervis.Prelude.{
  ℕ, zero, suc, ◌+◌, String, str_eq, Bool, Option, none, some, List, [], ◌∷◌, ◌||◌, ltb, length,
  exists, if◌then◌else◌,
}
use qwen_autonomous_supervis.Prelude.Int.{ℤ, pos, eq_ℤ}
use qwen_autonomous_supervis.Prelude.Text.{str_take, str_drop, slashes, contains, strip, split_null}
use qwen_autonomous_supervis.Errors.{Result, ok, err, policy_violation, ◌>>=◌}

-- `set.add`: a set is the list of its members.
abbrev pub add : String → List String → List String
add path paths = if exists (str_eq path) paths then paths else path ∷ paths

-- `items[index]` where the index is in range, and the empty text elsewhere.
abbrev pub item_at : ℕ → List String → String
item_at index [] = ""
item_at zero (item ∷ items) = item
item_at (suc index) (item ∷ items) = item_at index items

-- A renamed or copied file, whose old name is the next item.
unfoldable pub is_moved : String → Bool
is_moved entry = contains "R" (str_take 2 entry) || contains "C" (str_take 2 entry)

-- The path of an entry, after its two letters and the space.
unfoldable pub path_of : String → String
path_of entry = slashes (str_drop 3 entry)

-- The old name at an index, if there is one.
abbrev pub add_old_name : List String → ℕ → List String → List String
add_old_name items index paths =
    if ltb index (length items)
    then if str_eq (item_at index items) ""
      then paths
      else add (slashes (item_at index items)) paths
    else paths

-- The loop over `index`. Each turn takes one unit of fuel; None is running out of it.
unfoldable pub scan : ℕ → List String → ℕ → List String → Option (List String)
scan zero items index paths = if ltb index (length items) then none else some paths
scan (suc fuel) items index paths =
    let entry = item_at index items in
    let found = add (path_of entry) paths in
    let skip = scan fuel items (suc index) paths in
    let over = scan fuel items (suc (suc index)) (add_old_name items (suc index) found) in
    let next = scan fuel items (suc index) found in
    if ltb index (length items)
    then if str_eq entry "" then skip else if is_moved entry then over else next
    else some paths

-- `paths.update(item.replace(...) for item in diff.split("\0") if item)`
unfoldable pub add_all : List String → List String → List String
add_all [] paths = paths
add_all (item ∷ items) paths =
    add_all items (if str_eq item "" then paths else add (slashes item) paths)

-- How a run of git ended.
pub record GitRun : Type 0 where
  pub returncode : ℤ
  pub stdout : String
  pub stderr : String

-- `git`, whose message leaves out the arguments where there is no error text.
unfoldable pub git : GitRun → Result String
git run =
    if eq_ℤ run.returncode (pos 0)
    then ok (strip run.stdout)
    else err
        (policy_violation (if str_eq (strip run.stderr) "" then "git failed" else strip run.stderr))

-- The paths of a status. One turn for each item is enough.
unfoldable pub status_paths : String → Option (List String)
status_paths status = let items = split_null status in scan (length items) items 0 []

abbrev pub add_diff : Option GitRun → List String → Result (List String)
add_diff none paths = ok paths
add_diff (some diff) paths = do text ← git diff; ok (add_all (split_null text) paths)

-- The scan never runs out of fuel.
abbrev scanned : Option GitRun → Option (List String) → Result (List String)
scanned diff none = ok []
scanned diff (some paths) = add_diff diff paths

-- `changed_paths`, from the runs of `git status` and, if there is a base, of `git diff`.
unfoldable pub changed_paths : GitRun → Option GitRun → Result (List String)
changed_paths status diff = do text ← git status; scanned diff (status_paths text)
