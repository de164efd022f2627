-- ===== src/Policy/Changes/Stripped.antt =====
-- The first entry of a status, whose leading space `git` of src/qas/policy.py strips.
use Prim.Native.Char.{code}
use qwen_autonomous_supervis.Prelude.{
  ◌≡◌, ap, ◌∙◌, List, ◌++◌, Option, All, true, refl, String, Bool, false, [], ◌∷◌, ◌==◌, ◌||◌, ◌&&◌,
  eq_iff, str_eq, arith, Bool-cases, inl, inr,
}
use qwen_autonomous_supervis.Prelude.Int.{pos}
use qwen_autonomous_supervis.Prelude.Text.{
  slashes, str_drop, strip, rstrip, split_null, all_spaces, is_space, codes,
}
use qwen_autonomous_supervis.Policy.Changes.{
  GitRun, git, changed_paths, add, add_diff, is_moved, path_of,
}
use qwen_autonomous_supervis.Policy.Changes.Laws.{read_entries, status_paths_lem}

-- A text, the null character, and what follows.
abbrev pub ended : String → String → String
ended String.[] rest = String.◌∷◌ "\0" rest
ended (String.◌∷◌ c s) rest = String.◌∷◌ c (ended s rest)

-- Items, each with the null character after it.
abbrev pub all_ended : List String → String
all_ended [] = ""
all_ended (item ∷ items) = ended item (all_ended items)

-- A status that reports a file first that is changed and not staged: ` M`, a space, and the path; and then
-- further items.
abbrev pub unstaged : String → List String → String
unstaged path items =
    String.◌∷◌ " " (String.◌∷◌ "M" (String.◌∷◌ " " (ended path (all_ended items))))

abbrev has_null : String → Bool
has_null String.[] = false
has_null (String.◌∷◌ c s) = code c == 0 || has_null s

not_all_spaces : (s rest : String) → all_spaces (codes (ended s rest)) ≡ false
not_all_spaces String.[] rest = refl
not_all_spaces (String.◌∷◌ c s) rest = ground (arith, not_all_spaces s rest)

and_false : (a b : Bool) → b ≡ false → (a && b) ≡ false
and_false a b h = ground arith

or_false : (a b : Bool) → (a || b) ≡ false → (a ≡ false) × (b ≡ false)
or_false a b h = ground arith

rstrip-ended : (s rest : String) → rstrip rest ≡ rest → rstrip (ended s rest) ≡ ended s rest
rstrip-ended String.[] rest h = ap (String.◌∷◌ "\0") h
rstrip-ended (String.◌∷◌ c s) rest h =
    rw
      (
        and_false (is_space (code c)) (all_spaces (codes (ended s rest))) (not_all_spaces s rest),
        rstrip-ended s rest h,
      )
      refl

rstrip-all_ended : (items : List String) → rstrip (all_ended items) ≡ all_ended items
rstrip-all_ended [] = refl
rstrip-all_ended (item ∷ items) = rstrip-ended item (all_ended items) (rstrip-all_ended items)

split_null-ended :
    (s rest : String) → has_null s ≡ false → split_null (ended s rest) ≡ s ∷ split_null rest
split_null-ended String.[] rest h = refl
split_null-ended (String.◌∷◌ c s) rest h =
    let (a, b) = or_false (code c == 0) (has_null s) h in rw (a, split_null-ended s rest b) refl

split_null-all_ended :
    (items : List String)
    → All (λ item. has_null item ≡ false) items
    → split_null (all_ended items) ≡ items ++ ("" ∷ [])
split_null-all_ended [] h = refl
split_null-all_ended (item ∷ items) h =
    split_null-ended item (all_ended items) h.0
    ∙ ap (λ xs. item ∷ xs) (split_null-all_ended items h.1)

-- The empty item at the end of a status is no entry.
read_entries-end :
    (moved : Bool) (items paths : List String)
    → read_entries moved (items ++ ("" ∷ [])) paths ≡ read_entries moved items paths
read_entries-end true [] paths = refl
read_entries-end false [] paths = refl
read_entries-end true (item ∷ items) paths = read_entries-end false items _
read_entries-end false (item ∷ items) paths =
    rw
      (
        read_entries-end false items paths,
        read_entries-end (is_moved item) items (add (path_of item) paths),
      )
      refl

-- The text of such a status, as `git` returns it.
strip-unstaged :
    (path : String) (items : List String)
    → strip (unstaged path items) ≡ String.◌∷◌ "M" (String.◌∷◌ " " (ended path (all_ended items)))
unfolding strip
strip-unstaged path items =
    rw
      (
        not_all_spaces path (all_ended items),
        rstrip-ended path (all_ended items) (rstrip-all_ended items),
      )
      refl

items_of_unstaged :
    (path : String) (items : List String)
    → has_null path ≡ false
    → All (λ item. has_null item ≡ false) items
    → split_null (String.◌∷◌ "M" (String.◌∷◌ " " (ended path (all_ended items))))
      ≡ String.◌∷◌ "M" (String.◌∷◌ " " path) ∷ (items ++ ("" ∷ []))
items_of_unstaged path items h k =
    rw (split_null-ended path (all_ended items) h, split_null-all_ended items k) refl

nonempty : (s : String) → str_eq (String.◌∷◌ "M" s) "" ≡ false
nonempty s = elim (Bool-cases (str_eq (String.◌∷◌ "M" s) "")) [
  | inl y ↦ let same : String.◌∷◌ "M" s ≡ "" = (eq_iff (String.◌∷◌ "M" s) "").0 y in cc
  | inr n ↦ n
]

-- If git reports a file first that is changed and not staged, whatever else it reports, the path of that file
-- loses its first character: the set has the rest of the path, the paths of the further entries, and those of
-- the diff if there is a base. No path has the null character, which ends each item.
pub changed_paths-unstaged :
    (path : String) (items : List String) (stderr : String) (diff : Option GitRun)
    → has_null path ≡ false
    → All (λ item. has_null item ≡ false) items
    → changed_paths
        (record { returncode = pos 0; stdout = unstaged path items; stderr = stderr })
        diff
      ≡ add_diff diff (read_entries false items (slashes (str_drop 1 path) ∷ []))
unfolding changed_paths git is_moved path_of
changed_paths-unstaged path items stderr diff h k =
    rw
      (
        strip-unstaged path items,
        status_paths_lem (String.◌∷◌ "M" (String.◌∷◌ " " (ended path (all_ended items)))),
        items_of_unstaged path items h k,
        nonempty (String.◌∷◌ " " path),
        read_entries-end false items (slashes (str_drop 1 path) ∷ []),
      )
      refl
