-- ===== src/Policy/Changes/Laws.antt =====
-- What `changed_paths` of src/qas/policy.py finds in git's output.
use qwen_autonomous_supervis.Prelude.{
  ℕ, zero, suc, ◌-◌, ◌≤◌, ◌≡◌, ◌∙◌, ap, sym, refl, String, str_eq, Bool, true, false, some, List,
  [], ◌∷◌, ltb, length, if◌then◌else◌, arith, Bool-cases, inl, inr,
}
use qwen_autonomous_supervis.Prelude.Text.{slashes, split_null}
use qwen_autonomous_supervis.Policy.Changes.{
  add, item_at, is_moved, path_of, add_old_name, scan, status_paths,
}

-- What a status means: the paths of its entries, by recursion on the items. `after_move` says that the
-- next item is the old name of a file.
abbrev pub read_entries : Bool → List String → List String → List String
read_entries after_move [] paths = paths
read_entries true (item ∷ items) paths =
    read_entries false items (if str_eq item "" then paths else add (slashes item) paths)
read_entries false (item ∷ items) paths =
    let moved = is_moved item in
    let found = add (path_of item) paths in
    let skip = read_entries false items paths in
    let rest = read_entries moved items found in if str_eq item "" then skip else rest

abbrev from_index : ℕ → List String → List String
from_index zero items = items
from_index (suc n) [] = []
from_index (suc n) (item ∷ items) = from_index n items

ltb-suc : (a b : ℕ) → ltb a b ≡ true → ltb (suc a) (suc b) ≡ true
ltb-suc a b h = ground arith

from_index_lem :
    (index : ℕ) (items : List String) (item : String) (rest : List String)
    → from_index index items ≡ item ∷ rest
    → (item_at index items ≡ item)
      × (ltb index (length items) ≡ true)
      × (from_index (suc index) items ≡ rest)
from_index_lem zero [] item rest h = cc
from_index_lem zero (x ∷ xs) item rest h = (ground arith, ground arith, ground arith)
from_index_lem (suc n) [] item rest h = cc
from_index_lem (suc n) (x ∷ xs) item rest h =
    let (a, b, c) = from_index_lem n xs item rest h in (a, ltb-suc n (length xs) b, c)

from_index_end :
    (index : ℕ) (items : List String)
    → from_index index items ≡ []
    → (ltb index (length items) ≡ false)
from_index_end zero [] h = ground arith
from_index_end zero (x ∷ xs) h = cc
from_index_end (suc n) [] h = ground arith
from_index_end (suc n) (x ∷ xs) h = ground (arith, from_index_end n xs h)

from_index-suc_nil :
    (index : ℕ) (items : List String)
    → from_index index items ≡ []
    → from_index (suc index) items ≡ []
from_index-suc_nil zero [] h = refl
from_index-suc_nil zero (x ∷ xs) h = cc
from_index-suc_nil (suc n) [] h = refl
from_index-suc_nil (suc n) (x ∷ xs) h = from_index-suc_nil n xs h

length-from_index :
    (index : ℕ) (items : List String) → length (from_index index items) ≡ length items - index
length-from_index zero items = omega arith
length-from_index (suc n) [] = omega arith
length-from_index (suc n) (x ∷ xs) = omega (arith, length-from_index n xs)

-- The items after the next one are fewer than those that are left.
length-after_next :
    (index fuel : ℕ) (items rest : List String)
    → from_index (suc index) items ≡ rest
    → suc (length rest) ≤ suc fuel
    → length (from_index (suc (suc index)) items) ≤ fuel
length-after_next index fuel items rest h enough = omega (
  arith,
  length-from_index (suc (suc index)) items,
  length-from_index (suc index) items,
  ap length h,
  enough,
)

after_move-from_index :
    (index : ℕ) (items rest found : List String)
    → from_index index items ≡ rest
    → read_entries true rest found
      ≡ read_entries false (from_index (suc index) items) (add_old_name items index found)
after_move-from_index index items [] found h =
    rw (from_index-suc_nil index items h, from_index_end index items h) refl
after_move-from_index index items (old ∷ rest) found h =
    let (a, b, c) = from_index_lem index items old rest h in rw (b, a, c) refl

scan-read_entries :
    (fuel index : ℕ) (items rest paths : List String)
    → from_index index items ≡ rest
    → length rest ≤ fuel
    → scan fuel items index paths ≡ some (read_entries false rest paths)
unfolding scan
scan-read_entries zero index items [] paths h enough = rw (from_index_end index items h) refl
scan-read_entries zero index items (item ∷ rest) paths h enough = absurd (omega (arith, enough))
scan-read_entries (suc fuel) index items [] paths h enough = rw (from_index_end index items h) refl
scan-read_entries (suc fuel) index items (item ∷ rest) paths h enough =
    let (a, b, c) = from_index_lem index items item rest h in
    rw (b, a)
      (elim (Bool-cases (str_eq item "")) [
        | inl y ↦
            rw y (scan-read_entries fuel (suc index) items rest paths c (omega (arith, enough)))
        | inr n ↦ rw n (elim (Bool-cases (is_moved item)) [
          | inl z ↦ rw z (
              scan-read_entries fuel (suc (suc index)) items (from_index (suc (suc index)) items) _
                refl (length-after_next index fuel items rest c enough)
              ∙ ap some
                  (sym (after_move-from_index (suc index) items rest (add (path_of item) paths) c)))
          | inr z ↦ rw z (
              scan-read_entries fuel (suc index) items rest (add (path_of item) paths) c
                (omega (arith, enough)))
        ])
      ])

-- The loop over the items of a status ends, and finds the paths of the entries: of each one that is not empty
-- its path, and for a renamed or copied file its old name too, which is the item after it.
pub status_paths_lem :
    (status : String) → status_paths status ≡ some (read_entries false (split_null status) [])
unfolding status_paths
status_paths_lem status =
    scan-read_entries (length (split_null status)) 0 (split_null status) (split_null status) [] refl
      (omega arith)
