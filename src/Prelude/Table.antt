-- ===== src/Prelude/Table.antt =====
-- A database table as the list of its rows, the newest first, and the statements over it.
-- A `WHERE` clause is a Boolean test of the row.
use Prim.Native.Nat.{ℕ, zero, suc, ◌+◌, ◌≤◌}
use mathlib.Core.Path.{◌≡◌, refl}
use mathlib.Core.Bool.{Bool, true, false}
use mathlib.Core.Logic.{inl, inr}
use mathlib.Core.Option.{Option, none, some}
use mathlib.Core.List.{List, [], ◌∷◌}
use native.Mathlib.Omega.{arith}
use qwen_autonomous_supervis.Prelude.Tests.{ltb, if◌then◌else◌, is_some, Bool-cases}

module _ {ℓ} {A : Type ℓ} where
  abbrev pub length : List A → ℕ
  length [] = 0
  length (x ∷ xs) = suc (length xs)

  -- SELECT * FROM t WHERE p
  abbrev pub select : (A → Bool) → List A → List A
  select p [] = []
  select p (x ∷ xs) = if p x then x ∷ select p xs else select p xs

  -- DELETE FROM t WHERE p
  abbrev pub delete : (A → Bool) → List A → List A
  delete p [] = []
  delete p (x ∷ xs) = if p x then delete p xs else x ∷ delete p xs

  -- UPDATE t SET f WHERE p
  abbrev pub update : (A → Bool) → (A → A) → List A → List A
  update p f [] = []
  update p f (x ∷ xs) = (if p x then f x else x) ∷ update p f xs

  -- SELECT COUNT(*) FROM t WHERE p
  abbrev pub count : (A → Bool) → List A → ℕ
  count p [] = 0
  count p (x ∷ xs) = (if p x then 1 else 0) + count p xs

  -- The first row with p: the only one, if p asks for a primary key.
  abbrev pub find : (A → Bool) → List A → Option A
  find p [] = none
  find p (x ∷ xs) = if p x then some x else find p xs

  -- Whether some row has p.
  abbrev pub exists : (A → Bool) → List A → Bool
  exists p [] = false
  exists p (x ∷ xs) = if p x then true else exists p xs

  -- Whether every row has p.
  abbrev pub every : (A → Bool) → List A → Bool
  every p [] = true
  every p (x ∷ xs) = if p x then every p xs else false

  abbrev keep_latest : (A → ℕ) → A → Option A → A
  keep_latest key x none = x
  keep_latest key x (some y) = if ltb (key x) (key y) then y else x

  -- ORDER BY key DESC LIMIT 1: of rows with equal keys the first, where SQLite may choose.
  abbrev pub latest : (A → ℕ) → List A → Option A
  latest key [] = none
  latest key (x ∷ xs) = some (keep_latest key x (latest key xs))

  abbrev pub take : ℕ → List A → List A
  take n [] = []
  take zero (x ∷ xs) = []
  take (suc n) (x ∷ xs) = x ∷ take n xs

module _ {ℓ} {A : Type ℓ} where
  abbrev pub insert_by : (A → ℕ) → A → List A → List A
  insert_by key x [] = x ∷ []
  insert_by key x (y ∷ ys) = if ltb (key x) (key y) then y ∷ insert_by key x ys else x ∷ y ∷ ys

  -- ORDER BY key DESC
  abbrev pub descending : (A → ℕ) → List A → List A
  descending key [] = []
  descending key (x ∷ xs) = insert_by key x (descending key xs)

  -- ORDER BY key
  abbrev insert_after : (A → ℕ) → A → List A → List A
  insert_after key x [] = x ∷ []
  insert_after key x (y ∷ ys) =
      if ltb (key y) (key x) then y ∷ insert_after key x ys else x ∷ y ∷ ys

  abbrev pub ascending : (A → ℕ) → List A → List A
  ascending key [] = []
  ascending key (x ∷ xs) = insert_after key x (ascending key xs)

-- Every row has P.
abbrev pub All {ℓ κ} : {A : Type ℓ} → (A → Type κ) → List A → Type κ
All P [] = Unit
All P (x ∷ xs) = P x × All P xs

module _ {ℓ} {A : Type ℓ} (p : A → Bool) where
  -- After DELETE no row matches.
  pub exists-delete : (xs : List A) → exists p (delete p xs) ≡ false
  exists-delete [] = refl
  exists-delete (x ∷ xs) = elim (Bool-cases (p x)) [
    | inl e ↦ rw e (exists-delete xs)
    | inr e ↦ rw (e, e) (exists-delete xs)
  ]

  -- A DELETE that matches no row changes nothing.
  pub delete-eq_self : (xs : List A) → exists p xs ≡ false → delete p xs ≡ xs
  delete-eq_self [] h = refl
  delete-eq_self (x ∷ xs) h = ground (arith, delete-eq_self xs)

  pub exists-find : (xs : List A) → exists p xs ≡ is_some (find p xs)
  exists-find [] = refl
  exists-find (x ∷ xs) = ground (arith, exists-find xs)

  pub count-le-length : (xs : List A) → count p xs ≤ length xs
  count-le-length [] = omega arith
  count-le-length (x ∷ xs) = ground (arith, count-le-length xs)

  -- The row that is found matches.
  pub find_sound : (xs : List A) (a : A) → find p xs ≡ some a → p a ≡ true
  find_sound [] a h = cc
  find_sound (x ∷ xs) a h = ground (arith, find_sound xs a)
