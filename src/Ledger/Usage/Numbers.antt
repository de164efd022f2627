-- ===== src/Ledger/Usage/Numbers.antt =====
-- The numbers that `collect` of src/qas/db.py looks for in a usage report, and the keys that it tells apart.
use qwen_autonomous_supervis.Prelude.{
  ℕ, String, ◌≡◌, refl, Bool, true, false, List, [], ◌∷◌, ◌++◌, arith, ◌&&◌, ◌||◌, if◌then◌else◌,
  Bool-cases, inl, inr,
}
use qwen_autonomous_supervis.Prelude.Int.{ℤ, pos, ◌+ℤ◌, int_laws}
use qwen_autonomous_supervis.Prelude.Text.{codes}
use qwen_autonomous_supervis.Json.{
  Json, null, bool, int, real, str, arr, obj, Items, nil, cons, Fields, end, field, trunc,
}
use qwen_autonomous_supervis.Ledger.Usage.Collect.{
  is_input, is_output, is_total, is_spelled, same_codes,
}

-- The numbers of a report that stand under a key, at any depth, each with its key.
unfoldable mutual
  pub numbers : Json → List (String × ℤ)
  numbers null = []
  numbers (bool b) = []
  numbers (int n) = []
  numbers (real n) = []
  numbers (str s) = []
  numbers (arr xs) = numbers_in xs
  numbers (obj fs) = numbers_of fs

  pub numbers_in : Items → List (String × ℤ)
  numbers_in nil = []
  numbers_in (cons v xs) = numbers v ++ numbers_in xs

  pub numbers_of : Fields → List (String × ℤ)
  numbers_of end = []
  numbers_of (field k (int n) fs) = (k, n) ∷ numbers_of fs
  numbers_of (field k (real n) fs) = (k, trunc n) ∷ numbers_of fs
  numbers_of (field k null fs) = numbers_of fs
  numbers_of (field k (bool b) fs) = numbers_of fs
  numbers_of (field k (str s) fs) = numbers_of fs
  numbers_of (field k (arr xs) fs) = numbers_in xs ++ numbers_of fs
  numbers_of (field k (obj gs) fs) = numbers_of gs ++ numbers_of fs

-- The sum of the numbers whose key passes a test.
abbrev pub sum_if : (String → Bool) → List (String × ℤ) → ℤ
sum_if p [] = pos 0
sum_if p ((k, n) ∷ ns) = (if p k then n else pos 0) +ℤ sum_if p ns

pub sum_if-append :
    (p : String → Bool) (ms ns : List (String × ℤ))
    → sum_if p (ms ++ ns) ≡ sum_if p ms +ℤ sum_if p ns
sum_if-append p [] ns = omega int_laws
sum_if-append p ((k, n) ∷ ms) ns = rw (sum_if-append p ms ns) (omega int_laws)

same_codes_trans :
    (xs ys zs : List ℕ)
    → same_codes xs ys ≡ true
    → same_codes xs zs ≡ true
    → same_codes ys zs ≡ true
same_codes_trans [] [] [] h k = refl
same_codes_trans [] [] (z ∷ zs) h k = cc
same_codes_trans [] (y ∷ ys) zs h k = cc
same_codes_trans (x ∷ xs) [] zs h k = cc
same_codes_trans (x ∷ xs) (y ∷ ys) [] h k = cc
same_codes_trans (x ∷ xs) (y ∷ ys) (z ∷ zs) h k = ground (arith, same_codes_trans xs ys zs)

-- A key is not spelled like two names that differ.
apart :
    (a b k : String)
    → same_codes (codes a) (codes b) ≡ false
    → (is_spelled a k && is_spelled b k) ≡ false
unfolding is_spelled
apart a b k h = elim (Bool-cases (is_spelled a k)) [
  | inl y ↦ elim (Bool-cases (is_spelled b k)) [
    | inl z ↦ cc (same_codes_trans _ (codes a) (codes b) y z, h)
    | inr z ↦ ground arith
  ]
  | inr y ↦ ground arith
]

pub outputs_apart : (k : String) → (is_input k && is_output k) ≡ false
unfolding is_input is_output
outputs_apart k = ground (
  arith,
  apart "input_tokens" "output_tokens" k refl,
  apart "input_tokens" "outputtokens" k refl,
  apart "input_tokens" "completion_tokens" k refl,
  apart "inputtokens" "output_tokens" k refl,
  apart "inputtokens" "outputtokens" k refl,
  apart "inputtokens" "completion_tokens" k refl,
  apart "prompt_tokens" "output_tokens" k refl,
  apart "prompt_tokens" "outputtokens" k refl,
  apart "prompt_tokens" "completion_tokens" k refl,
)

pub totals_apart : (k : String) → ((is_input k || is_output k) && is_total k) ≡ false
unfolding is_input is_output is_total
totals_apart k = ground (
  arith,
  apart "input_tokens" "total_tokens" k refl,
  apart "inputtokens" "total_tokens" k refl,
  apart "prompt_tokens" "total_tokens" k refl,
  apart "output_tokens" "total_tokens" k refl,
  apart "outputtokens" "total_tokens" k refl,
  apart "completion_tokens" "total_tokens" k refl,
  apart "input_tokens" "totaltokens" k refl,
  apart "inputtokens" "totaltokens" k refl,
  apart "prompt_tokens" "totaltokens" k refl,
  apart "output_tokens" "totaltokens" k refl,
  apart "outputtokens" "totaltokens" k refl,
  apart "completion_tokens" "totaltokens" k refl,
)
