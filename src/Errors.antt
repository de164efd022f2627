-- ===== src/Errors.antt =====
-- The exceptions of the program, and code that may raise one.
pub mod Holds
use qwen_autonomous_supervis.Prelude.{String, Bool, true, false, ◌≡◌, refl}

-- `BudgetExceeded` is a `SafetyPause`. `sqlite_error` stands for `sqlite3.Error`, `key_error` for
-- `KeyError`, `attribute_error` for `AttributeError`, `type_error` for `TypeError`; the other names are the classes'. Each carries its text, `str(exc)`.
pub data Exception : Type 0 where
  safety_pause budget_exceeded : String → Exception
  policy_violation qwen_unavailable operation_not_confirmed job_error : String → Exception
  runtime_error value_error config_error type_error os_error subprocess_error : String → Exception
  key_error attribute_error sqlite_error : String → Exception

-- `str(exc)`
abbrev pub text : Exception → String
text (safety_pause s) = s
text (budget_exceeded s) = s
text (policy_violation s) = s
text (qwen_unavailable s) = s
text (operation_not_confirmed s) = s
text (job_error s) = s
text (runtime_error s) = s
text (value_error s) = s
text (config_error s) = s
text (type_error s) = s
text (os_error s) = s
text (subprocess_error s) = s
text (key_error s) = s
text (attribute_error s) = s
text (sqlite_error s) = s

pub data Result {ℓ} (A : Type ℓ) : Type ℓ where
  ok : A → Result A
  err : Exception → Result A

abbrev is_ok {ℓ} : {A : Type ℓ} → Result A → Bool
is_ok (ok a) = true
is_ok (err e) = false

-- The code after a step that may raise.
infixl 5 ◌>>=◌
abbrev pub ◌>>=◌ {ℓ ℓ'} : {A : Type ℓ} {B : Type ℓ'} (m : Result A) (rest : A → Result B) → Result B
err e >>= rest = err e
ok a >>= rest = rest a

infixl 5 ◌>>◌
abbrev pub ◌>>◌ {ℓ} : {B : Type ℓ} (m : Result (Unit {0})) (rest : Result B) → Result B
err e >> rest = err e
ok _ >> rest = rest

-- If a step and the rest after it returned, each of them did.
pub returned_of_bind {ℓ ℓ'} :
    {A : Type ℓ} {B : Type ℓ'} (step : Result A) (rest : A → Result B) {end : B}
    → (step >>= rest) ≡ ok end
    → (value : A) × (step ≡ ok value) × (rest value ≡ ok end)
returned_of_bind (err e) rest same = cc
returned_of_bind (ok value) rest same = (value, refl, same)
