-- ===== src/Config/Holds.antt =====
-- Conditions on what a check of a configuration value returns.
use qwen_autonomous_supervis.Errors.Holds.{Holds, fails}
use qwen_autonomous_supervis.Prelude.{String, Bool, true, false, ◌≡◌, refl, Option, none, some}
use qwen_autonomous_supervis.Errors.{Result, ◌>>=◌, ◌>>◌}
use qwen_autonomous_supervis.Config.Values.{raise_if, found}

module _ {A B : Type 0} {Q : B → Type 0} where
  pub Holds-found :
      (o : Option A) (message : String) (f : A → Result B)
      → ((a : A) → o ≡ some a → Holds Q (f a))
      → Holds Q (found o message >>= f)
  unfolding found
  Holds-found none message f k = fails
  Holds-found (some a) message f k = k a refl

-- The code after a test that raises.
pub Holds-raise_if :
    {B : Type 0} {Q : B → Type 0} (b : Bool) (message : String) (rest : Result B)
    → (b ≡ false → Holds Q rest)
    → Holds Q (raise_if b message >> rest)
unfolding raise_if
Holds-raise_if true message rest k = fails
Holds-raise_if false message rest k = k refl
