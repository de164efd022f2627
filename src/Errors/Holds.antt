-- ===== src/Errors/Holds.antt =====
-- A condition on the value that a step returns, for code that may raise.
use qwen_autonomous_supervis.Prelude.{◌≡◌, refl, Bool, true, false, if◌then◌else◌}
use qwen_autonomous_supervis.Errors.{Exception, Result, ok, err, ◌>>=◌, ◌>>◌}

-- If the step returned, its value has P.
pub data Holds {A : Type 0} (P : A → Type 0) : Result A → Type 0 where
  holds : {a : A} → P a → Holds P (ok a)
  fails : {e : Exception} → Holds P (err e)

module _ {A B : Type 0} {Q : B → Type 0} where
  pub Holds-bind :
      {P : A → Type 0} (m : Result A) (f : A → Result B)
      → Holds P m
      → ((a : A) → P a → Holds Q (f a))
      → Holds Q (m >>= f)
  Holds-bind (ok a) f (holds p) k = k a p
  Holds-bind (err e) f fails k = fails

  -- A step of which nothing is said.
  pub Holds-any : (m : Result A) (f : A → Result B) → ((a : A) → Holds Q (f a)) → Holds Q (m >>= f)
  Holds-any (ok a) f k = k a
  Holds-any (err e) f k = fails

-- After a step without a value.
pub Holds-then :
    {B : Type 0} {Q : B → Type 0} (m : Result (Unit {0})) (rest : Result B)
    → Holds Q rest
    → Holds Q (m >> rest)
Holds-then (ok a) rest k = k
Holds-then (err e) rest k = fails

pub Holds-ok : {A : Type 0} {P : A → Type 0} {a : A} → Holds P (ok a) → P a
Holds-ok (holds p) = p

-- What is known of the value of any step: the step returned it.
pub Holds-self : {A : Type 0} (m : Result A) → Holds (λ a. m ≡ ok a) m
Holds-self (ok a) = holds refl
Holds-self (err e) = fails

pub Holds-map :
    {A : Type 0} {P Q : A → Type 0} {m : Result A} → ((a : A) → P a → Q a) → Holds P m → Holds Q m
Holds-map k (holds p) = holds (k _ p)
Holds-map k fails = fails

pub Holds-if :
    {A : Type 0} {P : A → Type 0} (b : Bool) {x y : Result A}
    → Holds P x
    → Holds P y
    → Holds P (if b then x else y)
Holds-if true hx hy = hx
Holds-if false hx hy = hy

-- With the equation that the step returned the value.
pub Holds-with :
    {A : Type 0} {P : A → Type 0} (m : Result A) → Holds P m → Holds (λ a. P a × (m ≡ ok a)) m
Holds-with (ok a) (holds p) = holds (p, refl)
Holds-with (err e) fails = fails

-- With what the test found.
pub Holds-cases :
    {A : Type 0} {P : A → Type 0} (b : Bool) {x y : Result A}
    → (b ≡ true → Holds P x)
    → (b ≡ false → Holds P y)
    → Holds P (if b then x else y)
Holds-cases true hx hy = hx refl
Holds-cases false hx hy = hy refl
