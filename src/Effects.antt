-- ===== src/Effects.antt =====
-- Code that works on a state and may raise. What was written before an exception stays written, so the
-- state comes back beside the exception too.
pub mod Rules
pub mod Returns
use qwen_autonomous_supervis.Prelude.{Bool, true, false}
use qwen_autonomous_supervis.Errors.{Exception, Result, ok, err}

abbrev pub Effect : Type 0 → Type 0 → Type 0
Effect S A = S → Result A × S

module _ {S A : Type 0} where
  abbrev pub give : A → Effect S A
  give a s = (ok a, s)

  abbrev pub throw : Exception → Effect S A
  throw e s = (err e, s)

  -- The answer of something outside, which leaves the state alone.
  abbrev pub answer : Result A → Effect S A
  answer r s = (r, s)

  abbrev pub read : (S → A) → Effect S A
  read f s = (ok (f s), s)

-- What follows a step: nothing, if it raised.
abbrev pub go_on : {S A B : Type 0} → Result A → (A → Effect S B) → Effect S B
go_on (ok a) f s = f a s
go_on (err e) f s = (err e, s)

infixl 5 ◌>>=◌ ◌>>◌
unfoldable pub ◌>>=◌ : {S A B : Type 0} → Effect S A → (A → Effect S B) → Effect S B
◌>>=◌ m f s = let (r, s') = m s in go_on r f s'

abbrev pub ◌>>◌ : {S A B : Type 0} → Effect S A → Effect S B → Effect S B
m >> k = m >>= λ _. k

abbrev pub change : {S : Type 0} → (S → S) → Effect S (Unit {0})
change f s = (ok tt, f s)

-- `if c: raise e`
abbrev pub throw_if : {S : Type 0} → Bool → Exception → Effect S (Unit {0})
throw_if true e = throw e
throw_if false e = give tt

-- `try: m except … as exc: handler(exc)`
abbrev pub handle : {S A : Type 0} → Result A → (Exception → Effect S A) → Effect S A
handle (ok a) h s = (ok a, s)
handle (err e) h s = h e s

unfoldable pub catch : {S A : Type 0} → Effect S A → (Exception → Effect S A) → Effect S A
catch m h s = let (r, s') = m s in handle r h s'

-- `try: m finally: f`, where f raises nothing.
unfoldable pub finally : {S A : Type 0} → Effect S A → (S → S) → Effect S A
finally m f s = let (r, s') = m s in (r, f s')
