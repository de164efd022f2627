-- ===== src/Effects/Returns.antt =====
-- What is known of the value when an effect returns one, whatever the state was.
use qwen_autonomous_supervis.Prelude.{◌≡◌, refl, Bool, true, false}
use qwen_autonomous_supervis.Errors.{Exception, Result, ok, err}
use qwen_autonomous_supervis.Effects.{
  Effect, give, throw, answer, go_on, throw_if, handle, catch, finally, ◌>>=◌,
}

-- `F` of the value, if there is one.
pub data Yields {A : Type 0} (F : A → Type 0) : Result A → Type 0 where
  yields : {a : A} → F a → Yields F (ok a)
  raises : {e : Exception} → Yields F (err e)

pub record Returns {S A : Type 0} (F : A → Type 0) (m : Effect S A) : Type 0 where
  pub at : (s : S) → Yields F (m s).0

pub Yields-ok : {A : Type 0} {F : A → Type 0} {a : A} → Yields F (ok a) → F a
Yields-ok (yields h) = h

module _ {S A B : Type 0} {F : A → Type 0} {G : B → Type 0} where
  go_on-Yields :
      (r : Result A) (f : A → Effect S B) (s : S)
      → ((a : A) → F a → Returns G (f a))
      → Yields F r
      → Yields G (go_on r f s).0
  go_on-Yields (ok a) f s k (yields h) = (k a h).at s
  go_on-Yields (err e) f s k raises = raises

  pub Returns-bind :
      (m : Effect S A) (f : A → Effect S B)
      → Returns F m
      → ((a : A) → F a → Returns G (f a))
      → Returns G (m >>= f)
  unfolding ◌>>=◌
  Returns-bind m f k kf = record { at = λ s. let (r, s') = m s in go_on-Yields r f s' kf (k.at s) }

module _ {S A : Type 0} where
  -- Nothing is known.
  pub Returns-any : (m : Effect S A) → Returns (λ _. Unit {0}) m
  Returns-any m = record { at = λ s. anything (m s).0 }
    where
      anything : (r : Result A) → Yields (λ _. Unit {0}) r
      anything (ok a) = yields tt
      anything (err e) = raises

  pub Returns-answer : (r : Result A) → Returns (λ a. r ≡ ok a) (answer {S = S} r)
  Returns-answer (ok a) = record { at = λ s. yields refl }
  Returns-answer (err e) = record { at = λ s. raises }

module _ {S A : Type 0} {F : A → Type 0} where
  pub Returns-give : (a : A) → F a → Returns F (give {S = S} a)
  Returns-give a h = record { at = λ s. yields h }

  pub Returns-throw : (e : Exception) → Returns F (throw {S = S} e)
  Returns-throw e = record { at = λ s. raises }

  handle-Yields :
      (r : Result A) (g : Exception → Effect S A) (s : S)
      → ((e : Exception) → Returns F (g e))
      → Yields F r
      → Yields F (handle r g s).0
  handle-Yields (ok a) g s k h = h
  handle-Yields (err e) g s k h = (k e).at s

  pub Returns-catch :
      (m : Effect S A) (g : Exception → Effect S A)
      → Returns F m
      → ((e : Exception) → Returns F (g e))
      → Returns F (catch m g)
  unfolding catch
  Returns-catch m g k kg = record {
    at = λ s. let (r, s') = m s in handle-Yields r g s' kg (k.at s);
  }

  pub Returns-finally : (m : Effect S A) (f : S → S) → Returns F m → Returns F (finally m f)
  unfolding finally
  Returns-finally m f k = record { at = λ s. k.at s }

pub Returns-throw_if :
    {S : Type 0} (b : Bool) (e : Exception) → Returns (λ _. b ≡ false) (throw_if {S = S} b e)
Returns-throw_if true e = record { at = λ s. raises }
Returns-throw_if false e = record { at = λ s. yields refl }

module _ {A : Type 0} {F G : A → Type 0} where
  Yields-imp : (r : Result A) → ((a : A) → F a → G a) → Yields F r → Yields G r
  Yields-imp (ok a) k (yields h) = yields (k a h)
  Yields-imp (err e) k h = raises

  pub Returns-imp :
      {S : Type 0} (m : Effect S A) → Returns F m → ((a : A) → F a → G a) → Returns G m
  Returns-imp m h k = record { at = λ s. Yields-imp _ k (h.at s) }
