-- ===== src/Effects/Rules.antt =====
-- Pre- and postconditions of effects, with a rule for each way to build one.
use qwen_autonomous_supervis.Errors.{Exception, Result, ok, err}
use qwen_autonomous_supervis.Effects.{Effect, give, throw, go_on, handle, catch, finally, ◌>>=◌}

-- `Q` of a returned value and the state, or `E` of an exception and the state.
pub data Post {S A : Type 0} (Q : A → S → Type 0) (E : Exception → S → Type 0)
    : Result A → S → Type 0 where
  returned : {a : A} {s : S} → Q a s → Post Q E (ok a) s
  raised : {e : Exception} {s : S} → E e s → Post Q E (err e) s

-- From a state with `P` the effect ends in one with `Q`, or raises in one with `E`.
pub record Triple {S A : Type 0} (P : S → Type 0) (m : Effect S A) (Q : A → S → Type 0)
    (E : Exception → S → Type 0) : Type 0 where
  pub at : (s : S) → P s → Post Q E (m s).0 (m s).1

module _ {S A B : Type 0} {R : A → S → Type 0} {Q : B → S → Type 0}
    {E : Exception → S → Type 0} where
  go_on-Post :
      (r : Result A) (f : A → Effect S B) (s : S)
      → ((a : A) → Triple (R a) (f a) Q E)
      → Post R E r s
      → Post Q E (go_on r f s).0 (go_on r f s).1
  go_on-Post (ok a) f s k (returned h) = (k a).at s h
  go_on-Post (err e) f s k (raised h) = raised h

  pub Triple-bind :
      {P : S → Type 0} (m : Effect S A) (f : A → Effect S B)
      → Triple P m R E
      → ((a : A) → Triple (R a) (f a) Q E)
      → Triple P (m >>= f) Q E
  unfolding ◌>>=◌
  Triple-bind m f k kf = record { at = λ s h. let (r, s') = m s in go_on-Post r f s' kf (k.at s h) }

module _ {S A : Type 0} {Q : A → S → Type 0} {E F : Exception → S → Type 0} where
  handle-Post :
      (r : Result A) (g : Exception → Effect S A) (s : S)
      → ((e : Exception) → Triple (F e) (g e) Q E)
      → Post Q F r s
      → Post Q E (handle r g s).0 (handle r g s).1
  handle-Post (ok a) g s k (returned h) = returned h
  handle-Post (err e) g s k (raised h) = (k e).at s h

  pub Triple-catch :
      {P : S → Type 0} (m : Effect S A) (g : Exception → Effect S A)
      → Triple P m Q F
      → ((e : Exception) → Triple (F e) (g e) Q E)
      → Triple P (catch m g) Q E
  unfolding catch
  Triple-catch m g k kg = record {
    at = λ s h. let (r, s') = m s in handle-Post r g s' kg (k.at s h);
  }

module _ {S A : Type 0} {Q : A → S → Type 0} {E : Exception → S → Type 0} where
  -- However a step ended.
  pub Post-either :
      (r : Result A) (s : S) → ((a : A) → Q a s) → ((e : Exception) → E e s) → Post Q E r s
  Post-either (ok a) s q x = returned (q a)
  Post-either (err e) s q x = raised (x e)

  pub Post-ok : {a : A} {s : S} → Post Q E (ok a) s → Q a s
  Post-ok (returned h) = h

  pub Post-err : {e : Exception} {s : S} → Post Q E (err e) s → E e s
  Post-err (raised h) = h

  -- What holds of the state however the effect ended.
  pub Post-both :
      {r : Result A} {s : S} (P : S → Type 0)
      → ((a : A) → Q a s → P s)
      → ((e : Exception) → E e s → P s)
      → Post Q E r s
      → P s
  Post-both P q x (returned {a = a} h) = q a h
  Post-both P q x (raised {e = e} h) = x e h

module _ {S A : Type 0} {P : S → Type 0} {E : Exception → S → Type 0} where
  pub Triple-give : {Q : A → S → Type 0} (a : A) → ((s : S) → P s → Q a s) → Triple P (give a) Q E
  Triple-give a k = record { at = λ s h. returned (k s h) }

  pub Triple-throw :
      {Q : A → S → Type 0} (e : Exception) → ((s : S) → P s → E e s) → Triple P (throw e) Q E
  Triple-throw e k = record { at = λ s h. raised (k s h) }

module _ {S A : Type 0} {Q : A → S → Type 0} {E : Exception → S → Type 0} where
  finally-Post :
      (f : S → S)
      → ((a : A) (s : S) → Q a s → Q a (f s))
      → ((e : Exception) (s : S) → E e s → E e (f s))
      → (r : Result A) (s : S) → Post Q E r s
      → Post Q E r (f s)
  finally-Post f q x (ok a) s (returned h) = returned (q a s h)
  finally-Post f q x (err e) s (raised h) = raised (x e s h)

  pub Triple-finally :
      {P : S → Type 0} (m : Effect S A) (f : S → S)
      → Triple P m Q E
      → ((a : A) (s : S) → Q a s → Q a (f s))
      → ((e : Exception) (s : S) → E e s → E e (f s))
      → Triple P (finally m f) Q E
  unfolding finally
  Triple-finally m f k q x = record { at = λ s h. finally-Post f q x _ _ (k.at s h) }
