-- ===== src/Runtime/Artifacts/Order.antt =====
-- Artifacts in the order of their moments, the newest first.
use qwen_autonomous_supervis.Prelude.{
  ℕ, ◌≤◌, inl, inr, Bool-cases, ltb, count, ◌≡◌, refl, Bool, false, List, [], ◌∷◌, exists,
  descending, insert_by, All, arith,
}
use qwen_autonomous_supervis.Runtime.Artifacts.{Artifact}

-- No file of the second list was modified after `f`.
abbrev pub IsNewest : List Artifact → Artifact → Type 0
IsNewest fs f = All (λ (g : Artifact). g.modified_at ≤ f.modified_at) fs

abbrev pub IsSorted : List Artifact → Type 0
IsSorted [] = Unit
IsSorted (f ∷ fs) = IsNewest fs f × IsSorted fs

pub All-map :
    {P Q : Artifact → Type 0} (fs : List Artifact)
    → ((f : Artifact) → P f → Q f)
    → All P fs
    → All Q fs
All-map [] k h = tt
All-map (f ∷ fs) k h = (k f h.0, All-map fs k h.1)

pub insert_by-IsSorted :
    (f : Artifact) (fs : List Artifact)
    → IsSorted fs
    → IsSorted (insert_by (λ (g : Artifact). g.modified_at) f fs)
insert_by-IsSorted f [] h = (tt, tt)
insert_by-IsSorted f (g ∷ gs) h = elim (Bool-cases (ltb f.modified_at g.modified_at)) [
  | inl y ↦ rw y (All-insert_by g.modified_at f gs (ground arith) h.0, insert_by-IsSorted f gs h.1)
  | inr n ↦
      let le : g.modified_at ≤ f.modified_at = ground arith in
      rw n ((le, All-map gs (λ k below. omega (arith, below, le)) h.0), h)
]
  where
    All-insert_by :
        (n : ℕ) (f : Artifact) (fs : List Artifact)
        → f.modified_at ≤ n
        → All (λ (k : Artifact). k.modified_at ≤ n) fs
        → All
            (λ (k : Artifact). k.modified_at ≤ n)
            (insert_by (λ (k : Artifact). k.modified_at) f fs)
    All-insert_by n f [] h k = (h, tt)
    All-insert_by n f (g ∷ gs) h k = ground (arith, All-insert_by n f gs h k.1)

pub descending-IsSorted :
    (fs : List Artifact) → IsSorted (descending (λ (f : Artifact). f.modified_at) fs)
descending-IsSorted [] = tt
descending-IsSorted (f ∷ fs) = insert_by-IsSorted f _ (descending-IsSorted fs)

pub count-insert_by :
    (key : Artifact → ℕ) (p : Artifact → Bool) (f : Artifact) (fs : List Artifact)
    → count p (insert_by key f fs) ≡ count p (f ∷ fs)
count-insert_by key p f [] = refl
count-insert_by key p f (g ∷ gs) = ground (arith, count-insert_by key p f gs)

pub count-descending :
    (key : Artifact → ℕ) (p : Artifact → Bool) (fs : List Artifact)
    → count p (descending key fs) ≡ count p fs
count-descending key p [] = refl
count-descending key p (f ∷ fs) =
    omega (arith, count-insert_by key p f (descending key fs), count-descending key p fs)

pub exists-insert_by :
    (key : Artifact → ℕ) (p : Artifact → Bool) (f : Artifact) (fs : List Artifact)
    → exists p (f ∷ fs) ≡ false
    → exists p (insert_by key f fs) ≡ false
exists-insert_by key p f [] h = h
exists-insert_by key p f (g ∷ gs) h = ground (arith, exists-insert_by key p f gs)

pub exists-descending :
    (key : Artifact → ℕ) (p : Artifact → Bool) (fs : List Artifact)
    → exists p fs ≡ false
    → exists p (descending key fs) ≡ false
exists-descending key p [] h = refl
exists-descending key p (f ∷ fs) h =
    ground (arith, exists-descending key p fs, exists-insert_by key p f (descending key fs))
