-- ===== src/Runtime/Artifacts/Laws.antt =====
-- Which artifacts the retention keeps and removes.
use mathlib.Core.Path.{subst}
use qwen_autonomous_supervis.Prelude.{
  sym, ◌∙◌, true, if◌then◌else◌, ℕ, ◌+◌, ◌-◌, ◌≤◌, ◌<◌, ◌⊎◌, inl, inr, Bool-cases, ltb, leb, ◌&&◌,
  count, String, ◌≡◌, refl, Bool, false, Option, List, [], ◌∷◌, not, length, select, exists, All,
  arith,
}
use qwen_autonomous_supervis.Config.{StorageConfig}
use qwen_autonomous_supervis.Runtime.Artifacts.{
  Artifact, is_active_path, cutoff, retain_from, candidates, retain_artifacts,
}
use qwen_autonomous_supervis.Runtime.Artifacts.Order.{
  IsNewest, IsSorted, All-map, descending-IsSorted, count-descending, exists-descending,
}

-- Every file that is removed is too old, or the files that are kept are as many as may be.
abbrev pub IsExcused : StorageConfig → ℕ → ℕ → Artifact → Type 0
IsExcused c now kept f = (f.modified_at < cutoff c now) ⊎ (kept ≡ c.maximum_artifacts)

abbrev kept_from : StorageConfig → ℕ → ℕ → List Artifact → List Artifact
kept_from c now index fs = (retain_from c now index fs).0

abbrev removed_from : StorageConfig → ℕ → ℕ → List Artifact → List Artifact
removed_from c now index fs = (retain_from c now index fs).1

-- Bounds from an index on.
retain_from_lem :
    (c : StorageConfig) (now index : ℕ) (fs : List Artifact)
    → (length (kept_from c now index fs) ≤ c.maximum_artifacts - index)
      × All (λ (f : Artifact). cutoff c now ≤ f.modified_at) (kept_from c now index fs)
unfolding retain_from
retain_from_lem c now index [] = (omega arith, tt)
retain_from_lem c now index (f ∷ fs) = ground (arith, retain_from_lem c now (index + 1) fs)

retain_from-count :
    (c : StorageConfig) (now index : ℕ) (p : Artifact → Bool) (fs : List Artifact)
    → count p (kept_from c now index fs) + count p (removed_from c now index fs) ≡ count p fs
unfolding retain_from
retain_from-count c now index p [] = refl
retain_from-count c now index p (f ∷ fs) = ground (arith, retain_from-count c now (index + 1) p fs)

pick :
    (R : List Artifact × List Artifact → Type 0) (b : Bool) (x y : List Artifact × List Artifact)
    → (b ≡ true → R x)
    → (b ≡ false → R y)
    → R (if b then x else y)
pick R true x y h k = h refl
pick R false x y h k = k refl

-- The next file is kept or removed, by the test of the loop.
pick_next :
    (c : StorageConfig) (now index : ℕ) (f : Artifact) (fs : List Artifact)
    (R : List Artifact × List Artifact → Type 0)
    → ((ltb index c.maximum_artifacts && leb (cutoff c now) f.modified_at) ≡ true
        → R (f ∷ kept_from c now (index + 1) fs, removed_from c now (index + 1) fs))
    → ((ltb index c.maximum_artifacts && leb (cutoff c now) f.modified_at) ≡ false
        → R (kept_from c now (index + 1) fs, f ∷ removed_from c now (index + 1) fs))
    → R (retain_from c now index (f ∷ fs))
unfolding retain_from
pick_next c now index f fs R when_kept when_removed =
    pick R (ltb index c.maximum_artifacts && leb (cutoff c now) f.modified_at)
      (f ∷ kept_from c now (index + 1) fs, removed_from c now (index + 1) fs)
      (kept_from c now (index + 1) fs, f ∷ removed_from c now (index + 1) fs) when_kept when_removed

-- What holds of every file holds of those that are kept and of those that are removed.
All-retain_from :
    (P : Artifact → Type 0) (c : StorageConfig) (now index : ℕ) (fs : List Artifact)
    → All P fs
    → All P (kept_from c now index fs) × All P (removed_from c now index fs)
unfolding retain_from
All-retain_from P c now index [] h = (tt, tt)
All-retain_from P c now index (f ∷ fs) h =
    let rest = All-retain_from P c now (index + 1) fs h.1 in
    pick_next c now index f fs (λ r. All P r.0 × All P r.1) (λ y. ((h.0, rest.0), rest.1))
      (λ n. (rest.0, (h.0, rest.1)))

-- Nothing is kept after a file that is removed.
nothing_kept :
    (c : StorageConfig) (now index : ℕ) (f : Artifact) (kept : List Artifact)
    → (ltb index c.maximum_artifacts && leb (cutoff c now) f.modified_at) ≡ false
    → length kept ≤ c.maximum_artifacts - (index + 1)
    → All (λ (g : Artifact). cutoff c now ≤ g.modified_at) kept
    → IsNewest kept f
    → kept ≡ []
nothing_kept c now index f [] h few fresh older = refl
nothing_kept c now index f (g ∷ gs) h few fresh older = ground (arith, fresh.0, older.0)

retain_from-IsNewest :
    (c : StorageConfig) (now index : ℕ) (fs : List Artifact)
    → IsSorted fs
    → All (IsNewest (removed_from c now index fs)) (kept_from c now index fs)
unfolding retain_from
retain_from-IsNewest c now index [] h = tt
retain_from-IsNewest c now index (f ∷ fs) h =
    let rest = retain_from-IsNewest c now (index + 1) fs h.1 in
    let older =
      All-retain_from (λ (g : Artifact). g.modified_at ≤ f.modified_at) c now (index + 1) fs h.0 in
    let bounds = retain_from_lem c now (index + 1) fs in
    pick_next c now index f fs (λ r. All (IsNewest r.1) r.0) (λ y. (older.1, rest))
      λ n.
        subst (λ kept. All (IsNewest (f ∷ removed_from c now (index + 1) fs)) kept)
          (sym (
            nothing_kept c now index f (kept_from c now (index + 1) fs) n bounds.0 bounds.1
              older.0))
          tt

everywhere : {P : Artifact → Type 0} (fs : List Artifact) → ((f : Artifact) → P f) → All P fs
everywhere [] k = tt
everywhere (f ∷ fs) k = (k f, everywhere fs k)

-- `IsExcused` with the files that are kept from an index on.
abbrev IsExcusedFrom : StorageConfig → ℕ → ℕ → ℕ → Artifact → Type 0
IsExcusedFrom c now index kept f =
    (f.modified_at < cutoff c now) ⊎ (kept ≡ c.maximum_artifacts - index)

removed-IsExcused :
    (c : StorageConfig) (now index : ℕ) (f : Artifact) (kept removed : List Artifact)
    → (ltb index c.maximum_artifacts && leb (cutoff c now) f.modified_at) ≡ false
    → length kept ≤ c.maximum_artifacts - (index + 1)
    → IsNewest removed f
    → All (IsExcusedFrom c now index (length kept)) (f ∷ removed)
removed-IsExcused c now index f kept removed h few older =
    elim (Bool-cases (ltb index c.maximum_artifacts)) [
      | inl y ↦
          let stale : f.modified_at < cutoff c now = ground arith in
          (inl stale, All-map removed (λ g le. inl (omega (arith, le, stale))) older)
      | inr n ↦
          let full : length kept ≡ c.maximum_artifacts - index = ground arith in
          (inr full, everywhere removed λ g. inr full)
    ]

retain_from-IsExcused :
    (c : StorageConfig) (now index : ℕ) (fs : List Artifact)
    → IsSorted fs
    → All
        (IsExcusedFrom c now index (length (kept_from c now index fs)))
        (removed_from c now index fs)
unfolding retain_from
retain_from-IsExcused c now index [] h = tt
retain_from-IsExcused c now index (f ∷ fs) h =
    let rest = retain_from-IsExcused c now (index + 1) fs h.1 in
    let older =
      All-retain_from (λ (g : Artifact). g.modified_at ≤ f.modified_at) c now (index + 1) fs h.0 in
    let bounds = retain_from_lem c now (index + 1) fs in
    pick_next c now index f fs (λ r. All (IsExcusedFrom c now index (length r.0)) r.1)
      (λ y.
        All-map (removed_from c now (index + 1) fs)
          (λ g x. elim x [ inl stale ↦ inl stale | inr full ↦ inr (ground arith) ]) rest)
      (λ n.
        removed-IsExcused c now index f (kept_from c now (index + 1) fs)
          (removed_from c now (index + 1) fs) n bounds.0 older.1)

exists-removed :
    (c : StorageConfig) (now index : ℕ) (p : Artifact → Bool) (fs : List Artifact)
    → exists p fs ≡ false
    → exists p (retain_from c now index fs).1 ≡ false
unfolding retain_from
exists-removed c now index p [] h = refl
exists-removed c now index p (f ∷ fs) h = ground (arith, exists-removed c now (index + 1) p fs)

exists-select-not :
    (p : Artifact → Bool) (fs : List Artifact)
    → exists p (select (λ (f : Artifact). not (p f)) fs) ≡ false
exists-select-not p [] = refl
exists-select-not p (f ∷ fs) = ground (arith, exists-select-not p fs)

-- Of the files other than the active run's output file, which is never removed: at most `maximum_artifacts` are
-- kept, and none of them was modified longer than `artifact_retention_days` ago; a removed one was modified
-- longer ago than that, or as many as `maximum_artifacts` are kept; no removed one was modified after a kept
-- one; and each is kept or removed, and as often as it is listed.
pub retain_artifacts_lem :
    (c : StorageConfig) (now : ℕ) (active : Option String) (files : List Artifact)
    → let (kept, removed) = retain_artifacts c now active files in
      (length kept ≤ c.maximum_artifacts)
      × All (λ (f : Artifact). cutoff c now ≤ f.modified_at) kept
      × All (IsExcused c now (length kept)) removed
      × All (IsNewest removed) kept
      × ((p : Artifact → Bool)
          → count p kept + count p removed
            ≡ count p (select (λ (f : Artifact). not (is_active_path active f)) files))
      × (exists (is_active_path active) removed ≡ false)
unfolding retain_artifacts candidates
retain_artifacts_lem c now active files =
    let others = select (λ (f : Artifact). not (is_active_path active f)) files in
    let bounds = retain_from_lem c now 0 (candidates active files) in
    let sorted = descending-IsSorted others in
    (
      omega (arith, bounds.0),
      bounds.1,
      All-map _ (λ f x. elim x [ inl stale ↦ inl stale | inr full ↦ inr (omega (arith, full)) ])
          (retain_from-IsExcused c now 0 (candidates active files) sorted),
      retain_from-IsNewest c now 0 (candidates active files) sorted,
      λ p.
          retain_from-count c now 0 p (candidates active files)
          ∙ count-descending (λ (f : Artifact). f.modified_at) p others,
      exists-removed c now 0 (is_active_path active) (candidates active files)
          (exists-descending _ _ others (exists-select-not (is_active_path active) files)),
    )
