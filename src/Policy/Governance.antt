-- ===== src/Policy/Governance.antt =====
-- The test of protected paths in src/qas/policy.py.
use qwen_autonomous_supervis.Prelude.{
  String, ◌≡◌, ◌↔◌, refl, Bool, false, List, [], ◌∷◌, arith, exists, select, Bool-cases, inl, inr,
}
use qwen_autonomous_supervis.Prelude.Text.{codes, ◌+s◌}
use qwen_autonomous_supervis.Errors.{Result, ok, err, policy_violation}
use qwen_autonomous_supervis.Policy.{
  Matcher, is_protected, codes_leb, insert_text, sorted, join_after, protected_changes,
  assert_governance,
}

insert_text-nonempty : (s : String) (ts : List String) → ¬ (insert_text s ts ≡ [])
insert_text-nonempty s [] h = cc
insert_text-nonempty s (t ∷ ts) h = elim (Bool-cases (codes_leb (codes s) (codes t))) [
  | inl y ↦ ground arith
  | inr n ↦ ground arith
]

sorted_nil_iff : (ss : List String) → (sorted ss ≡ []) ↔ (ss ≡ [])
sorted_nil_iff [] = (λ h. h, λ h. h)
sorted_nil_iff (s ∷ ss) = (λ h. absurd (insert_text-nonempty s (sorted ss) h), λ h. cc)

select_nil_iff : (p : String → Bool) (ss : List String) → (select p ss ≡ []) ↔ (exists p ss ≡ false)
select_nil_iff p [] = (λ h. refl, λ h. refl)
select_nil_iff p (s ∷ ss) = ground (arith, select_nil_iff p ss)

passes_iff :
    (found : List String)
    → (elim found as (λ _. Result (Unit {0})) [
      | [] ↦ ok tt
      | p ∷ ps ↦ err (policy_violation ("Protected governance paths changed: " +s join_after p ps))
    ]
        ≡ ok tt)
      ↔ (found ≡ [])
passes_iff [] = (λ h. refl, λ h. refl)
passes_iff (p ∷ ps) = (λ h. cc, λ h. cc)

-- The test passes exactly if no changed path matches a protected pattern.
pub assert_governance_iff :
    (fnmatch : Matcher) (patterns paths : List String)
    → (assert_governance fnmatch patterns paths ≡ ok tt)
      ↔ (exists (λ path. exists (λ p. fnmatch path p) patterns) paths ≡ false)
unfolding assert_governance protected_changes
assert_governance_iff fnmatch patterns paths =
    let chosen = select_nil_iff (is_protected fnmatch patterns) paths in
    let none_left = sorted_nil_iff (select (is_protected fnmatch patterns) paths) in
    (
      λ h.
          chosen.0 (
            none_left.0 ((passes_iff (sorted (select (is_protected fnmatch patterns) paths))).0 h)),
      λ h.
          (passes_iff (sorted (select (is_protected fnmatch patterns) paths))).1
            (none_left.1 (chosen.1 h)),
    )
