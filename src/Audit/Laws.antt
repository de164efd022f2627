-- ===== src/Audit/Laws.antt =====
-- When the audit of src/qas/governance_audit.py calls a repository safe.
use qwen_autonomous_supervis.Prelude.{
  String, ◌≡◌, refl, sym, ap, Bool, true, false, Option, none, some, not, is_some, ◌&&◌,
  if◌then◌else◌, arith,
}
use qwen_autonomous_supervis.Prelude.Int.{pos, eq_ℤ}
use qwen_autonomous_supervis.Prelude.Text.{strip, last_chars}
use qwen_autonomous_supervis.Json.{Json, Fields, get, as_object}
use qwen_autonomous_supervis.Errors.Holds.{Holds, holds, fails, Holds-any, Holds-if, Holds-cases}
use qwen_autonomous_supervis.Config.Values.{Builtins}
use qwen_autonomous_supervis.Audit.{
  GhRun, Host, Checks, initial, unsafe_because, Metadata, metadata, all_required, conclude,
  with_protection, with_repository, read_protection, read_parsed, protection_parsed,
  check_protection, with_metadata, audit_governance, required_count,
}

-- The verdict is that of the required controls, a reason stands exactly beside a refusal, and a safe
-- repository was asked with `gh` and authenticated.
abbrev pub IsJudged : Checks → Type 0
IsJudged c =
    (c.safe ≡ all_required c)
    × (is_some c.reason ≡ not c.safe)
    × (c.safe ≡ true → (c.github_cli ≡ true) × (c.remote_authenticated ≡ true))

fifth_false : (a b c d : Bool) → (a && b && false && c && d) ≡ false
fifth_false a b c d = ground arith

unsafe_because-IsJudged :
    (why : String) (detail : Option String) (c : Checks)
    → c.branch_protection_readable ≡ false
    → IsJudged (unsafe_because why detail c)
unsafe_because-IsJudged why detail c unread = (ground arith, refl, λ e. cc)

unread : (h : Host) → (initial h).branch_protection_readable ≡ false
unfolding initial
unread h = refl

concluded-IsJudged :
    (c : Checks) (b : Bool)
    → all_required c ≡ b
    → c.reason ≡ none
    → c.github_cli ≡ true
    → c.remote_authenticated ≡ true
    → IsJudged (
        if b
        then record c { safe = true }
        else record c { safe = false; reason = some "required_governance_control_missing" })
concluded-IsJudged c true e silent asked known = (sym e, ap is_some silent, λ safe. (asked, known))
concluded-IsJudged c false e silent asked known = (sym e, refl, λ safe. cc)

conclude-IsJudged :
    (c : Checks)
    → c.reason ≡ none
    → c.github_cli ≡ true
    → c.remote_authenticated ≡ true
    → IsJudged (conclude c)
conclude-IsJudged c silent asked known =
    concluded-IsJudged c (all_required c) refl silent asked known

-- What the checks are after the metadata was read.
abbrev IsAsked : Checks → Type 0
IsAsked c =
    (c.reason ≡ none)
    × (c.github_cli ≡ true)
    × (c.remote_authenticated ≡ true)
    × (c.branch_protection_readable ≡ false)

module _ (py : Builtins) (loads : String → Option Json) (h : Host) where
  read_protection-IsJudged :
      (protection : Fields) (c : Checks)
      → IsAsked c
      → Holds IsJudged (read_protection py protection c)
  unfolding read_protection
  read_protection-IsJudged protection c a =
      Holds-any (required_count py (as_object (get "required_pull_request_reviews" protection))) _
        λ count. holds (conclude-IsJudged (with_protection protection count c) a.0 a.1 a.2)

  protection_parsed-IsJudged :
      (parsed : Option Json) (c : Checks)
      → IsAsked c
      → Holds IsJudged (protection_parsed py loads h parsed c)
  protection_parsed-IsJudged none c a =
      holds (unsafe_because-IsJudged "invalid_branch_protection_json" none c a.3)
  protection_parsed-IsJudged (some v) c a =
      elim (as_object v) as (λ o. Holds IsJudged (read_parsed py o c)) [
        | none ↦ fails
        | some fs ↦ read_protection-IsJudged fs c a
      ]

  check_protection-IsJudged :
      (run : GhRun) (c : Checks) → IsAsked c → Holds IsJudged (check_protection py loads h run c)
  unfolding check_protection
  check_protection-IsJudged run c a =
      Holds-if (eq_ℤ run.returncode (pos 0)) (protection_parsed-IsJudged _ c a) (
        holds (
          unsafe_because-IsJudged "branch_protection_unreadable"
            (some (last_chars 1000 (strip run.stderr))) c a.3))

  with_metadata-IsJudged :
      (m : Option Metadata)
      → h.has_gh ≡ true
      → Holds IsJudged (with_metadata py loads h m (initial h))
  unfolding initial
  with_metadata-IsJudged none asked =
      holds (unsafe_because-IsJudged "invalid_repository_metadata" none (initial h) refl)
  with_metadata-IsJudged (some m) asked =
      check_protection-IsJudged (h.protection_of m.owner_name m.default_branch)
        (with_repository m (initial h)) (refl, asked, refl, refl)

  -- However `gh` answers, a returned audit calls the repository safe exactly if all eight required controls
  -- are in place, gives a reason exactly if it does not, and calls nothing safe that it could not ask about.
  pub audit_governance-IsJudged : Holds IsJudged (audit_governance py loads h)
  unfolding audit_governance
  audit_governance-IsJudged =
      Holds-cases h.has_gh
        (λ asked.
          Holds-if (eq_ℤ h.repo_view.returncode (pos 0))
            (with_metadata-IsJudged (metadata (loads (strip h.repo_view.stdout))) asked)
            (holds (
              unsafe_because-IsJudged "gh_unavailable"
                (some (last_chars 1000 (strip h.repo_view.stderr))) (initial h) (unread h))))
        (λ missing. holds (unsafe_because-IsJudged "gh_not_installed" none (initial h) (unread h)))
