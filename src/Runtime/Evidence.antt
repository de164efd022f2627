-- ===== src/Runtime/Evidence.antt =====
-- How src/qas/runtime.py tells the exceptions apart, and `_checkpoint_recovery_worktree`.
use qwen_autonomous_supervis.Prelude.{
  ◌≡◌, refl, inl, inr, Bool-cases, ℕ, String, str_eq, Bool, true, false, if◌then◌else◌,
}
use qwen_autonomous_supervis.Json.{Json, null, str, obj, end, field}
use qwen_autonomous_supervis.Errors.{
  Exception, Result, ok, err, policy_violation, runtime_error, type_error, safety_pause,
  budget_exceeded, qwen_unavailable, operation_not_confirmed, job_error, value_error, config_error,
  os_error, subprocess_error, key_error, attribute_error, sqlite_error,
}
use qwen_autonomous_supervis.Effects.{Effect, give, throw, answer, change, catch, ◌>>=◌}
use qwen_autonomous_supervis.Ledger.{Ledger}
use qwen_autonomous_supervis.Ledger.Checkpoints.{set_checkpoint}

-- How the `except` clauses tell the exceptions apart: `SafetyPause` and its subclass; `QwenUnavailable`;
-- `PolicyViolation`; `OSError` or `SubprocessError`; another `RuntimeError` or a `ValueError`; and what
-- no clause names.
pub data Reaction : Type 0 where
  pauses blocks violates breaks fails escapes : Reaction

abbrev pub reaction : Exception → Reaction
reaction (safety_pause m) = pauses
reaction (budget_exceeded m) = pauses
reaction (qwen_unavailable m) = blocks
reaction (policy_violation m) = violates
reaction (os_error m) = breaks
reaction (subprocess_error m) = breaks
reaction (operation_not_confirmed m) = fails
reaction (job_error m) = fails
reaction (runtime_error m) = fails
reaction (value_error m) = fails
reaction (config_error m) = fails
reaction (type_error m) = escapes
reaction (key_error m) = escapes
reaction (attribute_error m) = escapes
reaction (sqlite_error m) = escapes

-- `except (OSError, SubprocessError, PolicyViolation): return`
abbrev is_no_evidence : Reaction → Bool
is_no_evidence breaks = true
is_no_evidence violates = true
is_no_evidence blocks = false
is_no_evidence fails = false
is_no_evidence pauses = false
is_no_evidence escapes = false

-- The checkpoint of a worktree with changes, and None for a clean one.
abbrev pub recovery_point : String → String × String → Json
recovery_point head seen =
    if str_eq seen.0 ""
    then null
    else obj
        (field "head" (str head) (field "status" (str seen.0) (field "digest" (str seen.1) end)))

module _ (at : ℕ) (head : Result String) (seen : Result (String × String)) where
  -- The `try` block and the write, from the answers of git.
  unfoldable pub take_evidence : Effect Ledger (Unit {0})
  take_evidence = do
    commit ← answer head
    tree ← answer seen
    change (λ l. record l {
      checkpoints =
          set_checkpoint at "recovery_worktree" (recovery_point commit tree) l.checkpoints;
    })

  unfoldable pub forgive : Exception → Effect Ledger (Unit {0})
  forgive e = if is_no_evidence (reaction e) then give tt else throw e

  unfoldable pub checkpoint_recovery_worktree : Effect Ledger (Unit {0})
  checkpoint_recovery_worktree = catch take_evidence forgive

pub forgive_keeps :
    (at : ℕ) (head : Result String) (seen : Result (String × String)) (e : Exception) (l : Ledger)
    → (forgive at head seen e l).1 ≡ l
unfolding forgive
forgive_keeps at head seen e l = elim (Bool-cases (is_no_evidence (reaction e))) [
  | inl y ↦ rw y refl
  | inr n ↦ rw n refl
]

-- The tables that the checkpoint leaves alone, whatever git answers.
pub checkpoint_recovery_worktree_keeps :
    (at : ℕ) (head : Result String) (seen : Result (String × String)) (l : Ledger)
    → ((checkpoint_recovery_worktree at head seen l).1.runs ≡ l.runs)
      × ((checkpoint_recovery_worktree at head seen l).1.leases ≡ l.leases)
unfolding checkpoint_recovery_worktree take_evidence catch ◌>>=◌
checkpoint_recovery_worktree_keeps at (err e) seen l =
    rw (forgive_keeps at (err e) seen e l) (refl, refl)
checkpoint_recovery_worktree_keeps at (ok head) (err e) l =
    rw (forgive_keeps at (ok head) (err e) e l) (refl, refl)
checkpoint_recovery_worktree_keeps at (ok head) (ok seen) l = (refl, refl)
