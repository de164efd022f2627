-- ===== src/Runtime/Loop.antt =====
-- `loop` of src/qas/runtime.py: the scheduler.
pub mod Backoff
use qwen_autonomous_supervis.Prelude.{
  ℕ, String, Bool, true, false, Option, none, some, List, [], ◌∷◌, ◌&&◌, not, leb, if◌then◌else◌,
}
use qwen_autonomous_supervis.Prelude.Int.{ℤ, pos, negsuc}
use qwen_autonomous_supervis.Json.{Json, null, bool, int, real, str, arr, obj, Fields, end, field}
use qwen_autonomous_supervis.Errors.{Exception, Result, ok, err, runtime_error}
use qwen_autonomous_supervis.Effects.{Effect, give, throw, answer, read, change, ◌>>=◌, ◌>>◌}
use qwen_autonomous_supervis.Config.{SupervisorConfig}
use qwen_autonomous_supervis.Ledger.{Ledger}
use qwen_autonomous_supervis.Ledger.Leases.{seconds}
use qwen_autonomous_supervis.Ledger.Events.{no_details, append_event}
use qwen_autonomous_supervis.Ledger.Failures.{Failure, quarantined_in}
use qwen_autonomous_supervis.Ledger.Checkpoints.{get_checkpoint}
use qwen_autonomous_supervis.Runtime.Answers.{Answers, Tools, TickOutcome}
use qwen_autonomous_supervis.Runtime.Recovery.{Watch, Recovery, recover}
use qwen_autonomous_supervis.Runtime.Tick.Run.{tick}

-- `isinstance(next_allowed, (int, float))` fails, or `now >= next_allowed`. A Boolean is an `int`.
abbrev is_due : Json → ℕ → Bool
is_due (int (pos n)) now = leb (seconds n) now
is_due (int (negsuc n)) now = true
is_due (real (pos n)) now = leb n now
is_due (real (negsuc n)) now = true
is_due (bool true) now = leb (seconds 1) now
is_due (bool false) now = true
is_due null now = true
is_due (str s) now = true
is_due (arr xs) now = true
is_due (obj fs) now = true

abbrev pub is_none_of : List Failure → Bool
is_none_of [] = true
is_none_of (f ∷ fs) = false

-- Whether a pass of the loop runs a tick.
unfoldable pub may_tick : ℕ → Ledger → Bool
may_tick now l =
    is_none_of (quarantined_in "host" l.failures)
    && is_due (get_checkpoint "next_allowed_epoch" l.checkpoints) now

-- One round of the loop, as the outside answers it.
pub record Pass : Type 0 where
  pub watch : Watch
  pub now : ℕ
  pub answers : Answers

module _ (c : SupervisorConfig) (t : Tools) (isoformat : ℕ → String) where
  abbrev pub tick_if : Bool → Answers → Effect Ledger (Unit {0})
  tick_if true a = tick c t a >>= λ _. give tt
  tick_if false a = give tt

  -- One round.
  unfoldable pub pass : Pass → Effect Ledger (Unit {0})
  pass p = do recover c isoformat p.watch; due ← read (may_tick p.now); tick_if due p.answers

  -- The rounds until the stop flag is set or the time is over, whichever comes first: there are as many as
  -- the list has. With `once` the loop ends after the first.
  unfoldable pub passes : Bool → List Pass → Effect Ledger (Unit {0})
  passes once [] = give tt
  passes once (p ∷ ps) = pass p >>= λ _. (if once then give tt else passes once ps)

  abbrev log_pid : ℕ → String → ℕ → Effect Ledger (Unit {0})
  log_pid at kind pid = change (λ l. record l {
    events =
        (append_event at kind
          (record no_details { payload = obj (field "pid" (int (pos pid)) end) }) l.events).1;
  })

  -- `lock` is what taking the runtime lock answers.
  unfoldable pub loop : Result (Unit {0}) → ℕ → ℕ → ℕ → Bool → List Pass → Effect Ledger (Unit {0})
  loop lock pid started_at stopped_at once ps = do
    answer lock
    log_pid started_at "scheduler_started" pid
    passes once ps
    log_pid stopped_at "scheduler_stopped" pid
