-- ===== src/Runtime/Tick/Steps.antt =====
-- The state of `tick` in src/qas/runtime.py, and its calls of the ledger as steps on that state.
use qwen_autonomous_supervis.Prelude.{
  ℕ, ◌+◌, ◌-◌, ◌*◌, String, str_eq, Bool, true, false, Option, none, some, List, [], ◌∷◌, ◌&&◌, leb,
  ◌==◌, if◌then◌else◌,
}
use qwen_autonomous_supervis.Prelude.Int.{ℤ, pos, eq_ℤ}
use qwen_autonomous_supervis.Prelude.Text.{◌+s◌, codes}
use qwen_autonomous_supervis.Json.{Json, null, bool, int, real, str, arr, obj}
use qwen_autonomous_supervis.Errors.{Result, ok, err}
use qwen_autonomous_supervis.Effects.{Effect}
use qwen_autonomous_supervis.Config.{SupervisorConfig}
use qwen_autonomous_supervis.Ledger.{Ledger}
use qwen_autonomous_supervis.Ledger.Events.{Details, append_event}
use qwen_autonomous_supervis.Ledger.Runs.{Run, succeeded, failed, start_run, finish_run}
use qwen_autonomous_supervis.Ledger.Checkpoints.{set_checkpoint}
use qwen_autonomous_supervis.Qwen.{ProcessResult}
use qwen_autonomous_supervis.Runtime.Answers.{Answers}
use qwen_autonomous_supervis.Runtime.Budgets.{assert_budgets, record_model_usage}

-- The ledger, and the local variables that the `except` clauses read.
pub record TickState : Type 0 where
  pub ledger : Ledger
  pub run_started : Bool
  pub issue_number : Option ℤ

abbrev pub Tick : Type 0 → Type 0
Tick A = Effect TickState A

-- The rest of `issue/(\d+)-.+` after a digit: the value of the digits before the dash.
digits_then_dash : ℕ → List ℕ → Option ℤ
digits_then_dash n [] = none
digits_then_dash n (c ∷ []) = none
digits_then_dash n (c ∷ d ∷ cs) =
    let rest = digits_then_dash (10 * n + (c - b'0')) (d ∷ cs) in
    if leb b'0' c && leb c b'9' then rest else if c == b'-' then some (pos n) else none

issue_digits : List ℕ → Option ℤ
issue_digits [] = none
issue_digits (c ∷ cs) = if leb b'0' c && leb c b'9' then digits_then_dash 0 (c ∷ cs) else none

after_prefix : List ℕ → List ℕ → Option ℤ
after_prefix [] cs = issue_digits cs
after_prefix (p ∷ ps) [] = none
after_prefix (p ∷ ps) (c ∷ cs) = let rest = after_prefix ps cs in if p == c then rest else none

-- The issue that a branch is named for. A branch name has no line break.
unfoldable pub issue_of_branch : String → Option ℤ
unfolding after_prefix issue_digits digits_then_dash
issue_of_branch branch = after_prefix (codes "issue/") (codes branch)

-- `isinstance(value, int)`: a Boolean is an `int` too.
abbrev pub as_int : Json → Option ℤ
as_int (int n) = some n
as_int (bool true) = some (pos 1)
as_int (bool false) = some (pos 0)
as_int null = none
as_int (real n) = none
as_int (str s) = none
as_int (arr xs) = none
as_int (obj fs) = none

abbrev pub or_old : Option ℤ → Option ℤ → Option ℤ
or_old none old = old
or_old (some n) old = some n

-- A value that the source compares with a text alone; what is no text reads as the empty one.
abbrev pub text_of : Json → String
text_of (str s) = s
text_of null = ""
text_of (bool b) = ""
text_of (int n) = ""
text_of (real n) = ""
text_of (arr xs) = ""
text_of (obj fs) = ""

-- `str(value)`, where `spelled` is what Python makes of a value that is no text.
abbrev pub str_of : (Json → String) → Json → String
str_of spelled (str s) = s
str_of spelled null = spelled null
str_of spelled (bool b) = spelled (bool b)
str_of spelled (int n) = spelled (int n)
str_of spelled (real n) = spelled (real n)
str_of spelled (arr xs) = spelled (arr xs)
str_of spelled (obj fs) = spelled (obj fs)

-- `a or b` of texts
abbrev pub or_text : String → String → String
or_text a b = if str_eq a "" then b else a

-- A step on the ledger alone.
unfoldable pub on_ledger : (Ledger → Ledger) → Tick (Unit {0})
on_ledger f s = (ok tt, record s { ledger = f s.ledger })

-- A step that works on the ledger, and may raise.
unfoldable pub within : {A : Type 0} → Effect Ledger A → Tick A
within m s = let (r, l) = m s.ledger in (r, record s { ledger = l })

unfoldable pub log : ℕ → String → Details → Tick (Unit {0})
log at kind d s = (
  ok tt,
  record s { ledger = record s.ledger { events = (append_event at kind d s.ledger.events).1 } },
)

unfoldable pub save : ℕ → String → Json → Tick (Unit {0})
save at key v s = (
  ok tt,
  record s {
    ledger = record s.ledger { checkpoints = set_checkpoint at key v s.ledger.checkpoints };
  },
)

unfoldable pub set_issue : (Option ℤ → Option ℤ) → Tick (Unit {0})
set_issue f s = (ok tt, record s { issue_number = f s.issue_number })

-- `_assert_budgets` of the tick and its issue.
unfoldable pub check_budgets : SupervisorConfig → ℕ → String → Tick (Unit {0})
check_budgets c now tick_id s = (assert_budgets c now tick_id s.issue_number s.ledger.events, s)

-- `_record_model_usage`
unfoldable pub charge_model :
    SupervisorConfig → ℕ → String → String → String → Option ℤ → Json → Tick (Unit {0})
charge_model c now role run_id tick_id issue usage s =
    let (r, es) = record_model_usage c now role run_id tick_id issue usage s.ledger.events in
    (r, record s { ledger = record s.ledger { events = es } })

abbrev with_runs : Ledger → Result (List Run) → Result (Unit {0}) × Ledger
with_runs l (ok rs) = (ok tt, record l { runs = rs })
with_runs l (err e) = (err e, l)

-- `ledger.start_run`
unfoldable pub open_run : ℕ → String → String → String → String → Tick (Unit {0})
open_run at run_id tick_id kind path s =
    let (r, l) = with_runs s.ledger (start_run at run_id tick_id kind path s.ledger.runs) in
    (r, record s { ledger = l })

-- `ledger.finish_run`, by the exit code of the process.
unfoldable pub close_run : ℕ → String → ProcessResult → Tick (Unit {0})
close_run at run_id p = on_ledger (λ l. record l {
  runs =
      finish_run at run_id (if eq_ℤ p.exit_code (pos 0) then succeeded else failed) p.exit_code
        p.reason l.runs;
})

-- The details of an event of a tick.
abbrev pub tick_event : Answers → Option String → String → String → Json → Details
tick_event a state what id payload = record {
  run_id = some a.run_id;
  tick_id = some a.tick_id;
  state = state;
  operation_key = some (what +s ":" +s id);
  payload = payload;
}
