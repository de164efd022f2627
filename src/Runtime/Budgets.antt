-- ===== src/Runtime/Budgets.antt =====
-- `_cost`, `_budget_usage`, `_assert_budgets` and `_record_model_usage` of src/qas/runtime.py. A cost
-- is exact, in units of 10 ^ -12; the source computes it in floats.
pub mod Laws
use qwen_autonomous_supervis.Prelude.{
  ℕ, ◌-◌, ◌*◌, String, Bool, true, false, Option, none, some, List, [], ◌∷◌, ◌++◌, if◌then◌else◌,
}
use qwen_autonomous_supervis.Prelude.Int.{ℤ, pos, scale, ◌+ℤ◌, leb_ℤ}
use qwen_autonomous_supervis.Prelude.Text.{◌+s◌, decimal, decimal_ℤ}
use qwen_autonomous_supervis.Json.{Json, obj, end, field, str, int, null}
use qwen_autonomous_supervis.Errors.{Result, ok, err, budget_exceeded, ◌>>=◌, ◌>>◌}
use qwen_autonomous_supervis.Config.{SupervisorConfig, ObservabilityConfig, BudgetConfig}
use qwen_autonomous_supervis.Ledger.Leases.{seconds}
use qwen_autonomous_supervis.Ledger.Events.{Event, Details, append_event}
use qwen_autonomous_supervis.Ledger.Usage.{UsageQuery, usage_totals}
use qwen_autonomous_supervis.Ledger.Usage.Collect.{Totals}

-- `_cost`: tokens times the price of a million in millionths.
unfoldable pub cost : ObservabilityConfig → Totals → ℤ
cost o t =
    scale o.input_cost_per_million t.input_tokens +ℤ scale o.output_cost_per_million t.output_tokens

-- A scope's name, its query, its token limit and its cost limit.
pub record Scope : Type 0 where
  pub name : String
  pub query : UsageQuery
  pub token_limit : ℕ
  pub cost_limit : Option ℕ

abbrev pub hour_scope : BudgetConfig → ℕ → Scope
hour_scope b now = record {
  name = "hour";
  query = record { since = some (now - seconds 3600); tick_id = none; issue_number = none };
  token_limit = b.max_tokens_per_hour;
  cost_limit = b.max_cost_per_hour;
}

abbrev pub day_scope : BudgetConfig → ℕ → Scope
day_scope b now = record {
  name = "day";
  query = record { since = some (now - seconds 86400); tick_id = none; issue_number = none };
  token_limit = b.max_tokens_per_day;
  cost_limit = b.max_cost_per_day;
}

abbrev pub tick_scope : BudgetConfig → String → Scope
tick_scope b tick_id = record {
  name = "tick";
  query = record { since = none; tick_id = some tick_id; issue_number = none };
  token_limit = b.max_tokens_per_tick;
  cost_limit = b.max_cost_per_tick;
}

abbrev pub issue_scope : BudgetConfig → ℤ → Scope
issue_scope b n = record {
  name = "issue";
  query = record { since = none; tick_id = none; issue_number = some n };
  token_limit = b.max_tokens_per_issue;
  cost_limit = b.max_cost_per_issue;
}

abbrev issue_scopes : BudgetConfig → Option ℤ → List Scope
issue_scopes b none = []
issue_scopes b (some n) = issue_scope b n ∷ []

-- The scopes of a tick, in the order of the dictionary that `_budget_usage` builds.
unfoldable pub scopes_of : BudgetConfig → ℕ → String → Option ℤ → List Scope
scopes_of b now tick_id issue =
    hour_scope b now ∷ day_scope b now ∷ tick_scope b tick_id ∷ issue_scopes b issue

abbrev pub cost_spent : ObservabilityConfig → Totals → Option ℕ → Bool
cost_spent o t none = false
cost_spent o t (some limit) = leb_ℤ (pos (limit * 1000000)) (cost o t)

abbrev pub tokens_spent : Totals → ℕ → Bool
tokens_spent t limit = leb_ℤ (pos limit) t.total_tokens

abbrev pub token_message : Scope → Totals → String
token_message s t =
    s.name
    +s " token budget exhausted: "
    +s decimal_ℤ t.total_tokens
    +s " >= "
    +s decimal s.token_limit

-- The message of a cost leaves out the two amounts.
unfoldable pub check_scope : ObservabilityConfig → Scope → List Event → Result (Unit {0})
check_scope o s events =
    let t = usage_totals s.query events in
    if tokens_spent t s.token_limit
    then err (budget_exceeded (token_message s t))
    else if cost_spent o t s.cost_limit
    then err (budget_exceeded (s.name +s " cost budget exhausted"))
    else ok tt

unfoldable pub check_scopes : ObservabilityConfig → List Scope → List Event → Result (Unit {0})
check_scopes o [] events = ok tt
check_scopes o (s ∷ ss) events =
    let rest = check_scopes o ss events in check_scope o s events >> rest

-- `_assert_budgets`, at the moment `now`.
unfoldable pub assert_budgets :
    SupervisorConfig → ℕ → String → Option ℤ → List Event → Result (Unit {0})
assert_budgets c now tick_id issue events =
    check_scopes c.observability (scopes_of c.budgets now tick_id issue) events

abbrev pub opt_int : Option ℤ → Json
opt_int none = null
opt_int (some n) = int n

-- The event of a model call.
abbrev pub usage_details : String → String → String → Option ℤ → Json → Details
usage_details role run_id tick_id issue usage = record {
  run_id = some run_id;
  tick_id = some tick_id;
  state = some "running";
  operation_key = some ("model-usage:" +s run_id);
  payload =
      obj
        (field "role" (str role) (field "issue_number" (opt_int issue) (field "usage" usage end)));
}

-- `_record_model_usage`: the call is charged first, and the budgets are tested with its charge.
unfoldable pub record_model_usage :
    SupervisorConfig
    → ℕ
    → String
    → String
    → String
    → Option ℤ
    → Json
    → List Event
    → Result (Unit {0}) × List Event
record_model_usage c now role run_id tick_id issue usage events =
    let events' =
      (append_event now "model_usage" (usage_details role run_id tick_id issue usage) events).1 in
    (assert_budgets c now tick_id issue events', events')
