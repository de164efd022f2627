-- ===== src/Runtime/Budgets/Laws.antt =====
-- When the budgets let the work go on, and what a model call adds to the log.
use qwen_autonomous_supervis.Prelude.{
  ℕ, ◌*◌, String, ◌≡◌, ◌↔◌, refl, Bool, Option, none, some, List, [], ◌∷◌, arith, All, inl, inr,
  Bool-cases, exists, ◌-◌, if◌then◌else◌,
}
use qwen_autonomous_supervis.Prelude.Int.{ℤ, pos, ◌≤ℤ◌, ◌+ℤ◌, scale}
use qwen_autonomous_supervis.Prelude.Text.{◌+s◌}
use qwen_autonomous_supervis.Json.{Json, obj, end, field, str, int, null}
use qwen_autonomous_supervis.Errors.{Exception, Result, ok, err, budget_exceeded, ◌>>◌}
use qwen_autonomous_supervis.Config.{SupervisorConfig, ObservabilityConfig}
use qwen_autonomous_supervis.Ledger.Events.{Event, clashes, next_id, append_event}
use qwen_autonomous_supervis.Ledger.Usage.{usage_totals}
use qwen_autonomous_supervis.Ledger.Usage.Collect.{Totals}
use qwen_autonomous_supervis.Runtime.Budgets.{
  cost, Scope, scopes_of, tokens_spent, cost_spent, token_message, check_scope, check_scopes,
  assert_budgets, usage_details, record_model_usage,
}

-- Below the token limit, and below the cost limit if there is one.
abbrev HasRoom : ObservabilityConfig → List Event → Scope → Type 0
HasRoom o events s =
    ¬ (pos s.token_limit ≤ℤ (usage_totals s.query events).total_tokens) × elim s.cost_limit [
      | none ↦ Unit {0}
      | some limit ↦ ¬ (pos (limit * 1000000) ≤ℤ cost o (usage_totals s.query events))
    ]

check_scope_iff :
    (o : ObservabilityConfig) (s : Scope) (events : List Event)
    → (check_scope o s events ≡ ok tt) ↔ HasRoom o events s
unfolding check_scope
check_scope_iff o s events = ground arith

both_ok : (m k : Result (Unit {0})) → ((m >> k) ≡ ok tt) ↔ ((m ≡ ok tt) × (k ≡ ok tt))
both_ok (ok u) k = (λ h. (refl, h), λ h. h.1)
both_ok (err e) k = (λ h. cc, λ h. cc (h.0))

check_scopes_iff :
    (o : ObservabilityConfig) (ss : List Scope) (events : List Event)
    → (check_scopes o ss events ≡ ok tt) ↔ All (HasRoom o events) ss
unfolding check_scopes
check_scopes_iff o [] events = (λ _. tt, λ _. refl)
check_scopes_iff o (s ∷ ss) events =
    let both = both_ok (check_scope o s events) (check_scopes o ss events) in
    let first = check_scope_iff o s events in
    let rest = check_scopes_iff o ss events in
    (λ h. let (a, b) = both.0 h in (first.0 a, rest.0 b), λ h. both.1 (first.1 h.0, rest.1 h.1))

-- Totals below a token limit, and below a cost limit if there is one. A million input tokens and a million
-- output tokens have their own prices in millionths, so a limit in millionths is compared times a million.
abbrev pub Fits : ObservabilityConfig → Totals → ℕ → Option ℕ → Type 0
Fits o t tokens money = ¬ (pos tokens ≤ℤ t.total_tokens) × elim money [
  | none ↦ Unit {0}
  | some limit ↦ ¬ (
      pos (limit * 1000000) ≤ℤ (
        scale o.input_cost_per_million t.input_tokens
        +ℤ scale o.output_cost_per_million t.output_tokens))
]

-- The totals since a moment, of a tick, and of an issue.
abbrev pub totals_since : ℕ → List Event → Totals
totals_since moment events =
    usage_totals (record { since = some moment; tick_id = none; issue_number = none }) events

abbrev pub totals_of_tick : String → List Event → Totals
totals_of_tick tick_id events =
    usage_totals (record { since = none; tick_id = some tick_id; issue_number = none }) events

abbrev pub totals_of_issue : ℤ → List Event → Totals
totals_of_issue n events =
    usage_totals (record { since = none; tick_id = none; issue_number = some n }) events

-- What is left for the hour, the day, the tick and the issue at a moment in microseconds.
abbrev pub HasBudget : SupervisorConfig → ℕ → String → Option ℤ → List Event → Type 0
HasBudget c now tick_id issue events =
    let o = c.observability in
    let b = c.budgets in
    Fits o (totals_since (now - 3600000000) events) b.max_tokens_per_hour b.max_cost_per_hour
    × Fits o (totals_since (now - 86400000000) events) b.max_tokens_per_day b.max_cost_per_day
    × Fits o (totals_of_tick tick_id events) b.max_tokens_per_tick b.max_cost_per_tick
    × elim issue [
      | none ↦ Unit {0}
      | some n ↦ Fits o (totals_of_issue n events) b.max_tokens_per_issue b.max_cost_per_issue
    ]

scopes_iff :
    (c : SupervisorConfig) (now : ℕ) (tick_id : String) (issue : Option ℤ) (events : List Event)
    → All (HasRoom c.observability events) (scopes_of c.budgets now tick_id issue)
      ↔ HasBudget c now tick_id issue events
unfolding scopes_of cost
scopes_iff c now tick_id none events =
    (λ h. (h.0, h.1.0, h.1.1.0, tt), λ h. (h.0, (h.1, (h.2, tt))))
scopes_iff c now tick_id (some n) events =
    (λ h. (h.0, h.1.0, h.1.1.0, h.1.1.1.0), λ h. (h.0, (h.1, (h.2, (h.3, tt)))))

-- `_assert_budgets` passes exactly if the tokens and the cost of the last hour, of the last day, of the
-- tick and, if there is an issue, of the issue are each below the configured limits: the tokens
-- below the token limit, and, where there is a cost limit, the input tokens at their price plus the
-- output tokens at theirs below it.
pub assert_budgets_iff :
    (c : SupervisorConfig) (now : ℕ) (tick_id : String) (issue : Option ℤ) (events : List Event)
    → (assert_budgets c now tick_id issue events ≡ ok tt) ↔ HasBudget c now tick_id issue events
unfolding assert_budgets
assert_budgets_iff c now tick_id issue events =
    let checked = check_scopes_iff c.observability (scopes_of c.budgets now tick_id issue) events in
    let scopes = scopes_iff c now tick_id issue events in
    (λ h. scopes.0 (checked.0 h), λ h. checked.1 (scopes.1 h))

check_scopes-raises :
    (o : ObservabilityConfig) (ss : List Scope) (events : List Event) (e : Exception)
    → check_scopes o ss events ≡ err e
    → (m : String) × (e ≡ budget_exceeded m)
unfolding check_scopes check_scope
check_scopes-raises o [] events e h = cc
check_scopes-raises o (s ∷ ss) events e h = elim (Bool-cases (over_tokens)) [
  | inl t ↦ (token_message s (usage_totals s.query events), ground arith)
  | inr t ↦ elim (Bool-cases over_cost) [
    | inl m ↦ (s.name +s " cost budget exhausted", ground arith)
    | inr m ↦ check_scopes-raises o ss events e (ground arith)
  ]
]
  where
    over_tokens : Bool
    over_tokens = tokens_spent (usage_totals s.query events) s.token_limit

    over_cost : Bool
    over_cost = cost_spent o (usage_totals s.query events) s.cost_limit

-- The log with the charge of a call, which one operation key has once.
abbrev pub with_charge : ℕ → String → String → String → Option ℤ → Json → List Event → List Event
with_charge now role run_id tick_id issue usage events =
    if exists (clashes (some ("model-usage:" +s run_id))) events
    then events
    else (record {
      id = next_id events;
      timestamp = now;
      kind = "model_usage";
      run_id = some run_id;
      tick_id = some tick_id;
      state = some "running";
      operation_key = some ("model-usage:" +s run_id);
      payload = obj (
          field "role" (str role) (
            field "issue_number" (elim issue [ none ↦ null | some n ↦ int n ])
              (field "usage" usage end)));
    }
        ∷ events)

append_event-with_charge :
    (now : ℕ) (role run_id tick_id : String) (issue : Option ℤ) (usage : Json) (events : List Event)
    → (append_event now "model_usage" (usage_details role run_id tick_id issue usage) events).1
      ≡ with_charge now role run_id tick_id issue usage events
unfolding append_event
append_event-with_charge now role run_id tick_id issue usage events =
    elim (Bool-cases (exists (clashes (some ("model-usage:" +s run_id))) events)) [
      | inl e ↦ rw e refl
      | inr e ↦ rw e (elim issue [ none ↦ refl | some n ↦ refl ])
    ]

-- Whatever a model call used, and whether or not the budgets then stop the work: unless an event of that
-- run's call stands in the log, the log gains one event, of kind `model_usage`, with the run, the tick, the
-- role, the issue and the usage as they were given, and nothing else changes; the work goes on exactly if
-- the hour, the day, the tick and the issue are within their budgets with that event in the log; and what
-- stops it is the exhaustion of a budget.
pub record_model_usage_lem :
    (c : SupervisorConfig) (now : ℕ) (role run_id tick_id : String) (issue : Option ℤ)
    (usage : Json) (events : List Event)
    → let (r, events') = record_model_usage c now role run_id tick_id issue usage events in
      (events' ≡ with_charge now role run_id tick_id issue usage events)
      × ((r ≡ ok tt) ↔ HasBudget c now tick_id issue events')
      × ((e : Exception) → r ≡ err e → (m : String) × (e ≡ budget_exceeded m))
unfolding record_model_usage
record_model_usage_lem c now role run_id tick_id issue usage events = (
  append_event-with_charge now role run_id tick_id issue usage events,
  assert_budgets_iff c now tick_id issue _,
  λ e h. unfold assert_budgets in check_scopes-raises c.observability _ _ e h,
)
