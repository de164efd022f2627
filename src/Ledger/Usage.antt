-- ===== src/Ledger/Usage.antt =====
-- `usage_totals` of src/qas/db.py: the tokens and calls that the event log charges.
pub mod Laws
pub mod Charges
pub mod Numbers
pub mod Collect
use qwen_autonomous_supervis.Prelude.{
  ℕ, ◌+◌, ◌*◌, String, str_eq, Bool, true, false, Option, none, some, List, [], ◌∷◌, ◌&&◌, ◌||◌,
  not, leb, ◌==◌, if◌then◌else◌, exists, select,
}
use qwen_autonomous_supervis.Prelude.Int.{ℤ, pos, negsuc, ◌+ℤ◌, max_ℤ, eq_ℤ}
use qwen_autonomous_supervis.Json.{
  Json, null, bool, int, real, str, arr, obj, Fields, end, field, get, get_in, lookup, as_object,
}
use qwen_autonomous_supervis.Ledger.Events.{Event, has_kind}
use Collect.{Totals, no_tokens, collect}

-- The restrictions of a query.
pub record UsageQuery : Type 0 where
  pub since : Option ℕ
  pub tick_id : Option String
  pub issue_number : Option ℤ

-- `value == n` for an issue number: a number or a Boolean of that value.
abbrev pub json_is : Json → ℤ → Bool
json_is (int m) n = eq_ℤ m n
json_is (bool true) n = eq_ℤ (pos 1) n
json_is (bool false) n = eq_ℤ (pos 0) n
json_is (real (pos m)) (pos n) = m == n * 1000000
json_is (real (negsuc m)) (negsuc n) = m + 1 == (n + 1) * 1000000
json_is (real (pos m)) (negsuc n) = false
json_is (real (negsuc m)) (pos n) = false
json_is null n = false
json_is (str s) n = false
json_is (arr xs) n = false
json_is (obj fs) n = false

abbrev pub is_null : Json → Bool
is_null null = true
is_null (bool b) = false
is_null (int n) = false
is_null (real n) = false
is_null (str s) = false
is_null (arr xs) = false
is_null (obj fs) = false

-- The issue of an event: its own, or that of the result that it carries.
abbrev pub event_issue : Fields → Json
event_issue fs =
    if is_null (get "issue_number" fs)
    then get_in "issue_number" (get "result" fs)
    else get "issue_number" fs

-- `str(payload.get("role", "coordinator"))`. The program writes texts alone there; another value
-- reads as the empty text.
abbrev role_text : Option Json → String
role_text none = "coordinator"
role_text (some (str s)) = s
role_text (some null) = ""
role_text (some (bool b)) = ""
role_text (some (int n)) = ""
role_text (some (real n)) = ""
role_text (some (arr xs)) = ""
role_text (some (obj fs)) = ""

abbrev pub is_model_usage : Event → Bool
is_model_usage e = has_kind "model_usage" e

-- The role that a charged event is of.
abbrev pub role_of : Event → Fields → String
role_of e fs =
    if is_model_usage e
    then role_text (lookup "role" fs)
    else if has_kind "independent_review" e
    then "reviewer"
    else "coordinator"

abbrev pub same_tick : Option String → Option String → Bool
same_tick none none = true
same_tick none (some t) = false
same_tick (some s) none = false
same_tick (some s) (some t) = str_eq s t

abbrev after : Option ℕ → Event → Bool
after none e = true
after (some t) e = leb t e.timestamp

abbrev of_tick : Option String → Event → Bool
of_tick none e = true
of_tick (some t) e = same_tick e.tick_id (some t)

-- The WHERE clause of the query.
unfoldable pub is_row : UsageQuery → Event → Bool
is_row q e =
    (has_kind "model_usage" e
      || has_kind "coordinator_completed" e
      || has_kind "independent_review" e)
    && after q.since e
    && of_tick q.tick_id e

abbrev pub fields_test : Option Fields → (Fields → Bool) → Bool
fields_test none p = false
fields_test (some fs) p = p fs

-- `(tick_id, role) in model_roles`
unfoldable pub has_model_role : Option String → String → List Event → Bool
has_model_role tick role rows =
    exists
      (λ (e : Event).
        is_model_usage e
        && same_tick e.tick_id tick
        && fields_test (as_object e.payload) (λ fs. str_eq (role_of e fs) role))
      rows

-- `tick_id in issue_ticks`
unfoldable pub has_issue_tick : ℤ → Option String → List Event → Bool
has_issue_tick n tick rows =
    exists
      (λ (e : Event).
        same_tick e.tick_id tick
        && fields_test (as_object e.payload) (λ fs. json_is (event_issue fs) n))
      rows

abbrev concerns : Option ℤ → Event → Fields → List Event → Bool
concerns none e fs rows = true
concerns (some n) e fs rows = json_is (event_issue fs) n || has_issue_tick n e.tick_id rows

-- Whether a row counts: an older kind of event does not where the newer kind stands for its call, and
-- a query for an issue wants the event or its tick to be of it.
unfoldable pub is_charged : Option ℤ → List Event → Event → Bool
is_charged issue rows e = fields_test (as_object e.payload) (λ fs.
    (is_model_usage e || not (has_model_role e.tick_id (role_of e fs) rows))
    && concerns issue e fs rows)

-- One charged row: a call, and what its usage holds.
unfoldable pub charge : Event → Totals → Totals
charge e t = collect (get_in "usage" e.payload) (record t { model_calls = t.model_calls + 1 })

-- The rows of `all` that count, charged from the oldest on.
unfoldable pub charge_rows : Option ℤ → List Event → List Event → Totals
charge_rows issue all [] = no_tokens
charge_rows issue all (e ∷ es) =
    let t = charge_rows issue all es in if is_charged issue all e then charge e t else t

-- `max(total, input + output)`
abbrev pub at_least_sum : Totals → Totals
at_least_sum t = record t {
  total_tokens = max_ℤ t.total_tokens (t.input_tokens +ℤ t.output_tokens);
}

unfoldable pub usage_totals : UsageQuery → List Event → Totals
usage_totals q events =
    let rows = select (is_row q) events in at_least_sum (charge_rows q.issue_number rows rows)
