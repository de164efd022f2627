-- ===== src/Ledger/Events.antt =====
-- The `events` table of src/qas/db.py. Triggers forbid UPDATE and DELETE, so a row can only be added.
pub mod Laws
use qwen_autonomous_supervis.Prelude.{
  ℕ, ◌+◌, ◌≤◌, String, str_eq, Bool, true, false, Option, none, some, List, [], ◌∷◌, min, max,
  if◌then◌else◌, exists, select, count, take, find,
}
use qwen_autonomous_supervis.Json.{Json, obj, end}

pub record Event : Type 0 where
  pub id : ℕ
  pub timestamp : ℕ
  pub kind : String
  pub run_id : Option String
  pub tick_id : Option String
  pub state : Option String
  pub operation_key : Option String
  pub payload : Json

-- The keyword arguments of `append_event`.
pub record Details : Type 0 where
  pub run_id : Option String
  pub tick_id : Option String
  pub state : Option String
  pub operation_key : Option String
  pub payload : Json

-- The defaults of the keyword arguments; `payload or {}` stores an empty mapping.
abbrev pub no_details : Details
no_details = record {
  run_id = none;
  tick_id = none;
  state = none;
  operation_key = none;
  payload = obj end;
}

-- `operation_key TEXT UNIQUE`: NULLs do not clash.
abbrev pub clashes : Option String → Event → Bool
clashes none e = false
clashes (some k) e = elim e.operation_key [ none ↦ false | some j ↦ str_eq j k ]

abbrev pub next_id : List Event → ℕ
next_id [] = 1
next_id (e ∷ es) = e.id + 1

-- `INSERT OR IGNORE`: the new row's id, or None if a row has its operation key.
unfoldable pub append_event : ℕ → String → Details → List Event → Option ℕ × List Event
append_event at kind d events =
    if exists (clashes d.operation_key) events then (none, events) else (
      some (next_id events),
      (record {
        id = next_id events;
        timestamp = at;
        kind = kind;
        run_id = d.run_id;
        tick_id = d.tick_id;
        state = d.state;
        operation_key = d.operation_key;
        payload = d.payload;
      })
          ∷ events,
    )

-- `kind=?`
abbrev pub has_kind : String → Event → Bool
has_kind kind e = str_eq e.kind kind

-- The newest events first.
unfoldable pub recent_events : ℕ → List Event → List Event
recent_events limit events = take (max 1 (min limit 1000)) events

-- `event_counts[kind]` of `Ledger.status`, 0 for a kind that no event has.
unfoldable pub event_count : String → List Event → ℕ
event_count kind events = count (has_kind kind) events

-- `SELECT * FROM events WHERE kind=? ORDER BY id DESC LIMIT 1`
unfoldable pub latest_of_kind : String → List Event → Option Event
latest_of_kind kind events = find (has_kind kind) events
