-- ===== src/Ledger/Events/Laws.antt =====
-- The event log: its operation keys, and what an append leaves alone.
use qwen_autonomous_supervis.Prelude.{
  ℕ, ◌+◌, String, str_eq, str_eq_refl, ◌≡◌, refl, none, some, List, arith, if◌then◌else◌, exists,
  Bool-cases, inl, inr,
}
use qwen_autonomous_supervis.Ledger.Events.{Event, Details, clashes, append_event, event_count}

-- A keyed append puts its key into the log or finds it there: a second one with that key changes
-- nothing, whatever its kind and details.
pub append_event_again :
    (at at' : ℕ) (kind kind' k : String) (d d' : Details) (es : List Event)
    → d.operation_key ≡ some k
    → d'.operation_key ≡ some k
    → append_event at' kind' d' (append_event at kind d es).1
      ≡ (none, (append_event at kind d es).1)
unfolding append_event
append_event_again at at' kind kind' k d d' es p q =
    elim (Bool-cases (exists (clashes (some k)) es)) [
      | inl e ↦ rw (p, e, q, e) refl
      | inr e ↦ rw (p, e, q, str_eq_refl k) refl
    ]

-- What an append adds to the count of a kind: one event of its own kind, if its key is new.
pub event_count-append_event :
    (at : ℕ) (kind j : String) (d : Details) (es : List Event)
    → event_count j (append_event at kind d es).1
      ≡ (if exists (clashes d.operation_key) es then 0 else if str_eq kind j then 1 else 0)
        + event_count j es
unfolding append_event event_count
event_count-append_event at kind j d es = ground arith
