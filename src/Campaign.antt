-- ===== src/Campaign.antt =====
-- src/qas/campaign.py: a campaign runs the scheduler for a time, and survives a restart by a checkpoint.
-- Moments and durations are in microseconds; the thread that kills agents at intervals and the thread
-- that stops the scheduler at the deadline are outside.
pub mod Laws
pub mod Finish
use qwen_autonomous_supervis.Prelude.{
  ℕ, ◌+◌, ◌-◌, String, str_eq, Bool, true, false, Option, none, some, List, [], ◌∷◌, ◌&&◌, ◌||◌,
  not, ltb, if◌then◌else◌,
}
use qwen_autonomous_supervis.Prelude.Int.{ℤ, pos, negsuc, scale, leb_ℤ, sub_ℕ, pos_part, neg_part}
use qwen_autonomous_supervis.Prelude.Text.{◌+s◌, decimal}
use qwen_autonomous_supervis.Json.{
  Json, null, bool, int, real, str, arr, obj, Fields, field, end, get, lookup, as_object,
}
use qwen_autonomous_supervis.Errors.{
  Result, ok, err, value_error, key_error, type_error, ◌>>=◌, ◌>>◌,
}
use qwen_autonomous_supervis.Config.Values.{Builtins, get_or, int_value, float_value}
use qwen_autonomous_supervis.Ledger.{Ledger}
use qwen_autonomous_supervis.Ledger.Events.{Details, no_details, append_event}
use qwen_autonomous_supervis.Ledger.Checkpoints.{get_checkpoint, set_checkpoint}
use qwen_autonomous_supervis.Ledger.Runs.{Run, active_run}

abbrev pub campaign_key : String
campaign_key = "active_campaign"

-- `isinstance(deadline, (int, float))`, in microseconds.
abbrev deadline_of : Json → Option ℤ
deadline_of (int n) = some (scale 1000000 n)
deadline_of (real n) = some n
deadline_of (bool true) = some (pos 1000000)
deadline_of (bool false) = some (pos 0)
deadline_of null = none
deadline_of (str s) = none
deadline_of (arr xs) = none
deadline_of (obj fs) = none

abbrev is_future : ℕ → Option ℤ → Bool
is_future now none = false
is_future now (some deadline) = not (leb_ℤ deadline (pos now))

abbrev pub unfinished : ℕ → Option Fields → Option Fields
unfinished now none = none
unfinished now (some state) =
    if is_future now (deadline_of (get "deadline_epoch" state)) then some state else none

-- `active_campaign`, at a moment.
unfoldable pub active_campaign : ℕ → Ledger → Option Fields
active_campaign now l = unfinished now (as_object (get_checkpoint campaign_key l.checkpoints))

-- The arguments of `run_campaign`, with what a new campaign takes from outside: its id, the spelling of
-- the moment and the event counts of the status.
pub record Plan : Type 0 where
  pub duration : ℤ
  pub chaos_every : Option ℤ
  pub minimum_successful_ticks : ℤ
  pub new_id : String
  pub started_text : String
  pub event_counts : Fields

-- The local variables that the rest of `run_campaign` reads.
pub record Campaign : Type 0 where
  pub campaign_id : String
  pub started_at : String
  pub started_epoch : ℤ
  pub before : Fields
  pub chaos_every : Json
  pub minimum_successful_ticks : ℤ
  pub remaining : ℤ
  pub resumed : Bool

abbrev pub opt_real : Option ℤ → Json
opt_real none = null
opt_real (some x) = real x

-- The state that a new campaign stores.
abbrev pub state_of : ℕ → Plan → Fields
state_of now p = field "campaign_id" (str p.new_id) (
    field "started_at" (str p.started_text) (
      field "started_epoch" (real (pos now)) (
        field "deadline_epoch" (real (sub_ℕ (now + pos_part p.duration) (neg_part p.duration))) (
          field "before" (obj p.event_counts) (
            field "chaos_every_seconds" (opt_real p.chaos_every)
              (field "minimum_successful_ticks" (int p.minimum_successful_ticks) end))))))

abbrev pub new_campaign : ℕ → Plan → Campaign
new_campaign now p = record {
  campaign_id = p.new_id;
  started_at = p.started_text;
  started_epoch = pos now;
  before = p.event_counts;
  chaos_every = opt_real p.chaos_every;
  minimum_successful_ticks = p.minimum_successful_ticks;
  remaining = p.duration;
  resumed = false;
}

-- `state[key]`
abbrev needed_item : String → Option Json → Result Json
needed_item key none = err (key_error key)
needed_item key (some v) = ok v

abbrev pub item : String → Fields → Result Json
item key state = needed_item key (lookup key state)

-- `dict(value)` of a mapping. Other values of which a dictionary can be made are not stored.
abbrev dict_of : Option Fields → Result Fields
dict_of none = err (type_error "cannot convert to a dictionary")
dict_of (some fs) = ok fs

-- `max(0.0, deadline - now)`
abbrev until : ℕ → ℤ → ℤ
until now deadline =
    if leb_ℤ deadline (pos now) then pos 0 else sub_ℕ (pos_part deadline) (now + neg_part deadline)

-- A campaign that an earlier process started.
unfoldable pub resume : Builtins → ℕ → Plan → Fields → Result Campaign
resume py now p state = do
  id ← item "campaign_id" state
  started_at ← item "started_at" state
  epoch ← item "started_epoch" state
  started_epoch ← float_value py epoch
  baseline ← item "before" state
  before ← dict_of (as_object baseline)
  minimum ← int_value py (get_or "minimum_successful_ticks" (int p.minimum_successful_ticks) state)
  stored ← item "deadline_epoch" state
  deadline ← float_value py stored
  ok (record {
    campaign_id = py.str_of id;
    started_at = py.str_of started_at;
    started_epoch = started_epoch;
    before = before;
    chaos_every = get_or "chaos_every_seconds" (opt_real p.chaos_every) state;
    minimum_successful_ticks = minimum;
    remaining = until now deadline;
    resumed = true;
  })

abbrev store : ℕ → Plan → Ledger → Ledger
store now p l = record l {
  checkpoints = set_checkpoint now campaign_key (obj (state_of now p)) l.checkpoints;
}

abbrev pub is_refused : Plan → Bool
is_refused p = leb_ℤ p.duration (pos 0)

abbrev pub is_bad_interval : Option ℤ → Bool
is_bad_interval none = false
is_bad_interval (some x) = leb_ℤ x (pos 0)

abbrev resumed_or_new : Builtins → ℕ → Plan → Ledger → Option Fields → Result Campaign × Ledger
resumed_or_new py now p l (some state) = (resume py now p state, l)
resumed_or_new py now p l none = (ok (new_campaign now p), store now p l)

-- `run_campaign` up to its first event: the campaign, and the ledger with its checkpoint.
unfoldable pub begin_campaign : Builtins → ℕ → Plan → Ledger → Result Campaign × Ledger
begin_campaign py now p l =
    if is_refused p
    then (err (value_error "campaign duration must be positive"), l)
    else if is_bad_interval p.chaos_every
    then (err (value_error "chaos interval must be positive"), l)
    else resumed_or_new py now p l (active_campaign now l)

-- `kill_active_agent`: the run whose process is to be killed, with its pid.
abbrev is_agent : Run → Bool
is_agent r = str_eq r.kind "coordinator" || str_eq r.kind "reviewer"

abbrev positive_pid : Option ℕ → Option ℕ
positive_pid none = none
positive_pid (some pid) = if ltb 0 pid then some pid else none

abbrev victim_of : Option Run → Option ℕ
victim_of none = none
victim_of (some r) = if is_agent r then positive_pid r.pid else none

-- `str(value) if value else None`
abbrev text_or_none : String → Option String
text_or_none s = if str_eq s "" then none else some s

abbrev note_kill : ℕ → String → Option Run → Option ℕ → Ledger → Ledger
note_kill at reason none pid l = l
note_kill at reason (some r) none l = l
note_kill at reason (some r) (some pid) l = record l {
  events =
      (append_event at "chaos_process_killed"
        (record no_details {
          run_id = text_or_none r.run_id;
          tick_id = text_or_none r.tick_id;
          operation_key = some ("chaos:kill:" +s r.run_id +s ":" +s decimal pid);
          payload = obj (
              field "pid" (int (pos pid))
                (field "kind" (str r.kind) (field "reason" (str reason) end)));
        })
        l.events).1;
}

abbrev after_kill :
    ℕ → String → Option Run → Option ℕ → Result (Unit {0}) → Ledger → Result (Option ℕ) × Ledger
after_kill at reason run none killed l = (ok none, l)
after_kill at reason run (some pid) (ok done) l =
    (ok (some pid), note_kill at reason run (some pid) l)
after_kill at reason run (some pid) (err e) l = (err e, l)

-- The pid that was killed, from how the kill ended; a kill that fails raises.
unfoldable kill_active_agent : ℕ → String → Result (Unit {0}) → Ledger → Result (Option ℕ) × Ledger
kill_active_agent at reason killed l =
    let run = active_run l.runs in after_kill at reason run (victim_of run) killed l

-- The event that a campaign starts or goes on. `spelled` is the moment as it is printed.
unfoldable note_campaign : ℕ → String → Plan → Campaign → Ledger → Ledger
note_campaign at spelled p c l = record l {
  events =
      (append_event at (if c.resumed then "campaign_resumed" else "campaign_started")
        (record no_details {
          operation_key = some (
              "campaign:"
              +s (if c.resumed then "resume" else "start")
              +s ":"
              +s c.campaign_id
              +s ":"
              +s spelled);
          payload = obj (
              field "campaign_id" (str c.campaign_id) (
                field "duration_seconds" (real p.duration) (
                  field "remaining_seconds" (real c.remaining)
                    (field "chaos_every_seconds" c.chaos_every end))));
        })
        l.events).1;
}
