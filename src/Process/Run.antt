-- ===== src/Process/Run.antt =====
-- `run_process` of src/qas/process.py from the start of the process on: the loop over its messages.
-- The process, its two readers, the queue and the clock are outside: a turn of the loop is what they
-- answer in it. Moments are in microseconds.
pub mod Laws
pub mod Bounds
use qwen_autonomous_supervis.Prelude.{
  ℕ, zero, suc, ◌+◌, ◌-◌, String, str_eq, Bool, true, false, Option, none, some, List, [], ◌∷◌,
  ◌++◌, ◌&&◌, not, leb, length, if◌then◌else◌, is_some,
}
use qwen_autonomous_supervis.Prelude.Int.{ℤ, eq_ℤ, pos}
use qwen_autonomous_supervis.Prelude.Text.{◌+s◌, last_chars}
use qwen_autonomous_supervis.Json.{Json, null, str, int, obj, Fields, field, end, as_object, truthy}
use qwen_autonomous_supervis.Errors.{Result, ok, err, ◌>>=◌, ◌>>◌}
use qwen_autonomous_supervis.Ledger.Leases.{seconds}
use qwen_autonomous_supervis.Qwen.{ProcessResult}
use qwen_autonomous_supervis.Process.Events.{Extract, extract}
use qwen_autonomous_supervis.Process.Log.{Log, write_log}

-- The arguments of `run_process` that the loop reads. `heartbeats` says whether `on_heartbeat` is given.
pub record Limits : Type 0 where
  pub wall_timeout : ℕ
  pub silence_timeout_seconds : ℕ
  pub heartbeats : Bool
  pub heartbeat_interval_seconds : ℕ
  pub max_log_bytes : ℕ
  pub log_backup_count : ℕ

pub data Stream : Type 0 where
  stdout stderr : Stream

abbrev stream_name : Stream → String
stream_name stdout = "stdout"
stream_name stderr = "stderr"

-- A line that a reader put into the queue, with the moment of it, and the moment it is logged.
pub record Message : Type 0 where
  pub source : Stream
  pub line : String
  pub emitted : ℕ
  pub logged_at : String

-- One turn: the clock, whether the process runs at the test of the wall time and at that of the
-- silence, how its termination ended, the message if there is one, what the heartbeat returned,
-- whether the process runs then, and how that termination ended.
pub record Turn : Type 0 where
  pub now : ℕ
  pub runs : Bool
  pub still_runs : Bool
  pub terminated : Result (Unit {0})
  pub message : Option Message
  pub lease_ok : Result (Option Bool)
  pub runs_after : Bool
  pub released : Result (Unit {0})

pub data Reason : Type 0 where
  exited wall_timeout silence_timeout lease_lost : Reason

-- The local variables of the loop. The tails hold the oldest line first.
pub record State : Type 0 where
  pub stdout_tail : List String
  pub stderr_tail : List String
  pub last_activity : ℕ
  pub last_heartbeat : ℕ
  pub session_id : Option String
  pub structured : Option Fields
  pub usage : Fields
  pub reason : Reason
  pub output : Log

abbrev pub drop {ℓ} : {A : Type ℓ} → ℕ → List A → List A
drop n [] = []
drop zero (x ∷ xs) = x ∷ xs
drop (suc n) (x ∷ xs) = drop n xs

-- `append` to a `deque(maxlen=200)`
abbrev pub append : String → List String → List String
append line lines = let all = lines ++ (line ∷ []) in drop (length all - 200) all

abbrev pub write_tail : Stream → String → State → State
write_tail stdout line s = record s { stdout_tail = append line s.stdout_tail }
write_tail stderr line s = record s { stderr_tail = append line s.stderr_tail }

-- `found or previous` of texts: an empty text gives way.
abbrev pub or_text : Option String → Option String → Option String
or_text none previous = previous
or_text (some s) previous = if str_eq s "" then previous else some s

-- `found or previous` of mappings: an empty one gives way.
abbrev or_fields : Option Fields → Option Fields → Option Fields
or_fields none previous = previous
or_fields (some fs) previous = if truthy (obj fs) then some fs else previous

abbrev learn : State → Extract → State
learn s found = record s {
  session_id = or_text found.session_id s.session_id;
  structured = or_fields found.structured s.structured;
  usage = if truthy (obj found.usage) then found.usage else s.usage;
}

-- `isinstance(event, dict)` and what follows.
unfoldable pub learn_from : Option Fields → State → Result State
learn_from none s = ok s
learn_from (some event) s = do found ← extract event; ok (learn s found)

abbrev event_of : Option Json → Option Fields
event_of none = none
event_of (some v) = as_object v

abbrev pub stop : Reason → Result (Unit {0}) → State → Result State
stop why terminated s = terminated >> ok (record s { reason = why })

module _ (loads : String → Option Json) (canonical_json : Json → String) (c : Limits) where
  abbrev write : Json → State → State
  write v s = record s {
    output = write_log c.max_log_bytes c.log_backup_count (canonical_json v +s "\n") s.output;
  }

  abbrev entry : Message → Json
  entry m = obj (
      field "type" (str (stream_name m.source))
        (field "timestamp" (str m.logged_at) (field "line" (str m.line) end)))

  abbrev hear_event : Message → State → Result State
  hear_event m s = elim m.source [ stdout ↦ learn_from (event_of (loads m.line)) s | stderr ↦ ok s ]

  -- A message: an empty line is none.
  unfoldable pub hear : Option Message → State → Result State
  hear none s = ok s
  hear (some m) s =
      if str_eq m.line ""
      then ok s
      else hear_event m (
          write (entry m) (
            write_tail m.source (last_chars 16000 m.line) (record s { last_activity = m.emitted })))

  -- The tests of the wall time and of the silence.
  unfoldable pub watch : ℕ → Turn → State → Result State
  watch started t s =
      if t.runs && leb (started + c.wall_timeout) t.now
      then stop wall_timeout t.terminated s
      else if t.still_runs && leb (s.last_activity + seconds c.silence_timeout_seconds) t.now
      then stop silence_timeout t.terminated s
      else ok s

  -- `lease_ok is False`
  abbrev pub is_lost : Option Bool → Bool
  is_lost none = false
  is_lost (some b) = not b

  unfoldable pub beat : Turn → State → Result State
  beat t s =
      if c.heartbeats && leb (s.last_heartbeat + seconds c.heartbeat_interval_seconds) t.now
      then (do
        lease_ok ← t.lease_ok
        s' ← if is_lost lease_ok && t.runs_after then stop lease_lost t.released s else ok s
        ok (record s' { last_heartbeat = t.now }))
      else ok s

  unfoldable pub turn : ℕ → Turn → State → Result State
  turn started t s = do watched ← watch started t s; heard ← hear t.message watched; beat t heard

  -- The loop, over the turns that it takes.
  unfoldable pub turns : ℕ → List Turn → State → Result State
  turns started [] s = ok s
  turns started (t ∷ ts) s = do s' ← turn started t s; turns started ts s'

  -- The variables before the loop, with the start logged. `output` is the file as it was opened.
  unfoldable pub begin : ℕ → String → ℕ → Log → State
  begin started started_text pid output =
      write
        (obj (
          field "type" (str "supervisor_start")
            (field "timestamp" (str started_text) (field "pid" (int (pos pid)) end))))
        (record {
          stdout_tail = [];
          stderr_tail = [];
          last_activity = started;
          last_heartbeat = 0;
          session_id = none;
          structured = none;
          usage = end;
          reason = exited;
          output = output;
        })

-- The reason that is reported.
unfoldable pub reason_name : ℤ → Reason → String
reason_name exit_code exited = if eq_ℤ exit_code (pos 0) then "success" else "process_error"
reason_name exit_code wall_timeout = "wall_timeout"
reason_name exit_code silence_timeout = "silence_timeout"
reason_name exit_code lease_lost = "lease_lost"

-- `"\n".join`
abbrev join_lines : List String → String
join_lines [] = ""
join_lines (line ∷ []) = line
join_lines (line ∷ next ∷ lines) = line +s "\n" +s join_lines (next ∷ lines)

abbrev object_or_null : Option Fields → Json
object_or_null none = null
object_or_null (some fs) = obj fs

-- The result, with the two readings of its output that the callers take.
unfoldable pub result_of : (String → List String) → (String → Bool) → ℤ → State → ProcessResult
result_of splitlines has_api_error exit_code s =
    let tail = join_lines s.stdout_tail in
    record {
      exit_code = exit_code;
      reason = reason_name exit_code s.reason;
      stdout_tail = tail;
      stdout_lines = splitlines (last_chars 16000 tail);
      has_api_error = has_api_error tail;
      stderr_tail = join_lines s.stderr_tail;
      session_id = s.session_id;
      structured_output = object_or_null s.structured;
      usage = obj s.usage;
    }
