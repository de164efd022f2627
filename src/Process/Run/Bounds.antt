-- ===== src/Process/Run/Bounds.antt =====
-- The memory and the disk that the loop over the messages of a process uses.
use qwen_autonomous_supervis.Prelude.{
  ℕ, zero, suc, ◌+◌, ◌-◌, ◌≤◌, ◌<◌, ◌≡◌, String, str_eq, Option, none, some, List, [], ◌∷◌, ◌++◌,
  ◌&&◌, leb, length, arith,
}
use qwen_autonomous_supervis.Prelude.Text.{last_chars}
use qwen_autonomous_supervis.Json.{Json, Fields}
use qwen_autonomous_supervis.Errors.{Result, ok}
use qwen_autonomous_supervis.Errors.Holds.{
  Holds, holds, Holds-bind, Holds-any, Holds-then, Holds-if,
}
use qwen_autonomous_supervis.Ledger.Leases.{seconds}
use qwen_autonomous_supervis.Process.Events.{extract}
use qwen_autonomous_supervis.Process.Log.{Log, opened}
use qwen_autonomous_supervis.Process.Log.Laws.{total, IsBounded, write_log-IsBounded}
use qwen_autonomous_supervis.Process.Run.{
  Limits, Message, Turn, State, Reason, stdout, stderr, wall_timeout, silence_timeout, lease_lost,
  drop, append, learn_from, hear, watch, beat, turn, turns, begin, stop, write, entry, write_tail,
  hear_event, event_of, Stream, is_lost,
}

length-drop : {A : Type 0} (n : ℕ) (xs : List A) → length (drop n xs) ≡ length xs - n
length-drop n [] = omega arith
length-drop zero (x ∷ xs) = omega arith
length-drop (suc n) (x ∷ xs) = omega (arith, length-drop n xs)

length-append : (line : String) (lines : List String) → length (append line lines) ≤ 200
length-append line lines =
    omega (arith, length-drop (length (lines ++ (line ∷ [])) - 200) (lines ++ (line ∷ [])))

module _ (loads : String → Option Json) (canonical_json : Json → String) (c : Limits) where
  -- Each tail has at most 200 lines, and the output file is within its limit unless one line fills it.
  abbrev pub IsWithin : State → Type 0
  IsWithin s =
      (length s.stdout_tail ≤ 200)
      × (length s.stderr_tail ≤ 200)
      × IsBounded c.max_log_bytes s.output

  stop-IsWithin :
      (why : Reason) (r : Result (Unit {0})) (s : State)
      → IsWithin s
      → Holds IsWithin (stop why r s)
  stop-IsWithin why r s h = Holds-then _ _ (holds h)

  watch-IsWithin :
      (started : ℕ) (t : Turn) (s : State)
      → IsWithin s
      → Holds IsWithin (watch loads canonical_json c started t s)
  unfolding watch
  watch-IsWithin started t s h =
      Holds-if (t.runs && leb (started + c.wall_timeout) t.now)
        (stop-IsWithin wall_timeout t.terminated s h)
        (Holds-if (t.still_runs && leb (s.last_activity + seconds c.silence_timeout_seconds) t.now)
          (stop-IsWithin silence_timeout t.terminated s h) (holds {a = s} h))

  learn_from-IsWithin :
      (o : Option Fields) (s : State) → IsWithin s → Holds IsWithin (learn_from o s)
  unfolding learn_from
  learn_from-IsWithin none s h = holds h
  learn_from-IsWithin (some event) s h = Holds-any (extract event) _ λ found. holds h

  write_tail-IsWithin :
      (source : Stream) (line : String) (s : State)
      → IsWithin s
      → IsWithin (write_tail source line s)
  write_tail-IsWithin stdout line s h = (length-append line s.stdout_tail, h.1, h.2)
  write_tail-IsWithin stderr line s h = (h.0, length-append line s.stderr_tail, h.2)

  write-IsWithin :
      0 < c.log_backup_count
      → (v : Json) (s : State) → IsWithin s
      → IsWithin (write loads canonical_json c v s)
  write-IsWithin some_count v s h = (h.0, h.1, write_log-IsBounded _ _ _ s.output some_count h.2.0)

  hear_event-IsWithin :
      (m : Message) (s : State)
      → IsWithin s
      → Holds IsWithin (hear_event loads canonical_json c m s)
  hear_event-IsWithin m s h =
      elim m.source
        as (λ source.
          Holds IsWithin
            (elim source [ stdout ↦ learn_from (event_of (loads m.line)) s | stderr ↦ ok s ])) [
              | stdout ↦ learn_from-IsWithin _ s h
              | stderr ↦ holds h
            ]

  hear-IsWithin :
      0 < c.log_backup_count
      → (m : Option Message) (s : State) → IsWithin s
      → Holds IsWithin (hear loads canonical_json c m s)
  unfolding hear
  hear-IsWithin some_count none s h = holds h
  hear-IsWithin some_count (some m) s h =
      let heard : State = record s { last_activity = m.emitted } in
      let tailed : State = write_tail m.source (last_chars 16000 m.line) heard in
      Holds-if (str_eq m.line "") (holds {a = s} h) (
        hear_event-IsWithin m _ (
          write-IsWithin some_count (entry loads canonical_json c m) tailed
            (write_tail-IsWithin m.source (last_chars 16000 m.line) heard h)))

  beat-IsWithin :
      (t : Turn) (s : State) → IsWithin s → Holds IsWithin (beat loads canonical_json c t s)
  unfolding beat
  beat-IsWithin t s h =
      Holds-if (c.heartbeats && leb (s.last_heartbeat + seconds c.heartbeat_interval_seconds) t.now)
        (Holds-any t.lease_ok _ λ lease_ok.
          Holds-bind _ _
            (Holds-if (is_lost loads canonical_json c lease_ok && t.runs_after)
              (stop-IsWithin lease_lost t.released s h) (holds {a = s} h))
            λ s' h'. holds h')
        (holds {a = s} h)

  turn-IsWithin :
      0 < c.log_backup_count
      → (started : ℕ) (t : Turn) (s : State) → IsWithin s
      → Holds IsWithin (turn loads canonical_json c started t s)
  unfolding turn
  turn-IsWithin some_count started t s h =
      Holds-bind _ _ (watch-IsWithin started t s h) λ watched a.
        Holds-bind _ _ (hear-IsWithin some_count t.message watched a)
          λ heard b. beat-IsWithin t heard b

  turns-IsWithin :
      0 < c.log_backup_count
      → (started : ℕ) (ts : List Turn) (s : State) → IsWithin s
      → Holds IsWithin (turns loads canonical_json c started ts s)
  unfolding turns
  turns-IsWithin some_count started [] s h = holds h
  turns-IsWithin some_count started (t ∷ ts) s h =
      Holds-bind _ _ (turn-IsWithin some_count started t s h)
        λ next h'. turns-IsWithin some_count started ts next h'

  -- Through the whole loop, however many messages come and however large the output file was when it
  -- was opened: each tail has at most 200 lines, the count of bytes is that of the file, and the file is
  -- within `max_log_bytes` unless one line alone fills it. There is at least one backup.
  pub run_process-IsWithin :
      (started : ℕ) (started_text : String) (pid : ℕ) (output : Log) (ts : List Turn)
      → 0 < c.log_backup_count
      → output.log_bytes ≡ total (opened output.files.log)
      → Holds IsWithin (
          turns loads canonical_json c started ts
            (begin loads canonical_json c started started_text pid output))
  unfolding begin
  run_process-IsWithin started started_text pid output ts some_count same =
      turns-IsWithin some_count started ts _
        (omega arith, omega arith, write_log-IsBounded _ _ _ output some_count same)
