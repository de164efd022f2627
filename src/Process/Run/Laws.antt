-- ===== src/Process/Run/Laws.antt =====
-- What the loop over the messages of a process guarantees.
use mathlib.Core.Path.{subst}
use qwen_autonomous_supervis.Prelude.{
  ℕ, ◌+◌, ◌≡◌, ◌≢◌, refl, sym, ◌∙◌, ap, String, str_eq, Bool, true, false, Option, none, some, List,
  [], ◌∷◌, ◌&&◌, ◌||◌, leb, if◌then◌else◌, arith,
}
use qwen_autonomous_supervis.Prelude.Int.{ℤ, pos, negsuc, eq_ℤ}
use qwen_autonomous_supervis.Prelude.Text.{last_chars}
use qwen_autonomous_supervis.Json.{Json, Fields}
use qwen_autonomous_supervis.Errors.{Result, ok, err, ◌>>=◌}
use qwen_autonomous_supervis.Errors.Holds.{
  Holds, holds, fails, Holds-bind, Holds-any, Holds-then, Holds-ok, Holds-map, Holds-if, Holds-with,
}
use qwen_autonomous_supervis.Ledger.Leases.{seconds}
use qwen_autonomous_supervis.Process.Events.{extract}
use qwen_autonomous_supervis.Process.Run.{
  Limits, Message, Turn, State, Reason, exited, Stream, write, entry, stdout, stderr, write_tail,
  hear_event, event_of, wall_timeout, silence_timeout, lease_lost, learn_from, hear, watch, beat,
  turn, turns, is_lost, reason_name, stop,
}

module _ (loads : String → Option Json) (canonical_json : Json → String) (c : Limits) where
  -- Whether a turn finds that the process has run, or was silent, for too long.
  abbrev pub is_overdue : ℕ → Turn → State → Bool
  is_overdue started t s =
      (t.runs && leb (started + c.wall_timeout) t.now)
      || (t.still_runs && leb (s.last_activity + seconds c.silence_timeout_seconds) t.now)

  abbrev lost_of : Result (Option Bool) → Bool
  lost_of (ok b) = is_lost loads canonical_json c b
  lost_of (err e) = false

  abbrev revoked_at : Turn → ℕ → Bool
  revoked_at t beaten =
      (c.heartbeats && leb (beaten + seconds c.heartbeat_interval_seconds) t.now)
      && (lost_of t.lease_ok && t.runs_after)

  -- Whether a heartbeat of the turn finds that the lease is lost.
  abbrev is_revoked : Turn → State → Bool
  is_revoked t s = revoked_at t s.last_heartbeat

  -- No turn of the loop finds a reason to stop the process.
  abbrev pub IsUndisturbed : ℕ → List Turn → State → Type 0
  IsUndisturbed started [] s = Unit
  IsUndisturbed started (t ∷ ts) s =
      (is_overdue started t s ≡ false)
      × (is_revoked t s ≡ false)
      × Holds (IsUndisturbed started ts) (turn loads canonical_json c started t s)

  -- A step that stops the process leaves a reason.
  abbrev Leaves : Bool → State → State → Type 0
  Leaves stops s s' =
      (s'.reason ≡ exited → (s.reason ≡ exited) × (stops ≡ false))
      × (s'.last_heartbeat ≡ s.last_heartbeat)

  Leaves-stop :
      (why : Reason) (r : Result (Unit {0})) (stops : Bool) (s : State)
      → why ≢ exited
      → Holds (Leaves stops s) (stop why r s)
  Leaves-stop why r stops s other = Holds-then _ _ (holds (λ e. absurd (other e), refl))

  watch_tests-Leaves :
      (long silent : Bool) (r : Result (Unit {0})) (s : State)
      → Holds (Leaves (long || silent) s) (
          if long then stop wall_timeout r s else if silent then stop silence_timeout r s else ok s)
  watch_tests-Leaves true silent r s = Leaves-stop wall_timeout r true s (λ e. cc)
  watch_tests-Leaves false true r s = Leaves-stop silence_timeout r true s (λ e. cc)
  watch_tests-Leaves false false r s = holds (λ e. (e, refl), refl)

  watch-Leaves :
      (started : ℕ) (t : Turn) (s : State)
      → Holds (Leaves (is_overdue started t s) s) (watch loads canonical_json c started t s)
  unfolding watch
  watch-Leaves started t s = watch_tests-Leaves _ _ t.terminated s

  learn_from-Leaves : (o : Option Fields) (s : State) → Holds (Leaves false s) (learn_from o s)
  unfolding learn_from
  learn_from-Leaves none s = holds (λ e. (e, refl), refl)
  learn_from-Leaves (some event) s =
      Holds-any (extract event) _ λ found. holds (λ e. (e, refl), refl)

  Leaves-trans :
      (stops : Bool) (s s' s'' : State)
      → Leaves stops s s'
      → Leaves false s' s''
      → Leaves stops s s''
  Leaves-trans stops s s' s'' (f, p) (g, q) = (λ e. f (g e).0, q ∙ p)

  write_tail-Leaves :
      (source : Stream) (line : String) (s : State) → Leaves false s (write_tail source line s)
  write_tail-Leaves stdout line s = (λ e. (e, refl), refl)
  write_tail-Leaves stderr line s = (λ e. (e, refl), refl)

  hear_event-Leaves :
      (m : Message) (s : State) → Holds (Leaves false s) (hear_event loads canonical_json c m s)
  hear_event-Leaves m s =
      elim m.source
        as (λ source.
          Holds (Leaves false s)
            (elim source [ stdout ↦ learn_from (event_of (loads m.line)) s | stderr ↦ ok s ])) [
              | stdout ↦ learn_from-Leaves _ s
              | stderr ↦ holds (λ e. (e, refl), refl)
            ]

  hear-Leaves :
      (m : Option Message) (s : State) → Holds (Leaves false s) (hear loads canonical_json c m s)
  unfolding hear
  hear-Leaves none s = holds (λ e. (e, refl), refl)
  hear-Leaves (some m) s =
      let heard : State = record s { last_activity = m.emitted } in
      let tailed : State = write_tail m.source (last_chars 16000 m.line) heard in
      Holds-if (str_eq m.line "") (holds (λ e. (e, refl), refl)) (
        Holds-map
          (λ s'.
            Leaves-trans false s tailed s'
              (write_tail-Leaves m.source (last_chars 16000 m.line) heard))
          (hear_event-Leaves m
            (write loads canonical_json c (entry loads canonical_json c m) tailed)))

  lost-Leaves :
      (lost : Bool) (released : Result (Unit {0})) (now : ℕ) (s : State)
      → Holds
          (λ (s' : State). s'.reason ≡ exited → (s.reason ≡ exited) × (lost ≡ false))
          ((if lost then stop lease_lost released s else ok s) >>= λ (s' : State).
            ok (record s' { last_heartbeat = now }))
  lost-Leaves false released now s = holds (λ e. (e, refl))
  lost-Leaves true (ok done) now s = holds (λ e. cc)
  lost-Leaves true (err x) now s = fails

  beat_tests-Leaves :
      (due runs : Bool) (r : Result (Option Bool)) (released : Result (Unit {0})) (now : ℕ)
      (s : State)
      → Holds
          (λ (s' : State).
            s'.reason ≡ exited → (s.reason ≡ exited) × ((due && (lost_of r && runs)) ≡ false))
          (if due
            then (do
              lease_ok ← r
              s' ←
                  if is_lost loads canonical_json c lease_ok && runs
                  then stop lease_lost released s
                  else ok s
              ok (record s' { last_heartbeat = now }))
            else ok s)
  beat_tests-Leaves false runs r released now s = holds (λ e. (e, refl))
  beat_tests-Leaves true runs (err e) released now s = fails
  beat_tests-Leaves true runs (ok b) released now s =
      lost-Leaves (is_lost loads canonical_json c b && runs) released now s

  beat-Leaves :
      (t : Turn) (s : State)
      → Holds
          (λ (s' : State). s'.reason ≡ exited → (s.reason ≡ exited) × (is_revoked t s ≡ false))
          (beat loads canonical_json c t s)
  unfolding beat
  beat-Leaves t s = beat_tests-Leaves _ t.runs_after t.lease_ok t.released t.now s

  -- A turn after which no reason is left had none before, and found none.
  turn-Leaves :
      (started : ℕ) (t : Turn) (s : State)
      → Holds
          (λ (s' : State).
            s'.reason ≡ exited
            → (s.reason ≡ exited) × (is_overdue started t s ≡ false) × (is_revoked t s ≡ false))
          (turn loads canonical_json c started t s)
  unfolding turn
  turn-Leaves started t s = Holds-bind _ _ (watch-Leaves started t s) λ watched a.
      Holds-bind _ _ (hear-Leaves t.message watched) λ heard b.
        Holds-map
          (λ s' k e.
            let (left, kept) = k e in
            let (calm, intime) = a.0 (b.0 left).0 in
            (calm, intime, sym (ap (revoked_at t) (b.1 ∙ a.1)) ∙ kept))
          (beat-Leaves t heard)

  turns-Leaves :
      (started : ℕ) (ts : List Turn) (s : State)
      → Holds
          (λ (s' : State). s'.reason ≡ exited → (s.reason ≡ exited) × IsUndisturbed started ts s)
          (turns loads canonical_json c started ts s)
  unfolding turns
  turns-Leaves started [] s = holds (λ e. (e, tt))
  turns-Leaves started (t ∷ ts) s =
      Holds-bind _ _ (Holds-with _ (turn-Leaves started t s)) λ next known.
        Holds-map
          (λ s' k e.
            let (left, rest) = k e in
            let (calm, intime, held) = known.0 left in
            (
              calm,
              (intime, held, subst (Holds (IsUndisturbed started ts)) (sym known.1) (holds rest)),
            ))
          (turns-Leaves started ts next)

  zero_of_eq : (n : ℤ) → eq_ℤ n (pos 0) ≡ true → n ≡ pos 0
  zero_of_eq (pos n) e = ap pos (ground arith)
  zero_of_eq (negsuc n) e = ground arith

  named_success :
      (b : Bool) → ◌≡◌ {A = String} (if b then "success" else "process_error") "success" → b ≡ true
  named_success true e = refl
  named_success false e = cc

  success_of :
      (exit_code : ℤ) (why : Reason)
      → reason_name exit_code why ≡ "success"
      → (why ≡ exited) × (eq_ℤ exit_code (pos 0) ≡ true)
  unfolding reason_name
  success_of exit_code exited e = (refl, named_success _ e)
  success_of exit_code wall_timeout e = cc
  success_of exit_code silence_timeout e = cc
  success_of exit_code lease_lost e = cc

  -- If `run_process` reports success, the process ended with exit code 0, and in no turn of the loop had it
  -- run or been silent for too long, nor did a heartbeat find the lease lost while it ran.
  pub success-IsUndisturbed :
      (started : ℕ) (ts : List Turn) (s s' : State) (exit_code : ℤ)
      → turns loads canonical_json c started ts s ≡ ok s'
      → reason_name exit_code s'.reason ≡ "success"
      → (exit_code ≡ pos 0) × IsUndisturbed started ts s
  success-IsUndisturbed started ts s s' exit_code e success =
      let (calm, zero_code) = success_of exit_code s'.reason success in
      (
        zero_of_eq exit_code zero_code,
        (Holds-ok (subst (Holds _) e (turns-Leaves started ts s)) calm).1,
      )
