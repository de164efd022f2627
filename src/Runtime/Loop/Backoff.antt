-- ===== src/Runtime/Loop/Backoff.antt =====
-- The scheduler runs no tick while the host is quarantined or before the moment that was set for the next.
use qwen_autonomous_supervis.Prelude.{
  ℕ, ◌+◌, ◌<◌, ◌≤◌, min, String, str_eq, ◌≡◌, refl, ◌∙◌, ◌⊎◌, inl, inr, Bool, true, false, List, [],
  ◌∷◌, arith, All, Bool-cases, if◌then◌else◌,
}
use qwen_autonomous_supervis.Prelude.Int.{pos}
use qwen_autonomous_supervis.Json.{Json, real}
use qwen_autonomous_supervis.Errors.{Result, ok, err}
use qwen_autonomous_supervis.Effects.{Effect, give, go_on, catch, ◌>>=◌}
use qwen_autonomous_supervis.Config.{SupervisorConfig}
use qwen_autonomous_supervis.Ledger.{Ledger}
use qwen_autonomous_supervis.Ledger.Leases.{Lease, seconds}
use qwen_autonomous_supervis.Ledger.Events.{Details, append_event, event_count}
use qwen_autonomous_supervis.Ledger.Events.Laws.{event_count-append_event}
use qwen_autonomous_supervis.Ledger.Failures.{quarantined_in}
use qwen_autonomous_supervis.Ledger.Runs.{Run}
use qwen_autonomous_supervis.Ledger.Checkpoints.{get_checkpoint, get_checkpoint-set_checkpoint}
use qwen_autonomous_supervis.Runtime.Answers.{Answers, Tools, TickOutcome}
use qwen_autonomous_supervis.Runtime.Tick.Steps.{TickState}
use qwen_autonomous_supervis.Runtime.Tick.Run.{supervise}
use qwen_autonomous_supervis.Runtime.Tick.Settled.{supervise-IsSettled}
use qwen_autonomous_supervis.Runtime.Evidence.{
  checkpoint_recovery_worktree, take_evidence, forgive_keeps, recovery_point,
}
use qwen_autonomous_supervis.Runtime.Recovery.{
  Watch, Recovery, note_expired, note_hung, abandon, recover_runs, reap, clean_up, recover,
  checkpoint_if_any, is_silent,
}
use qwen_autonomous_supervis.Runtime.Recovery.Laws.{go_on-give}
use qwen_autonomous_supervis.Runtime.Loop.{Pass, is_none_of, may_tick, tick_if, pass, passes}

-- What `next_allowed_epoch` reads.
abbrev pub next_allowed : Ledger → Json
next_allowed l = get_checkpoint "next_allowed_epoch" l.checkpoints

-- The ticks that the log shows as started.
abbrev pub ticks_started : Ledger → ℕ
ticks_started l = event_count "tick_started" l.events

-- What decides whether a tick runs, and the ticks that were started, are the same.
pub record IsAlike (l l' : Ledger) : Type 0 where
  pub failures : l'.failures ≡ l.failures
  pub next : next_allowed l' ≡ next_allowed l
  pub ticks : ticks_started l' ≡ ticks_started l

IsAlike-refl : (l : Ledger) → IsAlike l l
IsAlike-refl l = record { failures = refl; next = refl; ticks = refl }

IsAlike-trans : {l m n : Ledger} → IsAlike l m → IsAlike m n → IsAlike l n
IsAlike-trans h k = record {
  failures = k.failures ∙ h.failures;
  next = k.next ∙ h.next;
  ticks = k.ticks ∙ h.ticks;
}

-- An event of another kind.
event-IsAlike :
    (at : ℕ) (kind : String) (d : Details) (l : Ledger)
    → str_eq kind "tick_started" ≡ false
    → IsAlike l (record l { events = (append_event at kind d l.events).1 })
event-IsAlike at kind d l n = record {
  failures = refl;
  next = refl;
  ticks = ground (arith, event_count-append_event at kind "tick_started" d l.events);
}

evidence-IsAlike :
    (at : ℕ) (head : Result String) (seen : Result (String × String)) (l : Ledger)
    → IsAlike l (checkpoint_recovery_worktree at head seen l).1
unfolding checkpoint_recovery_worktree take_evidence catch ◌>>=◌
evidence-IsAlike at (err e) seen l = rw (forgive_keeps at (err e) seen e l) (IsAlike-refl l)
evidence-IsAlike at (ok head) (err e) l =
    rw (forgive_keeps at (ok head) (err e) e l) (IsAlike-refl l)
evidence-IsAlike at (ok head) (ok seen) l = record {
  failures = refl;
  next =
      get_checkpoint-set_checkpoint at "recovery_worktree" "next_allowed_epoch"
        (recovery_point head seen) l.checkpoints;
  ticks = refl;
}

module _ (c : SupervisorConfig) (isoformat : ℕ → String) (w : Watch) where
  expired-IsAlike : (rs : List Lease) (l : Ledger) → IsAlike l (note_expired c isoformat w rs l)
  unfolding note_expired
  expired-IsAlike [] l = IsAlike-refl l
  expired-IsAlike (r ∷ rs) l =
      IsAlike-trans (event-IsAlike _ "lease_expired" _ l refl) (expired-IsAlike rs _)

  hung-IsAlike : (r : Run) (l : Ledger) → IsAlike l (note_hung c isoformat w r l)
  unfolding note_hung
  hung-IsAlike r l = elim (Bool-cases (w.alive r)) [
    | inl y ↦ simp y (event-IsAlike _ "run_hung" _ l refl)
    | inr n ↦ simp n (IsAlike-refl l)
  ]

  abandon-IsAlike : (r : Run) (l : Ledger) → IsAlike l (abandon c isoformat w r l)
  unfolding abandon
  abandon-IsAlike r l =
      let e = event-IsAlike (w.finished_at r) "run_recovered" _ l refl in
      record { failures = refl; next = refl; ticks = e.ticks }

  runs-IsAlike : (rs : List Run) (l : Ledger) → IsAlike l (recover_runs c isoformat w rs l)
  unfolding recover_runs
  runs-IsAlike [] l = IsAlike-refl l
  runs-IsAlike (r ∷ rs) l = elim (Bool-cases (is_silent c isoformat w r)) [
    | inl y ↦
        simp y (
          IsAlike-trans (IsAlike-trans (hung-IsAlike r l) (abandon-IsAlike r _))
            (runs-IsAlike rs _))
    | inr n ↦ simp n (runs-IsAlike rs l)
  ]

  last-IsAlike :
      (rows : List Run) (found : Recovery) (l : Ledger)
      → IsAlike l ((checkpoint_if_any c isoformat w rows >>= λ _. give found) l).1
  unfolding ◌>>=◌
  last-IsAlike [] found l = IsAlike-refl l
  last-IsAlike (r ∷ rs) found l =
      rw
        (go_on-give c isoformat w (checkpoint_recovery_worktree w.ended_at w.head w.worktree l).0
          found _)
        (evidence-IsAlike w.ended_at w.head w.worktree l)

  clean_up-IsAlike : (l : Ledger) → IsAlike l (clean_up c isoformat w l).1
  unfolding clean_up reap ◌>>=◌
  clean_up-IsAlike l =
      IsAlike-trans
        (IsAlike-trans (record { failures = refl; next = refl; ticks = refl })
          (expired-IsAlike _ _))
        (IsAlike-trans (runs-IsAlike _ _) (last-IsAlike _ _ _))

  go_on-IsAlike :
      {A B : Type 0} (r : Result A) (m : Effect Ledger B) (l : Ledger)
      → IsAlike l (m l).1
      → IsAlike l (go_on r (λ _. m) l).1
  go_on-IsAlike (ok a) m l h = h
  go_on-IsAlike (err e) m l h = IsAlike-refl l

  recover-IsAlike : (l : Ledger) → IsAlike l (recover c isoformat w l).1
  unfolding recover ◌>>=◌
  recover-IsAlike l = go_on-IsAlike w.integrity (clean_up c isoformat w) l (clean_up-IsAlike l)

may_tick-IsAlike : (now : ℕ) {l l' : Ledger} → IsAlike l l' → may_tick now l' ≡ may_tick now l
unfolding may_tick
may_tick-IsAlike now h = rw (h.failures, h.next) refl

module _ (c : SupervisorConfig) (t : Tools) (isoformat : ℕ → String) where
  tick_if-IsAlike :
      (now : ℕ) (a : Answers) (l : Ledger)
      → may_tick now l ≡ false
      → IsAlike l (tick_if c t isoformat (may_tick now l) a l).1
  tick_if-IsAlike now a l h = rw h (IsAlike-refl l)

  go_on-pass :
      (p : Pass) (r : Result Recovery) (l l' : Ledger)
      → IsAlike l l'
      → may_tick p.now l ≡ false
      → IsAlike l (go_on r (λ _ s. tick_if c t isoformat (may_tick p.now s) p.answers s) l').1
  go_on-pass p (ok x) l l' h n =
      IsAlike-trans h (tick_if-IsAlike p.now p.answers l' (may_tick-IsAlike p.now h ∙ n))
  go_on-pass p (err e) l l' h n = h

  pass-IsAlike :
      (p : Pass) (l : Ledger) → may_tick p.now l ≡ false → IsAlike l (pass c t isoformat p l).1
  unfolding pass ◌>>=◌
  pass-IsAlike p l n =
      go_on-pass p (recover c isoformat p.watch l).0 l _ (recover-IsAlike c isoformat p.watch l) n

  held-IsAlike :
      (ps : List Pass) {l l' : Ledger}
      → IsAlike l l'
      → All (λ (p : Pass). may_tick p.now l ≡ false) ps
      → All (λ (p : Pass). may_tick p.now l' ≡ false) ps
  held-IsAlike [] k h = tt
  held-IsAlike (p ∷ ps) k h = (may_tick-IsAlike p.now k ∙ h.0, held-IsAlike ps k h.1)

  rest-IsAlike :
      (once : Bool) (ps : List Pass) (r : Result (Unit {0})) (l l' : Ledger)
      → IsAlike l l'
      → IsAlike l' (passes c t isoformat once ps l').1
      → IsAlike l (go_on r (λ _. if once then give tt else passes c t isoformat once ps) l').1
  rest-IsAlike once ps (err e) l l' k h = k
  rest-IsAlike true ps (ok u) l l' k h = k
  rest-IsAlike false ps (ok u) l l' k h = IsAlike-trans k h

  passes-IsAlike :
      (once : Bool) (ps : List Pass) (l : Ledger)
      → All (λ (p : Pass). may_tick p.now l ≡ false) ps
      → IsAlike l (passes c t isoformat once ps l).1
  unfolding passes ◌>>=◌
  passes-IsAlike once [] l h = IsAlike-refl l
  passes-IsAlike once (p ∷ ps) l h =
      let k = pass-IsAlike p l h.0 in
      rest-IsAlike once ps (pass c t isoformat p l).0 l (pass c t isoformat p l).1 k
        (passes-IsAlike once ps (pass c t isoformat p l).1 (held-IsAlike ps k h.1))

  not_due :
      (n : ℕ) (ps : List Pass) (l : Ledger)
      → next_allowed l ≡ real (pos n)
      → All (λ (p : Pass). p.now < n) ps
      → All (λ (p : Pass). may_tick p.now l ≡ false) ps
  unfolding may_tick
  not_due n [] l e h = tt
  not_due n (p ∷ ps) l e h = (rw e (ground (arith, h.0)), not_due n ps l e h.1)

  quarantined_host :
      (ps : List Pass) (l : Ledger)
      → is_none_of (quarantined_in "host" l.failures) ≡ false
      → All (λ (p : Pass). may_tick p.now l ≡ false) ps
  unfolding may_tick
  quarantined_host [] l e = tt
  quarantined_host (p ∷ ps) l e = (rw e refl, quarantined_host ps l e)

  -- However many rounds the scheduler goes through while a failure of the host is quarantined, or before
  -- the stored moment of the next tick, it starts no tick, and the quarantine and the moment stay as they
  -- are.
  passes_wait :
      (once : Bool) (ps : List Pass) (l : Ledger) (n : ℕ)
      → (is_none_of (quarantined_in "host" l.failures) ≡ false)
        ⊎ ((next_allowed l ≡ real (pos n)) × All (λ (p : Pass). p.now < n) ps)
      → IsAlike l (passes c t isoformat once ps l).1
  passes_wait once ps l n (inl q) = passes-IsAlike once ps l (quarantined_host ps l q)
  passes_wait once ps l n (inr h) = passes-IsAlike once ps l (not_due n ps l h.0 h.1)

  below :
      (n m : ℕ) (ps : List Pass)
      → n ≤ m
      → All (λ (p : Pass). p.now < n) ps
      → All (λ (p : Pass). p.now < m) ps
  below n m [] h a = tt
  below n m (p ∷ ps) h a = (omega (arith, h, a.0), below n m ps h a.1)

  -- After a tick that held the lease and returned no success, the scheduler starts no tick in any rounds
  -- before the end of that tick and the smaller of the two retry bounds.
  pub failure_waits :
      (a : Answers) (s : TickState) (o : TickOutcome) (once : Bool) (ps : List Pass)
      → (supervise c t a s).0 ≡ ok o
      → o.success ≡ false
      → All
          (λ (p : Pass).
            p.now
            < a.ended_at
              + seconds (min c.recovery.retry_base_seconds c.recovery.retry_maximum_seconds))
          ps
      → ticks_started (passes c t isoformat once ps (supervise c t a s).1.ledger).1
        ≡ ticks_started (supervise c t a s).1.ledger
  failure_waits a s o once ps h n soon =
      let k = supervise-IsSettled c t a s o h n in
      (passes_wait once ps (supervise c t a s).1.ledger (a.ended_at + seconds k.delay)
        (inr (k.next, below _ _ ps (omega (arith, k.enough)) soon))).ticks
