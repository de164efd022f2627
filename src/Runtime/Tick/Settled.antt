-- ===== src/Runtime/Tick/Settled.antt =====
-- What a failed tick of src/qas/runtime.py leaves in the ledger: its run, and the moment of the next tick.
use qwen_autonomous_supervis.Prelude.{
  ℕ, ◌+◌, ◌≤◌, String, str_eq_refl, ◌≡◌, refl, sym, inl, inr, Bool, true, false, List, ◌&&◌, min,
  Bool-cases, arith,
}
use qwen_autonomous_supervis.Prelude.Int.{pos}
use qwen_autonomous_supervis.Json.{real}
use qwen_autonomous_supervis.Errors.{Exception, Result, ok, err, text}
use qwen_autonomous_supervis.Effects.Rules.{
  Post, returned, raised, Triple, Triple-bind, Triple-catch, Triple-give, Triple-throw, Post-either,
  Post-ok, Triple-finally,
}
use qwen_autonomous_supervis.Effects.Returns.{
  Yields, yields, raises, Returns, Returns-bind, Returns-any, Returns-give,
}
use qwen_autonomous_supervis.Config.{SupervisorConfig}
use qwen_autonomous_supervis.Ledger.{Ledger}
use qwen_autonomous_supervis.Ledger.Leases.{seconds}
use qwen_autonomous_supervis.Ledger.Events.{Event, Details}
use qwen_autonomous_supervis.Ledger.Checkpoints.{get_checkpoint, get_checkpoint-set_checkpoint}
use qwen_autonomous_supervis.Ledger.Failures.{Failure}
use qwen_autonomous_supervis.Ledger.Runs.Laws.{is_open, is_open-fail_active_run}
use qwen_autonomous_supervis.Runtime.Answers.{Answers, Tools, TickOutcome}
use qwen_autonomous_supervis.Runtime.Evidence.{
  Reaction, pauses, blocks, violates, breaks, fails, escapes, reaction,
  checkpoint_recovery_worktree_keeps,
}
use qwen_autonomous_supervis.Runtime.Tick.Steps.{within, Tick, TickState, on_ledger, log, save}
use qwen_autonomous_supervis.Runtime.Tick.Handler.{
  recover_from, pause, fail_tick, await_dependency, count_and_wait, may_be_transient, fail_run,
  wait, checkpoint_if_started, count_failure, note_violation, with_failures, pause_delay,
}
use qwen_autonomous_supervis.Runtime.Tick.Run.{supervise, finish_tick, release, work}
use qwen_autonomous_supervis.Runtime.Tick.Delays.{retry_delay_lem}

module _ (c : SupervisorConfig) (t : Tools) (a : Answers) where
  -- The tick's run is not active, and the next tick waits for at least the smaller bound.
  pub record IsSettled (s : TickState) : Type 0 where
    pub closed : is_open a.run_id s.ledger.runs ≡ false
    pub delay : ℕ
    pub enough : min c.recovery.retry_base_seconds c.recovery.retry_maximum_seconds ≤ delay
    pub next :
        get_checkpoint "next_allowed_epoch" s.ledger.checkpoints
        ≡ real (pos (a.ended_at + seconds delay))

  abbrev IsClosed : TickState → Type 0
  IsClosed s = is_open a.run_id s.ledger.runs ≡ false

  abbrev Anything : Exception → TickState → Type 0
  Anything e s = Unit {0}

  -- A step that keeps `P` however it ends.
  keeps :
      {A : Type 0} (P : TickState → Type 0) (m : Tick A)
      → ((s : TickState) → P s → P (m s).1)
      → Triple P m (λ _. P) Anything
  keeps P m k = record { at = λ s h. Post-either _ _ (λ _. k s h) (λ _. tt) }

  fail_run-Triple :
      (e : Exception) → Triple (λ _. Unit {0}) (fail_run c t a e) (λ _. IsClosed) Anything
  unfolding fail_run on_ledger
  fail_run-Triple e = record {
    at = λ s h. returned (
        rw (is_open-fail_active_run _ a.run_id a.run_id _ s.ledger.runs, str_eq_refl a.run_id)
          refl);
  }

  recovery-Triple : Triple IsClosed (checkpoint_if_started c t a) (λ _. IsClosed) Anything
  unfolding checkpoint_if_started within
  recovery-Triple = Triple-bind _ _ (keeps IsClosed _ (λ s h. h)) λ started.
      elim (Bool-cases started) [
        | inl y ↦ rw y (
            keeps IsClosed _ (λ s h.
              rw
                (checkpoint_recovery_worktree_keeps a.ended_at a.interrupted_head
                  a.interrupted_worktree s.ledger).0
                h))
        | inr n ↦ rw n (Triple-give _ (λ s h. h))
      ]

  wait-Triple :
      (d : ℕ)
      → min c.recovery.retry_base_seconds c.recovery.retry_maximum_seconds ≤ d
      → Triple IsClosed (wait c t a d) (λ _. IsSettled) Anything
  unfolding wait save
  wait-Triple d h = record {
    at = λ s k. returned (record {
      closed = k;
      delay = d;
      enough = h;
      next =
          rw
            (get_checkpoint-set_checkpoint a.ended_at "next_allowed_epoch" "next_allowed_epoch"
              (real (pos (a.ended_at + seconds d))) s.ledger.checkpoints)
            refl;
    });
  }

  -- An event moves neither.
  log-Triple :
      (P : TickState → Type 0) (at : ℕ) (kind : String) (d : Details)
      → ((s : TickState) (es : List Event)
          → P s
          → P (record s { ledger = record s.ledger { events = es } }))
      → Triple P (log at kind d) (λ _. P) Anything
  unfolding log
  log-Triple P at kind d k = record { at = λ s h. returned (k s _ h) }

  IsSettled-log :
      (at : ℕ) (kind : String) (d : Details)
      → Triple IsSettled (log at kind d) (λ _. IsSettled) Anything
  IsSettled-log at kind d =
      log-Triple IsSettled at kind d
        λ s es h. record { closed = h.closed; delay = h.delay; enough = h.enough; next = h.next }

  IsClosed-log :
      (at : ℕ) (kind : String) (d : Details)
      → Triple IsClosed (log at kind d) (λ _. IsClosed) Anything
  IsClosed-log at kind d = log-Triple IsClosed at kind d λ s es h. h

  abbrev Outcome : TickOutcome → TickState → Type 0
  Outcome o s = o.success ≡ false → IsSettled s

  abbrev Settles : Tick TickOutcome → Type 0
  Settles m = Triple (λ _. Unit {0}) m Outcome Anything

  pause-Triple : (e : Exception) → Settles (pause c t a e)
  unfolding pause pause_delay
  pause-Triple e = Triple-bind _ _ (fail_run-Triple e) λ _. Triple-bind _ _ recovery-Triple λ _.
      Triple-bind _ _ (wait-Triple _ (omega arith))
        λ _. Triple-bind _ _ (IsSettled-log _ _ _) λ _. Triple-give _ (λ s h n. h)

  await-Triple : (e : Exception) → Triple IsClosed (await_dependency c t a e) Outcome Anything
  unfolding await_dependency
  await-Triple e = Triple-bind _ _ recovery-Triple λ _.
      Triple-bind _ _ (wait-Triple _ (omega arith))
        λ _. Triple-bind _ _ (IsSettled-log _ _ _) λ _. Triple-give _ (λ s h n. h)

  violation-Triple :
      (e : Exception) (r : Reaction)
      → Triple IsClosed (note_violation c t a e r) (λ _. IsClosed) Anything
  unfolding note_violation
  violation-Triple e violates = IsClosed-log _ _ _
  violation-Triple e pauses = Triple-give _ (λ s h. h)
  violation-Triple e blocks = Triple-give _ (λ s h. h)
  violation-Triple e breaks = Triple-give _ (λ s h. h)
  violation-Triple e fails = Triple-give _ (λ s h. h)
  violation-Triple e escapes = Triple-give _ (λ s h. h)

  with_failures-runs :
      (l : Ledger) (r : Result ((ℕ × Bool) × List Failure)) → (with_failures l r).1.runs ≡ l.runs
  with_failures-runs l (ok r) = refl
  with_failures-runs l (err e) = refl

  count_failure-Triple :
      (e : Exception) → Triple IsClosed (count_failure c t a e) (λ _. IsClosed) Anything
  unfolding count_failure
  count_failure-Triple e = keeps IsClosed _ λ s h. rw (with_failures-runs s.ledger _) h

  count-Triple : (e : Exception) → Triple IsClosed (count_and_wait c t a e) Outcome Anything
  unfolding count_and_wait
  count-Triple e = Triple-bind _ _ (violation-Triple e _) λ _. Triple-bind _ _ recovery-Triple λ _.
      Triple-bind _ _ (count_failure-Triple e) λ n.
        Triple-bind _ _ (keeps IsClosed _ (λ s h. h)) λ _. Triple-bind _ _ (IsClosed-log _ _ _) λ _.
          Triple-bind _ _ (wait-Triple _ (retry_delay_lem c n.0 n.0 (omega arith)).0)
            λ _. Triple-give _ (λ s h n. h)

  fail-Triple : (e : Exception) → Settles (fail_tick c t a e)
  unfolding fail_tick
  fail-Triple e = Triple-bind _ _ (fail_run-Triple e) λ _.
      elim (Bool-cases (may_be_transient (reaction e) && t.is_transient (text e))) [
        | inl y ↦ rw y (await-Triple e)
        | inr n ↦ rw n (count-Triple e)
      ]

  recover-Triple : (e : Exception) (r : Reaction) → Settles (recover_from c t a e r)
  unfolding recover_from
  recover-Triple e pauses = pause-Triple e
  recover-Triple e escapes = Triple-throw _ (λ s h. tt)
  recover-Triple e blocks = fail-Triple e
  recover-Triple e violates = fail-Triple e
  recover-Triple e breaks = fail-Triple e
  recover-Triple e fails = fail-Triple e

  Returns-work : Returns (λ o. o.success ≡ true) (work c t a)
  unfolding work finish_tick
  Returns-work = Returns-bind _ _ (Returns-any _) λ _ _. Returns-bind _ _ (Returns-any _) λ _ _.
      Returns-bind _ _ (Returns-any _) λ _ _. Returns-bind _ _ (Returns-any _) λ _ _.
        Returns-bind _ _ (Returns-any _) λ _ _.
          Returns-bind _ _ (Returns-any _)
            λ _ _. Returns-bind _ _ (Returns-any _) λ _ _. Returns-give _ refl

  work-Triple : Triple (λ _. Unit {0}) (work c t a) Outcome (λ _ _. Unit {0})
  work-Triple = record { at = λ s h. succeeded (Returns-work.at s) }
    where
      succeeded :
          {r : Result TickOutcome} {s : TickState}
          → Yields (λ o. o.success ≡ true) r
          → Post Outcome (λ _ _. Unit {0}) r s
      succeeded (yields y) = returned (λ n. cc (y, n))
      succeeded raises = raised tt

  supervise-Triple : Settles (supervise c t a)
  unfolding supervise release
  supervise-Triple = Triple-bind _ _ (log-Triple (λ _. Unit {0}) _ _ _ (λ s es h. h)) λ _.
      Triple-finally _ _ (Triple-catch _ _ work-Triple (λ e. recover-Triple e _))
        (λ o s k n.
          let h = k n in
          record { closed = h.closed; delay = h.delay; enough = h.enough; next = h.next })
        (λ e s h. h)

  -- If a tick that holds the lease returns an outcome that is no success, then its run is not active, and
  -- the stored moment of the next tick is at least the smaller of the two retry bounds after the end.
  pub supervise-IsSettled :
      (s : TickState) (o : TickOutcome)
      → (supervise c t a s).0 ≡ ok o
      → o.success ≡ false
      → IsSettled (supervise c t a s).1
  supervise-IsSettled s o h n =
      Post-ok {Q = Outcome} {E = Anything} {a = o} (rw (sym h) (supervise-Triple.at s tt)) n
