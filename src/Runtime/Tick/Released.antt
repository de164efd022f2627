-- ===== src/Runtime/Tick/Released.antt =====
-- The coordinator's lease over a tick of src/qas/runtime.py.
use qwen_autonomous_supervis.Prelude.{
  ◌≡◌, refl, sym, Bool, true, false, exists, delete, exists-delete, Bool-cases, inl, inr, not, ◌&&◌,
  str_eq_refl,
}
use qwen_autonomous_supervis.Errors.{Result, ok, err}
use qwen_autonomous_supervis.Effects.{finally, ◌>>=◌}
use qwen_autonomous_supervis.Config.{SupervisorConfig}
use qwen_autonomous_supervis.Ledger.{Ledger}
use qwen_autonomous_supervis.Ledger.Leases.{
  is_held_by, is_for, is_expired, acquire_lease, release_lease,
}
use qwen_autonomous_supervis.Ledger.Leases.Exclusion.{is_busy, exists-delete-is_expired}
use qwen_autonomous_supervis.Runtime.Answers.{Answers, Tools}
use qwen_autonomous_supervis.Runtime.Tick.Steps.{TickState, log}
use qwen_autonomous_supervis.Runtime.Tick.Run.{supervise, release, begin, note_start, tick}

-- Whether a step raised.
abbrev pub is_error : {A : Type 0} → Result A → Bool
is_error (ok a) = false
is_error (err e) = true

module _ (c : SupervisorConfig) (t : Tools) (a : Answers) where
  releases :
      (s : TickState)
      → exists (is_held_by "coordinator" a.tick_id) (release c t a s).ledger.leases ≡ false
  unfolding release release_lease
  releases s = exists-delete (is_held_by "coordinator" a.tick_id) s.ledger.leases

  supervise-releases :
      (s : TickState)
      → exists (is_held_by "coordinator" a.tick_id) (supervise c t a s).1.ledger.leases ≡ false
  unfolding supervise ◌>>=◌ finally log
  supervise-releases s = releases _

  noted_lem :
      (noted : Result (Unit {0})) (l : Ledger)
      → exists (is_held_by "coordinator" a.tick_id) l.leases ≡ true
      → exists (is_held_by "coordinator" a.tick_id) (note_start c t a noted l).1.leases
        ≡ is_error noted
  noted_lem (ok u) l h = supervise-releases (begin c t a l)
  noted_lem (err e) l h = h

  -- A tick leaves a lease of its own behind exactly if it took the lease, which no unexpired lease of the
  -- coordinator prevented, and its event `tick_started` could then not be written: that event stands before the
  -- `try` block. However the `try` block ends, by an outcome or by an exception that no clause catches, the lease
  -- is released. No lease has the tick's own id before, and the
  -- statements of the ledger after that event are taken to succeed.
  pub tick-releases :
      (l : Ledger)
      → exists (is_held_by "coordinator" a.tick_id) l.leases ≡ false
      → exists (is_held_by "coordinator" a.tick_id) (tick c t a l).1.leases
        ≡ (not (exists (is_busy "coordinator" a.started_at) l.leases) && is_error a.start_noted)
  unfolding tick acquire_lease
  tick-releases l h =
      let free = exists-delete-is_expired "coordinator" a.started_at l.leases in
      rw (sym free)
        (elim (Bool-cases (
          exists (is_for "coordinator")
            (delete (is_expired "coordinator" a.started_at) l.leases))) [
              | inl y ↦ rw y h
              | inr n ↦ rw n (noted_lem a.start_noted _ (rw (str_eq_refl a.tick_id) refl))
            ])
