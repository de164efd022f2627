-- ===== src/Ledger/Runs/Laws.antt =====
-- The life of a run: a run that has ended stays ended.
use qwen_autonomous_supervis.Prelude.{
  ℕ, String, str_eq, eq_iff, ◌≡◌, refl, ◌⊎◌, Bool, false, Option, List, [], ◌∷◌, arith, ◌&&◌,
  if◌then◌else◌, exists,
}
use qwen_autonomous_supervis.Prelude.Int.{ℤ}
use qwen_autonomous_supervis.Ledger.Runs.{
  Run, RunStatus, succeeded, failed, abandoned, is_run, is_active, set_run_running, heartbeat_run,
  finish_run, fail_active_run,
}

-- Some row of the run is `starting` or `running`.
abbrev pub is_open : String → List Run → Bool
is_open id runs = exists (λ (r : Run). is_run id r && is_active r) runs

-- No two rows are of one run.
abbrev pub IsKeyed : List Run → Type 0
IsKeyed [] = Unit
IsKeyed (r ∷ rs) = (exists (is_run r.run_id) rs ≡ false) × IsKeyed rs

-- The statuses with which the program finishes a run.
abbrev pub IsTerminal : RunStatus → Type 0
IsTerminal s = (s ≡ succeeded) ⊎ ((s ≡ failed) ⊎ (s ≡ abandoned))

-- A run that is finished with a status of an end is not open afterwards, and every other run is open
-- exactly if it was.
pub is_open-finish_run :
    (at : ℕ) (id j reason : String) (s : RunStatus) (code : ℤ) (runs : List Run)
    → IsTerminal s
    → is_open j (finish_run at id s code reason runs)
      ≡ (if str_eq id j then false else is_open j runs)
unfolding finish_run
is_open-finish_run at id j reason s code [] t = ground arith
is_open-finish_run at id j reason s code (r ∷ rs) t = ground (
  arith,
  eq_iff id j,
  eq_iff r.run_id id,
  eq_iff r.run_id j,
  is_open-finish_run at id j reason s code rs t,
)

pub is_open-fail_active_run :
    (at : ℕ) (id j reason : String) (runs : List Run)
    → is_open j (fail_active_run at id reason runs)
      ≡ (if str_eq id j then false else is_open j runs)
unfolding fail_active_run
is_open-fail_active_run at id j reason [] = ground arith
is_open-fail_active_run at id j reason (r ∷ rs) = ground (
  arith,
  eq_iff id j,
  eq_iff r.run_id id,
  eq_iff r.run_id j,
  is_open-fail_active_run at id j reason rs,
)

-- A start or a heartbeat that comes late reopens no run.
pub is_open-set_run_running :
    (at : ℕ) (id j : String) (pid : ℕ) (runs : List Run)
    → is_open j (set_run_running at id pid runs) ≡ is_open j runs
unfolding set_run_running
is_open-set_run_running at id j pid [] = refl
is_open-set_run_running at id j pid (r ∷ rs) =
    ground (arith, is_open-set_run_running at id j pid rs)

pub is_open-heartbeat_run :
    (at : ℕ) (id j : String) (session : Option String) (runs : List Run)
    → is_open j (heartbeat_run at id session runs) ≡ is_open j runs
unfolding heartbeat_run
is_open-heartbeat_run at id j session [] = refl
is_open-heartbeat_run at id j session (r ∷ rs) =
    ground (arith, is_open-heartbeat_run at id j session rs)
