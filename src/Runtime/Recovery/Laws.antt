-- ===== src/Runtime/Recovery/Laws.antt =====
-- What `recover` leaves in the ledger.
use qwen_autonomous_supervis.Prelude.{
  ℕ, String, eq_iff, str_eq_refl, ◌≡◌, refl, sym, ◌∙◌, ap, Bool, false, List, [], ◌∷◌, ◌&&◌, arith,
  leb, map, exists, exists-delete, delete, length, select, if◌then◌else◌,
}
use qwen_autonomous_supervis.Prelude.Int.{negsuc}
use qwen_autonomous_supervis.Errors.{Result, ok, err}
use qwen_autonomous_supervis.Effects.{Effect, give, go_on, ◌>>=◌}
use qwen_autonomous_supervis.Config.{SupervisorConfig}
use qwen_autonomous_supervis.Ledger.{Ledger}
use qwen_autonomous_supervis.Ledger.Leases.{Lease, reap_expired_leases}
use qwen_autonomous_supervis.Ledger.Runs.{Run, abandoned, is_run, is_active, finish, finish_run}
use qwen_autonomous_supervis.Ledger.Runs.Laws.{IsKeyed}
use qwen_autonomous_supervis.Runtime.Evidence.{
  checkpoint_recovery_worktree, checkpoint_recovery_worktree_keeps,
}
use qwen_autonomous_supervis.Runtime.Recovery.{
  Watch, Recovery, is_silent, note_expired, note_hung, abandon, recover_runs, reap, clean_up,
  recover, checkpoint_if_any, ids, silent_runs,
}

module _ (c : SupervisorConfig) (isoformat : ℕ → String) (w : Watch) where
  -- A silent run as it is finished.
  abbrev pub close : Run → Run
  close r = finish (w.finished_at r) abandoned (negsuc 0) "recovered_after_crash" r

  -- What becomes of a row: an active run that is silent is finished, and any other run stays as it is.
  abbrev pub settle : Run → Run
  settle r = if is_active r && is_silent c isoformat w r then close r else r

  -- What the loop over `rows` makes of a row.
  abbrev touch : List Run → Run → Run
  touch [] r = r
  touch (x ∷ xs) r = touch xs (
      if is_silent c isoformat w x && is_run x.run_id r
      then finish (w.finished_at x) abandoned (negsuc 0) "recovered_after_crash" r
      else r)

  note_hung-runs : (r : Run) (l : Ledger) → (note_hung c isoformat w r l).runs ≡ l.runs
  unfolding note_hung
  note_hung-runs r l = ground arith

  map_id : (xs : List Run) → map (λ (r : Run). r) xs ≡ xs
  map_id [] = refl
  map_id (x ∷ xs) = rw (map_id xs) refl

  map-update :
      (x : Run) (rows xs : List Run)
      → map (touch rows) (
          if is_silent c isoformat w x
          then finish_run (w.finished_at x) x.run_id abandoned (negsuc 0) "recovered_after_crash" xs
          else xs)
        ≡ map (touch (x ∷ rows)) xs
  unfolding finish_run
  map-update x rows [] = ground arith
  map-update x rows (r ∷ rs) = ground (arith, map-update x rows rs)

  step-runs :
      (x : Run) (l : Ledger)
      → (if is_silent c isoformat w x
          then abandon c isoformat w x (note_hung c isoformat w x l)
          else l).runs
        ≡ (if is_silent c isoformat w x
            then finish_run
                (w.finished_at x)
                x.run_id
                abandoned
                (negsuc 0)
                "recovered_after_crash"
                l.runs
            else l.runs)
  unfolding abandon
  step-runs x l = ground (arith, note_hung-runs x l)

  recover_runs-runs :
      (rows : List Run) (l : Ledger)
      → (recover_runs c isoformat w rows l).runs ≡ map (touch rows) l.runs
  unfolding recover_runs
  recover_runs-runs [] l = sym (map_id l.runs)
  recover_runs-runs (x ∷ rows) l =
      recover_runs-runs rows _ ∙ (ap (map (touch rows)) (step-runs x l) ∙ map-update x rows l.runs)

  exists-select :
      (p q : Run → Bool) (xs : List Run) → exists q xs ≡ false → exists q (select p xs) ≡ false
  exists-select p q [] h = refl
  exists-select p q (x ∷ xs) h = ground (arith, exists-select p q xs)

  -- A row is left alone by rows of other runs.
  touch_self :
      (rows : List Run) (r : Run) → exists (is_run r.run_id) rows ≡ false → touch rows r ≡ r
  touch_self [] r h = refl
  touch_self (x ∷ xs) r h =
      ground (arith, eq_iff x.run_id r.run_id, eq_iff r.run_id x.run_id, touch_self xs r)

  touch-cons :
      (x : Run) (rows xs : List Run)
      → exists (is_run x.run_id) xs ≡ false
      → map (touch (x ∷ rows)) xs ≡ map (touch rows) xs
  touch-cons x rows [] h = refl
  touch-cons x rows (r ∷ rs) h = ground (arith, touch-cons x rows rs)

  touch-settle : (xs : List Run) → IsKeyed xs → map (touch (select is_active xs)) xs ≡ map settle xs
  touch-settle [] k = refl
  touch-settle (x ∷ xs) k =
      let rows = select is_active xs in
      let free = exists-select is_active (is_run x.run_id) xs k.0 in
      ground (
        arith,
        str_eq_refl x.run_id,
        touch_self rows x free,
        touch_self rows (close x) free,
        touch-cons x rows xs k.0,
        touch-settle xs k.1,
      )

  note_expired-runs :
      (rs : List Lease) (l : Ledger)
      → ((note_expired c isoformat w rs l).runs ≡ l.runs)
        × ((note_expired c isoformat w rs l).leases ≡ l.leases)
  unfolding note_expired
  note_expired-runs [] l = (refl, refl)
  note_expired-runs (r ∷ rs) l = note_expired-runs rs _

  recover_runs-leases :
      (rows : List Run) (l : Ledger) → (recover_runs c isoformat w rows l).leases ≡ l.leases
  unfolding recover_runs abandon note_hung
  recover_runs-leases [] l = refl
  recover_runs-leases (x ∷ rows) l = recover_runs-leases rows _ ∙ ground arith

  pub go_on-give :
      {A B : Type 0} (r : Result A) (b : B) (l : Ledger) → (go_on r (λ _. give b) l).1 ≡ l
  go_on-give (ok a) b l = refl
  go_on-give (err e) b l = refl

  last_steps :
      (rows : List Run) (found : Recovery) (l : Ledger)
      → (((checkpoint_if_any c isoformat w rows >>= λ _. give found) l).1.runs ≡ l.runs)
        × (((checkpoint_if_any c isoformat w rows >>= λ _. give found) l).1.leases ≡ l.leases)
  unfolding ◌>>=◌
  last_steps [] found l = (refl, refl)
  last_steps (r ∷ rs) found l =
      let kept = checkpoint_recovery_worktree_keeps w.ended_at w.head w.worktree l in
      let same =
        go_on-give (checkpoint_recovery_worktree w.ended_at w.head w.worktree l).0 found
          (checkpoint_recovery_worktree w.ended_at w.head w.worktree l).1 in
      (ap (λ (l : Ledger). l.runs) same ∙ kept.0, ap (λ (l : Ledger). l.leases) same ∙ kept.1)

  abbrev pub is_over : Lease → Bool
  is_over r = leb r.expires_epoch w.reaped_at

  clean_up-settle :
      (l : Ledger)
      → IsKeyed l.runs
      → ((clean_up c isoformat w l).1.runs ≡ map settle l.runs)
        × (exists is_over (clean_up c isoformat w l).1.leases ≡ false)
  unfolding clean_up reap reap_expired_leases ◌>>=◌
  clean_up-settle l k =
      let expired = select is_over l.leases in
      let reaped =
        note_expired c isoformat w expired (record l { leases = delete is_over l.leases }) in
      let rows = select is_active reaped.runs in
      let noted = note_expired-runs expired (record l { leases = delete is_over l.leases }) in
      let found : Recovery = record {
        expired_leases = length expired;
        recovered_runs = ids c isoformat w (silent_runs c isoformat w rows);
        hung_runs = ids c isoformat w (select w.alive (silent_runs c isoformat w rows));
      } in
      let ended =
        last_steps (silent_runs c isoformat w rows) found
          (recover_runs c isoformat w rows reaped) in
      (
        ended.0
            ∙ (recover_runs-runs rows reaped
                ∙ (ap (λ (rs : List Run). map (touch (select is_active rs)) rs) noted.0
                    ∙ touch-settle l.runs k)),
        ap (exists is_over) (ended.1 ∙ (recover_runs-leases rows reaped ∙ noted.1))
            ∙ exists-delete is_over l.leases,
      )

  go_on-returned :
      {A B : Type 0} (r : Result A) (m : Effect Ledger B) (b : B) (l : Ledger)
      → (go_on r (λ _. m) l).0 ≡ ok b
      → go_on r (λ _. m) l ≡ m l
  go_on-returned (ok a) m b l h = refl
  go_on-returned (err e) m b l h = cc

  -- If no two rows are of one run and a recovery returns, then exactly the active runs whose heartbeat was
  -- too old have been finished as abandoned, every other run is as it was, and no lease is left that had
  -- expired when the leases were reaped.
  pub recover-settle :
      (l : Ledger) (found : Recovery)
      → IsKeyed l.runs
      → (recover c isoformat w l).0 ≡ ok found
      → ((recover c isoformat w l).1.runs ≡ map settle l.runs)
        × (exists is_over (recover c isoformat w l).1.leases ≡ false)
  unfolding recover ◌>>=◌
  recover-settle l found k h =
      let same = go_on-returned w.integrity (clean_up c isoformat w) found l h in
      let made = clean_up-settle l k in
      (
        ap (λ (p : Result Recovery × Ledger). p.1.runs) same ∙ made.0,
        ap (λ (p : Result Recovery × Ledger). exists is_over p.1.leases) same ∙ made.1,
      )
