-- ===== src/Ledger/Failures/Laws.antt =====
-- Counting failures, and when a fingerprint is quarantined.
use qwen_autonomous_supervis.Prelude.{
  ℕ, ◌+◌, String, str_eq, eq_iff, ◌≡◌, refl, Bool, false, Option, none, some, List, [], ◌∷◌, arith,
  ◌&&◌, leb, ltb, if◌then◌else◌, exists, update, find, count,
}
use qwen_autonomous_supervis.Prelude.Int.{ℤ}
use qwen_autonomous_supervis.Prelude.Text.{last_chars}
use qwen_autonomous_supervis.Errors.{returned_of_bind, Result, ok, ◌>>=◌}
use qwen_autonomous_supervis.Ledger.Failures.{
  Failure, is_failure, count_of, failure_count, refresh, upsert, record_failure, unquarantine,
}

-- Whether the fingerprint's row is quarantined.
abbrev quarantine_of : Option Failure → Bool
quarantine_of none = false
quarantine_of (some f) = f.quarantined

abbrev pub is_quarantined : String → List Failure → Bool
is_quarantined fp fs = quarantine_of (find (is_failure fp) fs)

-- What a client reads of a fingerprint's row after an upsert, by any column `view` that the upsert sets.
module _ {A : Type 0} (view : Option Failure → A) (new : Failure)
    (set_by : (f : Failure) → view (some (refresh new f)) ≡ view (some new)) where
  view-refresh :
      (g : String) (fs : List Failure)
      → view (find (is_failure g) (update (is_failure new.fingerprint) (refresh new) fs)) ≡ (
          if str_eq new.fingerprint g && exists (is_failure new.fingerprint) fs
          then view (some new)
          else view (find (is_failure g) fs))
  view-refresh g [] = ground arith
  view-refresh g (f ∷ fs) = ground (
    arith,
    eq_iff new.fingerprint g,
    eq_iff f.fingerprint g,
    eq_iff f.fingerprint new.fingerprint,
    set_by f,
    view-refresh g fs,
  )

  view-upsert :
      (g : String) (fs : List Failure)
      → view (find (is_failure g) (upsert new fs))
        ≡ (if str_eq new.fingerprint g then view (some new) else view (find (is_failure g) fs))
  view-upsert g fs = ground (arith, view-refresh g fs, eq_iff new.fingerprint g)

-- One failure of a fingerprint raises its count by one, and it is quarantined exactly when the count
-- has reached the threshold; the other fingerprints keep their counts and their quarantine.
pub record_failure_lem :
    (at : ℕ) (fp operation evidence : String) (threshold : ℕ) (scope : String) (i : Option ℤ)
    (fs : List Failure) (n : ℕ) (held : Bool) (fs' : List Failure)
    → record_failure at fp operation evidence threshold scope i fs ≡ ok ((n, held), fs')
    → (n ≡ failure_count fp fs + 1)
      × (held ≡ leb threshold n)
      × ((g : String)
          → (failure_count g fs' ≡ (if str_eq fp g then n else failure_count g fs))
            × (is_quarantined g fs' ≡ (if str_eq fp g then held else is_quarantined g fs)))
unfolding record_failure
record_failure_lem at fp operation evidence threshold scope i fs n held fs' h = (
  ground arith,
  ground arith,
  λ g. (
    ground (arith, view-upsert count_of row (λ f. refl) g fs),
    ground (arith, view-upsert quarantine_of row (λ f. refl) g fs),
  ),
)
  where
    row : Failure
    row = record {
      fingerprint = fp;
      operation = operation;
      count = failure_count fp fs + 1;
      first_seen = at;
      last_seen = at;
      quarantined = leb threshold (failure_count fp fs + 1);
      evidence = last_chars 4000 evidence;
      scope = scope;
      issue_number = i;
    }

-- A failure as the runtime reports it.
pub record Report : Type 0 where
  pub at : ℕ
  pub fingerprint : String
  pub operation : String
  pub evidence : String
  pub scope : String
  pub issue_number : Option ℤ

-- Reports recorded one after the other, under one threshold.
unfoldable pub record_all : ℕ → List Report → List Failure → Result (List Failure)
record_all threshold [] fs = ok fs
record_all threshold (r ∷ rs) fs = do
  done ←
      record_failure r.at r.fingerprint r.operation r.evidence threshold r.scope r.issue_number fs
  record_all threshold rs done.1

-- How often the fingerprint is reported.
abbrev pub reports_of : String → List Report → ℕ
reports_of g rs = count (λ (r : Report). str_eq r.fingerprint g) rs

-- After any reports that are all accepted, of any fingerprints and in any order, the count of a
-- fingerprint has grown by its reports, and if there was one, the fingerprint is quarantined exactly
-- when the count has reached the threshold.
pub record_all_lem :
    (threshold : ℕ) (rs : List Report) (g : String) (fs fs' : List Failure)
    → record_all threshold rs fs ≡ ok fs'
    → (failure_count g fs' ≡ failure_count g fs + reports_of g rs)
      × (is_quarantined g fs' ≡ (
          if ltb 0 (reports_of g rs)
          then leb threshold (failure_count g fs')
          else is_quarantined g fs))
unfolding record_all
record_all_lem threshold [] g fs fs' h = ground arith
record_all_lem threshold (r ∷ rs) g fs fs' h =
    let first =
      returned_of_bind
        (record_failure r.at r.fingerprint r.operation r.evidence threshold r.scope r.issue_number
          fs)
        (λ done. record_all threshold rs done.1) h in
    let step =
      record_failure_lem r.at r.fingerprint r.operation r.evidence threshold r.scope r.issue_number
        fs first.0.0.0 first.0.0.1 first.0.1 first.1 in
    let one = step.2 g in
    let rest = record_all_lem threshold rs g first.0.1 fs' first.2 in
    ground (arith, step.0, step.1, one.0, one.1, rest.0, rest.1, eq_iff r.fingerprint g)

-- Lifting a quarantine leaves the fingerprint unquarantined, and with no count if it was
-- quarantined; one that was not keeps its count, and the others keep count and quarantine.
pub unquarantine_lem :
    (at : ℕ) (fp g : String) (fs : List Failure)
    → (is_quarantined g (unquarantine at fp fs).1
        ≡ (if str_eq fp g then false else is_quarantined g fs))
      × (failure_count g (unquarantine at fp fs).1
          ≡ (if str_eq fp g && is_quarantined g fs then 0 else failure_count g fs))
unfolding unquarantine
unquarantine_lem at fp g [] = ground arith
unquarantine_lem at fp g (f ∷ fs) =
    let tail = unquarantine_lem at fp g fs in
    (
      ground (arith, eq_iff fp g, eq_iff f.fingerprint fp, eq_iff f.fingerprint g, tail.0),
      ground (arith, eq_iff fp g, eq_iff f.fingerprint fp, eq_iff f.fingerprint g, tail.1),
    )
