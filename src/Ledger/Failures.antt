-- ===== src/Ledger/Failures.antt =====
-- The `failures` table of src/qas/db.py: counting identical failures, and quarantine.
pub mod Laws
use qwen_autonomous_supervis.Prelude.{
  ℕ, suc, ◌+◌, String, str_eq, Bool, true, false, Option, none, some, List, [], ◌∷◌, ◌&&◌, ◌||◌,
  leb, ◌==◌, if◌then◌else◌, exists, update, find, select, count, descending,
}
use qwen_autonomous_supervis.Prelude.Int.{ℤ}
use qwen_autonomous_supervis.Prelude.Text.{last_chars}
use qwen_autonomous_supervis.Errors.{Result, ok, err, value_error}

pub record Failure : Type 0 where
  pub fingerprint : String
  pub operation : String
  pub count : ℕ
  pub first_seen : ℕ
  pub last_seen : ℕ
  pub quarantined : Bool
  pub evidence : String
  pub scope : String
  pub issue_number : Option ℤ

abbrev pub is_failure : String → Failure → Bool
is_failure fp f = str_eq f.fingerprint fp

abbrev pub count_of : Option Failure → ℕ
count_of none = 0
count_of (some f) = f.count

-- The failures counted of a fingerprint, 0 if it has no row.
abbrev pub failure_count : String → List Failure → ℕ
failure_count fp failures = count_of (find (is_failure fp) failures)

-- The columns that the conflict clause sets: an old row keeps its operation and first moment.
abbrev pub refresh : Failure → Failure → Failure
refresh new f = record f {
  count = new.count;
  last_seen = new.last_seen;
  quarantined = new.quarantined;
  evidence = new.evidence;
  scope = new.scope;
  issue_number = new.issue_number;
}

-- `INSERT … ON CONFLICT(fingerprint) DO UPDATE`
abbrev pub upsert : Failure → List Failure → List Failure
upsert new failures =
    if exists (is_failure new.fingerprint) failures
    then update (is_failure new.fingerprint) (refresh new) failures
    else new ∷ failures

abbrev is_scope : String → Bool
is_scope scope = str_eq scope "host" || str_eq scope "work"

-- The new count and whether it is quarantined, with the table.
unfoldable pub record_failure :
    ℕ
    → String
    → String
    → String
    → ℕ
    → String
    → Option ℤ
    → List Failure
    → Result ((ℕ × Bool) × List Failure)
record_failure at fp operation evidence threshold scope issue_number failures =
    let n = failure_count fp failures + 1 in
    if is_scope scope
    then ok (
      (n, leb threshold n),
      upsert
          (record {
            fingerprint = fp;
            operation = operation;
            count = n;
            first_seen = at;
            last_seen = at;
            quarantined = leb threshold n;
            evidence = last_chars 4000 evidence;
            scope = scope;
            issue_number = issue_number;
          })
          failures,
    )
    else err (value_error "failure scope must be host or work")

-- `fingerprint=? AND quarantined=1`
abbrev pub is_held : String → Failure → Bool
is_held fp f = is_failure fp f && f.quarantined

unfoldable pub unquarantine : ℕ → String → List Failure → Bool × List Failure
unquarantine at fp failures = (
  count (is_held fp) failures == 1,
  update (is_held fp) (λ f. record f { quarantined = false; count = 0; last_seen = at }) failures,
)

-- `failures(quarantined_only=True, scope=scope)`
unfoldable pub quarantined_in : String → List Failure → List Failure
quarantined_in scope failures =
    descending (λ (f : Failure). f.last_seen)
      (select (λ (f : Failure). f.quarantined && str_eq f.scope scope) failures)
