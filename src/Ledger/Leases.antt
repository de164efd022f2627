-- ===== src/Ledger/Leases.antt =====
-- The `leases` table of src/qas/db.py: acquire, renew, release and reap. Each method is one SQLite
-- transaction, so a step of another process falls before or after it. Epochs are in microseconds.
pub mod Laws
pub mod Exclusion
pub mod Refinement
use qwen_autonomous_supervis.Prelude.{
  ℕ, ◌+◌, ◌*◌, String, str_eq, Bool, true, false, Option, List, [], ◌∷◌, ◌&&◌, ltb, leb, ◌==◌,
  if◌then◌else◌, select, delete, update, count, exists,
}
use qwen_autonomous_supervis.Prelude.Int.{ℤ}

pub record Lease : Type 0 where
  pub resource : String
  pub owner : String
  pub issue_number : Option ℤ
  pub acquired_at : ℕ
  pub heartbeat_at : ℕ
  pub expires_epoch : ℕ

-- A number of seconds, in microseconds.
abbrev pub seconds : ℕ → ℕ
seconds n = n * 1000000

-- `resource=? AND expires_epoch<=?`
abbrev pub is_expired : String → ℕ → Lease → Bool
is_expired resource now r = str_eq r.resource resource && leb r.expires_epoch now

-- `resource=?`
abbrev pub is_for : String → Lease → Bool
is_for resource r = str_eq r.resource resource

-- `resource=? AND owner=?`
abbrev pub is_held_by : String → String → Lease → Bool
is_held_by resource owner r = str_eq r.resource resource && str_eq r.owner owner

-- `resource=? AND owner=? AND expires_epoch>?`
abbrev pub is_live : String → String → ℕ → Lease → Bool
is_live resource owner now r = is_held_by resource owner r && ltb now r.expires_epoch

-- `acquired_at` is the moment as `utc_now` spells it, `now_epoch` the caller's clock. A second row
-- for the resource breaks the primary key: the transaction is rolled back.
unfoldable pub acquire_lease :
    String → String → ℕ → ℕ → ℕ → Option ℤ → List Lease → Bool × List Lease
acquire_lease resource owner at now_epoch ttl_seconds issue_number leases =
    let kept = delete (is_expired resource now_epoch) leases in
    if exists (is_for resource) kept then (false, leases) else (
      true,
      (record {
        resource = resource;
        owner = owner;
        issue_number = issue_number;
        acquired_at = at;
        heartbeat_at = at;
        expires_epoch = now_epoch + seconds ttl_seconds;
      })
          ∷ kept,
    )

abbrev pub extend : ℕ → ℕ → Lease → Lease
extend at expires r = record r { heartbeat_at = at; expires_epoch = expires }

unfoldable pub renew_lease : String → String → ℕ → ℕ → ℕ → List Lease → Bool × List Lease
renew_lease resource owner at now_epoch ttl_seconds leases = (
  count (is_live resource owner now_epoch) leases == 1,
  update (is_live resource owner now_epoch) (extend at (now_epoch + seconds ttl_seconds)) leases,
)

unfoldable pub release_lease : String → String → List Lease → Bool × List Lease
release_lease resource owner leases =
    (count (is_held_by resource owner) leases == 1, delete (is_held_by resource owner) leases)

-- The expired rows, and the table without them.
unfoldable pub reap_expired_leases : ℕ → List Lease → List Lease × List Lease
reap_expired_leases now_epoch leases = (
  select (λ (r : Lease). leb r.expires_epoch now_epoch) leases,
  delete (λ (r : Lease). leb r.expires_epoch now_epoch) leases,
)
