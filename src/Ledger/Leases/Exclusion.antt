-- ===== src/Ledger/Leases/Exclusion.antt =====
-- Mutual exclusion by leases: what other processes can do to a lease before it expires.
use qwen_autonomous_supervis.Prelude.{
  ℕ, ◌+◌, ◌<◌, String, eq_iff, str_eq_refl, ◌≡◌, refl, Bool, true, false, not, Option, some, List,
  [], ◌∷◌, arith, ◌&&◌, ltb, leb, if◌then◌else◌, delete, update, exists, find, All, Bool-cases, inl,
  inr,
}
use qwen_autonomous_supervis.Prelude.Int.{ℤ}
use qwen_autonomous_supervis.Ledger.Leases.{
  Lease, seconds, is_for, is_held_by, is_live, is_expired, extend, acquire_lease, renew_lease,
  release_lease, reap_expired_leases,
}

-- A call of one of the four methods, by any process.
pub data Call : Type 0 where
  acquire : String → String → ℕ → Option ℤ → Call
  renew : String → String → ℕ → Call
  release : String → String → Call
  reap : Call

-- The table after a call at a moment, which both clocks read.
unfoldable pub perform : ℕ → Call → List Lease → List Lease
unfolding acquire_lease renew_lease release_lease reap_expired_leases
perform now (acquire k o ttl i) xs = (acquire_lease k o now now ttl i xs).1
perform now (renew k o ttl) xs = (renew_lease k o now now ttl xs).1
perform now (release k o) xs = (release_lease k o xs).1
perform now reap xs = (reap_expired_leases now xs).1

-- Calls of any processes, one after the other, each with its moment.
unfoldable pub perform_all : List (ℕ × Call) → List Lease → List Lease
perform_all [] xs = xs
perform_all ((now, c) ∷ cs) xs = perform_all cs (perform now c xs)

-- The calls that act on a lease for its holder: renewing and releasing it.
abbrev pub acts_for : Lease → Call → Bool
acts_for r (renew k o ttl) = is_held_by k o r
acts_for r (release k o) = is_held_by k o r
acts_for r (acquire k o ttl i) = false
acts_for r reap = false

-- A call that is not the holder's, before the lease expires.
abbrev pub IsForeign : Lease → ℕ × Call → Type 0
IsForeign r (now, c) = (now < r.expires_epoch) × (acts_for r c ≡ false)

find-delete :
    (k : String) (q : Lease → Bool) (r : Lease) (xs : List Lease)
    → q r ≡ false
    → find (is_for k) xs ≡ some r
    → find (is_for k) (delete q xs) ≡ some r
find-delete k q r [] n h = cc
find-delete k q r (x ∷ xs) n h = ground (arith, find-delete k q r xs n)

find-update :
    (k : String) (q : Lease → Bool) (at e : ℕ) (r : Lease) (xs : List Lease)
    → q r ≡ false
    → find (is_for k) xs ≡ some r
    → find (is_for k) (update q (extend at e) xs) ≡ some r
find-update k q at e r [] n h = cc
find-update k q at e r (x ∷ xs) n h = ground (arith, find-update k q at e r xs n)

exists_of_find :
    (k : String) (xs : List Lease) (r : Lease)
    → find (is_for k) xs ≡ some r
    → exists (is_for k) xs ≡ true
exists_of_find k [] r h = cc
exists_of_find k (x ∷ xs) r h = ground (arith, exists_of_find k xs r)

-- One foreign call leaves the lease where it is.
perform-find :
    (now : ℕ) (c : Call) (r : Lease) (xs : List Lease)
    → IsForeign r (now, c)
    → find (is_for r.resource) xs ≡ some r
    → find (is_for r.resource) (perform now c xs) ≡ some r
unfolding perform
perform-find now (acquire k o ttl i) r xs f h = ground (
  arith,
  eq_iff k r.resource,
  eq_iff r.resource k,
  find-delete r.resource (is_expired k now) r xs,
  exists_of_find r.resource (delete (is_expired k now) xs) r,
)
perform-find now (renew k o ttl) r xs f h =
    find-update r.resource (is_live k o now) now (now + seconds ttl) r xs (ground arith) h
perform-find now (release k o) r xs f h = find-delete r.resource (is_held_by k o) r xs f.1 h
perform-find now reap r xs f h =
    find-delete r.resource (λ x. leb x.expires_epoch now) r xs (ground arith) h

-- Whatever other processes call before the lease of a resource expires, and in whatever order, the
-- resource still has that very lease, with its owner and its deadline.
pub perform_all-find :
    (cs : List (ℕ × Call)) (r : Lease) (xs : List Lease)
    → All (IsForeign r) cs
    → find (is_for r.resource) xs ≡ some r
    → find (is_for r.resource) (perform_all cs xs) ≡ some r
unfolding perform_all
perform_all-find [] r xs f h = h
perform_all-find ((now, c) ∷ cs) r xs f h =
    perform_all-find cs r (perform now c xs) f.1 (perform-find now c r xs f.0 h)

-- Whether the resource has a lease that has not expired.
abbrev pub is_busy : String → ℕ → Lease → Bool
is_busy k now r = is_for k r && ltb now r.expires_epoch

pub exists-delete-is_expired :
    (k : String) (now : ℕ) (xs : List Lease)
    → exists (is_for k) (delete (is_expired k now) xs) ≡ exists (is_busy k now) xs
exists-delete-is_expired k now [] = refl
exists-delete-is_expired k now (x ∷ xs) = ground (arith, exists-delete-is_expired k now xs)

-- An acquisition succeeds exactly when the resource has no unexpired lease. If it succeeds, the
-- resource has a lease of the caller that expires `ttl` seconds from the caller's clock, and if it
-- fails, the table is as before.
pub acquire_lease_lem :
    (k o : String) (at now ttl : ℕ) (i : Option ℤ) (xs : List Lease)
    → ((acquire_lease k o at now ttl i xs).0 ≡ not (exists (is_busy k now) xs))
      × (if (acquire_lease k o at now ttl i xs).0
          then find (is_for k) (acquire_lease k o at now ttl i xs).1
            ≡ some (record {
              resource = k;
              owner = o;
              issue_number = i;
              acquired_at = at;
              heartbeat_at = at;
              expires_epoch = now + seconds ttl;
            })
          else (acquire_lease k o at now ttl i xs).1 ≡ xs)
unfolding acquire_lease
acquire_lease_lem k o at now ttl i xs =
    elim (Bool-cases (exists (is_for k) (delete (is_expired k now) xs))) [
      | inl e ↦ rw e (rw (← exists-delete-is_expired k now xs) (rw e refl), refl)
      | inr e ↦ rw e (rw (← exists-delete-is_expired k now xs) (rw e refl), rw (str_eq_refl k) refl)
    ]
