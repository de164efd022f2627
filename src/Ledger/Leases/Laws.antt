-- ===== src/Ledger/Leases/Laws.antt =====
-- The primary key of the `leases` table, and the lease that a resource has.
use qwen_autonomous_supervis.Prelude.{
  ℕ, String, str_eq, eq_iff, ◌≡◌, refl, Bool, true, false, Option, List, [], ◌∷◌, arith, leb,
  delete, update, exists,
}
use qwen_autonomous_supervis.Prelude.Int.{ℤ}
use qwen_autonomous_supervis.Ledger.Leases.{
  Lease, is_for, is_held_by, is_live, is_expired, extend, acquire_lease, renew_lease, release_lease,
  reap_expired_leases,
}

-- No two leases are for one resource.
abbrev pub IsKeyed : List Lease → Type 0
IsKeyed [] = Unit
IsKeyed (r ∷ rs) = (exists (is_for r.resource) rs ≡ false) × IsKeyed rs

-- `is_for` answers alike for equal names.
is_for_trans : (a b : String) (r : Lease) → str_eq a b ≡ true → is_for a r ≡ is_for b r
is_for_trans a b r h = ground (arith, eq_iff a b)

exists-delete-false :
    (p q : Lease → Bool) (xs : List Lease) → exists p xs ≡ false → exists p (delete q xs) ≡ false
exists-delete-false p q [] h = refl
exists-delete-false p q (x ∷ xs) h = ground (arith, exists-delete-false p q xs)

-- DELETE keeps the key.
delete-IsKeyed : (q : Lease → Bool) (xs : List Lease) → IsKeyed xs → IsKeyed (delete q xs)
delete-IsKeyed q [] h = tt
delete-IsKeyed q (x ∷ xs) h =
    ground (arith, delete-IsKeyed q xs h.1, exists-delete-false (is_for x.resource) q xs h.0)

exists-update :
    (k : String) (q : Lease → Bool) (at e : ℕ) (xs : List Lease)
    → exists (is_for k) (update q (extend at e) xs) ≡ exists (is_for k) xs
exists-update k q at e [] = refl
exists-update k q at e (x ∷ xs) = ground (arith, exists-update k q at e xs)

update-IsKeyed :
    (q : Lease → Bool) (at e : ℕ) (xs : List Lease)
    → IsKeyed xs
    → IsKeyed (update q (extend at e) xs)
update-IsKeyed q at e [] h = tt
update-IsKeyed q at e (x ∷ xs) h =
    ground (arith, update-IsKeyed q at e xs h.1, exists-update x.resource q at e xs)

-- An acquisition keeps the primary key: if no two leases are for one resource, no two are afterwards.
pub acquire_lease-IsKeyed :
    (k o : String) (at now ttl : ℕ) (i : Option ℤ) (xs : List Lease)
    → IsKeyed xs
    → IsKeyed (acquire_lease k o at now ttl i xs).1
unfolding acquire_lease
acquire_lease-IsKeyed k o at now ttl i xs h = ground (arith, delete-IsKeyed (is_expired k now) xs h)

pub renew_lease-IsKeyed :
    (k o : String) (at now ttl : ℕ) (xs : List Lease)
    → IsKeyed xs
    → IsKeyed (renew_lease k o at now ttl xs).1
unfolding renew_lease
renew_lease-IsKeyed k o at now ttl xs h = update-IsKeyed (is_live k o now) at _ xs h

pub release_lease-IsKeyed :
    (k o : String) (xs : List Lease) → IsKeyed xs → IsKeyed (release_lease k o xs).1
unfolding release_lease
release_lease-IsKeyed k o xs h = delete-IsKeyed (is_held_by k o) xs h

pub reap_expired_leases-IsKeyed :
    (now : ℕ) (xs : List Lease) → IsKeyed xs → IsKeyed (reap_expired_leases now xs).1
unfolding reap_expired_leases
reap_expired_leases-IsKeyed now xs h = delete-IsKeyed (λ r. leb r.expires_epoch now) xs h
