-- ===== src/Ledger/Leases/Refinement.antt =====
-- The `leases` table as what each resource's slot holds, without the order of the rows.
use mathlib.Core.Path.{subst}
use qwen_autonomous_supervis.Prelude.{
  ℕ, ◌+◌, String, str_eq, eq_iff, ◌≡◌, refl, sym, ◌∙◌, ap, Bool, true, false, Option, none, some,
  List, [], ◌∷◌, arith, leb, if◌then◌else◌, delete, update, exists, find, exists-find, is_some,
  Bool-cases, inl, inr,
}
use qwen_autonomous_supervis.Prelude.Int.{ℤ}
use qwen_autonomous_supervis.Ledger.Leases.{
  Lease, seconds, is_for, is_held_by, is_live, is_expired, extend, acquire_lease,
}
use qwen_autonomous_supervis.Ledger.Leases.Laws.{
  IsKeyed, acquire_lease-IsKeyed, renew_lease-IsKeyed, release_lease-IsKeyed,
  reap_expired_leases-IsKeyed,
}
use qwen_autonomous_supervis.Ledger.Leases.Exclusion.{
  Call, acquire, renew, release, reap, perform, perform_all,
}

-- A slot whose lease is removed if a test holds.
abbrev drop_if : (Lease → Bool) → Option Lease → Option Lease
drop_if p none = none
drop_if p (some r) = if p r then none else some r

abbrev change_if : (Lease → Bool) → (Lease → Lease) → Option Lease → Option Lease
change_if p f none = none
change_if p f (some r) = some (if p r then f r else r)

-- A slot that is free is filled.
abbrev fill : Lease → Option Lease → Option Lease
fill new none = some new
fill new (some r) = some r

-- What a call at a moment makes of the slot of a resource.
abbrev pub next : ℕ → Call → String → Option Lease → Option Lease
next now (acquire q o ttl i) k slot =
    if str_eq q k
    then fill
        (record {
          resource = q;
          owner = o;
          issue_number = i;
          acquired_at = now;
          heartbeat_at = now;
          expires_epoch = now + seconds ttl;
        })
        (drop_if (is_expired q now) slot)
    else slot
next now (renew q o ttl) k slot = change_if (is_live q o now) (extend now (now + seconds ttl)) slot
next now (release q o) k slot = drop_if (is_held_by q o) slot
next now reap k slot = drop_if (λ r. leb r.expires_epoch now) slot

-- The slot after calls one after the other.
abbrev pub run : List (ℕ × Call) → String → Option Lease → Option Lease
run [] k slot = slot
run ((now, c) ∷ cs) k slot = run cs k (next now c k slot)

-- The slot of a resource.
abbrev pub slot_of : String → List Lease → Option Lease
slot_of k xs = find (is_for k) xs

find-delete-none :
    (p q : Lease → Bool) (xs : List Lease) → exists p xs ≡ false → find p (delete q xs) ≡ none
find-delete-none p q [] h = refl
find-delete-none p q (x ∷ xs) h = ground (arith, find-delete-none p q xs)

keyed_rest :
    (k : String) (x : Lease) (xs : List Lease)
    → exists (is_for x.resource) xs ≡ false
    → is_for k x ≡ true
    → exists (is_for k) xs ≡ false
keyed_rest k x xs h e =
    subst (λ name. exists (is_for name) xs ≡ false) ((eq_iff x.resource k).0 e) h

slot_of-delete :
    (k : String) (q : Lease → Bool) (xs : List Lease)
    → IsKeyed xs
    → slot_of k (delete q xs) ≡ drop_if q (slot_of k xs)
slot_of-delete k q [] h = refl
slot_of-delete k q (x ∷ xs) h =
    ground
      (arith, slot_of-delete k q xs h.1, keyed_rest k x xs h.0, find-delete-none (is_for k) q xs)

slot_of-update :
    (k : String) (q : Lease → Bool) (at e : ℕ) (xs : List Lease)
    → slot_of k (update q (extend at e) xs) ≡ change_if q (extend at e) (slot_of k xs)
slot_of-update k q at e [] = refl
slot_of-update k q at e (x ∷ xs) = ground (arith, slot_of-update k q at e xs)

-- The lease of another resource has not expired for this one.
drop_if-other :
    (q k : String) (now : ℕ) (xs : List Lease)
    → str_eq q k ≡ false
    → drop_if (is_expired q now) (slot_of k xs) ≡ slot_of k xs
drop_if-other q k now [] h = refl
drop_if-other q k now (x ∷ xs) h =
    ground (arith, drop_if-other q k now xs h, eq_iff x.resource k, eq_iff x.resource q, eq_iff q k)

fill_some : (new : Lease) (slot : Option Lease) → is_some slot ≡ true → fill new slot ≡ slot
fill_some new none h = cc
fill_some new (some r) h = refl

fill_none : (new : Lease) (slot : Option Lease) → is_some slot ≡ false → fill new slot ≡ some new
fill_none new none h = refl
fill_none new (some r) h = cc

drop_if_some :
    (p : Lease → Bool) (slot : Option Lease)
    → is_some (drop_if p slot) ≡ true
    → drop_if p slot ≡ slot
drop_if_some p none h = refl
drop_if_some p (some r) h = ground arith

-- A row that is put before the others.
insert_slot :
    (k : String) (new : Lease) (kept : List Lease)
    → slot_of k (new ∷ kept) ≡ (if str_eq new.resource k then some new else slot_of k kept)
insert_slot k new kept = refl

module _ (q o : String) (now ttl : ℕ) (k : String) (xs : List Lease) (keyed : IsKeyed xs) where
  abbrev kept : List Lease
  kept = delete (is_expired q now) xs

  -- Whether the caller's resource is still taken, from its slot.
  taken : exists (is_for q) kept ≡ is_some (drop_if (is_expired q now) (slot_of q xs))
  taken = exists-find (is_for q) kept ∙ ap is_some (slot_of-delete q (is_expired q now) xs keyed)

  same_name : str_eq q k ≡ true → q ≡ k
  same_name e = (eq_iff q k).0 e

  held_still :
      (new : Lease)
      → exists (is_for q) kept ≡ true
      → str_eq q k ≡ true
      → slot_of k xs ≡ fill new (drop_if (is_expired q now) (slot_of k xs))
  held_still new e y =
      let there = sym taken ∙ e in
      subst (λ name. slot_of name xs ≡ fill new (drop_if (is_expired q now) (slot_of name xs)))
        (same_name y)
        (sym (fill_some new _ there ∙ drop_if_some (is_expired q now) (slot_of q xs) there))

  held_newly :
      (new : Lease)
      → exists (is_for q) kept ≡ false
      → str_eq q k ≡ true
      → some new ≡ fill new (drop_if (is_expired q now) (slot_of k xs))
  held_newly new e y =
      subst (λ name. some new ≡ fill new (drop_if (is_expired q now) (slot_of name xs)))
        (same_name y) (sym (fill_none new _ (sym taken ∙ e)))

  slot_of-acquire_lease :
      (i : Option ℤ)
      → slot_of k (acquire_lease q o now now ttl i xs).1
        ≡ next now (acquire q o ttl i) k (slot_of k xs)
  unfolding acquire_lease
  slot_of-acquire_lease i = elim (Bool-cases (str_eq q k)) [
    | inl y ↦ elim (Bool-cases (exists (is_for q) kept)) [
      | inl e ↦ rw (e, y) (held_still _ e y)
      | inr e ↦ rw (e, y) (held_newly _ e y)
    ]
    | inr n ↦ elim (Bool-cases (exists (is_for q) kept)) [
      | inl e ↦ rw (e, n) refl
      | inr e ↦
          rw (e, n) (slot_of-delete k (is_expired q now) xs keyed ∙ drop_if-other q k now xs n)
    ]
  ]

-- After a call each resource's slot is what the call makes of that slot, if no two leases are for one
-- resource.
slot_of-perform :
    (now : ℕ) (c : Call) (k : String) (xs : List Lease)
    → IsKeyed xs
    → slot_of k (perform now c xs) ≡ next now c k (slot_of k xs)
unfolding perform
slot_of-perform now (acquire q o ttl i) k xs h = slot_of-acquire_lease q o now ttl k xs h i
slot_of-perform now (renew q o ttl) k xs h =
    slot_of-update k (is_live q o now) now (now + seconds ttl) xs
slot_of-perform now (release q o) k xs h = slot_of-delete k (is_held_by q o) xs h
slot_of-perform now reap k xs h = slot_of-delete k (λ r. leb r.expires_epoch now) xs h

perform-IsKeyed : (now : ℕ) (c : Call) (xs : List Lease) → IsKeyed xs → IsKeyed (perform now c xs)
unfolding perform
perform-IsKeyed now (acquire q o ttl i) xs h = acquire_lease-IsKeyed q o now now ttl i xs h
perform-IsKeyed now (renew q o ttl) xs h = renew_lease-IsKeyed q o now now ttl xs h
perform-IsKeyed now (release q o) xs h = release_lease-IsKeyed q o xs h
perform-IsKeyed now reap xs h = reap_expired_leases-IsKeyed now xs h

-- The table implements one slot for each resource: whatever the processes call and in whatever order,
-- what a resource's slot holds afterwards depends only on what it held before and on the calls, as `next`
-- says, and not on the other resources or on the order of the rows. No two leases of the table at the
-- start are for one resource.
pub slot_of-perform_all :
    (cs : List (ℕ × Call)) (k : String) (xs : List Lease)
    → IsKeyed xs
    → slot_of k (perform_all cs xs) ≡ run cs k (slot_of k xs)
unfolding perform_all
slot_of-perform_all [] k xs h = refl
slot_of-perform_all ((now, c) ∷ cs) k xs h =
    slot_of-perform_all cs k (perform now c xs) (perform-IsKeyed now c xs h)
    ∙ ap (run cs k) (slot_of-perform now c k xs h)
