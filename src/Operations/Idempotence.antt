-- ===== src/Operations/Idempotence.antt =====
-- However often an operation is ensured, the remote side sees its effect once.
use qwen_autonomous_supervis.Prelude.{
  ℕ, ◌+◌, ◌≤◌, String, str_eq_refl, ◌≡◌, refl, Bool, true, false, Option, none, some, List, [], ◌∷◌,
  arith, ltb, exists, find, update, exists-find, Bool-cases, inl, inr, sym, ◌∙◌,
}
use qwen_autonomous_supervis.Json.{Json}
use qwen_autonomous_supervis.Errors.{Exception, Result, ok, err}
use qwen_autonomous_supervis.Effects.{◌>>=◌}
use qwen_autonomous_supervis.Effects.Rules.{
  Post, Triple, Triple-bind, Triple-catch, Triple-give, Triple-throw, Post-either, Post-both,
  returned, raised,
}
use qwen_autonomous_supervis.Ledger.{Ledger}
use qwen_autonomous_supervis.Ledger.Operations.{
  Operation, is_operation, is_completed, insert_operation, complete_operation, begin_operation,
  operation,
}
use qwen_autonomous_supervis.Ledger.Events.{Event, Details}
use qwen_autonomous_supervis.Ledger.Operations as Table
use qwen_autonomous_supervis.Operations.{
  RemoteEvidence, OperationOutcome, Callbacks, World, outside, log, begin, complete, adopt, confirm,
  attempt, interrupted, pursue, resume, ensure,
}

abbrev completed_row : Option Operation → Bool
completed_row none = false
completed_row (some o) = is_completed o.status

-- Whether the ledger shows the operation as completed.
abbrev pub is_done : String → List Operation → Bool
is_done key ops = completed_row (find (is_operation key) ops)

is_done-insert_operation :
    (at : ℕ) (key kind : String) (request : Json) (ops : List Operation)
    → (is_done key (insert_operation at key kind request ops) ≡ is_done key ops)
      × (exists (is_operation key) (insert_operation at key kind request ops) ≡ true)
unfolding insert_operation
is_done-insert_operation at key kind request ops =
    ground (arith, exists-find (is_operation key) ops, str_eq_refl key)

is_done-complete :
    (at : ℕ) (key : String) (x : Option String) (v : Json) (ops : List Operation)
    → is_done key (update (is_operation key) (Table.complete at x v) ops)
      ≡ exists (is_operation key) ops
is_done-complete at key x v [] = refl
is_done-complete at key x v (o ∷ os) = ground (arith, is_done-complete at key x v os)

-- What the callbacks are trusted with, by the number of times that the operation's effect has happened:
-- a reconciliation says whether it has, a mutation makes it happen once more or not at all, also when it
-- raises, and nothing else makes it happen or undoes it.
pub record IsFaithful {W : Type 0} (effects : W → ℕ) (key : String) (c : Callbacks W) : Type 0 where
  pub sees : (w : W) (e : RemoteEvidence) → (c.reconcile w).0 ≡ ok e → e.exists ≡ ltb 0 (effects w)
  pub looks : (w : W) → effects (c.reconcile w).1 ≡ effects w
  pub grows : (w : W) → effects w ≤ effects (c.mutate key w).1
  pub once : (w : W) → effects (c.mutate key w).1 ≤ effects w + 1
  pub waits : (w : W) → effects (c.after_remote_effect w).1 ≡ effects w

-- The effect has happened once at most, and it has happened if the ledger says so.
pub record IsSafe {W : Type 0} (effects : W → ℕ) (key : String) (s : World W) : Type 0 where
  pub at_most_once : effects s.1 ≤ 1
  pub recorded : is_done key s.0.operations ≡ true → effects s.1 ≡ 1

module _ {W : Type 0} (effects : W → ℕ) (c : Callbacks W) (at : ℕ) (key kind : String)
    (request : Json) (trust : IsFaithful effects key c) where
  -- The effect has happened and the ledger says so.
  abbrev pub IsComplete : OperationOutcome → World W → Type 0
  IsComplete o s = (effects s.1 ≡ 1) × (is_done key s.0.operations ≡ true)

  abbrev pub Raised : Exception → World W → Type 0
  Raised e s = IsSafe effects key s

  -- The record is there, and the effect has happened.
  record HasRow (s : World W) : Type 0 where
    happened : effects s.1 ≡ 1
    row : exists (is_operation key) s.0.operations ≡ true

  begin-Triple : Triple (λ s. effects s.1 ≡ 1) (begin at key kind request) (λ _. HasRow) Raised
  unfolding begin begin_operation
  begin-Triple = record {
    at = λ s h.
        Post-either _ _
          (λ _. record {
            happened = h;
            row = (is_done-insert_operation at key kind request s.0.operations).1;
          })
          (λ _. record { at_most_once = omega arith; recorded = λ _. h });
  }

  complete-Triple :
      (x : Option String) (v : Json)
      → Triple HasRow
          (complete at key x v)
          (λ _ s. (effects s.1 ≡ 1) × (is_done key s.0.operations ≡ true))
          Raised
  unfolding complete complete_operation
  complete-Triple x v = record {
    at = λ s h.
        Post-either _ _ (λ _. (h.happened, rw (is_done-complete at key x v s.0.operations) h.row))
          (λ _. record { at_most_once = omega (arith, h.happened); recorded = λ _. h.happened });
  }

  log-Triple :
      (P : World W → Type 0) (what : String) (d : Details)
      → ((l : Ledger) (es : List Event) (w : W) → P (l, w) → P (record l { events = es }, w))
      → Triple P (log at what d) (λ _. P) Raised
  unfolding log
  log-Triple P what d keep = record { at = λ s h. returned (keep s.0 _ s.1 h) }

  adopt-Triple :
      (remote : RemoteEvidence)
      → Triple (λ s. effects s.1 ≡ 1) (adopt c at key kind request remote) IsComplete Raised
  unfolding adopt
  adopt-Triple remote = Triple-bind _ _ begin-Triple λ _.
      Triple-bind _ _ (complete-Triple _ _)
        λ _. Triple-bind _ _ (log-Triple _ _ _ (λ l es w h. h)) λ _. Triple-give _ (λ s h. h)

  -- The mutation may have happened, and the ledger does not say so.
  record IsTried (s : World W) : Type 0 where
    at_most_once : effects s.1 ≤ 1
    open_row : is_done key s.0.operations ≡ false
    row : exists (is_operation key) s.0.operations ≡ true

  IsSafe-of_IsTried : (s : World W) → IsTried s → IsSafe effects key s
  IsSafe-of_IsTried s h = record { at_most_once = h.at_most_once; recorded = λ d. cc h.open_row }

  mutate-Triple :
      Triple (λ s. IsTried s × (effects s.1 ≡ 0)) (outside (c.mutate key)) (λ _. IsTried) Raised
  unfolding outside
  mutate-Triple = record {
    at = λ s h.
        let after : IsTried (s.0, (c.mutate key s.1).1) = record {
          at_most_once = omega (arith, trust.once s.1, h.1);
          open_row = h.0.open_row;
          row = h.0.row;
        } in
        Post-either _ _ (λ _. after) (λ _. IsSafe-of_IsTried _ after);
  }

  after-Triple :
      {A : Type 0} (f : W → Result A × W)
      → ((w : W) → effects (f w).1 ≡ effects w)
      → Triple IsTried (outside f) (λ _. IsTried) Raised
  unfolding outside
  after-Triple f same = record {
    at = λ s h.
        let after : IsTried (s.0, (f s.1).1) = record {
          at_most_once = omega (arith, same s.1, h.at_most_once);
          open_row = h.open_row;
          row = h.row;
        } in
        Post-either _ _ (λ _. after) (λ _. IsSafe-of_IsTried _ after);
  }

  -- A reconciliation says how often the effect has happened, in any state that it keeps.
  reconcile-Triple :
      (P : World W → Type 0)
      → ((l : Ledger) (w w' : W) → effects w' ≡ effects w → P (l, w) → P (l, w'))
      → ((s : World W) → P s → IsSafe effects key s)
      → Triple P (outside c.reconcile) (λ e s. P s × (e.exists ≡ ltb 0 (effects s.1))) Raised
  unfolding outside
  reconcile-Triple P keep safe = record { at = λ s h. answered s h (c.reconcile s.1).0 refl }
    where
      answered :
          (s : World W)
          → P s
          → (r : Result RemoteEvidence) → (c.reconcile s.1).0 ≡ r
          → Post
              (λ (e : RemoteEvidence) (s : World W). P s × (e.exists ≡ ltb 0 (effects s.1)))
              Raised
              r
              (s.0, (c.reconcile s.1).1)
      answered s h (ok e) q =
          let same = trust.looks s.1 in
          returned (keep s.0 s.1 _ same h, rw same (trust.sees s.1 e q))
      answered s h (err x) q = raised (safe _ (keep s.0 s.1 _ (trust.looks s.1) h))

  confirm-Triple :
      (e : RemoteEvidence)
      → Triple
          (λ s. IsTried s × (e.exists ≡ ltb 0 (effects s.1)))
          (confirm c at key kind request e)
          IsComplete
          Raised
  unfolding confirm
  confirm-Triple e =
      Triple-bind _ _
        (record {
          at = λ s h. elim (Bool-cases e.exists) [
            | inl seen ↦ rw seen (
                returned
                  (record { happened = ground (arith, h.0.at_most_once, h.1); row = h.0.row }))
            | inr unseen ↦ rw unseen (raised (IsSafe-of_IsTried s h.0))
          ];
        })
        λ _.
          Triple-bind _ _ (complete-Triple _ _)
            λ _. Triple-bind _ _ (log-Triple _ _ _ (λ l es w h. h)) λ _. Triple-give _ (λ s h. h)

  attempt-Triple :
      Triple (λ s. IsTried s × (effects s.1 ≡ 0)) (attempt c at key kind request) IsComplete Raised
  unfolding attempt
  attempt-Triple = Triple-bind _ _ mutate-Triple λ _.
      Triple-bind _ _ (after-Triple c.after_remote_effect trust.waits) λ _.
        Triple-bind _ _
          (reconcile-Triple IsTried
            (λ l w w' same h. record {
              at_most_once = rw same h.at_most_once;
              open_row = h.open_row;
              row = h.row;
            })
            IsSafe-of_IsTried)
          confirm-Triple

  interrupted-Triple :
      (e : Exception) → Triple (Raised e) (interrupted c at key kind request e) IsComplete Raised
  unfolding interrupted
  interrupted-Triple e =
      Triple-bind _ _
        (log-Triple (Raised e) _ _
          (λ l es w h. record { at_most_once = h.at_most_once; recorded = h.recorded }))
        λ _. Triple-throw _ (λ s h. h)

  open-Triple :
      Triple
        (λ s. IsSafe effects key s × (effects s.1 ≡ 0))
        (begin at key kind request)
        (λ _ s. IsTried s × (effects s.1 ≡ 0))
        Raised
  unfolding begin begin_operation
  open-Triple = record {
    at = λ s h.
        let inserted = is_done-insert_operation at key kind request s.0.operations in
        let shut : is_done key s.0.operations ≡ false = ground (arith, h.0.recorded, h.1) in
        Post-either _ _
          (λ _. (
            record {
              at_most_once = h.0.at_most_once;
              open_row = rw inserted.0 shut;
              row = inserted.1;
            },
            h.1,
          ))
          (λ _. record {
            at_most_once = h.0.at_most_once;
            recorded = λ d. h.0.recorded (sym inserted.0 ∙ d);
          });
  }

  pursue-Triple :
      (e : RemoteEvidence)
      → Triple
          (λ s. IsSafe effects key s × (e.exists ≡ ltb 0 (effects s.1)))
          (pursue c at key kind request e)
          IsComplete
          Raised
  unfolding pursue
  pursue-Triple e = record {
    at = λ s h. elim (Bool-cases e.exists) [
      | inl seen ↦ simp seen ((adopt-Triple e).at s (ground (arith, h.0.at_most_once, h.1)))
      | inr unseen ↦ simp unseen (
          (Triple-bind _ _ open-Triple (λ _. Triple-catch _ _ attempt-Triple interrupted-Triple)).at
            s (h.0, ground (arith, h.1)))
    ];
  }

  look-Triple :
      Triple
        (IsSafe effects key)
        (outside c.reconcile >>= pursue c at key kind request)
        IsComplete
        Raised
  look-Triple =
      Triple-bind _ _
        (reconcile-Triple (IsSafe effects key)
          (λ l w w' same h. record {
            at_most_once = rw same h.at_most_once;
            recorded = λ d. rw same (h.recorded d);
          })
          (λ s h. h))
        pursue-Triple

  -- With callbacks that are trusted as IsFaithful says: from any state in which the effect has
  -- happened at most once, and has happened if the ledger says so, an `ensure` keeps both, whether it
  -- returns or raises; and if it returns, the effect has happened exactly once and the ledger says so.
  pub ensure-Triple : Triple (IsSafe effects key) (ensure c at key kind request) IsComplete Raised
  unfolding ensure resume ◌>>=◌ operation
  ensure-Triple = record { at = λ s h. resumed s h (operation key s.0.operations) refl }
    where
      resumed :
          (s : World W)
          → IsSafe effects key s
          → (o : Option Operation) → operation key s.0.operations ≡ o
          → Post IsComplete Raised
              (resume c at key kind request o s).0
              (resume c at key kind request o s).1
      resumed s h none q = look-Triple.at s h
      resumed s h (some o) q = elim (Bool-cases (is_completed o.status)) [
        | inl e ↦
            let done : is_done key s.0.operations ≡ true = rw q e in
            simp e (returned (h.recorded done, done))
        | inr e ↦ simp e (look-Triple.at s h)
      ]

-- A call of `ensure`: its moment, its kind and its request.
pub record Try : Type 0 where
  pub at : ℕ
  pub kind : String
  pub request : Json

module _ {W : Type 0} (effects : W → ℕ) (c : Callbacks W) (key : String)
    (trust : IsFaithful effects key c) where
  -- Calls one after the other, whether each returns or raises.
  unfoldable pub retries : List Try → World W → World W
  retries [] s = s
  retries (t ∷ ts) s = retries ts (ensure c t.at key t.kind t.request s).1

  -- Take callbacks that are trusted as IsFaithful says, and a state in which the effect has happened
  -- at most once, and has happened if the ledger says so. However often the operation is then tried,
  -- with failures anywhere in between, both still hold.
  pub retries-IsSafe :
      (ts : List Try) (s : World W) → IsSafe effects key s → IsSafe effects key (retries ts s)
  unfolding retries
  retries-IsSafe [] s h = h
  retries-IsSafe (t ∷ ts) s h = retries-IsSafe ts _ (
      Post-both (IsSafe effects key)
        (λ o done. record { at_most_once = omega (arith, done.0); recorded = λ _. done.0 })
        (λ e safe. safe) ((ensure-Triple effects c t.at key t.kind t.request trust).at s h))
