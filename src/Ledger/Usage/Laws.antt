-- ===== src/Ledger/Usage/Laws.antt =====
-- Every model call is charged, and charged once.
use qwen_autonomous_supervis.Prelude.{
  String, ◌≡◌, refl, ap, ◌∙◌, true, false, Option, none, some, List, [], ◌∷◌, ◌&&◌, ◌||◌, not,
  select, All, Bool-cases, inl, inr,
}
use qwen_autonomous_supervis.Prelude.Int.{ℤ}
use qwen_autonomous_supervis.Json.{Fields, as_object}
use qwen_autonomous_supervis.Ledger.Events.{Event}
use qwen_autonomous_supervis.Ledger.Usage.{
  UsageQuery, is_row, is_model_usage, role_of, has_model_role, is_charged, charge_rows,
  usage_totals, at_least_sum, fields_test,
}

-- Rows that are charged alike over two tables make the same totals.
pub charge_rows-agree :
    (issue : Option ℤ) (all more rows : List Event)
    → All (λ r. is_charged issue more r ≡ is_charged issue all r) rows
    → charge_rows issue more rows ≡ charge_rows issue all rows
unfolding charge_rows
charge_rows-agree issue all more [] same = refl
charge_rows-agree issue all more (e ∷ es) same =
    rw (same.0, charge_rows-agree issue all more es same.1) refl

has_model_role-older :
    (e : Event) (all : List Event) (t : Option String) (r : String)
    → is_model_usage e ≡ false
    → has_model_role t r (e ∷ all) ≡ has_model_role t r all
unfolding has_model_role
has_model_role-older e all t r h = rw h refl

is_charged-older :
    (e r : Event) (all : List Event)
    → is_model_usage e ≡ false
    → is_charged none (e ∷ all) r ≡ is_charged none all r
unfolding is_charged
is_charged-older e r all h = split (as_object r.payload)
  where
    split :
        (o : Option Fields)
        → fields_test o (λ fs.
          (is_model_usage r || not (has_model_role r.tick_id (role_of r fs) (e ∷ all))) && true)
          ≡ fields_test o (λ fs.
            (is_model_usage r || not (has_model_role r.tick_id (role_of r fs) all)) && true)
    split none = refl
    split (some fs) = rw (has_model_role-older e all r.tick_id (role_of r fs) h) refl

every_row : {P : Event → Type 0} (rows : List Event) → ((r : Event) → P r) → All P rows
every_row [] h = tt
every_row (e ∷ es) h = (h e, every_row es h)

-- The role whose call the event reports.
abbrev pub role_in : Event → String
role_in e = elim (as_object e.payload) [ none ↦ "" | some fs ↦ role_of e fs ]

is_charged_self :
    (e : Event) (rows : List Event)
    → is_model_usage e ≡ false
    → has_model_role e.tick_id (role_in e) rows ≡ true
    → is_charged none (e ∷ rows) e ≡ false
unfolding is_charged
is_charged_self e rows older charged =
    is_charged-older e e rows older ∙ split (as_object e.payload) charged
  where
    split :
        (o : Option Fields)
        → has_model_role e.tick_id (elim o [ none ↦ "" | some fs ↦ role_of e fs ]) rows ≡ true
        → fields_test o
            (λ fs. (is_model_usage e || not (has_model_role e.tick_id (role_of e fs) rows)) && true)
          ≡ false
    split none c = refl
    split (some fs) c = rw (c, older) refl

charge_rows-skip :
    (e : Event) (rows : List Event)
    → is_model_usage e ≡ false
    → has_model_role e.tick_id (role_in e) rows ≡ true
    → charge_rows none (e ∷ rows) (e ∷ rows) ≡ charge_rows none rows rows
unfolding charge_rows
charge_rows-skip e rows older charged = rw (is_charged_self e rows older charged) (
    charge_rows-agree none rows (e ∷ rows) rows
      (every_row rows (λ r. is_charged-older e r rows older)))

-- A call that a `model_usage` event has charged is not charged again by the event of its completion:
-- in a query that reads the first and is for no issue, an event of an older kind, of the same tick and
-- role, changes no total.
pub usage_totals-older :
    (q : UsageQuery) (e : Event) (es : List Event)
    → q.issue_number ≡ none
    → is_model_usage e ≡ false
    → has_model_role e.tick_id (role_in e) (select (is_row q) es) ≡ true
    → usage_totals q (e ∷ es) ≡ usage_totals q es
unfolding usage_totals
usage_totals-older q e es free older charged = elim (Bool-cases (is_row q e)) [
  | inr out ↦ rw out refl
  | inl in_query ↦
      rw in_query
        (simp free (ap at_least_sum (charge_rows-skip e (select (is_row q) es) older charged)))
]
