-- ===== src/Ledger/Usage/Charges.antt =====
-- The totals of `usage_totals` of src/qas/db.py as sums over the numbers of the usage reports.
use qwen_autonomous_supervis.Prelude.{
  ◌+◌, ℕ, suc, String, ◌≡◌, refl, ap, ◌∙◌, Bool, true, false, Option, none, some, List, [], ◌∷◌,
  ◌++◌, arith, ◌&&◌, ◌||◌, not, if◌then◌else◌, select, length, is_some, Bool-cases, inl, inr,
}
use qwen_autonomous_supervis.Prelude.Int.{ℤ, pos, ◌+ℤ◌, max_ℤ, int_laws}
use qwen_autonomous_supervis.Json.{
  Json, null, bool, int, real, str, arr, obj, Items, nil, cons, Fields, end, field, get_in,
  as_object, trunc,
}
use qwen_autonomous_supervis.Ledger.Events.{Event}
use qwen_autonomous_supervis.Ledger.Usage.{
  UsageQuery, is_row, is_model_usage, is_charged, charge, charge_rows, usage_totals, fields_test,
  has_model_role, role_of,
}
use qwen_autonomous_supervis.Ledger.Usage.Collect.{
  Totals, no_tokens, collect, collect_items, collect_fields, collect_field, add_number, is_input,
  is_output, is_total,
}
use qwen_autonomous_supervis.Ledger.Usage.Numbers.{
  numbers, numbers_in, numbers_of, sum_if, sum_if-append, outputs_apart, totals_apart,
}

-- `u` is `t` with these numbers on top, and the calls of `t`.
record IsAdded (t : Totals) (ns : List (String × ℤ)) (u : Totals) : Type 0 where
  input : u.input_tokens ≡ t.input_tokens +ℤ sum_if is_input ns
  output : u.output_tokens ≡ t.output_tokens +ℤ sum_if is_output ns
  total : u.total_tokens ≡ t.total_tokens +ℤ sum_if is_total ns
  calls : u.model_calls ≡ t.model_calls

IsAdded-none : (t : Totals) → IsAdded t [] t
IsAdded-none t = record {
  input = omega int_laws;
  output = omega int_laws;
  total = omega int_laws;
  calls = refl;
}

-- Two searches, one after the other.
IsAdded-trans :
    (t u v : Totals) (ms ns : List (String × ℤ))
    → IsAdded t ms u
    → IsAdded u ns v
    → IsAdded t (ms ++ ns) v
IsAdded-trans t u v ms ns a b = record {
  input = rw (b.input, a.input, sum_if-append is_input ms ns) (omega int_laws);
  output = rw (b.output, a.output, sum_if-append is_output ms ns) (omega int_laws);
  total = rw (b.total, a.total, sum_if-append is_total ms ns) (omega int_laws);
  calls = b.calls ∙ a.calls;
}

-- A number under a key, of which the three tests are known.
added_number :
    (i o e : Bool) (n : ℤ) (t : Totals)
    → (i && o) ≡ false
    → ((i || o) && e) ≡ false
    → let u : Totals =
        if i
        then record t { input_tokens = t.input_tokens +ℤ n }
        else if o
        then record t { output_tokens = t.output_tokens +ℤ n }
        else if e
        then record t { total_tokens = t.total_tokens +ℤ n }
        else t in
      (u.input_tokens ≡ t.input_tokens +ℤ ((if i then n else pos 0) +ℤ pos 0))
      × (u.output_tokens ≡ t.output_tokens +ℤ ((if o then n else pos 0) +ℤ pos 0))
      × (u.total_tokens ≡ t.total_tokens +ℤ ((if e then n else pos 0) +ℤ pos 0))
      × (u.model_calls ≡ t.model_calls)
added_number true true e n t h k = cc
added_number true false true n t h k = cc
added_number true false false n t h k = (omega int_laws, omega int_laws, omega int_laws, refl)
added_number false true true n t h k = cc
added_number false true false n t h k = (omega int_laws, omega int_laws, omega int_laws, refl)
added_number false false true n t h k = (omega int_laws, omega int_laws, omega int_laws, refl)
added_number false false false n t h k = (omega int_laws, omega int_laws, omega int_laws, refl)

add_number-IsAdded : (k : String) (n : ℤ) (t : Totals) → IsAdded t ((k, n) ∷ []) (add_number k n t)
unfolding add_number
add_number-IsAdded k n t =
    let (a, b, c, d) =
      added_number (is_input k) (is_output k) (is_total k) n t (outputs_apart k) (totals_apart k) in
    record { input = a; output = b; total = c; calls = d }

mutual
  unfolding collect collect_items collect_fields collect_field numbers numbers_in numbers_of

  collect-IsAdded : (v : Json) (t : Totals) → IsAdded t (numbers v) (collect v t)
  collect-IsAdded null t = IsAdded-none t
  collect-IsAdded (bool b) t = IsAdded-none t
  collect-IsAdded (int n) t = IsAdded-none t
  collect-IsAdded (real n) t = IsAdded-none t
  collect-IsAdded (str s) t = IsAdded-none t
  collect-IsAdded (arr xs) t = collect_items-IsAdded xs t
  collect-IsAdded (obj fs) t = collect_fields-IsAdded fs t

  collect_items-IsAdded : (xs : Items) (t : Totals) → IsAdded t (numbers_in xs) (collect_items xs t)
  collect_items-IsAdded nil t = IsAdded-none t
  collect_items-IsAdded (cons v xs) t =
      IsAdded-trans t (collect v t) _ (numbers v) (numbers_in xs) (collect-IsAdded v t)
        (collect_items-IsAdded xs (collect v t))

  collect_fields-IsAdded :
      (fs : Fields) (t : Totals) → IsAdded t (numbers_of fs) (collect_fields fs t)
  collect_fields-IsAdded end t = IsAdded-none t
  collect_fields-IsAdded (field k (int n) fs) t =
      IsAdded-trans t (add_number k n t) _ ((k, n) ∷ []) (numbers_of fs) (add_number-IsAdded k n t)
        (collect_fields-IsAdded fs (add_number k n t))
  collect_fields-IsAdded (field k (real n) fs) t =
      IsAdded-trans t (add_number k (trunc n) t) _ ((k, trunc n) ∷ []) (numbers_of fs)
        (add_number-IsAdded k (trunc n) t) (collect_fields-IsAdded fs (add_number k (trunc n) t))
  collect_fields-IsAdded (field k null fs) t = collect_fields-IsAdded fs t
  collect_fields-IsAdded (field k (bool b) fs) t = collect_fields-IsAdded fs t
  collect_fields-IsAdded (field k (str s) fs) t = collect_fields-IsAdded fs t
  collect_fields-IsAdded (field k (arr xs) fs) t =
      IsAdded-trans t (collect_items xs t) _ (numbers_in xs) (numbers_of fs)
        (collect_items-IsAdded xs t) (collect_fields-IsAdded fs (collect_items xs t))
  collect_fields-IsAdded (field k (obj gs) fs) t =
      IsAdded-trans t (collect_fields gs t) _ (numbers_of gs) (numbers_of fs)
        (collect_fields-IsAdded gs t) (collect_fields-IsAdded fs (collect_fields gs t))

-- The numbers of the usage reports of these events.
abbrev pub reported : List Event → List (String × ℤ)
reported [] = []
reported (e ∷ es) = reported es ++ numbers (get_in "usage" e.payload)

one_more :
    (n : ℕ) (ns : List (String × ℤ)) (t : Totals)
    → IsAdded (record no_tokens { model_calls = n }) ns t
    → IsAdded
        (record no_tokens { model_calls = suc n })
        ns
        (record t { model_calls = t.model_calls + 1 })
one_more n ns t h = record {
  input = h.input;
  output = h.output;
  total = h.total;
  calls = omega (arith, h.calls);
}

-- The calls and the tokens that are charged for the rows that count.
charge_rows-IsAdded :
    (issue : Option ℤ) (all rows : List Event)
    → let counted = select (is_charged issue all) rows in
      IsAdded
        (record no_tokens { model_calls = length counted })
        (reported counted)
        (charge_rows issue all rows)
unfolding charge_rows charge
charge_rows-IsAdded issue all [] = IsAdded-none no_tokens
charge_rows-IsAdded issue all (e ∷ es) = elim (Bool-cases (is_charged issue all e)) [
  | inl y ↦
      let before = charge_rows issue all es in
      let called : Totals = record before { model_calls = before.model_calls + 1 } in
      rw y (
        IsAdded-trans _ called _ (reported (select (is_charged issue all) es))
          (numbers (get_in "usage" e.payload))
          (one_more _ _ before (charge_rows-IsAdded issue all es))
          (collect-IsAdded (get_in "usage" e.payload) called))
  | inr n ↦ rw n (charge_rows-IsAdded issue all es)
]

-- A report of a call of the newer kind.
abbrev pub is_report : Event → Bool
is_report e = is_model_usage e && is_some (as_object e.payload)

is_charged-report :
    (rows : List Event) (e : Event) → is_report e ≡ true → is_charged none rows e ≡ true
unfolding is_charged
is_charged-report rows e h = found (as_object e.payload) h
  where
    found :
        (o : Option Fields)
        → (is_model_usage e && is_some o) ≡ true
        → fields_test o
            (λ fs. (is_model_usage e || not (has_model_role e.tick_id (role_of e fs) rows)) && true)
          ≡ true
    found none h = ground arith
    found (some fs) h = ground arith

all_reports :
    (rows es : List Event)
    → select is_report (select (is_charged none rows) es) ≡ select is_report es
all_reports rows [] = refl
all_reports rows (e ∷ es) = elim (Bool-cases (is_report e)) [
  | inl y ↦ rw (is_charged-report rows e y, y) (ap (λ xs. e ∷ xs) (all_reports rows es))
  | inr n ↦ elim (Bool-cases (is_charged none rows e)) [
    | inl y ↦ rw (y, n) (all_reports rows es)
    | inr m ↦ rw (m, n) (all_reports rows es)
  ]
]

-- The rows that a query reads, and those of them that count.
abbrev pub counted : UsageQuery → List Event → List Event
counted q es = let rows = select (is_row q) es in select (is_charged q.issue_number rows) rows

-- The totals of a query are sums over the usage reports of the rows that count: the input tokens are the sum of
-- all numbers, at any depth of a report, under a key that names input tokens, and so are the output tokens; the
-- total is the sum of those under a key that names totals, or input plus output tokens if that is more; and
-- every row that counts is one call. For the same query without an issue, every `model_usage` event that it
-- reads and whose payload is a mapping counts.
pub usage_totals_lem :
    (q : UsageQuery) (es : List Event)
    → let ns = reported (counted q es) in
      ((usage_totals q es).input_tokens ≡ sum_if is_input ns)
      × ((usage_totals q es).output_tokens ≡ sum_if is_output ns)
      × ((usage_totals q es).total_tokens
          ≡ max_ℤ (sum_if is_total ns) (sum_if is_input ns +ℤ sum_if is_output ns))
      × ((usage_totals q es).model_calls ≡ length (counted q es))
      × (select is_report (counted (record q { issue_number = none }) es)
          ≡ select is_report (select (is_row q) es))
unfolding usage_totals is_row
usage_totals_lem q es =
    let rows = select (is_row q) es in
    let added = charge_rows-IsAdded q.issue_number rows rows in
    let ns = reported (counted q es) in
    let a : (charge_rows q.issue_number rows rows).input_tokens ≡ sum_if is_input ns =
      rw added.input (omega int_laws) in
    let b : (charge_rows q.issue_number rows rows).output_tokens ≡ sum_if is_output ns =
      rw added.output (omega int_laws) in
    let c : (charge_rows q.issue_number rows rows).total_tokens ≡ sum_if is_total ns =
      rw added.total (omega int_laws) in
    (a, b, rw (a, b, c) refl, added.calls, all_reports rows rows)
