-- ===== src/Config/Accepted.antt =====
-- What the functions that read one value or one section of a configuration accept.
use qwen_autonomous_supervis.Prelude.{
  ℕ, ◌+◌, ◌<◌, ◌≤◌, ◌≡◌, ◌≢◌, inl, inr, String, str_eq, Bool, true, false, Option, none, some, List,
  [], ◌∷◌, ◌&&◌, ◌==◌, not, All, arith, refl, ap, sym, ◌∙◌, ltb, leb, ltb→lt, Bool-cases,
}
use qwen_autonomous_supervis.Prelude.Int.{ℤ, pos, negsuc, leb_ℤ, pos_part}
use qwen_autonomous_supervis.Json.{
  Json, null, bool, int, real, str, arr, obj, Items, nil, cons, Fields,
}
use qwen_autonomous_supervis.Errors.{ok, ◌>>=◌}
use qwen_autonomous_supervis.Errors.Holds.{Holds, holds, fails, Holds-bind, Holds-any, Holds-self}
use qwen_autonomous_supervis.Config.Holds.{Holds-found, Holds-raise_if}
use qwen_autonomous_supervis.Config.{ObservabilityConfig, JobsConfig}
use qwen_autonomous_supervis.Config.Values.{
  Builtins, above_zero, number, whole, positive, positive_float, optional_positive, duration,
  boolean, string_list, non_negative_integer, int_value, float_value, mapping,
}
use qwen_autonomous_supervis.Config.Durations.{number_text, is_above_zero}
use qwen_autonomous_supervis.Config.Sections.{
  effort_of, is_empty, load_effort, load_scheduler, load_recovery, load_qwen, load_review,
  load_gate, load_gates,
}
use qwen_autonomous_supervis.Config.Limits.{
  load_storage, load_jobs, load_budgets, load_observability,
}
use qwen_autonomous_supervis.Config.WellFormed.{
  IsDuration, IsTier, IsQwen, IsScheduler, IsRecovery, IsReview, IsGate, IsObservability, IsLimit,
  IsBudgets, IsStorage,
}

Holds-above_zero : (o : Option ℤ) (name : String) → Holds (λ n. 0 < n) (above_zero o name)
Holds-above_zero none name = fails
Holds-above_zero (some (negsuc n)) name = fails
Holds-above_zero (some (pos n)) name = elim (Bool-cases (ltb 0 n)) [
  | inl y ↦ rw y (holds (ltb→lt 0 n y))
  | inr n' ↦ rw n' fails
]

Holds-positive : (v : Json) (name : String) → Holds (λ n. 0 < n) (positive v name)
unfolding positive
Holds-positive v name = Holds-above_zero (whole v) name

Holds-positive_float : (v : Json) (name : String) → Holds (λ n. 0 < n) (positive_float v name)
unfolding positive_float
Holds-positive_float v name = Holds-above_zero (number v) name

true_of_not : (b : Bool) → not b ≡ false → b ≡ true
true_of_not b h = ground arith

lt_of_not_leb : (a b : ℕ) → leb a b ≡ false → b < a
lt_of_not_leb a b h = ground arith

implied : (a b : Bool) → (a && not b) ≡ false → a ≡ true → b ≡ true
implied a b h e = ground arith

sandboxed :
    (mode : String) (sandbox : Bool)
    → (str_eq mode "yolo" && not sandbox) ≡ false
    → mode ≡ "yolo"
    → sandbox ≡ true
sandboxed mode sandbox h yolo =
    true_of_not sandbox (ap (λ m. str_eq m "yolo" && not sandbox) (sym yolo) ∙ h)

pub load_scheduler-IsScheduler : (s : Fields) → Holds IsScheduler (load_scheduler s)
unfolding load_scheduler
load_scheduler-IsScheduler s = Holds-bind _ _ (Holds-positive_float _ _) λ minutes a.
    Holds-bind _ _ (Holds-positive _ _) λ lease b. Holds-bind _ _ (Holds-positive _ _) λ beat c.
      Holds-bind _ _ (Holds-positive _ _) λ silence d.
        Holds-bind _ _ (Holds-positive _ _) λ grace e.
          Holds-raise_if _ _ _ λ under. holds (a, c, lt_of_not_leb lease beat under, d, e)

pub load_recovery-IsRecovery : (r : Fields) → Holds IsRecovery (load_recovery r)
unfolding load_recovery
load_recovery-IsRecovery r = Holds-bind _ _ (Holds-positive _ _) λ identical a.
    Holds-bind _ _ (Holds-positive _ _)
      λ base b. Holds-bind _ _ (Holds-positive _ _) λ most c. holds (a, b, c)

pub load_storage-IsStorage : (s : Fields) → Holds IsStorage (load_storage s)
unfolding load_storage
load_storage-IsStorage s = Holds-bind _ _ (Holds-positive _ _) λ free a.
    Holds-bind _ _ (Holds-positive _ _) λ log b. Holds-bind _ _ (Holds-positive _ _) λ backups c.
      Holds-bind _ _ (Holds-positive _ _)
        λ days d. Holds-bind _ _ (Holds-positive _ _) λ most e. holds (a, b, c, d, e)

pub load_jobs_lem : (j : Fields) → Holds (λ (c : JobsConfig). 0 < c.max_concurrent) (load_jobs j)
unfolding load_jobs
load_jobs_lem j = Holds-bind _ _ (Holds-positive _ _) λ most a. holds a

Holds-IsLimit :
    (v : Json) (name : String) → Holds IsLimit (do n ← positive_float v name; ok (some n))
Holds-IsLimit v name = Holds-bind _ _ (Holds-positive_float v name) λ n a. holds a

Holds-optional_positive : (v : Json) (name : String) → Holds IsLimit (optional_positive v name)
unfolding optional_positive
Holds-optional_positive null name = holds tt
Holds-optional_positive (bool b) name = Holds-IsLimit (bool b) name
Holds-optional_positive (int n) name = Holds-IsLimit (int n) name
Holds-optional_positive (real n) name = Holds-IsLimit (real n) name
Holds-optional_positive (str s) name = Holds-IsLimit (str s) name
Holds-optional_positive (arr xs) name = Holds-IsLimit (arr xs) name
Holds-optional_positive (obj fs) name = Holds-IsLimit (obj fs) name

pub load_budgets-IsBudgets :
    (o : ObservabilityConfig) (b : Fields) → Holds (IsBudgets o) (load_budgets o b)
unfolding load_budgets
load_budgets-IsBudgets o b = Holds-bind _ _ (Holds-positive _ _) λ tick l.
    Holds-bind _ _ (Holds-positive _ _) λ hour m. Holds-bind _ _ (Holds-positive _ _) λ day n.
      Holds-bind _ _ (Holds-positive _ _) λ issue p.
        Holds-bind _ _ (Holds-optional_positive _ _) λ tick_cost q.
          Holds-bind _ _ (Holds-optional_positive _ _) λ hour_cost r.
            Holds-bind _ _ (Holds-optional_positive _ _) λ day_cost s.
              Holds-bind _ _ (Holds-optional_positive _ _) λ issue_cost t.
                Holds-raise_if _ _ _ λ priced. holds (l, m, n, p, q, r, s, t, implied _ _ priced)

Holds-effort_of : (o : Option String) → Holds IsTier (effort_of o)
Holds-effort_of o =
    Holds-found o _ _ λ s e. Holds-raise_if _ _ _ λ known. holds (true_of_not _ known)

load_effort-IsTier : (v : Json) → Holds IsTier (load_effort v)
unfolding load_effort
load_effort-IsTier null = holds tt
load_effort-IsTier (bool b) = Holds-effort_of none
load_effort-IsTier (int n) = Holds-effort_of none
load_effort-IsTier (real n) = Holds-effort_of none
load_effort-IsTier (str s) = Holds-effort_of (some s)
load_effort-IsTier (arr xs) = Holds-effort_of none
load_effort-IsTier (obj fs) = Holds-effort_of none

positive_of_is_above_zero :
    (x : ℤ) → not (is_above_zero x) ≡ false → (n : ℕ) × (x ≡ pos n) × (0 < n)
positive_of_is_above_zero (pos n) h = (n, refl, ground arith)
positive_of_is_above_zero (negsuc n) h = cc

eq_of_not : (a b : ℕ) → not (a == b) ≡ false → a ≡ b
eq_of_not a b h = ground arith

nonempty : (ss : List String) → is_empty ss ≡ false → ss ≢ []
nonempty [] h = cc
nonempty (s ∷ ss) h = λ e. cc

in_range :
    (port : ℤ)
    → (leb_ℤ (pos 1) port && leb_ℤ port (pos 65535)) ≡ true
    → (1 ≤ pos_part port) × (pos_part port ≤ 65535)
in_range (pos n) h = ground arith
in_range (negsuc n) h = ground arith

module _ (py : Builtins) where
  duration-IsDuration : (v : Json) (name : String) → Holds (IsDuration py) (duration py v name)
  unfolding duration
  duration-IsDuration v name = Holds-found _ _ _ λ s e. Holds-raise_if _ _ _ λ reads.
      Holds-bind _ _ (Holds-self (py.float_of (number_text s))) λ x same.
        Holds-raise_if _ _ _ λ above.
          let (n, value, more) = positive_of_is_above_zero x above in
          holds (true_of_not _ reads, n, same ∙ ap ok value, more)

  pub load_qwen-IsQwen : (q : Fields) → Holds (IsQwen py) (load_qwen py q)
  unfolding load_qwen
  load_qwen-IsQwen q = Holds-raise_if _ _ _ λ mode. Holds-found _ _ _ λ binary e.
      Holds-raise_if _ _ _ λ blank. Holds-bind _ _ (load_effort-IsTier _) λ effort a.
        Holds-any (boolean _ _) _ λ sandbox. Holds-any (boolean _ _) _ λ retry.
          Holds-bind _ _ (duration-IsDuration _ _) λ wall b.
            Holds-bind _ _ (Holds-positive _ _) λ calls c.
              Holds-bind _ _ (Holds-positive _ _) λ turns d.
                Holds-bind _ _ (Holds-positive _ _) λ tokens f. Holds-any (boolean _ _) _ λ store.
                  Holds-any (string_list _ _) _ λ excluded. Holds-any (string_list _ _) _ λ allowed.
                    Holds-raise_if _ _ _ λ yolo.
                      holds (true_of_not _ mode, blank, a, b, c, d, f, sandboxed _ sandbox yolo)

  pub load_review-IsReview :
      (model : String) (rv : Fields) → Holds (IsReview py) (load_review py model rv)
  unfolding load_review
  load_review-IsReview model rv = Holds-any (boolean _ _) _ λ enabled.
      Holds-bind _ _ (duration-IsDuration _ _) λ wall a.
        Holds-any (non_negative_integer _ _) _ λ calls. Holds-any (int_value py _) _ λ critical.
          Holds-raise_if _ _ _ λ one. Holds-raise_if _ _ _ λ least. holds (a, eq_of_not calls 1 one)

  load_gate-IsGate : (index : ℕ) (item : Json) → Holds IsGate (load_gate py index item)
  unfolding load_gate
  load_gate-IsGate index item = Holds-any (mapping _ _) _ λ gate. Holds-found _ _ _ λ command e.
      Holds-raise_if _ _ _ λ some_word.
        Holds-bind _ _ (Holds-positive _ _) λ timeout a. holds (nonempty command some_word, a)

  pub load_gates-IsGate :
      (index : ℕ) (items : Items) → Holds (All IsGate) (load_gates py index items)
  unfolding load_gates
  load_gates-IsGate index nil = holds tt
  load_gates-IsGate index (cons item items) =
      Holds-bind _ _ (load_gate-IsGate index item)
        λ gate a. Holds-bind _ _ (load_gates-IsGate (index + 1) items) λ gates b. holds (a, b)

  pub load_observability-IsObservability :
      (obs : Fields) → Holds IsObservability (load_observability py obs)
  unfolding load_observability
  load_observability-IsObservability obs = Holds-any (int_value py _) _ λ port.
      Holds-any (float_value py _) _ λ input. Holds-any (float_value py _) _ λ output.
        Holds-raise_if _ _ _
          λ between. Holds-raise_if _ _ _ λ costs. holds (in_range port (true_of_not _ between))
