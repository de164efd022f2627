-- ===== src/Config/Invariant.antt =====
-- What every configuration that `load_config` of src/qas/config.py returns satisfies.
use mathlib.Core.Path.{subst}
use qwen_autonomous_supervis.Prelude.{
  String, str_eq, eq_iff, ◌≡◌, ◌≢◌, ◌∙◌, sym, Bool, true, false, ◌||◌, arith,
}
use qwen_autonomous_supervis.Json.{Fields}
use qwen_autonomous_supervis.Errors.{ok}
use qwen_autonomous_supervis.Config.{SupervisorConfig}
use qwen_autonomous_supervis.Errors.Holds.{Holds, holds, Holds-bind, Holds-any, Holds-ok}
use qwen_autonomous_supervis.Config.Holds.{Holds-found, Holds-raise_if}
use qwen_autonomous_supervis.Config.Values.{Builtins, mapping, resolve, expand_env}
use qwen_autonomous_supervis.Config.Sections.{load_governance}
use qwen_autonomous_supervis.Config.Load.{overlaps, load_fields, load_config}
use qwen_autonomous_supervis.Config.WellFormed.{IsApart, IsConfig}
use qwen_autonomous_supervis.Config.Accepted.{
  load_qwen-IsQwen, load_scheduler-IsScheduler, load_recovery-IsRecovery, load_review-IsReview,
  load_gates-IsGate, load_observability-IsObservability, load_budgets-IsBudgets,
  load_storage-IsStorage, load_jobs_lem,
}

neither :
    (a b c d : Bool)
    → (a || b || c || d) ≡ false
    → (a ≡ false) × (b ≡ false) × (c ≡ false) × (d ≡ false)
neither a b c d h = ground arith

ne_of_str_eq : (s t : String) → str_eq s t ≡ false → s ≢ t
ne_of_str_eq s t h e = let same : true ≡ false = sym ((eq_iff s t).1 e) ∙ h in cc

module _ (py : Builtins) where
  IsApart-of :
      (runtime project : String) → overlaps py runtime project ≡ false → IsApart py runtime project
  IsApart-of runtime project h =
      let (a, b, c, d) = neither _ _ _ _ h in (ne_of_str_eq _ _ a, b, c, ne_of_str_eq _ _ d)

  load_fields-IsConfig :
      (config_path : String) (values : Fields)
      → Holds (IsConfig py) (load_fields py config_path values)
  unfolding load_fields
  load_fields-IsConfig config_path values = Holds-raise_if _ _ _ λ schema.
      Holds-any (resolve py _ _ _) _ λ project. Holds-any (resolve py _ _ _) _ λ runtime.
        Holds-raise_if _ _ _ λ apart. Holds-any (mapping _ _) _ λ q.
          Holds-bind _ _ (load_qwen-IsQwen py q) λ qwen a. Holds-any (mapping _ _) _ λ s.
            Holds-bind _ _ (load_scheduler-IsScheduler s) λ scheduler b.
              Holds-any (mapping _ _) _ λ r.
                Holds-bind _ _ (load_recovery-IsRecovery r) λ recovery c.
                  Holds-any (mapping _ _) _ λ rv.
                    Holds-bind _ _ (load_review-IsReview py _ rv) λ review d.
                      Holds-any (mapping _ _) _ λ gov.
                        Holds-any (load_governance gov) _ λ governance.
                          Holds-found _ _ _ λ items raw.
                            Holds-bind _ _ (load_gates-IsGate py 0 items) λ gates e.
                              Holds-any (mapping _ _) _ λ dogfood. Holds-any (mapping _ _) _ λ obs.
                                Holds-bind _ _ (load_observability-IsObservability py obs)
                                  λ observability f. Holds-any (mapping _ _) _ λ bs.
                                    Holds-bind _ _ (load_budgets-IsBudgets observability bs)
                                      λ budgets g. Holds-any (mapping _ _) _ λ st.
                                        Holds-bind _ _ (load_storage-IsStorage st) λ storage h.
                                          Holds-any (mapping _ _) _ λ j.
                                            Holds-bind _ _ (load_jobs_lem j) λ jobs k.
                                              holds (record {
                                                apart = IsApart-of runtime project apart;
                                                qwen = a;
                                                scheduler = b;
                                                recovery = c;
                                                review = d;
                                                quality_gates = e;
                                                observability = f;
                                                budgets = g;
                                                storage = h;
                                                jobs = k;
                                              })

  Holds-load_config : (path : String) → Holds (IsConfig py) (load_config py path)
  unfolding load_config
  Holds-load_config path = Holds-raise_if _ _ _ λ file. Holds-any (py.safe_load _) _ λ raw.
      Holds-any (mapping _ _) _
        λ fields. Holds-any (expand_env py _) _ λ values. load_fields-IsConfig _ values

  -- If `load_config` returns a configuration of a file without a float that is NaN or infinite (such floats are no
  -- values of the model), its runtime directory is apart from the project's root; a heartbeat is more frequent
  -- than its lease expires; the times of the scheduler and of the recovery, the limits of the model's calls,
  -- turns and tokens, the token limits and the cost limits that are set, and the limits of the storage and
  -- of the jobs are positive; the approval mode and the reasoning effort are known and `yolo` has a sandbox; durations can be
  -- read and are positive; the reviewer has exactly one tool call; each gate has a command and a positive
  -- timeout; the port is a port; and a cost is limited only if tokens have a price.
  pub load_config-IsConfig :
      (path : String) (c : SupervisorConfig) → load_config py path ≡ ok c → IsConfig py c
  load_config-IsConfig path c e = Holds-ok (subst (Holds (IsConfig py)) e (Holds-load_config path))
