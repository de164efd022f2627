-- ===== src/Runtime/Tick/Success.antt =====
-- What the success of a tick, `tick` of src/qas/runtime.py, vouches for.
use qwen_autonomous_supervis.Prelude.{
  ℕ, ◌≤◌, String, ◌≡◌, refl, inl, inr, Bool, true, false, Option, some, List, [], ◌&&◌, leb, All,
  Bool-cases, arith,
}
use qwen_autonomous_supervis.Json.{Json, Fields, get, truthy}
use qwen_autonomous_supervis.Errors.{Exception, ok}
use qwen_autonomous_supervis.Effects.Returns.{
  Returns, Returns-bind, Returns-any, Returns-answer, Returns-give, Returns-throw, Returns-catch,
  Returns-throw_if, Returns-imp,
}
use qwen_autonomous_supervis.Config.{SupervisorConfig, GateConfig}
use qwen_autonomous_supervis.Policy.{assert_governance, GateRun, run_gate}
use qwen_autonomous_supervis.Qwen.{ProcessResult, Session}
use qwen_autonomous_supervis.Qwen.Output.{validated_output}
use qwen_autonomous_supervis.Runtime.Answers.{Answers, Tools, TickOutcome}
use qwen_autonomous_supervis.Runtime.Tick.Steps.{str_of}
use qwen_autonomous_supervis.Runtime.Tick.Phases.{is_changed, has_failed, coordinator_keys}
use qwen_autonomous_supervis.Runtime.Tick.Review.{
  review, launch_reviewer, accept_reviewer, judge, fail_review, is_reused, is_missing,
  critical_findings, review_keys, text_is,
}

module _ (c : SupervisorConfig) (t : Tools) (a : Answers) where
  -- The reviewer's process ended well, in a session that is not the coordinator's, and its output
  -- passes the change.
  pub record IsReviewed (implementation : Option String) : Type 0 where
    pub session : Session
    pub process : ProcessResult
    pub verdict : Fields
    pub launched : a.reviewer ≡ ok session
    pub ended : session.result ≡ ok process
    pub exited : has_failed process ≡ false
    pub identified : is_missing process.session_id ≡ false
    pub independent : is_reused implementation process.session_id ≡ false
    pub read_from :
        validated_output t.loads (review_keys c t a) process.structured_output process.stdout_lines
        ≡ ok verdict
    pub passed : text_is (get "verdict" verdict) "pass" ≡ true
    pub critical : ℕ
    pub counted : critical_findings (get "findings" verdict) ≡ ok critical
    pub few : critical ≤ c.review.maximum_critical_findings

  -- A gate that was run and passed.
  pub record HasPassed (g : GateConfig) : Type 0 where
    pub run : ℕ × GateRun
    pub answered : a.gate_runs g ≡ ok run
    pub passed : (run_gate g run.0 run.1).passed ≡ true

  -- What a mutation has passed: the secret scan, every gate and, if it is enabled, the review.
  pub record IsQualified (implementation : Option String) (passed : Option Bool) : Type 0 where
    pub diff : String
    pub changed : a.diff ≡ ok diff
    pub clean : t.scan_added_secrets diff ≡ []
    pub gates : All HasPassed c.quality_gates
    pub reviewed : c.review.enabled ≡ true → (passed ≡ some true) × IsReviewed implementation

  pub record IsVerified (o : TickOutcome) : Type 0 where
    pub session : Session
    pub process : ProcessResult
    pub output : Fields
    pub coordinated : a.coordinator ≡ ok session
    pub ended : session.result ≡ ok process
    pub exited : has_failed process ≡ false
    pub read_from :
        validated_output t.loads
          (coordinator_keys c t a)
          process.structured_output
          process.stdout_lines
        ≡ ok output
    pub state : o.state ≡ str_of t.spelled (get "state" output)
    pub clean : a.final_status ≡ ok ""
    pub paths : List String
    pub changed : a.changed_after ≡ ok paths
    pub governed : assert_governance t.fnmatch c.governance.protected_paths paths ≡ ok tt
    pub baseline : String
    pub head : String
    pub before : Json
    pub after : Json
    pub began : (a.baseline ≡ ok baseline) × (a.snapshot ≡ ok before)
    pub now : (a.head_after ≡ ok head) × (a.after_snapshot ≡ ok after)
    pub honest :
        truthy (get "mutation" output) ≡ false → is_changed c t a baseline before head after ≡ false
    pub qualified :
        truthy (get "mutation" output) ≡ true → IsQualified process.session_id o.review_passed

  Returns-accept :
      (implementation : Option String) (p : ProcessResult)
      → Returns
          (λ _.
            (has_failed p ≡ false)
            × ((is_missing p.session_id ≡ false) × (is_reused implementation p.session_id ≡ false)))
          (accept_reviewer c t a implementation p)
  unfolding accept_reviewer
  Returns-accept implementation p = Returns-bind _ _ (Returns-throw_if _ _) λ _ f.
      Returns-bind _ _ (Returns-throw_if _ _) λ _ _.
        Returns-bind _ _ (Returns-throw_if _ _)
          λ _ m. Returns-imp _ (Returns-throw_if _ _) λ _ r. (f, (m, r))

  Returns-judge :
      (implementation : Option String) (p : ProcessResult)
      → Returns
          (λ passed.
            (v : Fields) × ((n : ℕ) × ((validated_output t.loads
                    (review_keys c t a)
                    p.structured_output
                    p.stdout_lines
                  ≡ ok v)
                × ((critical_findings (get "findings" v) ≡ ok n)
                    × (passed ≡ (
                        text_is (get "verdict" v) "pass"
                        && leb n c.review.maximum_critical_findings))))))
          (judge c t a implementation p)
  unfolding judge
  Returns-judge implementation p = Returns-bind _ _ (Returns-answer _) λ v q.
      Returns-bind _ _ (Returns-answer _)
        λ n m. Returns-bind _ _ (Returns-any _) λ _ _. Returns-give _ (v, (n, (q, (m, refl))))

  Returns-launch :
      Returns
        (λ p. (s : Session) × ((a.reviewer ≡ ok s) × (s.result ≡ ok p)))
        (launch_reviewer c t a)
  unfolding launch_reviewer
  Returns-launch = Returns-bind _ _ (Returns-answer _) λ session q.
      Returns-bind _ _ (Returns-any _)
        λ _ _. Returns-imp _ (Returns-answer _) λ p r. (session, (q, r))

  Returns-fail_review :
      {A : Type 0} {F : A → Type 0} (caught : Exception → Bool) (at : ℕ) (e : Exception)
      → Returns F (fail_review c t a {A = A} caught at e)
  unfolding fail_review
  Returns-fail_review caught at e = elim (Bool-cases (caught e)) [
    | inl y ↦ rw y (Returns-bind _ _ (Returns-any _) λ _ _. Returns-throw _)
    | inr n ↦ rw n (Returns-throw _)
  ]

  pub Returns-review :
      (implementation : Option String)
      → Returns (λ passed. passed ≡ true → IsReviewed implementation) (review c t a implementation)
  unfolding review
  Returns-review implementation = Returns-bind _ _ (Returns-any _) λ _ _.
      Returns-bind _ _ (Returns-catch _ _ Returns-launch (λ e. Returns-fail_review _ _ e)) λ p l.
        Returns-bind _ _ (Returns-any _) λ _ _. Returns-bind _ _ (Returns-any _) λ _ _.
          Returns-bind _ _ (Returns-any _) λ _ _.
            Returns-bind _ _ (Returns-accept implementation p) λ _ f.
              Returns-imp _ (Returns-judge implementation p) λ passed j h. record {
                session = l.0;
                process = p;
                verdict = j.0;
                launched = l.1.0;
                ended = l.1.1;
                exited = f.0;
                identified = f.1.0;
                independent = f.1.1;
                read_from = j.1.1.0;
                passed = ground (arith, j.1.1.1.1, h);
                critical = j.1.0;
                counted = j.1.1.1.0;
                few = ground (arith, j.1.1.1.1, h);
              }
