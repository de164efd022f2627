-- ===== src/Runtime/Tick/Verified.antt =====
-- A successful tick of src/qas/runtime.py has passed every test that the code makes of it.
use qwen_autonomous_supervis.Prelude.{
  String, eq_iff, ◌≡◌, refl, sym, ap, ◌∙◌, inl, inr, Bool, true, false, Option, some, List, [], ◌∷◌,
  ◌&&◌, not, All, Bool-cases, arith, if◌then◌else◌,
}
use qwen_autonomous_supervis.Json.{Json, Fields, get, truthy}
use qwen_autonomous_supervis.Errors.{Exception, Result, ok, err, text}
use qwen_autonomous_supervis.Effects.Returns.{
  Yields, Returns, Yields-ok, Returns-bind, Returns-any, Returns-answer, Returns-give,
  Returns-throw, Returns-catch, Returns-finally, Returns-throw_if, Returns-imp,
}
use qwen_autonomous_supervis.Config.{SupervisorConfig, GateConfig}
use qwen_autonomous_supervis.Policy.{assert_governance}
use qwen_autonomous_supervis.Ledger.{Ledger}
use qwen_autonomous_supervis.Qwen.{ProcessResult, Session}
use qwen_autonomous_supervis.Qwen.Output.{validated_output}
use qwen_autonomous_supervis.Runtime.Answers.{Answers, Tools, TickOutcome}
use qwen_autonomous_supervis.Runtime.Tick.Steps.{Tick, str_of}
use qwen_autonomous_supervis.Runtime.Tick.Phases.{
  prepare, coordinate, inspect, verify, run_gates, is_changed, is_empty, has_failed,
  coordinator_keys,
}
use qwen_autonomous_supervis.Runtime.Evidence.{
  Reaction, pauses, blocks, violates, breaks, fails, escapes, reaction,
}
use qwen_autonomous_supervis.Runtime.Tick.Handler.{
  recover_from, pause, fail_tick, await_dependency, count_and_wait, may_be_transient,
}
use qwen_autonomous_supervis.Runtime.Tick.Run.{
  demand_review, qualify, finish_tick, work, supervise, busy, begin, note_start, tick,
}
use qwen_autonomous_supervis.Runtime.Tick.Success.{
  IsReviewed, HasPassed, IsQualified, IsVerified, Returns-review,
}

module _ (c : SupervisorConfig) (t : Tools) (a : Answers) where
  Returns-gates :
      (gs : List GateConfig) → Returns (λ _. All (HasPassed c t a) gs) (run_gates c t a gs)
  unfolding run_gates
  Returns-gates [] = Returns-give _ tt
  Returns-gates (g ∷ gs) = Returns-bind _ _ (Returns-answer _) λ run q.
      Returns-bind _ _ (Returns-any _) λ _ _. Returns-bind _ _ (Returns-throw_if _ _) λ _ p.
        Returns-bind _ _ (Returns-gates gs) λ _ rest.
          Returns-give _ (record { run = run; answered = q; passed = ground (arith, p) }, rest)

  is_empty-eq : (vs : List Json) → not (is_empty c t a vs) ≡ false → vs ≡ []
  is_empty-eq [] h = refl
  is_empty-eq (v ∷ vs) h = cc

  abbrev Scanned : Type 0
  Scanned =
      (d : String) × ((a.diff ≡ ok d)
        × ((t.scan_added_secrets d ≡ []) × All (HasPassed c t a) c.quality_gates))

  Returns-verify : Returns (λ _. Scanned) (verify c t a)
  unfolding verify
  Returns-verify = Returns-bind _ _ (Returns-answer _) λ diff q.
      Returns-bind _ _ (Returns-any _) λ _ _. Returns-bind _ _ (Returns-throw_if _ _) λ _ p.
        Returns-bind _ _ (Returns-gates c.quality_gates)
          λ _ gates. Returns-give _ (diff, (q, (is_empty-eq _ p, gates)))

  Returns-demand :
      (output : Fields) (p : ProcessResult)
      → Returns
          (λ passed. (passed ≡ some true) × IsReviewed c t a p.session_id)
          (demand_review c t a output p)
  unfolding demand_review
  Returns-demand output p = Returns-bind _ _ (Returns-any _) λ _ _.
      Returns-bind _ _ (Returns-review c t a p.session_id) λ passed r.
        Returns-bind _ _ (Returns-throw_if _ _)
          λ _ n. let yes : passed ≡ true = ground (arith, n) in Returns-give _ (ap some yes, r yes)

  Returns-qualify :
      (output : Fields) (p : ProcessResult) (mutation : Bool)
      → Returns
          (λ passed. mutation ≡ true → IsQualified c t a p.session_id passed)
          (qualify c t a output p mutation)
  unfolding qualify
  Returns-qualify output p true = Returns-bind _ _ Returns-verify λ _ v.
      elim (Bool-cases c.review.enabled) [
        | inl on ↦ simp on (
            Returns-imp _ (Returns-demand output p) λ passed d _. record {
              diff = v.0;
              changed = v.1.0;
              clean = v.1.1.0;
              gates = v.1.1.1;
              reviewed = λ _. d;
            })
        | inr off ↦ simp off (
            Returns-give _ λ _. record {
              diff = v.0;
              changed = v.1.0;
              clean = v.1.1.0;
              gates = v.1.1.1;
              reviewed = λ on. cc off;
            })
      ]
  Returns-qualify output p false = Returns-give _ (λ h. cc)

  abbrev Begun : String × Json → Type 0
  Begun b = (a.baseline ≡ ok b.0) × (a.snapshot ≡ ok b.1)

  Returns-prepare : Returns Begun (prepare c t a)
  unfolding prepare
  Returns-prepare = Returns-bind _ _ (Returns-any _) λ _ _. Returns-bind _ _ (Returns-any _) λ _ _.
      Returns-bind _ _ (Returns-answer _) λ baseline q. Returns-bind _ _ (Returns-any _) λ _ _.
        Returns-bind _ _ (Returns-any _) λ _ _. Returns-bind _ _ (Returns-any _) λ _ _.
          Returns-bind _ _ (Returns-any _) λ _ _. Returns-bind _ _ (Returns-any _) λ _ _.
            Returns-bind _ _ (Returns-any _) λ _ _. Returns-bind _ _ (Returns-any _) λ _ _.
              Returns-bind _ _ (Returns-any _) λ _ _.
                Returns-bind _ _ (Returns-answer _)
                  λ snapshot r. Returns-bind _ _ (Returns-any _) λ _ _. Returns-give _ (q, r)

  abbrev Coordinated : ProcessResult → Type 0
  Coordinated p =
      (s : Session) × ((a.coordinator ≡ ok s) × ((s.result ≡ ok p) × (has_failed p ≡ false)))

  Returns-coordinate : Returns Coordinated (coordinate c t a)
  unfolding coordinate
  Returns-coordinate = Returns-bind _ _ (Returns-any _) λ _ _.
      Returns-bind _ _ (Returns-any _) λ _ _. Returns-bind _ _ (Returns-answer _) λ session q.
        Returns-bind _ _ (Returns-any _) λ _ _. Returns-bind _ _ (Returns-answer _) λ p r.
          Returns-bind _ _ (Returns-any _) λ _ _. Returns-bind _ _ (Returns-any _) λ _ _.
            Returns-bind _ _ (Returns-any _) λ _ _. Returns-bind _ _ (Returns-any _) λ _ _.
              Returns-bind _ _ (Returns-throw_if _ _)
                λ _ f. Returns-bind _ _ (Returns-any _) λ _ _. Returns-give _ (session, (q, (r, f)))

  -- What the inspection of the coordinator's output has seen.
  record Inspected (baseline : String) (before : Json) (p : ProcessResult) (output : Fields)
      : Type 0 where
    read_from :
        validated_output t.loads (coordinator_keys c t a) p.structured_output p.stdout_lines
        ≡ ok output
    clean : a.final_status ≡ ok ""
    paths : List String
    changed : a.changed_after ≡ ok paths
    governed : assert_governance t.fnmatch c.governance.protected_paths paths ≡ ok tt
    head : String
    after : Json
    now : (a.head_after ≡ ok head) × (a.after_snapshot ≡ ok after)
    honest :
        truthy (get "mutation" output) ≡ false → is_changed c t a baseline before head after ≡ false

  Returns-inspect :
      (b : String × Json) (p : ProcessResult) → Returns (Inspected b.0 b.1 p) (inspect c t a b p)
  unfolding inspect
  Returns-inspect b p = Returns-bind _ _ (Returns-answer _) λ output q.
      Returns-bind _ _ (Returns-any _) λ _ _. Returns-bind _ _ (Returns-answer _) λ status r.
        Returns-bind _ _ (Returns-throw_if _ _) λ _ n.
          Returns-bind _ _ (Returns-answer _) λ paths s. Returns-bind _ _ (Returns-answer _) λ u g.
            Returns-bind _ _ (Returns-answer _) λ after x. Returns-bind _ _ (Returns-any _) λ _ _.
              Returns-bind _ _ (Returns-answer _) λ head y.
                Returns-bind _ _ (Returns-throw_if _ _) λ _ z.
                  Returns-bind _ _ (Returns-any _) λ _ _.
                    let empty : status ≡ "" = (eq_iff status "").0 (ground (arith, n)) in
                    Returns-give _ (record {
                      read_from = q;
                      clean = r ∙ ap ok empty;
                      paths = paths;
                      changed = s;
                      governed = g;
                      head = head;
                      after = after;
                      now = (y, x);
                      honest = λ m. ground (arith, z, m);
                    })

  Returns-finish :
      (output : Fields) (passed : Option Bool)
      → Returns
          (λ o. (o.state ≡ str_of t.spelled (get "state" output)) × (o.review_passed ≡ passed))
          (finish_tick c t a output passed)
  unfolding finish_tick
  Returns-finish output passed = Returns-bind _ _ (Returns-any _) λ _ _.
      Returns-bind _ _ (Returns-any _)
        λ _ _. Returns-bind _ _ (Returns-any _) λ _ _. Returns-give _ (refl, refl)

  Returns-work : Returns (IsVerified c t a) (work c t a)
  unfolding work
  Returns-work = Returns-bind _ _ Returns-prepare λ b began.
      Returns-bind _ _ Returns-coordinate λ p ran.
        Returns-bind _ _ (Returns-inspect b p) λ output i.
          Returns-bind _ _ (Returns-qualify output p (truthy (get "mutation" output))) λ passed k.
            Returns-imp _ (Returns-finish output passed) λ o f. record {
              session = ran.0;
              process = p;
              output = output;
              coordinated = ran.1.0;
              ended = ran.1.1.0;
              exited = ran.1.1.1;
              read_from = i.read_from;
              state = f.0;
              clean = i.clean;
              paths = i.paths;
              changed = i.changed;
              governed = i.governed;
              baseline = b.0;
              head = i.head;
              before = b.1;
              after = i.after;
              began = began;
              now = i.now;
              honest = i.honest;
              qualified = λ m. rw f.1 (k m);
            }

  abbrev Sound : TickOutcome → Type 0
  Sound o = o.success ≡ true → IsVerified c t a o

  -- An outcome of the `except` clauses is no success.
  unsuccessful-Sound : (m : Tick TickOutcome) → Returns (λ o. o.success ≡ false) m → Returns Sound m
  unsuccessful-Sound m h = Returns-imp _ h λ o n y. cc (n, y)

  Returns-pause : (e : Exception) → Returns (λ o. o.success ≡ false) (pause c t a e)
  unfolding pause
  Returns-pause e = Returns-bind _ _ (Returns-any _) λ _ _. Returns-bind _ _ (Returns-any _) λ _ _.
      Returns-bind _ _ (Returns-any _)
        λ _ _. Returns-bind _ _ (Returns-any _) λ _ _. Returns-give _ refl

  Returns-await : (e : Exception) → Returns (λ o. o.success ≡ false) (await_dependency c t a e)
  unfolding await_dependency
  Returns-await e = Returns-bind _ _ (Returns-any _) λ _ _.
      Returns-bind _ _ (Returns-any _)
        λ _ _. Returns-bind _ _ (Returns-any _) λ _ _. Returns-give _ refl

  Returns-count : (e : Exception) → Returns (λ o. o.success ≡ false) (count_and_wait c t a e)
  unfolding count_and_wait
  Returns-count e = Returns-bind _ _ (Returns-any _) λ _ _. Returns-bind _ _ (Returns-any _) λ _ _.
      Returns-bind _ _ (Returns-any _) λ _ _. Returns-bind _ _ (Returns-any _) λ _ _.
        Returns-bind _ _ (Returns-any _)
          λ _ _. Returns-bind _ _ (Returns-any _) λ _ _. Returns-give _ refl

  Returns-fail : (e : Exception) → Returns (λ o. o.success ≡ false) (fail_tick c t a e)
  unfolding fail_tick
  Returns-fail e = Returns-bind _ _ (Returns-any _) λ _ _.
      elim (Bool-cases (may_be_transient (reaction e) && t.is_transient (text e))) [
        | inl y ↦ rw y (Returns-await e)
        | inr n ↦ rw n (Returns-count e)
      ]

  Returns-recover :
      (e : Exception) (r : Reaction) → Returns (λ o. o.success ≡ false) (recover_from c t a e r)
  unfolding recover_from
  Returns-recover e pauses = Returns-pause e
  Returns-recover e escapes = Returns-throw _
  Returns-recover e blocks = Returns-fail e
  Returns-recover e violates = Returns-fail e
  Returns-recover e breaks = Returns-fail e
  Returns-recover e fails = Returns-fail e

  Returns-supervise : Returns Sound (supervise c t a)
  unfolding supervise
  Returns-supervise = Returns-bind _ _ (Returns-any _) λ _ _. Returns-finally _ _ (
      Returns-catch _ _ (Returns-imp _ Returns-work λ o v _. v)
        (λ e. unsuccessful-Sound _ (Returns-recover e _)))

  -- If a tick returns a success, then the coordinator's process ended with exit code 0 and its output
  -- was validated, and the outcome has that output's state; the worktree was clean; the paths changed
  -- since the tick began passed the test of protected paths; an output that reports no mutation left
  -- the head and the GitHub snapshot as they were; and if it reports one, the secret scan of the diff
  -- found nothing, every configured gate was run and passed and, if review is enabled, a reviewer
  -- whose session is not the coordinator's passed the change with no more critical findings than
  -- allowed.
  pub success-IsVerified :
      (l : Ledger) (o : TickOutcome)
      → (tick c t a l).0 ≡ ok o
      → o.success ≡ true
      → IsVerified c t a o
  unfolding tick
  success-IsVerified l o h y = split _ a.start_noted _ l (Returns-supervise.at _) h
    where
      split :
          (held : Bool) (noted : Result (Unit {0})) (x z : Ledger)
          → Yields Sound (supervise c t a (begin c t a x)).0
          → (if◌then◌else◌ {A = Result TickOutcome × Ledger} held
              (note_start c t a noted x)
              (ok (busy c t a), z)).0
            ≡ ok o
          → IsVerified c t a o
      split true (ok u) x z k q = Yields-ok {F = Sound} (rw (sym q) k) y
      split true (err e) x z k q = cc
      split false noted x z k q = cc (q, y)
