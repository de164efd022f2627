-- ===== src/Campaign/Finish.antt =====
-- The end of `run_campaign` in src/qas/campaign.py: what a campaign reports. The totals of
-- the usage, the moments and the report's file are parameters.
use qwen_autonomous_supervis.Prelude.{
  ℕ, ◌+◌, ltb, String, ◌≡◌, refl, ap, Bool, true, false, none, some, List, [], ◌∷◌, ◌++◌, ◌&&◌, not,
  Bool-cases, inl, inr, if◌then◌else◌, length, count, exists, select, descending, insert_by, str_eq,
  suc, arith, ◌∙◌,
}
use qwen_autonomous_supervis.Prelude.Int.{
  ℤ, pos, leb_ℤ, sub_ℕ, pos_part, neg_part, ◌+ℤ◌, +ℤ_parts, eq_of_parts,
}
use qwen_autonomous_supervis.Prelude.Text.{◌+s◌, decimal_ℤ}
use qwen_autonomous_supervis.Json.{Json, null, int, Fields, as_object}
use qwen_autonomous_supervis.Errors.{Result, ok, err, ◌>>=◌}
use qwen_autonomous_supervis.Errors.Holds.{Holds, holds, fails, Holds-any, Holds-bind, Holds-map}
use qwen_autonomous_supervis.Config.Values.{Builtins, get_or, int_value}
use qwen_autonomous_supervis.Ledger.{Ledger}
use qwen_autonomous_supervis.Ledger.Events.{Event, has_kind, no_details, append_event, event_count}
use qwen_autonomous_supervis.Ledger.Failures.{Failure, quarantined_in}
use qwen_autonomous_supervis.Ledger.Checkpoints.{set_checkpoint, get_checkpoint-set_checkpoint}
use qwen_autonomous_supervis.Campaign.{campaign_key, Campaign, active_campaign, unfinished}

-- The moments of the end, the totals of the usage at it, and the path of the report.
pub record Ending : Type 0 where
  pub finished_at : String
  pub duration : ℤ
  pub total_tokens : ℤ
  pub estimated_cost : ℤ
  pub report_path : String
  pub cleared_at : ℕ
  pub noted_at : ℕ

pub record CampaignResult : Type 0 where
  pub campaign_id : String
  pub started_at : String
  pub ending : Ending
  pub chaos_kills : ℤ
  pub successful_ticks : ℤ
  pub failed_ticks : ℤ
  pub reconciled_operations : ℤ
  pub quarantined_work : ℕ
  pub quarantined_host : ℕ
  pub duplicate_operations : ℤ
  pub expired_leases : ℤ
  pub recovered_runs : ℤ
  pub policy_violations : ℤ
  pub issues_completed : ℤ
  pub pull_requests_merged : ℤ
  pub self_discoveries : ℤ
  pub human_interventions : ℤ
  pub passed : Bool
  pub failures : List String

-- a - b
abbrev minus : ℤ → ℤ → ℤ
minus a b = sub_ℕ (pos_part a + neg_part b) (neg_part a + pos_part b)

-- `delta`: the events of a kind since the baseline.
unfoldable pub delta : Builtins → Fields → Ledger → String → Result ℤ
delta py before l kind = do
  earlier ← int_value py (get_or kind (int (pos 0)) before)
  ok (minus (pos (event_count kind l.events)) earlier)

abbrev falls_short : Campaign → ℤ → Bool
falls_short c successful = not (leb_ℤ c.minimum_successful_ticks successful)

-- The list `failures`, with the number of the host's quarantined failures.
abbrev failures_of : Campaign → ℤ → ℕ → List String
failures_of c successful host =
    (if falls_short c successful
      then ("successful ticks "
          +s decimal_ℤ successful
          +s " below required "
          +s decimal_ℤ c.minimum_successful_ticks)
        ∷ []
      else [])
    ++ (if ltb 0 host then "host failure is quarantined" ∷ [] else [])

abbrev no_failures : List String → Bool
no_failures [] = true
no_failures (f ∷ fs) = false

unfoldable pub result_of : Builtins → Campaign → Ending → Ledger → Result CampaignResult
result_of py c e l = do
  successful ← delta py c.before l "tick_finished"
  failed ← delta py c.before l "tick_failed"
  kills ← delta py c.before l "chaos_process_killed"
  reconciled ← delta py c.before l "operation_reconciled"
  duplicates ← delta py c.before l "operation_duplicate_detected"
  expired ← delta py c.before l "lease_expired"
  recovered ← delta py c.before l "run_recovered"
  violations ← delta py c.before l "policy_violation"
  issues ← delta py c.before l "issue_completed"
  merged ← delta py c.before l "pr_merged"
  discovered ← delta py c.before l "self_discovery_created"
  interventions ← delta py c.before l "failure_unquarantined"
  ok (record {
    campaign_id = c.campaign_id;
    started_at = c.started_at;
    ending = e;
    chaos_kills = kills;
    successful_ticks = successful;
    failed_ticks = failed;
    reconciled_operations = reconciled;
    quarantined_work = length (quarantined_in "work" l.failures);
    quarantined_host = length (quarantined_in "host" l.failures);
    duplicate_operations = duplicates;
    expired_leases = expired;
    recovered_runs = recovered;
    policy_violations = violations;
    issues_completed = issues;
    pull_requests_merged = merged;
    self_discoveries = discovered;
    human_interventions = interventions;
    passed = no_failures (failures_of c successful (length (quarantined_in "host" l.failures)));
    failures = failures_of c successful (length (quarantined_in "host" l.failures));
  })

-- The checkpoint is cleared and the end is noted. `as_dict` is `asdict` of the result.
unfoldable pub close : (CampaignResult → Json) → CampaignResult → Ledger → Ledger
close as_dict r l = record l {
  checkpoints = set_checkpoint r.ending.cleared_at campaign_key null l.checkpoints;
  events =
      (append_event r.ending.noted_at "campaign_finished"
        (record no_details {
          operation_key = some ("campaign:finish:" +s r.campaign_id);
          payload = as_dict r;
        })
        l.events).1;
}

-- `n` is the number of the events of a kind less the number that the baseline has for it.
abbrev pub IsCount : Builtins → Fields → List Event → String → ℤ → Type 0
IsCount py before events kind n =
    (earlier : ℤ) × (int_value py (get_or kind (int (pos 0)) before) ≡ ok earlier)
    × (n +ℤ earlier ≡ pos (count (λ (e : Event). str_eq e.kind kind) events))

-- A quarantined failure of the host.
abbrev pub is_host_quarantined : Failure → Bool
is_host_quarantined f = f.quarantined && str_eq f.scope "host"

-- The figures of the result are the log's, and the verdict is that of the ticks and of the failures.
abbrev pub IsFair : Builtins → Campaign → Ledger → CampaignResult → Type 0
IsFair py c l r =
    IsCount py c.before l.events "tick_finished" r.successful_ticks
    × IsCount py c.before l.events "tick_failed" r.failed_ticks
    × IsCount py c.before l.events "run_recovered" r.recovered_runs
    × IsCount py c.before l.events "policy_violation" r.policy_violations
    × IsCount py c.before l.events "operation_duplicate_detected" r.duplicate_operations
    × (r.passed ≡ (
        leb_ℤ c.minimum_successful_ticks r.successful_ticks
        && not (exists is_host_quarantined l.failures)))

minus_add : (a b : ℤ) → minus a b +ℤ b ≡ a
minus_add a b = eq_of_parts (minus a b +ℤ b) a (ground (arith, +ℤ_parts (minus a b) b))

delta-IsCount :
    (py : Builtins) (before : Fields) (l : Ledger) (kind : String)
    → Holds (IsCount py before l.events kind) (delta py before l kind)
unfolding delta event_count
delta-IsCount py before l kind =
    elim (int_value py (get_or kind (int (pos 0)) before))
        as (λ v.
          (int_value py (get_or kind (int (pos 0)) before) ≡ v)
          → Holds (IsCount py before l.events kind)
              (do earlier ← v; ok (minus (pos (count (has_kind kind) l.events)) earlier))) [
                | ok earlier ↦ λ e.
                    holds (earlier, e, minus_add (pos (count (has_kind kind) l.events)) earlier)
                | err x ↦ λ e. fails
              ]
      refl

length-insert_by :
    {A : Type 0} (key : A → ℕ) (x : A) (ys : List A) → length (insert_by key x ys) ≡ suc (length ys)
length-insert_by key x [] = refl
length-insert_by key x (y ∷ ys) = ground (arith, length-insert_by key x ys)

length-descending :
    {A : Type 0} (key : A → ℕ) (xs : List A) → length (descending key xs) ≡ length xs
length-descending key [] = refl
length-descending key (x ∷ xs) =
    omega (arith, length-insert_by key x (descending key xs), length-descending key xs)

some_selected :
    {A : Type 0} (p : A → Bool) (xs : List A) → ltb 0 (length (select p xs)) ≡ exists p xs
some_selected p [] = refl
some_selected p (x ∷ xs) = ground (arith, some_selected p xs)

host_lem :
    (fs : List Failure) → ltb 0 (length (quarantined_in "host" fs)) ≡ exists is_host_quarantined fs
unfolding quarantined_in
host_lem fs =
    rw (length-descending (λ (f : Failure). f.last_seen) (select is_host_quarantined fs))
      (some_selected is_host_quarantined fs)

no_failures_lem :
    (c : Campaign) (successful : ℤ) (host : ℕ)
    → no_failures (failures_of c successful host)
      ≡ (leb_ℤ c.minimum_successful_ticks successful && not (ltb 0 host))
no_failures_lem c successful host =
    elim (Bool-cases (leb_ℤ c.minimum_successful_ticks successful)) [
      | inl y ↦ elim (Bool-cases (ltb 0 host)) [ inl h ↦ rw (y, h) refl | inr h ↦ rw (y, h) refl ]
      | inr n ↦ rw n refl
    ]

passed_lem :
    (c : Campaign) (successful : ℤ) (fs : List Failure)
    → no_failures (failures_of c successful (length (quarantined_in "host" fs)))
      ≡ (leb_ℤ c.minimum_successful_ticks successful && not (exists is_host_quarantined fs))
passed_lem c successful fs =
    no_failures_lem c successful (length (quarantined_in "host" fs))
    ∙ ap (λ b. leb_ℤ c.minimum_successful_ticks successful && not b) (host_lem fs)

result_of-IsFair :
    (py : Builtins) (c : Campaign) (e : Ending) (l : Ledger)
    → Holds (IsFair py c l) (result_of py c e l)
unfolding result_of
result_of-IsFair py c e l =
    Holds-bind (delta py c.before l "tick_finished") _ (delta-IsCount py c.before l "tick_finished")
      λ successful a.
        Holds-bind (delta py c.before l "tick_failed") _ (delta-IsCount py c.before l "tick_failed")
          λ failed b. Holds-any (delta py c.before l "chaos_process_killed") _ λ kills.
            Holds-any (delta py c.before l "operation_reconciled") _ λ reconciled.
              Holds-bind (delta py c.before l "operation_duplicate_detected") _
                (delta-IsCount py c.before l "operation_duplicate_detected")
                λ duplicates d. Holds-any (delta py c.before l "lease_expired") _ λ expired.
                  Holds-bind (delta py c.before l "run_recovered") _
                    (delta-IsCount py c.before l "run_recovered")
                    λ recovered f.
                      Holds-bind (delta py c.before l "policy_violation") _
                        (delta-IsCount py c.before l "policy_violation")
                        λ violations g.
                          Holds-any (delta py c.before l "issue_completed") _ λ issues.
                            Holds-any (delta py c.before l "pr_merged") _ λ merged.
                              Holds-any (delta py c.before l "self_discovery_created") _
                                λ discovered.
                                  Holds-any (delta py c.before l "failure_unquarantined") _
                                    λ interventions.
                                      holds (a, b, f, g, d, passed_lem c successful l.failures)

-- A result of `run_campaign` reports as successful ticks, failed ticks, recovered runs, policy violations and
-- duplicate operations the events of these kinds in the log less those of the baseline; it is passed exactly
-- if there are at least as many successful ticks as required and no failure of the host is quarantined in the
-- ledger; and once the campaign is closed no moment finds an unfinished campaign to take up.
pub close-IsFair :
    (py : Builtins) (as_dict : CampaignResult → Json) (c : Campaign) (e : Ending) (l : Ledger)
    → Holds
        (λ (r : CampaignResult).
          IsFair py c l r × ((now : ℕ) → active_campaign now (close as_dict r l) ≡ none))
        (result_of py c e l)
unfolding active_campaign close
close-IsFair py as_dict c e l =
    Holds-map
      (λ r fair. (
        fair,
        λ now.
            ap (λ v. unfinished now (as_object v))
              (get_checkpoint-set_checkpoint r.ending.cleared_at campaign_key campaign_key null
                l.checkpoints),
      ))
      (result_of-IsFair py c e l)
