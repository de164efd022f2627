-- ===== src/Examples/Access.antt =====
-- The slots of the leases, the audit of the repository's governance and the HTTP server on concrete inputs.
use qwen_autonomous_supervis.Prelude.{
  ◌≡◌, ◌⊎◌, refl, String, true, false, Option, none, some, List, [], ◌∷◌, ℕ, is_some, str_eq,
  if◌then◌else◌,
}
use qwen_autonomous_supervis.Prelude.Int.{pos}
use qwen_autonomous_supervis.Errors.{ok}
use qwen_autonomous_supervis.Ledger.Leases.Exclusion.{Call, acquire, release, perform_all}
use qwen_autonomous_supervis.Ledger.Leases.Refinement.{slot_of, run, slot_of-perform_all}
use qwen_autonomous_supervis.Audit.{
  Host, GhRun, Checks, initial, metadata, read_protection, check_protection, audit_governance,
}
use qwen_autonomous_supervis.Audit.Controls.{IsGoverned, audit_governance-IsGoverned}
use qwen_autonomous_supervis.Json.{Json, bool, int, str, arr, obj, nil, cons, field, end}
use qwen_autonomous_supervis.Prelude.Text.{strip}
use qwen_autonomous_supervis.Config.Values.{int_value}
use qwen_autonomous_supervis.Http.{do_get, serve, loopback, token_of}
use qwen_autonomous_supervis.Http.Laws.{IsGuarded, serve-IsGuarded}
use qwen_autonomous_supervis.Examples.Guards.{python}

-- Two processes and one coordinator's lease.
abbrev calls : List (ℕ × Call)
calls =
    (0, acquire "coordinator" "a" 600 none)
    ∷ (5, acquire "coordinator" "b" 600 none)
    ∷ (9, release "coordinator" "a")
    ∷ (10, acquire "coordinator" "b" 600 none)
    ∷ []

slot_of-perform_all_example :
    slot_of "coordinator" (perform_all calls []) ≡ run calls "coordinator" none
slot_of-perform_all_example = slot_of-perform_all calls "coordinator" [] tt

abbrev described : GhRun
described = record { returncode = pos 0; stdout = "repository"; stderr = "" }

abbrev protection : GhRun
protection = record { returncode = pos 0; stdout = "protection"; stderr = "" }

abbrev host : Host
host = record {
  has_gh = true;
  has_codeowners = true;
  has_contract = true;
  repo_view = described;
  protection_of = λ owner branch. protection;
}

abbrev repository : Json
repository = obj (
    field "nameWithOwner" (str "sfeirc/app") (
      field "defaultBranchRef" (obj (field "name" (str "main") end))
        (field "viewerPermission" (str "WRITE") end)))

abbrev protected : Json
protected = obj (
    field "required_pull_request_reviews"
      (obj (
        field "required_approving_review_count" (int (pos 2))
          (field "require_code_owner_reviews" (bool true) end)))
      (field "required_status_checks" (obj (field "contexts" (arr (cons (str "tests") nil)) end))
        (field "enforce_admins" (obj (field "enabled" (bool true) end)) end)))

abbrev parse : String → Option Json
parse s = if str_eq s "repository" then some repository else some protected

abbrev verdict : Checks
verdict = record {
  github_cli = true;
  codeowners = true;
  autonomy_contract = true;
  remote_authenticated = true;
  branch_protection_readable = true;
  pull_request_reviews_required = true;
  code_owner_reviews_required = true;
  status_checks_required = true;
  administrators_enforced = true;
  bot_least_privilege = true;
  repository = str "sfeirc/app";
  default_branch = str "main";
  viewer_permission = str "WRITE";
  safe = true;
  reason = none;
  error = none;
}

audited : audit_governance python parse host ≡ ok verdict
unfolding initial metadata read_protection check_protection audit_governance strip int_value
audited = refl

audit_governance-IsGoverned_example :
    IsGoverned python parse host × (is_some {A = String} none ≡ false)
audit_governance-IsGoverned_example =
    audit_governance-IsGoverned python parse host verdict audited refl

serves : serve (λ s. s) (λ s. none) "0.0.0.0" (some "secret") ≡ ok (do_get (some "secret"))
unfolding serve
serves = refl

serve-IsGuarded_example :
    (loopback (λ s. s) (λ s. none) "0.0.0.0" ≡ true)
    ⊎ ((t : String) × (token_of (some "secret") ≡ some t) × IsGuarded (do_get (some "secret")) t)
serve-IsGuarded_example =
    serve-IsGuarded (λ s. s) (λ s. none) "0.0.0.0" (some "secret") (do_get (some "secret")) serves
