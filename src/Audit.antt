-- ===== src/Audit.antt =====
-- src/qas/governance_audit.py: which controls of the repository's governance are in place. What the `gh`
-- program answers, which files exist, and `json.loads` are parameters.
pub mod Laws
pub mod Controls
use qwen_autonomous_supervis.Prelude.{
  ℕ, String, str_eq, Bool, true, false, Option, none, some, ◌&&◌, ◌||◌, if◌then◌else◌, not,
}
use qwen_autonomous_supervis.Prelude.Int.{ℤ, pos, eq_ℤ, leb_ℤ}
use qwen_autonomous_supervis.Prelude.Text.{last_chars, strip}
use qwen_autonomous_supervis.Json.{
  Json, null, bool, int, real, str, arr, obj, Fields, get, lookup, as_object, truthy,
}
use qwen_autonomous_supervis.Errors.{Result, ok, err, attribute_error, ◌>>=◌}
use qwen_autonomous_supervis.Config.Values.{Builtins, get_or, int_value}

-- How a run of `gh` ended.
pub record GhRun : Type 0 where
  pub returncode : ℤ
  pub stdout : String
  pub stderr : String

-- What the audit asks: `shutil.which`, the two files, `gh repo view`, and the protection of a branch.
pub record Host : Type 0 where
  pub has_gh : Bool
  pub has_codeowners : Bool
  pub has_contract : Bool
  pub repo_view : GhRun
  pub protection_of : Json → Json → GhRun

-- The dictionary `checks`. A key that is not set reads as None.
pub record Checks : Type 0 where
  pub github_cli : Bool
  pub codeowners : Bool
  pub autonomy_contract : Bool
  pub remote_authenticated : Bool
  pub branch_protection_readable : Bool
  pub pull_request_reviews_required : Bool
  pub code_owner_reviews_required : Bool
  pub status_checks_required : Bool
  pub administrators_enforced : Bool
  pub bot_least_privilege : Bool
  pub repository : Json
  pub default_branch : Json
  pub viewer_permission : Json
  pub safe : Bool
  pub reason : Option String
  pub error : Option String

unfoldable pub initial : Host → Checks
initial h = record {
  github_cli = h.has_gh;
  codeowners = h.has_codeowners;
  autonomy_contract = h.has_contract;
  remote_authenticated = false;
  branch_protection_readable = false;
  pull_request_reviews_required = false;
  code_owner_reviews_required = false;
  status_checks_required = false;
  administrators_enforced = false;
  bot_least_privilege = false;
  repository = null;
  default_branch = null;
  viewer_permission = null;
  safe = false;
  reason = none;
  error = none;
}

abbrev pub unsafe_because : String → Option String → Checks → Checks
unsafe_because why text checks = record checks { safe = false; reason = some why; error = text }

abbrev entry_of : Option Fields → String → Option Json
entry_of none k = none
entry_of (some fs) k = lookup k fs

-- `value[key]`, None where it raises `KeyError` or `TypeError`.
abbrev item_of : Json → String → Option Json
item_of v k = entry_of (as_object v) k

pub record Metadata : Type 0 where
  pub owner_name : Json
  pub default_branch : Json
  pub viewer_permission : Json

abbrev and_then {ℓ ℓ'} : {A : Type ℓ} {B : Type ℓ'} → Option A → (A → Option B) → Option B
and_then none f = none
and_then (some a) f = f a

-- The `try` block over the repository's description.
unfoldable pub metadata : Option Json → Option Metadata
metadata parsed = and_then parsed λ repository.
    and_then (item_of repository "nameWithOwner") λ owner.
      and_then (item_of repository "defaultBranchRef") λ ref.
        and_then (item_of ref "name") λ branch.
          and_then (item_of repository "viewerPermission") λ permission.
            some (record {
              owner_name = owner;
              default_branch = branch;
              viewer_permission = permission;
            })

-- `viewer_permission == "WRITE"`
abbrev pub is_write : Json → Bool
is_write (str s) = str_eq s "WRITE"
is_write null = false
is_write (bool b) = false
is_write (int n) = false
is_write (real n) = false
is_write (arr xs) = false
is_write (obj fs) = false

abbrev pub with_repository : Metadata → Checks → Checks
with_repository m c = record c {
  remote_authenticated = true;
  repository = m.owner_name;
  default_branch = m.default_branch;
  viewer_permission = m.viewer_permission;
  bot_least_privilege = is_write m.viewer_permission;
}

abbrev pub required_count : Builtins → Option Fields → Result Bool
required_count py none = ok false
required_count py (some reviews) = do
  n ← int_value py (get_or "required_approving_review_count" (int (pos 0)) reviews)
  ok (leb_ℤ (pos 1) n)

-- `isinstance(value, dict) and bool(value.get(key))`
abbrev pub is_set : Option Fields → String → Bool
is_set none k = false
is_set (some fs) k = truthy (get k fs)

abbrev pub all_required : Checks → Bool
all_required c =
    c.codeowners && c.autonomy_contract && c.branch_protection_readable
    && c.pull_request_reviews_required && c.code_owner_reviews_required && c.status_checks_required
    && c.administrators_enforced && c.bot_least_privilege

-- `checks["safe"] = all(...)` and the reason.
abbrev pub conclude : Checks → Checks
conclude c =
    if all_required c
    then record c { safe = true }
    else record c { safe = false; reason = some "required_governance_control_missing" }

-- The checks with what the branch's protection says, and whether reviews are required.
abbrev pub with_protection : Fields → Bool → Checks → Checks
with_protection protection count c =
    let reviews = as_object (get "required_pull_request_reviews" protection) in
    let status = as_object (get "required_status_checks" protection) in
    let admins = as_object (get "enforce_admins" protection) in
    record c {
      branch_protection_readable = true;
      pull_request_reviews_required = count;
      code_owner_reviews_required = is_set reviews "require_code_owner_reviews";
      status_checks_required = is_set status "contexts" || is_set status "checks";
      administrators_enforced = is_set admins "enabled";
    }

unfoldable pub read_protection : Builtins → Fields → Checks → Result Checks
read_protection py protection c = do
  count ← required_count py (as_object (get "required_pull_request_reviews" protection))
  ok (conclude (with_protection protection count c))

-- `protection.get` of a value that is no mapping.
abbrev read_parsed : Builtins → Option Fields → Checks → Result Checks
read_parsed py none c = err (attribute_error "object has no attribute 'get'")
read_parsed py (some protection) c = read_protection py protection c

module _ (py : Builtins) (loads : String → Option Json) (h : Host) where
  abbrev protection_parsed : Option Json → Checks → Result Checks
  protection_parsed none c = ok (unsafe_because "invalid_branch_protection_json" none c)
  protection_parsed (some v) c = read_parsed py (as_object v) c

  unfoldable pub check_protection : GhRun → Checks → Result Checks
  check_protection run c =
      if eq_ℤ run.returncode (pos 0)
      then protection_parsed (loads (strip run.stdout)) c
      else ok (
          unsafe_because "branch_protection_unreadable" (some (last_chars 1000 (strip run.stderr)))
            c)

  abbrev with_metadata : Option Metadata → Checks → Result Checks
  with_metadata none c = ok (unsafe_because "invalid_repository_metadata" none c)
  with_metadata (some m) c =
      check_protection (h.protection_of m.owner_name m.default_branch) (with_repository m c)

  unfoldable pub audit_governance : Result Checks
  audit_governance =
      if h.has_gh
      then if eq_ℤ h.repo_view.returncode (pos 0)
        then with_metadata (metadata (loads (strip h.repo_view.stdout))) (initial h)
        else ok (
            unsafe_because "gh_unavailable" (some (last_chars 1000 (strip h.repo_view.stderr)))
              (initial h))
      else ok (unsafe_because "gh_not_installed" none (initial h))
