-- ===== src/Audit/Controls.antt =====
-- What is in place in a repository that src/qas/governance_audit.py calls safe, read from what the host answers.
use mathlib.Core.Path.{subst}
use qwen_autonomous_supervis.Prelude.{
  String, eq_iff, is_some, not, ◌∙◌, ◌≡◌, refl, ap, Bool, true, false, Option, none, some, ◌&&◌,
  ◌||◌, if◌then◌else◌, arith,
}
use qwen_autonomous_supervis.Prelude.Int.{ℤ, pos, eq_ℤ, leb_ℤ}
use qwen_autonomous_supervis.Prelude.Text.{strip}
use qwen_autonomous_supervis.Json.{
  Json, null, bool, int, real, str, arr, obj, Fields, get, as_object, truthy,
}
use qwen_autonomous_supervis.Errors.{ok}
use qwen_autonomous_supervis.Errors.Holds.{
  Holds, holds, fails, Holds-bind, Holds-self, Holds-cases, Holds-ok,
}
use qwen_autonomous_supervis.Config.Values.{Builtins, get_or, int_value}
use qwen_autonomous_supervis.Audit.Laws.{IsJudged, audit_governance-IsJudged}
use qwen_autonomous_supervis.Audit.{
  Host, Checks, initial, Metadata, metadata, is_write, is_set, all_required, conclude,
  with_protection, with_repository, read_protection, read_parsed, protection_parsed,
  check_protection, with_metadata, audit_governance, required_count,
}

-- A mapping whose entry is set.
abbrev pub IsOn : Json → String → Type 0
IsOn v k = (fs : Fields) × (as_object v ≡ some fs) × (truthy (get k fs) ≡ true)

-- Pull requests need the approval of a reviewer at least.
abbrev pub IsReviewed : Builtins → Json → Type 0
IsReviewed py v =
    (fs : Fields) × (as_object v ≡ some fs)
    × (n : ℤ) × (int_value py (get_or "required_approving_review_count" (int (pos 0)) fs) ≡ ok n)
    × (leb_ℤ (pos 1) n ≡ true)

-- What the protection of a branch asks for.
abbrev pub IsProtected : Builtins → Fields → Type 0
IsProtected py protection =
    let reviews = get "required_pull_request_reviews" protection in
    let status = get "required_status_checks" protection in
    IsReviewed py reviews
    × IsOn reviews "require_code_owner_reviews"
    × ((fs : Fields) × (as_object status ≡ some fs)
        × ((truthy (get "contexts" fs) || truthy (get "checks" fs)) ≡ true))
    × IsOn (get "enforce_admins" protection) "enabled"

-- `gh` is installed, both files are there, `gh` describes the repository to a user who may write and no more,
-- and the protection of its default branch can be read and asks for everything.
pub record IsGoverned (py : Builtins) (loads : String → Option Json) (h : Host) : Type 0 where
  gh : h.has_gh ≡ true
  codeowners : h.has_codeowners ≡ true
  contract : h.has_contract ≡ true
  described : eq_ℤ h.repo_view.returncode (pos 0) ≡ true
  about : Metadata
  read : metadata (loads (strip h.repo_view.stdout)) ≡ some about
  permission : about.viewer_permission ≡ str "WRITE"
  shown : eq_ℤ (h.protection_of about.owner_name about.default_branch).returncode (pos 0) ≡ true
  parsed : Json
  parses :
      loads (strip (h.protection_of about.owner_name about.default_branch).stdout) ≡ some parsed
  protection : Fields
  mapping : as_object parsed ≡ some protection
  protected : IsProtected py protection

is_write_lem : (v : Json) → is_write v ≡ true → v ≡ str "WRITE"
is_write_lem (str s) h = ap str ((eq_iff s "WRITE").0 h)
is_write_lem null h = cc
is_write_lem (bool b) h = cc
is_write_lem (int n) h = cc
is_write_lem (real n) h = cc
is_write_lem (arr xs) h = cc
is_write_lem (obj fs) h = cc

is_set_lem :
    (o : Option Fields) (k : String)
    → is_set o k ≡ true
    → (fs : Fields) × (o ≡ some fs) × (truthy (get k fs) ≡ true)
is_set_lem none k h = cc
is_set_lem (some fs) k h = (fs, refl, h)

either_set :
    (o : Option Fields) (j k : String)
    → (is_set o j || is_set o k) ≡ true
    → (fs : Fields) × (o ≡ some fs) × ((truthy (get j fs) || truthy (get k fs)) ≡ true)
either_set none j k h = cc
either_set (some fs) j k h = (fs, refl, h)

all_eight :
    (a b c d e f g h : Bool)
    → (a && b && c && d && e && f && g && h) ≡ true
    → (a ≡ true) × (b ≡ true) × (d ≡ true) × (e ≡ true) × (f ≡ true) × (g ≡ true) × (h ≡ true)
all_eight a b c d e f g h y = ground arith

required_count_lem :
    (py : Builtins) (o : Option Fields)
    → Holds
        (λ b.
          b ≡ true
          → (fs : Fields) × (o ≡ some fs)
            × (n : ℤ) × (int_value py (get_or "required_approving_review_count" (int (pos 0)) fs)
                ≡ ok n)
            × (leb_ℤ (pos 1) n ≡ true))
        (required_count py o)
required_count_lem py none = holds (λ h. cc)
required_count_lem py (some fs) =
    Holds-bind _ _
      (Holds-self (int_value py (get_or "required_approving_review_count" (int (pos 0)) fs)))
      λ n e. holds (λ y. (fs, refl, n, e, y))

conclude_safe : (c : Checks) → (conclude c).safe ≡ true → all_required c ≡ true
conclude_safe c h = go (all_required c) h
  where
    go :
        (b : Bool)
        → (if b then record c { safe = true } else record c {
          safe = false;
          reason = some "required_governance_control_missing";
        }).safe
          ≡ true
        → b ≡ true
    go true h = refl
    go false h = h

module _ (py : Builtins) (loads : String → Option Json) (h : Host) where
  -- A verdict that vouches for the host.
  abbrev IsSound : Checks → Type 0
  IsSound c = c.safe ≡ true → IsGoverned py loads h

  concluded-IsSound :
      (m : Metadata) (v : Json) (fs : Fields) (count : Bool)
      → h.has_gh ≡ true
      → eq_ℤ h.repo_view.returncode (pos 0) ≡ true
      → metadata (loads (strip h.repo_view.stdout)) ≡ some m
      → eq_ℤ (h.protection_of m.owner_name m.default_branch).returncode (pos 0) ≡ true
      → loads (strip (h.protection_of m.owner_name m.default_branch).stdout) ≡ some v
      → as_object v ≡ some fs
      → (count ≡ true → IsReviewed py (get "required_pull_request_reviews" fs))
      → IsSound (conclude (with_protection fs count (with_repository m (initial h))))
  unfolding initial
  concluded-IsSound m v fs count gh described read shown parses mapping counted safe =
      let (owners, contract, reviews, code, status, admins, bot) =
        all_eight _ _ _ _ _ _ _ _
          (conclude_safe (with_protection fs count (with_repository m (initial h))) safe) in
      record {
        gh = gh;
        codeowners = owners;
        contract = contract;
        described = described;
        about = m;
        read = read;
        permission = is_write_lem m.viewer_permission bot;
        shown = shown;
        parsed = v;
        parses = parses;
        protection = fs;
        mapping = mapping;
        protected = (
          counted reviews,
          is_set_lem _ "require_code_owner_reviews" code,
          either_set _ "contexts" "checks" status,
          is_set_lem _ "enabled" admins,
        );
      }

  module _ (m : Metadata) (gh : h.has_gh ≡ true)
      (described : eq_ℤ h.repo_view.returncode (pos 0) ≡ true)
      (read : metadata (loads (strip h.repo_view.stdout)) ≡ some m)
      (shown : eq_ℤ (h.protection_of m.owner_name m.default_branch).returncode (pos 0) ≡ true) where
    read_parsed-IsSound :
        (v : Json) (o : Option Fields)
        → loads (strip (h.protection_of m.owner_name m.default_branch).stdout) ≡ some v
        → as_object v ≡ o
        → Holds IsSound (read_parsed py o (with_repository m (initial h)))
    unfolding read_protection
    read_parsed-IsSound v none parses mapping = fails
    read_parsed-IsSound v (some fs) parses mapping =
        Holds-bind _ _ (required_count_lem py (as_object (get "required_pull_request_reviews" fs)))
          λ count counted.
            holds {a = conclude (with_protection fs count (with_repository m (initial h)))}
              (concluded-IsSound m v fs count gh described read shown parses mapping counted)

    protection_parsed-IsSound :
        (parsed : Option Json)
        → loads (strip (h.protection_of m.owner_name m.default_branch).stdout) ≡ parsed
        → Holds IsSound (protection_parsed py loads h parsed (with_repository m (initial h)))
    protection_parsed-IsSound none parses = holds (λ safe. cc)
    protection_parsed-IsSound (some v) parses = read_parsed-IsSound v (as_object v) parses refl

  with_metadata-IsSound :
      (o : Option Metadata)
      → h.has_gh ≡ true
      → eq_ℤ h.repo_view.returncode (pos 0) ≡ true
      → metadata (loads (strip h.repo_view.stdout)) ≡ o
      → Holds IsSound (with_metadata py loads h o (initial h))
  unfolding check_protection
  with_metadata-IsSound none gh described read = holds (λ safe. cc)
  with_metadata-IsSound (some m) gh described read =
      Holds-cases (eq_ℤ (h.protection_of m.owner_name m.default_branch).returncode (pos 0))
        (λ shown. protection_parsed-IsSound m gh described read shown _ refl)
        (λ hidden. holds (λ safe. cc))

  audit_governance-IsSound : Holds IsSound (audit_governance py loads h)
  unfolding audit_governance
  audit_governance-IsSound =
      Holds-cases h.has_gh
        (λ gh.
          Holds-cases (eq_ℤ h.repo_view.returncode (pos 0))
            (λ described. with_metadata-IsSound _ gh described refl)
            (λ refused. holds (λ safe. cc)))
        (λ missing. holds (λ safe. cc))

  -- If a returned audit calls the repository safe, then `gh` is installed, CODEOWNERS and the autonomy contract
  -- are there, `gh repo view` succeeded with the permission `WRITE`, and the protection of the default branch
  -- was read and requires at least one approval, reviews of code owners, status checks, and all this of the
  -- administrators too; and the audit gives no reason against it.
  pub audit_governance-IsGoverned :
      (c : Checks)
      → audit_governance py loads h ≡ ok c
      → c.safe ≡ true
      → IsGoverned py loads h × (is_some c.reason ≡ false)
  audit_governance-IsGoverned c e safe =
      let judged = Holds-ok (subst (Holds IsJudged) e (audit_governance-IsJudged py loads h)) in
      (Holds-ok (subst (Holds IsSound) e audit_governance-IsSound) safe, judged.1 ∙ ap not safe)
