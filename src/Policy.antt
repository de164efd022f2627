-- ===== src/Policy.antt =====
-- src/qas/policy.py: governance of protected paths and the quality gates. `fnmatch.fnmatchcase` is
-- a parameter.
pub mod Governance
pub mod Changes
pub mod Secrets
use qwen_autonomous_supervis.Prelude.{
  ℕ, String, Bool, true, false, List, [], ◌∷◌, ◌&&◌, ◌||◌, ltb, ◌==◌, exists, select, if◌then◌else◌,
}
use qwen_autonomous_supervis.Prelude.Int.{ℤ, pos, eq_ℤ}
use qwen_autonomous_supervis.Prelude.Text.{◌+s◌, last_chars, codes}
use qwen_autonomous_supervis.Errors.{Result, ok, err, policy_violation}
use qwen_autonomous_supervis.Config.{GateConfig}

-- The matching of a path by a pattern.
abbrev pub Matcher : Type 0
Matcher = String → String → Bool

abbrev pub is_protected : Matcher → List String → String → Bool
is_protected fnmatch patterns path = exists (λ p. fnmatch path p) patterns

-- The order of texts by their characters' codes.
abbrev pub codes_leb : List ℕ → List ℕ → Bool
codes_leb [] ys = true
codes_leb (x ∷ xs) [] = false
codes_leb (x ∷ xs) (y ∷ ys) = let rest = codes_leb xs ys in ltb x y || (x == y && rest)

abbrev pub insert_text : String → List String → List String
insert_text s [] = s ∷ []
insert_text s (t ∷ ts) =
    let rest = insert_text s ts in if codes_leb (codes s) (codes t) then s ∷ t ∷ ts else t ∷ rest

-- `sorted`
abbrev pub sorted : List String → List String
sorted [] = []
sorted (s ∷ ss) = insert_text s (sorted ss)

-- The changed paths that a pattern protects.
unfoldable pub protected_changes : Matcher → List String → List String → List String
protected_changes fnmatch paths patterns = sorted (select (is_protected fnmatch patterns) paths)

-- `", ".join`, after the first text
abbrev pub join_after : String → List String → String
join_after s [] = s
join_after s (t ∷ ts) = s +s ", " +s join_after t ts

-- `assert_governance`, from the paths that `changed_paths` returns.
unfoldable pub assert_governance : Matcher → List String → List String → Result (Unit {0})
assert_governance fnmatch patterns paths = elim (protected_changes fnmatch paths patterns) [
  | [] ↦ ok tt
  | p ∷ ps ↦ err (policy_violation ("Protected governance paths changed: " +s join_after p ps))
]

pub record GateResult : Type 0 where
  pub name : String
  pub passed : Bool
  pub exit_code : ℤ
  pub duration : ℕ
  pub output_tail : String

-- How a gate's process ended: with an exit code and its two outputs, or by the timeout with what it
-- had written.
pub data GateRun : Type 0 where
  exited : ℤ → String → String → GateRun
  timed_out : String → String → GateRun

-- `run_gate`, from how the process ended and how long it took.
unfoldable pub run_gate : GateConfig → ℕ → GateRun → GateResult
run_gate gate duration (exited code stdout stderr) = record {
  name = gate.name;
  passed = eq_ℤ code (pos 0);
  exit_code = code;
  duration = duration;
  output_tail = last_chars 12000 (stdout +s "\n" +s stderr);
}
run_gate gate duration (timed_out stdout stderr) = record {
  name = gate.name;
  passed = false;
  exit_code = pos 124;
  duration = duration;
  output_tail = last_chars 12000 (stdout +s "\n" +s stderr +s "\nTIMEOUT");
}
