-- ===== src/Runtime/Artifacts.antt =====
-- `_retain_artifacts` of src/qas/runtime.py: which files of finished runs are removed.
pub mod Laws
pub mod Order
use qwen_autonomous_supervis.Prelude.{
  ℕ, suc, ◌+◌, ◌-◌, ◌*◌, String, str_eq, Bool, true, false, Option, none, some, List, [], ◌∷◌, ◌&&◌,
  not, ltb, leb, length, select, descending, if◌then◌else◌,
}
use qwen_autonomous_supervis.Config.{StorageConfig}
use qwen_autonomous_supervis.Ledger.Leases.{seconds}

-- A file below the runtime directory, by its resolved path, and its `st_mtime`.
pub record Artifact : Type 0 where
  pub path : String
  pub modified_at : ℕ

-- `item.resolve() != active_path`
abbrev pub is_active_path : Option String → Artifact → Bool
is_active_path none f = false
is_active_path (some path) f = str_eq f.path path

-- `artifact_retention_days` before now
abbrev pub cutoff : StorageConfig → ℕ → ℕ
cutoff c now = now - seconds (c.artifact_retention_days * 86400)

-- What the loop keeps and removes, from an index on.
unfoldable pub retain_from : StorageConfig → ℕ → ℕ → List Artifact → List Artifact × List Artifact
retain_from c now index [] = ([], [])
retain_from c now index (f ∷ fs) =
    let (kept, removed) = retain_from c now (index + 1) fs in
    if ltb index c.maximum_artifacts && leb (cutoff c now) f.modified_at
    then (f ∷ kept, removed)
    else (kept, f ∷ removed)

-- The files that may be removed, the newest first.
unfoldable pub candidates : Option String → List Artifact → List Artifact
candidates active files =
    descending (λ (f : Artifact). f.modified_at)
      (select (λ (f : Artifact). not (is_active_path active f)) files)

-- The files kept and the files removed, from all files and the path of the active run.
unfoldable pub retain_artifacts :
    StorageConfig → ℕ → Option String → List Artifact → List Artifact × List Artifact
retain_artifacts c now active files = retain_from c now 0 (candidates active files)
