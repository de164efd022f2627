-- ===== src/Process/Log.antt =====
-- The output file of a process and its numbered backups, in src/qas/process.py.
pub mod Laws
use qwen_autonomous_supervis.Prelude.{
  ℕ, zero, suc, ◌+◌, ◌-◌, String, Bool, Option, none, some, List, [], ◌∷◌, ◌++◌, ◌==◌, ◌&&◌, ltb,
  if◌then◌else◌, is_some,
}
use qwen_autonomous_supervis.Prelude.Text.{codes}

-- The files of a directory that belong to an output path: the file itself, and `{name}.{index}` for
-- each index. A file is the list of its lines.
pub record Files : Type 0 where
  pub log : Option (List String)
  pub backup : ℕ → Option (List String)

-- The files with a backup written or removed.
abbrev pub put : ℕ → Option (List String) → (ℕ → Option (List String)) → ℕ → Option (List String)
put index content backup i = if i == index then content else backup i

-- `if oldest.exists(): oldest.unlink()`
abbrev pub unlink : ℕ → Files → Files
unlink index fs =
    if is_some (fs.backup index) then record fs { backup = put index none fs.backup } else fs

-- `source.replace(...)` of one backup by the next index, if it exists.
abbrev pub move_up : ℕ → Files → Files
move_up index fs =
    if is_some (fs.backup index)
    then record fs { backup = put index none (put (suc index) (fs.backup index) fs.backup) }
    else fs

-- The loop of `index` down to 1.
unfoldable pub shift : ℕ → Files → Files
shift zero fs = fs
shift (suc n) fs = shift n (move_up (suc n) fs)

abbrev pub move_log : Files → Files
move_log fs = if is_some fs.log then record { log = none; backup = put 1 fs.log fs.backup } else fs

unfoldable pub rotate_output : ℕ → Files → Files
rotate_output backup_count fs = move_log (shift (backup_count - 1) (unlink backup_count fs))

-- The bytes of a character in UTF-8.
abbrev utf8_length : ℕ → ℕ
utf8_length c = if ltb c 0x80 then 1 else if ltb c 0x800 then 2 else if ltb c 0x10000 then 3 else 4

abbrev sum_utf8 : List ℕ → ℕ
sum_utf8 [] = 0
sum_utf8 (c ∷ cs) = utf8_length c + sum_utf8 cs

-- `len(line.encode("utf-8"))`
unfoldable pub encoded_size : String → ℕ
encoded_size s = sum_utf8 (codes s)

-- `log` and `log_bytes`, with the files they belong to.
pub record Log : Type 0 where
  pub files : Files
  pub log_bytes : ℕ

-- `open("a")`, with which a missing file is made.
abbrev pub opened : Option (List String) → List String
opened none = []
opened (some lines) = lines

-- `log.write(line)`
abbrev pub append_line : String → Log → Log
append_line line l = record {
  files = record l.files { log = some (opened l.files.log ++ (line ∷ [])) };
  log_bytes = l.log_bytes + encoded_size line;
}

abbrev pub fresh : ℕ → Log → Log
fresh backup_count l = record { files = rotate_output backup_count l.files; log_bytes = 0 }

unfoldable pub write_log : ℕ → ℕ → String → Log → Log
write_log max_log_bytes backup_count line l = append_line line (
    if ltb 0 l.log_bytes && ltb max_log_bytes (l.log_bytes + encoded_size line)
    then fresh backup_count l
    else l)
