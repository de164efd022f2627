-- ===== src/Process/Log/Laws.antt =====
-- What the rotation of an output file keeps, and the size that the file has.
use native.Mathlib.Numerals.{unary_clauses}
use qwen_autonomous_supervis.Prelude.{
  ℕ, zero, suc, ◌+◌, ◌≤◌, ◌<◌, ◌≡◌, ◌⊎◌, inl, inr, refl, sym, ◌∙◌, ap, String, Bool, true, false,
  none, List, [], ◌∷◌, ◌++◌, ◌==◌, ◌&&◌, ltb, if◌then◌else◌, arith, Bool-cases,
}
use qwen_autonomous_supervis.Process.Log.{
  Files, unlink, move_up, shift, move_log, rotate_output, encoded_size, Log, opened, append_line,
  fresh, write_log,
}

-- One backup moved up where the next index is free.
move_up_lem :
    (n : ℕ) (fs : Files)
    → fs.backup (suc n) ≡ none
    → ((move_up n fs).log ≡ fs.log)
      × ((move_up n fs).backup n ≡ none)
      × ((move_up n fs).backup (suc n) ≡ fs.backup n)
      × ((i : ℕ) → (i < n) ⊎ (suc n < i) → (move_up n fs).backup i ≡ fs.backup i)
move_up_lem n fs free = (ground arith, ground arith, ground arith, λ i apart. ground arith)

eq_of_eqb : (a b : ℕ) → (a == b) ≡ true → a ≡ b
eq_of_eqb a b h = ground arith

-- Once the backup above `n` is free, the loop moves each backup from 1 to `n` up by one.
shift_lem :
    (n : ℕ) (fs : Files)
    → fs.backup (suc n) ≡ none
    → ((shift n fs).log ≡ fs.log)
      × ((shift n fs).backup 1 ≡ none)
      × ((i : ℕ) → 1 ≤ i → i ≤ n → (shift n fs).backup (suc i) ≡ fs.backup i)
      × ((i : ℕ) → suc n < i → (shift n fs).backup i ≡ fs.backup i)
unfolding shift
shift_lem zero fs free = (refl, free, λ i a b. ground arith, λ i a. refl)
shift_lem (suc n) fs free =
    let (a, b, c, d) = move_up_lem (suc n) fs free in
    let (a', b', c', d') = shift_lem n (move_up (suc n) fs) b in
    (
      a' ∙ a,
      b',
      λ i low high. elim (Bool-cases (i == suc n)) [
        | inl y ↦
            let e : i ≡ suc n = eq_of_eqb i (suc n) y in
            ap (λ k. (shift n (move_up (suc n) fs)).backup (suc k)) e
            ∙ d' (suc (suc n)) (omega arith)
            ∙ c
            ∙ ap fs.backup (sym e)
        | inr z ↦ c' i low (ground arith) ∙ d i (inl (ground arith))
      ],
      λ i high. d' i (omega (arith, high)) ∙ d i (inr high),
    )

unlink_lem :
    (n : ℕ) (fs : Files)
    → ((unlink n fs).log ≡ fs.log)
      × ((unlink n fs).backup n ≡ none)
      × ((i : ℕ) → (i < n) ⊎ (n < i) → (unlink n fs).backup i ≡ fs.backup i)
unlink_lem n fs = (ground arith, ground arith, λ i apart. ground arith)

move_log_lem :
    (fs : Files)
    → fs.backup 1 ≡ none
    → ((move_log fs).log ≡ none)
      × ((move_log fs).backup 1 ≡ fs.log)
      × ((i : ℕ) → 1 < i → (move_log fs).backup i ≡ fs.backup i)
move_log_lem fs free = (ground arith, ground arith, λ i above. ground arith)

-- With `backup_count` above 0 the rotation removes the oldest backup and nothing else: the output file
-- becomes backup 1, each backup below `backup_count` becomes the next one, where there is none there is
-- none after it, and the files with a higher index stay.
pub rotate_output_lem :
    (count : ℕ) (fs : Files)
    → 0 < count
    → ((rotate_output count fs).log ≡ none)
      × ((rotate_output count fs).backup 1 ≡ fs.log)
      × ((i : ℕ) → 1 ≤ i → i < count → (rotate_output count fs).backup (suc i) ≡ fs.backup i)
      × ((i : ℕ) → count < i → (rotate_output count fs).backup i ≡ fs.backup i)
unfolding rotate_output
rotate_output_lem zero fs some_count = absurd (omega (arith, some_count))
rotate_output_lem (suc n) fs some_count =
    let (a, b, c) = unlink_lem (suc n) fs in
    let (a', b', c', d') = shift_lem n (unlink (suc n) fs) b in
    let (a'', b'', c'') = move_log_lem (shift n (unlink (suc n) fs)) b' in
    simp unary_clauses (
      a'',
      b'' ∙ a' ∙ a,
      λ i low high.
          c'' (suc i) (omega (arith, low)) ∙ c' i low (omega (arith, high)) ∙ c i (inl high),
      λ i high. c'' i (omega (arith, high)) ∙ d' i (omega (arith, high)) ∙ c i (inr high),
    )

-- The bytes of a file.
abbrev pub total : List String → ℕ
total [] = 0
total (line ∷ lines) = encoded_size line + total lines

total_append :
    (lines : List String) (line : String)
    → total (lines ++ (line ∷ [])) ≡ total lines + encoded_size line
total_append [] line = omega arith
total_append (x ∷ xs) line = omega (arith, total_append xs line)

append_line-total :
    (line : String) (l : Log)
    → l.log_bytes ≡ total (opened l.files.log)
    → (append_line line l).log_bytes ≡ total (opened (append_line line l).files.log)
append_line-total line l h = omega (arith, total_append (opened l.files.log) line, h)

-- The count is that of the file, which is within the limit, or has nothing but empty lines before its last.
abbrev pub IsBounded : ℕ → Log → Type 0
IsBounded max l =
    (l.log_bytes ≡ total (opened l.files.log))
    × ((l.log_bytes ≤ max)
        ⊎ ((before : List String) × (line : String) × (opened l.files.log ≡ before ++ (line ∷ []))
            × (total before ≡ 0)))

fresh-total :
    (count : ℕ) (l : Log)
    → 0 < count
    → (fresh count l).log_bytes ≡ total (opened (fresh count l).files.log)
fresh-total count l some_count =
    ap (λ o. total (opened o)) (sym (rotate_output_lem count l.files some_count).0)

-- The write, after the test.
append_line-IsBounded :
    (max count : ℕ) (line : String) (l : Log) (b : Bool)
    → 0 < count
    → l.log_bytes ≡ total (opened l.files.log)
    → (ltb 0 l.log_bytes && ltb max (l.log_bytes + encoded_size line)) ≡ b
    → IsBounded max (append_line line (if b then fresh count l else l))
append_line-IsBounded max count line l true some_count h e = (
  append_line-total line (fresh count l) (fresh-total count l some_count),
  inr (
    [],
    line,
    ap (λ o. opened o ++ (line ∷ [])) (rotate_output_lem count l.files some_count).0,
    refl,
  ),
)
append_line-IsBounded max count line l false some_count h e = (
  append_line-total line l h,
  elim (Bool-cases (ltb 0 l.log_bytes)) [
    | inl y ↦ inl (ground arith)
    | inr z ↦ inr (opened l.files.log, line, refl, ground (arith, h))
  ],
)

-- However large the file was, after a write it is within the limit, unless the line alone is larger.
pub write_log-IsBounded :
    (max count : ℕ) (line : String) (l : Log)
    → 0 < count
    → l.log_bytes ≡ total (opened l.files.log)
    → IsBounded max (write_log max count line l)
unfolding write_log
write_log-IsBounded max count line l some_count h =
    append_line-IsBounded max count line l _ some_count h refl
