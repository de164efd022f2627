-- ===== src/Policy/Secrets/Laws.antt =====
-- Which diffs the secret scan of src/qas/policy.py reports nothing in.
use qwen_autonomous_supervis.Prelude.{
  ℕ, ◌≡◌, ◌∙◌, ◌↔◌, ap, sym, refl, String, Bool, true, false, Option, List, [], ◌∷◌, ◌++◌, ◌&&◌,
  not, exists, arith, Bool-cases, inl, inr,
}
use qwen_autonomous_supervis.Prelude.Text.{starts_with, str_drop}
use qwen_autonomous_supervis.Policy.Secrets.{
  SecretPattern, SecretFinding, Position, find_in, is_added, step, found_at, scan_lines,
  scan_added_secrets,
}

abbrev nothing : List SecretFinding → Bool
nothing [] = true
nothing (f ∷ fs) = false

nothing_iff : (fs : List SecretFinding) → (fs ≡ []) ↔ (nothing fs ≡ true)
nothing_iff [] = (λ e. refl, λ e. refl)
nothing_iff (f ∷ fs) = (λ e. cc, λ e. cc)

nothing_append : (fs gs : List SecretFinding) → nothing (fs ++ gs) ≡ (nothing fs && nothing gs)
nothing_append [] gs = refl
nothing_append (f ∷ fs) gs = refl

-- Whether a pattern finds something in a text.
abbrev is_secret : List SecretPattern → String → Bool
is_secret patterns content = exists (λ (p : SecretPattern). p.search content) patterns

nothing-find_in :
    (p : Position) (content : String) (patterns : List SecretPattern)
    → nothing (find_in p content patterns) ≡ not (is_secret patterns content)
unfolding find_in
nothing-find_in p content [] = refl
nothing-find_in p content (x ∷ xs) = elim (Bool-cases (x.search content)) [
  | inl y ↦ rw y refl
  | inr n ↦ rw n (nothing-find_in p content xs)
]

false_of_not : (b : Bool) → not b ≡ true → b ≡ false
false_of_not b h = ground arith

-- What starts with a text starts with each prefix of it.
starts_with_trans :
    (p q s : String) → starts_with p q ≡ true → starts_with q s ≡ true → starts_with p s ≡ true
starts_with_trans String.[] q s a b = refl
starts_with_trans (String.◌∷◌ c p) String.[] s a b = cc
starts_with_trans (String.◌∷◌ c p) (String.◌∷◌ d q) String.[] a b = cc
starts_with_trans (String.◌∷◌ c p) (String.◌∷◌ d q) (String.◌∷◌ e s) a b =
    ground (arith, starts_with_trans p q s)

hunk_not_added : (line : String) → starts_with "@@" line ≡ true → starts_with "+" line ≡ false
hunk_not_added String.[] e = refl
hunk_not_added (String.◌∷◌ c s) e = ground arith

module _ (hunk_number : String → Option ℕ) (patterns : List SecretPattern) where
  -- A line that adds a text with a secret.
  abbrev pub adds_secret : String → Bool
  adds_secret line = is_added hunk_number patterns line && is_secret patterns (str_drop 1 line)

  nothing-found_at :
      (line : String) (p : Position)
      → nothing (found_at hunk_number patterns line p) ≡ not (adds_secret line)
  nothing-found_at line p = ground (
    arith,
    starts_with_trans "+++" "+++ b/" line refl,
    hunk_not_added line,
    nothing-find_in p (str_drop 1 line) patterns,
  )

  nothing-scan_lines :
      (lines : List String) (p : Position)
      → nothing (scan_lines hunk_number patterns lines p) ≡ not (exists adds_secret lines)
  unfolding scan_lines
  nothing-scan_lines [] p = refl
  nothing-scan_lines (line ∷ lines) p =
      rw
        (
          nothing_append (found_at hunk_number patterns line p)
              (scan_lines hunk_number patterns lines (step hunk_number patterns line p)),
          nothing-found_at line p,
          nothing-scan_lines lines (step hunk_number patterns line p),
        )
        (elim (Bool-cases (adds_secret line)) [ inl y ↦ rw y refl | inr n ↦ rw n refl ])

  -- The scan reports nothing exactly if no line adds a text in which a pattern finds a secret. An added
  -- line starts with `+` and not with `+++`.
  pub scan_added_secrets_iff :
      (lines : List String)
      → (scan_added_secrets hunk_number patterns lines ≡ []) ↔ (exists adds_secret lines ≡ false)
  unfolding scan_added_secrets
  scan_added_secrets_iff lines =
      let start : Position = record { current_file = "unknown"; added_line = 0 } in
      let none_left = nothing_iff (scan_lines hunk_number patterns lines start) in
      let same = nothing-scan_lines lines start in
      (λ e. false_of_not _ (sym same ∙ none_left.0 e), λ e. none_left.1 (same ∙ ap not e))
