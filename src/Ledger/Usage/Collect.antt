-- ===== src/Ledger/Usage/Collect.antt =====
-- `collect` of `usage_totals`: the token counts in a usage report, at any depth.
use qwen_autonomous_supervis.Prelude.{
  ℕ, ◌+◌, String, Bool, true, false, List, [], ◌∷◌, ◌&&◌, ◌||◌, leb, ◌==◌, if◌then◌else◌, map,
}
use qwen_autonomous_supervis.Prelude.Int.{ℤ, pos, ◌+ℤ◌}
use qwen_autonomous_supervis.Prelude.Text.{codes}
use qwen_autonomous_supervis.Json.{
  Json, null, bool, int, real, str, arr, obj, Items, nil, cons, Fields, end, field, trunc,
}

pub record Totals : Type 0 where
  pub input_tokens : ℤ
  pub output_tokens : ℤ
  pub total_tokens : ℤ
  pub model_calls : ℕ

abbrev pub no_tokens : Totals
no_tokens = record {
  input_tokens = pos 0;
  output_tokens = pos 0;
  total_tokens = pos 0;
  model_calls = 0;
}

-- `key.lower().replace("-", "_")`, of ASCII letters.
abbrev normalize : ℕ → ℕ
normalize c = if leb b'A' c && leb c b'Z' then c + 32 else if c == b'-' then b'_' else c

abbrev pub same_codes : List ℕ → List ℕ → Bool
same_codes [] [] = true
same_codes [] (d ∷ ds) = false
same_codes (c ∷ cs) [] = false
same_codes (c ∷ cs) (d ∷ ds) = c == d && same_codes cs ds

-- Whether a key is spelled like a name, up to case and dashes.
unfoldable pub is_spelled : String → String → Bool
is_spelled name key = same_codes (map normalize (codes key)) (codes name)

unfoldable pub is_input : String → Bool
unfolding is_spelled
is_input k =
    is_spelled "input_tokens" k || is_spelled "inputtokens" k || is_spelled "prompt_tokens" k

unfoldable pub is_output : String → Bool
unfolding is_spelled
is_output k =
    is_spelled "output_tokens" k || is_spelled "outputtokens" k || is_spelled "completion_tokens" k

unfoldable pub is_total : String → Bool
unfolding is_spelled
is_total k = is_spelled "total_tokens" k || is_spelled "totaltokens" k

-- A number `n` under a key.
unfoldable pub add_number : String → ℤ → Totals → Totals
add_number k n t =
    if is_input k
    then record t { input_tokens = t.input_tokens +ℤ n }
    else if is_output k
    then record t { output_tokens = t.output_tokens +ℤ n }
    else if is_total k
    then record t { total_tokens = t.total_tokens +ℤ n }
    else t

-- A mapping's own numbers count by their keys; mappings and lists below are searched.
unfoldable mutual
  unfolding add_number

  pub collect : Json → Totals → Totals
  collect null t = t
  collect (bool b) t = t
  collect (int n) t = t
  collect (real n) t = t
  collect (str s) t = t
  collect (arr xs) t = collect_items xs t
  collect (obj fs) t = collect_fields fs t

  pub collect_items : Items → Totals → Totals
  collect_items nil t = t
  collect_items (cons v xs) t = collect_items xs (collect v t)

  pub collect_fields : Fields → Totals → Totals
  collect_fields end t = t
  collect_fields (field k v fs) t = collect_fields fs (collect_field k v t)

  pub collect_field : String → Json → Totals → Totals
  collect_field k null t = t
  collect_field k (bool b) t = t
  collect_field k (int n) t = add_number k n t
  collect_field k (real n) t = add_number k (trunc n) t
  collect_field k (str s) t = t
  collect_field k (arr xs) t = collect_items xs t
  collect_field k (obj fs) t = collect_fields fs t
