-- ===== src/Ledger/Checkpoints.antt =====
-- The `checkpoints` table of src/qas/db.py.
use qwen_autonomous_supervis.Prelude.{
  ℕ, String, str_eq, eq_iff, ◌≡◌, Bool, Option, none, some, List, [], ◌∷◌, arith, if◌then◌else◌,
  find,
}
use qwen_autonomous_supervis.Json.{Json, null}

pub record Checkpoint : Type 0 where
  pub key : String
  pub value : Json
  pub updated_at : ℕ

abbrev pub has_name : String → Checkpoint → Bool
has_name key c = str_eq c.key key

-- `INSERT … ON CONFLICT(key) DO UPDATE`. The column holds `canonical_json(value)`, which `get_checkpoint`
-- reads with `json.loads`; on the values of the model the two undo each other, and are left out.
unfoldable pub set_checkpoint : ℕ → String → Json → List Checkpoint → List Checkpoint
set_checkpoint at key value [] = record { key = key; value = value; updated_at = at } ∷ []
set_checkpoint at key value (c ∷ cs) =
    if has_name key c
    then record c { value = value; updated_at = at } ∷ cs
    else c ∷ set_checkpoint at key value cs

abbrev value_of : Option Checkpoint → Json
value_of none = null
value_of (some c) = c.value

-- A missing key reads as None, like a stored `null`.
unfoldable pub get_checkpoint : String → List Checkpoint → Json
get_checkpoint key cs = value_of (find (has_name key) cs)

-- Reading a key after a write gives the value written, and another key what it had.
pub get_checkpoint-set_checkpoint :
    (at : ℕ) (k j : String) (v : Json) (cs : List Checkpoint)
    → get_checkpoint j (set_checkpoint at k v cs) ≡ (if str_eq k j then v else get_checkpoint j cs)
unfolding get_checkpoint set_checkpoint
get_checkpoint-set_checkpoint at k j v [] = ground arith
get_checkpoint-set_checkpoint at k j v (c ∷ cs) =
    ground
      (arith, eq_iff c.key k, eq_iff c.key j, eq_iff k j, get_checkpoint-set_checkpoint at k j v cs)
