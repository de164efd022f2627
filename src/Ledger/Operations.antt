-- ===== src/Ledger/Operations.antt =====
-- The `operations` table of src/qas/db.py: the records of remote mutations.
use qwen_autonomous_supervis.Prelude.{
  ℕ, String, str_eq, Bool, true, false, Option, none, some, List, ◌∷◌, ◌&&◌, not, ◌==◌,
  if◌then◌else◌, exists, update, find, count, select, ascending,
}
use qwen_autonomous_supervis.Json.{Json}
use qwen_autonomous_supervis.Errors.{Result, ok, err, key_error, runtime_error}

pub data OperationStatus : Type 0 where
  pending completed failed : OperationStatus

pub record Operation : Type 0 where
  pub operation_key : String
  pub kind : String
  pub status : OperationStatus
  pub created_at : ℕ
  pub updated_at : ℕ
  pub external_id : Option String
  pub request : Json
  pub evidence : Option Json

abbrev pub is_operation : String → Operation → Bool
is_operation key o = str_eq o.operation_key key

abbrev pub is_completed : OperationStatus → Bool
is_completed completed = true
is_completed pending = false
is_completed failed = false

abbrev pub is_pending : OperationStatus → Bool
is_pending pending = true
is_pending completed = false
is_pending failed = false

-- `SELECT * FROM operations WHERE operation_key=?`
unfoldable pub operation : String → List Operation → Option Operation
operation key ops = find (is_operation key) ops

-- `INSERT OR IGNORE`: a record that is there stays as it is.
unfoldable pub insert_operation : ℕ → String → String → Json → List Operation → List Operation
insert_operation at key kind request ops =
    if exists (is_operation key) ops
    then ops
    else (record {
      operation_key = key;
      kind = kind;
      status = pending;
      created_at = at;
      updated_at = at;
      external_id = none;
      request = request;
      evidence = none;
    })
      ∷ ops

abbrev row_or_error : Option Operation → Result Operation
row_or_error none = err (runtime_error "operation disappeared after insertion")
row_or_error (some o) = ok o

-- The record as it stands after the insertion, and the table.
unfoldable pub begin_operation :
    ℕ → String → String → Json → List Operation → Result Operation × List Operation
begin_operation at key kind request ops =
    let ops' = insert_operation at key kind request ops in (row_or_error (operation key ops'), ops')

abbrev pub complete : ℕ → Option String → Json → Operation → Operation
complete at external_id evidence o = record o {
  status = completed;
  updated_at = at;
  external_id = external_id;
  evidence = some evidence;
}

unfoldable pub complete_operation :
    ℕ → String → Option String → Json → List Operation → Result (Unit {0}) × List Operation
complete_operation at key external_id evidence ops = (
  if count (is_operation key) ops == 1 then ok tt else err (key_error key),
  update (is_operation key) (complete at external_id evidence) ops,
)

-- A completed record is not failed afterwards.
unfoldable pub fail_operation : ℕ → String → Json → List Operation → List Operation
fail_operation at key evidence ops =
    update (λ (o : Operation). is_operation key o && not (is_completed o.status))
      (λ o. record o { status = failed; updated_at = at; evidence = some evidence }) ops

unfoldable pub pending_operations : List Operation → List Operation
pending_operations ops =
    ascending (λ (o : Operation). o.created_at)
      (select (λ (o : Operation). is_pending o.status) ops)
