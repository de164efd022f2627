-- ===== src/Operations.antt =====
-- src/qas/operations.py: `IdempotentOperationRunner.ensure`, which asks the remote side what it has
-- before it mutates it. The clock readings of one call are one moment `at`.
pub mod Idempotence
use qwen_autonomous_supervis.Prelude.{
  ℕ, String, Bool, true, false, Option, none, some, List, [], ◌∷◌, if◌then◌else◌, not,
}
use qwen_autonomous_supervis.Prelude.Text.{◌+s◌, last_chars}
use qwen_autonomous_supervis.Json.{Json, obj, end, field, str, opt_str, truthy, as_object}
use qwen_autonomous_supervis.Errors.{Exception, Result, ok, err, operation_not_confirmed, text}
use qwen_autonomous_supervis.Effects.{
  Effect, give, throw, answer, read, change, throw_if, catch, ◌>>=◌, ◌>>◌,
}
use qwen_autonomous_supervis.Ledger.{Ledger}
use qwen_autonomous_supervis.Ledger.Events.{Details, no_details, append_event}
use qwen_autonomous_supervis.Ledger.Operations.{
  Operation, is_completed, operation, begin_operation, complete_operation,
}

pub record RemoteEvidence : Type 0 where
  pub exists : Bool
  pub external_id : Option String
  pub evidence : Option Json

pub record OperationOutcome : Type 0 where
  pub operation_key : String
  pub external_id : Option String
  pub reconciled : Bool
  pub evidence : Json

-- The caller's callbacks, over a world `W` that holds the remote side. A callback that raises may have
-- changed the world before.
pub record Callbacks (W : Type 0) : Type 0 where
  pub reconcile : W → Result RemoteEvidence × W
  pub mutate : String → W → Result (Option String) × W
  pub after_remote_effect : W → Result (Unit {0}) × W

-- `_decode_evidence`, of evidence that is stored as JSON.
abbrev pub decode_evidence : Option Json → Json
decode_evidence none = obj end
decode_evidence (some v) = elim (as_object v) [ none ↦ obj end | some fs ↦ obj fs ]

-- `evidence or {"source": source}`
abbrev pub or_source : Option Json → String → Json
or_source none source = obj (field "source" (str source) end)
or_source (some v) source = if truthy v then v else obj (field "source" (str source) end)

-- f"<!-- qas-operation:{operation_key} -->"
unfoldable pub marker : String → String
marker operation_key = "<!-- qas-operation:" +s operation_key +s " -->"

-- The event of an operation.
abbrev pub operation_event : String → String → Json → Details
operation_event what key payload = record no_details {
  operation_key = some ("operation:" +s what +s ":" +s key);
  payload = payload;
}

abbrev pub id_payload : String → String → Option String → Json
id_payload key kind external_id = obj (
    field "operation_key" (str key)
      (field "kind" (str kind) (field "external_id" (opt_str external_id) end)))

abbrev pub error_payload : String → String → Exception → Json
error_payload key kind e = obj (
    field "operation_key" (str key)
      (field "kind" (str kind) (field "error" (str (last_chars 2000 (text e))) end)))

-- The ledger and the world.
abbrev pub World : Type 0 → Type 0
World W = Ledger × W

module _ {W : Type 0} where
  -- A callback, as a step on the world.
  unfoldable pub outside : {A : Type 0} → (W → Result A × W) → Effect (World W) A
  outside f (l, w) = let (r, w') = f w in (r, (l, w'))

  -- `ledger.append_event`
  unfoldable pub log : ℕ → String → Details → Effect (World W) (Unit {0})
  log at kind d (l, w) = (ok tt, (record l { events = (append_event at kind d l.events).1 }, w))

  -- `ledger.begin_operation`
  unfoldable pub begin : ℕ → String → String → Json → Effect (World W) Operation
  begin at key kind request (l, w) =
      let (r, ops) = begin_operation at key kind request l.operations in
      (r, (record l { operations = ops }, w))

  -- `ledger.complete_operation`
  unfoldable pub complete : ℕ → String → Option String → Json → Effect (World W) (Unit {0})
  complete at key external_id evidence (l, w) =
      let (r, ops) = complete_operation at key external_id evidence l.operations in
      (r, (record l { operations = ops }, w))

  module _ (c : Callbacks W) (at : ℕ) (key kind : String) (request : Json) where
    -- The branch for an effect that the remote side shows.
    unfoldable pub adopt : RemoteEvidence → Effect (World W) OperationOutcome
    adopt remote =
        let evidence = or_source remote.evidence "remote_reconciliation" in
        do
          begin at key kind request
          complete at key remote.external_id evidence
          log at "operation_reconciled"
              (operation_event "reconciled" key (id_payload key kind remote.external_id))
          give (record {
            operation_key = key;
            external_id = remote.external_id;
            reconciled = true;
            evidence = evidence;
          })

    -- The `try` block, from the second reconciliation on.
    unfoldable pub confirm : RemoteEvidence → Effect (World W) OperationOutcome
    confirm confirmed =
        let evidence = or_source confirmed.evidence "post_mutation_reconciliation" in
        do
          throw_if (not confirmed.exists)
              (operation_not_confirmed ("remote effect for " +s key +s " is not yet observable"))
          complete at key confirmed.external_id evidence
          log at "operation_completed"
              (operation_event "completed" key (id_payload key kind confirmed.external_id))
          give (record {
            operation_key = key;
            external_id = confirmed.external_id;
            reconciled = false;
            evidence = evidence;
          })

    -- The `try` block.
    unfoldable pub attempt : Effect (World W) OperationOutcome
    attempt = do
      outside (c.mutate key)
      outside c.after_remote_effect
      confirmed ← outside c.reconcile
      confirm confirmed

    -- The `except` block: the record stays pending, and the exception goes on.
    unfoldable pub interrupted : Exception → Effect (World W) OperationOutcome
    interrupted e = do
      log at "operation_interrupted" (operation_event "interrupted" key (error_payload key kind e))
      throw e

    -- What follows the first reconciliation.
    unfoldable pub pursue : RemoteEvidence → Effect (World W) OperationOutcome
    pursue remote =
        if remote.exists
        then adopt remote
        else (do begin at key kind request; catch attempt interrupted)

    unfoldable pub resume : Option Operation → Effect (World W) OperationOutcome
    resume none = outside c.reconcile >>= pursue
    resume (some previous) =
        if is_completed previous.status
        then give (record {
          operation_key = key;
          external_id = previous.external_id;
          reconciled = true;
          evidence = decode_evidence previous.evidence;
        })
        else (outside c.reconcile >>= pursue)

    unfoldable pub ensure : Effect (World W) OperationOutcome
    ensure = do previous ← read (λ s. operation key s.0.operations); resume previous
