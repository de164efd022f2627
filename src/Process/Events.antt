-- ===== src/Process/Events.antt =====
-- What src/qas/process.py reads of the events that an agent prints.
use qwen_autonomous_supervis.Prelude.{
  String, str_eq, Bool, false, Option, none, some, ◌||◌, if◌then◌else◌,
}
use qwen_autonomous_supervis.Json.{
  Json, null, bool, int, real, str, arr, obj, Items, nil, cons, Fields, end, get, get_in, as_object,
  truthy,
}
use qwen_autonomous_supervis.Errors.{Result, ok, err, type_error, ◌>>=◌}

-- What one event says: `_extract`'s three results. The output is None or a mapping.
pub record Extract : Type 0 where
  pub session_id : Option String
  pub structured : Option Fields
  pub usage : Fields

abbrev or_previous : Option Fields → Option Fields → Option Fields
or_previous none previous = previous
or_previous (some fs) previous = some fs

-- `a or b`
abbrev either : Json → Json → Json
either a b = if truthy a then a else b

-- `value in {"structured_output", "tool_use"}`: a list or a mapping cannot be looked up in a set.
unfoldable pub is_output_type : Json → Result Bool
is_output_type (str s) = ok (str_eq s "structured_output" || str_eq s "tool_use")
is_output_type null = ok false
is_output_type (bool b) = ok false
is_output_type (int n) = ok false
is_output_type (real n) = ok false
is_output_type (arr xs) = err (type_error "unhashable type: 'list'")
is_output_type (obj fs) = err (type_error "unhashable type: 'dict'")

abbrev choose : Bool → Option Fields → Option Fields → Option Fields
choose named found previous = if named then or_previous found previous else previous

-- One block of a message's content, after the output found before it.
abbrev block_output : Option Fields → Option Fields → Result (Option Fields)
block_output none previous = ok previous
block_output (some block) previous = do
  named ← is_output_type (get "type" block)
  ok (
      choose named (as_object (either (get "structured_output" block) (get "input" block)))
        previous)

unfoldable pub content_output : Items → Option Fields → Result (Option Fields)
content_output nil previous = ok previous
content_output (cons block blocks) previous = do
  found ← block_output (as_object block) previous
  content_output blocks found

abbrev message_output : Json → Option Fields → Result (Option Fields)
message_output (arr blocks) previous = content_output blocks previous
message_output null previous = ok previous
message_output (bool b) previous = ok previous
message_output (int n) previous = ok previous
message_output (real n) previous = ok previous
message_output (str s) previous = ok previous
message_output (obj fs) previous = ok previous

-- `session if isinstance(session, str) else None`
abbrev as_text : Json → Option String
as_text (str s) = some s
as_text null = none
as_text (bool b) = none
as_text (int n) = none
as_text (real n) = none
as_text (arr xs) = none
as_text (obj fs) = none

-- A mapping, or the empty one.
abbrev or_empty : Option Fields → Fields
or_empty none = end
or_empty (some fs) = fs

-- `_extract`
unfoldable pub extract : Fields → Result Extract
extract event = do
  structured ←
      message_output (get_in "content" (get "message" event))
        (or_previous (as_object (get "result" event)) (as_object (get "structured_output" event)))
  ok (record {
    session_id = as_text (get "session_id" event);
    structured = structured;
    usage = or_empty (as_object (get "usage" event));
  })
