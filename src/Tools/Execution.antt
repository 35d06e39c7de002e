-- ===== src/Tools/Execution.antt =====
-- services/tool_execution_service.py and utils/truncation.py: running one tool call. Every exception that a
-- tool raises becomes a result, whose error type is left out with the class of the exception. A number's text,
-- an exception's text and the capture of a file's content before a write are parameters.
pub mod Laws
pub mod Tests
use langraph_agent_blueprint.Prelude.{
  ℕ, ◌-◌, String, ◌<>◌, Bool, true, false, ◌||◌, ◌&&◌, not, Option, none, some, List, [], ◌∷◌, ◌++◌,
  leb, map, contains, if◌then◌else◌, ◌==◌,
}
use langraph_agent_blueprint.Prelude.Dict.{Dict, lookup, insert}
use langraph_agent_blueprint.Prelude.Result.{Result, ok, raise, Error, ◌>>=◌}
use langraph_agent_blueprint.Prelude.Sort.{sorted, text_le}
use langraph_agent_blueprint.State.{
  State, ToolCall, ToolResult, ToolResultStatus, StateUpdate, Event, event,
}
use langraph_agent_blueprint.Text.{text_length, take_text}
use langraph_agent_blueprint.Tools.{
  Tool, ToolRegistry, ToolOutput, ToolStateEffect, ToolKind, get, file, record_file_read,
  record_file_write, record_file_edit, replace_todos, append_child_run,
}
use langraph_agent_blueprint.Permission.{is_edit}
use langraph_agent_blueprint.Value.{
  Value, Items, Fields, items, list_or_empty, str, num, bool, arr, nil, cons, texts, is_set,
  merge_dict,
}

abbrev pub ok_status : Bool → ToolResultStatus
ok_status true = ToolResultStatus.ok
ok_status false = ToolResultStatus.error

abbrev pub is_error : ToolResultStatus → Bool
is_error ToolResultStatus.error = true
is_error _ = false

abbrev is_file : ToolKind → Bool
is_file file = true
is_file _ = false

abbrev is_empty {ℓ} : {A : Type ℓ} → List A → Bool
is_empty [] = true
is_empty (x ∷ xs) = false

abbrev pub status_name : ToolResultStatus → String
status_name ToolResultStatus.ok = "ok"
status_name ToolResultStatus.error = "error"
status_name ToolResultStatus.rejected = "rejected"
status_name ToolResultStatus.disabled = "disabled"
status_name ToolResultStatus.unavailable = "unavailable"

-- `set.add`
abbrev add : List String → String → List String
add paths path = if contains paths path then paths else path ∷ paths

-- `truncate_text`, with the number of characters left out rendered by `digits`.
unfoldable pub truncate_text : (ℕ → String) → String → ℕ → String × Bool
truncate_text digits text limit =
    if leb (text_length text) limit
    then (text, false)
    else (let suffix : String =
          "\n...[truncated " <> digits (text_length text - limit) <> " chars]" in
        (take_text (limit - text_length suffix) text <> suffix, true))

abbrev sorted_paths : List String → Value
unfolding sorted
sorted_paths paths = arr (items (sorted text_le paths))

abbrev pub no_update : StateUpdate
no_update = record { todos = none; child_runs = []; metadata = [] }

abbrev record_reads : List String → StateUpdate → StateUpdate
unfolding sorted_paths
record_reads paths u = record u { metadata = insert "read_files" (sorted_paths paths) u.metadata }

-- The loop of `apply_tool_state_effects`, with the set of files read so far.
unfoldable pub apply_effects : List ToolStateEffect → List String → StateUpdate → StateUpdate
unfolding record_reads
apply_effects [] paths u = u
apply_effects (record_file_read path ∷ es) paths u =
    let added = if path == "" then paths else add paths path in
    apply_effects es added (record_reads added u)
apply_effects (record_file_write ∷ es) paths u = apply_effects es paths (record_reads paths u)
apply_effects (record_file_edit ∷ es) paths u = apply_effects es paths (record_reads paths u)
apply_effects (replace_todos todos ∷ es) paths u =
    apply_effects es paths (record u { todos = some todos })
apply_effects (append_child_run run ∷ es) paths u =
    apply_effects es paths
      (if is_set (some run) then record u { child_runs = u.child_runs ++ run ∷ [] } else u)

abbrev pub read_files : State → List String
read_files s = texts (list_or_empty (lookup "read_files" s.metadata))

-- `apply_tool_state_effects`; an empty delta is not recorded.
abbrev recorded : StateUpdate → Option StateUpdate
recorded u = elim u.todos [
  | some todos ↦ some u
  | none ↦ if is_empty u.child_runs && is_empty u.metadata then none else some u
]

-- `_requires_file_snapshot`, but for the test that the input has a path.
abbrev requires_file_snapshot : Tool → Bool
requires_file_snapshot tool =
    is_file tool.kind && elim tool.permission [ none ↦ false | some p ↦ is_edit p.action ]

pub record ToolExecutionService : Type 0 where
  pub registry : ToolRegistry
  pub output_limit : ℕ
  pub capture : Tool → Fields → ToolCall → State → Result (Option Value)
  pub digits : ℕ → String
  pub error_text : Error → String

abbrev tool_event : String → ToolCall → Dict Value → Event
tool_event type call more = event type (("id", str call.id) ∷ ("name", str call.name) ∷ more)

module _ (service : ToolExecutionService) where
  abbrev pub truncation_entries : String → Dict Value
  truncation_entries raw =
      ("content_truncated", bool true)
      ∷ ("original_content_chars", num (text_length raw))
      ∷ ("content_limit_chars", num service.output_limit)
      ∷ []

  -- `_record_for_output`
  unfoldable pub record_for_output : ToolCall → Tool → ToolOutput → ToolResult
  unfolding truncate_text merge_dict
  record_for_output call tool output =
      let cut = truncate_text service.digits output.content service.output_limit in
      record {
        id = call.id;
        name = tool.name;
        status = ok_status output.succeeded;
        content = cut.0;
        metadata =
            if cut.1
            then merge_dict output.metadata (truncation_entries output.content)
            else output.metadata;
        error = none;
        state_update = none;
      }

  -- `_error_record`
  unfoldable pub error_record : ToolCall → Tool → Error → ToolResult
  unfolding truncate_text
  error_record call tool e =
      let raw = service.error_text e in
      let cut = truncate_text service.digits raw service.output_limit in
      record {
        id = call.id;
        name = tool.name;
        status = ToolResultStatus.error;
        content = cut.0;
        metadata = if cut.1 then truncation_entries raw else [];
        error = some (("message", str cut.0) ∷ []);
        state_update = none;
      }

  -- `_capture_file_snapshot`
  abbrev snapshot_of : Tool → Fields → ToolCall → State → Result (Option Value)
  snapshot_of tool parsed call s =
      if requires_file_snapshot tool then service.capture tool parsed call s else ok none

  abbrev with_snapshot : Option Value → ToolResult → ToolResult
  with_snapshot none r = r
  with_snapshot (some snapshot) r = record r { metadata = insert "snapshot" snapshot r.metadata }

  abbrev effects_of :
      ToolCall → Tool → ToolOutput → State → ToolResultStatus → Result (Option StateUpdate)
  unfolding apply_effects
  effects_of call tool output s ToolResultStatus.ok = do
    effects ← tool.state_effects call output s
    ok (recorded (apply_effects effects (read_files s) no_update))
  effects_of call tool output s _ = ok none

  -- The body of the `try`, after the input has been parsed.
  unfoldable pub completed : ToolCall → Tool → Fields → State → Result ToolResult
  unfolding record_for_output effects_of
  completed call tool parsed s = do
    snapshot ← snapshot_of tool parsed call s
    output ← tool.run parsed s
    state_update ← effects_of call tool output s (ok_status output.succeeded)
    let result = with_snapshot snapshot (record_for_output call tool output)
    ok (record result { state_update = state_update })

  abbrev pub started : ToolCall → List Event
  started call = tool_event "tool_call_started" call [] ∷ []

  abbrev finished : ToolResult → List Event
  finished r =
      event (if is_error r.status then "tool_call_error" else "tool_call_finished")
        (("id", str r.id) ∷ ("name", str r.name) ∷ ("status", str (status_name r.status)) ∷ [])
      ∷ []

  abbrev failed : ToolCall → List Event
  failed call = tool_event "tool_call_error" call (("status", str "error") ∷ []) ∷ []

  -- The `try` and its `except`.
  abbrev pub attempted : ToolCall → Tool → Result ToolResult → ToolResult × List Event
  unfolding error_record
  attempted call tool (ok result) = (result, started call ++ finished result)
  attempted call tool (raise e) = (error_record call tool e, started call ++ failed call)

  unfoldable pub parsed_call : ToolCall → Tool → State → Result Fields → ToolResult × List Event
  unfolding completed error_record
  parsed_call call tool s (ok parsed) = attempted call tool (completed call tool parsed s)
  parsed_call call tool s (raise e) = (error_record call tool e, failed call)

  -- `execute_with_activity`: an unknown tool is the only exception that it raises.
  unfoldable pub execute_with_activity : ToolCall → State → Result (ToolResult × List Event)
  unfolding get parsed_call
  execute_with_activity call s = do
    tool ← get service.registry call.name
    ok (parsed_call call tool s (tool.parse_input call.args))
