-- ===== src/Nodes/Finalize.antt =====
-- graph/nodes/finalize_response.py and graph/nodes/error_recovery.py: the text that a turn ends with.
pub mod Laws
pub mod Tests
use langraph_agent_blueprint.Prelude.{
  String, ◌<>◌, Bool, true, false, Option, none, some, List, [], ◌∷◌, ◌&&◌, ◌==◌, reverse,
  if◌then◌else◌,
}
use langraph_agent_blueprint.Prelude.Dict.{Dict, insert, lookup}
use langraph_agent_blueprint.Hooks.{error}
use langraph_agent_blueprint.Nodes.{AppDependencies, run_point}
use langraph_agent_blueprint.State.{
  State, Update, empty_update, event, Message, ai, ToolResult, ToolResultStatus, ok, rejected,
  disabled, unavailable,
}
use langraph_agent_blueprint.State.Updates.{merge_updates}
use langraph_agent_blueprint.Value.{Value, str, bool, obj, fields_of}

abbrev status_name : ToolResultStatus → String
status_name ok = "ok"
status_name ToolResultStatus.error = "error"
status_name rejected = "rejected"
status_name disabled = "disabled"
status_name unavailable = "unavailable"

abbrev pub line_rest : ToolResult → String
line_rest r = r.name <> " " <> status_name r.status <> ": " <> r.content

abbrev pub result_line : ToolResult → String
result_line r = "Tool " <> line_rest r

-- The loop over the tool results, from the newest to the oldest.
abbrev pub from_results : List ToolResult → String
from_results [] = ""
from_results (r ∷ rs) = result_line r

-- The loop over the messages, from the newest to the oldest.
abbrev pub from_messages : List Message → String
from_messages [] = ""
from_messages (ai content calls ∷ ms) = content
from_messages (m ∷ ms) = from_messages ms

abbrev pub text_or_empty : Option String → String
text_or_empty none = ""
text_or_empty (some t) = t

-- `value or other`
abbrev pub or_text : String → String → String
or_text t other = if t == "" then other else t

unfoldable pub final_text : State → String
final_text s =
    or_text (or_text (text_or_empty s.final_response) (from_results (reverse s.tool_results)))
      (from_messages (reverse s.messages))

abbrev is_compact : Option Value → Bool
is_compact (some (str route)) = route == "compact"
is_compact v = false

unfoldable pub finalize_response_node : State → Update
unfolding final_text
finalize_response_node s =
    let final = final_text s in
    let metadata = insert "graph_finished" (bool true) s.metadata in
    record empty_update {
      final_response = some (some final);
      metadata = some metadata;
      ui_events =
          if is_compact (lookup "compact_route" metadata) && final == ""
          then []
          else event "final_response" (("content", str final) ∷ []) ∷ [];
    }

abbrev unknown_error : Dict Value
unknown_error = ("message", str "Unknown error") ∷ []

-- `errors[-1] if errors else {"message": "Unknown error"}`
abbrev pub latest_error : List (Dict Value) → Dict Value
latest_error [] = unknown_error
latest_error (e ∷ []) = e
latest_error (e ∷ f ∷ es) = latest_error (f ∷ es)

-- An entry as the text of an f-string.
abbrev shown : (Value → String) → Option Value → String
shown show none = "None"
shown show (some v) = show v

abbrev pub recovery_prefix : String
recovery_prefix = "Recovered from error: "

abbrev pub error_message : (Value → String) → State → String
error_message show s = shown show (lookup "message" (latest_error s.errors))

abbrev pub recovery_text : (Value → String) → State → String
recovery_text show s = recovery_prefix <> error_message show s

unfoldable pub error_recovery_node : AppDependencies → State → Update
unfolding merge_updates run_point lookup
error_recovery_node deps s =
    let latest = latest_error s.errors in
    let final = recovery_text deps.show s in
    let hook_update = run_point deps s error (record {
      active_tool = none;
      permission_request = none;
      metadata = ("error", obj (fields_of latest)) ∷ [];
    }) in
    merge_updates (
      hook_update
      ∷ record empty_update {
        pending_tool_calls = some [];
        final_response = some (some final);
        ui_events =
            event "error" latest ∷ event "final_response" (("content", str final) ∷ []) ∷ [];
      }
      ∷ [])
