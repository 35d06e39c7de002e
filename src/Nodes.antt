-- ===== src/Nodes.antt =====
-- The nodes that handle a turn's tool calls, with graph/run_control.py and the reducers of graph/state.py.
-- The live stream of events that a node may also write is left out.
pub mod ToolRouter
pub mod PermissionGate
pub mod ToolExecutor
pub mod Approval
pub mod Entries
pub mod Finalize
pub mod Resolution
pub mod Answers
pub mod Tests
use langraph_agent_blueprint.Prelude.{
  String, Bool, true, Option, none, some, List, [], ◌∷◌, ◌++◌, if◌then◌else◌, ◌==◌,
}
use langraph_agent_blueprint.Prelude.Dict.{Dict, lookup, insert}
use langraph_agent_blueprint.Hooks.{HookPoint}
use langraph_agent_blueprint.Hooks.Service.{HookService, Overrides, run_hook_point}
use langraph_agent_blueprint.Permission.{PermissionMode}
use langraph_agent_blueprint.RunControl.{
  RunControlService, is_cancelled, cancellation_reason, default_cancellation_reason,
}
use langraph_agent_blueprint.State.{State, Update, empty_update, Message, ai, ToolCall, event}
use langraph_agent_blueprint.Tools.Execution.{ToolExecutionService}
use langraph_agent_blueprint.Value.{Value, Fields, str, bool, obj, fields_of}

-- `AppDependencies`, with the lower case and the JSON text that the redaction of arguments uses, and the
-- text of a value.
pub record AppDependencies : Type 0 where
  pub run_control : RunControlService
  pub hook_service : HookService
  pub tool_execution : ToolExecutionService
  pub permission_mode : PermissionMode
  pub lower : String → String
  pub dumps : Fields → String
  pub show : Value → String

abbrev pub with_entry : String → String → Dict Value → Dict Value
with_entry k text d = insert k (str text) d

-- `call.model_dump()`
abbrev pub dump_call : ToolCall → Value
dump_call call =
    obj (fields_of (("id", str call.id) ∷ ("name", str call.name) ∷ ("args", obj call.args) ∷ []))

unfoldable pub run_point : AppDependencies → State → HookPoint → Overrides → Update
unfolding run_hook_point
run_point deps s point overrides = run_hook_point deps.hook_service deps.show s point overrides

abbrev cancelled_update : State → String → String → Update
cancelled_update s node reason = record empty_update {
  metadata = some (
      insert "compact_after_route" (str "persist_session")
        (insert "runtime_cancelled" (bool true) s.metadata));
  pending_tool_calls = some [];
  pending_confirmation = some none;
  final_response = some (some default_cancellation_reason);
  messages = ai default_cancellation_reason [] ∷ [];
  ui_events =
      event "run_cancelled" (
        ("session_id", str (if s.session_id == "" then "unknown" else s.session_id))
        ∷ ("node", str node)
        ∷ ("thread_id", str s.thread_id)
        ∷ ("reason", str reason)
        ∷ [])
      ∷ [];
}

unfoldable pub cancellation_update : State → RunControlService → String → Option Update
unfolding is_cancelled cancellation_reason
cancellation_update s runs node =
    if is_cancelled runs (some s.thread_id)
    then some (cancelled_update s node (cancellation_reason runs (some s.thread_id)))
    else none

abbrev pub replaced {ℓ} : {A : Type ℓ} → A → Option A → A
replaced a none = a
replaced a (some b) = b

-- The type of `add_messages` of langgraph, which merges the messages of an update into those of the state.
abbrev pub MessagesReducer : Type 0
MessagesReducer = List Message → List Message → List Message

-- The state after a node: a list with the reducer `append_list` grows, the messages have the reducer
-- `add_messages`, a parameter, and any other key is overwritten.
unfoldable pub reduced : MessagesReducer → State → Update → State
reduced add_messages s u = record s {
  messages = add_messages s.messages u.messages;
  pending_tool_calls = replaced s.pending_tool_calls u.pending_tool_calls;
  tool_results = s.tool_results ++ u.tool_results;
  pending_confirmation = replaced s.pending_confirmation u.pending_confirmation;
  pending_subagent_approval = replaced s.pending_subagent_approval u.pending_subagent_approval;
  permission_decisions = s.permission_decisions ++ u.permission_decisions;
  todos = replaced s.todos u.todos;
  child_runs = s.child_runs ++ u.child_runs;
  active_skill = replaced s.active_skill u.active_skill;
  hooks_state = replaced s.hooks_state u.hooks_state;
  context_status = replaced s.context_status u.context_status;
  usage = replaced s.usage u.usage;
  errors = s.errors ++ u.errors;
  ui_events = s.ui_events ++ u.ui_events;
  final_response = replaced s.final_response u.final_response;
  metadata = replaced s.metadata u.metadata;
}
