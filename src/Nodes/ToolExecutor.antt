-- ===== src/Nodes/ToolExecutor.antt =====
-- graph/nodes/tool_executor.py: running the pending tool calls. Durations are left out. `stored` collects
-- the records that `append_tool_call` writes to the session's log.
use langraph_agent_blueprint.Prelude.{
  ℕ, suc, String, ◌<>◌, Bool, true, false, ◌||◌, Option, none, some, List, [], ◌∷◌, ◌++◌, ltb,
  if◌then◌else◌, ◌==◌,
}
use langraph_agent_blueprint.Prelude.Dict.{Dict, lookup, insert, remove}
use langraph_agent_blueprint.Prelude.Result.{Result, ok, ◌>>=◌}
use langraph_agent_blueprint.Hooks.{post_tool}
use langraph_agent_blueprint.Nodes.{AppDependencies, run_point, cancellation_update}
use langraph_agent_blueprint.State.{
  State, Update, empty_update, ToolCall, ToolResult, StateUpdate, tool_result_to_tool_message,
  Message, Event, event,
}
use langraph_agent_blueprint.State.Updates.{merge_updates, state_with_update}
use langraph_agent_blueprint.Tools.{Tool, ToolRoute, ToolKind, get, mcp_graph, mcp}
use langraph_agent_blueprint.Tools.Execution.{is_error, status_name, execute_with_activity}
use langraph_agent_blueprint.Value.{
  Value, Items, null, bool, num, str, arr, obj, nil, cons, fields_of, dict_of, list_or_empty,
  append_item, merge_dict, value_or,
}

abbrev pub recoverable_tool_error_limit : ℕ
recoverable_tool_error_limit = 3

abbrev is_mcp_kind : ToolKind → Bool
is_mcp_kind mcp = true
is_mcp_kind _ = false

abbrev is_mcp_route : ToolRoute → Bool
is_mcp_route mcp_graph = true
is_mcp_route _ = false

-- The local variables of the loop.
pub record Progress : Type 0 where
  pub events : List Event
  pub results : List ToolResult
  pub errors : List (Dict Value)
  pub todos : Items
  pub child_runs : List Value
  pub metadata : Dict Value
  pub messages : List Message
  pub stored : List ToolResult
  pub recoverable_error_count : ℕ

-- `int(metadata.get("recoverable_tool_error_count", 0) or 0)`, for a count.
abbrev pub count_of : Option Value → ℕ
count_of (some (num n)) = n
count_of _ = 0

abbrev pub begun : State → Progress
begun s = record {
  events = [];
  results = [];
  errors = [];
  todos = s.todos;
  child_runs = [];
  metadata = s.metadata;
  messages = [];
  stored = [];
  recoverable_error_count = count_of (lookup "recoverable_tool_error_count" s.metadata);
}

abbrev mcp_event : String → Tool → List (String × Value) → Event
mcp_event type tool entries = event type (
    entries
    ++ ("server_name", value_or null (lookup "server_name" tool.mcp))
      ∷ ("tool_name", value_or null (lookup "tool_name" tool.mcp))
      ∷ [])

abbrev mcp_started : ToolCall → Tool → List Event
mcp_started call tool =
    if is_mcp_kind tool.kind || is_mcp_route tool.route
    then mcp_event "mcp_tool_call_started" tool (("id", str call.id) ∷ ("name", str call.name) ∷ [])
      ∷ []
    else []

abbrev mcp_finished : ToolResult → Tool → List Event
mcp_finished r tool =
    if is_mcp_kind tool.kind || is_mcp_route tool.route
    then mcp_event (if is_error r.status then "mcp_tool_call_error" else "mcp_tool_call_finished")
        tool (("id", str r.id) ∷ ("name", str r.name) ∷ ("status", str (status_name r.status)) ∷ [])
      ∷ []
    else []

-- Whether a snapshot of that id is among the snapshots.
abbrev has_snapshot : Items → String → Bool
has_snapshot nil id = false
has_snapshot (cons (obj fields) xs) id =
    let rest = has_snapshot xs id in
    elim (lookup "snapshot_id" (dict_of fields)) [
      | some (str text) ↦ text == id || rest
      | some _ ↦ rest
      | none ↦ rest
    ]
has_snapshot (cons v xs) id = has_snapshot xs id

-- `_append_file_snapshot`; the id of a snapshot is a text.
unfoldable pub append_file_snapshot : Items → Dict Value → Items
append_file_snapshot snapshots snapshot = elim (lookup "snapshot_id" snapshot) [
  | some (str id) ↦
      if id == "" || has_snapshot snapshots id
      then snapshots
      else append_item snapshots (obj (fields_of snapshot))
  | some _ ↦ snapshots
  | none ↦ snapshots
]

abbrev with_snapshot : Option Value → Dict Value → Dict Value
unfolding append_file_snapshot
with_snapshot (some (obj fields)) metadata =
    insert "file_snapshots"
      (arr
        (append_file_snapshot (list_or_empty (lookup "file_snapshots" metadata)) (dict_of fields)))
      metadata
with_snapshot _ metadata = metadata

abbrev todos_of : Option StateUpdate → Items → Items
todos_of none todos = todos
todos_of (some u) todos = elim u.todos [ none ↦ todos | some new ↦ new ]

abbrev child_runs_of : Option StateUpdate → List Value
child_runs_of none = []
child_runs_of (some u) = u.child_runs

abbrev metadata_of : Option StateUpdate → Dict Value → Dict Value
unfolding merge_dict
metadata_of none metadata = metadata
metadata_of (some u) metadata = merge_dict metadata u.metadata

abbrev text_or : Option Value → String → String
text_or (some (str text)) other = if text == "" then other else text
text_or _ other = other

-- `_terminal_recoverable_error_payload`; the message of an error record is a text.
unfoldable pub terminal_payload : (ℕ → String) → Dict Value → ToolResult → ℕ → Dict Value
terminal_payload digits e r attempts =
    let content = if r.content == "" then "Tool execution failed" else r.content in
    let message : String =
      "Maximum recoverable tool error attempts exceeded after "
      <> digits attempts
      <> " failed tool calls. Last "
      <> (if r.name == "" then "tool" else r.name)
      <> " error: "
      <> text_or (lookup "message" e) content in
    insert "message" (str message) (
      insert "recoverable" (bool false) (
        insert "tool_call_id" (str r.id) (
          insert "tool_name" (str r.name) (
            insert "recoverable_tool_error_limit" (num recoverable_tool_error_limit)
              (insert "recoverable_tool_error_count" (num attempts) e)))))

-- `record.get("error")`, where it is set.
abbrev pub error_of : ToolResult → Option (Dict Value)
error_of r = elim r.error [ none ↦ none | some [] ↦ none | some (x ∷ d) ↦ some (x ∷ d) ]

-- The last lines of the loop: the count of errors in a row, and the error that ends the run.
unfoldable pub count_error : (ℕ → String) → ToolResult → Option (Dict Value) → Progress → Progress
unfolding terminal_payload
count_error digits r (some e) p =
    let count = suc p.recoverable_error_count in
    record p {
      recoverable_error_count = count;
      metadata = insert "recoverable_tool_error_count" (num count) p.metadata;
      errors =
          if ltb recoverable_tool_error_limit count
          then p.errors ++ terminal_payload digits e r count ∷ []
          else p.errors;
    }
count_error digits r none p = record p {
  recoverable_error_count = 0;
  metadata = remove "recoverable_tool_error_count" p.metadata;
}

-- What the loop does with the result of one call, before it counts errors.
unfoldable pub collect : ToolCall → Tool → ToolResult → List Event → Progress → Progress
unfolding with_snapshot metadata_of tool_result_to_tool_message
collect call tool r activity p = record p {
  events = p.events ++ mcp_started call tool ++ activity ++ mcp_finished r tool;
  results = p.results ++ r ∷ [];
  messages = p.messages ++ tool_result_to_tool_message r ∷ [];
  stored = p.stored ++ r ∷ [];
  todos = todos_of r.state_update p.todos;
  child_runs = p.child_runs ++ child_runs_of r.state_update;
  metadata = with_snapshot (lookup "snapshot" r.metadata) (metadata_of r.state_update p.metadata);
}

module _ (deps : AppDependencies) (s : State) where
  -- One round of the loop.
  unfoldable pub execute_call : ToolCall → Progress → Result Progress
  unfolding collect count_error get execute_with_activity
  execute_call call p = do
    tool ← get deps.tool_execution.registry call.name
    outcome ← execute_with_activity deps.tool_execution call s
    ok (
        count_error deps.tool_execution.digits outcome.0 (error_of outcome.0)
          (collect call tool outcome.0 outcome.1 p))

  unfoldable pub execute_calls : List ToolCall → Progress → Result Progress
  unfolding execute_call
  execute_calls [] p = ok p
  execute_calls (call ∷ calls) p = do p' ← execute_call call p; execute_calls calls p'

  abbrev dump_results : List ToolResult → Option Value
  dump_results [] = none
  dump_results (r ∷ rs) = some (
      obj (
        fields_of (
          ("id", str r.id)
          ∷ ("name", str r.name)
          ∷ ("status", str (status_name r.status))
          ∷ ("content", str r.content)
          ∷ ("metadata", obj (fields_of r.metadata))
          ∷ [])))

  unfoldable pub executed_update : Progress → Update
  executed_update p = record empty_update {
    pending_tool_calls = some [];
    tool_results = p.results;
    messages = p.messages;
    todos = some p.todos;
    child_runs = p.child_runs;
    metadata = some p.metadata;
    errors = p.errors;
    ui_events = p.events;
  }

  unfoldable pub post_update : Progress → Update
  unfolding executed_update run_point state_with_update
  post_update p =
      run_point deps (state_with_update s (executed_update p)) post_tool
        (record { active_tool = dump_results p.results; permission_request = none; metadata = [] })

  unfoldable pub with_post_hooks : Progress → Update
  unfolding executed_update post_update merge_updates
  with_post_hooks p = merge_updates (executed_update p ∷ post_update p ∷ [])

  unfoldable pub executed : Option Update → Result (Update × List ToolResult)
  unfolding with_post_hooks execute_calls
  executed (some cancelled) = ok (cancelled, [])
  executed none = do
    p ← execute_calls s.pending_tool_calls (begun s)
    ok (with_post_hooks p, p.stored)

  -- The node, with the records that it stores.
  unfoldable pub tool_executor_node : Result (Update × List ToolResult)
  unfolding cancellation_update executed
  tool_executor_node = executed (cancellation_update s deps.run_control "tool_executor")
