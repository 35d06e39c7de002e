-- ===== src/Subagents/Run.antt =====
-- graph/subgraphs/agent_graph.py: one prepared call of the agent tool, from its run to its result.
use langraph_agent_blueprint.Prelude.{
  ℕ, suc, ◌+◌, String, Bool, true, false, not, Option, none, some, List, [], ◌∷◌, ◌++◌, length,
  if◌then◌else◌, ◌==◌,
}
use langraph_agent_blueprint.Prelude.Dict.{Dict, lookup, insert, remove}
use langraph_agent_blueprint.Prelude.Result.{Result, ok, ◌>>=◌}
use langraph_agent_blueprint.Nodes.{dump_call}
use langraph_agent_blueprint.State.{
  State, Update, empty_update, ToolCall, ToolResult, ToolResultStatus, tool_result_to_tool_message,
  Event, event,
}
use langraph_agent_blueprint.Subagents.{
  SubagentRequest, SubagentResult, ChildRunMetadata, completed, failed, ChildResult,
  SubagentDependencies,
}
use langraph_agent_blueprint.Subagents.Scope.{optional_text}
use langraph_agent_blueprint.Value.{
  Value, Items, bool, num, str, obj, arr, nil, cons, fields_of, items, list_or_empty, append_item,
}
use langraph_agent_blueprint.Subagents.Events.{
  status_text, subagent_lifecycle_event, forward_child_events, persistence_events,
}
use langraph_agent_blueprint.Subagents.Prepare.{PreparedAgentCall}

-- `_last_tool_result_content`
abbrev last_tool_result_content : List ToolResult → String
last_tool_result_content [] = ""
last_tool_result_content (r ∷ []) = r.content
last_tool_result_content (r ∷ rs) = last_tool_result_content rs

abbrev or_text : String → String → String
or_text text other = if text == "" then other else text

-- The child's metadata, its result and the type of the last event.
pub record Summary : Type 0 where
  pub metadata : ChildRunMetadata
  pub result : SubagentResult
  pub event_type : String

abbrev has_errors : List (Dict Value) → Bool
has_errors [] = false
has_errors (e ∷ es) = true

-- `_summarize_child_run`, for a child that was not interrupted.
unfoldable pub summarize_child_run : ChildRunMetadata → ChildResult → Summary
unfolding insert
summarize_child_run m child =
    let bad = has_errors child.errors in
    record {
      metadata = record m {
        status = if bad then failed else completed;
        metadata = insert "allowed_tools" (arr (items child.allowed_tools)) m.metadata;
      };
      result = record {
        child_run_id = m.child_run_id;
        succeeded = not bad;
        summary = or_text child.final_response (
            or_text (last_tool_result_content child.tool_results)
              "Subagent completed without a final response.");
        errors = child.errors;
      };
      event_type = if bad then "subagent_error" else "subagent_finished";
    }

abbrev first_error : List (Dict Value) → Option (Dict Value)
first_error [] = none
first_error (e ∷ es) = some e

abbrev metadata_value : ChildRunMetadata → Dict Value
metadata_value m =
    ("child_run_id", str m.child_run_id)
    ∷ ("child_session_id", str m.child_session_id)
    ∷ ("child_thread_id", str m.child_thread_id)
    ∷ ("name", optional_text m.name)
    ∷ ("purpose", optional_text m.purpose)
    ∷ ("status", str (status_text m.status))
    ∷ []

-- The tool result of a finished child run.
unfoldable pub child_tool_result : ToolCall → ChildRunMetadata → SubagentResult → ToolResult
child_tool_result call m r = record {
  id = call.id;
  name = call.name;
  status = if r.succeeded then ToolResultStatus.ok else ToolResultStatus.error;
  content = r.summary;
  metadata = metadata_value m;
  error = first_error r.errors;
  state_update = none;
}

-- `dump_model(metadata)`
abbrev dump_metadata : ChildRunMetadata → Value
dump_metadata m = obj (
    fields_of (
      ("child_run_id", str m.child_run_id)
      ∷ ("parent_session_id", str m.parent_session_id)
      ∷ ("parent_thread_id", str m.parent_thread_id)
      ∷ ("child_session_id", str m.child_session_id)
      ∷ ("child_thread_id", str m.child_thread_id)
      ∷ ("name", optional_text m.name)
      ∷ ("purpose", optional_text m.purpose)
      ∷ ("status", str (status_text m.status))
      ∷ ("metadata", obj (fields_of m.metadata))
      ∷ []))

abbrev error_items : List (Dict Value) → Items
error_items [] = nil
error_items (e ∷ es) = cons (obj (fields_of e)) (error_items es)

abbrev result_status : SubagentResult → Value
result_status r = str (if r.succeeded then "ok" else "error")

-- `dump_model(result)`
abbrev dump_result : SubagentResult → Value
dump_result r = obj (
    fields_of (
      ("child_run_id", str r.child_run_id)
      ∷ ("status", result_status r)
      ∷ ("summary", str r.summary)
      ∷ ("errors", arr (error_items r.errors))
      ∷ []))

abbrev child_record : ChildRunMetadata → SubagentResult → Value
child_record m r = obj (
    fields_of (
      ("id", str m.child_run_id)
      ∷ ("status", str (status_text m.status))
      ∷ ("metadata", dump_metadata m)
      ∷ ("result", dump_result r)
      ∷ ("result_summary", str r.summary)
      ∷ ("result_status", result_status r)
      ∷ []))

abbrev pub has_item : Items → String → Bool
has_item nil id = false
has_item (cons (str text) xs) id = let rest = has_item xs id in if text == id then true else rest
has_item (cons v xs) id = has_item xs id

-- `child_run_refs` with one more run.
unfoldable pub with_ref : Items → String → Items
with_ref refs id = if has_item refs id then refs else append_item refs (str id)

module _ (deps : SubagentDependencies) where
  unfoldable pub started_event : PreparedAgentCall → Event
  unfolding subagent_lifecycle_event
  started_event p = subagent_lifecycle_event p.metadata "subagent_started" 0 "running"

  -- The update for a finished child, from the parent's metadata, the events so far, the number of the child's
  -- events, and the results of the two writes.
  unfoldable pub finished_update :
      Dict Value
      → PreparedAgentCall
      → Summary
      → List Event
      → ℕ
      → Result {0} Unit
      → Result {0} Unit
      → Update
  unfolding child_tool_result with_ref tool_result_to_tool_message subagent_lifecycle_event insert
      remove
  finished_update parent_metadata p summary events count stored saved =
      let m = summary.metadata in
      let r = child_tool_result p.call m summary.result in
      let first =
        persistence_events deps.app.tool_execution.error_text m
          "agent_tool_result_persistence_error" (suc count) stored in
      let second =
        persistence_events deps.app.tool_execution.error_text m "child_run_persistence_error"
          (suc (count + length first)) saved in
      let refs =
        with_ref (list_or_empty (lookup "child_run_refs" parent_metadata)) m.child_run_id in
      record empty_update {
        metadata = some (insert "child_run_refs" (arr refs) (remove "agent_route" parent_metadata));
        child_runs = child_record m summary.result ∷ [];
        pending_subagent_approval = some none;
        pending_tool_calls = some [];
        tool_results = r ∷ [];
        messages = tool_result_to_tool_message r ∷ [];
        ui_events =
            events
            ++ first
            ++ second
            ++ subagent_lifecycle_event m summary.event_type
                (suc (count + length first + length second)) (status_text m.status)
              ∷ [];
      }

  -- `_finalize_prepared_agent_call`; a failed write does not fail the call. `child_events` are all the
  -- events of the child, and `events` those of the update so far.
  unfoldable pub finalize_prepared_agent_call :
      Dict Value → PreparedAgentCall → ChildResult → List Event → List Event → Result Update
  unfolding summarize_child_run finished_update child_tool_result
  finalize_prepared_agent_call parent_metadata p child child_events events = do
    let summary = summarize_child_run p.metadata child
    done ← deps.delete_child_thread summary.metadata.child_thread_id
    ok (
        finished_update parent_metadata p summary events (length child_events)
          (deps.append_tool_call (child_tool_result p.call summary.metadata summary.result))
          (deps.save_child_run summary.metadata summary.result child_events))

  abbrev payload_or : Dict Value → Dict Value → Dict Value
  payload_or [] other = other
  payload_or (x ∷ d) other = x ∷ d

  -- `_subagent_permission_request`
  unfoldable pub subagent_permission_request :
      ChildRunMetadata → Dict Value → Dict Value → Result (Dict Value)
  unfolding insert
  subagent_permission_request m interrupt confirmation = deps.validate_permission (
      insert "subagent_name" (optional_text m.name) (
        insert "child_run_id" (str m.child_run_id) (
          insert "child_thread_id" (str m.child_thread_id) (
            insert "child_session_id" (str m.child_session_id) (
              insert "parent_thread_id" (str m.parent_thread_id) (
                insert "parent_session_id" (str m.parent_session_id)
                  (insert "scope" (str "subagent") (payload_or interrupt confirmation))))))))

  abbrev request_value : SubagentRequest → Value
  request_value r = obj (
      fields_of (
        ("prompt", str r.prompt)
        ∷ ("name", optional_text r.name)
        ∷ ("purpose", optional_text r.purpose)
        ∷ ("allowed_tools", arr (items r.allowed_tools))
        ∷ ("max_turns", num r.max_turns)
        ∷ ("inherit_todos", bool r.inherit_todos)
        ∷ ("inherit_context", bool r.inherit_context)
        ∷ []))

  abbrev event_items : List Event → Items
  event_items [] = nil
  event_items (e ∷ es) =
      cons (obj (fields_of (("type", str e.type) ∷ ("data", obj (fields_of e.payload)) ∷ [])))
        (event_items es)

  -- `_subagent_permission_update`
  unfoldable pub subagent_permission_update :
      Dict Value
      → PreparedAgentCall
      → ChildResult
      → Dict Value
      → List Event
      → List Event
      → Result Update
  unfolding subagent_permission_request insert
  subagent_permission_update parent p child interrupt child_events events = do
    payload ← subagent_permission_request p.metadata interrupt child.pending_confirmation
    let parent_metadata = insert "agent_route" (str "needs_subagent_permission") parent
    ok (record empty_update {
      metadata = some parent_metadata;
      pending_subagent_approval = some (
          some (
            ("agent_call", dump_call p.call)
            ∷ ("request", request_value p.request)
            ∷ ("metadata", dump_metadata p.metadata)
            ∷ ("child_state", deps.dump_state p.child_state)
            ∷ ("child_events", arr (event_items child_events))
            ∷ ("parent_metadata", obj (fields_of parent_metadata))
            ∷ ("permission_request", obj (fields_of payload))
            ∷ []));
      ui_events = events ++ event "permission_required" payload ∷ [];
    })

  -- The end of a run: the child was interrupted, with a value, or not.
  unfoldable pub settle :
      Dict Value
      → PreparedAgentCall
      → ChildResult
      → Option (Dict Value)
      → List Event
      → List Event
      → Result Update
  unfolding subagent_permission_update finalize_prepared_agent_call
  settle parent_metadata p child none child_events events =
      finalize_prepared_agent_call parent_metadata p child child_events events
  settle parent_metadata p child (some payload) child_events events =
      subagent_permission_update parent_metadata p child payload child_events events

  -- `_run_prepared_agent_call`
  unfoldable pub run_prepared_agent_call : State → PreparedAgentCall → Result Update
  unfolding settle forward_child_events started_event
  run_prepared_agent_call s p = do
    child ← deps.run_child p.child_state p.request
    settle s.metadata p child child.interrupt child.ui_events
        (started_event p ∷ forward_child_events p.metadata 1 child.ui_events)
