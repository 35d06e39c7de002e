-- ===== src/Subagents/Resume.antt =====
-- graph/subgraphs/agent_graph.py: going on with a subagent that waits for an approval. The stored approval is
-- validated at once; what the child does after the decision is a parameter.
pub mod Laws
mod Tests
use langraph_agent_blueprint.Prelude.{
  suc, String, ◌<>◌, Bool, true, false, Option, none, some, List, [], ◌∷◌, ◌++◌, length,
  if◌then◌else◌,
}
use langraph_agent_blueprint.Prelude.Dict.{Dict, lookup}
use langraph_agent_blueprint.Prelude.Result.{Result, ok, ◌>>=◌}
use langraph_agent_blueprint.Nodes.PermissionGate.{
  PermissionDecision, resume_decision, record_of, record_entries, optional_value,
}
use langraph_agent_blueprint.Permission.Redact.{PermissionRequest}
use langraph_agent_blueprint.State.{
  State, Update, empty_update, ToolCall, Event, event, PermissionRecord,
}
use langraph_agent_blueprint.Subagents.{
  SubagentDependencies, SubagentRequest, ChildRunMetadata, ChildResult,
}
use langraph_agent_blueprint.Subagents.Events.{forward_child_events}
use langraph_agent_blueprint.Subagents.Prepare.{PreparedAgentCall}
use langraph_agent_blueprint.Subagents.Run.{settle, finalize_prepared_agent_call}
use langraph_agent_blueprint.Value.{Value, str, list_or_empty, texts}

-- The dict of `pending_subagent_approval`.
pub record PendingApproval : Type 0 where
  pub agent_call : ToolCall
  pub request : SubagentRequest
  pub metadata : ChildRunMetadata
  pub child_state : State
  pub child_events : List Event
  pub parent_metadata : Dict Value
  pub permission_request : PermissionRequest

-- The validation of a stored approval, and the run of the child's graph from the decision on, with the events
-- that it adds.
pub record ResumeDependencies : Type 0 where
  pub agents : SubagentDependencies
  pub validate_pending : Dict Value → Result PendingApproval
  pub resume_child : PendingApproval → PermissionDecision → Result ChildResult

abbrev pub call_of : PendingApproval → PreparedAgentCall
call_of pending = record {
  call = pending.agent_call;
  request = pending.request;
  metadata = pending.metadata;
  child_state = pending.child_state;
}

-- `_rejected_child_result`
unfoldable pub rejected_child_result : PendingApproval → PermissionDecision → ChildResult
rejected_child_result pending d =
    let summary : String =
      "Subagent tool call '" <> pending.permission_request.tool_name
      <> "' was rejected by user. No child side effect was executed." in
    record {
      interrupt = none;
      pending_confirmation = [];
      final_response = summary;
      errors =
          (("type", str "SubagentPermissionRejected")
            ∷ ("message", str summary)
            ∷ ("reason", optional_value d.reason)
            ∷ [])
          ∷ [];
      tool_results = [];
      allowed_tools =
          texts (list_or_empty (lookup "allowed_tools_override" pending.child_state.metadata));
      ui_events = [];
    }

-- `_subagent_permission_resolved_event`
abbrev resolved_event : PendingApproval → PermissionRecord → Event
resolved_event pending r = event "permission_resolved" (
    record_entries r
    ++ ("scope", str "subagent")
      ∷ ("child_run_id", str pending.metadata.child_run_id)
      ∷ ("child_session_id", str pending.metadata.child_session_id)
      ∷ ("child_thread_id", str pending.metadata.child_thread_id)
      ∷ [])

abbrev pub with_event : Event → Update → Update
with_event e u = record u { ui_events = e ∷ u.ui_events }

module _ (deps : ResumeDependencies) where
  unfoldable pub rejected : PendingApproval → PermissionDecision → Result Update
  unfolding rejected_child_result finalize_prepared_agent_call forward_child_events
  rejected pending d =
      let resolution =
        event "permission_resolved" (record_entries (record_of pending.permission_request d)) in
      finalize_prepared_agent_call deps.agents pending.parent_metadata (call_of pending)
        (rejected_child_result pending d) (pending.child_events ++ resolution ∷ [])
        (forward_child_events pending.metadata (suc (length pending.child_events))
          (resolution ∷ []))

  unfoldable pub approved : PendingApproval → PermissionDecision → Result Update
  unfolding settle forward_child_events
  approved pending d = do
    child ← deps.resume_child pending d
    settle deps.agents pending.parent_metadata (call_of pending) child child.interrupt
        (pending.child_events ++ child.ui_events)
        (forward_child_events pending.metadata (suc (length pending.child_events)) child.ui_events)

  unfoldable pub by_decision : Bool → PendingApproval → PermissionDecision → Result Update
  unfolding rejected approved
  by_decision true pending d = approved pending d
  by_decision false pending d = rejected pending d

  -- The resume after the validations, with the event of the decision first.
  unfoldable pub resolve : PendingApproval → PermissionDecision → Result Update
  unfolding by_decision
  resolve pending d = do
    u ← by_decision d.approved pending d
    ok (with_event (resolved_event pending (record_of pending.permission_request d)) u)

  unfoldable pub resume_stored : Option (Dict Value) → Value → Result Update
  unfolding resolve resume_decision
  resume_stored none payload = ok empty_update
  resume_stored (some stored) payload = do
    pending ← deps.validate_pending stored
    decision ← resume_decision payload
    resolve pending decision

  abbrev pub resume_pending_subagent_approval : State → Value → Result Update
  unfolding resume_stored
  resume_pending_subagent_approval s payload = resume_stored s.pending_subagent_approval payload
