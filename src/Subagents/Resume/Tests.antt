-- ===== src/Subagents/Resume/Tests.antt =====
-- A rejected approval.
use langraph_agent_blueprint.Prelude.{◌≡◌, refl, false, none, some, [], ◌∷◌}
use langraph_agent_blueprint.Prelude.Dict.{Dict, lookup, insert, remove}
use langraph_agent_blueprint.Prelude.Result.{Result, ok, raise}
use langraph_agent_blueprint.Nodes.PermissionGate.{PermissionDecision, resume_decision}
use langraph_agent_blueprint.Permission.{write, high}
use langraph_agent_blueprint.Permission.Redact.{PermissionRequest}
use langraph_agent_blueprint.State.{State, Update, empty_update}
use langraph_agent_blueprint.State.Updates.Tests.{blank}
use langraph_agent_blueprint.Subagents.{ChildResult, ChildRunMetadata, running}
use langraph_agent_blueprint.Subagents.Resume.{
  PendingApproval, ResumeDependencies, resume_pending_subagent_approval, resume_stored,
}
use langraph_agent_blueprint.Subagents.Resume.Laws.{
  IsDecided, resume_pending_subagent_approval-IsDecided,
}
use langraph_agent_blueprint.Subagents.Tests.{agents, request, first_call, finished}
use langraph_agent_blueprint.Value.{Value, bool, str, end}

abbrev permission_request : PermissionRequest
permission_request = record {
  tool_name = "write_file";
  tool_call_id = "c9";
  action = write;
  args_summary = "{}";
  risk = high;
  args = end;
  reason = "write_file requires approval";
}

abbrev child : ChildRunMetadata
child = record {
  child_run_id = "child_1";
  parent_session_id = "session_1";
  parent_thread_id = "thread_1";
  child_session_id = "session_2";
  child_thread_id = "thread_2";
  name = none;
  purpose = none;
  status = running;
  metadata = [];
}

abbrev stored_approval : PendingApproval
stored_approval = record {
  agent_call = first_call;
  request = request;
  metadata = child;
  child_state = blank;
  child_events = [];
  parent_metadata = [];
  permission_request = permission_request;
}

abbrev validate_pending : Dict Value → Result PendingApproval
validate_pending d = ok stored_approval

abbrev resume_child : PendingApproval → PermissionDecision → Result ChildResult
resume_child pending d = ok finished

abbrev resume_deps : ResumeDependencies
resume_deps = record {
  agents = agents;
  validate_pending = validate_pending;
  resume_child = resume_child;
}

abbrev waiting : State
waiting = record blank { pending_subagent_approval = some (("agent_call", str "c1") ∷ []) }

abbrev update_of : Result Update → Update
update_of (ok u) = u
update_of (raise e) = empty_update

abbrev rejection : Update
unfolding resume_stored
rejection = update_of (resume_stored resume_deps waiting.pending_subagent_approval (bool false))

resumed : resume_pending_subagent_approval resume_deps waiting (bool false) ≡ ok rejection
unfolding resume_pending_subagent_approval resume_stored rejection lookup insert remove
resumed = refl

resume_pending_subagent_approval-IsDecided_example :
    (pending : PendingApproval) × (d : PermissionDecision) × (resume_deps.validate_pending
        (("agent_call", str "c1") ∷ [])
      ≡ ok pending)
    × (resume_decision (bool false) ≡ ok d)
    × IsDecided resume_deps pending d rejection
resume_pending_subagent_approval-IsDecided_example =
    resume_pending_subagent_approval-IsDecided resume_deps waiting (("agent_call", str "c1") ∷ [])
      (bool false) rejection refl resumed
