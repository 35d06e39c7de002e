-- ===== src/Nodes/PermissionGate.antt =====
-- graph/nodes/permission_gate.py: the decision of the user on a pending call. `decision` is what the
-- interrupt returns when the run is resumed. Of the decisions that pydantic would coerce to the types of
-- `PermissionDecision` only those that have these types already are accepted.
use langraph_agent_blueprint.Prelude.{
  String, ◌<>◌, Bool, true, false, Option, none, some, List, [], ◌∷◌, all, contains, if◌then◌else◌,
  ◌==◌,
}
use langraph_agent_blueprint.Prelude.Dict.{Dict, lookup, insert, remove, keys}
use langraph_agent_blueprint.Prelude.Result.{Result, ok, raise, value_error, ◌>>=◌}
use langraph_agent_blueprint.Hooks.{permission_resolved}
use langraph_agent_blueprint.Hooks.Service.{Overrides}
use langraph_agent_blueprint.Nodes.{AppDependencies, with_entry, run_point}
use langraph_agent_blueprint.Permission.Redact.{PermissionRequest}
use langraph_agent_blueprint.State.{
  State, Update, empty_update, ToolCall, ToolResult, ToolResultStatus, PermissionRecord,
  tool_result_to_tool_message, ai, Event, event,
}
use langraph_agent_blueprint.State.Updates.{merge_updates, state_with_update}
use langraph_agent_blueprint.Value.{
  Value, null, bool, str, obj, truthy, is_set, dict_of, fields_of, value_or,
}

pub record PermissionDecision : Type 0 where
  pub approved : Bool
  pub reason : Option String
  pub remember : Bool

abbrev optional_str : Option Value → Result (Option String)
optional_str none = ok none
optional_str (some null) = ok none
optional_str (some (str text)) = ok (some text)
optional_str (some v) = raise (value_error "Input should be a valid string")

abbrev strict_bool : Option Value → Result Bool
strict_bool none = ok false
strict_bool (some (bool b)) = ok b
strict_bool (some v) = raise (value_error "Input should be a valid boolean")

abbrev approved_of : Value → Result Bool
approved_of (str text) =
    if text == "approved"
    then ok true
    else if text == "rejected"
    then ok false
    else raise (value_error "Input should be 'approved' or 'rejected'")
approved_of v = raise (value_error "Input should be 'approved' or 'rejected'")

-- The model forbids other keys.
abbrev no_extra : List String → Result (List String)
no_extra names =
    if all (contains ("tool_call_id" ∷ "decision" ∷ "reason" ∷ "remember" ∷ [])) names
    then ok names
    else raise (value_error "Extra inputs are not permitted")

abbrev call_id_of : Option Value → Result (Option String)
call_id_of none = ok none
call_id_of (some (str text)) = ok (some text)
call_id_of (some v) = raise (value_error "Input should be a valid string")

abbrev validated : Bool → Option Value → Option Value → Result PermissionDecision
validated approved reason remember = do
  r ← optional_str reason
  m ← strict_bool remember
  ok (record { approved = approved; reason = r; remember = m })

abbrev decided : Dict Value → Option Value → Result PermissionDecision
decided d (some v) = do
  known ← no_extra (keys d)
  id ← call_id_of (lookup "tool_call_id" d)
  approved ← approved_of v
  validated approved (lookup "reason" d) (lookup "remember" d)
decided d none =
    validated (is_set (lookup "approved" d)) (lookup "reason" d)
      (some (bool (is_set (lookup "remember" d))))

-- `_resume_decision`
unfoldable pub resume_decision : Value → Result PermissionDecision
resume_decision (obj fields) = decided (dict_of fields) (lookup "decision" (dict_of fields))
resume_decision v = ok (record { approved = truthy v; reason = none; remember = false })

-- `_rejected_permission_final_response`
abbrev pub rejected_permission_final_response : PermissionRequest → String
rejected_permission_final_response request =
    "Tool call '" <> request.tool_name <> "' was rejected by user. No tool was executed."

abbrev pub record_of : PermissionRequest → PermissionDecision → PermissionRecord
record_of request d = record {
  tool_call_id = request.tool_call_id;
  tool_name = request.tool_name;
  approved = d.approved;
  reason = d.reason;
  remember = d.remember;
}

abbrev pub optional_value : Option String → Value
optional_value none = null
optional_value (some text) = str text

abbrev pub record_entries : PermissionRecord → Dict Value
record_entries r =
    ("tool_call_id", str r.tool_call_id)
    ∷ ("tool_name", str r.tool_name)
    ∷ ("approved", bool r.approved)
    ∷ ("decision", str (if r.approved then "approved" else "rejected"))
    ∷ ("reason", optional_value r.reason)
    ∷ ("remember", bool r.remember)
    ∷ []

abbrev resolved_event : PermissionRecord → Event
resolved_event r = event "permission_resolved" (record_entries r)

-- `metadata["tool_route"] = metadata.pop("after_permission_route", "execute")`
abbrev approved_metadata : Dict Value → Dict Value
approved_metadata metadata =
    insert "tool_route" (value_or (str "execute") (lookup "after_permission_route" metadata))
      (remove "after_permission_route" metadata)

unfoldable pub approved_update : State → PermissionRecord → Update
approved_update s r = record empty_update {
  metadata = some (approved_metadata s.metadata);
  pending_confirmation = some none;
  permission_decisions = r ∷ [];
  ui_events = resolved_event r ∷ [];
}

abbrev pub rejected_tool_result : ToolCall → PermissionRequest → ToolResult
rejected_tool_result call request = record {
  id = call.id;
  name = request.tool_name;
  status = ToolResultStatus.rejected;
  content = rejected_permission_final_response request;
  metadata = [];
  error = none;
  state_update = none;
}

unfoldable pub rejected_update : State → PermissionRequest → PermissionRecord → ToolCall → Update
unfolding tool_result_to_tool_message
rejected_update s request r call =
    let result = rejected_tool_result call request in
    record empty_update {
      metadata = some (with_entry "tool_route" "rejected" s.metadata);
      pending_confirmation = some none;
      permission_decisions = r ∷ [];
      pending_tool_calls = some [];
      tool_results = result ∷ [];
      messages =
          tool_result_to_tool_message result
          ∷ ai (rejected_permission_final_response request) []
          ∷ [];
      final_response = some (some (rejected_permission_final_response request));
      ui_events = resolved_event r ∷ [];
    }

abbrev pub resolved_overrides : PermissionRequest → PermissionRecord → Overrides
resolved_overrides request r = record {
  active_tool = none;
  permission_request = some request;
  metadata = ("permission_decision", obj (fields_of (record_entries r))) ∷ [];
}

module _ (deps : AppDependencies) (s : State) where
  unfoldable pub with_resolved_hooks : PermissionRequest → PermissionRecord → Update → Update
  unfolding run_point merge_updates state_with_update
  with_resolved_hooks request r update = merge_updates (
      update
      ∷ run_point deps (state_with_update s update) permission_resolved
          (resolved_overrides request r)
      ∷ [])

  -- A rejection needs a call to answer: with none pending, taking the first one raises.
  unfoldable pub gate_update :
      PermissionRequest → PermissionRecord → Bool → List ToolCall → Result Update
  unfolding approved_update rejected_update
  gate_update request r true calls = ok (approved_update s r)
  gate_update request r false [] = raise (value_error "list index out of range")
  gate_update request r false (call ∷ calls) = ok (rejected_update s request r call)

  unfoldable pub gate_decided :
      PermissionRequest → PermissionDecision → List ToolCall → Result Update
  unfolding gate_update with_resolved_hooks
  gate_decided request d calls = do
    let r = record_of request d
    update ← gate_update request r d.approved calls
    ok (with_resolved_hooks request r update)

  unfoldable pub gate_pending :
      Result PermissionDecision → Option PermissionRequest → List ToolCall → Result Update
  unfolding gate_decided
  gate_pending decision none calls = ok empty_update
  gate_pending decision (some request) calls = do d ← decision; gate_decided request d calls

  unfoldable pub permission_gate_node : Value → Result Update
  unfolding gate_pending resume_decision
  permission_gate_node decision =
      gate_pending (resume_decision decision) s.pending_confirmation s.pending_tool_calls
