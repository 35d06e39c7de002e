-- ===== src/Nodes/ToolRouter.antt =====
-- graph/nodes/tool_router.py: where the first pending tool call goes.
use langraph_agent_blueprint.Prelude.{
  String, ◌<>◌, Bool, true, false, ◌&&◌, not, Option, none, some, List, [], ◌∷◌, contains,
  if◌then◌else◌, ◌==◌,
}
use langraph_agent_blueprint.Prelude.Dict.{Dict, lookup, remove}
use langraph_agent_blueprint.Prelude.Result.{
  Result, ok, raise, Error, value_error, key_error, permission_error,
}
use langraph_agent_blueprint.Hooks.{pre_tool, permission_request}
use langraph_agent_blueprint.Hooks.Service.{Overrides}
use langraph_agent_blueprint.Nodes.{
  AppDependencies, with_entry, dump_call, run_point, cancellation_update,
}
use langraph_agent_blueprint.Permission.{
  PermissionCheck, PermissionPolicy, allow, ask, deny, decide,
}
use langraph_agent_blueprint.Permission.Redact.{PermissionRequest, confirmation_payload}
use langraph_agent_blueprint.State.{
  State, Update, empty_update, ToolCall, ToolResult, ToolResultStatus, tool_result_to_tool_message,
  event,
}
use langraph_agent_blueprint.State.Updates.{merge_updates, state_with_update, hook_blocked}
use langraph_agent_blueprint.Tools.{Tool, ToolRoute, skill_graph, agent_graph, mcp_graph, get}
use langraph_agent_blueprint.Value.{
  Value, str, bool, arr, obj, null, texts, is_set, dict_of, value_or,
}

abbrev pub rejected_result : ToolCall → String → Dict Value → ToolResult
rejected_result call content metadata = record {
  id = call.id;
  name = call.name;
  status = ToolResultStatus.rejected;
  content = content;
  metadata = metadata;
  error = none;
  state_update = none;
}

-- The keys that the three rejections share.
unfoldable pub rejection : Dict Value → ToolResult → Update
unfolding tool_result_to_tool_message
rejection metadata result = record empty_update {
  metadata = some (with_entry "tool_route" "rejected" metadata);
  tool_results = result ∷ [];
  messages = tool_result_to_tool_message result ∷ [];
  pending_tool_calls = some [];
}

abbrev reason_of : Option (Option String) → String
reason_of (some (some text)) = if text == "" then "Tool call blocked by hook." else text
reason_of _ = "Tool call blocked by hook."

abbrev dict_or_nil : Option (Dict Value) → Dict Value
dict_or_nil none = []
dict_or_nil (some d) = d

abbrev pub routed : Dict Value → String → Update
routed metadata route = record empty_update {
  metadata = some (with_entry "tool_route" route metadata);
}

-- `allowed_tools and name not in set(allowed_tools)`
abbrev pub disallowed : Option Value → String → Bool
disallowed (some (arr names)) name = is_set (some (arr names)) && not (contains (texts names) name)
disallowed v name = false

abbrev error_text : Error → String
error_text (value_error text) = text
error_text (key_error text) = "'" <> text <> "'"
error_text (permission_error text) = text

unfoldable pub blocked_update : ToolCall → Update → Update
unfolding merge_updates rejection
blocked_update call pre =
    let result =
      rejected_result call (reason_of pre.final_response)
        (("reason", str "blocked_by_hook") ∷ []) in
    merge_updates (pre ∷ rejection (dict_or_nil pre.metadata) result ∷ [])

unfoldable pub disallowed_update : ToolCall → Dict Value → Update
unfolding rejection
disallowed_update call metadata =
    let content : String = "Tool " <> call.name <> " is not allowed in the active skill scope." in
    let result = rejected_result call content (("reason", str "disallowed_by_skill") ∷ []) in
    record (rejection metadata result) {
      ui_events =
          event "tool_call_error" (
            ("id", str call.id)
            ∷ ("name", str call.name)
            ∷ ("status", str "rejected")
            ∷ ("reason", str "disallowed_by_skill")
            ∷ [])
          ∷ [];
    }

unfoldable pub unknown_update : Dict Value → Error → Update
unknown_update metadata e = record (routed metadata "error") {
  errors =
      (("message", str (error_text e))
        ∷ ("type", str "UnknownTool")
        ∷ ("recoverable", bool true)
        ∷ [])
      ∷ [];
}

unfoldable pub skill_update : ToolCall → Dict Value → Update
skill_update call metadata =
    let args = dict_of call.args in
    record (routed metadata "skill_tool") {
      active_skill = some (
          some (
            ("name", value_or null (lookup "skill" args))
            ∷ ("args", value_or (str "") (lookup "args" args))
            ∷ ("tool_call_id", str call.id)
            ∷ []));
    }

abbrev pub execution_route : ToolRoute → String
execution_route mcp_graph = "mcp_tool"
execution_route _ = "execute"

module _ (deps : AppDependencies) (call : ToolCall) where
  abbrev pub pending_request : Tool → String → PermissionRequest
  unfolding confirmation_payload
  pending_request tool reason =
      confirmation_payload deps.lower deps.dumps call.id call.name call.args tool.permission reason

  unfoldable pub ask_update : Dict Value → Tool → String → Update
  unfolding pending_request
  ask_update metadata tool reason =
      let pending = pending_request tool reason in
      record empty_update {
        metadata = some (
            with_entry "after_permission_route" (execution_route tool.route)
              (with_entry "tool_route" "needs_permission" metadata));
        pending_confirmation = some (some pending);
        ui_events =
            event "permission_required" (
              ("tool_name", str pending.tool_name)
              ∷ ("tool_call_id", str pending.tool_call_id)
              ∷ ("args_summary", str pending.args_summary)
              ∷ ("args", obj pending.args)
              ∷ ("reason", str pending.reason)
              ∷ [])
            ∷ [];
      }

  abbrev pub ask_overrides : Tool → String → Overrides
  unfolding pending_request
  ask_overrides tool reason = record {
    active_tool = some (dump_call call);
    permission_request = some (pending_request tool reason);
    metadata = [];
  }

  unfoldable pub ask_updates : Update → State → Dict Value → Tool → String → Update
  unfolding ask_update merge_updates run_point state_with_update ask_overrides
  ask_updates pre current metadata tool reason =
      let update = ask_update metadata tool reason in
      let hooks =
        run_point deps (state_with_update current update) permission_request
          (ask_overrides tool reason) in
      merge_updates (pre ∷ update ∷ hooks ∷ [])

  unfoldable pub deny_update : Dict Value → String → Update
  unfolding rejection
  deny_update metadata reason = record (rejection metadata (rejected_result call reason [])) {
    ui_events =
        event "permission_resolved" (
          ("tool_call_id", str call.id)
          ∷ ("tool_name", str call.name)
          ∷ ("approved", bool false)
          ∷ ("decision", str "rejected")
          ∷ ("reason", str reason)
          ∷ [])
        ∷ [];
  }

  abbrev pub allow_update : Dict Value → Tool → Update
  allow_update metadata tool = record empty_update {
    metadata = some (
        remove "after_permission_route"
          (with_entry "tool_route" (execution_route tool.route) metadata));
  }

  -- The last part of the node, for a tool whose calls the executor or an MCP server runs.
  unfoldable pub permitted : PermissionPolicy → String → Update → State → Dict Value → Tool → Update
  unfolding ask_updates deny_update merge_updates
  permitted ask reason pre current metadata tool = ask_updates pre current metadata tool reason
  permitted deny reason pre current metadata tool =
      merge_updates (pre ∷ deny_update metadata reason ∷ [])
  permitted allow reason pre current metadata tool =
      merge_updates (pre ∷ allow_update metadata tool ∷ [])

  abbrev pub check_of : State → Tool → PermissionCheck
  unfolding decide
  check_of current tool =
      decide deps.permission_mode tool.name tool.permission
        (is_set (lookup "enabled" current.plan_mode)) (lookup "permission_mode" current.metadata)

  unfoldable pub route_tool : ToolRoute → Update → State → Tool → Update
  unfolding permitted check_of merge_updates skill_update
  route_tool skill_graph pre current tool =
      merge_updates (pre ∷ skill_update call current.metadata ∷ [])
  route_tool agent_graph pre current tool =
      merge_updates (pre ∷ routed current.metadata "agent_tool" ∷ [])
  route_tool _ pre current tool =
      let check = check_of current tool in
      permitted check.decision check.reason pre current current.metadata tool

  unfoldable pub route_found : Update → State → Result Tool → Update
  unfolding route_tool merge_updates unknown_update
  route_found pre current (ok tool) = route_tool tool.route pre current tool
  route_found pre current (raise e) = merge_updates (pre ∷ unknown_update current.metadata e ∷ [])

  -- The node, for a first call, after the `pre_tool` hooks.
  unfoldable pub route_call : State → Update → Update
  unfolding blocked_update disallowed_update route_found get hook_blocked state_with_update
      merge_updates
  route_call s pre =
      if hook_blocked pre
      then blocked_update call pre
      else (let current = state_with_update s pre in
          if disallowed (lookup "allowed_tools_override" current.metadata) call.name
          then merge_updates (pre ∷ disallowed_update call current.metadata ∷ [])
          else route_found pre current (get deps.tool_execution.registry call.name))

abbrev pub pre_tool_overrides : ToolCall → Overrides
pre_tool_overrides call = record {
  active_tool = some (dump_call call);
  permission_request = none;
  metadata = [];
}

unfoldable pub cancelled_route : Update → Update
cancelled_route u = record u {
  metadata = some (with_entry "tool_route" "cancelled" (dict_or_nil u.metadata));
}

module _ (deps : AppDependencies) (s : State) where
  unfoldable pub pre_tool_update : ToolCall → Update
  unfolding run_point
  pre_tool_update call = run_point deps s pre_tool (pre_tool_overrides call)

  unfoldable pub route_calls : List ToolCall → Update
  unfolding route_call pre_tool_update
  route_calls [] = routed s.metadata "no_tools"
  route_calls (call ∷ calls) = route_call deps call s (pre_tool_update call)

  unfoldable pub tool_router_node : Update
  unfolding cancellation_update route_calls cancelled_route
  tool_router_node =
      if is_set (lookup "runtime_cancelled" s.metadata)
      then routed s.metadata "cancelled"
      else elim (cancellation_update s deps.run_control "tool_router") [
        | some cancelled ↦ cancelled_route cancelled
        | none ↦ route_calls s.pending_tool_calls
      ]
