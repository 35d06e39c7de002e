-- ===== src/Nodes/Tests.antt =====
-- The nodes at concrete states.
use langraph_agent_blueprint.Prelude.{
  String, ◌≡◌, refl, true, false, none, some, List, [], ◌∷◌, length, All,
}
use langraph_agent_blueprint.Prelude.Dict.{lookup}
use langraph_agent_blueprint.Prelude.Result.{Result, ok, raise, Error, value_error}
use langraph_agent_blueprint.Hooks.{HookRuntimeMetadata}
use langraph_agent_blueprint.Hooks.Service.{HookService}
use langraph_agent_blueprint.Nodes.{AppDependencies}
use langraph_agent_blueprint.Nodes.Answers.{
  IsRegistered, Executed, streak, overruns, tool_executor_node-Executed, execute_calls-overruns,
}
use langraph_agent_blueprint.Nodes.Approval.{tool_route, route_of, tool_router_node-route_of}
use langraph_agent_blueprint.Nodes.PermissionGate.{
  PermissionDecision, resume_decision, permission_gate_node,
}
use langraph_agent_blueprint.Nodes.Resolution.{Resolved, permission_gate_node-Resolved}
use langraph_agent_blueprint.Nodes.ToolExecutor.{Progress, begun, execute_calls, tool_executor_node}
use langraph_agent_blueprint.Nodes.ToolRouter.{tool_router_node}
use langraph_agent_blueprint.Permission.{default, bypass_read_only, shell, high}
use langraph_agent_blueprint.Permission.Redact.{PermissionRequest}
use langraph_agent_blueprint.RunControl.{init, is_cancelled}
use langraph_agent_blueprint.State.{State, Update, ToolCall, ToolResult}
use langraph_agent_blueprint.State.Updates.Tests.{blank}
use langraph_agent_blueprint.Tools.{get}
use langraph_agent_blueprint.Tools.Execution.Tests.{service, call_of, echo, broken}
use langraph_agent_blueprint.Value.{Value, Fields, num, str, bool, end}

abbrev validate : Value → Result HookRuntimeMetadata
validate v = raise (value_error "no hooks")

abbrev error_text : Error → String
error_text e = "error"

abbrev hook_service : HookService
hook_service = record { registry = []; handlers = []; validate = validate; error_text = error_text }

abbrev lower : String → String
lower s = s

abbrev dumps : Fields → String
dumps fields = "{}"

abbrev show : Value → String
show v = "value"

abbrev pub deps : AppDependencies
deps = record {
  run_control = init;
  hook_service = hook_service;
  tool_execution = service;
  permission_mode = default;
  lower = lower;
  dumps = dumps;
  show = show;
}

-- The same application in a mode that asks for nothing.
abbrev pub trusting : AppDependencies
trusting = record deps { permission_mode = bypass_read_only }

abbrev two_calls : List ToolCall
two_calls = call_of "c1" "echo" ∷ call_of "c2" "broken" ∷ []

abbrev request : PermissionRequest
request = record {
  tool_name = "echo";
  tool_call_id = "c1";
  action = shell;
  args_summary = "{}";
  risk = high;
  args = end;
  reason = "echo requires approval";
}

abbrev pub waiting : State
waiting = record blank {
  pending_tool_calls = two_calls;
  pending_confirmation = some request;
  metadata =
      ("tool_route", str "needs_permission")
      ∷ ("after_permission_route", str "execute")
      ∷ ("recoverable_tool_error_count", num 3)
      ∷ [];
}

registered : All (IsRegistered deps) two_calls
unfolding get lookup
registered = ((echo, refl), ((broken, refl), tt))

tool_router_node-route_of_example :
    tool_route (tool_router_node deps waiting) ≡ some (str (route_of deps waiting))
tool_router_node-route_of_example = tool_router_node-route_of deps waiting

tool_executor_node-Executed_example :
    (u : Update) × (stored : List ToolResult) × (tool_executor_node deps waiting ≡ ok (u, stored))
    × Executed waiting u stored
unfolding is_cancelled lookup
tool_executor_node-Executed_example = tool_executor_node-Executed deps waiting refl registered

execute_calls-overruns_example :
    (p : Progress) × (new : List ToolResult) × (execute_calls deps waiting two_calls (begun waiting)
      ≡ ok p)
    × (p.results ≡ new)
    × (p.recoverable_error_count ≡ streak (begun waiting).recoverable_error_count new)
    × (length p.errors ≡ overruns (begun waiting).recoverable_error_count new)
execute_calls-overruns_example = execute_calls-overruns deps waiting registered

abbrev yes_decision : PermissionDecision
yes_decision = record { approved = true; reason = none; remember = false }

permission_gate_node-Resolved_example :
    (u : Update) × (permission_gate_node deps waiting (bool true) ≡ ok u)
    × Resolved waiting (call_of "c1" "echo") request yes_decision u
unfolding resume_decision
permission_gate_node-Resolved_example =
    permission_gate_node-Resolved deps waiting request (call_of "c1" "echo")
      (call_of "c2" "broken" ∷ []) (bool true) yes_decision refl refl refl
