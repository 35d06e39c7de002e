-- ===== src/Tools/Execution/Tests.antt =====
-- Running one tool call. `echo` succeeds, `broken` raises.
use langraph_agent_blueprint.Prelude.{
  ℕ, String, ◌≡◌, refl, true, false, Option, none, some, List, [], ◌∷◌,
}
use langraph_agent_blueprint.Prelude.Dict.{lookup}
use langraph_agent_blueprint.Prelude.Result.{
  Result, ok, raise, value_error, Error, key_error, permission_error,
}
use langraph_agent_blueprint.Permission.{ToolPermissionMetadata, shell, high}
use langraph_agent_blueprint.State.{State, ToolCall, ToolResult, Event}
use langraph_agent_blueprint.State.Updates.Tests.{blank}
use langraph_agent_blueprint.Tools.{Tool, ToolOutput, ToolStateEffect, custom, execute, get}
use langraph_agent_blueprint.Tools.Execution.{ToolExecutionService, execute_with_activity}
use langraph_agent_blueprint.Tools.Execution.Laws.{Answers, execute_with_activity-Answers}
use langraph_agent_blueprint.Value.{Value, Fields, end}

abbrev pub guarded : ToolPermissionMetadata
guarded = record {
  action = shell;
  risk = high;
  is_read_only = false;
  requires_permission = true;
  reason = none;
  allowed_in_plan_mode = false;
  requires_network = false;
  external = false;
  sensitive_arg_keys = [];
}

abbrev parse : Fields → Result Fields
parse args = ok args

abbrev echo_run : Fields → State → Result ToolOutput
echo_run args s = ok (record { succeeded = true; content = "hello"; metadata = [] })

abbrev broken_run : Fields → State → Result ToolOutput
broken_run args s = raise (value_error "broken")

abbrev no_effects : ToolCall → ToolOutput → State → Result (List ToolStateEffect)
no_effects call output s = ok []

abbrev pub tool_of : String → (Fields → State → Result ToolOutput) → Tool
tool_of name run = record {
  name = name;
  kind = custom;
  route = execute;
  permission = some guarded;
  mcp = [];
  parse_input = parse;
  run = run;
  state_effects = no_effects;
}

abbrev pub echo : Tool
echo = tool_of "echo" echo_run

abbrev pub broken : Tool
broken = tool_of "broken" broken_run

abbrev no_capture : Tool → Fields → ToolCall → State → Result (Option Value)
no_capture tool args call s = ok none

abbrev digits : ℕ → String
digits n = "7"

abbrev error_text : Error → String
error_text (value_error text) = text
error_text (key_error text) = text
error_text (permission_error text) = text

abbrev pub service : ToolExecutionService
service = record {
  registry = ("echo", echo) ∷ ("broken", broken) ∷ [];
  output_limit = 100;
  capture = no_capture;
  digits = digits;
  error_text = error_text;
}

abbrev pub call_of : String → String → ToolCall
call_of id name = record { id = id; name = name; args = end }

execute_with_activity-Answers_example :
    (outcome : ToolResult × List Event) × (execute_with_activity service
        (call_of "c1" "broken")
        blank
      ≡ ok outcome)
    × Answers (call_of "c1" "broken") broken outcome.0
unfolding get lookup
execute_with_activity-Answers_example =
    execute_with_activity-Answers service (call_of "c1" "broken") blank broken refl
