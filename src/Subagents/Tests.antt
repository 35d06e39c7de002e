-- ===== src/Subagents/Tests.antt =====
-- Two calls of the agent tool whose workers end in the other order.
use langraph_agent_blueprint.Prelude.{
  ℕ, zero, suc, String, ◌≡◌, refl, true, false, ◌||◌, ◌&&◌, Option, none, some, List, [], ◌∷◌, All,
  all, any,
}
use langraph_agent_blueprint.Prelude.Dict.{Dict, lookup, insert}
use langraph_agent_blueprint.Prelude.Result.{Result, ok}
use langraph_agent_blueprint.Ids.{is_runtime_id}
use langraph_agent_blueprint.Nodes.Tests.{deps}
use langraph_agent_blueprint.State.{State, ToolCall, ToolResult, Event, event}
use langraph_agent_blueprint.State.Updates.Tests.{blank}
use langraph_agent_blueprint.Subagents.{
  SubagentDependencies, SubagentRequest, ChildRunMetadata, ChildResult, SubagentResult, FreshIds,
  running,
}
use langraph_agent_blueprint.Subagents.Concurrent.{
  Stream, enumerate, is_pending, outcome, is_refused, run_agent_calls_concurrently,
}
use langraph_agent_blueprint.Subagents.Concurrent.Answers.{
  result_ids, call_ids, run_agent_calls_concurrently-answers,
  run_agent_calls_concurrently-IsWaiting,
}
use langraph_agent_blueprint.Subagents.Concurrent.Outcome.{IsWaiting}
use langraph_agent_blueprint.Subagents.Concurrent.Laws.{call_at, has_index, outcomes}
use langraph_agent_blueprint.Subagents.Depth.{prepare_agent_call-nested}
use langraph_agent_blueprint.Subagents.Prepare.{
  Preparation, PreparedAgentCall, prepared, refused, prepare_agent_call,
}
use langraph_agent_blueprint.Subagents.Scope.{parent_scope, resolve_allowed_tools}
use langraph_agent_blueprint.Subagents.Scope.Laws.{
  is_granted, is_in_scope, resolve_allowed_tools-scope,
}
use langraph_agent_blueprint.Tools.{ToolRegistry}
use langraph_agent_blueprint.Tools.Execution.Tests.{echo}
use langraph_agent_blueprint.Value.{Value, Fields, null, end, str, arr, items}

abbrev pub request : SubagentRequest
request = record {
  prompt = "look";
  name = some "reader";
  purpose = none;
  allowed_tools = [];
  max_turns = 8;
  inherit_todos = false;
  inherit_context = true;
}

abbrev validate_request : Fields → Result SubagentRequest
validate_request args = ok request

abbrev validate_permission : Dict Value → Result (Dict Value)
validate_permission d = ok d

abbrev pub finished : ChildResult
finished = record {
  interrupt = none;
  pending_confirmation = [];
  final_response = "done";
  errors = [];
  tool_results = [];
  allowed_tools = [];
  ui_events = [];
}

abbrev run_child : State → SubagentRequest → Result ChildResult
run_child child r = ok finished

abbrev interrupted_child : State → SubagentRequest → Result ChildResult
interrupted_child child r =
    ok (record finished { interrupt = some (("tool_name", str "write") ∷ []) })

abbrev delete_child_thread : String → Result {0} Unit
delete_child_thread thread = ok tt

abbrev append_tool_call : ToolResult → Result {0} Unit
append_tool_call r = ok tt

abbrev save_child_run : ChildRunMetadata → SubagentResult → List Event → Result {0} Unit
save_child_run m r events = ok tt

abbrev dump_state : State → Value
dump_state s = null

abbrev pub agents : SubagentDependencies
agents = record {
  app = deps;
  validate_request = validate_request;
  validate_permission = validate_permission;
  run_child = run_child;
  delete_child_thread = delete_child_thread;
  append_tool_call = append_tool_call;
  save_child_run = save_child_run;
  dump_state = dump_state;
}

abbrev interrupted : SubagentDependencies
interrupted = record agents { run_child = interrupted_child }

abbrev fresh : ℕ → FreshIds
fresh i = record { child = "child_1"; session = "session_2"; thread = "thread_2" }

abbrev pub first_call : ToolCall
first_call = record { id = "c1"; name = "agent"; args = end }

abbrev second_call : ToolCall
second_call = record { id = "c2"; name = "agent"; args = end }

abbrev calls : List ToolCall
calls = first_call ∷ second_call ∷ []

abbrev order : List (ℕ × ToolCall)
order = (1, second_call) ∷ (0, first_call) ∷ []

-- The ids of the events: a text for each result, all of whose events are streamed.
abbrev event_id : ℕ → ℕ → String
event_id zero k = "one"
event_id (suc i) k = "two"

abbrev stream : Option Stream
stream = some (record {
  queued = event "subagent_finished" [] ∷ [];
  streamed_event_ids = "one" ∷ [];
  event_id = event_id;
})

submitted : All (λ e. call_at e.0 (enumerate 0 calls) ≡ some e.1) order
submitted = (refl, (refl, tt))

workers_end :
    All
      (λ e. (is_refused agents blank fresh e.0 e.1 || has_index e.0 order) ≡ true)
      (enumerate 0 calls)
unfolding is_refused lookup insert is_runtime_id
workers_end = (refl, (refl, tt))

none_waits : any is_pending (outcomes (outcome agents blank fresh) (enumerate 0 calls)) ≡ false
unfolding outcome lookup insert is_runtime_id
none_waits = refl

run_agent_calls_concurrently-answers_example :
    (result_ids (run_agent_calls_concurrently agents blank fresh stream calls order).tool_results
      ≡ call_ids calls)
    × ((run_agent_calls_concurrently agents blank fresh stream calls order).pending_tool_calls
        ≡ some [])
run_agent_calls_concurrently-answers_example =
    run_agent_calls_concurrently-answers agents blank fresh stream calls order submitted workers_end
      none_waits

others_end :
    All
      (λ e. (is_refused interrupted blank fresh e.0 e.1 || has_index e.0 order) ≡ true)
      (enumerate 0 calls)
unfolding is_refused lookup insert is_runtime_id
others_end = (refl, (refl, tt))

one_waits : any is_pending (outcomes (outcome interrupted blank fresh) (enumerate 0 calls)) ≡ true
unfolding outcome lookup insert is_runtime_id
one_waits = refl

run_agent_calls_concurrently-IsWaiting_example :
    IsWaiting (run_agent_calls_concurrently interrupted blank fresh stream calls order)
run_agent_calls_concurrently-IsWaiting_example =
    run_agent_calls_concurrently-IsWaiting interrupted blank fresh stream calls order submitted
      others_end one_waits

abbrev scoped : State
scoped = record blank { metadata = ("allowed_tools_override", arr (items ("echo" ∷ []))) ∷ [] }

abbrev asking : SubagentRequest
asking = record request { allowed_tools = "echo" ∷ "other" ∷ [] }

abbrev tools : ToolRegistry
tools = ("echo", echo) ∷ ("other", echo) ∷ []

narrowed : resolve_allowed_tools scoped asking tools ≡ ok ("echo" ∷ [])
unfolding resolve_allowed_tools lookup
narrowed = refl

resolve_allowed_tools-scope_example :
    all
      (λ n.
        is_granted tools asking.allowed_tools n
        && is_in_scope (parent_scope (lookup "allowed_tools_override" scoped.metadata)) n)
      ("echo" ∷ [])
    ≡ true
resolve_allowed_tools-scope_example =
    resolve_allowed_tools-scope scoped asking tools ("echo" ∷ []) narrowed

abbrev prepared_call : Preparation → PreparedAgentCall
prepared_call (prepared p) = p
prepared_call (refused message type) = record {
  call = first_call;
  request = request;
  metadata = record {
    child_run_id = "";
    parent_session_id = "";
    parent_thread_id = "";
    child_session_id = "";
    child_thread_id = "";
    name = none;
    purpose = none;
    status = running;
    metadata = [];
  };
  child_state = blank;
}

abbrev first_prepared : PreparedAgentCall
unfolding prepare_agent_call
first_prepared = prepared_call (prepare_agent_call agents blank (fresh 0) first_call)

is_prepared : prepare_agent_call agents blank (fresh 0) first_call ≡ prepared first_prepared
unfolding prepare_agent_call first_prepared lookup insert is_runtime_id
is_prepared = refl

prepare_agent_call-nested_example :
    prepare_agent_call agents first_prepared.child_state (fresh 1) second_call
    ≡ refused "Subagent recursion depth exceeded." "SubagentDepthExceeded"
prepare_agent_call-nested_example =
    prepare_agent_call-nested agents blank (fresh 0) first_call first_prepared (fresh 1) second_call
      request is_prepared refl
