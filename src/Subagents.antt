-- ===== src/Subagents.antt =====
-- models/subagents.py and services/agent_service.py: the requests for subagents, and what a subagent starts
-- with. Times are left out; the fresh identifiers of `new_id` are arguments.
pub mod Scope
pub mod Events
pub mod Prepare
pub mod Run
pub mod Depth
pub mod Concurrent
pub mod Resume
mod Tests
use langraph_agent_blueprint.Prelude.{ℕ, String, Bool, Option, List}
use langraph_agent_blueprint.Prelude.Dict.{Dict}
use langraph_agent_blueprint.Prelude.Result.{Result}
use langraph_agent_blueprint.Nodes.{AppDependencies}
use langraph_agent_blueprint.State.{State, ToolResult, Event}
use langraph_agent_blueprint.Value.{Value, Fields}

-- The timeout is read by nothing here.
pub record SubagentRequest : Type 0 where
  pub prompt : String
  pub name : Option String
  pub purpose : Option String
  pub allowed_tools : List String
  pub max_turns : ℕ
  pub inherit_todos : Bool
  pub inherit_context : Bool

pub data ChildRunStatus : Type 0 where
  running completed failed : ChildRunStatus

pub record ChildRunMetadata : Type 0 where
  pub child_run_id : String
  pub parent_session_id : String
  pub parent_thread_id : String
  pub child_session_id : String
  pub child_thread_id : String
  pub name : Option String
  pub purpose : Option String
  pub status : ChildRunStatus
  pub metadata : Dict Value

pub record SubagentResult : Type 0 where
  pub child_run_id : String
  pub succeeded : Bool
  pub summary : String
  pub errors : List (Dict Value)

pub record FreshIds : Type 0 where
  pub child : String
  pub session : String
  pub thread : String

-- The keys of a child graph's final state that the parent reads: the value of the first interrupt, where the
-- child was interrupted, and the rest.
pub record ChildResult : Type 0 where
  pub interrupt : Option (Dict Value)
  pub pending_confirmation : Dict Value
  pub final_response : String
  pub errors : List (Dict Value)
  pub tool_results : List ToolResult
  pub allowed_tools : List String
  pub ui_events : List Event

-- What the subgraph takes from its surroundings: the application, pydantic's validation of the two kinds of
-- requests, the run of the compiled graph for a child, the removal of its checkpoint, the two writes to the
-- session's storage, and the dict of a state.
pub record SubagentDependencies : Type 0 where
  pub app : AppDependencies
  pub validate_request : Fields → Result SubagentRequest
  pub validate_permission : Dict Value → Result (Dict Value)
  pub run_child : State → SubagentRequest → Result ChildResult
  pub delete_child_thread : String → Result {0} Unit
  pub append_tool_call : ToolResult → Result {0} Unit
  pub save_child_run : ChildRunMetadata → SubagentResult → List Event → Result {0} Unit
  pub dump_state : State → Value
