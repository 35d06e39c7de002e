-- ===== src/Subagents/Prepare.antt =====
-- graph/subgraphs/agent_graph.py: what is checked and created before a subagent runs.
use langraph_agent_blueprint.Prelude.{ℕ, String, ◌<>◌, none, some, [], ◌∷◌, leb, if◌then◌else◌}
use langraph_agent_blueprint.Prelude.Dict.{lookup, insert}
use langraph_agent_blueprint.Prelude.Result.{Result, ok, raise, ◌>>=◌}
use langraph_agent_blueprint.State.{
  State, Update, empty_update, ToolCall, ToolResult, ToolResultStatus, tool_result_to_tool_message,
  event,
}
use langraph_agent_blueprint.Subagents.{
  SubagentRequest, ChildRunMetadata, FreshIds, SubagentDependencies,
}
use langraph_agent_blueprint.Subagents.Scope.{create_child_metadata, create_child_state, depth_of}
use langraph_agent_blueprint.Value.{str}

-- `AgentService.max_depth`
abbrev pub max_depth : ℕ
max_depth = 1

pub record PreparedAgentCall : Type 0 where
  pub call : ToolCall
  pub request : SubagentRequest
  pub metadata : ChildRunMetadata
  pub child_state : State

-- A prepared call, or the message and the type of an `_AgentCallPreparationError`.
pub data Preparation : Type 0 where
  prepared : PreparedAgentCall → Preparation
  refused : (message : String) → (error_type : String) → Preparation

-- `_tool_error`
unfoldable pub tool_error : ToolCall → String → String → Update
unfolding tool_result_to_tool_message
tool_error call message error_type =
    let r : ToolResult = record {
      id = call.id;
      name = call.name;
      status = ToolResultStatus.error;
      content = message;
      metadata = ("error_type", str error_type) ∷ [];
      error = some (("type", str error_type) ∷ ("message", str message) ∷ []);
      state_update = none;
    } in
    record empty_update {
      pending_tool_calls = some [];
      tool_results = r ∷ [];
      messages = tool_result_to_tool_message r ∷ [];
      ui_events =
          event "subagent_error"
            (("id", str call.id) ∷ ("reason", str message) ∷ ("error_type", str error_type) ∷ [])
          ∷ [];
    }

module _ (deps : SubagentDependencies) where
  abbrev pub parsed : Result SubagentRequest → (SubagentRequest → Preparation) → Preparation
  parsed (raise e) next =
      refused ("Invalid subagent request: " <> deps.app.tool_execution.error_text e)
        "SubagentRequestError"
  parsed (ok request) next = next request

  abbrev pub created : ToolCall → SubagentRequest → Result (ChildRunMetadata × State) → Preparation
  created call request (raise e) =
      refused ("Could not create subagent state: " <> deps.app.tool_execution.error_text e)
        "SubagentStateError"
  created call request (ok r) =
      prepared (record { call = call; request = request; metadata = r.0; child_state = r.1 })

  abbrev pub identified : ToolCall → ChildRunMetadata → ChildRunMetadata
  unfolding insert
  identified call m = record m { metadata = insert "agent_call_id" (str call.id) m.metadata }

  -- The identity of a child, with the id of its call, and the state it starts with.
  unfoldable pub create_child :
      State → SubagentRequest → FreshIds → ToolCall → Result (ChildRunMetadata × State)
  unfolding create_child_metadata create_child_state insert
  create_child current request ids call = do
    m ← create_child_metadata current request ids
    let identity = identified call m
    child ← create_child_state current request identity deps.app.tool_execution.registry
    ok (identity, child)

  -- `_prepare_agent_call`; the state has the parent's metadata already.
  unfoldable pub prepare_agent_call : State → FreshIds → ToolCall → Preparation
  unfolding create_child
  prepare_agent_call s ids call = parsed (deps.validate_request call.args) (λ request.
      if leb max_depth (depth_of (lookup "subagent_depth" s.metadata))
      then refused "Subagent recursion depth exceeded." "SubagentDepthExceeded"
      else created call request (create_child s request ids call))
