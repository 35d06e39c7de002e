-- ===== src/Subagents/Depth.antt =====
-- A subagent cannot start subagents.
use mathlib.Core.Path.{subst}
use langraph_agent_blueprint.Prelude.{
  ◌≤◌, String, ◌≡◌, refl, ◌∙◌, Bool, true, false, List, Bool-cases, inl, inr, leb, le→leb, arith,
}
use langraph_agent_blueprint.Prelude.Dict.{Dict, lookup, lookup-insert}
use langraph_agent_blueprint.Prelude.Result.{Result, ok, raise, >>=-inverts, ok-holds}
use langraph_agent_blueprint.State.{State, ToolCall}
use langraph_agent_blueprint.Subagents.{
  SubagentDependencies, SubagentRequest, ChildRunMetadata, FreshIds,
}
use langraph_agent_blueprint.Subagents.Prepare.{
  Preparation, PreparedAgentCall, prepared, refused, parsed, created, identified, create_child,
  prepare_agent_call, max_depth,
}
use langraph_agent_blueprint.Subagents.Scope.{
  create_child_state, create_child_metadata, child_metadata, flagged, depth_of,
  resolve_allowed_tools,
}
use langraph_agent_blueprint.Tools.{ToolRegistry}
use langraph_agent_blueprint.Value.{Value}

-- A state at the limit of the depth.
abbrev IsDeep : State → Type 0
IsDeep s = max_depth ≤ depth_of (lookup "subagent_depth" s.metadata)

depth-flagged :
    (b : Bool) (d : Dict Value)
    → max_depth ≤ depth_of (lookup "subagent_depth" d)
    → max_depth ≤ depth_of (lookup "subagent_depth" (flagged b d))
unfolding flagged
depth-flagged false d h = h
depth-flagged true d h = rw lookup-insert h

depth_child_metadata :
    (parent : State) (request : SubagentRequest) (m : ChildRunMetadata) (allowed : List String)
    → max_depth ≤ depth_of (lookup "subagent_depth" (child_metadata parent request m allowed))
unfolding child_metadata lookup
depth_child_metadata parent request m allowed = omega arith

create_child_state-IsDeep :
    (parent : State) (request : SubagentRequest) (m : ChildRunMetadata) (tools : ToolRegistry)
    (child : State)
    → create_child_state parent request m tools ≡ ok child
    → IsDeep child
unfolding create_child_state
create_child_state-IsDeep parent request m tools child h =
    let found = >>=-inverts (resolve_allowed_tools parent request tools) _ child h in
    ok-holds IsDeep
      (depth-flagged request.inherit_context (child_metadata parent request m found.0)
        (depth_child_metadata parent request m found.0))
      found.2

abbrev StartsDeep : Preparation → Type 0
StartsDeep (prepared p) = IsDeep p.child_state
StartsDeep (refused message type) = Unit

module _ (deps : SubagentDependencies) where
  parsed-StartsDeep :
      (r : Result SubagentRequest) (next : SubagentRequest → Preparation)
      → ((request : SubagentRequest) → StartsDeep (next request))
      → StartsDeep (parsed deps r next)
  parsed-StartsDeep (ok request) next h = h request
  parsed-StartsDeep (raise e) next h = tt

  created-StartsDeep :
      (call : ToolCall) (request : SubagentRequest) (r : Result (ChildRunMetadata × State))
      → ((x : ChildRunMetadata × State) → r ≡ ok x → IsDeep x.1)
      → StartsDeep (created deps call request r)
  created-StartsDeep call request (ok x) h = h x refl
  created-StartsDeep call request (raise e) h = tt

  create_child-IsDeep :
      (s : State) (request : SubagentRequest) (ids : FreshIds) (call : ToolCall)
      (x : ChildRunMetadata × State)
      → create_child deps s request ids call ≡ ok x
      → IsDeep x.1
  unfolding create_child
  create_child-IsDeep s request ids call x h =
      let first = >>=-inverts (create_child_metadata s request ids) _ x h in
      let m = identified deps call first.0 in
      let second =
        >>=-inverts (create_child_state s request m deps.app.tool_execution.registry) _ x first.2 in
      ok-holds (λ y. IsDeep y.1)
        (create_child_state-IsDeep s request m deps.app.tool_execution.registry second.0 second.1)
        second.2

  prepare_agent_call-StartsDeep :
      (s : State) (ids : FreshIds) (call : ToolCall)
      → StartsDeep (prepare_agent_call deps s ids call)
  unfolding prepare_agent_call
  prepare_agent_call-StartsDeep s ids call =
      parsed-StartsDeep (deps.validate_request call.args) _ (λ request.
        elim (Bool-cases (leb max_depth (depth_of (lookup "subagent_depth" s.metadata)))) [
          | inl e ↦ rw e tt
          | inr e ↦ rw e (
              created-StartsDeep call request (create_child deps s request ids call)
                (create_child-IsDeep s request ids call))
        ])

  parsed_ok :
      (r : Result SubagentRequest) (request : SubagentRequest)
      (next : SubagentRequest → Preparation)
      → r ≡ ok request
      → parsed deps r next ≡ next request
  parsed_ok r request next h = rw h refl

  refuses_deep :
      (s : State) (ids : FreshIds) (call : ToolCall) (request : SubagentRequest)
      → deps.validate_request call.args ≡ ok request
      → IsDeep s
      → prepare_agent_call deps s ids call
        ≡ refused "Subagent recursion depth exceeded." "SubagentDepthExceeded"
  unfolding prepare_agent_call
  refuses_deep s ids call request h g =
      parsed_ok (deps.validate_request call.args) request _ h
      ∙ rw (le→leb max_depth (depth_of (lookup "subagent_depth" s.metadata)) g) refl

-- In the state of a child that has been prepared, every valid call of the agent tool is refused.
pub prepare_agent_call-nested :
    (deps : SubagentDependencies) (s : State) (ids : FreshIds) (call : ToolCall)
    (p : PreparedAgentCall) (child_ids : FreshIds) (child_call : ToolCall)
    (request : SubagentRequest)
    → prepare_agent_call deps s ids call ≡ prepared p
    → deps.validate_request child_call.args ≡ ok request
    → prepare_agent_call deps p.child_state child_ids child_call
      ≡ refused "Subagent recursion depth exceeded." "SubagentDepthExceeded"
prepare_agent_call-nested deps s ids call p child_ids child_call request h g =
    refuses_deep deps p.child_state child_ids child_call request g
      (subst StartsDeep h (prepare_agent_call-StartsDeep deps s ids call))
