-- ===== src/Subagents/Concurrent/Outcome.antt =====
-- What the outcome of one call of the agent tool is: its result, or an approval to wait for.
use mathlib.Core.Path.{subst}
use langraph_agent_blueprint.Prelude.{
  ℕ, String, ◌≡◌, refl, true, false, Option, none, some, List, [], ◌∷◌, leb, ◌⊎◌, inl, inr,
  Bool-cases,
}
use langraph_agent_blueprint.Prelude.Dict.{Dict, lookup}
use langraph_agent_blueprint.Prelude.Result.{Result, ok, raise, >>=-inverts, ok-holds}
use langraph_agent_blueprint.State.{State, Update, ToolCall, ToolResult, Event}
use langraph_agent_blueprint.Subagents.{
  SubagentDependencies, SubagentRequest, ChildRunMetadata, ChildResult, FreshIds,
}
use langraph_agent_blueprint.Subagents.Concurrent.{is_pending, contained, outcome_of, outcome}
use langraph_agent_blueprint.Subagents.Prepare.{
  PreparedAgentCall, Preparation, prepared, refused, tool_error, parsed, created, create_child,
  prepare_agent_call, max_depth,
}
use langraph_agent_blueprint.Subagents.Run.{
  finished_update, finalize_prepared_agent_call, subagent_permission_update, settle,
  run_prepared_agent_call, child_tool_result, Summary, subagent_permission_request,
}
use langraph_agent_blueprint.Subagents.Scope.{depth_of}
use langraph_agent_blueprint.Value.{Value}

-- The update holds one result, the call's, and waits for nothing.
pub record IsResult (call : ToolCall) (u : Update) : Type 0 where
  pub result : ToolResult
  pub results : u.tool_results ≡ result ∷ []
  pub id : result.id ≡ call.id
  pub settled : is_pending u ≡ false

-- The update waits for an approval, and holds no result.
pub record IsWaiting (u : Update) : Type 0 where
  pub results : u.tool_results ≡ []
  pub waits : is_pending u ≡ true
  pub calls : u.pending_tool_calls ≡ none

abbrev pub IsOutcome : ToolCall → Update → Type 0
IsOutcome call u = IsResult call u ⊎ IsWaiting u

tool_error-IsResult :
    (call : ToolCall) (message type : String) → IsResult call (tool_error call message type)
unfolding tool_error
tool_error-IsResult call message type = record {
  result = _;
  results = refl;
  id = refl;
  settled = refl;
}

abbrev IsFor : ToolCall → Preparation → Type 0
IsFor call (prepared p) = p.call ≡ call
IsFor call (refused message type) = Unit

module _ (deps : SubagentDependencies) (call : ToolCall) where
  parsed-IsFor :
      (r : Result SubagentRequest) (next : SubagentRequest → Preparation)
      → ((request : SubagentRequest) → IsFor call (next request))
      → IsFor call (parsed deps r next)
  parsed-IsFor (ok request) next h = h request
  parsed-IsFor (raise e) next h = tt

  created-IsFor :
      (request : SubagentRequest) (r : Result (ChildRunMetadata × State))
      → IsFor call (created deps call request r)
  created-IsFor request (ok r) = refl
  created-IsFor request (raise e) = tt

  prepare_agent_call-IsFor :
      (s : State) (ids : FreshIds) → IsFor call (prepare_agent_call deps s ids call)
  unfolding prepare_agent_call
  prepare_agent_call-IsFor s ids = parsed-IsFor (deps.validate_request call.args) _ (λ request.
      elim (Bool-cases (leb max_depth (depth_of (lookup "subagent_depth" s.metadata)))) [
        | inl e ↦ rw e tt
        | inr e ↦ rw e (created-IsFor request (create_child deps s request ids call))
      ])

module _ (deps : SubagentDependencies) (p : PreparedAgentCall) where
  finished_update-IsResult :
      (parent : Dict Value) (summary : Summary) (events : List Event) (count : ℕ)
      (stored saved : Result {0} Unit)
      → IsResult p.call (finished_update deps parent p summary events count stored saved)
  unfolding finished_update child_tool_result
  finished_update-IsResult parent summary events count stored saved = record {
    result = _;
    results = refl;
    id = refl;
    settled = refl;
  }

  pub finalize_prepared_agent_call-IsResult :
      (parent : Dict Value) (child : ChildResult) (child_events events : List Event) (u : Update)
      → finalize_prepared_agent_call deps parent p child child_events events ≡ ok u
      → IsResult p.call u
  unfolding finalize_prepared_agent_call
  finalize_prepared_agent_call-IsResult parent child child_events events u h =
      let found = >>=-inverts (deps.delete_child_thread p.metadata.child_thread_id) _ u h in
      ok-holds (IsResult p.call) (finished_update-IsResult parent _ _ _ _ _) found.2

  pub settle-IsOutcome :
      (parent : Dict Value) (child : ChildResult) (interrupt : Option (Dict Value))
      (child_events events : List Event) (u : Update)
      → settle deps parent p child interrupt child_events events ≡ ok u
      → IsOutcome p.call u
  unfolding settle subagent_permission_update
  settle-IsOutcome parent child none child_events events u h =
      inl (finalize_prepared_agent_call-IsResult parent child child_events events u h)
  settle-IsOutcome parent child (some payload) child_events events u h =
      let found =
        >>=-inverts (subagent_permission_request deps p.metadata payload child.pending_confirmation)
          _ u h in
      ok-holds (IsOutcome p.call) (inr (record { results = refl; waits = refl; calls = refl }))
        found.2

  run_prepared_agent_call-IsOutcome :
      (s : State) (u : Update) → run_prepared_agent_call deps s p ≡ ok u → IsOutcome p.call u
  unfolding run_prepared_agent_call
  run_prepared_agent_call-IsOutcome s u h =
      let found = >>=-inverts (deps.run_child p.child_state p.request) _ u h in
      settle-IsOutcome s.metadata found.0 found.0.interrupt found.0.ui_events _ u found.2

module _ (deps : SubagentDependencies) (s : State) (fresh : ℕ → FreshIds) where
  contained-IsOutcome :
      (call : ToolCall) (r : Result Update)
      → ((u : Update) → r ≡ ok u → IsOutcome call u)
      → IsOutcome call (contained deps s fresh call r)
  unfolding contained
  contained-IsOutcome call (ok u) h = h u refl
  contained-IsOutcome call (raise e) h = inl (tool_error-IsResult call _ _)

  outcome_of-IsOutcome :
      (call : ToolCall) (p : Preparation)
      → IsFor call p
      → IsOutcome call (outcome_of deps s fresh call p)
  unfolding outcome_of
  outcome_of-IsOutcome call (prepared p) h =
      contained-IsOutcome call (run_prepared_agent_call deps s p)
        (λ u e. subst (λ c. IsOutcome c u) h (run_prepared_agent_call-IsOutcome deps p s u e))
  outcome_of-IsOutcome call (refused message type) h = inl (tool_error-IsResult call message type)

  pub outcome-IsOutcome : (i : ℕ) (call : ToolCall) → IsOutcome call (outcome deps s fresh i call)
  unfolding outcome
  outcome-IsOutcome i call =
      outcome_of-IsOutcome call (prepare_agent_call deps s (fresh i) call)
        (prepare_agent_call-IsFor deps call s (fresh i))

  pub pending_outcome :
      (i : ℕ) (call : ToolCall)
      → is_pending (outcome deps s fresh i call) ≡ true
      → IsWaiting (outcome deps s fresh i call)
  pending_outcome i call h = elim (outcome-IsOutcome i call) [
    | inl r ↦ cc (h, r.settled)
    | inr w ↦ w
  ]
