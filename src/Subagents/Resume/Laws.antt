-- ===== src/Subagents/Resume/Laws.antt =====
-- What a decision makes of a subagent that waits.
use langraph_agent_blueprint.Prelude.{
  ◌≡◌, refl, ap, sym, ◌∙◌, Bool, true, false, none, some, [], ◌∷◌, ◌⊎◌, inl, inr, ◌++◌,
}
use langraph_agent_blueprint.Prelude.Dict.{Dict}
use langraph_agent_blueprint.Prelude.Result.{ok, >>=-inverts, ok-holds}
use langraph_agent_blueprint.Nodes.PermissionGate.{PermissionDecision, resume_decision}
use langraph_agent_blueprint.State.{State, Update, ToolCall, ToolResult, ToolResultStatus, Event}
use langraph_agent_blueprint.Subagents.Concurrent.Outcome.{IsOutcome, settle-IsOutcome}
use langraph_agent_blueprint.Subagents.Resume.{
  PendingApproval, ResumeDependencies, call_of, rejected_child_result, with_event, rejected,
  approved, by_decision, resolve, resume_pending_subagent_approval, resume_stored,
}
use langraph_agent_blueprint.Subagents.Run.{
  finalize_prepared_agent_call, finished_update, child_tool_result, summarize_child_run,
}
use langraph_agent_blueprint.Value.{Value}

-- One result of the call, an error, and no approval left to wait for.
pub record IsRejection (call : ToolCall) (u : Update) : Type 0 where
  pub result : ToolResult
  pub results : u.tool_results ≡ result ∷ []
  pub id : result.id ≡ call.id
  pub status : result.status ≡ ToolResultStatus.error
  pub cleared : u.pending_subagent_approval ≡ some none

with_event-IsOutcome :
    (call : ToolCall) (e : Event) (u : Update) → IsOutcome call u → IsOutcome call (with_event e u)
with_event-IsOutcome call e u (inl h) =
    inl (record { result = h.result; results = h.results; id = h.id; settled = h.settled })
with_event-IsOutcome call e u (inr h) =
    inr (record { results = h.results; waits = h.waits; calls = h.calls })

with_event-IsRejection :
    (call : ToolCall) (e : Event) (u : Update)
    → IsRejection call u
    → IsRejection call (with_event e u)
with_event-IsRejection call e u h = record {
  result = h.result;
  results = h.results;
  id = h.id;
  status = h.status;
  cleared = h.cleared;
}

module _ (deps : ResumeDependencies) (pending : PendingApproval) (d : PermissionDecision) where
  rejected-IsRejection :
      (u : Update) → rejected deps pending d ≡ ok u → IsRejection pending.agent_call u
  unfolding rejected finalize_prepared_agent_call rejected_child_result finished_update
      child_tool_result summarize_child_run
  rejected-IsRejection u h =
      let found =
        >>=-inverts (deps.agents.delete_child_thread pending.metadata.child_thread_id) _ u h in
      ok-holds (IsRejection pending.agent_call)
        (record { result = _; results = refl; id = refl; status = refl; cleared = refl }) found.2

  approved-IsOutcome :
      (u : Update) → approved deps pending d ≡ ok u → IsOutcome pending.agent_call u
  unfolding approved
  approved-IsOutcome u h =
      let found = >>=-inverts (deps.resume_child pending d) _ u h in
      settle-IsOutcome deps.agents (call_of pending) pending.parent_metadata found.0
        found.0.interrupt (pending.child_events ++ found.0.ui_events) _ u found.2

  -- What the decision has made of the call.
  abbrev pub IsDecided : Update → Type 0
  IsDecided u =
      ((d.approved ≡ true) × IsOutcome pending.agent_call u)
      ⊎ ((d.approved ≡ false) × IsRejection pending.agent_call u)

  by_decision-IsDecided :
      (b : Bool) (u : Update) → d.approved ≡ b → by_decision deps b pending d ≡ ok u → IsDecided u
  unfolding by_decision
  by_decision-IsDecided true u e h = inl (e, approved-IsOutcome u h)
  by_decision-IsDecided false u e h = inr (e, rejected-IsRejection u h)

  with_event-IsDecided : (e : Event) (u : Update) → IsDecided u → IsDecided (with_event e u)
  with_event-IsDecided e u (inl h) = inl (h.0, with_event-IsOutcome pending.agent_call e u h.1)
  with_event-IsDecided e u (inr h) = inr (h.0, with_event-IsRejection pending.agent_call e u h.1)

  resolve-IsDecided : (u : Update) → resolve deps pending d ≡ ok u → IsDecided u
  unfolding resolve
  resolve-IsDecided u h =
      let found = >>=-inverts (by_decision deps d.approved pending d) _ u h in
      ok-holds IsDecided
        (with_event-IsDecided _ found.0 (by_decision-IsDecided d.approved found.0 refl found.1))
        found.2

-- Where a stored approval is resumed and an update is returned, the approval and the decision were valid, and
-- either it was approved and the update holds exactly one result of the call or waits for a further approval,
-- or it was rejected and the update holds exactly one result of the call, an error, and waits for nothing.
pub resume_pending_subagent_approval-IsDecided :
    (deps : ResumeDependencies) (s : State) (stored : Dict Value) (payload : Value) (u : Update)
    → s.pending_subagent_approval ≡ some stored
    → resume_pending_subagent_approval deps s payload ≡ ok u
    → (pending : PendingApproval) × (d : PermissionDecision) × (deps.validate_pending stored
        ≡ ok pending)
      × (resume_decision payload ≡ ok d)
      × IsDecided deps pending d u
unfolding resume_pending_subagent_approval resume_stored
resume_pending_subagent_approval-IsDecided deps s stored payload u e h =
    let k = ap (λ o. resume_stored deps o payload) (sym e) ∙ h in
    let first = >>=-inverts (deps.validate_pending stored) _ u k in
    let second = >>=-inverts (resume_decision payload) _ u first.2 in
    (first.0, second.0, first.1, second.1, resolve-IsDecided deps first.0 second.0 u second.2)
