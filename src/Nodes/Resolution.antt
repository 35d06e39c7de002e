-- ===== src/Nodes/Resolution.antt =====
-- What follows from the user's decision on a pending call.
use langraph_agent_blueprint.Prelude.{
  ◌≡◌, refl, ap, sym, ◌∙◌, Bool, true, false, Option, none, some, List, [], ◌∷◌, arith,
  if◌then◌else◌,
}
use langraph_agent_blueprint.Prelude.Dict.{lookup, lookup-insert}
use langraph_agent_blueprint.Prelude.Result.{ok}
use langraph_agent_blueprint.Hooks.{permission_resolved}
use langraph_agent_blueprint.Hooks.Applier.{apply_hook_results}
use langraph_agent_blueprint.Hooks.Service.{run_hook_point}
use langraph_agent_blueprint.Nodes.{AppDependencies, run_point}
use langraph_agent_blueprint.Nodes.Approval.{tool_route}
use langraph_agent_blueprint.Nodes.Entries.{
  entry-merge_two, entry-run_point, lookup-state_with_update,
}
use langraph_agent_blueprint.Nodes.PermissionGate.{
  PermissionDecision, resume_decision, record_of, approved_update, rejected_update,
  rejected_tool_result, with_resolved_hooks, resolved_overrides, gate_update, gate_decided,
  gate_pending, permission_gate_node,
}
use langraph_agent_blueprint.Permission.Redact.{PermissionRequest}
use langraph_agent_blueprint.State.{State, Update, ToolCall, PermissionRecord}
use langraph_agent_blueprint.State.Updates.{
  state_with_update, merge_updates, merge_from, merge_update,
}
use langraph_agent_blueprint.Value.{Value, str, value_or}

-- The effect of a decision on the calls of a state.
pub record Resolved (s : State) (call : ToolCall) (request : PermissionRequest)
    (d : PermissionDecision) (u : Update) : Type 0 where
  pub route : tool_route u ≡ (
      if d.approved
      then some (value_or (str "execute") (lookup "after_permission_route" s.metadata))
      else some (str "rejected"))
  pub pending_tool_calls : u.pending_tool_calls ≡ (if d.approved then none else some [])
  pub pending_confirmation : u.pending_confirmation ≡ some none
  pub decisions : u.permission_decisions ≡ record_of request d ∷ []
  pub tool_results :
      u.tool_results ≡ (if d.approved then [] else rejected_tool_result call request ∷ [])

module _ (deps : AppDependencies) (s : State) (request : PermissionRequest)
    (r : PermissionRecord) where
  tool_route-with_resolved_hooks :
      (u : Update) (v : Value)
      → tool_route u ≡ some v
      → tool_route (with_resolved_hooks deps s request r u) ≡ some v
  unfolding with_resolved_hooks
  tool_route-with_resolved_hooks u v e =
      let seen = state_with_update s u in
      let o = resolved_overrides request r in
      ground (
        arith,
        e,
        entry-merge_two "tool_route" u (run_point deps seen permission_resolved o),
        entry-run_point deps seen permission_resolved o "tool_route" (some v) refl,
        lookup-state_with_update "tool_route" s u,
      )

module _ (deps : AppDependencies) (s : State) (request : PermissionRequest) (call : ToolCall)
    (d : PermissionDecision) where
  abbrev routes : Bool → Option Value
  routes b =
      if b
      then some (value_or (str "execute") (lookup "after_permission_route" s.metadata))
      else some (str "rejected")

  approved_entry :
      tool_route (approved_update s (record_of request d))
      ≡ some (value_or (str "execute") (lookup "after_permission_route" s.metadata))
  unfolding approved_update
  approved_entry = rw lookup-insert refl

  approved_route :
      d.approved ≡ true
      → tool_route (
          with_resolved_hooks deps s request
            (record_of request d)
            (approved_update s (record_of request d)))
        ≡ (if d.approved
            then some (value_or (str "execute") (lookup "after_permission_route" s.metadata))
            else some (str "rejected"))
  approved_route h =
      tool_route-with_resolved_hooks deps s request (record_of request d)
        (approved_update s (record_of request d))
        (value_or (str "execute") (lookup "after_permission_route" s.metadata)) approved_entry
      ∙ ap routes (sym h)

  rejected_entry :
      tool_route (rejected_update s request (record_of request d) call) ≡ some (str "rejected")
  unfolding rejected_update
  rejected_entry = rw lookup-insert refl

  rejected_route :
      d.approved ≡ false
      → tool_route (
          with_resolved_hooks deps s request
            (record_of request d)
            (rejected_update s request (record_of request d) call))
        ≡ (if d.approved
            then some (value_or (str "execute") (lookup "after_permission_route" s.metadata))
            else some (str "rejected"))
  rejected_route h =
      tool_route-with_resolved_hooks deps s request (record_of request d)
        (rejected_update s request (record_of request d) call) (str "rejected") rejected_entry
      ∙ ap routes (sym h)

  approved_update-Resolved :
      d.approved ≡ true
      → Resolved s call request d (
          with_resolved_hooks deps s request
            (record_of request d)
            (approved_update s (record_of request d)))
  unfolding with_resolved_hooks approved_update run_point run_hook_point apply_hook_results
      merge_updates merge_from merge_update
  approved_update-Resolved h = record {
    route = approved_route h;
    pending_tool_calls = rw h refl;
    pending_confirmation = refl;
    decisions = refl;
    tool_results = rw h refl;
  }

  rejected_update-Resolved :
      d.approved ≡ false
      → Resolved s call request d (
          with_resolved_hooks deps s request
            (record_of request d)
            (rejected_update s request (record_of request d) call))
  unfolding with_resolved_hooks rejected_update run_point run_hook_point apply_hook_results
      merge_updates merge_from merge_update
  rejected_update-Resolved h = record {
    route = rejected_route h;
    pending_tool_calls = rw h refl;
    pending_confirmation = refl;
    decisions = refl;
    tool_results = rw h refl;
  }

  gate_decided-Resolved :
      (calls : List ToolCall) (b : Bool)
      → d.approved ≡ b
      → (u : Update) × (gate_decided deps s request d (call ∷ calls) ≡ ok u)
        × Resolved s call request d u
  unfolding gate_decided gate_update
  gate_decided-Resolved calls true h = (
    with_resolved_hooks deps s request (record_of request d)
        (approved_update s (record_of request d)),
    rw h refl,
    approved_update-Resolved h,
  )
  gate_decided-Resolved calls false h = (
    with_resolved_hooks deps s request (record_of request d)
        (rejected_update s request (record_of request d) call),
    rw h refl,
    rejected_update-Resolved h,
  )

-- A decision on a pending request, where a call is pending: the node returns, for an approval the route that
-- the router had set aside, with the calls left pending, and for a rejection no pending call and a rejected
-- result for the first one. Either way the confirmation is cleared and the decision recorded once.
pub permission_gate_node-Resolved :
    (deps : AppDependencies) (s : State) (request : PermissionRequest) (call : ToolCall)
    (calls : List ToolCall) (decision : Value) (d : PermissionDecision)
    → s.pending_confirmation ≡ some request
    → s.pending_tool_calls ≡ call ∷ calls
    → resume_decision decision ≡ ok d
    → (u : Update) × (permission_gate_node deps s decision ≡ ok u) × Resolved s call request d u
unfolding permission_gate_node gate_pending
permission_gate_node-Resolved deps s request call calls decision d p c e =
    let (u, decided, resolved) =
      gate_decided-Resolved deps s request call d calls d.approved refl in
    (
      u,
      ap (λ m. gate_pending deps s m s.pending_confirmation s.pending_tool_calls) e
          ∙ ap (λ q. gate_pending deps s (ok d) q s.pending_tool_calls) p
          ∙ ap (λ cs. gate_pending deps s (ok d) (some request) cs) c
          ∙ decided,
      resolved,
    )
