-- ===== src/ModelCall/Step/Laws.antt =====
-- What the node makes of the model's response.
use langraph_agent_blueprint.Prelude.{
  String, ◌≡◌, refl, Option, none, some, [], ◌∷◌, ◌⊎◌, inl, inr, Bool-cases, ◌&&◌, not,
}
use langraph_agent_blueprint.Prelude.Result.{Result, ok, raise, ok-holds}
use langraph_agent_blueprint.Graph.{has_response, is_filled}
use langraph_agent_blueprint.Hooks.{pre_model, post_model}
use langraph_agent_blueprint.ModelCall.{ModelDependencies, ModelResponse}
use langraph_agent_blueprint.ModelCall.Request.{ModelContextReport}
use langraph_agent_blueprint.ModelCall.Step.{
  no_overrides, response_update, fitted_of, response_to, answered, answered_by, asked, called,
  model_call_node,
}
use langraph_agent_blueprint.Nodes.{run_point, cancellation_update}
use langraph_agent_blueprint.Nodes.Entries.{messages-run_point, pending_tool_calls-run_point}
use langraph_agent_blueprint.RunControl.{RunControlService, is_cancelled}
use langraph_agent_blueprint.State.{State, Update, ai}
use langraph_agent_blueprint.State.Updates.{
  merge_updates, merge_from, merge_update, state_with_update, hook_blocked,
}

-- The update holds one message with the text and the calls of the response, and these calls are pending.
pub record IsAnswer (answer : ModelResponse) (u : Update) : Type 0 where
  pub messages : u.messages ≡ ai answer.content answer.tool_calls ∷ []
  pub pending : u.pending_tool_calls ≡ some answer.tool_calls

response_update-IsAnswer :
    (s : State) (report : ModelContextReport) (id : String) (answer : ModelResponse)
    → IsAnswer answer (response_update s report id answer)
unfolding response_update
response_update-IsAnswer s report id answer = record { messages = refl; pending = refl }

merge_updates-IsAnswer :
    (answer : ModelResponse) (a b c : Update)
    → a.messages ≡ []
    → c.messages ≡ []
    → c.pending_tool_calls ≡ none
    → IsAnswer answer b
    → IsAnswer answer (merge_updates (a ∷ b ∷ c ∷ []))
unfolding merge_updates merge_from merge_update
merge_updates-IsAnswer answer a b c ha hc hp h = record {
  messages = rw ha (rw hc (rw h.messages refl));
  pending = rw hp (rw h.pending refl);
}

-- A turn that stops: nothing is pending after it that was not pending before.
abbrev pub Stops : Update → Type 0
Stops u = (u.pending_tool_calls ≡ none) ⊎ (u.pending_tool_calls ≡ some [])

abbrev HasNoCalls : Option Update → Type 0
HasNoCalls none = Unit
HasNoCalls (some u) = u.pending_tool_calls ≡ some []

cancellation_update-HasNoCalls :
    (s : State) (runs : RunControlService) (node : String)
    → HasNoCalls (cancellation_update s runs node)
unfolding cancellation_update
cancellation_update-HasNoCalls s runs node =
    elim (Bool-cases (is_cancelled runs (some s.thread_id))) [ inl e ↦ rw e refl | inr e ↦ rw e tt ]

module _ (deps : ModelDependencies) where
  -- The update passes on what the model responds to the request that is fitted in this state.
  pub record HasAnswer (current : State) (u : Update) : Type 0 where
    pub answer : ModelResponse
    pub response : response_to deps current (fitted_of deps current).0 ≡ ok answer
    pub is_answer : IsAnswer answer u

  answered-cases :
      (pre : Update) (current : State) (report : ModelContextReport) (id : String)
      (c : Option Update) (answer : ModelResponse)
      → pre.messages ≡ []
      → HasNoCalls c
      → Stops (answered deps pre current report id c answer)
        ⊎ IsAnswer answer (answered deps pre current report id c answer)
  unfolding answered
  answered-cases pre current report id (some cancelled) answer h k = inl (inr (rw k refl))
  answered-cases pre current report id none answer h k =
      let update = response_update current report id answer in
      let after = state_with_update current update in
      inr (
        merge_updates-IsAnswer answer pre update (run_point deps.app after post_model no_overrides)
          h (messages-run_point deps.app after post_model no_overrides)
          (pending_tool_calls-run_point deps.app after post_model no_overrides)
          (response_update-IsAnswer current report id answer))

  answered_by-cases :
      (pre : Update) (current : State) (report : ModelContextReport) (id : String)
      (c : Option Update) (r : Result ModelResponse) (u : Update)
      → pre.messages ≡ []
      → HasNoCalls c
      → answered_by deps pre current report id c r ≡ ok u
      → Stops u ⊎ ((answer : ModelResponse) × (r ≡ ok answer) × IsAnswer answer u)
  unfolding answered_by
  answered_by-cases pre current report id c (ok answer) u h k =
      ok-holds (λ v. Stops v ⊎ ((a : ModelResponse) × (ok answer ≡ ok a) × IsAnswer a v))
        (elim (answered-cases pre current report id c answer h k) [
          | inl e ↦ inl e
          | inr e ↦ inr (answer, refl, e)
        ])
  answered_by-cases pre current report id c (raise e) u h k = λ g. cc

  asked-cases :
      (pre : Update) (current : State) (runs : RunControlService) (id : String) (u : Update)
      → pre.messages ≡ []
      → asked deps pre current runs id ≡ ok u
      → Stops u ⊎ HasAnswer current u
  unfolding asked
  asked-cases pre current runs id u h e =
      elim (answered_by-cases pre current (fitted_of deps current).1 id
        (cancellation_update current runs "model_call")
        (response_to deps current (fitted_of deps current).0) u h
        (cancellation_update-HasNoCalls current runs "model_call") e) [
          | inl s ↦ inl s
          | inr a ↦ inr (record { answer = a.0; response = a.1; is_answer = a.2 })
        ]

  abbrev pub after_hooks : State → State
  unfolding run_point state_with_update
  after_hooks s = state_with_update s (run_point deps.app s pre_model no_overrides)

  called-cases :
      (s : State) (runs : RunControlService) (id : String) (c : Option Update) (u : Update)
      → HasNoCalls c
      → called deps s runs id c ≡ ok u
      → Stops u ⊎ HasAnswer (after_hooks s) u
  unfolding called after_hooks
  called-cases s runs id (some cancelled) u h =
      ok-holds (λ v. Stops v ⊎ HasAnswer (after_hooks s) v) (inl (inr h))
  called-cases s runs id none u h =
      let pre = run_point deps.app s pre_model no_overrides in
      elim (Bool-cases (has_response s.final_response && not (is_filled s.pending_tool_calls))) [
        | inl e ↦ rw e (ok-holds (λ v. Stops v ⊎ HasAnswer (after_hooks s) v) (inl (inl refl)))
        | inr e ↦ elim (Bool-cases (hook_blocked pre)) [
          | inl g ↦ rw e (
              rw g (
                ok-holds (λ v. Stops v ⊎ HasAnswer (after_hooks s) v)
                  (inl (inl (pending_tool_calls-run_point deps.app s pre_model no_overrides)))))
          | inr g ↦ rw e (
              rw g (
                asked-cases pre (state_with_update s pre) runs id u
                  (messages-run_point deps.app s pre_model no_overrides)))
        ]
      ]

-- Whenever the node returns an update, either no call is pending in it, or it adds one message, with the text
-- and the calls of the model's response to the fitted request of the state after the hooks, and exactly these
-- calls are pending: what the router runs is what the conversation says.
pub model_call_node-cases :
    (deps : ModelDependencies) (s : State) (runs : RunControlService) (id : String) (u : Update)
    → model_call_node deps s runs id ≡ ok u
    → Stops u ⊎ HasAnswer deps (after_hooks deps s) u
unfolding model_call_node
model_call_node-cases deps s runs id u =
    called-cases deps s runs id (cancellation_update s deps.app.run_control "model_call") u
      (cancellation_update-HasNoCalls s deps.app.run_control "model_call")
