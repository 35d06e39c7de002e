-- ===== src/ModelCall/Step.antt =====
-- graph/nodes/model_call.py: the node. Durations and the metrics of the instrumentation are left out, and so are
-- the tokens that it writes to the live stream.
pub mod Laws
use langraph_agent_blueprint.Prelude.{
  String, Bool, true, false, not, ◌&&◌, ◌||◌, Option, none, some, List, [], ◌∷◌, ◌++◌, contains,
  if◌then◌else◌, ◌==◌,
}
use langraph_agent_blueprint.Prelude.Dict.{Dict, lookup, insert}
use langraph_agent_blueprint.Prelude.Result.{Result, ok, ◌>>=◌}
use langraph_agent_blueprint.Graph.{has_response, is_filled}
use langraph_agent_blueprint.Hooks.{pre_model, post_model}
use langraph_agent_blueprint.Hooks.Service.{Overrides}
use langraph_agent_blueprint.ModelCall.{ModelDependencies, ModelRequest, ModelResponse, dump_usage}
use langraph_agent_blueprint.ModelCall.Repair.{
  generate_model_response, repair_missing_subagent_tool_calls,
}
use langraph_agent_blueprint.ModelCall.Request.{
  ModelContextReport, dump_report, usage_from_model_context, fit_request_to_context_window,
}
use langraph_agent_blueprint.ModelCall.UsageService.{merge}
use langraph_agent_blueprint.Nodes.{run_point, cancellation_update, dump_call}
use langraph_agent_blueprint.RunControl.{RunControlService}
use langraph_agent_blueprint.State.{
  State, Update, empty_update, ToolCall, ToolResult, Event, event, ai,
}
use langraph_agent_blueprint.State.Updates.{merge_updates, state_with_update, hook_blocked}
use langraph_agent_blueprint.Text.{text_length}
use langraph_agent_blueprint.Tools.Execution.{status_name}
use langraph_agent_blueprint.Value.{
  Value, Items, null, str, obj, arr, nil, cons, fields_of, list_or_empty, texts, is_set, value_or,
  merge_dict,
}

abbrev pub no_overrides : Overrides
no_overrides = record { active_tool = none; permission_request = none; metadata = [] }

abbrev text_of : Option Value → String
text_of (some (str text)) = text
text_of _ = ""

-- The tools of the active skill, for a list of names.
unfoldable pub narrowed : Option Value → Dict Value → Dict Value
narrowed allowed [] = []
narrowed allowed ((name, meta) ∷ tools) =
    let rest = narrowed allowed tools in
    if not (is_set allowed) || contains (texts (list_or_empty allowed)) name
    then (name, meta) ∷ rest
    else rest

abbrev result_items : List ToolResult → Items
result_items [] = nil
result_items (r ∷ rs) =
    cons
      (obj (
        fields_of (
          ("id", str r.id)
          ∷ ("name", str r.name)
          ∷ ("status", str (status_name r.status))
          ∷ ("content", str r.content)
          ∷ ("metadata", obj (fields_of r.metadata))
          ∷ [])))
      (result_items rs)

-- The request before it is fitted into the window.
unfoldable pub request_of : State → ModelRequest
unfolding narrowed
request_of s = record {
  messages = s.messages;
  system_context = text_of (lookup "system_context" s.context_status);
  tools = narrowed (lookup "allowed_tools_override" s.metadata) s.available_tools;
  metadata =
      ("tool_results", arr (result_items s.tool_results))
      ∷ ("model_intelligence", value_or null (lookup "model_intelligence" s.metadata))
      ∷ [];
}

abbrev model_events : String → Dict Value → Value → List Event
model_events content usage report =
    (event "node_started" (("node", str "model_call") ∷ [])
      ∷ event "model_context_prepared" (("node", str "model_call") ∷ ("model_context", report) ∷ [])
      ∷ [])
    ++ (if content == "" then [] else event "model_message" (("content", str content) ∷ []) ∷ [])
    ++ event "usage_updated" (("usage", obj (fields_of usage)) ∷ [])
      ∷ event "node_finished" (("node", str "model_call") ∷ [])
      ∷ []

-- The update of the node for a response. The identifier of the message is a fresh one.
unfoldable pub response_update : State → ModelContextReport → String → ModelResponse → Update
unfolding dump_report usage_from_model_context merge merge_dict dump_usage
response_update s report message_id answer =
    let usage =
      merge_dict (merge s.usage (dump_usage answer.usage)) (usage_from_model_context report) in
    record empty_update {
      messages = ai answer.content answer.tool_calls ∷ [];
      pending_tool_calls = some answer.tool_calls;
      usage = some usage;
      metadata = some (
          insert "assistant_message_id" (str message_id)
            (insert "model_context" (dump_report report) s.metadata));
      final_response = some (if is_filled answer.tool_calls then none else some answer.content);
      ui_events = model_events answer.content usage (dump_report report);
    }

module _ (deps : ModelDependencies) where
  unfoldable pub fitted_of : State → ModelRequest × ModelContextReport
  unfolding request_of fit_request_to_context_window
  fitted_of s =
      let request = request_of s in
      fit_request_to_context_window deps request deps.context_max_tokens
        (text_length (deps.schemas_text request.tools))

  -- The response to the fitted request, after a repair.
  unfoldable pub response_to : State → ModelRequest → Result ModelResponse
  unfolding generate_model_response repair_missing_subagent_tool_calls
  response_to current request = do
    first ← generate_model_response deps current request
    repair_missing_subagent_tool_calls deps request first.1

  -- The end of the node, for a response.
  unfoldable pub answered :
      Update → State → ModelContextReport → String → Option Update → ModelResponse → Update
  unfolding response_update merge_updates run_point state_with_update
  answered pre current report message_id (some cancelled) answer =
      merge_updates (pre ∷ cancelled ∷ [])
  answered pre current report message_id none answer =
      let update = response_update current report message_id answer in
      merge_updates (
        pre
        ∷ update
        ∷ run_point deps.app (state_with_update current update) post_model no_overrides
        ∷ [])

  unfoldable pub answered_by :
      Update
      → State
      → ModelContextReport
      → String
      → Option Update
      → Result ModelResponse
      → Result Update
  unfolding answered
  answered_by pre current report message_id cancelled r =
      r >>= λ answer. ok (answered pre current report message_id cancelled answer)

  -- The node after its first hooks. `after` is the run control service when the model has answered.
  unfoldable pub asked : Update → State → RunControlService → String → Result Update
  unfolding answered_by fitted_of response_to cancellation_update
  asked pre current after message_id =
      answered_by pre current (fitted_of current).1 message_id
        (cancellation_update current after "model_call") (response_to current (fitted_of current).0)

  unfoldable pub called : State → RunControlService → String → Option Update → Result Update
  unfolding asked run_point hook_blocked state_with_update
  called s after message_id (some cancelled) = ok cancelled
  called s after message_id none =
      let pre = run_point deps.app s pre_model no_overrides in
      if has_response s.final_response && not (is_filled s.pending_tool_calls)
      then ok empty_update
      else if hook_blocked pre
      then ok pre
      else asked pre (state_with_update s pre) after message_id

  unfoldable pub model_call_node : State → RunControlService → String → Result Update
  unfolding called cancellation_update
  model_call_node s after message_id =
      called s after message_id (cancellation_update s deps.app.run_control "model_call")
