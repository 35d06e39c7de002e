-- ===== src/ModelCall/Tests.antt =====
-- A provider that promises subagents and, asked again, calls one.
use langraph_agent_blueprint.Prelude.{
  ℕ, ◌+◌, ◌≤◌, ◌-◌, max, ◌≡◌, refl, ◌⊎◌, String, true, none, some, List, [], ◌∷◌, ◌++◌, arith,
  if◌then◌else◌, leb, length,
}
use langraph_agent_blueprint.Prelude.Dict.{Dict, lookup, insert}
use langraph_agent_blueprint.Prelude.Result.{Result, ok, raise}
use langraph_agent_blueprint.ModelCall.{
  ModelDependencies, ModelProvider, ModelRequest, ModelResponse, ModelStreamEvent, token,
  empty_response,
}
use langraph_agent_blueprint.ModelCall.Fit.{truncated_message, fit_messages_to_budget}
use langraph_agent_blueprint.ModelCall.Fit.Laws.{IsSuffix, IsCut, fit_messages_to_budget-cases}
use langraph_agent_blueprint.ModelCall.Repair.{
  generate_model_response, repair_missing_subagent_tool_calls,
}
use langraph_agent_blueprint.ModelCall.Repair.Laws.{
  IsRepaired, repair_missing_subagent_tool_calls-cases,
}
use langraph_agent_blueprint.ModelCall.Repair.Stream.{
  Stream, live, is_interrupted, tokens, generate_model_response-interrupted,
}
use langraph_agent_blueprint.ModelCall.Request.{overhead_tokens, fit_request_to_context_window}
use langraph_agent_blueprint.ModelCall.Request.Laws.{fit_request_to_context_window-bound}
use langraph_agent_blueprint.ModelCall.Step.{model_call_node}
use langraph_agent_blueprint.ModelCall.Step.Laws.{
  Stops, HasAnswer, after_hooks, model_call_node-cases,
}
use langraph_agent_blueprint.Nodes.Tests.{deps}
use langraph_agent_blueprint.RunControl.{RunControlService, init}
use langraph_agent_blueprint.State.{
  State, Update, empty_update, Message, human, system, ai, ToolCall,
}
use langraph_agent_blueprint.State.Updates.Tests.{blank}
use langraph_agent_blueprint.Value.{Value, is_set, merge_dict, bool, num, end}

abbrev agent_call : ToolCall
agent_call = record { id = "c1"; name = "agent"; args = end }

abbrev promise : ModelResponse
promise = record empty_response { content = "I create a subagent now" }

abbrev agent_response : ModelResponse
agent_response = record empty_response { content = "ok"; tool_calls = agent_call ∷ [] }

abbrev is_long : List Message → Result ModelResponse
is_long ms = if leb 2 (length ms) then ok agent_response else ok promise

abbrev generate : ModelRequest → Result ModelResponse
generate request = is_long request.messages

abbrev cancelled_runs : RunControlService
cancelled_runs = record init { cancelled_reasons = ("thread_1", "stop") ∷ [] }

abbrev item : String → ModelStreamEvent
item text = record { type = token; token = text; response = none }

abbrev stream : Stream
stream = (init, item "a") ∷ (cancelled_runs, item "b") ∷ []

abbrev stream_generate : ModelRequest → Stream
stream_generate request = stream

abbrev model_provider : ModelProvider
model_provider = record { generate = generate; stream_generate = stream_generate }

abbrev content : Message → String
content (human text) = text
content (ai text calls) = text
content (system text) = text
content _ = "{}"

abbrev with_content : Message → String → Message
with_content m text = human text

abbrev json_text : Dict Value → String
json_text d = "{}"

abbrev schemas_text : Dict Value → String
schemas_text d = "[]"

abbrev percent : ℕ → ℕ → Value
percent used window = num 50

abbrev model_deps : ModelDependencies
model_deps = record {
  app = deps;
  model_provider = model_provider;
  context_max_tokens = 1000;
  content = content;
  with_content = with_content;
  json_text = json_text;
  schemas_text = schemas_text;
  percent = percent;
}

abbrev messages : List Message
messages = human "start two subagents" ∷ []

abbrev asking : State
asking = record blank { messages = messages; available_tools = ("agent", bool true) ∷ [] }

abbrev request : ModelRequest
request = record {
  messages = messages;
  system_context = "You help.";
  tools = ("agent", bool true) ∷ [];
  metadata = [];
}

fit_messages_to_budget-cases_example :
    IsSuffix model_deps messages 2 (fit_messages_to_budget model_deps messages (some 2))
    ⊎ IsCut model_deps messages 2 (fit_messages_to_budget model_deps messages (some 2))
fit_messages_to_budget-cases_example = fit_messages_to_budget-cases model_deps messages 2

repaired :
    repair_missing_subagent_tool_calls model_deps request promise
    ≡ ok (record agent_response { content = "I create a subagent now\n\nok" })
unfolding repair_missing_subagent_tool_calls lookup insert
repaired = refl

repair_missing_subagent_tool_calls-cases_example :
    (record agent_response { content = "I create a subagent now\n\nok" } ≡ promise)
    ⊎ IsRepaired deps.lower request promise
        (record agent_response { content = "I create a subagent now\n\nok" })
repair_missing_subagent_tool_calls-cases_example =
    repair_missing_subagent_tool_calls-cases model_deps request promise
      (record agent_response { content = "I create a subagent now\n\nok" }) repaired

abbrev streaming : State
streaming = record asking { metadata = ("streaming_enabled", bool true) ∷ [] }

is_streaming : is_set (lookup "streaming_enabled" streaming.metadata) ≡ true
unfolding lookup
is_streaming = refl

interrupted : is_interrupted streaming.thread_id stream ≡ true
unfolding is_interrupted lookup
interrupted = refl

generate_model_response-interrupted_example :
    generate_model_response model_deps streaming request
    ≡ ok (tokens (live streaming.thread_id stream), empty_response)
generate_model_response-interrupted_example =
    generate_model_response-interrupted model_deps streaming request is_streaming interrupted

fits_window : overhead_tokens model_deps request 2 ≤ 5
unfolding overhead_tokens
fits_window = omega arith

fit_request_to_context_window-bound_example :
    ((fit_request_to_context_window model_deps request 5 2).1.used_tokens ≤ 5 + 2)
    ⊎ ((front : List Message) × (last : Message) × (front ++ last ∷ [] ≡ request.messages)
        × ((fit_request_to_context_window model_deps request 5 2).0.messages
            ≡ truncated_message model_deps last (max 1 (5 - overhead_tokens model_deps request 2))
              ∷ []))
fit_request_to_context_window-bound_example =
    fit_request_to_context_window-bound model_deps request 5 2 (omega arith) fits_window

abbrev update_of : Result Update → Update
update_of (ok u) = u
update_of (raise e) = empty_update

abbrev node_update : Update
unfolding model_call_node
node_update = update_of (model_call_node model_deps asking init "m1")

returned : model_call_node model_deps asking init "m1" ≡ ok node_update
unfolding model_call_node node_update lookup insert merge_dict
returned = refl

model_call_node-cases_example :
    Stops node_update ⊎ HasAnswer model_deps (after_hooks model_deps asking) node_update
model_call_node-cases_example =
    model_call_node-cases model_deps asking init "m1" node_update returned
