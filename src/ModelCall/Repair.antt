-- ===== src/ModelCall/Repair.antt =====
-- graph/nodes/model_call.py: the call of the provider, streamed or not, and the one retry for a model that
-- promises subagents and calls none. `lower` is `str.lower`.
pub mod Laws
pub mod Stream
use langraph_agent_blueprint.Prelude.{
  String, ◌<>◌, Bool, true, false, ◌||◌, ◌&&◌, not, Option, none, some, List, [], ◌∷◌, ◌++◌,
  reverse, if◌then◌else◌, ◌==◌,
}
use langraph_agent_blueprint.Prelude.Dict.{Dict, lookup}
use langraph_agent_blueprint.Prelude.Result.{Result, ok, ◌>>=◌}
use langraph_agent_blueprint.ModelCall.{
  ModelDependencies, ModelRequest, ModelResponse, ModelStreamEvent, StreamType, token, response,
  empty_response, dump_usage,
}
use langraph_agent_blueprint.ModelCall.UsageService.{merge, usage_of}
use langraph_agent_blueprint.RunControl.{RunControlService, is_cancelled}
use langraph_agent_blueprint.State.{State, Message, human, system, ai, tool, remove_all, ToolCall}
use langraph_agent_blueprint.Text.Search.{has_text, has_any}
use langraph_agent_blueprint.Value.{Value, is_set}

-- The tokens written to the client, whether the stream was left for a cancellation, and the response.
pub record Streamed : Type 0 where
  pub written : List String
  pub cancelled : Bool
  pub response : Option ModelResponse

abbrev pub later_response : Option ModelResponse → Option ModelResponse → Option ModelResponse
later_response none r = r
later_response (some r) other = some r

-- What an item makes of the rest of the stream: a token is written, a response is kept.
abbrev pub received : StreamType → String → Streamed → Streamed → Streamed
received token text same other =
    if text == "" then same else record same { written = text ∷ same.written }
received response text same other = other

-- The loop over the stream.
unfoldable pub consume :
    String → List (RunControlService × ModelStreamEvent) → Option ModelResponse → Streamed
unfolding is_cancelled
consume thread [] last = record { written = []; cancelled = false; response = last }
consume thread ((runs, e) ∷ es) last =
    let same = consume thread es last in
    let other = consume thread es (later_response e.response last) in
    if is_cancelled runs (some thread)
    then record { written = []; cancelled = true; response = last }
    else received e.type e.token same other

-- `any(call.get("name") == "agent" for call in calls)`
abbrev pub calls_agent : List ToolCall → Bool
calls_agent [] = false
calls_agent (call ∷ calls) = call.name == "agent" || calls_agent calls

-- The loop of `_agent_called_after_latest_user` over the messages from the last one back.
unfoldable pub agent_called_from : List Message → Bool
agent_called_from [] = false
agent_called_from (human text ∷ ms) = false
agent_called_from (ai text calls ∷ ms) = calls_agent calls || agent_called_from ms
agent_called_from (system text ∷ ms) = agent_called_from ms
agent_called_from (tool id payload ∷ ms) = agent_called_from ms
agent_called_from (remove_all ∷ ms) = agent_called_from ms

unfoldable pub agent_called_after_latest_user : List Message → Bool
unfolding agent_called_from
agent_called_after_latest_user ms = agent_called_from (reverse ms)

-- The loop of `_latest_user_text` over the messages from the last one back.
unfoldable pub user_text_from : List Message → String
user_text_from [] = ""
user_text_from (human text ∷ ms) = text
user_text_from (ai text calls ∷ ms) = user_text_from ms
user_text_from (system text ∷ ms) = user_text_from ms
user_text_from (tool id payload ∷ ms) = user_text_from ms
user_text_from (remove_all ∷ ms) = user_text_from ms

unfoldable pub latest_user_text : List Message → String
unfolding user_text_from
latest_user_text ms = user_text_from (reverse ms)

abbrev subagent_words : List String
subagent_words = "сабагент" ∷ "саб-агент" ∷ "subagent" ∷ "sub-agent" ∷ []

abbrev agent_terms : List String
agent_terms = "agent" ∷ "агент" ∷ []

abbrev split_terms : List (String × String)
split_terms =
    ("frontend", "backend") ∷ ("фронт", "бек") ∷ ("react", "fastapi") ∷ ("реакт", "фастапи") ∷ []

abbrev promise_terms : List String
promise_terms =
    "созда" ∷ "запущ" ∷ "start" ∷ "create" ∷ "run" ∷ "spawn" ∷ "delegate" ∷ "now" ∷ "теперь" ∷ []

abbrev has_both : List (String × String) → String → Bool
unfolding has_text
has_both [] text = false
has_both ((left, right) ∷ pairs) text =
    (has_text left text && has_text right text) || has_both pairs text

unfoldable pub has_subagent_intent : (String → String) → String → Bool
unfolding has_text
has_subagent_intent lower text =
    let normalized = lower text in
    has_any subagent_words normalized
    || (has_any agent_terms normalized && has_both split_terms normalized)

unfoldable pub promises_subagent_work : (String → String) → String → Bool
unfolding has_text
promises_subagent_work lower text =
    let normalized = lower text in
    has_any (subagent_words ++ agent_terms) normalized && has_any promise_terms normalized

abbrev has_tool : Option Value → Bool
has_tool none = false
has_tool (some v) = true

-- `_needs_subagent_tool_repair`
unfoldable pub needs_subagent_tool_repair : (String → String) → ModelRequest → ModelResponse → Bool
unfolding agent_called_after_latest_user latest_user_text has_subagent_intent promises_subagent_work
needs_subagent_tool_repair lower request answer =
    has_tool (lookup "agent" request.tools)
    && not (agent_called_after_latest_user request.messages)
    && has_subagent_intent lower (latest_user_text request.messages)
    && promises_subagent_work lower answer.content

abbrev pub subagent_tool_repair_prompt : String
subagent_tool_repair_prompt =
    "The previous assistant message said subagents would be created, but it emitted no `agent` tool calls. "
    <> "This violates the tool-use contract. Continue now by calling the `agent` tool once for each requested "
    <> "child agent, for example backend and frontend. Do not repeat the promise in prose. If prerequisites are "
    <> "not actually complete, call the required tools; otherwise call `agent`."

unfoldable pub repair_request : ModelRequest → ModelResponse → ModelRequest
repair_request request answer = record request {
  messages = request.messages ++ ai answer.content [] ∷ system subagent_tool_repair_prompt ∷ [];
}

-- The text of a response and of its repair.
unfoldable pub repaired_content : String → String → String
unfolding has_text
repaired_content first second =
    if first == ""
    then second
    else if not (second == "") && not (has_text second first)
    then first <> "\n\n" <> second
    else first

-- The response that a repair with these calls leaves.
unfoldable pub with_calls : List ToolCall → ModelResponse → ModelResponse → ModelResponse
unfolding repaired_content merge usage_of dump_usage
with_calls [] answer repaired = answer
with_calls (call ∷ calls) answer repaired = record {
  content = repaired_content answer.content repaired.content;
  tool_calls = call ∷ calls;
  usage = usage_of (merge (dump_usage answer.usage) (dump_usage repaired.usage));
}

abbrev pub with_repair : ModelResponse → ModelResponse → ModelResponse
unfolding with_calls
with_repair answer repaired = with_calls repaired.tool_calls answer repaired

abbrev pub makes_calls : ModelResponse → Bool
makes_calls answer = elim answer.tool_calls [ [] ↦ false | call ∷ calls ↦ true ]

module _ (deps : ModelDependencies) where
  -- The response of the provider, with the tokens written before it.
  abbrev written : List String → Result ModelResponse → Result (List String × ModelResponse)
  written tokens r = r >>= λ answer. ok (tokens, answer)

  abbrev pub stream_end : ModelRequest → Streamed → Result (List String × ModelResponse)
  stream_end request r = if r.cancelled then ok (r.written, empty_response) else elim r.response [
    | none ↦ written r.written (deps.model_provider.generate request)
    | some answer ↦ ok (r.written, answer)
  ]

  -- `_generate_model_response`
  unfoldable pub generate_model_response :
      State → ModelRequest → Result (List String × ModelResponse)
  unfolding consume
  generate_model_response s request =
      if is_set (lookup "streaming_enabled" s.metadata)
      then stream_end request
          (consume s.thread_id (deps.model_provider.stream_generate request) none)
      else written [] (deps.model_provider.generate request)

  -- `_repair_missing_subagent_tool_calls`
  unfoldable pub repair_missing_subagent_tool_calls :
      ModelRequest → ModelResponse → Result ModelResponse
  unfolding needs_subagent_tool_repair repair_request with_repair with_calls
  repair_missing_subagent_tool_calls request answer =
      if makes_calls answer || not (needs_subagent_tool_repair deps.app.lower request answer)
      then ok answer
      else deps.model_provider.generate (repair_request request answer) >>= λ repaired.
          ok (with_repair answer repaired)
