-- ===== src/ModelCall/Repair/Stream.antt =====
-- What a stream leaves behind that is left for a cancellation.
use langraph_agent_blueprint.Prelude.{
  String, ◌≡◌, refl, ap, ◌∙◌, Bool, true, false, ◌||◌, Option, none, some, List, [], ◌∷◌,
  Bool-cases, inl, inr, if◌then◌else◌, ◌==◌,
}
use langraph_agent_blueprint.Prelude.Dict.{lookup}
use langraph_agent_blueprint.Prelude.Result.{ok}
use langraph_agent_blueprint.ModelCall.{
  ModelDependencies, ModelRequest, ModelResponse, ModelStreamEvent, StreamType, token, response,
  empty_response,
}
use langraph_agent_blueprint.ModelCall.Repair.{
  Streamed, consume, later_response, received, stream_end, generate_model_response,
}
use langraph_agent_blueprint.RunControl.{RunControlService, is_cancelled}
use langraph_agent_blueprint.State.{State}
use langraph_agent_blueprint.Value.{is_set}

abbrev pub Stream : Type 0
Stream = List (RunControlService × ModelStreamEvent)

-- The items that arrive before the run of the thread is cancelled.
unfoldable pub live : String → Stream → List ModelStreamEvent
unfolding is_cancelled
live thread [] = []
live thread ((runs, e) ∷ es) =
    let rest = live thread es in if is_cancelled runs (some thread) then [] else e ∷ rest

-- Whether the run is cancelled when one of the items arrives.
unfoldable pub is_interrupted : String → Stream → Bool
unfolding is_cancelled
is_interrupted thread [] = false
is_interrupted thread ((runs, e) ∷ es) = is_cancelled runs (some thread) || is_interrupted thread es

abbrev token_of : StreamType → String → List String → List String
token_of token text rest = if text == "" then rest else text ∷ rest
token_of response text rest = rest

-- The texts of the token items, the empty ones left out.
abbrev pub tokens : List ModelStreamEvent → List String
tokens [] = []
tokens (e ∷ es) = token_of e.type e.token (tokens es)

abbrev response_of : StreamType → Option ModelResponse → Option ModelResponse → Option ModelResponse
response_of token r last = last
response_of response r last = later_response r last

-- The last response among the items.
abbrev pub last_response : List ModelStreamEvent → Option ModelResponse → Option ModelResponse
last_response [] last = last
last_response (e ∷ es) last = last_response es (response_of e.type e.response last)

-- The outcome of a stream by its live items.
abbrev pub outcome : String → Stream → Option ModelResponse → Streamed
unfolding live is_interrupted
outcome thread es last = record {
  written = tokens (live thread es);
  cancelled = is_interrupted thread es;
  response = last_response (live thread es) last;
}

received-outcome :
    (type : StreamType) (text : String) (r : Option ModelResponse) (thread : String) (es : Stream)
    (last : Option ModelResponse)
    → received type text (outcome thread es last) (outcome thread es (later_response r last))
      ≡ record {
        written = token_of type text (tokens (live thread es));
        cancelled = is_interrupted thread es;
        response = last_response (live thread es) (response_of type r last);
      }
unfolding outcome
received-outcome token text r thread es last = elim (Bool-cases (text == "")) [
  | inl e ↦ rw e refl
  | inr e ↦ rw e refl
]
received-outcome response text r thread es last = refl

consume-outcome :
    (thread : String) (es : Stream) (last : Option ModelResponse)
    → consume thread es last ≡ outcome thread es last
unfolding consume live is_interrupted outcome
consume-outcome thread [] last = refl
consume-outcome thread ((runs, e) ∷ es) last = elim (Bool-cases (is_cancelled runs (some thread))) [
  | inl h ↦ rw h refl
  | inr h ↦ rw (consume-outcome thread es last) (
      rw (consume-outcome thread es (later_response e.response last))
        (rw h (received-outcome e.type e.token e.response thread es last)))
]

-- Where the run of a streamed turn is cancelled when one of the items arrives, the tokens of the items before
-- are all that is written, the response is empty, and the provider is not asked again.
pub generate_model_response-interrupted :
    (deps : ModelDependencies) (s : State) (request : ModelRequest)
    → is_set (lookup "streaming_enabled" s.metadata) ≡ true
    → is_interrupted s.thread_id (deps.model_provider.stream_generate request) ≡ true
    → generate_model_response deps s request
      ≡ ok (tokens (live s.thread_id (deps.model_provider.stream_generate request)), empty_response)
unfolding generate_model_response outcome
generate_model_response-interrupted deps s request h g =
    let es = deps.model_provider.stream_generate request in
    rw h (ap (stream_end deps request) (consume-outcome s.thread_id es none) ∙ rw g refl)
