-- ===== src/ModelCall.antt =====
-- graph/nodes/model_call.py with models/llm.py: the requests to the model and its responses, fitting a request
-- into the context window, and the node itself. A tool call of a response is taken as pydantic's validation
-- leaves it, and the raw payload of a provider is left out.
pub mod Fit
pub mod Request
pub mod UsageService
pub mod Repair
pub mod Step
mod Tests
use langraph_agent_blueprint.Prelude.{
  ℕ, ◌+◌, ◌/◌, max, String, Bool, Option, none, some, List, [], ◌∷◌, eqb, if◌then◌else◌,
}
use langraph_agent_blueprint.Prelude.Dict.{Dict, insert}
use langraph_agent_blueprint.Prelude.Result.{Result}
use langraph_agent_blueprint.Nodes.{AppDependencies}
use langraph_agent_blueprint.RunControl.{RunControlService}
use langraph_agent_blueprint.State.{Message, ToolCall}
use langraph_agent_blueprint.Value.{Value, num, str}

pub record ModelRequest : Type 0 where
  pub messages : List Message
  pub system_context : String
  pub tools : Dict Value
  pub metadata : Dict Value

pub record Usage : Type 0 where
  pub input_tokens : ℕ
  pub output_tokens : ℕ
  pub total_tokens : ℕ
  pub tool_calls : ℕ
  pub cost : Option Value
  pub model : Option String
  pub provider : Option String
  pub duration_ms : Option Value

pub record ModelResponse : Type 0 where
  pub content : String
  pub tool_calls : List ToolCall
  pub usage : Usage

abbrev pub no_usage : Usage
no_usage = record {
  input_tokens = 0;
  output_tokens = 0;
  total_tokens = 0;
  tool_calls = 0;
  cost = none;
  model = none;
  provider = none;
  duration_ms = none;
}

-- `ModelResponse()`
abbrev pub empty_response : ModelResponse
empty_response = record { content = ""; tool_calls = []; usage = no_usage }

pub data StreamType : Type 0 where
  token response : StreamType

pub record ModelStreamEvent : Type 0 where
  pub type : StreamType
  pub token : String
  pub response : Option ModelResponse

-- A provider of models. Each streamed item comes with the run control service as it stands when the item
-- arrives, since a run is cancelled from another thread.
pub record ModelProvider : Type 0 where
  pub generate : ModelRequest → Result ModelResponse
  pub stream_generate : ModelRequest → List (RunControlService × ModelStreamEvent)

-- What the node takes from its surroundings: the application, the provider, the size of the window, the text
-- of a message and the copy of a message with another text, the JSON text of a dict, the schemas of the tools
-- as JSON, and the percentage, which is a floating-point number.
pub record ModelDependencies : Type 0 where
  pub app : AppDependencies
  pub model_provider : ModelProvider
  pub context_max_tokens : ℕ
  pub content : Message → String
  pub with_content : Message → String → Message
  pub json_text : Dict Value → String
  pub schemas_text : Dict Value → String
  pub percent : ℕ → ℕ → Value

-- `_rough_token_estimate`
unfoldable pub rough_token_estimate : ℕ → ℕ
rough_token_estimate chars = if eqb chars 0 then 0 else max 1 ((chars + 3) / 4)

abbrev with_text : String → Option String → Dict Value → Dict Value
with_text k none d = d
with_text k (some text) d = insert k (str text) d

abbrev with_value : String → Option Value → Dict Value → Dict Value
with_value k none d = d
with_value k (some v) d = insert k v d

-- `usage.model_dump(mode="json")`, without the keys of `None`, which `UsageService.merge` passes over.
unfoldable pub dump_usage : Usage → Dict Value
dump_usage u = with_value "duration_ms" u.duration_ms (
    with_text "provider" u.provider (
      with_text "model" u.model (
        with_value "cost" u.cost (
          ("input_tokens", num u.input_tokens)
          ∷ ("output_tokens", num u.output_tokens)
          ∷ ("total_tokens", num u.total_tokens)
          ∷ ("tool_calls", num u.tool_calls)
          ∷ []))))
