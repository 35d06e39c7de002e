-- ===== src/ModelCall/Request.antt =====
-- graph/nodes/model_call.py: the request that fits the context window, and the report on what it holds.
pub mod Laws
use langraph_agent_blueprint.Prelude.{
  ℕ, suc, ◌<>◌, ◌+◌, ◌-◌, String, Bool, true, false, ◌||◌, ◌&&◌, not, Option, none, some, List, [],
  ◌∷◌, ◌++◌, ltb, eqb, if◌then◌else◌, ◌==◌,
}
use langraph_agent_blueprint.Prelude.Dict.{Dict}
use langraph_agent_blueprint.ModelCall.{ModelDependencies, ModelRequest, rough_token_estimate}
use langraph_agent_blueprint.ModelCall.Fit.{tokens_of, fit_messages_to_budget}
use langraph_agent_blueprint.State.{Message, human, system, ai, tool, remove_all}
use langraph_agent_blueprint.Text.{text_length}
use langraph_agent_blueprint.Value.{Value, Items, num, str, bool, obj, arr, nil, cons, fields_of}

pub record ModelContextPart : Type 0 where
  pub kind : String
  pub title : String
  pub content : String
  pub token_estimate : ℕ
  pub metadata : Dict Value

pub record ModelContextReport : Type 0 where
  pub max_tokens : ℕ
  pub used_tokens : ℕ
  pub remaining_tokens : ℕ
  pub percent : Value
  pub truncated : Bool
  pub parts : List ModelContextPart

abbrev pub used_by : List ModelContextPart → ℕ
used_by [] = 0
used_by (part ∷ parts) = part.token_estimate + used_by parts

abbrev pub has_entries : Dict Value → Bool
has_entries [] = false
has_entries (x ∷ d) = true

abbrev part_items : List ModelContextPart → Items
part_items [] = nil
part_items (part ∷ parts) =
    cons
      (obj (
        fields_of (
          ("kind", str part.kind)
          ∷ ("title", str part.title)
          ∷ ("content", str part.content)
          ∷ ("token_estimate", num part.token_estimate)
          ∷ ("included", bool true)
          ∷ ("truncated", bool false)
          ∷ ("metadata", obj (fields_of part.metadata))
          ∷ [])))
      (part_items parts)

-- `dump_model(report)`
unfoldable pub dump_report : ModelContextReport → Value
dump_report r = obj (
    fields_of (
      ("max_tokens", num r.max_tokens)
      ∷ ("used_tokens", num r.used_tokens)
      ∷ ("remaining_tokens", num r.remaining_tokens)
      ∷ ("percent", r.percent)
      ∷ ("truncated", bool r.truncated)
      ∷ ("parts", arr (part_items r.parts))
      ∷ []))

-- `_usage_from_model_context`
unfoldable pub usage_from_model_context : ModelContextReport → Dict Value
usage_from_model_context r =
    ("context_used", num r.used_tokens)
    ∷ ("context_max", num r.max_tokens)
    ∷ ("context_percent", r.percent)
    ∷ ("context_truncated", bool r.truncated)
    ∷ []

-- `message.type`
abbrev pub role : Message → String
role (human text) = "human"
role (system text) = "system"
role (ai text calls) = "ai"
role (tool id payload) = "tool"
role remove_all = "remove"

module _ (deps : ModelDependencies) where
  abbrev part : String → String → String → ℕ → Dict Value → ModelContextPart
  unfolding rough_token_estimate
  part kind title content chars metadata = record {
    kind = kind;
    title = title;
    content = content;
    token_estimate = rough_token_estimate chars;
    metadata = metadata;
  }

  unfoldable pub system_parts : String → List ModelContextPart
  unfolding rough_token_estimate
  system_parts text =
      if text == "" then [] else part "system" "System context" text (text_length text) [] ∷ []

  -- The parts of the messages, counted from an index.
  unfoldable pub message_parts : ℕ → List Message → List ModelContextPart
  unfolding rough_token_estimate
  message_parts i [] = []
  message_parts i (m ∷ ms) =
      part "messages" ("Message " <> deps.app.tool_execution.digits i) (deps.content m)
        (text_length (deps.content m)) (("role", str (role m)) ∷ [])
      ∷ message_parts (suc i) ms

  unfoldable pub tool_parts : Dict Value → ℕ → List ModelContextPart
  unfolding rough_token_estimate
  tool_parts tools schema_chars =
      if has_entries tools
      then part "tools" "Tool schemas" (deps.schemas_text tools) schema_chars [] ∷ []
      else []

  unfoldable pub metadata_parts : Dict Value → List ModelContextPart
  unfolding rough_token_estimate
  metadata_parts d =
      if has_entries d
      then part "metadata" "Request metadata" (deps.json_text d) (text_length (deps.json_text d)) []
        ∷ []
      else []

  unfoldable pub parts_of : ModelRequest → ℕ → List ModelContextPart
  unfolding system_parts message_parts tool_parts metadata_parts
  parts_of request schema_chars =
      system_parts request.system_context
      ++ message_parts 1 request.messages
      ++ tool_parts request.tools schema_chars
      ++ metadata_parts request.metadata

  -- `_model_context_report`
  unfoldable pub model_context_report : ModelRequest → ℕ → ℕ → Bool → ModelContextReport
  unfolding parts_of
  model_context_report request context_max schema_chars truncated =
      let parts = parts_of request schema_chars in
      let used = used_by parts in
      record {
        max_tokens = context_max;
        used_tokens = used;
        remaining_tokens = if eqb context_max 0 then 0 else context_max - used;
        percent = if eqb context_max 0 then num 0 else deps.percent used context_max;
        truncated = truncated || (not (eqb context_max 0) && ltb context_max used);
        parts = parts;
      }

  -- `overhead_tokens`
  unfoldable pub overhead_tokens : ModelRequest → ℕ → ℕ
  unfolding rough_token_estimate
  overhead_tokens request schema_chars = rough_token_estimate (
      text_length request.system_context
      + schema_chars
      + (if has_entries request.metadata then text_length (deps.json_text request.metadata) else 0))

  unfoldable pub message_budget : ModelRequest → ℕ → ℕ → Option ℕ
  unfolding overhead_tokens
  message_budget request context_max schema_chars =
      if eqb context_max 0 then none else some (context_max - overhead_tokens request schema_chars)

  -- `_fit_request_to_context_window`
  unfoldable pub fit_request_to_context_window :
      ModelRequest → ℕ → ℕ → ModelRequest × ModelContextReport
  unfolding overhead_tokens message_budget fit_messages_to_budget model_context_report
  fit_request_to_context_window request context_max schema_chars =
      let r =
        fit_messages_to_budget deps request.messages
          (message_budget request context_max schema_chars) in
      let fitted = record request { messages = r.0 } in
      (fitted, model_context_report fitted context_max schema_chars r.1)
