-- ===== src/ModelCall/Fit.antt =====
-- graph/nodes/model_call.py: the messages that fit a budget of tokens.
pub mod Laws
use langraph_agent_blueprint.Prelude.{
  ℕ, zero, suc, ◌-◌, ◌*◌, max, String, ◌<>◌, Bool, true, false, ◌||◌, Option, none, some, List, [],
  ◌∷◌, length, reverse, leb, ltb, if◌then◌else◌,
}
use langraph_agent_blueprint.ModelCall.{ModelDependencies, rough_token_estimate}
use langraph_agent_blueprint.State.{Message}
use langraph_agent_blueprint.Text.{text_length, take_text, is_space}
use langraph_agent_blueprint.Text.Strip.{rstrip}

-- `_truncate_text_payload`, for a text.
unfoldable pub truncate_text_payload : String → ℕ → String
unfolding rstrip is_space
truncate_text_payload text max_tokens =
    let max_chars = max 1 (max_tokens * 4) in
    if leb (text_length text) max_chars
    then text
    else rstrip is_space (take_text max_chars text) <> "\n[truncated to fit context window]"

module _ (deps : ModelDependencies) where
  abbrev pub tokens_of : Message → ℕ
  unfolding rough_token_estimate
  tokens_of m = rough_token_estimate (text_length (deps.content m))

  abbrev pub truncated_message : Message → ℕ → Message
  unfolding truncate_text_payload
  truncated_message m tokens = deps.with_content m (truncate_text_payload (deps.content m) tokens)

  -- The loop over the messages from the last one back: what it selects, and whether it stopped early.
  unfoldable pub select : List Message → ℕ → Bool → List Message × Bool
  unfolding rough_token_estimate truncate_text_payload
  select [] remaining first = ([], false)
  select (m ∷ ms) remaining first =
      let further = select ms (remaining - tokens_of m) false in
      if leb (tokens_of m) remaining
      then (m ∷ further.0, further.1)
      else if first
      then (truncated_message m remaining ∷ [], true)
      else ([], true)

  -- The list of one message, for the last of the messages, when there is no budget at all.
  unfoldable pub only_last : List Message → List Message × Bool
  unfolding truncate_text_payload
  only_last [] = ([], false)
  only_last (m ∷ ms) = (truncated_message m 1 ∷ [], true)

  -- `_fit_messages_to_budget`
  unfoldable pub fit_messages_to_budget : List Message → Option ℕ → List Message × Bool
  unfolding select only_last truncate_text_payload
  fit_messages_to_budget ms none = (ms, false)
  fit_messages_to_budget ms (some zero) = only_last (reverse ms)
  fit_messages_to_budget ms (some (suc n)) =
      let r = select (reverse ms) (suc n) true in (reverse r.0, r.1 || ltb (length r.0) (length ms))
