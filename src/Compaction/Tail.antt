-- ===== src/Compaction/Tail.antt =====
-- services/compaction_service.py: the recent messages that fit a budget of tokens. `with_content` is the copy
-- of a message with another text, `model_copy` of langchain.
pub mod Laws
use langraph_agent_blueprint.Prelude.{
  ℕ, zero, suc, ◌+◌, ◌-◌, max, String, Bool, true, false, Option, none, some, List, [], ◌∷◌, ◌++◌,
  length, take, drop, reverse, leb, if◌then◌else◌,
}
use langraph_agent_blueprint.Compaction.{
  CompactionService, estimate_tokens, tokens_of, tool_pair_safe_keep_start, message_summary_content,
  truncated_content, is_filled,
}
use langraph_agent_blueprint.State.{Message}

module _ (service : CompactionService) (with_content : Message → String → Message) where
  -- `_message_with_truncated_content`
  unfoldable pub message_with_truncated_content : Message → ℕ → Message
  unfolding message_summary_content truncated_content
  message_with_truncated_content m token_budget =
      with_content m (truncated_content (message_summary_content service m) token_budget)

  -- The loop of `_truncate_message_block_to_budget` over the messages from the last one back.
  unfoldable pub pick : List Message → ℕ → Bool → List Message
  unfolding message_with_truncated_content
  pick [] remaining first = []
  pick (m ∷ ms) remaining first =
      let tokens = tokens_of service (service.content m) in
      let rest = pick ms (remaining - tokens) false in
      if leb tokens remaining
      then m ∷ rest
      else if first
      then message_with_truncated_content m remaining ∷ []
      else []

  -- `_truncate_message_block_to_budget`
  unfoldable pub truncate_message_block_to_budget : List Message → ℕ → List Message
  unfolding pick
  truncate_message_block_to_budget block token_budget =
      reverse (pick (reverse block) (max 1 token_budget) true)

  -- The loop of `_select_recent_tail` on fuel: the selected messages and where they begin.
  unfoldable pub tail_from :
      ℕ → List Message → ℕ → ℕ → Bool → List Message → Option (List Message × ℕ)
  unfolding truncate_message_block_to_budget tool_pair_safe_keep_start
  tail_from zero ms start remaining first selected = none
  tail_from (suc fuel) ms zero remaining first selected = some (selected, 0)
  tail_from (suc fuel) ms (suc n) remaining first selected =
      let candidate_start = tool_pair_safe_keep_start ms n in
      let block = drop candidate_start (take (suc n) ms) in
      let tokens = estimate_tokens service block in
      let further =
        tail_from fuel ms candidate_start (remaining - tokens) false (block ++ selected) in
      if leb tokens remaining
      then further
      else if first
      then some (truncate_message_block_to_budget block remaining ++ selected, candidate_start)
      else some (selected, suc n)

  -- `selected, messages[:start]`
  abbrev pub left_over :
      List Message → Option (List Message × ℕ) → Option (List Message × List Message)
  left_over ms none = none
  left_over ms (some r) = some (r.0, take r.1 ms)

  -- `_select_recent_tail`, with as much fuel as there are messages, and one more to see that none is left.
  unfoldable pub select_recent_tail : List Message → ℕ → Option (List Message × List Message)
  unfolding tail_from
  select_recent_tail ms token_budget =
      left_over ms (tail_from (suc (length ms)) ms (length ms) (max 1 token_budget) true [])
