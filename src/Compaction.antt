-- ===== src/Compaction.antt =====
-- services/compaction_service.py: when the messages of a conversation are compacted, and which of them stay.
-- `content` is the text of a message, `newlines` replaces the line ends of a text, and `schema_chars` is the
-- size of the tools' schemas as JSON; `digits` writes a number.
pub mod Split
pub mod Tail
pub mod Compact
mod Tests
use langraph_agent_blueprint.Prelude.{
  ℕ, zero, suc, ◌+◌, ◌-◌, ◌*◌, ◌/◌, max, min, String, ◌<>◌, Bool, true, false, not, ◌||◌, ◌&&◌,
  Option, none, some, List, [], ◌∷◌, ◌++◌, length, take, drop, any, contains, is_some, leb, ltb,
  if◌then◌else◌, ◌==◌, map,
}
use langraph_agent_blueprint.Prelude.Dict.{lookup}
use langraph_agent_blueprint.State.{State, Message, human, system, ai, tool, remove_all, ToolCall}
use langraph_agent_blueprint.Text.{text_length, take_text, is_space}
use langraph_agent_blueprint.Text.Strip.{strip, rstrip}
use langraph_agent_blueprint.Value.{Value, is_set, str}

pub data CompactionReason : Type 0 where
  manual token_threshold message_threshold context_window : CompactionReason

-- The keys of the dict that `context_window_pressure` returns.
pub record Pressure : Type 0 where
  pub context_window_tokens : ℕ
  pub usable_window_tokens : ℕ
  pub overhead_tokens : ℕ
  pub message_tokens : ℕ
  pub message_budget_tokens : ℕ
  pub prompt_tokens : ℕ
  pub overflow_tokens : ℕ

pub record CompactionDecision : Type 0 where
  pub should_compact : Bool
  pub reason : Option CompactionReason
  pub message_count : ℕ
  pub estimated_tokens : ℕ
  pub pressure : Option Pressure

pub record CompactionService : Type 0 where
  pub max_tokens_before_compact : ℕ
  pub keep_recent : ℕ
  pub max_messages_before_compact : Option ℕ
  pub context_window_max_tokens : ℕ
  pub context_window_reserve_tokens : ℕ
  pub max_summary_tokens : ℕ
  pub content : Message → String
  pub newlines : String → String
  pub digits : ℕ → String
  pub schema_chars : State → ℕ

abbrev pub is_tool : Message → Bool
is_tool (tool id payload) = true
is_tool _ = false

-- The ids of the tool messages that a list begins with.
abbrev pub leading_ids : List Message → List String
leading_ids (tool id payload ∷ ms) =
    let rest = leading_ids ms in if id == "" then rest else id ∷ rest
leading_ids _ = []

abbrev call_ids : List ToolCall → List String
call_ids [] = []
call_ids (call ∷ calls) =
    let rest = call_ids calls in if call.id == "" then rest else call.id ∷ rest

-- Whether a message makes one of the calls.
abbrev pub makes : List String → Message → Bool
makes ids (ai text calls) = any (contains ids) (call_ids calls)
makes ids _ = false

-- The last position of a message with a property, which the loop finds walking back.
abbrev pub find_last : (Message → Bool) → List Message → Option ℕ
find_last p [] = none
find_last p (m ∷ ms) = elim (find_last p ms) [
  | some i ↦ some (suc i)
  | none ↦ if p m then some 0 else none
]

abbrev pub starts_with_tool : List Message → Bool
starts_with_tool [] = false
starts_with_tool (m ∷ ms) = is_tool m

abbrev pub position_or : ℕ → Option ℕ → ℕ
position_or n none = n
position_or n (some i) = i

-- `_tool_pair_safe_keep_start`; without ids to look for, no message makes one of the calls.
unfoldable pub tool_pair_safe_keep_start : List Message → ℕ → ℕ
tool_pair_safe_keep_start ms keep_start =
    if starts_with_tool (drop keep_start ms)
    then position_or keep_start
        (find_last (makes (leading_ids (drop keep_start ms))) (take keep_start ms))
    else keep_start

abbrev pub marker : String
marker = "\n[truncated to fit context window]"

-- The text that `_message_with_truncated_content` gives a message.
unfoldable pub truncated_content : String → ℕ → String
unfolding rstrip is_space
truncated_content content token_budget =
    let max_chars = max 1 (token_budget * 4) in
    if leb (text_length content) max_chars
    then content
    else if leb max_chars (text_length marker)
    then take_text max_chars marker
    else rstrip is_space (take_text (max 1 (max_chars - text_length marker)) content) <> marker

module _ (service : CompactionService) where
  abbrev pub tokens_of : String → ℕ
  tokens_of text = max 1 (text_length text / 4)

  abbrev pub estimate_tokens : List Message → ℕ
  estimate_tokens [] = 0
  estimate_tokens (m ∷ ms) = tokens_of (service.content m) + estimate_tokens ms

  abbrev system_context : Option Value → String
  system_context (some (str text)) = text
  system_context _ = ""

  -- `_state_prompt_overhead_tokens`
  unfoldable pub state_prompt_overhead_tokens : State → ℕ
  state_prompt_overhead_tokens s =
      (text_length (system_context (lookup "system_context" s.context_status))
        + service.schema_chars s
        + 3)
      / 4

  unfoldable pub context_window_pressure : State → List Message → Option Pressure
  unfolding state_prompt_overhead_tokens
  context_window_pressure s messages =
      let window = service.context_window_max_tokens in
      let overhead = state_prompt_overhead_tokens s in
      let message_tokens = estimate_tokens messages in
      let usable = window - service.context_window_reserve_tokens in
      if leb window 0
      then none
      else some (record {
        context_window_tokens = window;
        usable_window_tokens = usable;
        overhead_tokens = overhead;
        message_tokens = message_tokens;
        message_budget_tokens = usable - overhead;
        prompt_tokens = overhead + message_tokens;
        overflow_tokens = (overhead + message_tokens) - usable;
      })

  abbrev pub overflows : Option Pressure → Bool
  overflows none = false
  overflows (some p) = ltb 0 p.overflow_tokens

  abbrev pub is_filled : List Message → Bool
  is_filled [] = false
  is_filled (m ∷ ms) = true

  abbrev pub too_many : Option ℕ → ℕ → Bool
  too_many none count = false
  too_many (some limit) count = ltb limit count

  -- The tests of `compaction_decision`, in order.
  unfoldable pub compaction_reason : State → Option Pressure → Option CompactionReason
  compaction_reason s pressure =
      if is_set (lookup "compact_requested" s.metadata)
      then some manual
      else if overflows pressure && is_filled s.messages
      then some context_window
      else if ltb service.max_tokens_before_compact (estimate_tokens s.messages)
      then some token_threshold
      else if too_many service.max_messages_before_compact (length s.messages)
      then some message_threshold
      else none

  unfoldable pub compaction_decision : State → CompactionDecision
  unfolding compaction_reason context_window_pressure
  compaction_decision s =
      let pressure = context_window_pressure s s.messages in
      let reason = compaction_reason s pressure in
      record {
        should_compact = is_some reason;
        reason = reason;
        message_count = length s.messages;
        estimated_tokens = estimate_tokens s.messages;
        pressure = pressure;
      }

  abbrev pub keep_start_of : List Message → ℕ
  keep_start_of ms = length ms - min service.keep_recent (max 1 (length ms / 2))

  -- `_split_messages_for_compaction`
  unfoldable pub split_messages : List Message → List Message × List Message
  unfolding tool_pair_safe_keep_start
  split_messages ms =
      let k = tool_pair_safe_keep_start ms (keep_start_of ms) in (take k ms, drop k ms)

  abbrev joined : List ToolCall → String
  joined [] = ""
  joined (call ∷ []) = call.name <> "#" <> call.id
  joined (call ∷ calls) = call.name <> "#" <> call.id <> ", " <> joined calls

  abbrev with_calls : String → List ToolCall → String
  with_calls text [] = text
  with_calls text (call ∷ calls) =
      if text == ""
      then "tool calls: " <> joined (call ∷ calls)
      else text <> " (tool calls: " <> joined (call ∷ calls) <> ")"

  -- `_message_summary_content`
  unfoldable pub message_summary_content : Message → String
  unfolding strip is_space
  message_summary_content m =
      let text = strip is_space (service.newlines (service.content m)) in
      elim m [
        | ai t calls ↦ with_calls text calls
        | tool id payload ↦
            if id == "" then "tool result: " <> text else "tool result " <> id <> ": " <> text
        | human t ↦ text
        | system t ↦ text
        | remove_all ↦ text
      ]
