-- ===== src/Compaction/Compact.antt =====
-- services/compaction_service.py: the summary and the compacted messages, with graph/nodes/compact_decision.py
-- and graph/nodes/compact_context.py. `none` is a selection that does not end.
pub mod Laws
pub mod Route
mod Tests
use langraph_agent_blueprint.Prelude.{
  ℕ, suc, ◌-◌, ◌*◌, ◌/◌, max, min, String, ◌<>◌, Bool, true, false, Option, none, some, List, [],
  ◌∷◌, ◌++◌, length, leb, if◌then◌else◌, ◌==◌,
}
use langraph_agent_blueprint.Prelude.Dict.{Dict, lookup, insert}
use langraph_agent_blueprint.Compaction.{
  CompactionService, CompactionDecision, CompactionReason, manual, token_threshold,
  message_threshold, context_window, Pressure, context_window_pressure, compaction_decision,
  estimate_tokens, split_messages, message_summary_content,
}
use langraph_agent_blueprint.Compaction.Tail.{select_recent_tail, message_with_truncated_content}
use langraph_agent_blueprint.Hooks.{pre_compact, post_compact}
use langraph_agent_blueprint.ModelCall.Request.{role}
use langraph_agent_blueprint.ModelCall.Step.{no_overrides}
use langraph_agent_blueprint.Nodes.{AppDependencies, run_point}
use langraph_agent_blueprint.State.{
  State, Update, empty_update, Message, human, system, ai, tool, remove_all, event,
}
use langraph_agent_blueprint.State.Updates.{merge_updates, state_with_update, hook_blocked}
use langraph_agent_blueprint.Text.{text_length, take_text, is_space}
use langraph_agent_blueprint.Text.Strip.{rstrip}
use langraph_agent_blueprint.Value.{Value, is_set, str, num, bool, null}

abbrev summary_marker : String
summary_marker = "\n[compaction summary truncated to fit context window]"

abbrev join_line : String → String → String
join_line line rest = if rest == "" then line else line <> "\n" <> rest

abbrev pub budget_of : Option Pressure → Option ℕ
budget_of none = none
budget_of (some p) = some (max 1 p.message_budget_tokens)

abbrev pub is_system : Message → Bool
is_system (system text) = true
is_system _ = false

abbrev pub starts_with_system : List Message → Bool
starts_with_system [] = false
starts_with_system (m ∷ ms) = is_system m

-- What `compact_state` works out: the summary, the recent messages and all the messages.
pub record Compacted : Type 0 where
  pub summary : String
  pub recent : List Message
  pub messages : List Message

module _ (service : CompactionService) where
  -- `_message_budget_tokens`
  unfoldable pub message_budget_tokens : State → Option ℕ
  unfolding context_window_pressure
  message_budget_tokens s = budget_of (context_window_pressure service s [])

  abbrev summary_budget : Option Pressure → ℕ → ℕ
  summary_budget none tokens = service.max_summary_tokens
  summary_budget (some p) tokens =
      if leb (p.message_budget_tokens - tokens) 0
      then 1
      else max 1 (min service.max_summary_tokens (p.message_budget_tokens - tokens))

  -- `_summary_token_budget`
  unfoldable pub summary_token_budget : State → List Message → ℕ
  unfolding context_window_pressure
  summary_token_budget s recent =
      summary_budget (context_window_pressure service s s.messages) (estimate_tokens service recent)

  -- The lines of a summary, counted from a number, and joined.
  abbrev summary_lines : ℕ → List Message → String
  unfolding message_summary_content
  summary_lines i [] = ""
  summary_lines i (m ∷ ms) =
      let content = message_summary_content service m in
      let rest = summary_lines (suc i) ms in
      if content == ""
      then rest
      else join_line (service.digits i <> ". " <> role m <> ": " <> content) rest

  abbrev or_no_text : String → String
  or_no_text text = if text == "" then "Earlier messages contained no text content." else text

  -- `_build_summary`
  unfoldable pub build_summary : List Message → ℕ → String
  unfolding summary_lines rstrip is_space
  build_summary [] token_budget =
      "No earlier messages were available before the recent context tail."
  build_summary (m ∷ ms) token_budget =
      let max_chars = max 1 (token_budget * 4) in
      let summary = or_no_text (summary_lines 1 (m ∷ ms)) in
      if leb (text_length summary) max_chars
      then summary
      else if leb max_chars (text_length summary_marker)
      then take_text max_chars summary_marker
      else rstrip is_space (take_text (max 1 (max_chars - text_length summary_marker)) summary)
        <> summary_marker

  module _ (with_content : Message → String → Message) where
    abbrev pub summary_reserve : List Message → ℕ → ℕ
    summary_reserve [] budget = 0
    summary_reserve (m ∷ ms) budget = min 64 (max 1 (budget / 4))

    abbrev pub moved_to :
        List Message → Option (List Message × List Message) → Option (List Message × List Message)
    moved_to old none = none
    moved_to old (some r) = some (old ++ r.1, r.0)

    -- `_fit_recent_tail_for_context_budget`
    unfoldable pub fit_recent_tail :
        Option ℕ → List Message → List Message → Option (List Message × List Message)
    unfolding select_recent_tail
    fit_recent_tail none old recent = some (old, recent)
    fit_recent_tail (some budget) old [] = some (old, [])
    fit_recent_tail (some budget) old (m ∷ ms) = moved_to old (
        select_recent_tail service with_content (m ∷ ms)
          (max 1 (budget - summary_reserve old budget)))

    -- The summary, cut to what the tail leaves, before the tail.
    abbrev pub summary_and :
        Message → ℕ → Option (List Message × List Message) → Option (List Message)
    unfolding message_with_truncated_content
    summary_and summary budget none = none
    summary_and summary budget (some r) = some (
        message_with_truncated_content service with_content summary
          (max 1 (budget - estimate_tokens service r.0))
        ∷ r.0)

    abbrev pub only_tail : Option (List Message × List Message) → Option (List Message)
    only_tail none = none
    only_tail (some r) = some r.0

    -- The second selection, where the first one dropped the summary.
    unfoldable pub refit : List Message → ℕ → Option (List Message)
    unfolding select_recent_tail summary_and
    refit [] budget = only_tail (select_recent_tail service with_content [] budget)
    refit (m ∷ ms) budget =
        if is_system m
        then summary_and m budget (
            select_recent_tail service with_content ms
              (max 1 (budget - estimate_tokens service (m ∷ []))))
        else only_tail (select_recent_tail service with_content (m ∷ ms) budget)

    abbrev pub refit_unless :
        List Message → ℕ → Option (List Message × List Message) → Option (List Message)
    unfolding refit
    refit_unless ms budget none = none
    refit_unless ms budget (some r) = if starts_with_system r.0 then some r.0 else refit ms budget

    -- `_fit_compacted_messages_to_context_budget`
    unfoldable pub fit_compacted_messages : Option ℕ → List Message → Option (List Message)
    unfolding select_recent_tail refit_unless
    fit_compacted_messages none ms = some ms
    fit_compacted_messages (some budget) ms =
        if leb (estimate_tokens service ms) budget
        then some ms
        else refit_unless ms budget (select_recent_tail service with_content ms budget)

    abbrev pub finished_with : String → List Message → Option (List Message) → Option Compacted
    finished_with summary recent none = none
    finished_with summary recent (some messages) =
        some (record { summary = summary; recent = recent; messages = messages })

    unfoldable pub compacted_with :
        State → Option ℕ → Option (List Message × List Message) → Option Compacted
    unfolding summary_token_budget build_summary fit_compacted_messages
    compacted_with s budget none = none
    compacted_with s budget (some r) =
        let summary = build_summary r.0 (summary_token_budget s r.1) in
        finished_with summary r.1
          (fit_compacted_messages budget (system ("Compacted prior context:\n" <> summary) ∷ r.1))

    -- The messages and the summary of `compact_state`.
    unfoldable pub compacted : State → Option Compacted
    unfolding split_messages fit_recent_tail message_budget_tokens compacted_with
    compacted s =
        let split = split_messages service s.messages in
        let budget = message_budget_tokens s in
        compacted_with s budget (fit_recent_tail budget split.0 split.1)

    abbrev compacted_update : State → Compacted → Update
    unfolding insert
    compacted_update s c = record empty_update {
      messages = c.messages;
      todos = some s.todos;
      context_status = some (
          insert "recent_messages_after_compact" (num (length c.recent)) (
            insert "tokens_before_compact" (num (estimate_tokens service s.messages)) (
              insert "estimated_tokens" (num (estimate_tokens service c.messages)) (
                insert "summary" (str c.summary)
                  (insert "compacted" (bool true) s.context_status)))));
    }

    abbrev state_update : State → Option Compacted → Option Update
    unfolding compacted_update
    state_update s none = none
    state_update s (some c) = some (compacted_update s c)

    unfoldable pub compact_state : State → Option Update
    unfolding compacted state_update
    compact_state s = state_update s (compacted s)

    -- The update of the node `compact_context`, which clears the messages first.
    abbrev replacing : State → Compacted → Update
    unfolding compacted_update
    replacing s c = record (compacted_update s c) {
      messages = remove_all ∷ c.messages;
      ui_events =
          event "compact_finished" (
            ("summary", str (take_text 200 c.summary))
            ∷ ("before_message_count", num (length s.messages))
            ∷ ("after_message_count", num (length c.messages))
            ∷ ("estimated_tokens", num (estimate_tokens service c.messages))
            ∷ [])
          ∷ [];
    }

    abbrev replaced_by : AppDependencies → Update → State → Option Compacted → Option Update
    unfolding replacing merge_updates run_point state_with_update
    replaced_by deps pre current none = none
    replaced_by deps pre current (some c) =
        let update = replacing current c in
        some (
          merge_updates (
            pre
            ∷ update
            ∷ run_point deps (state_with_update current update) post_compact no_overrides
            ∷ []))

    unfoldable pub compact_context_node : AppDependencies → State → Option Update
    unfolding compacted replaced_by run_point hook_blocked state_with_update
    compact_context_node deps s =
        let pre = run_point deps s pre_compact no_overrides in
        let current = state_with_update s pre in
        if hook_blocked pre then some pre else replaced_by deps pre current (compacted current)

  abbrev reason_name : Option CompactionReason → Value
  reason_name none = null
  reason_name (some manual) = str "manual"
  reason_name (some token_threshold) = str "token_threshold"
  reason_name (some message_threshold) = str "message_threshold"
  reason_name (some context_window) = str "context_window"

  -- The window, the prompt and the overflow of a pressure.
  abbrev pressure_entries : Option Pressure → Dict Value
  pressure_entries none =
      ("context_window_tokens", null) ∷ ("prompt_tokens", null) ∷ ("overflow_tokens", num 0) ∷ []
  pressure_entries (some p) =
      ("context_window_tokens", num p.context_window_tokens)
      ∷ ("prompt_tokens", num p.prompt_tokens)
      ∷ ("overflow_tokens", num p.overflow_tokens)
      ∷ []

  unfoldable pub compact_decision_node : State → Update
  unfolding compaction_decision insert lookup
  compact_decision_node s =
      let d = compaction_decision service s in
      record empty_update {
        metadata = some (
            insert "compact_after_route"
              (str (
                if is_set (lookup "compact_requested" s.metadata)
                then "persist_session"
                else "model_call"))
              (insert "compact_route" (str (if d.should_compact then "compact" else "skip"))
                s.metadata));
        ui_events =
            (if d.should_compact
              then event "compact_started" (
                  ("node", str "compact_decision")
                  ∷ ("reason", reason_name d.reason)
                  ∷ ("message_count", num d.message_count)
                  ∷ ("estimated_tokens", num d.estimated_tokens)
                  ∷ pressure_entries d.pressure)
              else event "node_finished" (("node", str "compact_decision") ∷ []))
            ∷ [];
      }
