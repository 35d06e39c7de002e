-- ===== src/Compaction/Tests.antt =====
-- A conversation whose last two messages are a call and its result.
use langraph_agent_blueprint.Prelude.{
  ℕ, ◌≤◌, max, take, ◌≡◌, refl, String, false, none, some, List, [], ◌∷◌, ◌++◌,
}
use langraph_agent_blueprint.Compaction.{CompactionService, estimate_tokens, split_messages}
use langraph_agent_blueprint.Compaction.Split.{separates, split_messages-IsSafe}
use langraph_agent_blueprint.Compaction.Tail.{select_recent_tail}
use langraph_agent_blueprint.Compaction.Tail.Laws.{select_recent_tail-Fits}
use langraph_agent_blueprint.State.{State, Message, human, ai, tool, ToolPayload, ToolResultStatus}
use langraph_agent_blueprint.Value.{end}

abbrev payload : ToolPayload
payload = record {
  name = "read";
  status = ToolResultStatus.ok;
  content = "text";
  metadata = [];
  error = none;
}

abbrev pub messages : List Message
messages =
    human "hello"
    ∷ human "read it"
    ∷ ai "" (record { id = "c1"; name = "read"; args = end } ∷ [])
    ∷ tool "c1" payload
    ∷ []

abbrev content : Message → String
content (human text) = text
content (ai text calls) = text
content _ = "{}"

abbrev newlines : String → String
newlines text = text

abbrev digits : ℕ → String
digits n = "1"

abbrev schema_chars : State → ℕ
schema_chars s = 0

abbrev pub service : CompactionService
service = record {
  max_tokens_before_compact = 100;
  keep_recent = 1;
  max_messages_before_compact = none;
  context_window_max_tokens = 0;
  context_window_reserve_tokens = 0;
  max_summary_tokens = 20;
  content = content;
  newlines = newlines;
  digits = digits;
  schema_chars = schema_chars;
}

split_messages-IsSafe_example :
    ((split_messages service messages).0 ++ (split_messages service messages).1 ≡ messages)
    × (separates (split_messages service messages).0 (split_messages service messages).1 ≡ false)
split_messages-IsSafe_example = split_messages-IsSafe service messages

abbrev pub with_content : Message → String → Message
with_content m text = human text

pub copied : (m : Message) (text : String) → service.content (with_content m text) ≡ text
copied m text = refl

select_recent_tail-Fits_example :
    (r : List Message × List Message) × (select_recent_tail service with_content messages 1
      ≡ some r)
    × (estimate_tokens service r.0 ≤ max 1 1)
    × ((n : ℕ) × (r.1 ≡ take n messages))
select_recent_tail-Fits_example = select_recent_tail-Fits service with_content copied messages 1
