-- ===== src/Compaction/Compact/Tests.antt =====
-- A compaction in a small window.
use langraph_agent_blueprint.Prelude.{◌≡◌, some, ◌&&◌, not, false}
use langraph_agent_blueprint.Prelude.Dict.{lookup}
use langraph_agent_blueprint.Compaction.{CompactionService, estimate_tokens, compaction_decision}
use langraph_agent_blueprint.Compaction.Compact.{
  Compacted, message_budget_tokens, compacted, compact_decision_node,
}
use langraph_agent_blueprint.Compaction.Compact.Laws.{IsWithin, compacted-IsWithin}
use langraph_agent_blueprint.Compaction.Compact.Route.{destination, compact_decision_node-next}
use langraph_agent_blueprint.Graph.{compact_decision, next}
use langraph_agent_blueprint.Nodes.{reduced}
use langraph_agent_blueprint.Value.{is_set}
use langraph_agent_blueprint.Compaction.Tests.{messages, service, with_content, copied}
use langraph_agent_blueprint.State.{State}
use langraph_agent_blueprint.State.Updates.Tests.{blank, append_messages}

abbrev small : CompactionService
small = record service { context_window_max_tokens = 10 }

abbrev talk : State
talk = record blank { messages = messages }

compacted-IsWithin_example :
    (c : Compacted) × (compacted small with_content talk ≡ some c)
    × IsWithin (message_budget_tokens small talk) (estimate_tokens small c.messages)
compacted-IsWithin_example = compacted-IsWithin small with_content talk copied

compact_decision_node-next_example :
    let decided = (compaction_decision small talk).should_compact in
    (next compact_decision (reduced append_messages talk (compact_decision_node small talk))
      ≡ some (destination decided))
    × ((is_set (lookup "compact_requested" talk.metadata) && not decided) ≡ false)
compact_decision_node-next_example = compact_decision_node-next append_messages small talk
