-- ===== src/Session.antt =====
-- `_hydrate_session_state` of graph/builder.py: the state of a turn that resumes a stored session. The session
-- is read by the storage; none stands for one that cannot be read. Its memory is left out.
pub mod Laws
mod Tests
use langraph_agent_blueprint.Prelude.{String, Option, none, some, List, [], ◌∷◌}
use langraph_agent_blueprint.Prelude.Dict.{Dict, insert, remove}
use langraph_agent_blueprint.State.{State, Message}
use langraph_agent_blueprint.Value.{Value, Items, str, merge_dict}

pub record LoadedSession : Type 0 where
  pub messages : List Message
  pub todos : Items
  pub usage : Dict Value
  pub metadata : Dict Value

abbrev pub transient_keys : List String
transient_keys =
    "input_normalized" ∷ "graph_finished" ∷ "tool_route" ∷ "compact_route" ∷ "compact_requested"
    ∷ "clear_messages" ∷ "export_requested" ∷ "doctor_requested" ∷ "allowed_tools_override"
    ∷ "active_skill_name" ∷ "skill_invocation" ∷ "context_resolved" ∷ "streaming_enabled" ∷ []

-- `for key in keys: metadata.pop(key, None)`
unfoldable pub remove_all_keys : List String → Dict Value → Dict Value
remove_all_keys [] d = d
remove_all_keys (k ∷ ks) d = remove_all_keys ks (remove k d)

unfoldable pub hydrate_session_state : State → Option LoadedSession → State
unfolding remove_all_keys merge_dict
hydrate_session_state s none = s
hydrate_session_state s (some loaded) = record s {
  messages = loaded.messages;
  todos = loaded.todos;
  usage = loaded.usage;
  metadata =
      remove_all_keys transient_keys
        (insert "resumed_from_session" (str s.session_id) (merge_dict loaded.metadata s.metadata));
}
