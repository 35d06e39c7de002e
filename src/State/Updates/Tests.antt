-- ===== src/State/Updates/Tests.antt =====
-- Merging at concrete updates.
use langraph_agent_blueprint.Prelude.{◌≡◌, refl, none, some, List, [], ◌∷◌, ◌++◌, map}
use langraph_agent_blueprint.Prelude.Dict.{insert}
use langraph_agent_blueprint.State.{State, Update, Message, empty_update, event}
use langraph_agent_blueprint.State.Updates.{merge_updates, state_with_update}
use langraph_agent_blueprint.State.Updates.Laws.{
  SameState, apply_each, without_clearing, state_with_update-merge_updates,
}
use langraph_agent_blueprint.Value.{str, nil, merge_dict}

abbrev pub blank : State
blank = record {
  session_id = "session_1";
  thread_id = "thread_1";
  project_root = "/p";
  input_text = "";
  messages = [];
  pending_tool_calls = [];
  tool_results = [];
  pending_confirmation = none;
  pending_subagent_approval = none;
  permission_decisions = [];
  plan_mode = [];
  available_tools = [];
  todos = nil;
  child_runs = [];
  active_skill = none;
  hooks_state = [];
  context_status = [];
  usage = [];
  errors = [];
  ui_events = [];
  final_response = none;
  metadata = [];
}

-- The reducer of the messages where no message is replaced or removed.
abbrev pub append_messages : List Message → List Message → List Message
append_messages old new = old ++ new

abbrev updates : List Update
updates =
    record empty_update {
      metadata = some (("tool_route", str "execute") ∷ ("a", str "1") ∷ []);
      ui_events = event "one" [] ∷ [];
    }
    ∷ record empty_update {
      metadata = some (("tool_route", str "rejected") ∷ []);
      final_response = some (some "blocked");
      ui_events = event "two" [] ∷ [];
    }
    ∷ []

merged_entries :
    (merge_updates updates).metadata ≡ some (("a", str "1") ∷ ("tool_route", str "rejected") ∷ [])
unfolding merge_updates merge_dict insert
merged_entries = refl

state_with_update-merge_updates_example :
    SameState
      (state_with_update blank (merge_updates updates))
      (apply_each blank (map without_clearing updates))
state_with_update-merge_updates_example = state_with_update-merge_updates blank updates
