-- ===== src/State/Updates.antt =====
-- graph/hooks.py: merging the updates of a node and its hooks, and the state that a hook sees.
pub mod Laws
pub mod Tests
use langraph_agent_blueprint.Prelude.{
  String, ◌≡◌, refl, sym, Bool, true, false, ◌||◌, not, Option, none, some, List, [], ◌∷◌, ◌++◌,
  ◌==◌, arith,
}
use langraph_agent_blueprint.Prelude.Dict.{Dict, lookup}
use langraph_agent_blueprint.State.{State, Update, empty_update}
use langraph_agent_blueprint.Value.{Value, is_set, merge_dict, lookup-merge_dict, or_else}

-- The later value of a key that is overwritten.
abbrev pub later {ℓ} : {A : Type ℓ} → Option A → Option A → Option A
later a none = a
later a (some b) = some b

-- The later value of a key whose None is skipped, as that of every key but `pending_confirmation`,
-- `final_response` and `active_skill` is.
abbrev pub later_set {ℓ} : {A : Type ℓ} → Option (Option A) → Option (Option A) → Option (Option A)
later_set a none = a
later_set a (some none) = a
later_set a (some (some b)) = some (some b)

-- The value of a key of `DICT_MERGE_KEYS`.
abbrev pub merged : Option (Dict Value) → Option (Dict Value) → Option (Dict Value)
merged a none = a
merged none (some b) = some (merge_dict [] b)
merged (some a) (some b) = some (merge_dict a b)

-- One round of the outer loop of `merge_updates`.
unfoldable pub merge_update : Update → Update → Update
merge_update a b = record {
  messages = a.messages ++ b.messages;
  pending_tool_calls = later a.pending_tool_calls b.pending_tool_calls;
  tool_results = a.tool_results ++ b.tool_results;
  pending_confirmation = later a.pending_confirmation b.pending_confirmation;
  pending_subagent_approval = later_set a.pending_subagent_approval b.pending_subagent_approval;
  permission_decisions = a.permission_decisions ++ b.permission_decisions;
  todos = later a.todos b.todos;
  child_runs = a.child_runs ++ b.child_runs;
  active_skill = later a.active_skill b.active_skill;
  hooks_state = merged a.hooks_state b.hooks_state;
  context_status = merged a.context_status b.context_status;
  usage = merged a.usage b.usage;
  errors = a.errors ++ b.errors;
  ui_events = a.ui_events ++ b.ui_events;
  final_response = later a.final_response b.final_response;
  metadata = merged a.metadata b.metadata;
}

unfoldable pub merge_from : Update → List Update → Update
merge_from a [] = a
merge_from a (u ∷ us) = merge_from (merge_update a u) us

unfoldable pub merge_updates : List Update → Update
unfolding merge_from merge_update
merge_updates us = merge_from empty_update us

abbrev overwritten {ℓ} : {A : Type ℓ} → A → Option A → A
overwritten a none = a
overwritten a (some b) = b

abbrev pub overlaid : Dict Value → Option (Dict Value) → Dict Value
overlaid a none = a
overlaid a (some b) = merge_dict a b

unfoldable pub state_with_update : State → Update → State
state_with_update s u = record s {
  messages = s.messages ++ u.messages;
  pending_tool_calls = overwritten s.pending_tool_calls u.pending_tool_calls;
  tool_results = s.tool_results ++ u.tool_results;
  pending_confirmation = overwritten s.pending_confirmation u.pending_confirmation;
  pending_subagent_approval = overwritten s.pending_subagent_approval u.pending_subagent_approval;
  permission_decisions = s.permission_decisions ++ u.permission_decisions;
  todos = overwritten s.todos u.todos;
  child_runs = s.child_runs ++ u.child_runs;
  active_skill = overwritten s.active_skill u.active_skill;
  hooks_state = overlaid s.hooks_state u.hooks_state;
  context_status = overlaid s.context_status u.context_status;
  usage = overlaid s.usage u.usage;
  errors = s.errors ++ u.errors;
  ui_events = s.ui_events ++ u.ui_events;
  final_response = overwritten s.final_response u.final_response;
  metadata = overlaid s.metadata u.metadata;
}

abbrev pub is_response : Option (Option String) → Bool
is_response (some (some text)) = not (text == "")
is_response _ = false

abbrev pub entry : String → Option (Dict Value) → Option Value
entry k none = none
entry k (some d) = lookup k d

unfoldable pub hook_blocked : Update → Bool
hook_blocked u = is_set (entry "hook_blocked" u.metadata) || is_response u.final_response
