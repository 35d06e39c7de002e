-- ===== src/State/Updates/Laws.antt =====
-- Merging updates is applying them in turn.
use mathlib.Core.List.{append-nil, append_assoc}
use langraph_agent_blueprint.Prelude.{
  String, ◌≡◌, refl, sym, ap, ◌∙◌, Option, none, some, List, [], ◌∷◌, ◌++◌, arith, map,
}
use langraph_agent_blueprint.Prelude.Dict.{Dict, lookup, lookup-nil}
use langraph_agent_blueprint.State.{State, Update, empty_update}
use langraph_agent_blueprint.State.Updates.{
  later, later_set, merged, overwritten, overlaid, merge_update, merge_from, merge_updates,
  state_with_update,
}
use langraph_agent_blueprint.Value.{Value, merge_dict, lookup-merge_dict}

-- Equal dicts, whatever the order of their keys.
abbrev pub SameDict : Dict Value → Dict Value → Type 0
SameDict a b = (k : String) → lookup k a ≡ lookup k b

pub record SameState (s t : State) : Type 0 where
  pub session_id : s.session_id ≡ t.session_id
  pub thread_id : s.thread_id ≡ t.thread_id
  pub project_root : s.project_root ≡ t.project_root
  pub input_text : s.input_text ≡ t.input_text
  pub messages : s.messages ≡ t.messages
  pub pending_tool_calls : s.pending_tool_calls ≡ t.pending_tool_calls
  pub tool_results : s.tool_results ≡ t.tool_results
  pub pending_confirmation : s.pending_confirmation ≡ t.pending_confirmation
  pub pending_subagent_approval : s.pending_subagent_approval ≡ t.pending_subagent_approval
  pub permission_decisions : s.permission_decisions ≡ t.permission_decisions
  pub plan_mode : s.plan_mode ≡ t.plan_mode
  pub available_tools : s.available_tools ≡ t.available_tools
  pub todos : s.todos ≡ t.todos
  pub child_runs : s.child_runs ≡ t.child_runs
  pub active_skill : s.active_skill ≡ t.active_skill
  pub hooks_state : SameDict s.hooks_state t.hooks_state
  pub context_status : SameDict s.context_status t.context_status
  pub usage : SameDict s.usage t.usage
  pub errors : s.errors ≡ t.errors
  pub ui_events : s.ui_events ≡ t.ui_events
  pub final_response : s.final_response ≡ t.final_response
  pub metadata : SameDict s.metadata t.metadata

overwritten-later {ℓ} :
    {A : Type ℓ} (x : A) (a b : Option A)
    → overwritten x (later a b) ≡ overwritten (overwritten x a) b
overwritten-later x a none = refl
overwritten-later x a (some b) = refl

abbrev set_only {ℓ} : {A : Type ℓ} → Option (Option A) → Option (Option A)
set_only none = none
set_only (some none) = none
set_only (some (some a)) = some (some a)

-- An update whose None for the pending approval of a subagent counts as no entry.
abbrev pub without_clearing : Update → Update
without_clearing u = record u { pending_subagent_approval = set_only u.pending_subagent_approval }

overwritten-later_set {ℓ} :
    {A : Type ℓ} (x : Option A) (a b : Option (Option A))
    → overwritten x (later_set a b) ≡ overwritten (overwritten x a) (set_only b)
overwritten-later_set x a none = refl
overwritten-later_set x a (some none) = refl
overwritten-later_set x a (some (some b)) = refl

overlaid-merged :
    (d : Dict Value) (a b : Option (Dict Value))
    → SameDict (overlaid d (merged a b)) (overlaid (overlaid d a) b)
overlaid-merged d a none k = refl
overlaid-merged d none (some b) k = ground (
  arith,
  lookup-merge_dict k d (merge_dict [] b),
  lookup-merge_dict k [] b,
  lookup-merge_dict k d b,
  lookup-nil {V = Value} k,
)
overlaid-merged d (some a) (some b) k = ground (
  arith,
  lookup-merge_dict k d (merge_dict a b),
  lookup-merge_dict k a b,
  lookup-merge_dict k (merge_dict d a) b,
  lookup-merge_dict k d a,
)

state_with_update-merge_update :
    (s : State) (a b : Update)
    → SameState
        (state_with_update s (merge_update a b))
        (state_with_update (state_with_update s a) (without_clearing b))
unfolding merge_update state_with_update
state_with_update-merge_update s a b = record {
  session_id = refl;
  thread_id = refl;
  project_root = refl;
  input_text = refl;
  messages = sym (append_assoc s.messages a.messages b.messages);
  pending_tool_calls = overwritten-later _ a.pending_tool_calls b.pending_tool_calls;
  tool_results = sym (append_assoc s.tool_results a.tool_results b.tool_results);
  pending_confirmation = overwritten-later _ a.pending_confirmation b.pending_confirmation;
  pending_subagent_approval =
      overwritten-later_set _ a.pending_subagent_approval b.pending_subagent_approval;
  permission_decisions =
      sym (append_assoc s.permission_decisions a.permission_decisions b.permission_decisions);
  plan_mode = refl;
  available_tools = refl;
  todos = overwritten-later _ a.todos b.todos;
  child_runs = sym (append_assoc s.child_runs a.child_runs b.child_runs);
  active_skill = overwritten-later _ a.active_skill b.active_skill;
  hooks_state = overlaid-merged _ a.hooks_state b.hooks_state;
  context_status = overlaid-merged _ a.context_status b.context_status;
  usage = overlaid-merged _ a.usage b.usage;
  errors = sym (append_assoc s.errors a.errors b.errors);
  ui_events = sym (append_assoc s.ui_events a.ui_events b.ui_events);
  final_response = overwritten-later _ a.final_response b.final_response;
  metadata = overlaid-merged _ a.metadata b.metadata;
}

overlaid-SameDict :
    (a b : Dict Value) (d : Option (Dict Value))
    → SameDict a b
    → SameDict (overlaid a d) (overlaid b d)
overlaid-SameDict a b none h k = h k
overlaid-SameDict a b (some d) h k =
    ground (arith, h k, lookup-merge_dict k a d, lookup-merge_dict k b d)

SameState-trans : {s t u : State} → SameState s t → SameState t u → SameState s u
SameState-trans h g = record {
  session_id = h.session_id ∙ g.session_id;
  thread_id = h.thread_id ∙ g.thread_id;
  project_root = h.project_root ∙ g.project_root;
  input_text = h.input_text ∙ g.input_text;
  messages = h.messages ∙ g.messages;
  pending_tool_calls = h.pending_tool_calls ∙ g.pending_tool_calls;
  tool_results = h.tool_results ∙ g.tool_results;
  pending_confirmation = h.pending_confirmation ∙ g.pending_confirmation;
  pending_subagent_approval = h.pending_subagent_approval ∙ g.pending_subagent_approval;
  permission_decisions = h.permission_decisions ∙ g.permission_decisions;
  plan_mode = h.plan_mode ∙ g.plan_mode;
  available_tools = h.available_tools ∙ g.available_tools;
  todos = h.todos ∙ g.todos;
  child_runs = h.child_runs ∙ g.child_runs;
  active_skill = h.active_skill ∙ g.active_skill;
  hooks_state = λ x. h.hooks_state x ∙ g.hooks_state x;
  context_status = λ x. h.context_status x ∙ g.context_status x;
  usage = λ x. h.usage x ∙ g.usage x;
  errors = h.errors ∙ g.errors;
  ui_events = h.ui_events ∙ g.ui_events;
  final_response = h.final_response ∙ g.final_response;
  metadata = λ x. h.metadata x ∙ g.metadata x;
}

SameState-refl : (s : State) → SameState s s
SameState-refl s = record {
  session_id = refl;
  thread_id = refl;
  project_root = refl;
  input_text = refl;
  messages = refl;
  pending_tool_calls = refl;
  tool_results = refl;
  pending_confirmation = refl;
  pending_subagent_approval = refl;
  permission_decisions = refl;
  plan_mode = refl;
  available_tools = refl;
  todos = refl;
  child_runs = refl;
  active_skill = refl;
  hooks_state = λ x. refl;
  context_status = λ x. refl;
  usage = λ x. refl;
  errors = refl;
  ui_events = refl;
  final_response = refl;
  metadata = λ x. refl;
}

state_with_update-SameState :
    {s t : State} (u : Update)
    → SameState s t
    → SameState (state_with_update s u) (state_with_update t u)
unfolding state_with_update
state_with_update-SameState {s} {t} u h = record {
  session_id = h.session_id;
  thread_id = h.thread_id;
  project_root = h.project_root;
  input_text = h.input_text;
  messages = ap (λ x. x ++ u.messages) h.messages;
  pending_tool_calls = ap (λ x. overwritten x u.pending_tool_calls) h.pending_tool_calls;
  tool_results = ap (λ x. x ++ u.tool_results) h.tool_results;
  pending_confirmation = ap (λ x. overwritten x u.pending_confirmation) h.pending_confirmation;
  pending_subagent_approval =
      ap (λ x. overwritten x u.pending_subagent_approval) h.pending_subagent_approval;
  permission_decisions = ap (λ x. x ++ u.permission_decisions) h.permission_decisions;
  plan_mode = h.plan_mode;
  available_tools = h.available_tools;
  todos = ap (λ x. overwritten x u.todos) h.todos;
  child_runs = ap (λ x. x ++ u.child_runs) h.child_runs;
  active_skill = ap (λ x. overwritten x u.active_skill) h.active_skill;
  hooks_state = overlaid-SameDict s.hooks_state t.hooks_state u.hooks_state h.hooks_state;
  context_status =
      overlaid-SameDict s.context_status t.context_status u.context_status h.context_status;
  usage = overlaid-SameDict s.usage t.usage u.usage h.usage;
  errors = ap (λ x. x ++ u.errors) h.errors;
  ui_events = ap (λ x. x ++ u.ui_events) h.ui_events;
  final_response = ap (λ x. overwritten x u.final_response) h.final_response;
  metadata = overlaid-SameDict s.metadata t.metadata u.metadata h.metadata;
}

state_with_update_empty : (s : State) → SameState (state_with_update s empty_update) s
unfolding state_with_update
state_with_update_empty s = record {
  session_id = refl;
  thread_id = refl;
  project_root = refl;
  input_text = refl;
  messages = append-nil s.messages;
  pending_tool_calls = refl;
  tool_results = append-nil s.tool_results;
  pending_confirmation = refl;
  pending_subagent_approval = refl;
  permission_decisions = append-nil s.permission_decisions;
  plan_mode = refl;
  available_tools = refl;
  todos = refl;
  child_runs = append-nil s.child_runs;
  active_skill = refl;
  hooks_state = λ x. refl;
  context_status = λ x. refl;
  usage = λ x. refl;
  errors = append-nil s.errors;
  ui_events = append-nil s.ui_events;
  final_response = refl;
  metadata = λ x. refl;
}

-- Applying updates one after another.
abbrev pub apply_each : State → List Update → State
apply_each s [] = s
apply_each s (u ∷ us) = apply_each (state_with_update s u) us

apply_each-SameState :
    (us : List Update) {s t : State} → SameState s t → SameState (apply_each s us) (apply_each t us)
apply_each-SameState [] h = h
apply_each-SameState (u ∷ us) h = apply_each-SameState us (state_with_update-SameState u h)

state_with_update-merge_from :
    (s : State) (a : Update) (us : List Update)
    → SameState
        (state_with_update s (merge_from a us))
        (apply_each (state_with_update s a) (map without_clearing us))
unfolding merge_from
state_with_update-merge_from s a [] = SameState-refl _
state_with_update-merge_from s a (u ∷ us) =
    SameState-trans (state_with_update-merge_from s (merge_update a u) us)
      (apply_each-SameState (map without_clearing us) (state_with_update-merge_update s a u))

-- Merging any number of node and hook updates into one and applying that gives the state that applying them one
-- after another gives, key by key, but for an update that clears the pending approval of a subagent: the merge
-- skips this entry, so it counts as absent. Nothing else is lost, doubled or reordered.
pub state_with_update-merge_updates :
    (s : State) (us : List Update)
    → SameState (state_with_update s (merge_updates us)) (apply_each s (map without_clearing us))
unfolding merge_updates
state_with_update-merge_updates s us =
    SameState-trans (state_with_update-merge_from s empty_update us)
      (apply_each-SameState (map without_clearing us) (state_with_update_empty s))
