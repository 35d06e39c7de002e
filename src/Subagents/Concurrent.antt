-- ===== src/Subagents/Concurrent.antt =====
-- graph/subgraphs/agent_graph.py: the node of the subgraph, which runs several calls of the agent tool at once.
-- `order` holds the submitted calls with their positions as their workers end, and a stream what a turn with a
-- writer adds to this: the events that the workers put into the queue, in the order in which they are read.
pub mod Laws
pub mod Outcome
pub mod Answers
use langraph_agent_blueprint.Prelude.{
  ℕ, zero, suc, String, ◌<>◌, Bool, true, false, Option, none, some, List, [], ◌∷◌, ◌++◌, eqb,
  length, contains, not, ◌&&◌, if◌then◌else◌, ◌==◌,
}
use langraph_agent_blueprint.Prelude.Dict.{Dict, lookup, insert}
use langraph_agent_blueprint.Prelude.Result.{
  Result, ok, raise, Error, value_error, key_error, permission_error, ◌>>=◌,
}
use langraph_agent_blueprint.Graph.{has_dict}
use langraph_agent_blueprint.State.{
  State, Update, empty_update, Message, ToolCall, ToolResult, Event,
}
use langraph_agent_blueprint.Subagents.{SubagentDependencies, FreshIds}
use langraph_agent_blueprint.Subagents.Prepare.{
  Preparation, prepared, refused, tool_error, prepare_agent_call,
}
use langraph_agent_blueprint.Subagents.Run.{run_prepared_agent_call, started_event, with_ref}
use langraph_agent_blueprint.Value.{Value, Items, str, arr, obj, list_or_empty, dict_of}

-- `exc.__class__.__name__`
abbrev class_name : Error → String
class_name (value_error message) = "ValueError"
class_name (key_error message) = "KeyError"
class_name (permission_error message) = "PermissionError"

-- The calls with their positions, counted from a number.
abbrev pub enumerate : ℕ → List ToolCall → List (ℕ × ToolCall)
enumerate i [] = []
enumerate i (call ∷ calls) = (i, call) ∷ enumerate (suc i) calls

-- `results[index]`, where it is set; a later assignment stands before an earlier one.
abbrev pub result_at : ℕ → List (ℕ × Update) → Option Update
result_at i [] = none
result_at i ((j, u) ∷ results) = if eqb j i then some u else result_at i results

abbrev pub kept : Option Update → List Update → List Update
kept none us = us
kept (some u) us = u ∷ us

-- `[results[index] for index in range(...) if index in results]`, from an index and for so many of them.
unfoldable pub ordered_from : ℕ → ℕ → List (ℕ × Update) → List Update
ordered_from i zero results = []
ordered_from i (suc n) results = kept (result_at i results) (ordered_from (suc i) n results)

abbrev pub is_pending : Update → Bool
is_pending u = elim u.pending_subagent_approval [ none ↦ false | some approval ↦ has_dict approval ]

-- The local variables of the loop over the results.
pub record Gathered : Type 0 where
  pub child_runs : List Value
  pub tool_results : List ToolResult
  pub messages : List Message
  pub ui_events : List Event
  pub child_run_refs : Items
  pub pending_update : Option Update

abbrev pub first_pending : Option Update → Update → Option Update
first_pending (some pending) u = some pending
first_pending none u = if is_pending u then some u else none

abbrev set_text : Option Value → Option String
set_text (some (str text)) = if text == "" then none else some text
set_text _ = none

-- `child_run.get("id")`, where it is set.
abbrev run_id : Value → Option String
unfolding lookup
run_id (obj fields) = set_text (lookup "id" (dict_of fields))
run_id _ = none

abbrev with_optional_ref : Items → Option String → Items
unfolding with_ref
with_optional_ref refs none = refs
with_optional_ref refs (some id) = with_ref refs id

unfoldable pub with_refs : Items → List Value → Items
unfolding with_optional_ref run_id
with_refs refs [] = refs
with_refs refs (run ∷ runs) = with_refs (with_optional_ref refs (run_id run)) runs

-- A turn with a writer: the events of the queue, `streamed_event_ids` after the last worker, and the generated id
-- of the event at a position of a result.
pub record Stream : Type 0 where
  pub queued : List Event
  pub streamed_event_ids : List String
  pub event_id : ℕ → ℕ → String

-- The events from a position that are not streamed.
unfoldable pub non_streamed : (ℕ → String) → List String → ℕ → List Event → List Event
non_streamed event_id ids k [] = []
non_streamed event_id ids k (e ∷ es) =
    let later = non_streamed event_id ids (suc k) es in
    if not (event_id k == "") && contains ids (event_id k) then later else e ∷ later

abbrev pub unseen : Option Stream → ℕ → List Event → List Event
unfolding non_streamed
unseen none i es = es
unseen (some stream) i es = non_streamed (stream.event_id i) stream.streamed_event_ids 0 es

-- The loop over the results, from an index.
unfoldable pub gather : Option Stream → ℕ → List Update → Gathered → Gathered
unfolding with_refs unseen
gather stream i [] g = g
gather stream i (u ∷ us) g = gather stream (suc i) us (record {
  child_runs = g.child_runs ++ u.child_runs;
  tool_results = g.tool_results ++ u.tool_results;
  messages = g.messages ++ u.messages;
  ui_events = g.ui_events ++ unseen stream i u.ui_events;
  child_run_refs = with_refs g.child_run_refs u.child_runs;
  pending_update = first_pending g.pending_update u;
})

-- Before the loop, with the streamed events.
abbrev pub nothing_gathered : List Event → Dict Value → Gathered
nothing_gathered streamed_events metadata = record {
  child_runs = [];
  tool_results = [];
  messages = [];
  ui_events = streamed_events;
  child_run_refs = list_or_empty (lookup "child_run_refs" metadata);
  pending_update = none;
}

-- The update for what was gathered: of a call that waits for an approval, only the update of that call.
unfoldable pub gathered_update : Option Update → Dict Value → Gathered → Update
unfolding insert
gathered_update (some pending) metadata g = record pending { ui_events = g.ui_events }
gathered_update none metadata g = record empty_update {
  metadata = some (insert "child_run_refs" (arr g.child_run_refs) metadata);
  child_runs = g.child_runs;
  pending_tool_calls = some [];
  tool_results = g.tool_results;
  messages = g.messages;
  ui_events = g.ui_events;
}

unfoldable pub combined : Option Stream → List Event → Dict Value → List Update → Update
unfolding gather gathered_update
combined stream streamed_events metadata us =
    let g = gather stream 0 us (nothing_gathered streamed_events metadata) in
    gathered_update g.pending_update metadata g

-- The loop that prepares the calls: the results of those that are refused are assigned at once.
unfoldable pub add_refused :
    (ℕ → ToolCall → Bool)
    → (ℕ → ToolCall → Update)
    → List (ℕ × ToolCall)
    → List (ℕ × Update)
    → List (ℕ × Update)
add_refused is_refused outcome [] results = results
add_refused is_refused outcome ((i, call) ∷ calls) results =
    let fewer = add_refused is_refused outcome calls results in
    let more = add_refused is_refused outcome calls ((i, outcome i call) ∷ results) in
    if is_refused i call then more else fewer

-- The loop that waits for the workers.
unfoldable pub add_completed :
    (ℕ → ToolCall → Update) → List (ℕ × ToolCall) → List (ℕ × Update) → List (ℕ × Update)
add_completed outcome [] results = results
add_completed outcome ((i, call) ∷ order) results =
    add_completed outcome order ((i, outcome i call) ∷ results)

module _ (deps : SubagentDependencies) (s : State) (fresh : ℕ → FreshIds) where
  -- The result of a worker; an exception becomes an error of its call.
  abbrev pub contained : ToolCall → Result Update → Update
  unfolding tool_error
  contained call (ok u) = u
  contained call (raise e) =
      tool_error call ("Subagent run failed: " <> deps.app.tool_execution.error_text e)
        (class_name e)

  abbrev pub outcome_of : ToolCall → Preparation → Update
  unfolding contained tool_error run_prepared_agent_call
  outcome_of call (refused message error_type) = tool_error call message error_type
  outcome_of call (prepared p) = contained call (run_prepared_agent_call deps s p)

  -- The result of the call at a position.
  unfoldable pub outcome : ℕ → ToolCall → Update
  unfolding outcome_of prepare_agent_call
  outcome i call = outcome_of call (prepare_agent_call deps s (fresh i) call)

  abbrev pub refused_preparation : Preparation → Bool
  refused_preparation (prepared p) = false
  refused_preparation (refused message error_type) = true

  unfoldable pub is_refused : ℕ → ToolCall → Bool
  unfolding prepare_agent_call
  is_refused i call = refused_preparation (prepare_agent_call deps s (fresh i) call)

  abbrev refused_events : List (ℕ × ToolCall) → List Event
  unfolding outcome is_refused
  refused_events [] = []
  refused_events ((i, call) ∷ calls) =
      if is_refused i call
      then (outcome i call).ui_events ++ refused_events calls
      else refused_events calls

  abbrev started_by : Preparation → List Event
  unfolding started_event
  started_by (prepared p) = started_event deps p ∷ []
  started_by (refused message error_type) = []

  abbrev started_events : List (ℕ × ToolCall) → List Event
  unfolding prepare_agent_call started_by
  started_events [] = []
  started_events ((i, call) ∷ calls) =
      started_by (prepare_agent_call deps s (fresh i) call) ++ started_events calls

  -- `streamed_events` after the last worker: those of the refused calls, the starts of the others, and the queue.
  unfoldable pub streamed_events : Option Stream → List ToolCall → List Event
  unfolding refused_events started_events
  streamed_events none calls = []
  streamed_events (some stream) calls =
      refused_events (enumerate 0 calls) ++ started_events (enumerate 0 calls) ++ stream.queued

  -- `_run_agent_calls_concurrently`
  unfoldable pub run_agent_calls_concurrently :
      Option Stream → List ToolCall → List (ℕ × ToolCall) → Update
  unfolding ordered_from add_refused add_completed combined outcome is_refused streamed_events
  run_agent_calls_concurrently stream calls order =
      combined stream (streamed_events stream calls) s.metadata (
        ordered_from 0 (length calls)
          (add_completed outcome order (add_refused is_refused outcome (enumerate 0 calls) [])))

  -- The result of the only call; an exception leaves the node.
  abbrev alone : ToolCall → Preparation → Result Update
  unfolding tool_error run_prepared_agent_call
  alone call (refused message error_type) = ok (tool_error call message error_type)
  alone call (prepared p) = run_prepared_agent_call deps s p

  abbrev or_metadata : Option (Dict Value) → Option (Dict Value)
  or_metadata none = some s.metadata
  or_metadata (some d) = some d

  abbrev alone_update : Update → Update
  alone_update u = if is_pending u then u else record empty_update {
    metadata = or_metadata u.metadata;
    child_runs = u.child_runs;
    pending_tool_calls = some [];
    tool_results = u.tool_results;
    messages = u.messages;
    ui_events = u.ui_events;
  }

  -- `_agent_node`
  unfoldable pub agent_node : Option Stream → List (ℕ × ToolCall) → Result Update
  unfolding prepare_agent_call run_agent_calls_concurrently alone
  agent_node stream order = elim s.pending_tool_calls [
    | [] ↦ ok empty_update
    | call ∷ calls ↦ elim calls [
      | [] ↦ do u ← alone call (prepare_agent_call deps s (fresh 0) call); ok (alone_update u)
      | next ∷ more ↦ ok (run_agent_calls_concurrently stream (call ∷ next ∷ more) order)
    ]
  ]
