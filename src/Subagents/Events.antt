-- ===== src/Subagents/Events.antt =====
-- graph/subgraphs/agent_graph.py: the events of a child run. They keep the data that the frontend's
-- renderings repeat.
use langraph_agent_blueprint.Prelude.{ℕ, suc, String, none, some, List, [], ◌∷◌, ◌++◌}
use langraph_agent_blueprint.Prelude.Dict.{Dict, lookup}
use langraph_agent_blueprint.Prelude.Result.{Result, ok, raise, Error}
use langraph_agent_blueprint.State.{Event, event}
use langraph_agent_blueprint.Subagents.{
  ChildRunMetadata, ChildRunStatus, running, completed, failed,
}
use langraph_agent_blueprint.Subagents.Scope.{optional_text}
use langraph_agent_blueprint.Value.{Value, null, num, str, obj, fields_of}

abbrev pub status_text : ChildRunStatus → String
status_text running = "running"
status_text completed = "completed"
status_text failed = "failed"

-- The agent call's id, which the metadata of a prepared call holds.
abbrev pub call_id_of : ChildRunMetadata → Value
call_id_of m = elim (lookup "agent_call_id" m.metadata) [ none ↦ null | some v ↦ v ]

-- The data that each event of a child run has.
abbrev pub run_entries : ChildRunMetadata → ℕ → Dict Value
run_entries m sequence =
    ("child_run_id", str m.child_run_id)
    ∷ ("run_id", str m.child_run_id)
    ∷ ("sequence", num sequence)
    ∷ ("parent_session_id", str m.parent_session_id)
    ∷ ("parent_thread_id", str m.parent_thread_id)
    ∷ ("child_session_id", str m.child_session_id)
    ∷ ("child_thread_id", str m.child_thread_id)
    ∷ ("agent_call_id", call_id_of m)
    ∷ ("name", optional_text m.name)
    ∷ ("purpose", optional_text m.purpose)
    ∷ []

unfoldable pub subagent_lifecycle_event : ChildRunMetadata → String → ℕ → String → Event
subagent_lifecycle_event m type sequence status =
    event type (run_entries m sequence ++ ("status", str status) ∷ [])

-- `_forward_child_event` for each of the child's events, numbered from one.
unfoldable pub forward_child_events : ChildRunMetadata → ℕ → List Event → List Event
forward_child_events m sequence [] = []
forward_child_events m sequence (e ∷ es) =
    event "subagent_event" (
      run_entries m sequence
      ++ ("child_event_type", str e.type) ∷ ("child_event", obj (fields_of e.payload)) ∷ [])
    ∷ forward_child_events m (suc sequence) es

-- The event for a failed write to the storage.
abbrev pub persistence_events :
    (Error → String) → ChildRunMetadata → String → ℕ → Result {0} Unit → List Event
persistence_events error_text m type sequence (ok done) = []
persistence_events error_text m type sequence (raise e) =
    event "subagent_event" (
      run_entries m sequence
      ++ ("child_event_type", str type) ∷ ("message", str (error_text e)) ∷ [])
    ∷ []
