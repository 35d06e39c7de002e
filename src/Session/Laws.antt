-- ===== src/Session/Laws.antt =====
-- What a resumed session keeps.
use langraph_agent_blueprint.Prelude.{
  String, ◌≡◌, refl, none, some, List, [], ◌∷◌, contains, arith, eq_iff, if◌then◌else◌, ◌==◌,
}
use langraph_agent_blueprint.Prelude.Dict.{Dict, lookup, remove, lookup-insert, lookup-remove}
use langraph_agent_blueprint.Session.{LoadedSession, remove_all_keys, hydrate_session_state}
use langraph_agent_blueprint.State.{State}
use langraph_agent_blueprint.Value.{Value, str, merge_dict, or_else, lookup-merge_dict}

lookup-remove_all_keys :
    (j : String) (ks : List String) (d : Dict Value)
    → lookup j (remove_all_keys ks d) ≡ (if contains ks j then none else lookup j d)
unfolding remove_all_keys
lookup-remove_all_keys j [] d = refl
lookup-remove_all_keys j (k ∷ ks) d =
    ground
      (arith, lookup-remove_all_keys j ks (remove k d), lookup-remove j k d, eq_iff j k, eq_iff k j)

-- The metadata keys that a resumed turn starts without, whatever the session or the new turn has for them.
abbrev pub forgotten : List String
forgotten =
    "input_normalized" ∷ "graph_finished" ∷ "tool_route" ∷ "compact_route" ∷ "compact_requested"
    ∷ "clear_messages" ∷ "export_requested" ∷ "doctor_requested" ∷ "allowed_tools_override"
    ∷ "active_skill_name" ∷ "skill_invocation" ∷ "context_resolved" ∷ "streaming_enabled" ∷ []

-- A resumed turn has the messages, todos and usage of the session. Of the metadata it has no entry for the
-- thirteen keys that are listed by name, the session for the mark of the resumption, and for any other key,
-- runtime_cancelled and hook_blocked among them, the entry of the new turn or else the stored one.
pub lookup-hydrate_session_state :
    (j : String) (s : State) (loaded : LoadedSession)
    → let t = hydrate_session_state s (some loaded) in
      (t.messages ≡ loaded.messages)
      × (t.todos ≡ loaded.todos)
      × (t.usage ≡ loaded.usage)
      × (lookup j t.metadata ≡ (
          if contains forgotten j
          then none
          else if "resumed_from_session" == j
          then some (str s.session_id)
          else or_else (lookup j s.metadata) (lookup j loaded.metadata)))
unfolding hydrate_session_state
lookup-hydrate_session_state j s loaded =
    let merged = merge_dict loaded.metadata s.metadata in
    (
      refl,
      refl,
      refl,
      rw (lookup-remove_all_keys j) (rw (lookup-insert j) (rw (lookup-merge_dict j) refl)),
    )
