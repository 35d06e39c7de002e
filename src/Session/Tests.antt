-- ===== src/Session/Tests.antt =====
-- A session whose last turn was cancelled.
use langraph_agent_blueprint.Prelude.{
  ◌≡◌, refl, none, some, [], ◌∷◌, if◌then◌else◌, contains, ◌==◌, true,
}
use langraph_agent_blueprint.Prelude.Dict.{lookup, insert, remove}
use langraph_agent_blueprint.Session.{LoadedSession, hydrate_session_state, remove_all_keys}
use langraph_agent_blueprint.Session.Laws.{forgotten, lookup-hydrate_session_state}
use langraph_agent_blueprint.State.Updates.Tests.{blank}
use langraph_agent_blueprint.Value.{nil, str, bool, or_else, merge_dict}

abbrev loaded : LoadedSession
loaded = record {
  messages = [];
  todos = nil;
  usage = [];
  metadata = ("runtime_cancelled", bool true) ∷ ("tool_route", str "cancelled") ∷ [];
}

lookup-hydrate_session_state_example :
    let t = hydrate_session_state blank (some loaded) in
    (t.messages ≡ loaded.messages)
    × (t.todos ≡ loaded.todos)
    × (t.usage ≡ loaded.usage)
    × (lookup "tool_route" t.metadata ≡ (
        if contains forgotten "tool_route"
        then none
        else if "resumed_from_session" == "tool_route"
        then some (str "session_1")
        else or_else (lookup "tool_route" blank.metadata) (lookup "tool_route" loaded.metadata)))
lookup-hydrate_session_state_example = lookup-hydrate_session_state "tool_route" blank loaded

-- The cancellation of the last turn is still set in the next one.
still_cancelled :
    lookup "runtime_cancelled" (hydrate_session_state blank (some loaded)).metadata
    ≡ some (bool true)
unfolding hydrate_session_state remove_all_keys lookup insert remove merge_dict
still_cancelled = refl
