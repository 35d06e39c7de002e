-- ===== src/Compaction/Compact/Route.antt =====
-- Where the graph goes after the decision to compact.
use langraph_agent_blueprint.Prelude.{
  String, ◌≡◌, refl, ap, ◌∙◌, ◌==◌, Bool, true, false, arith, some, [], ◌∷◌, Bool-cases, inl, inr,
  ◌&&◌, not, if◌then◌else◌,
}
use langraph_agent_blueprint.Prelude.Dict.{Dict, lookup, lookup-insert}
use langraph_agent_blueprint.Compaction.{CompactionService, compaction_reason, compaction_decision}
use langraph_agent_blueprint.Compaction.Compact.{compact_decision_node}
use langraph_agent_blueprint.Graph.{
  Node, compact_decision, compact_context, persist_session, model_call, next,
  route_after_compact_decision,
}
use langraph_agent_blueprint.Nodes.{MessagesReducer, reduced}
use langraph_agent_blueprint.State.{State}
use langraph_agent_blueprint.Value.{str, is_set}

-- A decision to compact goes to the compaction, any other back to the model.
abbrev pub destination : Bool → Node
destination true = compact_context
destination false = model_call

-- A compaction that the user asks for is always decided.
requested_decides :
    (service : CompactionService) (s : State)
    → is_set (lookup "compact_requested" s.metadata) ≡ true
    → (compaction_decision service s).should_compact ≡ true
unfolding compaction_decision compaction_reason
requested_decides service s h = rw h refl

abbrev route_name : Bool → String
route_name decided = if decided then "compact" else "skip"

abbrev after_name : Bool → String
after_name requested = if requested then "persist_session" else "model_call"

-- The entry of `compact_decision` in the table of the graph, by the two names in the metadata.
abbrev compact_routes : Dict Node
compact_routes =
    ("compact_context", compact_context)
    ∷ ("persist_session", persist_session)
    ∷ ("model_call", model_call)
    ∷ []

route_after_names :
    (t : State) (x y : String)
    → lookup "compact_route" t.metadata ≡ some (str x)
    → lookup "compact_after_route" t.metadata ≡ some (str y)
    → route_after_compact_decision t
      ≡ (if x == "compact" then "compact_context" else if y == "" then "model_call" else y)
unfolding route_after_compact_decision
route_after_names t x y h g = rw h (rw g refl)

lookup-compact_routes :
    (decided requested : Bool)
    → (requested ≡ true → decided ≡ true)
    → lookup
        (if route_name decided == "compact"
          then "compact_context"
          else if after_name requested == ""
          then "model_call"
          else after_name requested)
        compact_routes
      ≡ some (destination decided)
unfolding lookup
lookup-compact_routes true true h = refl
lookup-compact_routes true false h = refl
lookup-compact_routes false true h = cc (h refl)
lookup-compact_routes false false h = refl

module _ (add_messages : MessagesReducer) (service : CompactionService) (s : State) where
  abbrev decided_state : State
  unfolding reduced compact_decision_node
  decided_state = reduced add_messages s (compact_decision_node service s)

  compact_route_entry :
      lookup "compact_route" decided_state.metadata
      ≡ some (str (route_name (compaction_decision service s).should_compact))
  unfolding decided_state
  compact_route_entry = rw lookup-insert (rw lookup-insert refl)

  compact_after_route_entry :
      lookup "compact_after_route" decided_state.metadata
      ≡ some (str (after_name (is_set (lookup "compact_requested" s.metadata))))
  unfolding decided_state
  compact_after_route_entry = rw lookup-insert refl

-- After the decision the graph goes to the compaction where the decision is to compact, which it is whenever the
-- user asked for a compaction, and else back to the model.
pub compact_decision_node-next :
    (add_messages : MessagesReducer) (service : CompactionService) (s : State)
    → let decided = (compaction_decision service s).should_compact in
      (next compact_decision (reduced add_messages s (compact_decision_node service s))
        ≡ some (destination decided))
      × ((is_set (lookup "compact_requested" s.metadata) && not decided) ≡ false)
unfolding next decided_state
compact_decision_node-next add_messages service s =
    let decided = (compaction_decision service s).should_compact in
    let requested = is_set (lookup "compact_requested" s.metadata) in
    (
      ap (λ r. lookup r compact_routes)
            (route_after_names (decided_state add_messages service s) (route_name decided)
              (after_name requested) (compact_route_entry add_messages service s)
              (compact_after_route_entry add_messages service s))
          ∙ lookup-compact_routes decided requested (requested_decides service s),
      elim (Bool-cases requested) [
        | inl e ↦ rw (requested_decides service s e) (ground arith)
        | inr e ↦ rw e refl
      ],
    )
