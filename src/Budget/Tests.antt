-- ===== src/Budget/Tests.antt =====
-- A budget of three tokens.
use langraph_agent_blueprint.Prelude.{◌≤◌, max, ◌≡◌, String, false, none, List, [], ◌∷◌}
use langraph_agent_blueprint.Budget.{ContextFragment, apply}
use langraph_agent_blueprint.Budget.Laws.{total, Partition, apply-Fits}

abbrev fragment : String → String → ContextFragment
fragment id content = record {
  id = id;
  content = content;
  token_estimate = none;
  truncated = false;
}

abbrev fragments : List ContextFragment
fragments = fragment "a" "12345678" ∷ fragment "b" "a longer text than fits" ∷ fragment "c" "x" ∷ []

apply-Fits_example :
    let r = apply 3 fragments in
    (r.used ≤ max 1 3)
    × (r.used ≡ total r.included)
    × Partition fragments r.included r.dropped r.truncated
apply-Fits_example = apply-Fits 3 fragments
