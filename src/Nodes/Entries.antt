-- ===== src/Nodes/Entries.antt =====
-- The metadata entries of merged updates, and what hooks leave of an update.
use langraph_agent_blueprint.Prelude.{String, ◌≡◌, refl, false, Option, none, some, [], ◌∷◌, arith}
use langraph_agent_blueprint.Prelude.Dict.{Dict, lookup}
use langraph_agent_blueprint.Hooks.{HookPoint}
use langraph_agent_blueprint.Hooks.Applier.{apply_hook_results}
use langraph_agent_blueprint.Hooks.Applier.Laws.{is_hook_key, apply_hook_results-ActsWithin}
use langraph_agent_blueprint.Hooks.Service.{Overrides, run_hook_point, run, context_of, point_base}
use langraph_agent_blueprint.Nodes.{AppDependencies, run_point}
use langraph_agent_blueprint.State.{State, Update}
use langraph_agent_blueprint.State.Updates.{
  merged, merge_update, merge_updates, merge_from, state_with_update, entry, overlaid,
}
use langraph_agent_blueprint.Value.{Value, lookup-merge_dict, or_else}

or_else-none : (a : Option Value) → or_else a none ≡ a
or_else-none none = refl
or_else-none (some v) = refl

entry-merged :
    (k : String) (a b : Option (Dict Value))
    → entry k (merged a b) ≡ or_else (entry k b) (entry k a)
unfolding lookup
entry-merged k a none = refl
entry-merged k none (some b) = lookup-merge_dict k [] b
entry-merged k (some a) (some b) = lookup-merge_dict k a b

-- The later update wins.
pub entry-merge_two :
    (k : String) (a b : Update)
    → entry k (merge_updates (a ∷ b ∷ [])).metadata
      ≡ or_else (entry k b.metadata) (entry k a.metadata)
unfolding merge_updates merge_from merge_update
entry-merge_two k a b = ground (
  arith,
  entry-merged k (merged none a.metadata) b.metadata,
  entry-merged k none a.metadata,
  or_else-none (entry k a.metadata),
)

pub entry-merge_three :
    (k : String) (a b c : Update)
    → entry k (merge_updates (a ∷ b ∷ c ∷ [])).metadata
      ≡ or_else (entry k c.metadata) (or_else (entry k b.metadata) (entry k a.metadata))
unfolding merge_updates merge_from merge_update
entry-merge_three k a b c = ground (
  arith,
  entry-merged k (merged (merged none a.metadata) b.metadata) c.metadata,
  entry-merged k (merged none a.metadata) b.metadata,
  entry-merged k none a.metadata,
  or_else-none (entry k a.metadata),
)

lookup-overlaid :
    (k : String) (d : Dict Value) (m : Option (Dict Value))
    → lookup k (overlaid d m) ≡ or_else (entry k m) (lookup k d)
lookup-overlaid k d none = refl
lookup-overlaid k d (some m) = lookup-merge_dict k d m

pub lookup-state_with_update :
    (k : String) (s : State) (u : Update)
    → lookup k (state_with_update s u).metadata ≡ or_else (entry k u.metadata) (lookup k s.metadata)
unfolding state_with_update
lookup-state_with_update k s u = lookup-overlaid k s.metadata u.metadata

module _ (deps : AppDependencies) (s : State) (point : HookPoint) (o : Overrides) where
  -- An entry that is not the hooks' own is the same after hooks as before.
  pub entry-run_point :
      (k : String) (v : Option Value)
      → is_hook_key k ≡ false
      → lookup k s.metadata ≡ v
      → or_else (entry k (run_point deps s point o).metadata) v ≡ v
  unfolding run_point run_hook_point
  entry-run_point k v n e =
      let results = (run deps.hook_service (context_of s point o)).results in
      let applied = apply_hook_results deps.show s results in
      ground (
        arith,
        e,
        entry-merge_two k (point_base s point (run deps.hook_service (context_of s point o)))
            applied,
        lookup-state_with_update k s applied,
        (apply_hook_results-ActsWithin deps.show k "" s results n refl).metadata,
        or_else-none (entry k applied.metadata),
      )

  pub pending_tool_calls-run_point : (run_point deps s point o).pending_tool_calls ≡ none
  unfolding run_point run_hook_point apply_hook_results merge_updates merge_from merge_update
  pending_tool_calls-run_point = refl

  pub tool_results-run_point : (run_point deps s point o).tool_results ≡ []
  unfolding run_point run_hook_point apply_hook_results merge_updates merge_from merge_update
  tool_results-run_point = refl

  pub messages-run_point : (run_point deps s point o).messages ≡ []
  unfolding run_point run_hook_point apply_hook_results merge_updates merge_from merge_update
  messages-run_point = refl

  pub pending_confirmation-run_point : (run_point deps s point o).pending_confirmation ≡ none
  unfolding run_point run_hook_point apply_hook_results merge_updates merge_from merge_update
  pending_confirmation-run_point = refl
