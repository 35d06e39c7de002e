-- ===== src/Hooks/Applier/Tests.antt =====
-- Hook results applied at concrete states.
use langraph_agent_blueprint.Prelude.{String, ◌≡◌, refl, true, ◌||◌, ◌&&◌, none, [], ◌∷◌, any}
use langraph_agent_blueprint.Prelude.Dict.{lookup, insert}
use langraph_agent_blueprint.Hooks.{HookResult, block, modify_metadata, pre_tool, warning, info}
use langraph_agent_blueprint.Hooks.Applier.{
  apply_hook_results, set_hook_metadata, apply_results, dispatch, apply_metadata, apply_block,
}
use langraph_agent_blueprint.Hooks.Applier.Laws.{ActsWithin, apply_hook_results-ActsWithin}
use langraph_agent_blueprint.Hooks.Applier.Blocking.{
  writes, blocks, hook_blocked-apply_hook_results,
}
use langraph_agent_blueprint.State.{State}
use langraph_agent_blueprint.State.Updates.{state_with_update, hook_blocked}
use langraph_agent_blueprint.State.Updates.Tests.{blank}
use langraph_agent_blueprint.Value.{Value, str, obj, end, field, is_set}

abbrev show : Value → String
show (str s) = s
show _ = "value"

abbrev stopping : HookResult
stopping = record {
  hook_id = "guard";
  hook_point = pre_tool;
  action = block;
  fields = ("reason", str "no shell") ∷ [];
  message = none;
  severity = warning;
}

abbrev noting : HookResult
noting = record {
  hook_id = "notes";
  hook_point = pre_tool;
  action = modify_metadata;
  fields = ("metadata", obj end) ∷ [];
  message = none;
  severity = info;
}

-- A state in which a hook has blocked an earlier operation.
abbrev stale : State
stale = record blank {
  metadata =
      ("tool_route", str "execute")
      ∷ ("hook_blocked", obj (field "reason" (str "no shell") end))
      ∷ [];
}

apply_hook_results-ActsWithin_example :
    ActsWithin "tool_route" "budget" stale
      (state_with_update stale (apply_hook_results show stale (noting ∷ stopping ∷ [])))
apply_hook_results-ActsWithin_example =
    apply_hook_results-ActsWithin show "tool_route" "budget" stale (noting ∷ stopping ∷ []) refl
      refl

hook_blocked-apply_hook_results_example :
    hook_blocked (apply_hook_results show stale (noting ∷ [])) ≡ (
      any blocks (noting ∷ [])
      || (any (λ r. writes show r.action r) (noting ∷ [])
          && is_set (lookup "hook_blocked" stale.metadata)))
hook_blocked-apply_hook_results_example = hook_blocked-apply_hook_results show stale (noting ∷ [])

-- No hook blocks, yet the operation counts as blocked.
stale_block : hook_blocked (apply_hook_results show stale (noting ∷ [])) ≡ true
unfolding hook_blocked apply_hook_results set_hook_metadata apply_results dispatch apply_metadata
    insert lookup
stale_block = refl

blocked : hook_blocked (apply_hook_results show blank (stopping ∷ [])) ≡ true
unfolding hook_blocked apply_hook_results insert lookup apply_results dispatch apply_block
blocked = refl
