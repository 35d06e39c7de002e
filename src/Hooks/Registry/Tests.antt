-- ===== src/Hooks/Registry/Tests.antt =====
-- The hook registry at concrete registrations.
use mathlib.Core.List.{Perm}
use langraph_agent_blueprint.Prelude.{
  ℕ, String, ◌<>◌, ◌||◌, not, ◌⊎◌, is_some, ◌≡◌, true, false, ◌&&◌, none, [], ◌∷◌, if◌then◌else◌,
  ◌==◌,
}
use langraph_agent_blueprint.Prelude.Dict.{lookup, values}
use langraph_agent_blueprint.Prelude.Result.{ok, raise, value_error}
use langraph_agent_blueprint.Prelude.Sort.{IsSorted}
use langraph_agent_blueprint.Hooks.{
  HookPoint, pre_tool, post_tool, HookContribution, HookRegistry, register, get, hook_le,
  filter_hooks, get_for_point, same_point,
}
use langraph_agent_blueprint.Hooks.Registry.{register-cases, get_for_point_lem}

abbrev hook : String → HookPoint → ℕ → HookContribution
hook id point priority = record {
  id = id;
  plugin_name = none;
  hook_point = point;
  enabled = true;
  priority = priority;
  trusted = false;
  metadata = [];
}

abbrev hooks : HookRegistry
hooks = ("b", hook "b" pre_tool 5) ∷ ("a", hook "a" pre_tool 7) ∷ ("c", hook "c" post_tool 1) ∷ []

abbrev again : HookContribution
again = hook "a" pre_tool 5

register-cases_example :
    ((false ≡ false)
      × (is_some (lookup "a" hooks) ≡ true)
      × (register hooks again false ≡ raise (value_error ("Duplicate hook id: " <> "a"))))
    ⊎ (((false || not (is_some (lookup "a" hooks))) ≡ true)
        × (hooks' : HookRegistry) × (register hooks again false ≡ ok hooks')
        × (get hooks' "b" ≡ (if "a" == "b" then ok again else get hooks "b")))
register-cases_example = register-cases hooks again false "b"

get_for_point_lem_example :
    IsSorted hook_le (get_for_point hooks pre_tool false)
    × Perm
        (get_for_point hooks pre_tool false)
        (filter_hooks (λ h. same_point h.hook_point pre_tool && h.enabled) (values hooks))
get_for_point_lem_example = get_for_point_lem hooks pre_tool
