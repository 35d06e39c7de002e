-- ===== src/Hooks/Registry.antt =====
-- The hook registry: what registration keeps, and which hooks a lifecycle point runs, in which order.
mod Tests
use mathlib.Core.List.{Perm}
use mathlib.Core.List.Perm
use langraph_agent_blueprint.Prelude.{
  String, ◌<>◌, ◌≡◌, refl, ap, ◌∙◌, Bool, true, false, ◌&&◌, ◌⊎◌, inl, inr, Bool-cases, Option,
  ◌||◌, not, is_some, none, some, List, [], ◌∷◌, arith, eq_iff, eq_refl, if◌then◌else◌, ◌==◌,
}
use langraph_agent_blueprint.Prelude.Dict.{lookup, insert, values, lookup-insert}
use langraph_agent_blueprint.Prelude.Result.{Result, ok, raise, value_error, key_error}
use langraph_agent_blueprint.Prelude.Sort.{
  sorted, sorted-perm, IsSorted, sorted-IsSorted, text_le_total,
}
use langraph_agent_blueprint.Hooks.{
  HookContribution, HookPoint, HookRegistry, same_point, register, get, set_enabled, hook_le,
  filter_hooks, get_for_point,
}

-- What `get` answers, written as one expression over the dictionary.
abbrev found : String → Option HookContribution → Result HookContribution
found id none = raise (key_error ("Unknown hook: " <> id))
found id (some hook) = ok hook

get-found : (hooks : HookRegistry) (id : String) → get hooks id ≡ found id (lookup id hooks)
unfolding get
get-found hooks id = ground arith

-- A registration fails exactly where the id is taken and replacement is not asked for. Else it stores the
-- contribution under its id and changes no other id.
pub register-cases :
    (hooks : HookRegistry) (c : HookContribution) (replace : Bool) (id : String)
    → ((replace ≡ false)
        × (is_some (lookup c.id hooks) ≡ true)
        × (register hooks c replace ≡ raise (value_error ("Duplicate hook id: " <> c.id))))
      ⊎ (((replace || not (is_some (lookup c.id hooks))) ≡ true)
          × (hooks' : HookRegistry) × (register hooks c replace ≡ ok hooks')
          × (get hooks' id ≡ (if c.id == id then ok c else get hooks id)))
unfolding register
register-cases hooks c replace id = elim (Bool-cases (is_some (lookup c.id hooks) && not replace)) [
  | inl e ↦ inl (ground (arith, e), ground (arith, e), ground (arith, e))
  | inr e ↦ inr (
    ground (arith, e),
    insert c.id c hooks,
    ground (arith, e),
    ground (
      arith,
      lookup-insert id c.id c hooks,
      get-found hooks id,
      get-found (insert c.id c hooks) id,
    ),
  )
]

-- Enabling or disabling a hook changes its flag and nothing else in the registry.
pub get-set_enabled :
    (hooks : HookRegistry) (id j : String) (enabled : Bool) (c : HookContribution)
    → get hooks id ≡ ok c
    → (hooks' : HookRegistry) × (set_enabled hooks id enabled ≡ ok hooks')
      × (get hooks' j ≡ (if id == j then ok (record c { enabled = enabled }) else get hooks j))
unfolding set_enabled
get-set_enabled hooks id j enabled c h = (
  insert id (record c { enabled = enabled }) hooks,
  ground arith,
  ground (
    arith,
    get-found hooks j,
    get-found (insert id (record c { enabled = enabled }) hooks) j,
    lookup-insert j id (record c { enabled = enabled }) hooks,
  ),
)

hook_le_total : (a b : HookContribution) → hook_le a b ≡ false → hook_le b a ≡ true
hook_le_total a b h = ground (arith, text_le_total a.id b.id)

filter_hooks_twice :
    (p q : HookContribution → Bool) (hs : List HookContribution)
    → filter_hooks q (filter_hooks p hs) ≡ filter_hooks (λ h. p h && q h) hs
unfolding filter_hooks
filter_hooks_twice p q [] = refl
filter_hooks_twice p q (h ∷ hs) = ground (arith, filter_hooks_twice p q hs)

-- The hooks of a lifecycle point are those registered for it and enabled, each as often as it is
-- registered, ordered by priority and then by id.
pub get_for_point_lem :
    (hooks : HookRegistry) (point : HookPoint)
    → IsSorted hook_le (get_for_point hooks point false)
      × Perm
          (get_for_point hooks point false)
          (filter_hooks (λ h. same_point h.hook_point point && h.enabled) (values hooks))
unfolding get_for_point
get_for_point_lem hooks point =
    let at_point = filter_hooks (λ h. same_point h.hook_point point) (values hooks) in
    let chosen = filter_hooks (λ h. h.enabled) at_point in
    (
      sorted-IsSorted hook_le hook_le_total chosen,
      rw (← filter_hooks_twice (λ h. same_point h.hook_point point) (λ h. h.enabled) (values hooks))
          (sorted-perm hook_le chosen),
    )
