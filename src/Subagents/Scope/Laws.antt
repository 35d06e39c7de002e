-- ===== src/Subagents/Scope/Laws.antt =====
-- A child's tools: never more than the parent's, and without a request only those that are safe.
use mathlib.Core.Path.{subst}
use langraph_agent_blueprint.Prelude.{
  String, ◌≡◌, refl, Bool, true, false, Option, none, some, List, [], ◌∷◌, inl, inr, contains, all,
  is_some, Bool-cases, arith, ◌==◌, eq_refl, ◌&&◌, ◌||◌, &&-left, &&-right,
}
use langraph_agent_blueprint.Prelude.Dict.{lookup}
use langraph_agent_blueprint.Prelude.Result.{ok, ok_injective, >>=-inverts, ok-holds}
use langraph_agent_blueprint.State.{State}
use langraph_agent_blueprint.Subagents.{SubagentRequest}
use langraph_agent_blueprint.Subagents.Scope.{
  distinct_from, unknown_names, is_safe, safe_names, parent_scope, within, checked, requested_tools,
  resolve_allowed_tools,
}
use langraph_agent_blueprint.Tools.{ToolRegistry}

-- Whether a scope, where there is one, has the name.
abbrev pub is_in_scope : Option (List String) → String → Bool
is_in_scope none name = true
is_in_scope (some scope) name = contains scope name

-- Whether an entry of the registry has the name and a tool that is safe.
abbrev pub has_safe : ToolRegistry → String → Bool
has_safe [] name = false
has_safe ((key, tool) ∷ tools) name = (key == name && is_safe tool) || has_safe tools name

-- The tools that a request names, all of them registered; without a request, safe tools.
unfoldable pub is_granted : ToolRegistry → List String → String → Bool
unfolding lookup
is_granted tools [] name = has_safe tools name
is_granted tools (x ∷ xs) name = contains (x ∷ xs) name && is_some (lookup name tools)

&&-both : {a b : Bool} → a ≡ true → b ≡ true → (a && b) ≡ true
&&-both h g = rw h g

all-implies :
    (p q : String → Bool) (names : List String)
    → ((n : String) → p n ≡ true → q n ≡ true)
    → all p names ≡ true
    → all q names ≡ true
all-implies p q [] h g = refl
all-implies p q (name ∷ names) h g = ground (
  arith,
  g,
  h name (&&-left (p name) (all p names) g),
  all-implies p q names h (&&-right (p name) (all p names) g),
)

all-both :
    (p q : String → Bool) (names : List String)
    → all p names ≡ true
    → all q names ≡ true
    → all (λ n. p n && q n) names ≡ true
all-both p q [] h g = refl
all-both p q (name ∷ names) h g = ground (
  arith,
  h,
  g,
  all-both p q names (&&-right (p name) (all p names) h) (&&-right (q name) (all q names) g),
)

all-true : (names : List String) → all (λ n. true) names ≡ true
all-true [] = refl
all-true (name ∷ names) = all-true names

within-all :
    (p : String → Bool) (scope : Option (List String)) (names : List String)
    → all p names ≡ true
    → all (λ n. p n && is_in_scope scope n) (within scope names) ≡ true
unfolding within
within-all p none names h = all-both p (λ n. true) names h (all-true names)
within-all p (some scope) [] h = refl
within-all p (some scope) (name ∷ names) h =
    let rest = within-all p (some scope) names (&&-right (p name) (all p names) h) in
    elim (Bool-cases (contains scope name)) [
      | inl e ↦ rw e (&&-both (&&-both (&&-left (p name) (all p names) h) e) rest)
      | inr e ↦ rw e rest
    ]

safe_names-has_safe : (tools : ToolRegistry) → all (has_safe tools) (safe_names tools) ≡ true
unfolding safe_names
safe_names-has_safe [] = refl
safe_names-has_safe ((key, tool) ∷ tools) =
    let rest =
      all-implies (has_safe tools) (has_safe ((key, tool) ∷ tools)) (safe_names tools)
        (λ n e. ground (arith, e)) (safe_names-has_safe tools) in
    elim (Bool-cases (is_safe tool)) [
      | inl e ↦ rw e (ground (arith, e, rest, eq_refl key))
      | inr e ↦ rw e rest
    ]

contains-distinct_from :
    (seen names : List String) → all (contains names) (distinct_from seen names) ≡ true
unfolding distinct_from
contains-distinct_from seen [] = refl
contains-distinct_from seen (name ∷ names) = elim (Bool-cases (contains seen name)) [
  | inl e ↦ rw e (
      all-implies (contains names) (contains (name ∷ names)) (distinct_from seen names)
        (λ n g. ground (arith, g)) (contains-distinct_from seen names))
  | inr e ↦ rw e (
      ground (
        arith,
        eq_refl name,
        all-implies (contains names) (contains (name ∷ names)) (distinct_from (name ∷ seen) names)
            (λ n g. ground (arith, g)) (contains-distinct_from (name ∷ seen) names),
      ))
]

lookup-unknown_names :
    (tools : ToolRegistry) (names : List String)
    → unknown_names tools names ≡ []
    → all (λ n. is_some (lookup n tools)) names ≡ true
unfolding unknown_names
lookup-unknown_names tools [] = λ h. refl
lookup-unknown_names tools (name ∷ names) = elim (Bool-cases (is_some (lookup name tools))) [
  | inl e ↦ rw e (lookup-unknown_names tools names)
  | inr e ↦ rw e (λ h. cc h)
]

checked-ok :
    (requested unknown names : List String)
    → checked requested unknown ≡ ok names
    → (unknown ≡ []) × (requested ≡ names)
unfolding checked
checked-ok requested [] names h = (refl, ok_injective requested names h)
checked-ok requested (x ∷ xs) names h = cc

requested_tools-granted :
    (tools : ToolRegistry) (requested names : List String)
    → requested_tools tools requested ≡ ok names
    → all (is_granted tools requested) names ≡ true
unfolding requested_tools is_granted
requested_tools-granted tools [] names h =
    ok-holds (λ r. all (is_granted tools []) r ≡ true) (safe_names-has_safe tools) h
requested_tools-granted tools (x ∷ xs) names h =
    let requested = distinct_from [] (x ∷ xs) in
    let k = checked-ok requested (unknown_names tools requested) names h in
    subst (λ r. all (is_granted tools (x ∷ xs)) r ≡ true) k.1
      (all-both (contains (x ∷ xs)) (λ n. is_some (lookup n tools)) requested
        (contains-distinct_from [] (x ∷ xs)) (lookup-unknown_names tools requested k.0))

-- Whatever tools a child gets, each is in its parent's scope, where the parent has one, and is either one of the
-- requested tools and registered or, where none is requested, a registered tool that runs directly, only
-- reads and needs no permission.
pub resolve_allowed_tools-scope :
    (parent : State) (request : SubagentRequest) (tools : ToolRegistry) (names : List String)
    → resolve_allowed_tools parent request tools ≡ ok names
    → all
        (λ n.
          is_granted tools request.allowed_tools n
          && is_in_scope (parent_scope (lookup "allowed_tools_override" parent.metadata)) n)
        names
      ≡ true
unfolding resolve_allowed_tools
resolve_allowed_tools-scope parent request tools names h =
    let scope = parent_scope (lookup "allowed_tools_override" parent.metadata) in
    let found = >>=-inverts (requested_tools tools request.allowed_tools) _ names h in
    ok-holds
      (λ r. all (λ n. is_granted tools request.allowed_tools n && is_in_scope scope n) r ≡ true)
      (within-all (is_granted tools request.allowed_tools) scope found.0
        (requested_tools-granted tools request.allowed_tools found.0 found.1))
      found.2
