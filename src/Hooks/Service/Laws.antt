-- ===== src/Hooks/Service/Laws.antt =====
-- What plugin hooks without a trusted handler may ask for.
use langraph_agent_blueprint.Prelude.{
  ◌≡◌, refl, Bool, true, false, ◌||◌, none, List, [], ◌∷◌, all, All, all-append, arith,
}
use langraph_agent_blueprint.Prelude.Dict.{lookup}
use langraph_agent_blueprint.Prelude.Result.{Result, ok, raise, ◌>>=◌, >>=-assoc}
use langraph_agent_blueprint.Hooks.{
  HookAction, HookContribution, HookResult, failed, HookRuntimeMetadata,
}
use langraph_agent_blueprint.Hooks.Service.{
  HookService, HookContext, HookInvocation, plugin_allowed_action, normalize_result,
  run_declarative, declarative_result, raw_metadata, invoke, run_hooks, normalized, round,
}

abbrev is_failed : HookAction → Bool
is_failed failed = true
is_failed _ = false

-- An action that a plugin may cause: one it is allowed, or the error that reports a failure.
abbrev pub is_contained : HookResult → Bool
is_contained r = plugin_allowed_action r.action || is_failed r.action

module _ (service : HookService) where
  -- A plugin's hook: data only, and not trusted.
  abbrev pub IsDeclarative : HookContribution → Type 0
  IsDeclarative hook = (lookup hook.id service.handlers ≡ none) × (hook.trusted ≡ false)

  declarative_result-contained :
      (i : HookInvocation) (runtime : HookRuntimeMetadata)
      → i.hook.trusted ≡ false
      → is_contained (normalize_result i.hook (declarative_result i runtime)) ≡ true
  unfolding normalize_result
  declarative_result-contained i runtime t = ground (arith, t)

  invoke-declarative :
      (i : HookInvocation)
      → lookup i.hook.id service.handlers ≡ none
      → invoke service i ≡ (
          service.validate (raw_metadata i.hook) >>= λ runtime.
          ok (normalize_result i.hook (declarative_result i runtime) ∷ []))
  unfolding invoke run_declarative normalized
  invoke-declarative i h =
      rw (invoke, run_declarative, h) (>>=-assoc (service.validate (raw_metadata i.hook)) _ _)

  round-contained :
      (hook : HookContribution) (m : Result HookRuntimeMetadata) (i : HookInvocation)
      → i.hook.trusted ≡ false
      → all is_contained
          (round service hook (
            m >>= λ runtime.
            ok (normalize_result i.hook (declarative_result i runtime) ∷ []))).results
        ≡ true
  round-contained hook (ok runtime) i t = ground (arith, declarative_result-contained i runtime t)
  round-contained hook (raise e) i t = refl

  -- Whatever metadata plugins ship, hooks that have no handler and are not trusted only ever return the
  -- five actions that plugins are allowed, or an error.
  pub run_hooks-contained :
      (context : HookContext) (hooks : List HookContribution)
      → All IsDeclarative hooks
      → all is_contained (run_hooks service context hooks).results ≡ true
  unfolding run_hooks
  run_hooks-contained context [] h = refl
  run_hooks-contained context (hook ∷ hooks) h =
      let i : HookInvocation = record { hook = hook; context = context } in
      rw all-append (
        rw (invoke-declarative i h.0.0) (
          ground (
            arith,
            round-contained hook (service.validate (raw_metadata hook)) i h.0.1,
            run_hooks-contained context hooks h.1,
          )))
