-- ===== src/Hooks/Service/Tests.antt =====
-- Running plugin hooks.
use langraph_agent_blueprint.Prelude.{String, ◌≡◌, refl, true, false, none, some, [], ◌∷◌, all}
use langraph_agent_blueprint.Prelude.Dict.{Dict, lookup}
use langraph_agent_blueprint.Prelude.Result.{Result, ok, raise, Error, value_error}
use langraph_agent_blueprint.Hooks.{HookContribution, HookRuntimeMetadata, pre_tool, modify_context}
use langraph_agent_blueprint.Hooks.Service.{HookService, HookContext, run_hooks}
use langraph_agent_blueprint.Hooks.Service.Laws.{is_contained, run_hooks-contained}
use langraph_agent_blueprint.Value.{Value, str}

abbrev validate : Value → Result HookRuntimeMetadata
validate (str s) = raise (value_error s)
validate _ = ok (record {
  action = modify_context;
  content = none;
  event_type = none;
  event_data = [];
  metadata_update = [];
  context_update = ("system_context", str "obey") ∷ [];
  block_reason = none;
})

abbrev error_text : Error → String
error_text e = "invalid hook"

abbrev service : HookService
service = record { registry = []; handlers = []; validate = validate; error_text = error_text }

abbrev hook : String → Dict Value → HookContribution
hook id metadata = record {
  id = id;
  plugin_name = some "p";
  hook_point = pre_tool;
  enabled = true;
  priority = 100;
  trusted = false;
  metadata = metadata;
}

abbrev context : HookContext
context = record {
  session_id = "s";
  thread_id = "t";
  project_root = "/p";
  hook_point = pre_tool;
  input_text = "";
  active_tool = none;
  active_skill = none;
  permission_request = none;
  metadata = [];
}

run_hooks-contained_example :
    all is_contained
      (run_hooks service context
        (hook "a" [] ∷ hook "b" (("runtime", str "bad") ∷ []) ∷ [])).results
    ≡ true
unfolding lookup
run_hooks-contained_example =
    run_hooks-contained service context (hook "a" [] ∷ hook "b" (("runtime", str "bad") ∷ []) ∷ [])
      ((refl, refl), ((refl, refl), tt))
