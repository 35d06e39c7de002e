-- ===== src/Hooks/Service.antt =====
-- services/hook_service.py and `run_hook_point` of graph/hooks.py: running the hooks of a lifecycle point.
-- The service is the one that dependencies.py builds, with `crash_on_error` off. Handlers are plugin
-- code, and pydantic's validation of a hook's metadata and the text of an exception are parameters. The
-- context given to hooks leaves out the working directory, the active command and the counts of tools.
pub mod Laws
mod Tests
use langraph_agent_blueprint.Prelude.{
  ℕ, String, ◌<>◌, Bool, true, false, ◌||◌, ◌&&◌, not, Option, none, some, List, [], ◌∷◌, ◌++◌,
  is_some, length, map, if◌then◌else◌, ◌==◌,
}
use langraph_agent_blueprint.Prelude.Dict.{Dict, lookup, insert}
use langraph_agent_blueprint.Prelude.Result.{Result, ok, raise, Error, ◌>>=◌}
use langraph_agent_blueprint.Hooks.{
  HookPoint, HookAction, HookSeverity, HookContribution, HookResult, HookRegistry,
  HookRuntimeMetadata, continue, add_event, add_system_context, modify_context, modify_metadata,
  block, request_permission, failed, info, warning, critical, get_for_point, point_name,
  action_name, severity_name,
}
use langraph_agent_blueprint.Hooks.Applier.{apply_hook_results}
use langraph_agent_blueprint.Permission.Redact.{PermissionRequest}
use langraph_agent_blueprint.State.{State, Update, empty_update, Event, event}
use langraph_agent_blueprint.State.Updates.{merge_updates}
use langraph_agent_blueprint.Value.{
  Value, null, bool, num, str, arr, obj, Fields, end, fields_of, is_set,
}

pub record HookContext : Type 0 where
  pub session_id : String
  pub thread_id : String
  pub project_root : String
  pub hook_point : HookPoint
  pub input_text : String
  pub active_tool : Option Value
  pub active_skill : Option (Dict Value)
  pub permission_request : Option PermissionRequest
  pub metadata : Dict Value

pub record HookInvocation : Type 0 where
  pub hook : HookContribution
  pub context : HookContext

-- What a handler returns: nothing, one result or a list of them.
pub data HandlerOutput : Type 0 where
  nothing : HandlerOutput
  one : HookResult → HandlerOutput
  many : List HookResult → HandlerOutput

abbrev pub Handler : Type 0
Handler = HookInvocation → Result HandlerOutput

pub record HookRunSummary : Type 0 where
  pub results : List HookResult
  pub events : List Event

abbrev pub plugin_allowed_action : HookAction → Bool
plugin_allowed_action continue = true
plugin_allowed_action add_event = true
plugin_allowed_action add_system_context = true
plugin_allowed_action modify_metadata = true
plugin_allowed_action block = true
plugin_allowed_action _ = false

abbrev optional_text : Option String → Value
optional_text none = null
optional_text (some s) = str s

abbrev text_field : String → Option String → Dict Value
text_field k none = []
text_field k (some s) = (k, str s) ∷ []

abbrev dict_field : String → Dict Value → Dict Value
dict_field k [] = []
dict_field k (e ∷ d) = (k, obj (fields_of (e ∷ d))) ∷ []

abbrev pub has_text : Option String → Bool
has_text none = false
has_text (some s) = not (s == "")

-- `_normalize_result`
unfoldable pub normalize_result : HookContribution → HookResult → HookResult
normalize_result hook result = record result {
  hook_id = hook.id;
  hook_point = hook.hook_point;
  fields =
      if has_text hook.plugin_name && not (is_some (lookup "plugin_name" result.fields))
      then insert "plugin_name" (optional_text hook.plugin_name) result.fields
      else result.fields;
}

abbrev pub declarative_fields : HookContribution → HookRuntimeMetadata → Dict Value
declarative_fields hook runtime =
    ("plugin_name", optional_text hook.plugin_name) ∷ text_field "content" runtime.content
    ++ text_field "event_type" runtime.event_type
    ++ dict_field "event_data" runtime.event_data
    ++ dict_field "metadata" runtime.metadata_update
    ++ dict_field "context" runtime.context_update

abbrev pub forbidden : HookContribution → HookPoint → HookAction → HookResult
forbidden hook point action = record {
  hook_id = hook.id;
  hook_point = point;
  action = failed;
  fields = [];
  message =
      some ("Hook action " <> action_name action <> " is not allowed for untrusted plugin hooks.");
  severity = warning;
}

abbrev pub plain : HookContribution → HookPoint → HookResult
plain hook point = record {
  hook_id = hook.id;
  hook_point = point;
  action = continue;
  fields = [];
  message = none;
  severity = info;
}

abbrev pub error_result : HookContribution → String → HookResult
error_result hook message = record {
  hook_id = hook.id;
  hook_point = hook.hook_point;
  action = failed;
  fields = [];
  message = some message;
  severity = critical;
}

abbrev hook_fields : HookContribution → Dict Value
hook_fields hook =
    ("hook_id", str hook.id)
    ∷ ("hook_point", str (point_name hook.hook_point))
    ∷ ("plugin_name", optional_text hook.plugin_name)
    ∷ []

abbrev pub started_event : HookContribution → Event
started_event hook = event "hook_started" (hook_fields hook)

abbrev pub finished_event : HookContribution → HookResult → Event
finished_event hook result = event "hook_finished" (
    hook_fields hook
    ++ ("action", str (action_name result.action))
      ∷ ("severity", str (severity_name result.severity))
      ∷ ("message", optional_text result.message)
      ∷ [])

abbrev pub error_event : HookContribution → String → Event
error_event hook message =
    event "hook_error" (hook_fields hook ++ ("error", str message) ∷ ("severity", str "error") ∷ [])

-- The metadata of a hook that `_runtime_metadata` validates.
abbrev pub raw_metadata : HookContribution → Value
raw_metadata hook = elim (lookup "runtime" hook.metadata) [
  | none ↦ obj (fields_of hook.metadata)
  | some null ↦ obj (fields_of hook.metadata)
  | some v ↦ if is_set (some v) then v else obj end
]

abbrev pub declarative_result : HookInvocation → HookRuntimeMetadata → HookResult
declarative_result i runtime =
    if not i.hook.trusted && not (plugin_allowed_action runtime.action)
    then forbidden i.hook i.context.hook_point runtime.action
    else record {
      hook_id = i.hook.id;
      hook_point = i.context.hook_point;
      action = runtime.action;
      fields = declarative_fields i.hook runtime;
      message = runtime.block_reason;
      severity = info;
    }

pub record HookService : Type 0 where
  pub registry : HookRegistry
  pub handlers : Dict Handler
  pub validate : Value → Result HookRuntimeMetadata
  pub error_text : Error → String

module _ (service : HookService) where
  unfoldable pub run_declarative : HookInvocation → Result HookResult
  run_declarative i = do
    runtime ← service.validate (raw_metadata i.hook)
    ok (declarative_result i runtime)

  unfoldable pub normalized : HookInvocation → HandlerOutput → List HookResult
  unfolding normalize_result
  normalized i nothing = plain i.hook i.context.hook_point ∷ []
  normalized i (one r) = normalize_result i.hook r ∷ []
  normalized i (many rs) = map (normalize_result i.hook) rs

  unfoldable pub invoke : HookInvocation → Result (List HookResult)
  unfolding run_declarative normalized
  invoke i = elim (lookup i.hook.id service.handlers) [
    | none ↦ do result ← run_declarative i; ok (normalized i (one result))
    | some handler ↦ do output ← handler i; ok (normalized i output)
  ]

  -- One round of the loop of `run`.
  abbrev pub round : HookContribution → Result (List HookResult) → HookRunSummary
  round hook (ok results) = record {
    results = results;
    events = started_event hook ∷ map (finished_event hook) results;
  }
  round hook (raise e) = record {
    results = error_result hook (service.error_text e) ∷ [];
    events = started_event hook ∷ error_event hook (service.error_text e) ∷ [];
  }

  unfoldable pub run_hooks : HookContext → List HookContribution → HookRunSummary
  unfolding invoke
  run_hooks context [] = record { results = []; events = [] }
  run_hooks context (hook ∷ hooks) =
      let first = round hook (invoke (record { hook = hook; context = context })) in
      let rest = run_hooks context hooks in
      record { results = first.results ++ rest.results; events = first.events ++ rest.events }

  unfoldable pub run : HookContext → HookRunSummary
  unfolding run_hooks get_for_point
  run context = run_hooks context (get_for_point service.registry context.hook_point false)

-- The keyword arguments of `run_hook_point`.
pub record Overrides : Type 0 where
  pub active_tool : Option Value
  pub permission_request : Option PermissionRequest
  pub metadata : Dict Value

abbrev pub context_of : State → HookPoint → Overrides → HookContext
context_of s point overrides = record {
  session_id = if s.session_id == "" then "unknown" else s.session_id;
  thread_id = s.thread_id;
  project_root = s.project_root;
  hook_point = point;
  input_text = s.input_text;
  active_tool = overrides.active_tool;
  active_skill = s.active_skill;
  permission_request = overrides.permission_request;
  metadata = overrides.metadata;
}

-- The keys that `run_hook_point` adds to those of the results.
abbrev pub point_base : State → HookPoint → HookRunSummary → Update
point_base s point summary = record empty_update {
  hooks_state = some (
      insert "last_hook_count" (num (length summary.results))
        (insert "last_hook_point" (str (point_name point)) s.hooks_state));
  ui_events = summary.events;
}

unfoldable pub run_hook_point :
    HookService → (Value → String) → State → HookPoint → Overrides → Update
unfolding run apply_hook_results merge_updates
run_hook_point service show s point overrides =
    let summary = run service (context_of s point overrides) in
    merge_updates (point_base s point summary ∷ apply_hook_results show s summary.results ∷ [])
