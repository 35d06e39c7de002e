-- ===== src/Hooks.antt =====
-- models/hooks.py and hooks/registry.py: hook contributions, their results, and the registry of them.
-- A priority is a natural number; `group_by_plugin` and `snapshot` only render the registry.
pub mod Registry
pub mod Applier
pub mod Service
use langraph_agent_blueprint.Prelude.{
  ℕ, String, ◌<>◌, Bool, true, false, ◌||◌, ◌&&◌, Option, none, some, List, [], ◌∷◌, is_some, ltb,
  eqb, if◌then◌else◌,
}
use langraph_agent_blueprint.Prelude.Dict.{Dict, lookup, insert, values}
use langraph_agent_blueprint.Prelude.Result.{Result, ok, raise, value_error, key_error, ◌>>=◌}
use langraph_agent_blueprint.Prelude.Sort.{sorted, text_le}
use langraph_agent_blueprint.Value.{Value}

pub data HookPoint : Type 0 where
  session_start session_end user_prompt pre_context_build post_context_build pre_model post_model
        pre_tool post_tool permission_request permission_resolved pre_skill post_skill pre_compact
        post_compact error :
      HookPoint

pub HookPoint-discrete : Discrete HookPoint
HookPoint-discrete = hlevel

abbrev pub same_point : HookPoint → HookPoint → Bool
same_point p q = elim (HookPoint-discrete p q) [ yes e ↦ true | no e ↦ false ]

pub data HookAction : Type 0 where
  continue add_event add_system_context modify_context modify_metadata block request_permission
        failed :
      HookAction

pub data HookSeverity : Type 0 where
  info warning critical : HookSeverity

-- The texts of the literals, as they stand in event data.
abbrev pub point_name : HookPoint → String
point_name session_start = "session_start"
point_name session_end = "session_end"
point_name user_prompt = "user_prompt"
point_name pre_context_build = "pre_context_build"
point_name post_context_build = "post_context_build"
point_name pre_model = "pre_model"
point_name post_model = "post_model"
point_name pre_tool = "pre_tool"
point_name post_tool = "post_tool"
point_name permission_request = "permission_request"
point_name permission_resolved = "permission_resolved"
point_name pre_skill = "pre_skill"
point_name post_skill = "post_skill"
point_name pre_compact = "pre_compact"
point_name post_compact = "post_compact"
point_name error = "error"

abbrev pub action_name : HookAction → String
action_name continue = "continue"
action_name add_event = "add_event"
action_name add_system_context = "add_system_context"
action_name modify_context = "modify_context"
action_name modify_metadata = "modify_metadata"
action_name block = "block"
action_name request_permission = "request_permission"
action_name failed = "error"

abbrev pub severity_name : HookSeverity → String
severity_name info = "info"
severity_name warning = "warning"
severity_name critical = "error"

pub record HookRuntimeMetadata : Type 0 where
  pub action : HookAction
  pub content : Option String
  pub event_type : Option String
  pub event_data : Dict Value
  pub metadata_update : Dict Value
  pub context_update : Dict Value
  pub block_reason : Option String

pub record HookContribution : Type 0 where
  pub id : String
  pub plugin_name : Option String
  pub hook_point : HookPoint
  pub enabled : Bool
  pub priority : ℕ
  pub trusted : Bool
  pub metadata : Dict Value

pub record HookResult : Type 0 where
  pub hook_id : String
  pub hook_point : HookPoint
  pub action : HookAction
  pub fields : Dict Value
  pub message : Option String
  pub severity : HookSeverity

abbrev pub HookRegistry : Type 0
HookRegistry = Dict HookContribution

unfoldable pub register : HookRegistry → HookContribution → Bool → Result HookRegistry
register hooks contribution replace =
    if is_some (lookup contribution.id hooks) && (if replace then false else true)
    then raise (value_error ("Duplicate hook id: " <> contribution.id))
    else ok (insert contribution.id contribution hooks)

unfoldable pub get : HookRegistry → String → Result HookContribution
get hooks hook_id = elim (lookup hook_id hooks) [
  | none ↦ raise (key_error ("Unknown hook: " <> hook_id))
  | some hook ↦ ok hook
]

unfoldable pub set_enabled : HookRegistry → String → Bool → Result HookRegistry
unfolding get
set_enabled hooks hook_id enabled = do
  current ← get hooks hook_id
  ok (insert hook_id (record current { enabled = enabled }) hooks)

-- The order of `(hook.priority, hook.id)`.
abbrev pub hook_le : HookContribution → HookContribution → Bool
hook_le a b = ltb a.priority b.priority || (eqb a.priority b.priority && text_le a.id b.id)

-- `[hook for hook in hooks if test]`
unfoldable pub filter_hooks :
    (HookContribution → Bool) → List HookContribution → List HookContribution
filter_hooks test [] = []
filter_hooks test (h ∷ hs) = let rest = filter_hooks test hs in if test h then h ∷ rest else rest

unfoldable pub get_for_point : HookRegistry → HookPoint → Bool → List HookContribution
unfolding filter_hooks sorted
get_for_point hooks point include_disabled =
    let at_point = filter_hooks (λ h. same_point h.hook_point point) (values hooks) in
    sorted hook_le (if include_disabled then at_point else filter_hooks (λ h. h.enabled) at_point)

unfoldable pub list_hooks : HookRegistry → Bool → List HookContribution
unfolding filter_hooks sorted
list_hooks hooks include_disabled =
    sorted hook_le
      (if include_disabled then values hooks else filter_hooks (λ h. h.enabled) (values hooks))
