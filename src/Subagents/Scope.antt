-- ===== src/Subagents/Scope.antt =====
-- services/agent_service.py: the identity, the state and the tools of a child. The keys that the modelled state
-- does not have (memory, the resolved context and its budget, the workspace) are left out.
pub mod Laws
use langraph_agent_blueprint.Prelude.{
  ℕ, suc, String, ◌<>◌, Bool, true, false, not, ◌&&◌, Option, none, some, List, [], ◌∷◌, contains,
  is_some, if◌then◌else◌, ◌==◌,
}
use langraph_agent_blueprint.Prelude.Dict.{Dict, lookup, insert}
use langraph_agent_blueprint.Prelude.Sort.{sorted, text_le}
use langraph_agent_blueprint.Prelude.Result.{Result, ok, raise, value_error, ◌>>=◌}
use langraph_agent_blueprint.Ids.{validate_runtime_id, validate_session_id, validate_thread_id}
use langraph_agent_blueprint.Permission.{ToolPermissionMetadata}
use langraph_agent_blueprint.State.{State}
use langraph_agent_blueprint.Subagents.{SubagentRequest, ChildRunMetadata, running, FreshIds}
use langraph_agent_blueprint.Text.{take_text}
use langraph_agent_blueprint.Tools.{Tool, ToolRegistry, ToolRoute, execute}
use langraph_agent_blueprint.Value.{
  Value, Items, null, bool, num, str, arr, nil, cons, items, texts, is_set, value_or, dict_or_empty,
}

-- `list(dict.fromkeys(names))`, from the names seen so far.
unfoldable pub distinct_from : List String → List String → List String
distinct_from seen [] = []
distinct_from seen (name ∷ names) =
    let rest = distinct_from seen names in
    let further = distinct_from (name ∷ seen) names in
    if contains seen name then rest else name ∷ further

-- The names of no registered tool.
unfoldable pub unknown_names : ToolRegistry → List String → List String
unfolding lookup
unknown_names tools [] = []
unknown_names tools (name ∷ names) =
    let rest = unknown_names tools names in
    if is_some (lookup name tools) then rest else name ∷ rest

abbrev executes : ToolRoute → Bool
executes execute = true
executes _ = false

abbrev is_safe_permission : Option ToolPermissionMetadata → Bool
is_safe_permission none = false
is_safe_permission (some p) = p.is_read_only && not p.requires_permission

-- A tool that a child may have without asking for it.
abbrev pub is_safe : Tool → Bool
is_safe tool = executes tool.route && is_safe_permission tool.permission

unfoldable pub safe_names : ToolRegistry → List String
safe_names [] = []
safe_names ((name, tool) ∷ tools) =
    let rest = safe_names tools in if is_safe tool then name ∷ rest else rest

abbrev joined : List String → String
joined [] = ""
joined (name ∷ []) = name
joined (name ∷ names) = name <> ", " <> joined names

-- The names that the parent's scope allows, where it has one.
abbrev pub parent_scope : Option Value → Option (List String)
parent_scope (some (arr (cons x xs))) = some (texts (cons x xs))
parent_scope _ = none

unfoldable pub within : Option (List String) → List String → List String
within none names = names
within (some scope) [] = []
within (some scope) (name ∷ names) =
    let rest = within (some scope) names in if contains scope name then name ∷ rest else rest

-- The requested names, where none of them is unknown.
unfoldable pub checked : List String → List String → Result (List String)
unfolding sorted
checked requested [] = ok requested
checked requested (x ∷ xs) =
    raise (value_error ("Unknown subagent allowed_tools: " <> joined (sorted text_le (x ∷ xs))))

unfoldable pub requested_tools : ToolRegistry → List String → Result (List String)
unfolding distinct_from unknown_names checked safe_names
requested_tools tools [] = ok (safe_names tools)
requested_tools tools (name ∷ names) =
    let requested = distinct_from [] (name ∷ names) in
    checked requested (unknown_names tools requested)

unfoldable pub resolve_allowed_tools : State → SubagentRequest → ToolRegistry → Result (List String)
unfolding requested_tools within
resolve_allowed_tools parent request tools = do
  names ← requested_tools tools request.allowed_tools
  ok (within (parent_scope (lookup "allowed_tools_override" parent.metadata)) names)

abbrev or_unknown : String → String
or_unknown text = if text == "" then "unknown" else text

abbrev pub optional_text : Option String → Value
optional_text none = null
optional_text (some text) = str text

unfoldable pub create_child_metadata : State → SubagentRequest → FreshIds → Result ChildRunMetadata
unfolding validate_runtime_id validate_session_id validate_thread_id
create_child_metadata parent request ids = do
  child ← validate_runtime_id ids.child "child_run_id"
  parent_session ← validate_session_id (or_unknown parent.session_id)
  parent_thread ← validate_thread_id (or_unknown parent.thread_id)
  session ← validate_session_id ids.session
  thread ← validate_thread_id ids.thread
  ok (record {
    child_run_id = child;
    parent_session_id = parent_session;
    parent_thread_id = parent_thread;
    child_session_id = session;
    child_thread_id = thread;
    name = request.name;
    purpose = request.purpose;
    status = running;
    metadata = ("requested_allowed_tools", arr (items request.allowed_tools)) ∷ [];
  })

-- `int(metadata.get("subagent_depth", 0))`, for a count.
abbrev pub depth_of : Option Value → ℕ
depth_of (some (num n)) = n
depth_of _ = 0

abbrev set_text : Value → Option String
set_text (str text) = if text == "" then none else some text
set_text _ = none

abbrev skill_name : Option (Dict Value) → Option String
skill_name none = none
skill_name (some skill) = elim (lookup "name" skill) [ none ↦ none | some v ↦ set_text v ]

abbrev with_skill : String → Option String → String
with_skill text none = text
with_skill text (some name) =
    if text == "" then "Active skill: " <> name else text <> "\nActive skill: " <> name

-- `_parent_context_summary`; the name of a skill is a text.
unfoldable pub parent_context_summary : State → String
parent_context_summary parent =
    with_skill
      (if parent.input_text == ""
        then ""
        else "Parent request: " <> take_text 500 parent.input_text)
      (skill_name parent.active_skill)

abbrev scope_or_none : List String → List String
scope_or_none [] = "__no_tools__" ∷ []
scope_or_none (name ∷ names) = name ∷ names

unfoldable pub child_metadata :
    State → SubagentRequest → ChildRunMetadata → List String → Dict Value
unfolding parent_context_summary
child_metadata parent request m allowed =
    ("is_subagent", bool true)
    ∷ ("streaming_enabled", bool (is_set (lookup "streaming_enabled" parent.metadata)))
    ∷ ("permission_mode", value_or null (lookup "permission_mode" parent.metadata))
    ∷ ("subagent_depth", num (suc (depth_of (lookup "subagent_depth" parent.metadata))))
    ∷ ("child_run_id", str m.child_run_id)
    ∷ ("parent_session_id", str m.parent_session_id)
    ∷ ("parent_thread_id", str m.parent_thread_id)
    ∷ ("subagent_name", optional_text request.name)
    ∷ ("subagent_purpose", optional_text request.purpose)
    ∷ ("allowed_tools_override", arr (items (scope_or_none allowed)))
    ∷ ("parent_context_summary", str (parent_context_summary parent))
    ∷ []

abbrev copied : String → Dict Value → Dict Value → Dict Value
copied k from d = elim (lookup k from) [ none ↦ d | some v ↦ insert k v d ]

abbrev inherited_context : State → Dict Value
inherited_context parent = copied "context_errors" parent.context_status (
    copied "context_budget" parent.context_status (
      copied "context_provider_context" parent.context_status
        (copied "context_fragments" parent.context_status [])))

unfoldable pub flagged : Bool → Dict Value → Dict Value
unfolding insert
flagged false metadata = metadata
flagged true metadata = insert "context_inherited" (bool true) metadata

unfoldable pub create_child_state :
    State → SubagentRequest → ChildRunMetadata → ToolRegistry → Result State
unfolding resolve_allowed_tools child_metadata flagged insert
create_child_state parent request m tools = do
  allowed ← resolve_allowed_tools parent request tools
  let metadata = child_metadata parent request m allowed
  ok (record {
    session_id = m.child_session_id;
    thread_id = m.child_thread_id;
    project_root = parent.project_root;
    input_text = request.prompt;
    messages = [];
    pending_tool_calls = [];
    tool_results = [];
    pending_confirmation = none;
    pending_subagent_approval = none;
    permission_decisions = [];
    plan_mode = ("enabled", bool false) ∷ ("approved", bool false) ∷ [];
    available_tools = [];
    todos = if request.inherit_todos then parent.todos else nil;
    child_runs = [];
    active_skill = none;
    hooks_state = [];
    context_status = if request.inherit_context then inherited_context parent else [];
    usage = [];
    errors = [];
    ui_events = [];
    final_response = none;
    metadata = flagged request.inherit_context metadata;
  })
