-- ===== src/Permission.antt =====
-- services/permission_service.py, with the types of models/permissions.py and models/tool_metadata.py:
-- the policy that decides whether a tool call may run, must be approved, or is denied.
pub mod Redact
pub mod Laws
mod Tests
use langraph_agent_blueprint.Prelude.{
  String, ◌<>◌, Bool, true, false, not, ◌&&◌, ◌||◌, Option, none, some, List, [], if◌then◌else◌,
  ◌==◌,
}
use langraph_agent_blueprint.Value.{Value, str}

pub data PermissionMode : Type 0 where
  default accept_edits bypass_read_only plan strict : PermissionMode

pub data PermissionAction : Type 0 where
  read write edit shell network memory config todo skill agent diagnostics mcp plugin unknown :
      PermissionAction

pub data PermissionRisk : Type 0 where
  low medium high : PermissionRisk

pub data PermissionPolicy : Type 0 where
  allow ask deny : PermissionPolicy

pub record PermissionCheck : Type 0 where
  pub decision : PermissionPolicy
  pub reason : String

pub record ToolPermissionMetadata : Type 0 where
  pub action : PermissionAction
  pub risk : PermissionRisk
  pub is_read_only : Bool
  pub requires_permission : Bool
  pub reason : Option String
  pub allowed_in_plan_mode : Bool
  pub requires_network : Bool
  pub external : Bool
  pub sensitive_arg_keys : List String

-- `_tool_permission`: a tool with no permission metadata is treated as a high risk.
unfoldable pub tool_permission : Option ToolPermissionMetadata → ToolPermissionMetadata
tool_permission (some permission) = permission
tool_permission none = record {
  action = unknown;
  risk = high;
  is_read_only = false;
  requires_permission = true;
  reason = some "Unknown tool permission metadata requires approval.";
  allowed_in_plan_mode = false;
  requires_network = false;
  external = true;
  sensitive_arg_keys = [];
}

-- `requested in get_args(PermissionMode)`
abbrev parse_mode : String → Option PermissionMode
parse_mode s =
    if s == "default"
    then some default
    else if s == "accept_edits"
    then some accept_edits
    else if s == "bypass_read_only"
    then some bypass_read_only
    else if s == "plan"
    then some plan
    else if s == "strict"
    then some strict
    else none

-- `_effective_permission_mode`: the mode that the run's metadata requests, if it is one.
abbrev requested_mode : Option Value → Option PermissionMode
requested_mode (some (str s)) = parse_mode s
requested_mode _ = none

unfoldable pub effective_permission_mode : Option Value → PermissionMode → PermissionMode
effective_permission_mode requested fallback = elim (requested_mode requested) [
  | none ↦ fallback
  | some mode ↦ mode
]

abbrev pub is_edit : PermissionAction → Bool
is_edit write = true
is_edit edit = true
is_edit _ = false

-- `reason or text`
abbrev pub reason_or : Option String → String → String
reason_or none text = text
reason_or (some reason) text = if reason == "" then text else reason

abbrev check : PermissionPolicy → String → PermissionCheck
check decision reason = record { decision = decision; reason = reason }

-- The tests after plan mode, in the order of the source.
unfoldable pub decide_mode : String → ToolPermissionMetadata → PermissionMode → PermissionCheck
decide_mode name p bypass_read_only =
    check allow "bypass_read_only allows tool side effects for this run"
decide_mode name p strict =
    if p.requires_permission
    then check ask (reason_or p.reason "strict mode requires approval")
    else check allow "tool allowed by policy"
decide_mode name p accept_edits =
    if is_edit p.action
    then check allow "accept_edits allows file edits"
    else if p.requires_permission
    then check ask (reason_or p.reason (name <> " requires approval"))
    else if p.is_read_only
    then check allow "read-only tool allowed"
    else check allow "tool allowed by policy"
decide_mode name p default =
    if p.requires_permission
    then check ask (reason_or p.reason (name <> " requires approval"))
    else if p.is_read_only
    then check allow "read-only tool allowed"
    else check allow "tool allowed by policy"
decide_mode name p plan =
    if p.requires_permission
    then check ask (reason_or p.reason (name <> " requires approval"))
    else check allow "tool allowed by policy"

-- `PermissionService(mode).decide(tool, state, args)`. Of the tool it reads the name and the
-- permission metadata, of the state `plan_mode["enabled"]` and `metadata["permission_mode"]`.
unfoldable pub decide :
    PermissionMode → String → Option ToolPermissionMetadata → Bool → Option Value → PermissionCheck
unfolding tool_permission effective_permission_mode decide_mode
decide fallback name permission plan_enabled requested =
    let p = tool_permission permission in
    if plan_enabled && not p.is_read_only && not p.allowed_in_plan_mode
    then check ask "plan mode blocks side effects until approval"
    else decide_mode name p (effective_permission_mode requested fallback)
