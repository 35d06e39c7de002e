-- ===== src/Permission/Laws.antt =====
-- When the policy asks for approval.
use langraph_agent_blueprint.Prelude.{
  String, ◌≡◌, Bool, true, false, Option, not, ◌&&◌, ◌||◌, arith, if◌then◌else◌,
}
use langraph_agent_blueprint.Permission.{
  PermissionMode, default, accept_edits, bypass_read_only, plan, strict, PermissionAction, is_edit,
  allow, ask, ToolPermissionMetadata, tool_permission, effective_permission_mode, decide_mode,
  decide,
}
use langraph_agent_blueprint.Value.{Value}

-- Whether a mode waives the approval that a tool requires.
abbrev pub waives : PermissionMode → PermissionAction → Bool
waives bypass_read_only action = true
waives accept_edits action = is_edit action
waives default action = false
waives plan action = false
waives strict action = false

decide_mode_policy :
    (name : String) (p : ToolPermissionMetadata) (mode : PermissionMode)
    → (decide_mode name p mode).decision
      ≡ (if p.requires_permission && not (waives mode p.action) then ask else allow)
unfolding decide_mode
decide_mode_policy name p bypass_read_only = ground arith
decide_mode_policy name p strict = ground arith
decide_mode_policy name p accept_edits = ground arith
decide_mode_policy name p default = ground arith
decide_mode_policy name p plan = ground arith

module _ (fallback : PermissionMode) (name : String) (permission : Option ToolPermissionMetadata)
    (plan_enabled : Bool) (requested : Option Value) where
  -- The policy in one line: approval is asked for exactly when plan mode is on and the tool is
  -- neither read-only nor allowed in plan mode, or when the tool requires permission and the
  -- effective mode does not waive it. Every other call is allowed, also in the permission mode plan, and none
  -- is denied.
  pub decide_policy : (decide fallback name permission plan_enabled requested).decision ≡ (
      let p = tool_permission permission in
      let mode = effective_permission_mode requested fallback in
      if (plan_enabled && not p.is_read_only && not p.allowed_in_plan_mode)
        || (p.requires_permission && not (waives mode p.action))
      then ask
      else allow)
  unfolding decide
  decide_policy = ground (
    arith,
    decide_mode_policy name (tool_permission permission)
        (effective_permission_mode requested fallback),
  )
