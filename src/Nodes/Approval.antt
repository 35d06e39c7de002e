-- ===== src/Nodes/Approval.antt =====
-- What decides the route of a tool call: the policy, which hooks can only tighten.
use langraph_agent_blueprint.Prelude.{
  String, ◌≡◌, refl, ap, ◌∙◌, false, ◌||◌, Option, some, List, [], ◌∷◌, arith, if◌then◌else◌,
  Bool-cases, inl, inr,
}
use langraph_agent_blueprint.Prelude.Dict.{Dict, lookup, lookup-insert, lookup-remove}
use langraph_agent_blueprint.Prelude.Result.{Result, ok, raise}
use langraph_agent_blueprint.Hooks.Applier.Laws.{is_hook_key}
use langraph_agent_blueprint.Hooks.{permission_request, pre_tool}
use langraph_agent_blueprint.Nodes.{AppDependencies, run_point, cancellation_update}
use langraph_agent_blueprint.Nodes.Entries.{
  entry-merge_two, entry-merge_three, lookup-state_with_update, entry-run_point,
}
use langraph_agent_blueprint.Nodes.ToolRouter.{
  rejection, disallowed, execution_route, ask_update, ask_updates, deny_update, permitted,
  allow_update, check_of, route_tool, route_found, route_call, skill_update, unknown_update,
  blocked_update, disallowed_update, cancelled_route, pre_tool_update, pre_tool_overrides,
  route_calls, tool_router_node, ask_overrides,
}
use langraph_agent_blueprint.Permission.{PermissionPolicy, allow, ask, deny, decide}
use langraph_agent_blueprint.RunControl.{is_cancelled}
use langraph_agent_blueprint.State.{State, Update, ToolCall}
use langraph_agent_blueprint.State.Updates.{state_with_update, hook_blocked, entry}
use langraph_agent_blueprint.Tools.{
  Tool, ToolRoute, execute, skill_graph, agent_graph, mcp_graph, get,
}
use langraph_agent_blueprint.Value.{Value, str, is_set}

abbrev pub route_by_policy : PermissionPolicy → ToolRoute → String
route_by_policy allow route = execution_route route
route_by_policy ask route = "needs_permission"
route_by_policy deny route = "rejected"

abbrev pub route_by_tool : ToolRoute → PermissionPolicy → String
route_by_tool skill_graph policy = "skill_tool"
route_by_tool agent_graph policy = "agent_tool"
route_by_tool route policy = route_by_policy policy route

abbrev pub tool_route : Update → Option Value
tool_route u = entry "tool_route" u.metadata

module _ (deps : AppDependencies) (call : ToolCall) (pre : Update) (current : State) where
  entry-ask_update :
      (metadata : Dict Value) (tool : Tool) (reason : String)
      → tool_route (ask_update deps call metadata tool reason) ≡ some (str "needs_permission")
  unfolding ask_update
  entry-ask_update metadata tool reason = rw lookup-insert (rw lookup-insert refl)

  entry-deny_update :
      (metadata : Dict Value) (reason : String)
      → tool_route (deny_update deps call metadata reason) ≡ some (str "rejected")
  unfolding deny_update rejection
  entry-deny_update metadata reason = rw lookup-insert refl

  entry-allow_update :
      (metadata : Dict Value) (tool : Tool)
      → tool_route (allow_update deps call metadata tool) ≡ some (str (execution_route tool.route))
  entry-allow_update metadata tool = rw lookup-remove (rw lookup-insert refl)

  tool_route-ask_updates :
      (metadata : Dict Value) (tool : Tool) (reason : String)
      → tool_route (ask_updates deps call pre current metadata tool reason)
        ≡ some (str "needs_permission")
  unfolding ask_updates
  tool_route-ask_updates metadata tool reason =
      let update = ask_update deps call metadata tool reason in
      let seen = state_with_update current update in
      ground (
        arith,
        entry-merge_three "tool_route" pre update
            (run_point deps seen permission_request (ask_overrides deps call tool reason)),
        entry-run_point deps seen permission_request (ask_overrides deps call tool reason)
            "tool_route" (some (str "needs_permission")) refl,
        lookup-state_with_update "tool_route" current update,
        entry-ask_update metadata tool reason,
      )

  tool_route-permitted :
      (policy : PermissionPolicy) (reason : String) (metadata : Dict Value) (tool : Tool)
      → tool_route (permitted deps call policy reason pre current metadata tool)
        ≡ some (str (route_by_policy policy tool.route))
  unfolding permitted
  tool_route-permitted ask reason metadata tool = tool_route-ask_updates metadata tool reason
  tool_route-permitted deny reason metadata tool = ground (
    arith,
    entry-merge_two "tool_route" pre (deny_update deps call metadata reason),
    entry-deny_update metadata reason,
  )
  tool_route-permitted allow reason metadata tool = ground (
    arith,
    entry-merge_two "tool_route" pre (allow_update deps call metadata tool),
    entry-allow_update metadata tool,
  )

  tool_route-route_tool :
      (route : ToolRoute) (tool : Tool)
      → tool.route ≡ route
      → tool_route (route_tool deps call route pre current tool)
        ≡ some (str (route_by_tool route (check_of deps call current tool).decision))
  unfolding route_tool skill_update
  tool_route-route_tool skill_graph tool e = rw entry-merge_two (rw lookup-insert refl)
  tool_route-route_tool agent_graph tool e = rw entry-merge_two (rw lookup-insert refl)
  tool_route-route_tool execute tool e =
      let check = check_of deps call current tool in
      ground (arith, e, tool_route-permitted check.decision check.reason current.metadata tool)
  tool_route-route_tool mcp_graph tool e =
      let check = check_of deps call current tool in
      ground (arith, e, tool_route-permitted check.decision check.reason current.metadata tool)

-- The route that the policy gives a tool, in a state.
abbrev pub route_of_found : AppDependencies → ToolCall → State → Result Tool → String
route_of_found deps call s (ok tool) = route_by_tool tool.route (check_of deps call s tool).decision
route_of_found deps call s (raise e) = "error"

-- An independent description of the node's decision: it reads the state before any hook has run.
abbrev pub route_of_call : AppDependencies → State → ToolCall → String
route_of_call deps s call =
    if hook_blocked (pre_tool_update deps s call)
      || disallowed (lookup "allowed_tools_override" s.metadata) call.name
    then "rejected"
    else route_of_found deps call s (get deps.tool_execution.registry call.name)

abbrev pub route_of_calls : AppDependencies → State → List ToolCall → String
route_of_calls deps s [] = "no_tools"
route_of_calls deps s (call ∷ calls) = route_of_call deps s call

abbrev pub route_of : AppDependencies → State → String
route_of deps s =
    if is_set (lookup "runtime_cancelled" s.metadata)
      || is_cancelled deps.run_control (some s.thread_id)
    then "cancelled"
    else route_of_calls deps s s.pending_tool_calls

module _ (deps : AppDependencies) (s : State) (call : ToolCall) where
  -- Hooks leave an entry that is not theirs as it is.
  lookup-hooked :
      (k : String)
      → is_hook_key k ≡ false
      → lookup k (state_with_update s (pre_tool_update deps s call)).metadata ≡ lookup k s.metadata
  unfolding pre_tool_update
  lookup-hooked k n = ground (
    arith,
    lookup-state_with_update k s (pre_tool_update deps s call),
    entry-run_point deps s pre_tool (pre_tool_overrides call) k (lookup k s.metadata) n refl,
  )

  route_of_found-hooked :
      (m : Result Tool)
      → route_of_found deps call (state_with_update s (pre_tool_update deps s call)) m
        ≡ route_of_found deps call s m
  unfolding state_with_update decide
  route_of_found-hooked (ok tool) =
      ap
        (λ requested.
          route_by_tool tool.route
            (decide deps.permission_mode tool.name tool.permission
              (is_set (lookup "enabled" s.plan_mode)) requested).decision)
        (lookup-hooked "permission_mode" refl)
  route_of_found-hooked (raise e) = refl

  tool_route-route_found :
      (m : Result Tool) (current : State) (pre : Update)
      → tool_route (route_found deps call pre current m)
        ≡ some (str (route_of_found deps call current m))
  unfolding route_found unknown_update
  tool_route-route_found (ok tool) current pre =
      tool_route-route_tool deps call pre current tool.route tool refl
  tool_route-route_found (raise e) current pre = rw entry-merge_two (rw lookup-insert refl)

  tool_route-route_call :
      tool_route (route_call deps call s (pre_tool_update deps s call))
      ≡ some (str (route_of_call deps s call))
  unfolding route_call blocked_update disallowed_update rejection
  tool_route-route_call =
      let pre = pre_tool_update deps s call in
      let current = state_with_update s pre in
      let found = get deps.tool_execution.registry call.name in
      elim (Bool-cases (hook_blocked pre)) [
        | inl e ↦ rw e (rw entry-merge_two (rw lookup-insert refl))
        | inr e ↦
            elim (Bool-cases (disallowed (lookup "allowed_tools_override" s.metadata) call.name)) [
              | inl d ↦ rw e (
                  rw (lookup-hooked "allowed_tools_override" refl)
                    (rw d (rw entry-merge_two (rw lookup-insert refl))))
              | inr d ↦ rw e (
                  rw (lookup-hooked "allowed_tools_override" refl) (
                    rw d (
                      tool_route-route_found found current pre
                      ∙ ap (λ r. some (str r)) (route_of_found-hooked found))))
            ]
      ]

tool_route-route_calls :
    (deps : AppDependencies) (s : State) (calls : List ToolCall)
    → tool_route (route_calls deps s calls) ≡ some (str (route_of_calls deps s calls))
unfolding route_calls
tool_route-route_calls deps s [] = rw lookup-insert refl
tool_route-route_calls deps s (call ∷ calls) = tool_route-route_call deps s call

-- The route that the node writes is the one that the state's cancellation, the skill's allowed tools, the
-- registry and the permission policy give it, all read before any hook ran: hooks can only add rejections.
pub tool_router_node-route_of :
    (deps : AppDependencies) (s : State)
    → tool_route (tool_router_node deps s) ≡ some (str (route_of deps s))
unfolding tool_router_node cancelled_route cancellation_update
tool_router_node-route_of deps s =
    elim (Bool-cases (is_set (lookup "runtime_cancelled" s.metadata))) [
      | inl e ↦ rw e (rw lookup-insert refl)
      | inr e ↦ elim (Bool-cases (is_cancelled deps.run_control (some s.thread_id))) [
        | inl c ↦ rw e (rw c (rw lookup-insert refl))
        | inr c ↦ rw e (rw c (tool_route-route_calls deps s s.pending_tool_calls))
      ]
    ]
