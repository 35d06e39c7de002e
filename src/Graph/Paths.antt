-- ===== src/Graph/Paths.antt =====
-- The routes out of the tool router, and what stands before the executor.
use langraph_agent_blueprint.Prelude.{
  String, ◌≡◌, refl, ap, sym, ◌∙◌, Bool, true, false, ◌||◌, Option, none, some, List, [], ◌∷◌,
  is_some, if_both, if_second, or_false, eq_iff, ◌==◌, arith,
}
use langraph_agent_blueprint.Prelude.Dict.{Dict, lookup}
use langraph_agent_blueprint.Graph.{
  Node, skill_graph, tool_router, permission_gate, tool_executor, hook_runner, agent_graph,
  mcp_graph, compact_decision, persist_session, error_recovery, edges, next,
  route_after_tool_router,
}
use langraph_agent_blueprint.Nodes.{AppDependencies, MessagesReducer, reduced, replaced}
use langraph_agent_blueprint.Nodes.Approval.{
  route_of, route_of_found, route_of_calls, route_by_tool, tool_router_node-route_of,
}
use langraph_agent_blueprint.Nodes.ToolRouter.{
  tool_router_node, check_of, pre_tool_update, disallowed,
}
use langraph_agent_blueprint.State.{State, ToolCall}
use langraph_agent_blueprint.State.Updates.{entry, hook_blocked}
use langraph_agent_blueprint.RunControl.{is_cancelled}
use langraph_agent_blueprint.Tools.{Tool, ToolRoute, execute, mcp_graph, get}
use langraph_agent_blueprint.Permission.{PermissionPolicy, allow, ask, deny}
use langraph_agent_blueprint.Prelude.Result.{Result, ok, raise}
use langraph_agent_blueprint.Value.{Value, str, is_set}

lookup-replaced :
    (k : String) (d : Dict Value) (m : Option (Dict Value)) (v : Value)
    → entry k m ≡ some v
    → lookup k (replaced d m) ≡ some v
lookup-replaced k d none v h = cc
lookup-replaced k d (some m) v h = h

-- The router's route is the one that the graph reads.
route_after_tool_router-route_of :
    (add_messages : MessagesReducer) (deps : AppDependencies) (s : State)
    → route_after_tool_router (reduced add_messages s (tool_router_node deps s)) ≡ route_of deps s
unfolding route_after_tool_router reduced
route_after_tool_router-route_of add_messages deps s =
    rw
      (lookup-replaced "tool_route" s.metadata (tool_router_node deps s).metadata
        (str (route_of deps s)) (tool_router_node-route_of deps s))
      refl

abbrev tool_routes : Dict Node
tool_routes =
    ("no_tools", hook_runner)
    ∷ ("execute", tool_executor)
    ∷ ("needs_permission", permission_gate)
    ∷ ("cancelled", persist_session)
    ∷ ("rejected", compact_decision)
    ∷ ("skill_tool", skill_graph)
    ∷ ("agent_tool", agent_graph)
    ∷ ("mcp_tool", mcp_graph)
    ∷ ("error", error_recovery)
    ∷ []

next-tool_router :
    (add_messages : MessagesReducer) (deps : AppDependencies) (s : State)
    → next tool_router (reduced add_messages s (tool_router_node deps s))
      ≡ lookup (route_of deps s) tool_routes
unfolding next edges
next-tool_router add_messages deps s =
    ap (λ r. lookup r tool_routes) (route_after_tool_router-route_of add_messages deps s)

routes_to_executor : (r : String) → lookup r tool_routes ≡ some tool_executor → r ≡ "execute"
unfolding lookup
routes_to_executor r h =
    ground (arith, h, eq_iff "no_tools" r, eq_iff "execute" r, eq_iff "needs_permission" r)

tool_resolves :
    (route : ToolRoute) (policy : PermissionPolicy)
    → is_some (lookup (route_by_tool route policy) tool_routes) ≡ true
unfolding lookup
tool_resolves execute allow = refl
tool_resolves execute ask = refl
tool_resolves execute deny = refl
tool_resolves mcp_graph allow = refl
tool_resolves mcp_graph ask = refl
tool_resolves mcp_graph deny = refl
tool_resolves ToolRoute.skill_graph policy = refl
tool_resolves ToolRoute.agent_graph policy = refl

found_resolves :
    (deps : AppDependencies) (s : State) (call : ToolCall) (m : Result Tool)
    → is_some (lookup (route_of_found deps call s m) tool_routes) ≡ true
unfolding lookup
found_resolves deps s call (ok tool) = tool_resolves tool.route (check_of deps call s tool).decision
found_resolves deps s call (raise e) = refl

calls_resolve :
    (deps : AppDependencies) (s : State) (calls : List ToolCall)
    → is_some (lookup (route_of_calls deps s calls) tool_routes) ≡ true
unfolding lookup
calls_resolve deps s [] = refl
calls_resolve deps s (call ∷ calls) =
    if_both (λ r. is_some (lookup r tool_routes))
      (hook_blocked (pre_tool_update deps s call)
        || disallowed (lookup "allowed_tools_override" s.metadata) call.name)
      {x = "rejected"} {y = route_of_found deps call s (get deps.tool_execution.registry call.name)}
      refl (found_resolves deps s call (get deps.tool_execution.registry call.name))

-- Whatever the state, the tools and the hooks, the route that the router writes leads to a node.
pub tool_router_resolves :
    (add_messages : MessagesReducer) (deps : AppDependencies) (s : State)
    → is_some (next tool_router (reduced add_messages s (tool_router_node deps s))) ≡ true
unfolding lookup
tool_router_resolves add_messages deps s = rw (next-tool_router add_messages deps s) (
    if_both (λ r. is_some (lookup r tool_routes))
      (is_set (lookup "runtime_cancelled" s.metadata)
        || is_cancelled deps.run_control (some s.thread_id))
      {x = "cancelled"} {y = route_of_calls deps s s.pending_tool_calls} refl
      (calls_resolve deps s s.pending_tool_calls))

abbrev is_execute : String → Bool
is_execute r = r == "execute"

tool_executes :
    (route : ToolRoute) (policy : PermissionPolicy)
    → is_execute (route_by_tool route policy) ≡ true
    → policy ≡ allow
tool_executes execute allow h = refl
tool_executes mcp_graph allow h = refl
tool_executes execute ask h = cc h
tool_executes execute deny h = cc h
tool_executes mcp_graph ask h = cc h
tool_executes mcp_graph deny h = cc h
tool_executes ToolRoute.skill_graph policy h = cc h
tool_executes ToolRoute.agent_graph policy h = cc h

found_executes :
    (deps : AppDependencies) (s : State) (call : ToolCall) (m : Result Tool)
    → is_execute (route_of_found deps call s m) ≡ true
    → (tool : Tool) × (m ≡ ok tool) × ((check_of deps call s tool).decision ≡ allow)
found_executes deps s call (ok tool) h =
    (tool, refl, tool_executes tool.route (check_of deps call s tool).decision h)
found_executes deps s call (raise e) h = cc h

-- What holds of a call that the router sends to the executor.
abbrev pub IsCleared : AppDependencies → State → ToolCall → Type 0
IsCleared deps s call =
    (hook_blocked (pre_tool_update deps s call) ≡ false)
    × (disallowed (lookup "allowed_tools_override" s.metadata) call.name ≡ false)
    × (tool : Tool) × (get deps.tool_execution.registry call.name ≡ ok tool)
    × ((check_of deps call s tool).decision ≡ allow)

calls_execute :
    (deps : AppDependencies) (s : State) (calls : List ToolCall)
    → is_execute (route_of_calls deps s calls) ≡ true
    → (call : ToolCall) × (rest : List ToolCall) × (calls ≡ call ∷ rest) × IsCleared deps s call
calls_execute deps s [] h = cc h
calls_execute deps s (call ∷ calls) h =
    let blocked = hook_blocked (pre_tool_update deps s call) in
    let excluded = disallowed (lookup "allowed_tools_override" s.metadata) call.name in
    let found = get deps.tool_execution.registry call.name in
    let (clear, cleared) =
      if_second is_execute (blocked || excluded) {x = "rejected"}
        {y = route_of_found deps call s found} refl h in
    let (unblocked, included) = or_false blocked excluded clear in
    let (tool, registered, allowed) = found_executes deps s call found cleared in
    (call, calls, refl, (unblocked, included, tool, registered, allowed))

-- The graph goes from the router straight to the executor only where no hook blocks the first call, the
-- active skill allows its tool, the tool is registered, and the permission policy allows it without asking.
pub tool_router_executes :
    (add_messages : MessagesReducer) (deps : AppDependencies) (s : State)
    → next tool_router (reduced add_messages s (tool_router_node deps s)) ≡ some tool_executor
    → (call : ToolCall) × (rest : List ToolCall) × (s.pending_tool_calls ≡ call ∷ rest)
      × IsCleared deps s call
tool_router_executes add_messages deps s h =
    let route =
      routes_to_executor (route_of deps s) (sym (next-tool_router add_messages deps s) ∙ h) in
    let stopped =
      is_set (lookup "runtime_cancelled" s.metadata)
      || is_cancelled deps.run_control (some s.thread_id) in
    let (running, executes) =
      if_second is_execute stopped {x = "cancelled"}
        {y = route_of_calls deps s s.pending_tool_calls} refl (ap is_execute route) in
    calls_execute deps s s.pending_tool_calls executes
