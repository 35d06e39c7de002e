-- ===== src/Graph/Next.antt =====
-- Where the graph goes from each node.
use langraph_agent_blueprint.Prelude.{
  String, ◌≡◌, refl, Bool, true, false, Option, none, some, List, [], ◌∷◌, contains, is_some,
  if_both, eq_iff, ◌==◌, arith,
}
use langraph_agent_blueprint.Prelude.Dict.{Dict, lookup, keys}
use langraph_agent_blueprint.Graph.{
  Node, bootstrap_config, load_registries, normalize_input, command_router, skill_graph,
  plugin_policy, resolve_context, context_builder, model_call, tool_router, permission_gate,
  tool_executor, hook_runner, agent_graph, subagent_permission_gate, mcp_graph, compact_decision,
  compact_context, persist_session, finalize_response, error_recovery, finished, edges, next, table,
  text_at, set_text_at, route_after_permission, route_after_compact_decision,
  route_after_compact_context, is_filled, has_response, has_dict, route_after_command,
  route_after_plugin_policy, route_after_tool_execution, route_after_agent_graph,
  route_after_subagent_permission, route_after_tool_router,
}
use langraph_agent_blueprint.State.{State}
use langraph_agent_blueprint.Tools.{mcp_graph}
use langraph_agent_blueprint.Value.{Value, null, bool, num, str, obj, arr, is_set}

-- A metadata entry that is absent or one of some names.
abbrev pub is_named : List String → Option Value → Bool
is_named names none = true
is_named names (some (str name)) = contains names name
is_named names (some v) = false

-- Where a node's route is read from a metadata entry, the entry is absent or a name that the nodes write there.
abbrev pub is_ready : Node → State → Bool
is_ready tool_router s =
    is_named
      ("no_tools" ∷ "execute" ∷ "needs_permission" ∷ "cancelled" ∷ "rejected" ∷ "skill_tool"
        ∷ "agent_tool" ∷ "mcp_tool" ∷ "error" ∷ [])
      (lookup "tool_route" s.metadata)
is_ready permission_gate s =
    is_named ("execute" ∷ "mcp_tool" ∷ "rejected" ∷ []) (lookup "tool_route" s.metadata)
is_ready compact_decision s =
    is_named ("persist_session" ∷ "model_call" ∷ []) (lookup "compact_after_route" s.metadata)
is_ready compact_context s =
    is_named ("persist_session" ∷ "model_call" ∷ []) (lookup "compact_after_route" s.metadata)
is_ready _ s = true

is_some-lookup :
    (r : String) (d : Dict Node) → contains (keys d) r ≡ true → is_some (lookup r d) ≡ true
unfolding lookup
is_some-lookup r [] h = cc h
is_some-lookup r ((k, n) ∷ d) h = ground (arith, h, is_some-lookup r d, eq_iff k r, eq_iff r k)

named_resolves :
    (d : Dict Node) (other : String) (v : Option Value)
    → is_some (lookup other d) ≡ true
    → is_named (keys d) v ≡ true
    → is_some (lookup (text_at v other) d) ≡ true
named_resolves d other none h g = h
named_resolves d other (some (str name)) h g = is_some-lookup name d g
named_resolves d other (some null) h g = h
named_resolves d other (some (bool b)) h g = h
named_resolves d other (some (num n)) h g = h
named_resolves d other (some (obj fields)) h g = h
named_resolves d other (some (arr items)) h g = h

set_named_resolves :
    (d : Dict Node) (other : String) (v : Option Value)
    → is_some (lookup other d) ≡ true
    → is_named (keys d) v ≡ true
    → is_some (lookup (set_text_at v other) d) ≡ true
set_named_resolves d other none h g = h
set_named_resolves d other (some (str name)) h g =
    if_both (λ r. is_some (lookup r d)) (name == "") h (is_some-lookup name d g)
set_named_resolves d other (some null) h g = h
set_named_resolves d other (some (bool b)) h g = h
set_named_resolves d other (some (num n)) h g = h
set_named_resolves d other (some (obj fields)) h g = h
set_named_resolves d other (some (arr items)) h g = h

further_resolves :
    (r k : String) (n : Node) (d : Dict Node)
    → is_some (lookup r d) ≡ true
    → is_some (lookup r ((k, n) ∷ d)) ≡ true
unfolding lookup
further_resolves r k n d h = ground (arith, h)

-- The graph goes on to a node from each node in every state, but from tool_router, permission_gate, compact_decision
-- and compact_context only where the metadata entry that names the route, tool_route or compact_after_route, is
-- absent or one of the names that the nodes write there.
pub next_resolves : (n : Node) (s : State) → is_ready n s ≡ true → is_some (next n s) ≡ true
unfolding next edges lookup route_after_command route_after_plugin_policy route_after_tool_execution
    route_after_tool_router route_after_permission route_after_compact_decision
    route_after_compact_context route_after_agent_graph route_after_subagent_permission
next_resolves bootstrap_config s h = refl
next_resolves load_registries s h = refl
next_resolves normalize_input s h = refl
next_resolves command_router s h =
    let leads : String → Bool = λ r. is_some (lookup r (table (edges command_router))) in
    if_both leads (is_filled s.errors) refl (
      if_both leads (is_set (lookup "compact_requested" s.metadata)) refl (
        if_both leads (has_response s.final_response) refl
          (if_both leads (has_dict s.active_skill) refl refl)))
next_resolves skill_graph s h = refl
next_resolves plugin_policy s h =
    if_both (λ r. is_some (lookup r (table (edges plugin_policy)))) (has_dict s.active_skill) refl
      refl
next_resolves resolve_context s h = refl
next_resolves context_builder s h = refl
next_resolves model_call s h = refl
next_resolves tool_router s h =
    named_resolves (table (edges tool_router)) "no_tools" (lookup "tool_route" s.metadata) refl h
next_resolves permission_gate s h =
    named_resolves (table (edges permission_gate)) "execute" (lookup "tool_route" s.metadata) refl h
next_resolves tool_executor s h =
    let leads : String → Bool = λ r. is_some (lookup r (table (edges tool_executor))) in
    if_both leads (is_set (lookup "runtime_cancelled" s.metadata)) refl
      (if_both leads (is_filled s.errors) refl refl)
next_resolves hook_runner s h = refl
next_resolves agent_graph s h =
    if_both (λ r. is_some (lookup r (table (edges agent_graph))))
      (has_dict s.pending_subagent_approval) refl refl
next_resolves subagent_permission_gate s h =
    if_both (λ r. is_some (lookup r (table (edges subagent_permission_gate))))
      (has_dict s.pending_subagent_approval) refl refl
next_resolves mcp_graph s h = refl
next_resolves compact_decision s h =
    if_both (λ r. is_some (lookup r (table (edges compact_decision))))
      (text_at (lookup "compact_route" s.metadata) "" == "compact") refl
      (further_resolves (route_after_compact_context s) "compact_context" compact_context
        (table (edges compact_context))
        (set_named_resolves (table (edges compact_context)) "model_call"
          (lookup "compact_after_route" s.metadata) refl h))
next_resolves compact_context s h =
    set_named_resolves (table (edges compact_context)) "model_call"
      (lookup "compact_after_route" s.metadata) refl h
next_resolves persist_session s h = refl
next_resolves finalize_response s h = refl
next_resolves error_recovery s h = refl
next_resolves finished s h = refl
