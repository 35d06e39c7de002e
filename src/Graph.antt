-- ===== src/Graph.antt =====
-- graph/routing.py and the edges that `build_main_graph` of graph/builder.py adds: which node runs next.
-- The key `command_handled` is none of the state's keys, so that it is never set.
pub mod Next
pub mod Paths
mod Tests
use langraph_agent_blueprint.Prelude.{
  String, Bool, true, false, ◌||◌, not, Option, none, some, List, [], ◌∷◌, if◌then◌else◌, ◌==◌,
}
use langraph_agent_blueprint.Prelude.Dict.{Dict, lookup}
use langraph_agent_blueprint.State.{State}
use langraph_agent_blueprint.Value.{Value, str, is_set}

pub data Node : Type 0 where
  bootstrap_config load_registries normalize_input command_router skill_graph plugin_policy
        resolve_context context_builder model_call tool_router permission_gate tool_executor
        hook_runner agent_graph subagent_permission_gate mcp_graph compact_decision compact_context
        persist_session finalize_response error_recovery finished :
      Node

abbrev pub is_filled {ℓ} : {A : Type ℓ} → List A → Bool
is_filled [] = false
is_filled (x ∷ xs) = true

abbrev pub has_dict : Option (Dict Value) → Bool
has_dict none = false
has_dict (some d) = is_filled d

abbrev pub has_response : Option String → Bool
has_response none = false
has_response (some text) = not (text == "")

-- `metadata.get(key, other)`, for a text.
abbrev pub text_at : Option Value → String → String
text_at (some (str text)) other = text
text_at _ other = other

-- `metadata.get(key) or other`, for a text.
abbrev pub set_text_at : Option Value → String → String
set_text_at (some (str text)) other = if text == "" then other else text
set_text_at _ other = other

module _ (s : State) where
  unfoldable pub route_after_command : String
  route_after_command =
      if is_filled s.errors
      then "error_recovery"
      else if is_set (lookup "compact_requested" s.metadata)
      then "compact_decision"
      else if has_response s.final_response
      then "persist_session"
      else if has_dict s.active_skill
      then "skill_graph"
      else "plugin_policy"

  unfoldable pub route_after_plugin_policy : String
  route_after_plugin_policy = if has_dict s.active_skill then "skill_graph" else "context_builder"

  unfoldable pub route_after_tool_router : String
  route_after_tool_router = text_at (lookup "tool_route" s.metadata) "no_tools"

  unfoldable pub route_after_permission : String
  route_after_permission = text_at (lookup "tool_route" s.metadata) "execute"

  unfoldable pub route_after_tool_execution : String
  route_after_tool_execution =
      if is_set (lookup "runtime_cancelled" s.metadata)
      then "persist_session"
      else if is_filled s.errors
      then "error_recovery"
      else "compact_decision"

  unfoldable pub route_after_agent_graph : String
  route_after_agent_graph =
      if has_dict s.pending_subagent_approval
      then "subagent_permission_gate"
      else "compact_decision"

  unfoldable pub route_after_subagent_permission : String
  route_after_subagent_permission =
      if has_dict s.pending_subagent_approval
      then "subagent_permission_gate"
      else "compact_decision"

  unfoldable pub route_after_compact_context : String
  route_after_compact_context = set_text_at (lookup "compact_after_route" s.metadata) "model_call"

  unfoldable pub route_after_compact_decision : String
  unfolding route_after_compact_context
  route_after_compact_decision =
      if text_at (lookup "compact_route" s.metadata) "" == "compact"
      then "compact_context"
      else route_after_compact_context

-- The edges of a node: one that is always taken, or a table of the routes out of it.
pub data Edges : Type 0 where
  always : Node → Edges
  conditional : (State → String) → Dict Node → Edges

unfoldable pub edges : Node → Edges
unfolding route_after_command route_after_plugin_policy route_after_tool_router
    route_after_permission route_after_tool_execution route_after_agent_graph
    route_after_subagent_permission route_after_compact_decision route_after_compact_context
edges bootstrap_config = always load_registries
edges load_registries = always normalize_input
edges normalize_input = always command_router
edges command_router = conditional route_after_command (
    ("persist_session", persist_session)
    ∷ ("plugin_policy", plugin_policy)
    ∷ ("context_builder", resolve_context)
    ∷ ("skill_graph", skill_graph)
    ∷ ("compact_decision", compact_decision)
    ∷ ("error_recovery", error_recovery)
    ∷ [])
edges plugin_policy =
    conditional route_after_plugin_policy
      (("skill_graph", skill_graph) ∷ ("context_builder", resolve_context) ∷ [])
edges skill_graph = always resolve_context
edges resolve_context = always context_builder
edges context_builder = always compact_decision
edges model_call = always tool_router
edges tool_router = conditional route_after_tool_router (
    ("no_tools", hook_runner)
    ∷ ("execute", tool_executor)
    ∷ ("needs_permission", permission_gate)
    ∷ ("cancelled", persist_session)
    ∷ ("rejected", compact_decision)
    ∷ ("skill_tool", skill_graph)
    ∷ ("agent_tool", agent_graph)
    ∷ ("mcp_tool", mcp_graph)
    ∷ ("error", error_recovery)
    ∷ [])
edges permission_gate =
    conditional route_after_permission
      (("execute", tool_executor) ∷ ("mcp_tool", mcp_graph) ∷ ("rejected", persist_session) ∷ [])
edges tool_executor = conditional route_after_tool_execution (
    ("compact_decision", compact_decision)
    ∷ ("error_recovery", error_recovery)
    ∷ ("persist_session", persist_session)
    ∷ [])
edges agent_graph = conditional route_after_agent_graph (
    ("subagent_permission_gate", subagent_permission_gate)
    ∷ ("compact_decision", compact_decision)
    ∷ [])
edges subagent_permission_gate = conditional route_after_subagent_permission (
    ("subagent_permission_gate", subagent_permission_gate)
    ∷ ("compact_decision", compact_decision)
    ∷ [])
edges mcp_graph = always compact_decision
edges hook_runner = always persist_session
edges compact_decision = conditional route_after_compact_decision (
    ("compact_context", compact_context)
    ∷ ("persist_session", persist_session)
    ∷ ("model_call", model_call)
    ∷ [])
edges compact_context =
    conditional route_after_compact_context
      (("persist_session", persist_session) ∷ ("model_call", model_call) ∷ [])
edges error_recovery = always persist_session
edges persist_session = always finalize_response
edges finalize_response = always finished
edges finished = always finished

abbrev pub table : Edges → Dict Node
table (always n) = []
table (conditional route t) = t

-- The node that runs after a node in a state: none where a route is not in the table, which raises.
abbrev pub follow : State → Edges → Option Node
follow s (always n) = some n
follow s (conditional route t) = lookup (route s) t

unfoldable pub next : Node → State → Option Node
unfolding edges
next n s = follow s (edges n)
