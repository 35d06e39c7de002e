-- ===== src/Graph/Tests.antt =====
-- The graph at a state that waits for its tools.
use langraph_agent_blueprint.Prelude.{◌≡◌, refl, true, List, ◌∷◌, is_some}
use langraph_agent_blueprint.Prelude.Dict.{lookup, insert, remove}
use langraph_agent_blueprint.Graph.{command_router, tool_router, next}
use langraph_agent_blueprint.Graph.Next.{next_resolves}
use langraph_agent_blueprint.Graph.Paths.{IsCleared, tool_router_resolves, tool_router_executes}
use langraph_agent_blueprint.Nodes.{reduced}
use langraph_agent_blueprint.Nodes.Tests.{deps, waiting, trusting}
use langraph_agent_blueprint.Nodes.ToolRouter.{tool_router_node}
use langraph_agent_blueprint.State.{ToolCall}
use langraph_agent_blueprint.State.Updates.Tests.{append_messages}
use langraph_agent_blueprint.Value.{merge_dict}

next_resolves_example : is_some (next command_router waiting) ≡ true
next_resolves_example = next_resolves command_router waiting refl

tool_router_resolves_example :
    is_some (next tool_router (reduced append_messages waiting (tool_router_node deps waiting)))
    ≡ true
tool_router_resolves_example = tool_router_resolves append_messages deps waiting

tool_router_executes_example :
    (call : ToolCall) × (rest : List ToolCall) × (waiting.pending_tool_calls ≡ call ∷ rest)
    × IsCleared trusting waiting call
unfolding next reduced tool_router_node lookup insert remove merge_dict
tool_router_executes_example = tool_router_executes append_messages trusting waiting refl
