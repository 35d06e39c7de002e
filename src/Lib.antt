-- ===== src/Lib.antt =====
-- The agent runtime: how one turn of a conversation asks for tools, is allowed them, runs them and stops.
--
-- The main graph (src/langgraph_agent_blueprint/graph/builder.py) runs nodes on a state. After a model
-- call, the router sends the first pending tool call to execution, to an approval by the user, to a
-- subgraph or back as rejected; the gate turns the user's decision into a route; the executor runs the
-- calls and appends their results. Plugins see each step through hooks, whose results pass an applier
-- that restricts what they may change. Runs can be cancelled from outside at any time.
--
-- The files and the code they model, under src/langgraph_agent_blueprint/:
--   Graph: graph/routing.py (route_after_*) and the edges of build_main_graph; Graph/Next and Graph/Paths
--     on routes.
--   Session: _hydrate_session_state of graph/builder.py.
--   Nodes: graph/run_control.py and the reducers of graph/state.py; Nodes/ToolRouter, Nodes/PermissionGate
--     and Nodes/ToolExecutor: the nodes of the same names under graph/nodes/; Nodes/Entries, Approval,
--     Resolution and Answers: the proofs on them. Nodes/Finalize: the nodes finalize_response and
--     error_recovery.
--   ModelCall: graph/nodes/model_call.py; ModelCall/Fit and ModelCall/Request: the request that fits the
--     context window; ModelCall/Repair: the stream and the retry; ModelCall/UsageService:
--     services/usage_service.py; ModelCall/Step: the node.
--   Subagents: models/subagents.py; Subagents/Scope: services/agent_service.py; Subagents/Prepare,
--     Events, Run, Concurrent and Resume: graph/subgraphs/agent_graph.py; Subagents/Depth: the proof on nested calls.
--   Permission: services/permission_service.py; Permission/Redact: redaction and the approval request.
--   RunControl: services/run_control_service.py; RunControl/Phases: its specification, one state machine
--     per thread. Ids: utils/ids.py.
--   Hooks: hooks/registry.py and models/hooks.py; Hooks/Service: services/hook_service.py and
--     run_hook_point of graph/hooks.py; Hooks/Applier: hooks/applier.py.
--   State: the state and the update of graph/state.py; State/Updates: the merges of graph/hooks.py.
--   Tools: tools/registry.py and the tool interface; Tools/Execution: services/tool_execution_service.py
--     and utils/truncation.py.
--   Budget: context/budget.py. Compaction: the decision and the split of services/compaction_service.py;
--     Compaction/Tail: the messages that it keeps; Compaction/Compact: the summary, compact_state and the
--     nodes compact_decision and compact_context.
--   Value: the JSON-like data; Text: operations of str; Prelude: what the modules share.
--
-- A Python dict is an association list with the operations of Prelude/Dict; an exception is a
-- value of Prelude/Result; a node returns the update that the code returns, absent keys as none.
-- The loops are structural recursion on lists, but for the selection of the recent messages, which
-- is given one more unit of fuel than there are messages; each round uses one and goes back one
-- message or more. Parameters stand for code outside the repository (pydantic's validation,
-- langgraph's add_messages, json.dumps, str, lower) and for what plugins and tools do; a tool's effects on files, processes
-- and the network are not modelled, nor are clocks, random ids, locks and the frontend's
-- renderings of events. The context references, the skill and MCP
-- subgraphs, commands, skills, storage, the HTTP interface and the frontend are not modelled.
pub mod Prelude
pub mod Text
pub mod Ids
pub mod RunControl
pub mod Value
pub mod Permission
pub mod State
pub mod Hooks
pub mod Tools
pub mod ModelCall
pub mod Nodes
pub mod Graph
pub mod Budget
pub mod Compaction
pub mod Session
pub mod Subagents
