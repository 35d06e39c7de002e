-- ===== src/Tools.antt =====
-- tools/registry.py, the tool metadata of models/tool_metadata.py and the interface of tools/base.py: the
-- tools that the model may call. A tool is its metadata and three operations; what a tool does to files,
-- processes and the network is not modelled.
pub mod Execution
use langraph_agent_blueprint.Prelude.{
  String, ◌<>◌, ◌≡◌, Bool, Option, none, some, List, if◌then◌else◌, ◌==◌, arith, eq_iff,
}
use langraph_agent_blueprint.Prelude.Dict.{Dict, lookup, insert, lookup-insert}
use langraph_agent_blueprint.Prelude.Result.{Result, ok, raise, key_error}
use langraph_agent_blueprint.Permission.{ToolPermissionMetadata}
use langraph_agent_blueprint.State.{State, ToolCall}
use langraph_agent_blueprint.Value.{Value, Fields, Items}

pub data ToolKind : Type 0 where
  file search shell network notebook todo skill agent diagnostics mcp plugin custom : ToolKind

pub data ToolRoute : Type 0 where
  execute skill_graph agent_graph mcp_graph : ToolRoute

-- `ToolStateEffect`, with the data that each kind of effect carries.
pub data ToolStateEffect : Type 0 where
  record_file_read : (path : String) → ToolStateEffect
  record_file_write : ToolStateEffect
  record_file_edit : ToolStateEffect
  replace_todos : Items → ToolStateEffect
  append_child_run : Value → ToolStateEffect

-- The fields of a tool's output that the execution service reads.
pub record ToolOutput : Type 0 where
  pub succeeded : Bool
  pub content : String
  pub metadata : Dict Value

pub record Tool : Type 0 where
  pub name : String
  pub kind : ToolKind
  pub route : ToolRoute
  pub permission : Option ToolPermissionMetadata
  pub mcp : Dict Value
  pub parse_input : Fields → Result Fields
  pub run : Fields → State → Result ToolOutput
  pub state_effects : ToolCall → ToolOutput → State → Result (List ToolStateEffect)

abbrev pub ToolRegistry : Type 0
ToolRegistry = Dict Tool

unfoldable pub register : ToolRegistry → Tool → ToolRegistry
register tools tool = insert tool.name tool tools

unfoldable pub get : ToolRegistry → String → Result Tool
get tools name = elim (lookup name tools) [
  | none ↦ raise (key_error ("Unknown tool: " <> name))
  | some tool ↦ ok tool
]

-- A registered tool is found under its name until another tool of that name replaces it.
pub get-register :
    (tools : ToolRegistry) (tool : Tool) (name : String)
    → get (register tools tool) name ≡ (if tool.name == name then ok tool else get tools name)
unfolding get register
get-register tools tool name = ground (arith, lookup-insert name tool.name tool tools)
