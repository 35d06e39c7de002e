-- ===== src/State.antt =====
-- graph/state.py and the envelopes of models/tools.py, models/permissions.py and models/events.py:
-- the state that the graph's nodes read, as far as the modelled nodes read or write it, and the
-- updates that they return. An event keeps its type and its data; the `activity` and `stream_event`
-- renderings of the same data for the frontend, and generated event ids and times, are left out.
pub mod Updates
use langraph_agent_blueprint.Prelude.{
  ℕ, String, Bool, Option, none, some, List, [], ◌∷◌, ◌++◌, ◌==◌, not,
}
use langraph_agent_blueprint.Prelude.Dict.{Dict}
use langraph_agent_blueprint.Permission.Redact.{PermissionRequest}
use langraph_agent_blueprint.Value.{Value, Fields, Items, nil}

pub record ToolCall : Type 0 where
  pub id : String
  pub name : String
  pub args : Fields

pub data ToolResultStatus : Type 0 where
  ok error rejected disabled unavailable : ToolResultStatus

-- The `state_update` of a tool record: the keys that the executor merges into the state.
pub record StateUpdate : Type 0 where
  pub todos : Option Items
  pub child_runs : List Value
  pub metadata : Dict Value

pub record ToolResult : Type 0 where
  pub id : String
  pub name : String
  pub status : ToolResultStatus
  pub content : String
  pub metadata : Dict Value
  pub error : Option (Dict Value)
  pub state_update : Option StateUpdate

-- A `ToolMessage` holds the JSON rendering of these fields of its result.
pub record ToolPayload : Type 0 where
  pub name : String
  pub status : ToolResultStatus
  pub content : String
  pub metadata : Dict Value
  pub error : Option (Dict Value)

pub data Message : Type 0 where
  human : String → Message
  system : String → Message
  ai : String → List ToolCall → Message
  tool : (tool_call_id : String) → ToolPayload → Message
  remove_all : Message

unfoldable pub tool_result_to_tool_message : ToolResult → Message
tool_result_to_tool_message r = tool r.id (record {
  name = r.name;
  status = r.status;
  content = r.content;
  metadata = r.metadata;
  error = r.error;
})

pub record Event : Type 0 where
  pub type : String
  pub payload : Dict Value

abbrev pub event : String → Dict Value → Event
event type payload = record { type = type; payload = payload }

-- One entry of `permission_decisions`.
pub record PermissionRecord : Type 0 where
  pub tool_call_id : String
  pub tool_name : String
  pub approved : Bool
  pub reason : Option String
  pub remember : Bool

pub record State : Type 0 where
  pub session_id : String
  pub thread_id : String
  pub project_root : String
  pub input_text : String
  pub messages : List Message
  pub pending_tool_calls : List ToolCall
  pub tool_results : List ToolResult
  pub pending_confirmation : Option PermissionRequest
  pub pending_subagent_approval : Option (Dict Value)
  pub permission_decisions : List PermissionRecord
  pub plan_mode : Dict Value
  pub available_tools : Dict Value
  pub todos : Items
  pub child_runs : List Value
  pub active_skill : Option (Dict Value)
  pub hooks_state : Dict Value
  pub context_status : Dict Value
  pub usage : Dict Value
  pub errors : List (Dict Value)
  pub ui_events : List Event
  pub final_response : Option String
  pub metadata : Dict Value

-- The dict that a node returns: `none` is a key that it does not write. An absent list is as good as
-- an empty one, since the state's reducer appends it.
pub record Update : Type 0 where
  pub messages : List Message
  pub pending_tool_calls : Option (List ToolCall)
  pub tool_results : List ToolResult
  pub pending_confirmation : Option (Option PermissionRequest)
  pub pending_subagent_approval : Option (Option (Dict Value))
  pub permission_decisions : List PermissionRecord
  pub todos : Option Items
  pub child_runs : List Value
  pub active_skill : Option (Option (Dict Value))
  pub hooks_state : Option (Dict Value)
  pub context_status : Option (Dict Value)
  pub usage : Option (Dict Value)
  pub errors : List (Dict Value)
  pub ui_events : List Event
  pub final_response : Option (Option String)
  pub metadata : Option (Dict Value)

abbrev pub empty_update : Update
empty_update = record {
  messages = [];
  pending_tool_calls = none;
  tool_results = [];
  pending_confirmation = none;
  pending_subagent_approval = none;
  permission_decisions = [];
  todos = none;
  child_runs = [];
  active_skill = none;
  hooks_state = none;
  context_status = none;
  usage = none;
  errors = [];
  ui_events = [];
  final_response = none;
  metadata = none;
}
