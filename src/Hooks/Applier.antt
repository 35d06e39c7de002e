-- ===== src/Hooks/Applier.antt =====
-- hooks/applier.py: hook results become a restricted state update.
-- `show` renders a value that is no text, as `str` does.
pub mod Laws
pub mod Blocking
mod Tests
use langraph_agent_blueprint.Prelude.{
  ℕ, String, ◌<>◌, Bool, true, false, ◌||◌, ◌&&◌, not, Option, none, some, List, [], ◌∷◌, ◌++◌,
  contains, if◌then◌else◌, ◌==◌,
}
use langraph_agent_blueprint.Prelude.Dict.{Dict, lookup, insert}
use langraph_agent_blueprint.Hooks.{
  HookResult, HookAction, continue, add_event, add_system_context, modify_context, modify_metadata,
  block, request_permission, failed, point_name, severity_name,
}
use langraph_agent_blueprint.State.{State, Update, empty_update, Event, event}
use langraph_agent_blueprint.Text.{is_space}
use langraph_agent_blueprint.Text.Strip.{strip}
use langraph_agent_blueprint.Value.{
  Value, null, bool, num, str, arr, obj, Fields, end, field, is_set, dict_of, fields_of,
  dict_or_empty, list_or_empty, append_item, merge_dict,
}

-- The local variables of `apply_hook_results`.
pub record Accumulator : Type 0 where
  pub metadata : Dict Value
  pub context_status : Dict Value
  pub hooks_state : Dict Value
  pub ui_events : List Event
  pub errors : List (Dict Value)
  pub final_response : Option String
  pub metadata_changed : Bool
  pub context_changed : Bool
  pub hooks_changed : Bool

abbrev pub initial : State → Accumulator
initial s = record {
  metadata = s.metadata;
  context_status = s.context_status;
  hooks_state = s.hooks_state;
  ui_events = [];
  errors = [];
  final_response = none;
  metadata_changed = false;
  context_changed = false;
  hooks_changed = false;
}

-- `value or other`, as a text.
abbrev pub text_or : (Value → String) → Option Value → String → String
text_or show none other = other
text_or show (some (str s)) other = if s == "" then other else s
text_or show (some v) other = if is_set (some v) then show v else other

abbrev pub message_or : Option String → String → String
message_or none other = other
message_or (some s) other = if s == "" then other else s

abbrev origin : HookResult → Dict Value
origin r = ("hook_id", str r.hook_id) ∷ ("hook_point", str (point_name r.hook_point)) ∷ []

-- `_system_context_fragment`
unfoldable pub system_context_fragment : HookResult → String → String
system_context_fragment r content =
    if is_set (lookup "plugin_name" r.fields)
    then "[plugin hook: " <> r.hook_id <> "] " <> content
    else "[hook: " <> r.hook_id <> "] " <> content

abbrev pub is_safe_key : String → Bool
is_safe_key k = k == "system_context" || k == "estimated_tokens" || k == "summary"

unfoldable pub safe_payload : Dict Value → Dict Value
safe_payload [] = []
safe_payload ((k, v) ∷ d) =
    let rest = safe_payload d in if is_safe_key k then (k, v) ∷ rest else rest

abbrev payload_of : HookResult → Value
payload_of r = elim (lookup "event_data" r.fields) [ none ↦ obj (fields_of r.fields) | some v ↦ v ]

abbrev severity : HookResult → Dict Value
severity r = ("severity", str (severity_name r.severity)) ∷ []

abbrev hook_error : HookResult → String → String → Dict Value
hook_error r kind message =
    ("message", str message)
    ∷ ("type", str kind)
    ∷ ("recoverable", bool true)
    ∷ ("hook_id", str r.hook_id)
    ∷ []

abbrev error_event : HookResult → String → String → Event
error_event r message level =
    event "hook_error" (origin r ++ (("error", str message) ∷ ("severity", str level) ∷ []))

apply_event : HookResult → Accumulator → Accumulator
apply_event r a = record a {
  ui_events =
      a.ui_events ++ event "hook_event" (origin r ++ ("payload", payload_of r) ∷ severity r) ∷ [];
}

set_hook_metadata : HookResult → Fields → Accumulator → Accumulator
set_hook_metadata r payload a = record a {
  metadata =
      insert "hook_metadata"
        (obj (
          fields_of
            (insert r.hook_id (obj payload) (dict_or_empty (lookup "hook_metadata" a.metadata)))))
        a.metadata;
  metadata_changed = true;
}

apply_metadata : HookResult → Option Value → Accumulator → Accumulator
unfolding set_hook_metadata
apply_metadata r none a = set_hook_metadata r end a
apply_metadata r (some (obj payload)) a = set_hook_metadata r payload a
apply_metadata r (some v) a = a

update_context : Dict Value → Accumulator → Accumulator
update_context [] a = a
update_context ((k, v) ∷ d) a = record a {
  context_status = merge_dict a.context_status ((k, v) ∷ d);
  context_changed = true;
}

-- `data.get("context_status") or data.get("context") or {}`, where it is a dict.
abbrev pub context_payload : HookResult → Dict Value
context_payload r =
    if is_set (lookup "context_status" r.fields)
    then dict_or_empty (lookup "context_status" r.fields)
    else dict_or_empty (lookup "context" r.fields)

apply_context : HookResult → Accumulator → Accumulator
unfolding update_context safe_payload
apply_context r a = update_context (safe_payload (context_payload r)) a

abbrev unsupported : Option String → String
unsupported message =
    let base : String = "HookResult action request_permission is not supported in this phase." in
    let requested = message_or message "" in
    if requested == "" then base else base <> " Requested: " <> requested

apply_request : HookResult → Accumulator → Accumulator
apply_request r a = record a {
  errors = a.errors ++ hook_error r "HookPermissionUnsupported" (unsupported r.message) ∷ [];
  ui_events = a.ui_events ++ error_event r (unsupported r.message) "warning" ∷ [];
}

module _ (show : Value → String) where
  add_fragment : HookResult → String → Accumulator → Accumulator
  unfolding system_context_fragment strip is_space
  add_fragment r content a =
      let fragment = system_context_fragment r content in
      let existing = text_or show (lookup "system_context" a.context_status) "" in
      record a {
        metadata =
            insert "hook_system_context_fragments"
              (arr (
                append_item (list_or_empty (lookup "hook_system_context_fragments" a.metadata))
                  (str fragment)))
              a.metadata;
        hooks_state =
            insert "system_context_fragments"
              (arr (
                append_item (list_or_empty (lookup "system_context_fragments" a.hooks_state))
                  (obj (fields_of (origin r ++ ("content", str fragment) ∷ [])))))
              a.hooks_state;
        context_status =
            insert "system_context"
              (str (
                if existing == ""
                then fragment
                else strip is_space (existing <> "\n\n" <> fragment)))
              a.context_status;
        metadata_changed = true;
        context_changed = true;
        hooks_changed = true;
      }

  apply_system_context : HookResult → Accumulator → Accumulator
  unfolding add_fragment
  apply_system_context r a =
      let content =
        strip is_space (text_or show (lookup "content" r.fields) (message_or r.message "")) in
      if content == "" then a else add_fragment r content a

  apply_block : HookResult → Accumulator → Accumulator
  apply_block r a =
      let reason =
        message_or r.message
          (text_or show (lookup "reason" r.fields) ("Blocked by hook " <> r.hook_id)) in
      record a {
        metadata =
            insert "hook_blocked" (obj (fields_of (origin r ++ ("reason", str reason) ∷ [])))
              a.metadata;
        final_response = some reason;
        ui_events =
            a.ui_events
            ++ event "hook_blocked" (origin r ++ ("reason", str reason) ∷ severity r) ∷ [];
        metadata_changed = true;
      }

  apply_error : HookResult → Accumulator → Accumulator
  apply_error r a =
      let message =
        message_or r.message
          (text_or show (lookup "error" r.fields) ("Hook " <> r.hook_id <> " returned an error")) in
      record a {
        errors = a.errors ++ hook_error r "HookError" message ∷ [];
        ui_events = a.ui_events ++ error_event r message "error" ∷ [];
      }

  -- One round of the loop.
  dispatch : HookAction → HookResult → Accumulator → Accumulator
  dispatch continue r a = a
  dispatch add_event r a = apply_event r a
  dispatch add_system_context r a = apply_system_context r a
  dispatch modify_metadata r a = apply_metadata r (lookup "metadata" r.fields) a
  dispatch modify_context r a = apply_context r a
  dispatch block r a = apply_block r a
  dispatch request_permission r a = apply_request r a
  dispatch failed r a = apply_error r a

  apply_results : List HookResult → Accumulator → Accumulator
  apply_results [] a = a
  apply_results (r ∷ rs) a = apply_results rs (dispatch r.action r a)

abbrev pub assembled : Accumulator → Update
assembled a = record empty_update {
  metadata = if a.metadata_changed then some a.metadata else none;
  context_status = if a.context_changed then some a.context_status else none;
  hooks_state = if a.hooks_changed then some a.hooks_state else none;
  ui_events = a.ui_events;
  errors = a.errors;
  final_response = elim a.final_response [ none ↦ none | some text ↦ some (some text) ];
}

unfoldable pub apply_hook_results : (Value → String) → State → List HookResult → Update
unfolding apply_results dispatch apply_event apply_system_context apply_metadata apply_context
    apply_block apply_request apply_error
apply_hook_results show s results = assembled (apply_results show results (initial s))
