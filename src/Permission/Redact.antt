-- ===== src/Permission/Redact.antt =====
-- Redaction and rendering of tool arguments for approval prompts, from permission_service.py.
-- `str.lower` and `json.dumps` are parameters: nothing here depends on which texts they give.
pub mod Secrecy
pub mod Bounds
use langraph_agent_blueprint.Prelude.{
  ℕ, ◌-◌, String, ◌<>◌, Bool, Option, some, List, [], ◌∷◌, ◌++◌, map, contains, length, take, leb,
  if◌then◌else◌,
}
use langraph_agent_blueprint.Permission.{
  PermissionAction, PermissionRisk, ToolPermissionMetadata, tool_permission,
}
use langraph_agent_blueprint.Text.{text_length, take_text}
use langraph_agent_blueprint.Value.{
  Value, null, bool, num, str, arr, obj, Items, nil, cons, Fields, end, field,
}

abbrev pub default_sensitive_arg_keys : List String
default_sensitive_arg_keys =
    "api_key" ∷ "apikey" ∷ "token" ∷ "password" ∷ "secret" ∷ "authorization" ∷ "auth" ∷ "credential"
    ∷ "credentials" ∷ []

module _ (lower : String → String) (sensitive_keys : List String) where
  unfoldable mutual
    pub redact_value : Value → Value
    redact_value null = null
    redact_value (bool b) = bool b
    redact_value (num n) = num n
    redact_value (str s) = str s
    redact_value (arr xs) = arr (redact_items xs)
    redact_value (obj fs) = obj (redact_fields fs)

    pub redact_items : Items → Items
    redact_items nil = nil
    redact_items (cons x xs) = cons (redact_value x) (redact_items xs)

    pub redact_fields : Fields → Fields
    redact_fields end = end
    redact_fields (field k v fs) =
        field k (if contains sensitive_keys (lower k) then str "***" else redact_value v)
          (redact_fields fs)

abbrev pub redacted_keys : (String → String) → List String → List String
redacted_keys lower sensitive = map lower (default_sensitive_arg_keys ++ sensitive)

unfoldable pub redact_args : (String → String) → Fields → List String → Fields
unfolding redact_value redact_items redact_fields
redact_args lower args sensitive = redact_fields lower (redacted_keys lower sensitive) args

abbrev pub truncation_suffix : String
truncation_suffix = "...<truncated>"

-- The last lines of `summarize_args`, on the rendered text.
unfoldable pub cut_summary : ℕ → String → String
cut_summary limit rendered =
    if leb (text_length rendered) limit
    then rendered
    else take_text (limit - 13) rendered <> truncation_suffix

module _ (lower : String → String) (dumps : Fields → String) where
  unfoldable pub summarize_args : Fields → List String → ℕ → String
  unfolding cut_summary
  summarize_args end sensitive limit = "{}"
  summarize_args (field k v fs) sensitive limit =
      cut_summary limit (dumps (redact_args lower (field k v fs) sensitive))

-- The fields of `PermissionRequest` that a tool's request sets; the rest describe subagents.
pub record PermissionRequest : Type 0 where
  pub tool_name : String
  pub tool_call_id : String
  pub action : PermissionAction
  pub args_summary : String
  pub risk : PermissionRisk
  pub args : Fields
  pub reason : String

module _ (lower : String → String) (dumps : Fields → String) where
  -- `confirmation_payload`, with the default limit of `summarize_args`.
  unfoldable pub confirmation_payload :
      String → String → Fields → Option ToolPermissionMetadata → String → PermissionRequest
  unfolding tool_permission redact_args summarize_args
  confirmation_payload call_id call_name args permission reason =
      let p = tool_permission permission in
      record {
        tool_name = call_name;
        tool_call_id = call_id;
        action = p.action;
        args_summary = summarize_args lower dumps args p.sensitive_arg_keys 500;
        risk = p.risk;
        args = redact_args lower args p.sensitive_arg_keys;
        reason = reason;
      }
