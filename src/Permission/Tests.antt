-- ===== src/Permission/Tests.antt =====
-- Decisions and approval prompts at concrete calls, and the theorems there.
use langraph_agent_blueprint.Prelude.{
  ◌≤◌, ◌<◌, ◌⊎◌, ◌+◌, ◌-◌, ◌≡◌, refl, String, ◌<>◌, true, false, none, some, [], ◌∷◌, ◌||◌, ◌&&◌,
  not, ◌==◌, if◌then◌else◌, ◌+◌, arith,
}
use langraph_agent_blueprint.Permission.{
  default, accept_edits, write, low, ask, allow, ToolPermissionMetadata, tool_permission,
  effective_permission_mode, decide,
}
use langraph_agent_blueprint.Permission.Laws.{waives, decide_policy}
use langraph_agent_blueprint.Permission.Redact.{
  redacted_keys, redact_args, cut_summary, confirmation_payload,
}
use langraph_agent_blueprint.Permission.Redact.Bounds.{length-cut_summary}
use langraph_agent_blueprint.Permission.Redact.Secrecy.{
  FieldsRedacted, AgreeFields, ends, hidden, shown, same, objs, redact_args_complete,
  confirmation_payload-Agree,
}
use langraph_agent_blueprint.Text.{text_length, take_text}
use langraph_agent_blueprint.Value.{str, obj, Fields, end, field}

-- Enough of `str.lower` for the keys of the tests.
abbrev lower : String → String
lower k = if k == "Token" then "token" else k

abbrev keys_only : Fields → String
keys_only end = ""
keys_only (field k (str s) fs) = k <> "=" <> s <> ";"
keys_only (field k v fs) = k

abbrev call_args : String → Fields
call_args secret =
    field "url" (str "http://x") (field "headers" (obj (field "Token" (str secret) end)) end)

abbrev fetch : ToolPermissionMetadata
fetch = record {
  action = write;
  risk = low;
  is_read_only = false;
  requires_permission = true;
  reason = none;
  allowed_in_plan_mode = false;
  requires_network = false;
  external = false;
  sensitive_arg_keys = "cookie" ∷ [];
}

modes :
    ((decide default "fetch" (some fetch) false (some (str "accept_edits"))).decision ≡ allow)
    × ((decide default "fetch" (some fetch) true (some (str "accept_edits"))).decision ≡ ask)
    × ((decide accept_edits "fetch" (some fetch) false (some (str "strict"))).decision ≡ ask)
    × ((decide default "fetch" (some fetch) false none).reason ≡ "fetch requires approval")
unfolding decide
modes = (refl, refl, refl, refl)

nested_secret : redact_args lower (call_args "s3cret") [] ≡ call_args "***"
unfolding redact_args
nested_secret = refl

decide_policy_example :
    (decide default "fetch" (some fetch) true (some (str "accept_edits"))).decision ≡ (
      let p = tool_permission (some fetch) in
      let mode = effective_permission_mode (some (str "accept_edits")) default in
      if (true && not p.is_read_only && not p.allowed_in_plan_mode)
        || (p.requires_permission && not (waives mode p.action))
      then ask
      else allow)
decide_policy_example = decide_policy default "fetch" (some fetch) true (some (str "accept_edits"))

redact_args_complete_example :
    FieldsRedacted lower (redacted_keys lower []) (redact_args lower (call_args "s3cret") [])
    × AgreeFields lower
        (redacted_keys lower [])
        (call_args "s3cret")
        (redact_args lower (call_args "s3cret") [])
    × (redact_args lower (redact_args lower (call_args "s3cret") []) []
        ≡ redact_args lower (call_args "s3cret") [])
redact_args_complete_example = redact_args_complete lower (call_args "s3cret") []

confirmation_payload-Agree_example :
    confirmation_payload lower keys_only "c1" "fetch" (call_args "one") (some fetch) "r"
    ≡ confirmation_payload lower keys_only "c1" "fetch" (call_args "two") (some fetch) "r"
unfolding tool_permission
confirmation_payload-Agree_example =
    confirmation_payload-Agree lower keys_only "c1" "fetch" "r" (some fetch)
      (shown (same (str "http://x")) (shown (objs (hidden refl ends)) ends))

abbrev long_text : String
long_text = "a rendering of the arguments that is too long"

length-cut_summary_example :
    ((text_length long_text ≤ 20) × (cut_summary 20 long_text ≡ long_text))
    ⊎ ((20 < text_length long_text)
        × (take_text (20 - 13) (cut_summary 20 long_text) ≡ take_text (20 - 13) long_text)
        × (text_length (cut_summary 20 long_text) ≡ 20 + 1))
length-cut_summary_example = length-cut_summary 20 long_text (omega arith)
