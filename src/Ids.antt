-- ===== src/Ids.antt =====
-- utils/ids.py: the identifiers that name threads and sessions. `new_id` draws on `uuid4`, which is
-- not part of this repository; the code that calls it takes the fresh identifier as an argument.
use langraph_agent_blueprint.Prelude.{
  ℕ, ◌≡◌, String, ◌<>◌, Bool, ◌&&◌, ◌||◌, length, all, leb, eqb, arith, if◌then◌else◌,
}
use langraph_agent_blueprint.Prelude.Result.{Result, ok, raise, value_error}
use langraph_agent_blueprint.Text.{codes}

-- A character of the class `[A-Za-z0-9_-]`.
unfoldable pub is_id_char : ℕ → Bool
is_id_char c =
    (leb b'A' c && leb c b'Z')
    || (leb b'a' c && leb c b'z')
    || (leb b'0' c && leb c b'9')
    || eqb c b'_'
    || eqb c b'-'

-- `RUNTIME_ID_RE.fullmatch(value)`
unfoldable pub is_runtime_id : String → Bool
unfolding is_id_char
is_runtime_id value =
    let cs = codes value in leb 1 (length cs) && leb (length cs) 128 && all is_id_char cs

unfoldable pub validate_runtime_id : String → String → Result String
validate_runtime_id value kind =
    if is_runtime_id value
    then ok value
    else raise
        (value_error ("Invalid " <> kind <> ": expected 1-128 ASCII letters, digits, '_' or '-'"))

unfoldable pub validate_session_id : String → Result String
unfolding validate_runtime_id
validate_session_id value = validate_runtime_id value "session_id"

unfoldable pub validate_thread_id : String → Result String
unfolding validate_runtime_id
validate_thread_id value = validate_runtime_id value "thread_id"

pub validate_thread_id-ok :
    (value : String) {v : String} → validate_thread_id value ≡ ok v → v ≡ value
unfolding validate_thread_id
validate_thread_id-ok value h = ground (arith, is_runtime_id value)
