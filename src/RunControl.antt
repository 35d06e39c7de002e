-- ===== src/RunControl.antt =====
-- services/run_control_service.py: the registry of active runs and of cancellation requests.
-- Every method runs under the service's lock, so each is one step on the two dictionaries.
pub mod Laws
pub mod Phases
mod Tests
use langraph_agent_blueprint.Prelude.{
  String, ◌≡◌, Bool, true, false, Option, none, some, List, [], ◌∷◌, is_some, if◌then◌else◌, ◌==◌,
}
use langraph_agent_blueprint.Prelude.Dict.{Dict, lookup, insert, remove}
use langraph_agent_blueprint.Prelude.Result.{Result, ok, raise, ◌>>=◌}
use langraph_agent_blueprint.Ids.{validate_session_id, validate_thread_id}
use langraph_agent_blueprint.Text.{is_space}
use langraph_agent_blueprint.Text.Strip.{strip}

abbrev pub default_cancellation_reason : String
default_cancellation_reason = "Generation stopped by user."

pub record RunControlService : Type 0 where
  pub active_sessions : Dict (Option String)
  pub cancelled_reasons : Dict String

abbrev pub init : RunControlService
init = record { active_sessions = []; cancelled_reasons = [] }

-- `session_id` is checked only where it is given.
unfoldable pub validate_optional : Option String → Result (Option String)
unfolding validate_session_id
validate_optional none = ok none
validate_optional (some s) = do v ← validate_session_id s; ok (some v)

-- `text or default`
abbrev pub or_default : String → String
or_default s = if s == "" then default_cancellation_reason else s

unfoldable pub cancellation_text : Option String → String
unfolding strip is_space
cancellation_text none = or_default (strip is_space default_cancellation_reason)
cancellation_text (some reason) = or_default (strip is_space (or_default reason))

module _ (s : RunControlService) where
  unfoldable pub start_run : String → Option String → Result RunControlService
  unfolding validate_thread_id validate_optional
  start_run thread_id session_id = do
    t ← validate_thread_id thread_id
    session ← validate_optional session_id
    ok (record {
      active_sessions = insert t session s.active_sessions;
      cancelled_reasons = remove t s.cancelled_reasons;
    })

  unfoldable pub finish_run : String → Result RunControlService
  unfolding validate_thread_id
  finish_run thread_id = do
    t ← validate_thread_id thread_id
    ok (record {
      active_sessions = remove t s.active_sessions;
      cancelled_reasons = remove t s.cancelled_reasons;
    })

pub record RunCancellationResult : Type 0 where
  pub cancelled : Bool
  pub thread_id : String
  pub session_id : Option String
  pub reason : String

module _ (s : RunControlService) where
  -- The part of `cancel` under the lock.
  unfoldable pub request_cancel : String → String → RunControlService
  request_cancel t reason =
      if is_some (lookup t s.active_sessions)
      then record s { cancelled_reasons = insert t reason s.cancelled_reasons }
      else s

  unfoldable pub cancel :
      String → Option String → Option String → Result (RunCancellationResult × RunControlService)
  unfolding validate_thread_id validate_optional request_cancel
  cancel thread_id session_id reason = do
    t ← validate_thread_id thread_id
    session ← validate_optional session_id
    let text = cancellation_text reason
    ok (
      record {
        cancelled = is_some (lookup t s.active_sessions);
        thread_id = t;
        session_id = session;
        reason = text;
      },
      request_cancel t text,
    )

  -- `not thread_id` holds of `None` and of the empty text.
  unfoldable pub is_cancelled : Option String → Bool
  is_cancelled none = false
  is_cancelled (some t) = if t == "" then false else is_some (lookup t s.cancelled_reasons)

  unfoldable pub cancellation_reason : Option String → String
  cancellation_reason none = default_cancellation_reason
  cancellation_reason (some t) =
      if t == "" then default_cancellation_reason else elim (lookup t s.cancelled_reasons) [
        | none ↦ default_cancellation_reason
        | some reason ↦ reason
      ]
