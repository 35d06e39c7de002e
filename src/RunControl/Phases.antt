-- ===== src/RunControl/Phases.antt =====
-- What one thread sees of the run control service: a run that is idle, running or stopping.
use langraph_agent_blueprint.Prelude.{
  String, Bool, true, false, Option, none, some, List, [], ◌∷◌, if◌then◌else◌, ◌==◌,
}
use langraph_agent_blueprint.Prelude.Dict.{lookup}
use langraph_agent_blueprint.Prelude.Result.{Result, ok, raise, ◌>>=◌}
use langraph_agent_blueprint.Ids.{is_runtime_id}
use langraph_agent_blueprint.RunControl.{
  RunControlService, start_run, finish_run, cancel, cancellation_text,
}

pub data Phase : Type 0 where
  idle : Phase
  running : Option String → Phase
  stopping : Option String → String → Phase

abbrev phase_of : Option (Option String) → Option String → Phase
phase_of none r = idle
phase_of (some session) none = running session
phase_of (some session) (some r) = stopping session r

abbrev pub phase : RunControlService → String → Phase
phase s t = phase_of (lookup t s.active_sessions) (lookup t s.cancelled_reasons)

-- A call of one of the three methods that change the service.
pub data Call : Type 0 where
  start : String → Option String → Call
  finish : String → Call
  stop : String → Option String → Option String → Call

abbrev pub thread : Call → String
thread (start t session) = t
thread (finish t) = t
thread (stop t session reason) = t

-- The service after a call; a call that raises leaves it as it was.
abbrev state_after : RunControlService → Result RunControlService → RunControlService
state_after s (ok s') = s'
state_after s (raise e) = s

abbrev pub perform : Call → RunControlService → RunControlService
perform (start t session) s = state_after s (start_run s t session)
perform (finish t) s = state_after s (finish_run s t)
perform (stop t session reason) s =
    state_after s (do (result, s') ← cancel s t session reason; ok s')

abbrev pub perform_all : List Call → RunControlService → RunControlService
perform_all [] s = s
perform_all (c ∷ cs) s = perform_all cs (perform c s)

-- The specification: whether a call is accepted, and what it does to its thread's phase.
abbrev is_optional_id : Option String → Bool
is_optional_id none = true
is_optional_id (some session) = is_runtime_id session

abbrev pub is_accepted : Call → Bool
is_accepted (start t session) = if is_runtime_id t then is_optional_id session else false
is_accepted (finish t) = is_runtime_id t
is_accepted (stop t session reason) = if is_runtime_id t then is_optional_id session else false

abbrev stop_phase : Phase → String → Phase
stop_phase idle r = idle
stop_phase (running session) r = stopping session r
stop_phase (stopping session old) r = stopping session r

abbrev pub phase_step : Call → Phase → Phase
phase_step (start t session) p = running session
phase_step (finish t) p = idle
phase_step (stop t session reason) p = stop_phase p (cancellation_text reason)

abbrev pub phase_after : String → Call → Phase → Phase
phase_after t c p = if is_accepted c then (if thread c == t then phase_step c p else p) else p

abbrev pub phase_after_all : String → List Call → Phase → Phase
phase_after_all t [] p = p
phase_after_all t (c ∷ cs) p = phase_after_all t cs (phase_after t c p)
