-- ===== src/RunControl/Tests.antt =====
-- Runs of the run control service, and its theorems at concrete calls.
use langraph_agent_blueprint.Prelude.{◌≡◌, refl, none, some, List, [], ◌∷◌}
use langraph_agent_blueprint.Ids.{is_runtime_id}
use langraph_agent_blueprint.RunControl.{
  init, start_run, finish_run, cancel, is_cancelled, cancellation_text,
}
use langraph_agent_blueprint.RunControl.Laws.{
  init-IsConsistent, IsConsistent, perform-IsConsistent, phase-perform_all, is_stopping,
  is_cancelled-perform_all,
}
use langraph_agent_blueprint.RunControl.Phases.{
  Call, idle, phase, start, finish, stop, perform, perform_all, phase_after_all,
}
use langraph_agent_blueprint.Prelude.Dict.{lookup, insert, remove}

abbrev calls : List Call
calls =
    start "thread_1" (some "session_1")
    ∷ start "thread 2" none
    ∷ stop "thread_1" none (some " stop ")
    ∷ stop "thread_3" none none
    ∷ start "thread_4" none
    ∷ finish "thread_4"
    ∷ []

calls_run : perform_all calls init ≡ record {
  active_sessions = ("thread_1", some "session_1") ∷ [];
  cancelled_reasons = ("thread_1", "stop") ∷ [];
}
unfolding start_run finish_run cancel cancellation_text is_runtime_id lookup insert remove
calls_run = refl

blank_reason : cancellation_text (some "  ") ≡ "Generation stopped by user."
unfolding cancellation_text
blank_reason = refl

perform-IsConsistent_example : IsConsistent (perform (start "thread_1" none) init)
perform-IsConsistent_example = perform-IsConsistent (start "thread_1" none) init init-IsConsistent

phase-perform_all_example :
    phase (perform_all calls init) "thread_1"
    ≡ phase_after_all "thread_1" calls (phase init "thread_1")
phase-perform_all_example = phase-perform_all "thread_1" calls init

is_cancelled-perform_all_example :
    is_cancelled (perform_all calls init) (some "thread_1")
    ≡ is_stopping (phase_after_all "thread_1" calls idle)
is_cancelled-perform_all_example = is_cancelled-perform_all "thread_1" calls refl
