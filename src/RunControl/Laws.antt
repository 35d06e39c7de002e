-- ===== src/RunControl/Laws.antt =====
-- The service implements the phases of each thread, and cancels nothing but active runs.
use langraph_agent_blueprint.Prelude.{
  String, ◌≡◌, refl, ap, ◌∙◌, Bool, true, false, Option, none, some, List, [], ◌∷◌, ◌==◌, arith,
  eq_iff,
}
use langraph_agent_blueprint.Prelude.Dict.{lookup, lookup-insert, lookup-remove}
use langraph_agent_blueprint.RunControl.{
  RunControlService, init, start_run, finish_run, cancel, is_cancelled, cancellation_text,
}
use langraph_agent_blueprint.RunControl.Phases.{
  Phase, idle, stopping, phase, Call, start, finish, stop, perform, perform_all, phase_after,
  phase_after_all,
}

-- Only an active thread has a cancellation request.
pub record IsConsistent (s : RunControlService) : Type 0 where
  pub idle_clear :
      (t : String) → lookup t s.active_sessions ≡ none → lookup t s.cancelled_reasons ≡ none

pub init-IsConsistent : IsConsistent init
unfolding lookup
init-IsConsistent = record { idle_clear = λ t h. refl }

module _ (t u : String) (session : Option String) (s : RunControlService) where
  phase-start : phase (perform (start u session) s) t ≡ phase_after t (start u session) (phase s t)
  unfolding start_run
  phase-start =
      ground
        (arith, lookup-insert t u session s.active_sessions, lookup-remove t u s.cancelled_reasons)

  phase-finish : phase (perform (finish u) s) t ≡ phase_after t (finish u) (phase s t)
  unfolding finish_run
  phase-finish =
      ground (arith, lookup-remove t u s.active_sessions, lookup-remove t u s.cancelled_reasons)

  phase-stop :
      (reason : Option String)
      → phase (perform (stop u session reason) s) t
        ≡ phase_after t (stop u session reason) (phase s t)
  unfolding cancel
  phase-stop reason =
      ground (arith, eq_iff u t, lookup-insert t u (cancellation_text reason) s.cancelled_reasons)

module _ (u : String) (session : Option String) (s : RunControlService) where
  start-IsConsistent : IsConsistent s → IsConsistent (perform (start u session) s)
  unfolding start_run
  start-IsConsistent v = record {
    idle_clear = λ t. ground (
      arith,
      v.idle_clear t,
      lookup-insert t u session s.active_sessions,
      lookup-remove t u s.cancelled_reasons,
    );
  }

  finish-IsConsistent : IsConsistent s → IsConsistent (perform (finish u) s)
  unfolding finish_run
  finish-IsConsistent v = record {
    idle_clear = λ t. ground (
      arith,
      v.idle_clear t,
      lookup-remove t u s.active_sessions,
      lookup-remove t u s.cancelled_reasons,
    );
  }

  stop-IsConsistent :
      (reason : Option String) → IsConsistent s → IsConsistent (perform (stop u session reason) s)
  unfolding cancel
  stop-IsConsistent reason v = record {
    idle_clear = λ t. ground (
      arith,
      v.idle_clear t,
      eq_iff u t,
      lookup-insert t u (cancellation_text reason) s.cancelled_reasons,
    );
  }

-- Every call, accepted or not, keeps the service consistent: only active threads hold a
-- cancellation request.
pub perform-IsConsistent :
    (c : Call) (s : RunControlService) → IsConsistent s → IsConsistent (perform c s)
perform-IsConsistent (start u session) s v = start-IsConsistent u session s v
perform-IsConsistent (finish u) s v = finish-IsConsistent u none s v
perform-IsConsistent (stop u session reason) s v = stop-IsConsistent u session s reason v

pub perform_all-IsConsistent :
    (cs : List Call) (s : RunControlService) → IsConsistent s → IsConsistent (perform_all cs s)
perform_all-IsConsistent [] s v = v
perform_all-IsConsistent (c ∷ cs) s v =
    perform_all-IsConsistent cs (perform c s) (perform-IsConsistent c s v)

phase-perform :
    (t : String) (c : Call) (s : RunControlService)
    → phase (perform c s) t ≡ phase_after t c (phase s t)
phase-perform t (start u session) s = phase-start t u session s
phase-perform t (finish u) s = phase-finish t u none s
phase-perform t (stop u session reason) s = phase-stop t u session s reason

-- The service refines the phases: after any calls, from any service, what it stores about a thread
-- is what the phase machine of that thread alone computes from the same calls.
pub phase-perform_all :
    (t : String) (cs : List Call) (s : RunControlService)
    → phase (perform_all cs s) t ≡ phase_after_all t cs (phase s t)
phase-perform_all t [] s = refl
phase-perform_all t (c ∷ cs) s =
    phase-perform_all t cs (perform c s) ∙ ap (phase_after_all t cs) (phase-perform t c s)

abbrev pub is_stopping : Phase → Bool
is_stopping (stopping session reason) = true
is_stopping p = false

-- After any calls on a new service, the nodes of a thread with a non-empty id see it as cancelled
-- exactly when its phase machine is stopping.
pub is_cancelled-perform_all :
    (t : String) (cs : List Call)
    → (t == "") ≡ false
    → is_cancelled (perform_all cs init) (some t) ≡ is_stopping (phase_after_all t cs idle)
unfolding is_cancelled lookup
is_cancelled-perform_all t cs h =
    rw (← phase-perform_all t cs init)
      (ground (arith, (perform_all-IsConsistent cs init init-IsConsistent).idle_clear t))
