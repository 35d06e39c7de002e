-- ===== src/Subagents/Concurrent/Answers.antt =====
-- Which results the calls of the agent tool get.
use langraph_agent_blueprint.Prelude.{
  ℕ, suc, String, ◌≡◌, refl, ap, ◌∙◌, sym, true, false, ◌||◌, Option, none, some, List, [], ◌∷◌,
  ◌++◌, All, any, is_some, or_false, append-nil, append_assoc, inl, inr, Bool-cases, arith,
}
use langraph_agent_blueprint.Prelude.Dict.{Dict}
use langraph_agent_blueprint.State.{State, Update, ToolCall, ToolResult, Event}
use langraph_agent_blueprint.Subagents.{SubagentDependencies, FreshIds}
use langraph_agent_blueprint.Subagents.Concurrent.{
  Stream, streamed_events, enumerate, is_pending, first_pending, Gathered, gather, nothing_gathered,
  gathered_update, combined, outcome, is_refused, run_agent_calls_concurrently,
}
use langraph_agent_blueprint.Subagents.Concurrent.Laws.{
  call_at, has_index, outcomes, run_agent_calls_concurrently-outcomes,
}
use langraph_agent_blueprint.Value.{Value}
use langraph_agent_blueprint.Subagents.Concurrent.Outcome.{
  IsWaiting, outcome-IsOutcome, pending_outcome,
}

abbrev pub result_ids : List ToolResult → List String
result_ids [] = []
result_ids (r ∷ rs) = r.id ∷ result_ids rs

abbrev pub call_ids : List ToolCall → List String
call_ids [] = []
call_ids (call ∷ calls) = call.id ∷ call_ids calls

abbrev all_results : List Update → List ToolResult
all_results [] = []
all_results (u ∷ us) = u.tool_results ++ all_results us

gather-all_results :
    (stream : Option Stream) (i : ℕ) (us : List Update) (g : Gathered)
    → (gather stream i us g).tool_results ≡ g.tool_results ++ all_results us
unfolding gather
gather-all_results stream i [] g = sym (append-nil g.tool_results)
gather-all_results stream i (u ∷ us) g =
    gather-all_results stream (suc i) us _
    ∙ append_assoc g.tool_results u.tool_results (all_results us)

first_pending_none : (o : Option Update) (u : Update) → is_pending u ≡ false → first_pending o u ≡ o
first_pending_none none u h = rw h refl
first_pending_none (some v) u h = refl

gather-none :
    (stream : Option Stream) (i : ℕ) (us : List Update) (g : Gathered)
    → any is_pending us ≡ false
    → (gather stream i us g).pending_update ≡ g.pending_update
unfolding gather
gather-none stream i [] g h = refl
gather-none stream i (u ∷ us) g h =
    let k = or_false (is_pending u) (any is_pending us) h in
    gather-none stream (suc i) us _ k.1 ∙ first_pending_none g.pending_update u k.0

combined-results :
    (stream : Option Stream) (streamed : List Event) (metadata : Dict Value) (us : List Update)
    → any is_pending us ≡ false
    → ((combined stream streamed metadata us).tool_results ≡ all_results us)
      × ((combined stream streamed metadata us).pending_tool_calls ≡ some [])
unfolding combined gathered_update
combined-results stream streamed metadata us h =
    rw (gather-none stream 0 us (nothing_gathered streamed metadata) h)
      (gather-all_results stream 0 us (nothing_gathered streamed metadata), refl)

module _ (deps : SubagentDependencies) (s : State) (fresh : ℕ → FreshIds) where
  result_ids-outcomes :
      (i : ℕ) (calls : List ToolCall)
      → any is_pending (outcomes (outcome deps s fresh) (enumerate i calls)) ≡ false
      → result_ids (all_results (outcomes (outcome deps s fresh) (enumerate i calls)))
        ≡ call_ids calls
  result_ids-outcomes i [] h = refl
  result_ids-outcomes i (call ∷ calls) h =
      let us = outcomes (outcome deps s fresh) (enumerate (suc i) calls) in
      let k = or_false (is_pending (outcome deps s fresh i call)) (any is_pending us) h in
      elim (outcome-IsOutcome deps s fresh i call) [
        | inl r ↦
            ap (λ l. result_ids (l ++ all_results us)) r.results
            ∙ (ap (λ x. x ∷ result_ids (all_results us)) r.id
                ∙ ap (λ l. call.id ∷ l) (result_ids-outcomes (suc i) calls k.1))
        | inr w ↦ cc (k.0, w.waits)
      ]

-- Where each call that is not refused is submitted and ends, and none waits for an approval, every call gets
-- exactly one result, in the order of the calls, and no call is pending after it.
pub run_agent_calls_concurrently-answers :
    (deps : SubagentDependencies) (s : State) (fresh : ℕ → FreshIds) (stream : Option Stream)
    (calls : List ToolCall) (order : List (ℕ × ToolCall))
    → All (λ e. call_at e.0 (enumerate 0 calls) ≡ some e.1) order
    → All (λ e. (is_refused deps s fresh e.0 e.1 || has_index e.0 order) ≡ true) (enumerate 0 calls)
    → any is_pending (outcomes (outcome deps s fresh) (enumerate 0 calls)) ≡ false
    → (result_ids (run_agent_calls_concurrently deps s fresh stream calls order).tool_results
        ≡ call_ids calls)
      × ((run_agent_calls_concurrently deps s fresh stream calls order).pending_tool_calls
          ≡ some [])
run_agent_calls_concurrently-answers deps s fresh stream calls order h g k =
    let us = outcomes (outcome deps s fresh) (enumerate 0 calls) in
    let r = combined-results stream (streamed_events deps s fresh stream calls) s.metadata us k in
    rw (run_agent_calls_concurrently-outcomes deps s fresh stream calls order h g).0
      (ap result_ids r.0 ∙ result_ids-outcomes deps s fresh 0 calls k, r.1)

-- The update that waits, where one does.
abbrev IsKept : Option Update → Type 0
IsKept none = Unit
IsKept (some u) = IsWaiting u

first_pending-IsKept :
    (o : Option Update) (u : Update)
    → IsKept o
    → (is_pending u ≡ true → IsWaiting u)
    → IsKept (first_pending o u)
first_pending-IsKept (some v) u h g = h
first_pending-IsKept none u h g = elim (Bool-cases (is_pending u)) [
  | inl e ↦ rw e (g e)
  | inr e ↦ rw e tt
]

gather-IsKept :
    (stream : Option Stream) (i : ℕ) (us : List Update) (g : Gathered)
    → All (λ u. is_pending u ≡ true → IsWaiting u) us
    → IsKept g.pending_update
    → IsKept (gather stream i us g).pending_update
unfolding gather
gather-IsKept stream i [] g h k = k
gather-IsKept stream i (u ∷ us) g h k =
    gather-IsKept stream (suc i) us _ h.1 (first_pending-IsKept g.pending_update u k h.0)

is_some-first_pending :
    (o : Option Update) (u : Update) → is_some (first_pending o u) ≡ (is_some o || is_pending u)
is_some-first_pending (some v) u = refl
is_some-first_pending none u = elim (Bool-cases (is_pending u)) [
  | inl e ↦ rw e refl
  | inr e ↦ rw e refl
]

is_some-gather :
    (stream : Option Stream) (i : ℕ) (us : List Update) (g : Gathered)
    → is_some (gather stream i us g).pending_update
      ≡ (is_some g.pending_update || any is_pending us)
unfolding gather
is_some-gather stream i [] g = ground arith
is_some-gather stream i (u ∷ us) g =
    is_some-gather stream (suc i) us _ ∙ ground (arith, is_some-first_pending g.pending_update u)

gathered_update-IsKept :
    (o : Option Update) (metadata : Dict Value) (g : Gathered)
    → is_some o ≡ true
    → IsKept o
    → IsWaiting (gathered_update o metadata g)
unfolding gathered_update
gathered_update-IsKept none metadata g h k = cc h
gathered_update-IsKept (some u) metadata g h k = record {
  results = k.results;
  waits = k.waits;
  calls = k.calls;
}

combined-IsWaiting :
    (stream : Option Stream) (streamed : List Event) (metadata : Dict Value) (us : List Update)
    → All (λ u. is_pending u ≡ true → IsWaiting u) us
    → any is_pending us ≡ true
    → IsWaiting (combined stream streamed metadata us)
unfolding combined
combined-IsWaiting stream streamed metadata us h k =
    let g = gather stream 0 us (nothing_gathered streamed metadata) in
    gathered_update-IsKept g.pending_update metadata g
      (is_some-gather stream 0 us (nothing_gathered streamed metadata) ∙ k)
      (gather-IsKept stream 0 us (nothing_gathered streamed metadata) h tt)

module _ (deps : SubagentDependencies) (s : State) (fresh : ℕ → FreshIds) where
  outcomes-IsWaiting :
      (i : ℕ) (calls : List ToolCall)
      → All
          (λ u. is_pending u ≡ true → IsWaiting u)
          (outcomes (outcome deps s fresh) (enumerate i calls))
  outcomes-IsWaiting i [] = tt
  outcomes-IsWaiting i (call ∷ calls) =
      (pending_outcome deps s fresh i call, outcomes-IsWaiting (suc i) calls)

-- Where each call that is not refused is submitted and ends, and one of them waits for an approval, the update
-- waits for an approval and holds no tool result, not even those of the calls that ended, and it leaves the
-- pending calls as they are.
pub run_agent_calls_concurrently-IsWaiting :
    (deps : SubagentDependencies) (s : State) (fresh : ℕ → FreshIds) (stream : Option Stream)
    (calls : List ToolCall) (order : List (ℕ × ToolCall))
    → All (λ e. call_at e.0 (enumerate 0 calls) ≡ some e.1) order
    → All (λ e. (is_refused deps s fresh e.0 e.1 || has_index e.0 order) ≡ true) (enumerate 0 calls)
    → any is_pending (outcomes (outcome deps s fresh) (enumerate 0 calls)) ≡ true
    → IsWaiting (run_agent_calls_concurrently deps s fresh stream calls order)
run_agent_calls_concurrently-IsWaiting deps s fresh stream calls order h g k =
    rw (run_agent_calls_concurrently-outcomes deps s fresh stream calls order h g).0 (
      combined-IsWaiting stream (streamed_events deps s fresh stream calls) s.metadata
        (outcomes (outcome deps s fresh) (enumerate 0 calls))
        (outcomes-IsWaiting deps s fresh 0 calls) k)
