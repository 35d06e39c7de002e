-- ===== src/Nodes/Answers.antt =====
-- What the executor returns for a list of calls, and when it stops the run for failing tools.
use langraph_agent_blueprint.Prelude.{
  ℕ, suc, ◌+◌, String, ◌≡◌, refl, ap, sym, ◌∙◌, Bool, false, Option, none, some, List, [], ◌∷◌,
  ◌++◌, map, length, All, length-append, append-nil, append_step, arith, is_some, ltb,
  if◌then◌else◌,
}
use langraph_agent_blueprint.Prelude.Dict.{Dict}
use langraph_agent_blueprint.Value.{Value}
use langraph_agent_blueprint.Prelude.Result.{ok}
use langraph_agent_blueprint.Hooks.Applier.{apply_hook_results}
use langraph_agent_blueprint.Hooks.Service.{run_hook_point}
use langraph_agent_blueprint.Nodes.{AppDependencies, run_point, cancellation_update}
use langraph_agent_blueprint.Nodes.ToolExecutor.{
  Progress, begun, collect, count_error, terminal_payload, error_of, execute_call, execute_calls,
  tool_executor_node, executed, executed_update, post_update, with_post_hooks,
  recoverable_tool_error_limit,
}
use langraph_agent_blueprint.RunControl.{is_cancelled}
use langraph_agent_blueprint.State.{
  State, Update, ToolCall, ToolResult, Event, tool_result_to_tool_message,
}
use langraph_agent_blueprint.State.Updates.{merge_updates, merge_from, merge_update}
use langraph_agent_blueprint.Tools.{Tool, get}
use langraph_agent_blueprint.Tools.Execution.{execute_with_activity, parsed_call}
use langraph_agent_blueprint.Tools.Execution.Laws.{parsed_call-Answers}

abbrev pub IsRegistered : AppDependencies → ToolCall → Type 0
IsRegistered deps call = (tool : Tool) × (get deps.tool_execution.registry call.name ≡ ok tool)

abbrev fails : ToolResult → Bool
fails r = is_some (error_of r)

-- The number of failures in a row after some more results.
abbrev pub streak : ℕ → List ToolResult → ℕ
streak n [] = n
streak n (r ∷ rs) = streak (if fails r then suc n else 0) rs

-- How often the number of failures in a row stands above the limit.
abbrev pub overruns : ℕ → List ToolResult → ℕ
overruns n [] = 0
overruns n (r ∷ rs) =
    let next = if fails r then suc n else 0 in
    let rest = overruns next rs in if ltb recoverable_tool_error_limit next then suc rest else rest

-- The loop, from one round to a later one.
record Ran (calls : List ToolCall) (p p' : Progress) (new : List ToolResult) : Type 0 where
  ids : map (λ r. r.id) new ≡ map (λ c. c.id) calls
  results : p'.results ≡ p.results ++ new
  messages : p'.messages ≡ p.messages ++ map tool_result_to_tool_message new
  stored : p'.stored ≡ p.stored ++ new
  count : p'.recoverable_error_count ≡ streak p.recoverable_error_count new
  errors : length p'.errors ≡ length p.errors + overruns p.recoverable_error_count new

Ran-counted :
    (digits : ℕ → String) (call : ToolCall) (tool : Tool) (r : ToolResult) (activity : List Event)
    (p : Progress) (e : Option (Dict Value))
    → error_of r ≡ e
    → r.id ≡ call.id
    → Ran (call ∷ []) p (count_error digits r e (collect call tool r activity p)) (r ∷ [])
unfolding collect count_error
Ran-counted digits call tool r activity p (some e) h i = record {
  ids = ap (λ x. x ∷ []) i;
  results = refl;
  messages = refl;
  stored = refl;
  count = rw h refl;
  errors = rw h (
      ground (
        arith,
        length-append p.errors (terminal_payload digits e r (suc p.recoverable_error_count) ∷ []),
      ));
}
Ran-counted digits call tool r activity p none h i = record {
  ids = ap (λ x. x ∷ []) i;
  results = refl;
  messages = refl;
  stored = refl;
  count = rw h refl;
  errors = rw h (ground arith);
}

Ran-trans :
    {call : ToolCall} {calls : List ToolCall} {p q p' : Progress} {r : ToolResult}
    {new : List ToolResult}
    → Ran (call ∷ []) p q (r ∷ [])
    → Ran calls q p' new
    → Ran (call ∷ calls) p p' (r ∷ new)
Ran-trans {p = p} {r = r} {new = new} first rest = record {
  ids = cc (first.ids, rest.ids);
  results = append_step p.results r new first.results rest.results;
  messages =
      append_step p.messages (tool_result_to_tool_message r) (map tool_result_to_tool_message new)
        first.messages rest.messages;
  stored = append_step p.stored r new first.stored rest.stored;
  count = rest.count ∙ ap (λ n. streak n new) first.count;
  errors = ground (arith, rest.errors, first.errors, ap (λ n. overruns n new) first.count);
}

module _ (deps : AppDependencies) (s : State) where
  execute_call-Ran :
      (call : ToolCall) (p : Progress)
      → IsRegistered deps call
      → (p' : Progress) × (r : ToolResult) × (execute_call deps s call p ≡ ok p')
        × Ran (call ∷ []) p p' (r ∷ [])
  unfolding execute_call execute_with_activity
  execute_call-Ran call p (tool, h) =
      let service = deps.tool_execution in
      let outcome = parsed_call service call tool s (tool.parse_input call.args) in
      let answers = parsed_call-Answers service call tool s (tool.parse_input call.args) in
      let r = outcome.0 in
      let digits = deps.tool_execution.digits in
      (
        count_error digits r (error_of r) (collect call tool r outcome.1 p),
        r,
        rw h refl,
        Ran-counted digits call tool r outcome.1 p (error_of r) refl answers.id,
      )

  -- For registered tools, the loop ends, and each call has its result.
  execute_calls-Ran :
      (calls : List ToolCall) (p : Progress)
      → All (IsRegistered deps) calls
      → (p' : Progress) × (new : List ToolResult) × (execute_calls deps s calls p ≡ ok p')
        × Ran calls p p' new
  unfolding execute_calls
  execute_calls-Ran [] p h = (
    p,
    [],
    refl,
    record {
      ids = refl;
      results = sym (append-nil p.results);
      messages = sym (append-nil p.messages);
      stored = sym (append-nil p.stored);
      count = refl;
      errors = omega arith;
    },
  )
  execute_calls-Ran (call ∷ calls) p h =
      let (q, r, e, first) = execute_call-Ran call p h.0 in
      let (p', new, e', rest) = execute_calls-Ran calls q h.1 in
      (p', r ∷ new, rw e e', Ran-trans first rest)

-- An executed round of tool calls, with its results in the order of the calls.
pub record Executed (s : State) (u : Update) (stored : List ToolResult) : Type 0 where
  pub ids : map (λ r. r.id) stored ≡ map (λ c. c.id) s.pending_tool_calls
  pub tool_results : u.tool_results ≡ stored
  pub messages : u.messages ≡ map tool_result_to_tool_message stored
  pub pending_tool_calls : u.pending_tool_calls ≡ some []

running :
    (deps : AppDependencies) (s : State)
    → is_cancelled deps.run_control (some s.thread_id) ≡ false
    → cancellation_update s deps.run_control "tool_executor" ≡ none
unfolding cancellation_update
running deps s c = ground (arith, c)

with_post_hooks-Executed :
    (deps : AppDependencies) (s : State) (p : Progress) (new : List ToolResult)
    → Ran s.pending_tool_calls (begun s) p new
    → Executed s (with_post_hooks deps s p) p.stored
unfolding with_post_hooks post_update run_point run_hook_point apply_hook_results merge_updates
    merge_from merge_update executed_update
with_post_hooks-Executed deps s p new ran = record {
  ids = ap (map (λ r. r.id)) ran.stored ∙ ran.ids;
  tool_results = append-nil p.results ∙ ran.results ∙ sym ran.stored;
  messages =
      append-nil p.messages ∙ ran.messages ∙ ap (map tool_result_to_tool_message) (sym ran.stored);
  pending_tool_calls = refl;
}

-- For pending calls of registered tools, in a run that is not cancelled, the node returns whatever the tools
-- and hooks do: each call gets one result with its id, in order, which is stored, added to the state and
-- answered by a tool message, and no call stays pending.
pub tool_executor_node-Executed :
    (deps : AppDependencies) (s : State)
    → is_cancelled deps.run_control (some s.thread_id) ≡ false
    → All (IsRegistered deps) s.pending_tool_calls
    → (u : Update) × (stored : List ToolResult) × (tool_executor_node deps s ≡ ok (u, stored))
      × Executed s u stored
unfolding tool_executor_node executed
tool_executor_node-Executed deps s c h =
    let (p, new, e, ran) = execute_calls-Ran deps s s.pending_tool_calls (begun s) h in
    (
      with_post_hooks deps s p,
      p.stored,
      ap (executed deps s) (running deps s c) ∙ rw e refl,
      with_post_hooks-Executed deps s p new ran,
    )

-- For calls of registered tools the loop ends, with one error that ends the run for each time that the
-- number of failures in a row, counted on from the state's count, stands above three; a success starts the
-- count again.
pub execute_calls-overruns :
    (deps : AppDependencies) (s : State)
    → All (IsRegistered deps) s.pending_tool_calls
    → (p : Progress) × (new : List ToolResult) × (execute_calls deps s s.pending_tool_calls
          (begun s)
        ≡ ok p)
      × (p.results ≡ new)
      × (p.recoverable_error_count ≡ streak (begun s).recoverable_error_count new)
      × (length p.errors ≡ overruns (begun s).recoverable_error_count new)
execute_calls-overruns deps s h =
    let (p, new, e, ran) = execute_calls-Ran deps s s.pending_tool_calls (begun s) h in
    (p, new, e, ran.results, ran.count, omega (arith, ran.errors))
