-- ===== src/Tools/Execution/Laws.antt =====
-- Every tool call gets a result of its own, and the result's text stays within the limit.
use langraph_agent_blueprint.Prelude.{
  ℕ, ◌+◌, ◌-◌, ◌≤◌, String, ◌<>◌, ◌≡◌, refl, Option, none, some, List, min, arith,
}
use langraph_agent_blueprint.Prelude.Result.{Result, ok, raise, Error, >>=-holds}
use langraph_agent_blueprint.State.{State, ToolCall, ToolResult, Event}
use langraph_agent_blueprint.Text.{text_length, take_text, text_length-append, text_length-take}
use langraph_agent_blueprint.Tools.{Tool, get}
use langraph_agent_blueprint.Tools.Execution.{
  truncate_text, ToolExecutionService, record_for_output, error_record, with_snapshot, completed,
  attempted, parsed_call, execute_with_activity, effects_of, ok_status, snapshot_of,
}
use langraph_agent_blueprint.Value.{Value, Fields}

-- A text is cut to the limit, where the note on what was cut fits into it.
text_length-truncate_text :
    (digits : ℕ → String) (text : String) (limit : ℕ)
    → text_length (digits (text_length text - limit)) + 22 ≤ limit
    → text_length (truncate_text digits text limit).0 ≡ min limit (text_length text)
unfolding truncate_text
text_length-truncate_text digits text limit h =
    let count = digits (text_length text - limit) in
    let suffix : String = "\n...[truncated " <> count <> " chars]" in
    ground (
      arith,
      h,
      text_length-append "\n...[truncated " (count <> " chars]"),
      text_length-append count " chars]",
      text_length-append (take_text (limit - text_length suffix) text) suffix,
      text_length-take (limit - text_length suffix) text,
    )

-- A result that answers a call.
pub record Answers (call : ToolCall) (tool : Tool) (r : ToolResult) : Type 0 where
  pub id : r.id ≡ call.id
  pub name : r.name ≡ tool.name

module _ (service : ToolExecutionService) (call : ToolCall) (tool : Tool) where
  error_record-Answers : (e : Error) → Answers call tool (error_record service call tool e)
  unfolding error_record
  error_record-Answers e = record { id = refl; name = refl }

  with_snapshot-Answers :
      (snapshot : Option Value) (r : ToolResult)
      → Answers call tool r
      → Answers call tool (with_snapshot service snapshot r)
  with_snapshot-Answers none r h = h
  with_snapshot-Answers (some v) r h = record { id = h.id; name = h.name }

  completed-Answers :
      (parsed : Fields) (s : State) (r : ToolResult)
      → completed service call tool parsed s ≡ ok r
      → Answers call tool r
  unfolding completed record_for_output
  completed-Answers parsed s =
      >>=-holds (Answers call tool) (snapshot_of service tool parsed call s) _ (λ snapshot.
        >>=-holds (Answers call tool) (tool.run parsed s) _ (λ output.
          >>=-holds (Answers call tool)
            (effects_of service call tool output s (ok_status output.succeeded)) _
            (λ u r e.
              let h =
                with_snapshot-Answers snapshot (record_for_output service call tool output)
                  (record { id = refl; name = refl }) in
              record { id = ground (arith, e, h.id); name = ground (arith, e, h.name) })))

  attempted-Answers :
      (m : Result ToolResult)
      → ((r : ToolResult) → m ≡ ok r → Answers call tool r)
      → Answers call tool (attempted service call tool m).0
  unfolding attempted
  attempted-Answers (ok r) h = h r refl
  attempted-Answers (raise e) h = error_record-Answers e

  pub parsed_call-Answers :
      (s : State) (m : Result Fields) → Answers call tool (parsed_call service call tool s m).0
  unfolding parsed_call
  parsed_call-Answers s (ok parsed) =
      attempted-Answers (completed service call tool parsed s) (completed-Answers parsed s)
  parsed_call-Answers s (raise e) = error_record-Answers e

-- A call of a registered tool always gets a result, whatever the tool raises, and the result carries the
-- call's id and the tool's name.
pub execute_with_activity-Answers :
    (service : ToolExecutionService) (call : ToolCall) (s : State) (tool : Tool)
    → get service.registry call.name ≡ ok tool
    → (outcome : ToolResult × List Event) × (execute_with_activity service call s ≡ ok outcome)
      × Answers call tool outcome.0
unfolding execute_with_activity
execute_with_activity-Answers service call s tool h = (
  parsed_call service call tool s (tool.parse_input call.args),
  rw h refl,
  parsed_call-Answers service call tool s (tool.parse_input call.args),
)
