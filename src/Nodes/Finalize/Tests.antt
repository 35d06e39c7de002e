-- ===== src/Nodes/Finalize/Tests.antt =====
-- The end of a turn at concrete states.
use langraph_agent_blueprint.Prelude.{◌≡◌, refl, some, [], ◌∷◌}
use langraph_agent_blueprint.Nodes.{reduced}
use langraph_agent_blueprint.Nodes.Tests.{deps}
use langraph_agent_blueprint.Nodes.Finalize.{
  recovery_text, final_text, finalize_response_node, error_recovery_node,
}
use langraph_agent_blueprint.Nodes.Finalize.Laws.{
  Ends, finalize_response_node-Ends, error_recovery_node-final,
}
use langraph_agent_blueprint.State.{State, human, ai}
use langraph_agent_blueprint.State.Updates.Tests.{blank, append_messages}
use langraph_agent_blueprint.Value.{str}

abbrev talk : State
talk = record blank { messages = human "hello" ∷ ai "hi" [] ∷ human "bye" ∷ [] }

abbrev failed : State
failed = record talk { errors = (("message", str "one") ∷ []) ∷ (("message", str "two") ∷ []) ∷ [] }

talk_answer : (finalize_response_node talk).final_response ≡ some (some "hi")
unfolding finalize_response_node final_text
talk_answer = refl

finalize_response_node-Ends_example : Ends talk (finalize_response_node talk)
finalize_response_node-Ends_example = finalize_response_node-Ends talk

error_recovery_node-final_example :
    let t = reduced append_messages failed (error_recovery_node deps failed) in
    (t.pending_tool_calls ≡ [])
    × ((finalize_response_node t).final_response ≡ some (some (recovery_text deps.show failed)))
error_recovery_node-final_example = error_recovery_node-final append_messages deps failed
