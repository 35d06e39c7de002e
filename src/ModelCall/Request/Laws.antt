-- ===== src/ModelCall/Request/Laws.antt =====
-- What the fitted request takes of the window.
use langraph_agent_blueprint.Prelude.{
  ℕ, suc, ◌+◌, ◌-◌, ◌/◌, ◌≤◌, max, ap, ◌≡◌, refl, some, List, [], ◌∷◌, ◌++◌, ◌⊎◌, inl, inr, String,
  arith, Bool-cases, ◌==◌, if◌then◌else◌,
}
use langraph_agent_blueprint.ModelCall.{ModelDependencies, ModelRequest, rough_token_estimate}
use langraph_agent_blueprint.ModelCall.Fit.{truncated_message, fit_messages_to_budget}
use langraph_agent_blueprint.ModelCall.Fit.Laws.{total, fit_messages_to_budget-cases}
use langraph_agent_blueprint.ModelCall.Request.{
  ModelContextPart, used_by, has_entries, system_parts, message_parts, tool_parts, metadata_parts,
  parts_of, message_budget, overhead_tokens, fit_request_to_context_window, model_context_report,
}
use langraph_agent_blueprint.Prelude.Dict.{Dict}
use langraph_agent_blueprint.Value.{Value}
use langraph_agent_blueprint.State.{Message}
use langraph_agent_blueprint.Text.{text_length}

rough_token_estimate_lem : (chars : ℕ) → rough_token_estimate chars ≡ (chars + 3) / 4
unfolding rough_token_estimate
rough_token_estimate_lem chars = ground arith

used_by-append : (xs ys : List ModelContextPart) → used_by (xs ++ ys) ≡ used_by xs + used_by ys
used_by-append [] ys = omega arith
used_by-append (x ∷ xs) ys = omega (arith, used_by-append xs ys)

module _ (deps : ModelDependencies) where
  used_by-system_parts :
      (text : String) → used_by (system_parts deps text) ≤ (text_length text + 3) / 4
  unfolding system_parts
  used_by-system_parts text = elim (Bool-cases (text == "")) [
    | inl e ↦ rw e (omega arith)
    | inr e ↦ rw e (omega (arith, rough_token_estimate_lem (text_length text)))
  ]

  used_by-message_parts :
      (i : ℕ) (ms : List Message) → used_by (message_parts deps i ms) ≡ total deps ms
  unfolding message_parts
  used_by-message_parts i [] = refl
  used_by-message_parts i (m ∷ ms) = omega (arith, used_by-message_parts (suc i) ms)

  used_by-tool_parts :
      (tools : Dict Value) (schema_chars : ℕ)
      → used_by (tool_parts deps tools schema_chars) ≤ (schema_chars + 3) / 4
  unfolding tool_parts
  used_by-tool_parts [] schema_chars = omega arith
  used_by-tool_parts (x ∷ tools) schema_chars = omega (arith, rough_token_estimate_lem schema_chars)

  used_by-metadata_parts :
      (d : Dict Value)
      → used_by (metadata_parts deps d)
        ≤ ((if has_entries d then text_length (deps.json_text d) else 0) + 3) / 4
  unfolding metadata_parts
  used_by-metadata_parts [] = omega arith
  used_by-metadata_parts (x ∷ d) =
      omega (arith, rough_token_estimate_lem (text_length (deps.json_text (x ∷ d))))

  used_by-sum :
      (a b c d : List ModelContextPart)
      → used_by (a ++ b ++ c ++ d) ≡ used_by a + (used_by b + (used_by c + used_by d))
  used_by-sum a b c d =
      omega (arith, used_by-append (a ++ b ++ c) d, used_by-append (a ++ b) c, used_by-append a b)

  -- The parts are rounded up one by one, and the overhead at once.
  used_by-parts_of :
      (request : ModelRequest) (schema_chars : ℕ)
      → used_by (parts_of deps request schema_chars)
        ≤ overhead_tokens deps request schema_chars + total deps request.messages + 2
  unfolding overhead_tokens parts_of
  used_by-parts_of request schema_chars =
      let metadata_chars : ℕ =
        if has_entries request.metadata then text_length (deps.json_text request.metadata) else 0 in
      let sys = system_parts deps request.system_context in
      let msgs = message_parts deps 1 request.messages in
      let tools = tool_parts deps request.tools schema_chars in
      let meta = metadata_parts deps request.metadata in
      rw (used_by-sum sys msgs tools meta) (
        omega (
          arith,
          used_by-system_parts request.system_context,
          used_by-message_parts 1 request.messages,
          used_by-tool_parts request.tools schema_chars,
          used_by-metadata_parts request.metadata,
          rough_token_estimate_lem
              (text_length request.system_context + schema_chars + metadata_chars),
        ))

  message_budget_lem :
      (request : ModelRequest) (window schema_chars : ℕ)
      → 1 ≤ window
      → message_budget deps request window schema_chars
        ≡ some (window - overhead_tokens deps request schema_chars)
  unfolding message_budget
  message_budget_lem request window schema_chars h = ground (arith, h)

-- Where the overhead of a request fits the window, what is sent takes at most two estimated tokens more than
-- the window, or its only message is the latest one, cut.
pub fit_request_to_context_window-bound :
    (deps : ModelDependencies) (request : ModelRequest) (window schema_chars : ℕ)
    → 1 ≤ window
    → overhead_tokens deps request schema_chars ≤ window
    → ((fit_request_to_context_window deps request window schema_chars).1.used_tokens ≤ window + 2)
      ⊎ ((front : List Message) × (last : Message) × (front ++ last ∷ [] ≡ request.messages)
          × ((fit_request_to_context_window deps request window schema_chars).0.messages
              ≡ truncated_message deps last
                  (max 1 (window - overhead_tokens deps request schema_chars))
                ∷ []))
unfolding fit_request_to_context_window model_context_report
fit_request_to_context_window-bound deps request window schema_chars h g =
    let budget = window - overhead_tokens deps request schema_chars in
    let kept = (fit_messages_to_budget deps request.messages (some budget)).0 in
    rw (message_budget_lem deps request window schema_chars h)
      (elim (fit_messages_to_budget-cases deps request.messages budget) [
        | inl s ↦ inl (
            omega (
              arith,
              g,
              s.bound,
              used_by-parts_of deps (record request { messages = kept }) schema_chars,
            ))
        | inr c ↦ inr (c.front, c.last, c.split, ap (λ r. r.0) c.only)
      ])
