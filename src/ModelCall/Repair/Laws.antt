-- ===== src/ModelCall/Repair/Laws.antt =====
-- What the repair keeps, what it reads of the conversation, and what a stream leaves behind.
use Prim.Native.String.append
use langraph_agent_blueprint.Prelude.{
  String, ◌<>◌, ◌≡◌, refl, ap, ◌∙◌, sym, Bool, true, false, ◌||◌, ◌&&◌, not, List, [], ◌∷◌, ◌++◌,
  any-reverse, reverse-around, reverse, any, ◌⊎◌, inl, inr, Bool-cases, if_both, arith, ◌==◌,
  eq_iff,
}
use langraph_agent_blueprint.Prelude.Result.{ok, >>=-holds, ok_injective, ok-holds}
use langraph_agent_blueprint.ModelCall.{ModelDependencies, ModelRequest, ModelResponse}
use langraph_agent_blueprint.ModelCall.Repair.{
  calls_agent, agent_called_from, agent_called_after_latest_user, user_text_from, latest_user_text,
  needs_subagent_tool_repair, repaired_content, with_repair, with_calls, makes_calls,
  repair_request, repair_missing_subagent_tool_calls,
}
use langraph_agent_blueprint.State.{Message, human, system, ai, tool, remove_all, ToolCall}
use langraph_agent_blueprint.Text.Search.{starts_with, has_text}

starts_with-append : (s t : String) → starts_with s (s <> t) ≡ true
unfolding starts_with
starts_with-append String.[] t = refl
starts_with-append (String.◌∷◌ c s) t = rw append.cons (ground (arith, starts_with-append s t))

starts_with_refl : (s : String) → starts_with s s ≡ true
unfolding starts_with
starts_with_refl String.[] = refl
starts_with_refl (String.◌∷◌ c s) = ground (arith, starts_with_refl s)

starts_with_empty : (s t : String) → s ≡ "" → starts_with s t ≡ true
unfolding starts_with
starts_with_empty s t h = rw h refl

starts_with-repaired_content :
    (first second : String) → starts_with first (repaired_content first second) ≡ true
unfolding repaired_content
starts_with-repaired_content first second = elim (Bool-cases (first == "")) [
  | inl e ↦ rw e (starts_with_empty first second ((eq_iff first "").0 e))
  | inr e ↦ rw e (
      if_both (starts_with first) (not (second == "") && not (has_text second first))
        (starts_with-append first ("\n\n" <> second)) (starts_with_refl first))
]

abbrev pub is_human : Message → Bool
is_human (human text) = true
is_human _ = false

abbrev pub makes_agent_call : Message → Bool
makes_agent_call (ai text calls) = calls_agent calls
makes_agent_call _ = false

agent_called_from-append :
    (xs ys : List Message) (text : String)
    → any is_human xs ≡ false
    → agent_called_from (xs ++ human text ∷ ys) ≡ any makes_agent_call xs
unfolding agent_called_from
agent_called_from-append [] ys text h = refl
agent_called_from-append (human t ∷ xs) ys text h = cc h
agent_called_from-append (system t ∷ xs) ys text h = agent_called_from-append xs ys text h
agent_called_from-append (ai t calls ∷ xs) ys text h =
    ap (λ b. calls_agent calls || b) (agent_called_from-append xs ys text h)
agent_called_from-append (tool id p ∷ xs) ys text h = agent_called_from-append xs ys text h
agent_called_from-append (remove_all ∷ xs) ys text h = agent_called_from-append xs ys text h

user_text_from-append :
    (xs ys : List Message) (text : String)
    → any is_human xs ≡ false
    → user_text_from (xs ++ human text ∷ ys) ≡ text
unfolding user_text_from
user_text_from-append [] ys text h = refl
user_text_from-append (human t ∷ xs) ys text h = cc h
user_text_from-append (system t ∷ xs) ys text h = user_text_from-append xs ys text h
user_text_from-append (ai t calls ∷ xs) ys text h = user_text_from-append xs ys text h
user_text_from-append (tool id p ∷ xs) ys text h = user_text_from-append xs ys text h
user_text_from-append (remove_all ∷ xs) ys text h = user_text_from-append xs ys text h

-- Where no later message is the user's, the last message of the user gives the text that decides whether
-- subagents are wanted, and only calls after it count as calls of the agent tool.
pub latest_user :
    (before after : List Message) (text : String)
    → any is_human after ≡ false
    → (latest_user_text (before ++ human text ∷ after) ≡ text)
      × (agent_called_after_latest_user (before ++ human text ∷ after) ≡ any makes_agent_call after)
unfolding latest_user_text agent_called_after_latest_user
latest_user before after text h =
    let e = any-reverse is_human after ∙ h in
    rw (reverse-around before after (human text)) (
      user_text_from-append (reverse after) (reverse before) text e,
      agent_called_from-append (reverse after) (reverse before) text e
          ∙ any-reverse makes_agent_call after,
    )

-- What a repair does to a response: it adds calls, where there were none, and to the text.
pub record IsRepaired (lower : String → String) (request : ModelRequest)
    (first last : ModelResponse) : Type 0 where
  pub needed : needs_subagent_tool_repair lower request first ≡ true
  pub none_made : makes_calls first ≡ false
  pub some_made : makes_calls last ≡ true
  pub extends : starts_with first.content last.content ≡ true

with_calls-cases :
    (lower : String → String) (request : ModelRequest) (calls : List ToolCall)
    (first repaired : ModelResponse)
    → needs_subagent_tool_repair lower request first ≡ true
    → makes_calls first ≡ false
    → (with_calls calls first repaired ≡ first)
      ⊎ IsRepaired lower request first (with_calls calls first repaired)
unfolding with_calls
with_calls-cases lower request [] first repaired h g = inl refl
with_calls-cases lower request (call ∷ calls) first repaired h g = inr (record {
  needed = h;
  none_made = g;
  some_made = refl;
  extends = starts_with-repaired_content first.content repaired.content;
})

-- After the repair a response is as it was, or it had no call although the repair was needed, and now it has
-- calls and its text begins with the text it had.
pub repair_missing_subagent_tool_calls-cases :
    (deps : ModelDependencies) (request : ModelRequest) (first last : ModelResponse)
    → repair_missing_subagent_tool_calls deps request first ≡ ok last
    → (last ≡ first) ⊎ IsRepaired deps.app.lower request first last
unfolding repair_missing_subagent_tool_calls with_repair
repair_missing_subagent_tool_calls-cases deps request first last =
    let needed = needs_subagent_tool_repair deps.app.lower request first in
    elim (Bool-cases (makes_calls first)) [
      | inl e ↦ rw e (λ h. inl (sym (ok_injective first last h)))
      | inr e ↦ elim (Bool-cases needed) [
        | inl g ↦ rw e (
            rw g (
              >>=-holds (λ r. (r ≡ first) ⊎ IsRepaired deps.app.lower request first r)
                (deps.model_provider.generate (repair_request request first)) _
                (λ repaired r.
                  ok-holds (λ r. (r ≡ first) ⊎ IsRepaired deps.app.lower request first r)
                    (with_calls-cases deps.app.lower request repaired.tool_calls first repaired g
                      e))
                last))
        | inr g ↦ rw e (rw g (λ h. inl (sym (ok_injective first last h))))
      ]
    ]
