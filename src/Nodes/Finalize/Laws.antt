-- ===== src/Nodes/Finalize/Laws.antt =====
-- Which text ends a turn, and what an error leaves for it.
use mathlib.Core.List.{reverse-reverse}
use langraph_agent_blueprint.Prelude.{
  ℕ, suc, String, ◌<>◌, ◌≡◌, refl, ap, sym, ◌∙◌, Bool, true, false, Option, none, some, List, [],
  ◌∷◌, ◌++◌, any, ◌==◌, eq_iff, if◌then◌else◌, ◌&&◌, reverse, Bool-cases, ◌⊎◌, inl, inr,
  any-reverse, around-reverse, arith,
}
use langraph_agent_blueprint.Prelude.Dict.{insert}
use langraph_agent_blueprint.Value.{str, bool}
use langraph_agent_blueprint.Nodes.{AppDependencies, MessagesReducer, reduced}
use langraph_agent_blueprint.Nodes.Finalize.{
  line_rest, result_line, from_results, from_messages, text_or_empty, or_text, final_text,
  recovery_text, recovery_prefix, error_message, finalize_response_node, error_recovery_node,
}
use langraph_agent_blueprint.State.{
  Update, Event, event, State, Message, ai, human, system, tool, remove_all, ToolResult, ToolCall,
}
use langraph_agent_blueprint.Text.{text_length, text_length-append}
use langraph_agent_blueprint.State.Updates.{merge_updates, merge_from, merge_update}

abbrev pub is_ai : Message → Bool
is_ai (ai content calls) = true
is_ai m = false

-- Where the text that ends a turn comes from.
pub data Chosen (s : State) : String → Type 0 where
  explicit : (text : String) → s.final_response ≡ some text → (text == "") ≡ false → Chosen s text
  last_result :
      (before : List ToolResult) (r : ToolResult)
      → text_or_empty s.final_response ≡ ""
      → s.tool_results ≡ before ++ r ∷ []
      → Chosen s (result_line r)
  last_message :
      (before after : List Message) (content : String) (calls : List ToolCall)
      → text_or_empty s.final_response ≡ ""
      → s.tool_results ≡ []
      → s.messages ≡ before ++ ai content calls ∷ after
      → any is_ai after ≡ false
      → Chosen s content
  no_text :
      text_or_empty s.final_response ≡ ""
      → s.tool_results ≡ []
      → any is_ai s.messages ≡ false
      → Chosen s ""

-- Either the list has no message of the model, or the text is the one of the first such message.
data FirstAi (ms : List Message) : Type 0 where
  none_there : any is_ai ms ≡ false → from_messages ms ≡ "" → FirstAi ms
  found :
      (before after : List Message) (content : String) (calls : List ToolCall)
      → ms ≡ before ++ ai content calls ∷ after
      → any is_ai before ≡ false
      → from_messages ms ≡ content
      → FirstAi ms

later_first :
    (m : Message) (ms : List Message)
    → is_ai m ≡ false
    → from_messages (m ∷ ms) ≡ from_messages ms
    → FirstAi ms
    → FirstAi (m ∷ ms)
later_first m ms h e (none_there a b) = none_there (rw h a) (e ∙ b)
later_first m ms h e (found before after content calls a b c) =
    found (m ∷ before) after content calls (ap (λ l. m ∷ l) a) (rw h b) (e ∙ c)

first_ai : (ms : List Message) → FirstAi ms
first_ai [] = none_there refl refl
first_ai (ai content calls ∷ ms) = found [] ms content calls refl refl refl
first_ai (human t ∷ ms) = later_first (human t) ms refl refl (first_ai ms)
first_ai (system t ∷ ms) = later_first (system t) ms refl refl (first_ai ms)
first_ai (tool id p ∷ ms) = later_first (tool id p) ms refl refl (first_ai ms)
first_ai (remove_all ∷ ms) = later_first remove_all ms refl refl (first_ai ms)

given : (o : Option String) → (text_or_empty o == "") ≡ false → o ≡ some (text_or_empty o)
given none h = ground (arith, h)
given (some t) h = refl

List-cases : {A : Type 0} (xs : List A) → (xs ≡ []) ⊎ ((x : A) × (ys : List A) × (xs ≡ x ∷ ys))
List-cases [] = inl refl
List-cases (x ∷ xs) = inr (x, xs, refl)

no_entries : {A : Type 0} (xs : List A) → reverse xs ≡ [] → xs ≡ []
no_entries xs h = sym (reverse-reverse xs) ∙ ap reverse h

append-IsFilled : (t rest : String) (n : ℕ) → text_length t ≡ suc n → ((t <> rest) == "") ≡ false
append-IsFilled t rest n k = elim (Bool-cases ((t <> rest) == "")) [
  | inl e ↦
      let h = ap text_length ((eq_iff (t <> rest) "").0 e) in
      ground (arith, h, k, text_length-append t rest)
  | inr e ↦ e
]

or_text-left : (t other : String) → (t == "") ≡ false → or_text t other ≡ t
or_text-left t other h = rw h refl

module _ (s : State) (unset : text_or_empty s.final_response ≡ "") where
  final_text-messages : s.tool_results ≡ [] → final_text s ≡ from_messages (reverse s.messages)
  unfolding final_text
  final_text-messages h = rw unset (rw h refl)

  final_text-results :
      (r : ToolResult) (rs : List ToolResult)
      → reverse s.tool_results ≡ r ∷ rs
      → final_text s ≡ result_line r
  unfolding final_text
  final_text-results r rs h = rw unset (
      ap (λ l. or_text (from_results l) (from_messages (reverse s.messages))) h
      ∙ or_text-left (result_line r) _ (append-IsFilled "Tool " (line_rest r) 4 refl))

  of_messages : s.tool_results ≡ [] → FirstAi (reverse s.messages) → Chosen s (final_text s)
  of_messages h (none_there a b) =
      rw (final_text-messages h ∙ b) (no_text unset h (sym (any-reverse is_ai s.messages) ∙ a))
  of_messages h (found before after content calls a b c) = rw (final_text-messages h ∙ c) (
      last_message (reverse after) (reverse before) content calls unset h
        (around-reverse before after s.messages (ai content calls) a)
        (any-reverse is_ai before ∙ b))

  of_results :
      (r : ToolResult) (rs : List ToolResult)
      → reverse s.tool_results ≡ r ∷ rs
      → Chosen s (final_text s)
  of_results r rs h =
      rw (final_text-results r rs h)
        (last_result (reverse rs) r unset (around-reverse [] rs s.tool_results r h))

final_text-Chosen : (s : State) → Chosen s (final_text s)
unfolding final_text
final_text-Chosen s = elim (Bool-cases (text_or_empty s.final_response == "")) [
  | inl e ↦
      let unset = (eq_iff (text_or_empty s.final_response) "").0 e in
      elim (List-cases (reverse s.tool_results)) [
        | inl h ↦ of_messages s unset (no_entries s.tool_results h) (first_ai (reverse s.messages))
        | inr (r, rs, h) ↦ of_results s unset r rs h
      ]
  | inr e ↦ rw e (rw e (explicit (text_or_empty s.final_response) (given s.final_response e) e))
]

-- The turn ends with a text that is the one that was set, where it is not empty; else the line of the last tool
-- result; else the content of the last message of the model; else the empty text. The text is also
-- the content of the one event, which is left out only where the text is empty.
pub record Ends (s : State) (u : Update) : Type 0 where
  pub text : String
  pub answer : u.final_response ≡ some (some text)
  pub chosen : Chosen s text
  pub announced :
      (u.ui_events ≡ event "final_response" (("content", str text) ∷ []) ∷ [])
      ⊎ ((u.ui_events ≡ []) × (text ≡ ""))
  pub finished : u.metadata ≡ some (insert "graph_finished" (bool true) s.metadata)

announced-cases :
    (b : Bool) (text : String) (e : Event)
    → ((if b && text == "" then [] else e ∷ []) ≡ e ∷ [])
      ⊎ (((if b && text == "" then [] else e ∷ []) ≡ []) × (text ≡ ""))
announced-cases false text e = inl refl
announced-cases true text e = elim (Bool-cases (text == "")) [
  | inl h ↦ inr (rw h refl, (eq_iff text "").0 h)
  | inr h ↦ inl (rw h refl)
]

-- A turn ends with the response that was set, where it is not empty, else with the line of the last tool
-- result, else with the content of the last message of the model, else with the empty text. The turn is
-- marked as finished, and the text is announced by one event, which only an empty text goes without.
pub finalize_response_node-Ends : (s : State) → Ends s (finalize_response_node s)
unfolding finalize_response_node
finalize_response_node-Ends s = record {
  text = final_text s;
  answer = refl;
  chosen = final_text-Chosen s;
  announced = announced-cases _ (final_text s) _;
  finished = refl;
}

-- After the recovery from an error no tool call is pending, and the turn ends with the text of the latest
-- error, whatever the hooks of the error point return.
pub error_recovery_node-final :
    (add_messages : MessagesReducer) (deps : AppDependencies) (s : State)
    → let t = reduced add_messages s (error_recovery_node deps s) in
      (t.pending_tool_calls ≡ [])
      × ((finalize_response_node t).final_response ≡ some (some (recovery_text deps.show s)))
unfolding finalize_response_node final_text reduced error_recovery_node merge_updates merge_from
    merge_update
error_recovery_node-final add_messages deps s =
    let h = append-IsFilled recovery_prefix (error_message deps.show s) 21 refl in
    (
      refl,
      ap (λ t. some (some t))
          (rw (or_text-left (recovery_text deps.show s) _ h)
            (or_text-left (recovery_text deps.show s) _ h)),
    )
