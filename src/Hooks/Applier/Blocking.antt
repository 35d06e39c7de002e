-- ===== src/Hooks/Applier/Blocking.antt =====
-- When a round of hooks blocks the operation it is asked about.
use langraph_agent_blueprint.Prelude.{
  String, ◌≡◌, refl, Bool, true, false, not, ◌||◌, ◌&&◌, Option, none, some, List, [], ◌∷◌, any,
  arith, ◌==◌, Bool-cases, inl, inr,
}
use langraph_agent_blueprint.Prelude.Dict.{lookup, lookup-insert}
use langraph_agent_blueprint.Hooks.{
  HookAction, HookResult, continue, add_event, add_system_context, modify_context, modify_metadata,
  block, request_permission, failed,
}
use langraph_agent_blueprint.Hooks.Applier.{
  Accumulator, initial, text_or, message_or, apply_event, add_fragment, apply_system_context,
  set_hook_metadata, apply_metadata, update_context, context_payload, safe_payload, apply_context,
  apply_block, apply_request, apply_error, dispatch, apply_results, apply_hook_results,
}
use langraph_agent_blueprint.Prelude.Dict.{Dict}
use langraph_agent_blueprint.State.{State}
use langraph_agent_blueprint.State.Updates.{hook_blocked}
use langraph_agent_blueprint.Text.{is_space}
use langraph_agent_blueprint.Text.Strip.{strip}
use langraph_agent_blueprint.Value.{Value, null, bool, num, str, arr, obj, Fields, end, is_set}

abbrev pub is_block : HookAction → Bool
is_block block = true
is_block _ = false

abbrev pub blocks : HookResult → Bool
blocks r = is_block r.action

-- Whether a result writes the metadata of the state.
abbrev pub writes : (Value → String) → HookAction → HookResult → Bool
writes show block r = true
writes show add_system_context r =
    not (strip is_space (text_or show (lookup "content" r.fields) (message_or r.message "")) == "")
writes show modify_metadata r = elim (lookup "metadata" r.fields) [
  | none ↦ true
  | some (obj d) ↦ true
  | some _ ↦ false
]
writes show _ r = false

abbrev marked : Accumulator → Bool
marked a = is_set (lookup "hook_blocked" a.metadata)

abbrev responds : Option String → Bool
responds none = false
responds (some text) = not (text == "")

-- What one result, or several, do to the three local variables that blocking depends on.
record Marks (blocking writing : Bool) (a b : Accumulator) : Type 0 where
  marked : marked b ≡ (blocking || marked a)
  changed : b.metadata_changed ≡ (writing || a.metadata_changed)
  responds : blocking ≡ false → responds b.final_response ≡ responds a.final_response

Marks-idle : (a : Accumulator) → Marks false false a a
Marks-idle a = record { marked = refl; changed = refl; responds = λ e. refl }

module _ (show : Value → String) (r : HookResult) (a : Accumulator) where
  add_fragment-Marks : (content : String) → Marks false true a (add_fragment show r content a)
  unfolding add_fragment
  add_fragment-Marks content = record {
    marked = rw lookup-insert refl;
    changed = refl;
    responds = λ e. refl;
  }

  apply_system_context-Marks :
      Marks false (writes show add_system_context r) a (apply_system_context show r a)
  unfolding apply_system_context
  apply_system_context-Marks =
      let content =
        strip is_space (text_or show (lookup "content" r.fields) (message_or r.message "")) in
      elim (Bool-cases (content == "")) [
        | inl e ↦ rw e (Marks-idle a)
        | inr e ↦ rw e (add_fragment-Marks content)
      ]

  set_hook_metadata-Marks : (d : Fields) → Marks false true a (set_hook_metadata r d a)
  unfolding set_hook_metadata
  set_hook_metadata-Marks d = record {
    marked = rw lookup-insert refl;
    changed = refl;
    responds = λ e. refl;
  }

  update_context-Marks : (d : Dict Value) → Marks false false a (update_context d a)
  unfolding update_context
  update_context-Marks [] = Marks-idle a
  update_context-Marks ((j, v) ∷ d) = record { marked = refl; changed = refl; responds = λ e. refl }

  apply_metadata-Marks :
      (v : Option Value)
      → Marks false
          (elim v [ none ↦ true | some (obj d) ↦ true | some _ ↦ false ])
          a
          (apply_metadata r v a)
  unfolding apply_metadata
  apply_metadata-Marks none = set_hook_metadata-Marks end
  apply_metadata-Marks (some (obj d)) = set_hook_metadata-Marks d
  apply_metadata-Marks (some null) = Marks-idle a
  apply_metadata-Marks (some (bool b)) = Marks-idle a
  apply_metadata-Marks (some (num n)) = Marks-idle a
  apply_metadata-Marks (some (str t)) = Marks-idle a
  apply_metadata-Marks (some (arr vs)) = Marks-idle a

  apply_block-Marks : Marks true true a (apply_block show r a)
  unfolding apply_block
  apply_block-Marks = record {
    marked = rw lookup-insert (ground arith);
    changed = refl;
    responds = λ e. ground arith;
  }

  dispatch-Marks :
      (action : HookAction)
      → Marks (is_block action) (writes show action r) a (dispatch show action r a)
  unfolding dispatch apply_event apply_request apply_error apply_context
  dispatch-Marks continue = Marks-idle a
  dispatch-Marks add_event = record { marked = refl; changed = refl; responds = λ e. refl }
  dispatch-Marks add_system_context = apply_system_context-Marks
  dispatch-Marks modify_metadata = apply_metadata-Marks (lookup "metadata" r.fields)
  dispatch-Marks modify_context = update_context-Marks (safe_payload (context_payload r))
  dispatch-Marks block = apply_block-Marks
  dispatch-Marks request_permission = record { marked = refl; changed = refl; responds = λ e. refl }
  dispatch-Marks failed = record { marked = refl; changed = refl; responds = λ e. refl }

Marks-trans :
    {p q p' q' : Bool} {a b c : Accumulator}
    → Marks p q a b
    → Marks p' q' b c
    → Marks (p || p') (q || q') a c
Marks-trans h g = record {
  marked = ground (arith, h.marked, g.marked);
  changed = ground (arith, h.changed, g.changed);
  responds = λ e. ground (arith, h.responds, g.responds);
}

apply_results-Marks :
    (show : Value → String) (rs : List HookResult) (a : Accumulator)
    → Marks (any blocks rs) (any (λ r. writes show r.action r) rs) a (apply_results show rs a)
unfolding apply_results
apply_results-Marks show [] a = Marks-idle a
apply_results-Marks show (r ∷ rs) a =
    Marks-trans (dispatch-Marks show r a r.action)
      (apply_results-Marks show rs (dispatch show r.action r a))

is_block-writes :
    (show : Value → String) (action : HookAction) (r : HookResult)
    → is_block action ≡ true
    → writes show action r ≡ true
is_block-writes show block r h = refl
is_block-writes show continue r h = ground (arith, h)
is_block-writes show add_event r h = ground (arith, h)
is_block-writes show add_system_context r h = ground (arith, h)
is_block-writes show modify_context r h = ground (arith, h)
is_block-writes show modify_metadata r h = ground (arith, h)
is_block-writes show request_permission r h = ground (arith, h)
is_block-writes show failed r h = ground (arith, h)

blocks-writes :
    (show : Value → String) (rs : List HookResult)
    → any blocks rs ≡ true
    → any (λ r. writes show r.action r) rs ≡ true
blocks-writes show [] h = h
blocks-writes show (r ∷ rs) h =
    ground (arith, is_block-writes show r.action r, blocks-writes show rs)

-- A node takes the operation for blocked exactly when one of the results blocks it, or when one of them
-- writes metadata and the state already carries a hook's block from before.
pub hook_blocked-apply_hook_results :
    (show : Value → String) (s : State) (rs : List HookResult)
    → hook_blocked (apply_hook_results show s rs) ≡ (
        any blocks rs
        || (any (λ r. writes show r.action r) rs && is_set (lookup "hook_blocked" s.metadata)))
unfolding hook_blocked apply_hook_results
hook_blocked-apply_hook_results show s rs =
    let h = apply_results-Marks show rs (initial s) in
    ground (arith, h.marked, h.changed, h.responds, blocks-writes show rs)
