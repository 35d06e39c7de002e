-- ===== src/Hooks/Applier/Laws.antt =====
-- What hook results can change of the state.
use langraph_agent_blueprint.Prelude.{
  String, ◌≡◌, refl, ◌∙◌, Bool, false, ◌||◌, Option, none, some, List, [], ◌∷◌, append-nil, arith,
  ◌==◌, eq_iff, Bool-cases, inl, inr,
}
use langraph_agent_blueprint.Prelude.Dict.{Dict, lookup, lookup-insert}
use langraph_agent_blueprint.Hooks.{
  HookAction, HookResult, continue, add_event, add_system_context, modify_context, modify_metadata,
  block, request_permission, failed,
}
use langraph_agent_blueprint.Hooks.Applier.{
  Accumulator, initial, safe_payload, apply_event, add_fragment, apply_system_context,
  set_hook_metadata, apply_metadata, text_or, message_or, update_context, context_payload,
  apply_context, apply_block, apply_request, apply_error, dispatch, apply_results,
  apply_hook_results,
}
use langraph_agent_blueprint.State.{State}
use langraph_agent_blueprint.Text.{is_space}
use langraph_agent_blueprint.Text.Strip.{strip}
use langraph_agent_blueprint.State.Updates.{state_with_update}
use langraph_agent_blueprint.Value.{
  Value, null, bool, num, str, arr, obj, Fields, end, lookup-merge_dict, or_else,
}

-- The entries that hooks own.
abbrev pub is_hook_key : String → Bool
is_hook_key k = "hook_system_context_fragments" == k || "hook_metadata" == k || "hook_blocked" == k

abbrev pub is_context_key : String → Bool
is_context_key k = "system_context" == k || "estimated_tokens" == k || "summary" == k

-- What a round of the loop leaves alone.
record Confined (k : String) (a b : Accumulator) : Type 0 where
  metadata : is_hook_key k ≡ false → lookup k b.metadata ≡ lookup k a.metadata
  context_status : is_context_key k ≡ false → lookup k b.context_status ≡ lookup k a.context_status
  hooks_state :
      ("system_context_fragments" == k) ≡ false → lookup k b.hooks_state ≡ lookup k a.hooks_state

Confined-refl : {k : String} (a : Accumulator) → Confined k a a
Confined-refl a = record {
  metadata = λ h. refl;
  context_status = λ h. refl;
  hooks_state = λ h. refl;
}

Confined-trans :
    {k : String} {a b c : Accumulator} → Confined k b c → Confined k a b → Confined k a c
Confined-trans h g = record {
  metadata = λ n. h.metadata n ∙ g.metadata n;
  context_status = λ n. h.context_status n ∙ g.context_status n;
  hooks_state = λ n. h.hooks_state n ∙ g.hooks_state n;
}

lookup-safe_payload :
    (k : String) (d : Dict Value) → is_context_key k ≡ false → lookup k (safe_payload d) ≡ none
unfolding safe_payload lookup
lookup-safe_payload k [] h = refl
lookup-safe_payload k ((j, v) ∷ d) h = ground (
  arith,
  eq_iff j k,
  eq_iff j "system_context",
  eq_iff j "estimated_tokens",
  eq_iff j "summary",
  eq_iff "system_context" k,
  eq_iff "estimated_tokens" k,
  eq_iff "summary" k,
  lookup-safe_payload k d h,
)

update_context-Confined :
    (k : String) (d : Dict Value) (a : Accumulator)
    → (is_context_key k ≡ false → lookup k d ≡ none)
    → Confined k a (update_context d a)
unfolding update_context
update_context-Confined k [] a h = Confined-refl a
update_context-Confined k ((j, v) ∷ d) a h = record {
  metadata = λ n. refl;
  context_status = λ n. ground (arith, lookup-merge_dict k a.context_status ((j, v) ∷ d), h n);
  hooks_state = λ n. refl;
}

module _ (show : Value → String) (k : String) (r : HookResult) (a : Accumulator) where
  add_fragment-Confined : (content : String) → Confined k a (add_fragment show r content a)
  unfolding add_fragment
  add_fragment-Confined content = record {
    metadata = λ n. rw lookup-insert (ground arith);
    context_status = λ n. rw lookup-insert (ground arith);
    hooks_state = λ n. rw lookup-insert (ground arith);
  }

  apply_system_context-Confined : Confined k a (apply_system_context show r a)
  unfolding apply_system_context
  apply_system_context-Confined =
      let content =
        strip is_space (text_or show (lookup "content" r.fields) (message_or r.message "")) in
      elim (Bool-cases (content == "")) [
        | inl e ↦ rw e (Confined-refl a)
        | inr e ↦ rw e (add_fragment-Confined content)
      ]

  set_hook_metadata-Confined : (d : Fields) → Confined k a (set_hook_metadata r d a)
  unfolding set_hook_metadata
  set_hook_metadata-Confined d = record {
    metadata = λ n. rw lookup-insert (ground arith);
    context_status = λ n. refl;
    hooks_state = λ n. refl;
  }

  apply_metadata-Confined : (v : Option Value) → Confined k a (apply_metadata r v a)
  unfolding apply_metadata
  apply_metadata-Confined none = set_hook_metadata-Confined end
  apply_metadata-Confined (some (obj d)) = set_hook_metadata-Confined d
  apply_metadata-Confined (some null) = Confined-refl a
  apply_metadata-Confined (some (bool b)) = Confined-refl a
  apply_metadata-Confined (some (num n)) = Confined-refl a
  apply_metadata-Confined (some (str t)) = Confined-refl a
  apply_metadata-Confined (some (arr vs)) = Confined-refl a

  apply_context-Confined : Confined k a (apply_context r a)
  unfolding apply_context
  apply_context-Confined =
      update_context-Confined k (safe_payload (context_payload r)) a
        (lookup-safe_payload k (context_payload r))

  apply_block-Confined : Confined k a (apply_block show r a)
  unfolding apply_block
  apply_block-Confined = record {
    metadata = λ n. rw lookup-insert (ground arith);
    context_status = λ n. refl;
    hooks_state = λ n. refl;
  }

  apply_event-Confined : Confined k a (apply_event r a)
  unfolding apply_event
  apply_event-Confined = record {
    metadata = λ n. refl;
    context_status = λ n. refl;
    hooks_state = λ n. refl;
  }

  apply_request-Confined : Confined k a (apply_request r a)
  unfolding apply_request
  apply_request-Confined = record {
    metadata = λ n. refl;
    context_status = λ n. refl;
    hooks_state = λ n. refl;
  }

  apply_error-Confined : Confined k a (apply_error show r a)
  unfolding apply_error
  apply_error-Confined = record {
    metadata = λ n. refl;
    context_status = λ n. refl;
    hooks_state = λ n. refl;
  }

  dispatch-Confined : (action : HookAction) → Confined k a (dispatch show action r a)
  unfolding dispatch
  dispatch-Confined continue = Confined-refl a
  dispatch-Confined add_event = apply_event-Confined
  dispatch-Confined add_system_context = apply_system_context-Confined
  dispatch-Confined modify_metadata = apply_metadata-Confined (lookup "metadata" r.fields)
  dispatch-Confined modify_context = apply_context-Confined
  dispatch-Confined block = apply_block-Confined
  dispatch-Confined request_permission = apply_request-Confined
  dispatch-Confined failed = apply_error-Confined

apply_results-Confined :
    (show : Value → String) (k : String) (rs : List HookResult) (a : Accumulator)
    → Confined k a (apply_results show rs a)
unfolding apply_results
apply_results-Confined show k [] a = Confined-refl a
apply_results-Confined show k (r ∷ rs) a =
    Confined-trans (apply_results-Confined show k rs (dispatch show r.action r a))
      (dispatch-Confined show k r a r.action)

or_else_same : {x y : Option Value} → x ≡ y → or_else x y ≡ y
or_else_same {x = none} e = refl
or_else_same {x = some v} e = e

-- A state that hooks have acted on, and the state before: `k` is an entry of the metadata, `j` one of the
-- context status.
pub record ActsWithin (k j : String) (s s' : State) : Type 0 where
  pub metadata : lookup k s'.metadata ≡ lookup k s.metadata
  pub context_status : lookup j s'.context_status ≡ lookup j s.context_status
  pub pending_tool_calls : s'.pending_tool_calls ≡ s.pending_tool_calls
  pub pending_confirmation : s'.pending_confirmation ≡ s.pending_confirmation
  pub permission_decisions : s'.permission_decisions ≡ s.permission_decisions
  pub tool_results : s'.tool_results ≡ s.tool_results
  pub messages : s'.messages ≡ s.messages
  pub plan_mode : s'.plan_mode ≡ s.plan_mode

-- Whatever results the hooks return, applying them to a state changes no metadata entry but the hooks'
-- own three, no context status entry but the three that hooks may set, and neither the pending tool
-- calls, the pending confirmation, the permission decisions, the tool results, the messages nor the
-- plan mode.
pub apply_hook_results-ActsWithin :
    (show : Value → String) (k j : String) (s : State) (rs : List HookResult)
    → is_hook_key k ≡ false
    → is_context_key j ≡ false
    → ActsWithin k j s (state_with_update s (apply_hook_results show s rs))
unfolding apply_hook_results state_with_update
apply_hook_results-ActsWithin show k j s rs own context = record {
  metadata = elim (Bool-cases (apply_results show rs (initial s)).metadata_changed) [
    | inl e ↦ rw e (
        rw lookup-merge_dict
          (or_else_same ((apply_results-Confined show k rs (initial s)).metadata own)))
    | inr e ↦ rw e refl
  ];
  context_status = elim (Bool-cases (apply_results show rs (initial s)).context_changed) [
    | inl e ↦ rw e (
        rw lookup-merge_dict
          (or_else_same ((apply_results-Confined show j rs (initial s)).context_status context)))
    | inr e ↦ rw e refl
  ];
  pending_tool_calls = refl;
  pending_confirmation = refl;
  permission_decisions = append-nil s.permission_decisions;
  tool_results = append-nil s.tool_results;
  messages = append-nil s.messages;
  plan_mode = refl;
}
