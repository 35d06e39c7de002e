-- ===== src/Subagents/Concurrent/Laws.antt =====
-- The results of the calls and the order in which the workers end.
use mathlib.Core.Path.{subst}
use langraph_agent_blueprint.Prelude.{
  ℕ, suc, ◌<◌, ◌≡◌, refl, ap, ◌∙◌, sym, Bool, true, false, ◌||◌, Option, none, some, List, [], ◌∷◌,
  ◌++◌, All, any, eqb, length, inl, inr, Bool-cases, arith, if◌then◌else◌,
}
use langraph_agent_blueprint.Prelude.Dict.{Dict}
use langraph_agent_blueprint.Value.{Value}
use langraph_agent_blueprint.State.{State, Update, ToolCall, Event}
use langraph_agent_blueprint.Subagents.{SubagentDependencies, FreshIds}
use langraph_agent_blueprint.Subagents.Concurrent.{
  Stream, streamed_events, Gathered, gather, gathered_update, nothing_gathered, with_refs,
  first_pending, enumerate, result_at, kept, ordered_from, combined, outcome, is_refused,
  add_refused, add_completed, run_agent_calls_concurrently,
}

-- The call at a position.
abbrev pub call_at : ℕ → List (ℕ × ToolCall) → Option ToolCall
call_at i [] = none
call_at i ((j, call) ∷ calls) = if eqb j i then some call else call_at i calls

abbrev pub has_index : ℕ → List (ℕ × ToolCall) → Bool
has_index i calls = any (λ e. eqb e.0 i) calls

All-implies {ℓ κ μ} :
    {A : Type ℓ} (P : A → Type κ) (Q : A → Type μ) (xs : List A)
    → ((a : A) → P a → Q a)
    → All P xs
    → All Q xs
All-implies P Q [] h g = tt
All-implies P Q (x ∷ xs) h g = (h x g.0, All-implies P Q xs h g.1)

All-implies2 {ℓ κ μ ν} :
    {A : Type ℓ} (P : A → Type κ) (Q : A → Type μ) (R : A → Type ν) (xs : List A)
    → ((a : A) → P a → Q a → R a)
    → All P xs
    → All Q xs
    → All R xs
All-implies2 P Q R [] h f g = tt
All-implies2 P Q R (x ∷ xs) h f g = (h x f.0 g.0, All-implies2 P Q R xs h f.1 g.1)

enumerate_above : (k i : ℕ) (calls : List ToolCall) → k < i → All (λ e. k < e.0) (enumerate i calls)
enumerate_above k i [] h = tt
enumerate_above k i (call ∷ calls) h = (h, enumerate_above k (suc i) calls (omega (arith, h)))

call_at-enumerate :
    (i : ℕ) (calls : List ToolCall)
    → All (λ e. call_at e.0 (enumerate i calls) ≡ some e.1) (enumerate i calls)
call_at-enumerate i [] = tt
call_at-enumerate i (call ∷ calls) = (
  ground arith,
  All-implies2 (λ e. i < e.0) (λ e. call_at e.0 (enumerate (suc i) calls) ≡ some e.1)
      (λ e. call_at e.0 (enumerate i (call ∷ calls)) ≡ some e.1) (enumerate (suc i) calls)
      (λ e h g. ground (arith, h, g)) (enumerate_above i (suc i) calls (omega arith))
      (call_at-enumerate (suc i) calls),
)

set_by :
    (a b c : Bool) {d : Bool} → (a ≡ true → c ≡ true) → (a || b) ≡ true → d ≡ (b || c) → d ≡ true
set_by true true c h g k = k
set_by true false c h g k = k ∙ h refl
set_by false true c h g k = k
set_by false false c h g k = cc g

module _ (f : ℕ → ToolCall → Update) where
  -- Each result is the one of the call at its position.
  abbrev IsConsistent : List (ℕ × ToolCall) → List (ℕ × Update) → Type 0
  IsConsistent calls results =
      All (λ e. (call : ToolCall) × (call_at e.0 calls ≡ some call) × (e.1 ≡ f e.0 call)) results

  same_call :
      (calls : List (ℕ × ToolCall)) (j i : ℕ) (there call : ToolCall) (u : Update)
      → call_at j calls ≡ some there
      → u ≡ f j there
      → call_at i calls ≡ some call
      → j ≡ i
      → u ≡ f i call
  same_call calls j i there call u h k g e = cc

  result_at-IsConsistent :
      (calls : List (ℕ × ToolCall)) (results : List (ℕ × Update)) (i : ℕ) (call : ToolCall)
      → IsConsistent calls results
      → call_at i calls ≡ some call
      → any (λ e. eqb e.0 i) results ≡ true
      → result_at i results ≡ some (f i call)
  result_at-IsConsistent calls [] i call h g k = cc k
  result_at-IsConsistent calls ((j, u) ∷ results) i call h g k = elim (Bool-cases (eqb j i)) [
    | inl e ↦ rw e (ap some (same_call calls j i h.0.0 call u h.0.1 h.0.2 g (ground (arith, e))))
    | inr e ↦ rw e (result_at-IsConsistent calls results i call h.1 g (ground (arith, e, k)))
  ]

  -- The results in the order of the calls.
  abbrev pub outcomes : List (ℕ × ToolCall) → List Update
  outcomes [] = []
  outcomes ((i, call) ∷ calls) = f i call ∷ outcomes calls

  ordered_from-outcomes :
      (results : List (ℕ × Update)) (i : ℕ) (calls : List ToolCall)
      → All (λ e. result_at e.0 results ≡ some (f e.0 e.1)) (enumerate i calls)
      → ordered_from i (length calls) results ≡ outcomes (enumerate i calls)
  unfolding ordered_from
  ordered_from-outcomes results i [] h = refl
  ordered_from-outcomes results i (call ∷ calls) h =
      ap (λ o. kept o (ordered_from (suc i) (length calls) results)) h.0
      ∙ ap (λ l. f i call ∷ l) (ordered_from-outcomes results (suc i) calls h.1)

  add_refused-IsConsistent :
      (r : ℕ → ToolCall → Bool) (all es : List (ℕ × ToolCall)) (results : List (ℕ × Update))
      → All (λ e. call_at e.0 all ≡ some e.1) es
      → IsConsistent all results
      → IsConsistent all (add_refused r f es results)
  unfolding add_refused
  add_refused-IsConsistent r all [] results h g = g
  add_refused-IsConsistent r all ((i, call) ∷ es) results h g = elim (Bool-cases (r i call)) [
    | inl e ↦
        rw e
          (add_refused-IsConsistent r all es ((i, f i call) ∷ results) h.1 ((call, h.0, refl), g))
    | inr e ↦ rw e (add_refused-IsConsistent r all es results h.1 g)
  ]

  add_completed-IsConsistent :
      (all order : List (ℕ × ToolCall)) (results : List (ℕ × Update))
      → All (λ e. call_at e.0 all ≡ some e.1) order
      → IsConsistent all results
      → IsConsistent all (add_completed f order results)
  unfolding add_completed
  add_completed-IsConsistent all [] results h g = g
  add_completed-IsConsistent all ((i, call) ∷ order) results h g =
      add_completed-IsConsistent all order ((i, f i call) ∷ results) h.1 ((call, h.0, refl), g)

  -- Whether the results have one at a position.
  abbrev is_set_at : ℕ → List (ℕ × Update) → Bool
  is_set_at i results = any (λ e. eqb e.0 i) results

  add_completed_sets :
      (i : ℕ) (order : List (ℕ × ToolCall)) (results : List (ℕ × Update))
      → is_set_at i (add_completed f order results) ≡ (has_index i order || is_set_at i results)
  unfolding add_completed
  add_completed_sets i [] results = refl
  add_completed_sets i ((j, call) ∷ order) results =
      ground (arith, add_completed_sets i order ((j, f j call) ∷ results))

  add_refused_keeps :
      (r : ℕ → ToolCall → Bool) (i : ℕ) (es : List (ℕ × ToolCall)) (results : List (ℕ × Update))
      → is_set_at i results ≡ true
      → is_set_at i (add_refused r f es results) ≡ true
  unfolding add_refused
  add_refused_keeps r i [] results h = h
  add_refused_keeps r i ((j, call) ∷ es) results h = elim (Bool-cases (r j call)) [
    | inl e ↦ rw e (add_refused_keeps r i es ((j, f j call) ∷ results) (ground (arith, h)))
    | inr e ↦ rw e (add_refused_keeps r i es results h)
  ]

  refused_step :
      (r : ℕ → ToolCall → Bool) (j : ℕ) (call : ToolCall) (es : List (ℕ × ToolCall))
      (results : List (ℕ × Update))
      → r j call ≡ true
      → add_refused r f ((j, call) ∷ es) results ≡ add_refused r f es ((j, f j call) ∷ results)
  unfolding add_refused
  refused_step r j call es results e = rw e refl

  kept_step :
      (r : ℕ → ToolCall → Bool) (j : ℕ) (call : ToolCall) (es : List (ℕ × ToolCall))
      (results : List (ℕ × Update))
      → r j call ≡ false
      → add_refused r f ((j, call) ∷ es) results ≡ add_refused r f es results
  unfolding add_refused
  kept_step r j call es results e = rw e refl

  add_refused_sets :
      (r : ℕ → ToolCall → Bool) (es : List (ℕ × ToolCall)) (results : List (ℕ × Update))
      → All (λ e. r e.0 e.1 ≡ true → is_set_at e.0 (add_refused r f es results) ≡ true) es
  add_refused_sets r [] results = tt
  add_refused_sets r ((j, call) ∷ es) results =
      let sets = λ (l : List (ℕ × Update)).
        All (λ e. r e.0 e.1 ≡ true → is_set_at e.0 l ≡ true) ((j, call) ∷ es) in
      let more = add_refused r f es ((j, f j call) ∷ results) in
      elim (Bool-cases (r j call)) [
        | inl e ↦ subst sets (sym (refused_step r j call es results e)) (
          (λ h. add_refused_keeps r j es ((j, f j call) ∷ results) (ground arith)),
          add_refused_sets r es ((j, f j call) ∷ results),
        )
        | inr e ↦
            subst sets (sym (kept_step r j call es results e))
              ((λ h. cc (h, e)), add_refused_sets r es results)
      ]

  -- The results in the order of the calls, whatever the order in which the submitted calls end, where each of
  -- them ends.
  ordered-outcomes :
      (r : ℕ → ToolCall → Bool) (calls : List ToolCall) (order : List (ℕ × ToolCall))
      → All (λ e. call_at e.0 (enumerate 0 calls) ≡ some e.1) order
      → All (λ e. (r e.0 e.1 || has_index e.0 order) ≡ true) (enumerate 0 calls)
      → ordered_from 0
          (length calls)
          (add_completed f order (add_refused r f (enumerate 0 calls) []))
        ≡ outcomes (enumerate 0 calls)
  ordered-outcomes r calls order h g =
      let es = enumerate 0 calls in
      let refused = add_refused r f es [] in
      let results = add_completed f order refused in
      let consistent =
        add_completed-IsConsistent es order refused h
          (add_refused-IsConsistent r es es [] (call_at-enumerate 0 calls) tt) in
      let is_set =
        All-implies2 (λ e. r e.0 e.1 ≡ true → is_set_at e.0 refused ≡ true)
          (λ e. (r e.0 e.1 || has_index e.0 order) ≡ true) (λ e. is_set_at e.0 results ≡ true) es
          (λ e k l.
            set_by (r e.0 e.1) (has_index e.0 order) (is_set_at e.0 refused) k l
              (add_completed_sets e.0 order refused))
          (add_refused_sets r es []) g in
      ordered_from-outcomes results 0 calls (
        All-implies2 (λ e. call_at e.0 es ≡ some e.1) (λ e. is_set_at e.0 results ≡ true)
          (λ e. result_at e.0 results ≡ some (f e.0 e.1)) es
          (λ e k l. result_at-IsConsistent es results e.0 e.1 consistent k l)
          (call_at-enumerate 0 calls) is_set)

-- An update without its events.
abbrev pub silent : Update → Update
silent u = record u { ui_events = [] }

-- The same but for the events.
record SameGathered (g h : Gathered) : Type 0 where
  pub child_runs : g.child_runs ≡ h.child_runs
  pub tool_results : g.tool_results ≡ h.tool_results
  pub messages : g.messages ≡ h.messages
  pub child_run_refs : g.child_run_refs ≡ h.child_run_refs
  pub pending_update : g.pending_update ≡ h.pending_update

gather-SameGathered :
    (stream : Option Stream) (i : ℕ) (us : List Update) (g h : Gathered)
    → SameGathered g h
    → SameGathered (gather stream i us g) (gather none i us h)
unfolding gather
gather-SameGathered stream i [] g h e = e
gather-SameGathered stream i (u ∷ us) g h e = gather-SameGathered stream (suc i) us _ _ (record {
  child_runs = ap (λ l. l ++ u.child_runs) e.child_runs;
  tool_results = ap (λ l. l ++ u.tool_results) e.tool_results;
  messages = ap (λ l. l ++ u.messages) e.messages;
  child_run_refs = ap (λ l. with_refs l u.child_runs) e.child_run_refs;
  pending_update = ap (λ o. first_pending o u) e.pending_update;
})

silent-gathered_update :
    (o : Option Update) (metadata : Dict Value) (g h : Gathered)
    → SameGathered g h
    → silent (gathered_update o metadata g) ≡ silent (gathered_update o metadata h)
unfolding gathered_update
silent-gathered_update (some u) metadata g h e = refl
silent-gathered_update none metadata g h e =
    rw e.child_runs (rw e.tool_results (rw e.messages (rw e.child_run_refs refl)))

silent-combined :
    (stream : Option Stream) (streamed : List Event) (metadata : Dict Value) (us : List Update)
    → silent (combined stream streamed metadata us) ≡ silent (combined none [] metadata us)
unfolding combined
silent-combined stream streamed metadata us =
    let start = nothing_gathered streamed metadata in
    let quiet = nothing_gathered [] metadata in
    let same = gather-SameGathered stream 0 us start quiet (record {
      child_runs = refl;
      tool_results = refl;
      messages = refl;
      child_run_refs = refl;
      pending_update = refl;
    }) in
    silent-gathered_update (gather stream 0 us start).pending_update metadata _ _ same
    ∙ ap (λ o. silent (gathered_update o metadata (gather none 0 us quiet))) same.pending_update

pub run_agent_calls_concurrently-outcomes :
    (deps : SubagentDependencies) (s : State) (fresh : ℕ → FreshIds) (stream : Option Stream)
    (calls : List ToolCall) (order : List (ℕ × ToolCall))
    → All (λ e. call_at e.0 (enumerate 0 calls) ≡ some e.1) order
    → All (λ e. (is_refused deps s fresh e.0 e.1 || has_index e.0 order) ≡ true) (enumerate 0 calls)
    → let us = outcomes (outcome deps s fresh) (enumerate 0 calls) in
      let u = run_agent_calls_concurrently deps s fresh stream calls order in
      (u ≡ combined stream (streamed_events deps s fresh stream calls) s.metadata us)
      × (silent u ≡ silent (combined none [] s.metadata us))
unfolding run_agent_calls_concurrently
run_agent_calls_concurrently-outcomes deps s fresh stream calls order h g =
    let us = outcomes (outcome deps s fresh) (enumerate 0 calls) in
    let streamed = streamed_events deps s fresh stream calls in
    let same =
      ap (combined stream streamed s.metadata)
        (ordered-outcomes (outcome deps s fresh) (is_refused deps s fresh) calls order h g) in
    (same, ap silent same ∙ silent-combined stream streamed s.metadata us)
