-- ===== src/Compaction/Tail/Laws.antt =====
-- The selection of the recent messages ends, and stays within its budget.
use mathlib.Core.List.{reverse_aux}
use langraph_agent_blueprint.Prelude.{
  ℕ, zero, suc, ◌+◌, ◌-◌, ◌*◌, ◌≤◌, ◌<◌, max, String, ◌≡◌, refl, ap, Bool, true, false, some, List,
  [], ◌∷◌, ◌++◌, length, take, drop, reverse, leb, arith, Bool-cases, inl, inr,
}
use langraph_agent_blueprint.Compaction.{
  CompactionService, estimate_tokens, tokens_of, tool_pair_safe_keep_start, message_summary_content,
  truncated_content, marker,
}
use langraph_agent_blueprint.Compaction.Split.{tool_pair_safe_keep_start-IsSafe}
use langraph_agent_blueprint.Compaction.Tail.{
  message_with_truncated_content, pick, truncate_message_block_to_budget, tail_from,
  select_recent_tail, left_over,
}
use langraph_agent_blueprint.State.{Message}
use langraph_agent_blueprint.Text.{
  text_length, take_text, text_length-append, text_length-take, is_space,
}
use langraph_agent_blueprint.Text.Strip.{rstrip, text_length-rstrip}

text_length-truncated_content :
    (content : String) (budget : ℕ)
    → text_length (truncated_content content budget) ≤ max 1 (budget * 4)
unfolding truncated_content
text_length-truncated_content content budget =
    let max_chars = max 1 (budget * 4) in
    let kept = take_text (max 1 (max_chars - text_length marker)) content in
    ground (
      arith,
      text_length-take max_chars marker,
      text_length-append (rstrip is_space kept) marker,
      text_length-rstrip is_space kept,
      text_length-take (max 1 (max_chars - text_length marker)) content,
    )

module _ (service : CompactionService) where
  estimate_tokens-append :
      (xs ys : List Message)
      → estimate_tokens service (xs ++ ys) ≡ estimate_tokens service xs + estimate_tokens service ys
  estimate_tokens-append [] ys = omega arith
  estimate_tokens-append (x ∷ xs) ys = omega (arith, estimate_tokens-append xs ys)

  estimate_tokens-reverse_aux :
      (xs ys : List Message)
      → estimate_tokens service (reverse_aux xs ys)
        ≡ estimate_tokens service xs + estimate_tokens service ys
  estimate_tokens-reverse_aux [] ys = omega arith
  estimate_tokens-reverse_aux (x ∷ xs) ys = omega (arith, estimate_tokens-reverse_aux xs (x ∷ ys))

  estimate_tokens-reverse :
      (xs : List Message) → estimate_tokens service (reverse xs) ≡ estimate_tokens service xs
  estimate_tokens-reverse xs = omega (arith, estimate_tokens-reverse_aux xs [])

module _ (service : CompactionService) (with_content : Message → String → Message)
    (copied : (m : Message) (text : String) → service.content (with_content m text) ≡ text) where
  pub tokens_of-truncated :
      (m : Message) (budget : ℕ)
      → 1 ≤ budget
      → tokens_of service
          (service.content (message_with_truncated_content service with_content m budget))
        ≤ budget
  unfolding message_with_truncated_content
  tokens_of-truncated m budget h =
      let text = truncated_content (message_summary_content service m) budget in
      rw copied (
        ground (arith, h, text_length-truncated_content (message_summary_content service m) budget))

  estimate_tokens-pick :
      (ms : List Message) (remaining : ℕ) (first : Bool)
      → (first ≡ true → 1 ≤ remaining)
      → estimate_tokens service (pick service with_content ms remaining first) ≤ remaining
  unfolding pick
  estimate_tokens-pick [] remaining first h = omega arith
  estimate_tokens-pick (m ∷ ms) remaining first h =
      let tokens = tokens_of service (service.content m) in
      elim (Bool-cases (leb tokens remaining)) [
        | inl e ↦
            rw e (ground (arith, e, estimate_tokens-pick ms (remaining - tokens) false (λ x. cc x)))
        | inr e ↦ elim (Bool-cases first) [
          | inl f ↦ rw e (rw f (ground (arith, tokens_of-truncated m remaining (h f))))
          | inr f ↦ rw e (rw f (omega arith))
        ]
      ]

  estimate_tokens-truncate_message_block_to_budget :
      (block : List Message) (budget : ℕ)
      → estimate_tokens service (truncate_message_block_to_budget service with_content block budget)
        ≤ max 1 budget
  unfolding truncate_message_block_to_budget
  estimate_tokens-truncate_message_block_to_budget block budget =
      rw (estimate_tokens-reverse service)
        (estimate_tokens-pick (reverse block) (max 1 budget) true (λ e. omega arith))

  tail_from-Fits :
      (fuel : ℕ) (ms : List Message) (start remaining : ℕ) (first : Bool) (selected : List Message)
      → start < fuel
      → (first ≡ true → 1 ≤ remaining)
      → (r : List Message × ℕ) × (tail_from service with_content fuel ms start remaining first
            selected
          ≡ some r)
        × (estimate_tokens service r.0 ≤ estimate_tokens service selected + remaining)
        × (r.1 ≤ start)
  unfolding tail_from
  tail_from-Fits zero ms start remaining first selected h g = absurd (omega (arith, h))
  tail_from-Fits (suc fuel) ms zero remaining first selected h g =
      ((selected, 0), refl, omega arith, omega arith)
  tail_from-Fits (suc fuel) ms (suc n) remaining first selected h g =
      let k = tool_pair_safe_keep_start ms n in
      let block = drop k (take (suc n) ms) in
      let tokens = estimate_tokens service block in
      let safe = (tool_pair_safe_keep_start-IsSafe ms n).bound in
      elim (Bool-cases (leb tokens remaining)) [
        | inl e ↦
            let (r, found, bound, position) =
              tail_from-Fits fuel ms k (remaining - tokens) false (block ++ selected)
                (omega (arith, h, safe)) (λ x. cc x) in
            (
              r,
              rw e found,
              ground (arith, e, bound, estimate_tokens-append service block selected),
              omega (arith, position, safe),
            )
        | inr e ↦ elim (Bool-cases first) [
          | inl f ↦ (
            (truncate_message_block_to_budget service with_content block remaining ++ selected, k),
            rw e (rw f refl),
            omega (
              arith,
              g f,
              estimate_tokens-append service
                  (truncate_message_block_to_budget service with_content block remaining) selected,
              estimate_tokens-truncate_message_block_to_budget block remaining,
            ),
            omega (arith, safe),
          )
          | inr f ↦ ((selected, suc n), rw e (rw f refl), omega arith, omega arith)
        ]
      ]

  -- Where copying a message with another text gives it that text: whatever the messages and the budget, the
  -- selection ends, what it selects takes no more tokens than the budget, which is at least one, and what it
  -- leaves over are messages from the beginning, in order.
  pub select_recent_tail-Fits :
      (ms : List Message) (budget : ℕ)
      → (r : List Message × List Message) × (select_recent_tail service with_content ms budget
          ≡ some r)
        × (estimate_tokens service r.0 ≤ max 1 budget)
        × ((n : ℕ) × (r.1 ≡ take n ms))
  unfolding select_recent_tail
  select_recent_tail-Fits ms budget =
      let (r, found, bound, position) =
        tail_from-Fits (suc (length ms)) ms (length ms) (max 1 budget) true [] (omega arith)
          (λ e. omega arith) in
      (
        (r.0, take r.1 ms),
        ap (left_over service with_content ms) found,
        omega (arith, bound),
        (r.1, refl),
      )
