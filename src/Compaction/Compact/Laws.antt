-- ===== src/Compaction/Compact/Laws.antt =====
-- A compaction ends, and what it leaves fits the window.
use langraph_agent_blueprint.Prelude.{
  ℕ, ◌-◌, ◌≤◌, max, String, ◌<>◌, ◌≡◌, refl, ap, ◌∙◌, Option, none, some, List, [], ◌∷◌, ◌++◌, leb,
  arith, Bool-cases, inl, inr,
}
use langraph_agent_blueprint.Compaction.{
  CompactionService, Pressure, estimate_tokens, context_window_pressure, split_messages,
}
use langraph_agent_blueprint.Compaction.Compact.{
  Compacted, budget_of, is_system, starts_with_system, message_budget_tokens, summary_reserve,
  moved_to, fit_recent_tail, summary_and, only_tail, refit, refit_unless, fit_compacted_messages,
  finished_with, compacted_with, compacted, build_summary, summary_token_budget,
}
use langraph_agent_blueprint.Compaction.Tail.{select_recent_tail, message_with_truncated_content}
use langraph_agent_blueprint.Compaction.Tail.Laws.{select_recent_tail-Fits, tokens_of-truncated}
use langraph_agent_blueprint.State.{State, Message, system}

-- Within a budget of two tokens or more, where there is a budget.
abbrev pub IsWithin : Option ℕ → ℕ → Type 0
IsWithin none tokens = Unit
IsWithin (some budget) tokens = tokens ≤ max 2 budget

module _ (service : CompactionService) (with_content : Message → String → Message)
    (copied : (m : Message) (text : String) → service.content (with_content m text) ≡ text) where
  -- A list of messages that is returned, within a budget.
  abbrev Returns : ℕ → Option (List Message) → Type 0
  Returns budget o = (r : List Message) × (o ≡ some r) × (estimate_tokens service r ≤ max 2 budget)

  summary_and-Returns :
      (m : Message) (ms : List Message) (budget : ℕ)
      → 1 ≤ estimate_tokens service (m ∷ [])
      → Returns budget (
          summary_and service with_content m budget (
            select_recent_tail service with_content ms
              (max 1 (budget - estimate_tokens service (m ∷ [])))))
  unfolding summary_and
  summary_and-Returns m ms budget h =
      let (r, found, bound, position) =
        select_recent_tail-Fits service with_content copied ms
          (max 1 (budget - estimate_tokens service (m ∷ []))) in
      let left = max 1 (budget - estimate_tokens service r.0) in
      (
        message_with_truncated_content service with_content m left ∷ r.0,
        ap (summary_and service with_content m budget) found,
        omega
            (arith, h, bound, tokens_of-truncated service with_content copied m left (omega arith)),
      )

  only_tail-Returns :
      (ms : List Message) (budget : ℕ)
      → Returns budget
          (only_tail service with_content (select_recent_tail service with_content ms budget))
  only_tail-Returns ms budget =
      let (r, found, bound, position) =
        select_recent_tail-Fits service with_content copied ms budget in
      (r.0, ap (only_tail service with_content) found, omega (arith, bound))

  refit-Returns :
      (ms : List Message) (budget : ℕ) → Returns budget (refit service with_content ms budget)
  unfolding refit
  refit-Returns [] budget = only_tail-Returns [] budget
  refit-Returns (m ∷ ms) budget = elim (Bool-cases (is_system m)) [
    | inl e ↦ rw e (summary_and-Returns m ms budget (omega arith))
    | inr e ↦ rw e (only_tail-Returns (m ∷ ms) budget)
  ]

  fit_compacted_messages-Returns :
      (ms : List Message) (budget : ℕ)
      → 1 ≤ budget
      → Returns budget (fit_compacted_messages service with_content (some budget) ms)
  unfolding fit_compacted_messages refit_unless
  fit_compacted_messages-Returns ms budget h =
      let (r, found, bound, position) =
        select_recent_tail-Fits service with_content copied ms budget in
      elim (Bool-cases (leb (estimate_tokens service ms) budget)) [
        | inl e ↦ rw e (ms, refl, ground (arith, e))
        | inr e ↦ rw e (
            rw found (elim (Bool-cases (starts_with_system r.0)) [
              | inl g ↦ rw g (r.0, refl, omega (arith, bound))
              | inr g ↦ rw g (refit-Returns ms budget)
            ]))
      ]

  fit_recent_tail_returns :
      (budget : Option ℕ) (old recent : List Message)
      → (r : List Message × List Message) × (fit_recent_tail service with_content budget old recent
          ≡ some r)
  unfolding fit_recent_tail
  fit_recent_tail_returns none old recent = ((old, recent), refl)
  fit_recent_tail_returns (some budget) old [] = ((old, []), refl)
  fit_recent_tail_returns (some budget) old (m ∷ ms) =
      let reserve = summary_reserve service with_content old budget in
      let (r, found, bound, position) =
        select_recent_tail-Fits service with_content copied (m ∷ ms) (max 1 (budget - reserve)) in
      ((old ++ r.1, r.0), ap (moved_to service with_content old) found)

  -- A compaction that is returned, with its messages within a budget.
  abbrev HasRoom : Option ℕ → Option Compacted → Type 0
  HasRoom budget o =
      (c : Compacted) × (o ≡ some c) × IsWithin budget (estimate_tokens service c.messages)

  compacted_with-HasRoom :
      (s : State) (p : Option Pressure) (r : List Message × List Message)
      → HasRoom (budget_of p) (compacted_with service with_content s (budget_of p) (some r))
  unfolding compacted_with fit_compacted_messages
  compacted_with-HasRoom s none r = (_, refl, tt)
  compacted_with-HasRoom s (some p) r =
      let summary = build_summary service r.0 (summary_token_budget service s r.1) in
      let ms = system ("Compacted prior context:\n" <> summary) ∷ r.1 in
      let (kept, found, bound) =
        fit_compacted_messages-Returns ms (max 1 p.message_budget_tokens) (omega arith) in
      (
        record { summary = summary; recent = r.1; messages = kept },
        ap (finished_with service with_content summary r.1) found,
        bound,
      )

-- A compaction always ends, for a copy of a message that keeps the given text, and where a window is configured
-- the messages that it leaves are estimated within their budget in it, or within two tokens where that is less.
pub compacted-IsWithin :
    (service : CompactionService) (with_content : Message → String → Message) (s : State)
    → ((m : Message) (text : String) → service.content (with_content m text) ≡ text)
    → (c : Compacted) × (compacted service with_content s ≡ some c)
      × IsWithin (message_budget_tokens service s) (estimate_tokens service c.messages)
unfolding compacted message_budget_tokens
compacted-IsWithin service with_content s copied =
    let p = context_window_pressure service s [] in
    let split = split_messages service s.messages in
    let (r, found) =
      fit_recent_tail_returns service with_content copied (budget_of p) split.0 split.1 in
    let (c, ended, room) = compacted_with-HasRoom service with_content copied s p r in
    (c, ap (compacted_with service with_content s (budget_of p)) found ∙ ended, room)
