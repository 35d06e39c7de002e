-- ===== src/ModelCall/Fit/Laws.antt =====
-- What the fitted messages are.
use mathlib.Core.List.{reverse_aux, reverse-append, reverse-cons, reverse-reverse}
use mathlib.Core.Path.{subst}
use langraph_agent_blueprint.Prelude.{
  ℕ, zero, suc, ◌+◌, ◌-◌, ◌≤◌, ◌<◌, max, ◌≡◌, refl, ap, sym, ◌∙◌, Bool, true, false, ◌||◌, some,
  List, [], ◌∷◌, ◌++◌, length, reverse, leb, ltb, arith, Bool-cases, inl, inr, ◌⊎◌, length-append,
  length-reverse_aux,
}
use langraph_agent_blueprint.ModelCall.{ModelDependencies}
use langraph_agent_blueprint.ModelCall.Fit.{
  tokens_of, truncated_message, select, only_last, fit_messages_to_budget,
}
use langraph_agent_blueprint.State.{Message}

abbrev pub is_nonempty : List Message → Bool
is_nonempty [] = false
is_nonempty (m ∷ ms) = true

module _ (deps : ModelDependencies) where
  abbrev pub total : List Message → ℕ
  total [] = 0
  total (m ∷ ms) = tokens_of deps m + total ms

  -- A front of the messages within a budget, and whether it leaves any of them.
  record Picked (ms : List Message) (remaining : ℕ) (r : List Message × Bool) : Type 0 where
    rest : List Message
    split : r.0 ++ rest ≡ ms
    bound : total r.0 ≤ remaining
    flag : r.1 ≡ is_nonempty rest

  select-Picked :
      (ms : List Message) (remaining : ℕ) → Picked ms remaining (select deps ms remaining false)
  unfolding select
  select-Picked [] remaining = record { rest = []; split = refl; bound = omega arith; flag = refl }
  select-Picked (m ∷ ms) remaining =
      let h = select-Picked ms (remaining - tokens_of deps m) in
      elim (Bool-cases (leb (tokens_of deps m) remaining)) [
        | inl e ↦ rw e (record {
          rest = h.rest;
          split = ap (λ l. m ∷ l) h.split;
          bound = ground (arith, e, h.bound);
          flag = h.flag;
        })
        | inr e ↦ rw e (record { rest = m ∷ ms; split = refl; bound = omega arith; flag = refl })
      ]

  total-append : (xs ys : List Message) → total (xs ++ ys) ≡ total xs + total ys
  total-append [] ys = omega arith
  total-append (x ∷ xs) ys = omega (arith, total-append xs ys)

  total-reverse_aux : (xs ys : List Message) → total (reverse_aux xs ys) ≡ total xs + total ys
  total-reverse_aux [] ys = omega arith
  total-reverse_aux (x ∷ xs) ys = omega (arith, total-reverse_aux xs (x ∷ ys))

  -- The last messages of the list, as many as fit, and a flag that tells whether any is left out.
  pub record IsSuffix (ms : List Message) (budget : ℕ) (r : List Message × Bool) : Type 0 where
    pub front : List Message
    pub split : front ++ r.0 ≡ ms
    pub nonempty : is_nonempty r.0 ≡ is_nonempty ms
    pub bound : total r.0 ≤ budget
    pub flag : r.1 ≡ is_nonempty front

  -- The last message alone, cut, and flagged.
  pub record IsCut (ms : List Message) (budget : ℕ) (r : List Message × Bool) : Type 0 where
    pub front : List Message
    pub last : Message
    pub split : front ++ last ∷ [] ≡ ms
    pub over : (budget ≡ 0) ⊎ (budget < tokens_of deps last)
    pub only : r ≡ (truncated_message deps last (max 1 budget) ∷ [], true)

is_nonempty-length : (ms : List Message) → is_nonempty ms ≡ ltb 0 (length ms)
is_nonempty-length [] = ground arith
is_nonempty-length (m ∷ ms) = ground arith

is_nonempty-reverse : (ms : List Message) → is_nonempty (reverse ms) ≡ is_nonempty ms
is_nonempty-reverse ms =
    ground (arith, is_nonempty-length ms, is_nonempty-length (reverse ms), length-reverse_aux ms [])

-- The messages in their order again, with the flag of `fit_messages_to_budget`.
abbrev turned : ℕ → List Message × Bool → List Message × Bool
turned count r = (reverse r.0, r.1 || ltb (length r.0) count)

max-suc : (n : ℕ) → suc n ≡ max 1 (suc n)
max-suc n = omega arith

module _ (deps : ModelDependencies) where
  turned-IsSuffix :
      (rs : List Message) (budget : ℕ) (r : List Message × Bool)
      → Picked deps rs budget r
      → is_nonempty r.0 ≡ is_nonempty rs
      → IsSuffix deps (reverse rs) budget (turned (length (reverse rs)) r)
  turned-IsSuffix rs budget r h g = record {
    front = reverse h.rest;
    split = sym (reverse-append r.0 h.rest) ∙ ap reverse h.split;
    nonempty = is_nonempty-reverse r.0 ∙ (g ∙ sym (is_nonempty-reverse rs));
    bound = omega (arith, h.bound, total-reverse_aux deps r.0 []);
    flag = ground (
      arith,
      h.flag,
      is_nonempty-reverse h.rest,
      is_nonempty-length h.rest,
      length-reverse_aux rs [],
      length-append r.0 h.rest,
      ap length h.split,
    );
  }

  turned-cases :
      (rs : List Message) (n : ℕ)
      → IsSuffix deps
          (reverse rs)
          (suc n)
          (turned (length (reverse rs)) (select deps rs (suc n) true))
        ⊎ IsCut deps
            (reverse rs)
            (suc n)
            (turned (length (reverse rs)) (select deps rs (suc n) true))
  unfolding select
  turned-cases [] n = inl (
      turned-IsSuffix [] (suc n) ([], false)
        (record { rest = []; split = refl; bound = omega arith; flag = refl }) refl)
  turned-cases (m ∷ ms) n =
      let remaining = suc n - tokens_of deps m in
      let further = select deps ms remaining false in
      let h = select-Picked deps ms remaining in
      elim (Bool-cases (leb (tokens_of deps m) (suc n))) [
        | inl e ↦ rw e (
            inl (
              turned-IsSuffix (m ∷ ms) (suc n) (m ∷ further.0, further.1)
                (record {
                  rest = h.rest;
                  split = ap (λ l. m ∷ l) h.split;
                  bound = ground (arith, e, h.bound);
                  flag = h.flag;
                })
                refl))
        | inr e ↦ rw e (
            inr (record {
              front = reverse ms;
              last = m;
              split = sym (reverse-cons m ms);
              over = inr (ground (arith, e));
              only = ap (λ k. (truncated_message deps m k ∷ [], true)) (max-suc n);
            }))
      ]

  only_last-cases :
      (rs : List Message)
      → IsSuffix deps (reverse rs) 0 (only_last deps rs)
        ⊎ IsCut deps (reverse rs) 0 (only_last deps rs)
  unfolding only_last
  only_last-cases [] =
      inl (record { front = []; split = refl; nonempty = refl; bound = omega arith; flag = refl })
  only_last-cases (m ∷ ms) = inr (record {
    front = reverse ms;
    last = m;
    split = sym (reverse-cons m ms);
    over = inl refl;
    only = refl;
  })

  fit-turned :
      (ms : List Message) (budget : ℕ)
      → IsSuffix deps (reverse (reverse ms)) budget (fit_messages_to_budget deps ms (some budget))
        ⊎ IsCut deps (reverse (reverse ms)) budget (fit_messages_to_budget deps ms (some budget))
  unfolding fit_messages_to_budget
  fit-turned ms zero = only_last-cases (reverse ms)
  fit-turned ms (suc n) = rw (sym (ap length (reverse-reverse ms))) (turned-cases (reverse ms) n)

-- Whatever the messages and the budget, the fitted messages are the last ones, in their order, within the budget
-- and flagged exactly if any is left out, the latest one always kept; or they are the latest message alone,
-- cut and flagged, and this only where it alone exceeds the budget or there is no budget.
pub fit_messages_to_budget-cases :
    (deps : ModelDependencies) (ms : List Message) (budget : ℕ)
    → IsSuffix deps ms budget (fit_messages_to_budget deps ms (some budget))
      ⊎ IsCut deps ms budget (fit_messages_to_budget deps ms (some budget))
fit_messages_to_budget-cases deps ms budget =
    subst
      (λ l.
        IsSuffix deps l budget (fit_messages_to_budget deps ms (some budget))
        ⊎ IsCut deps l budget (fit_messages_to_budget deps ms (some budget)))
      (reverse-reverse ms) (fit-turned deps ms budget)
