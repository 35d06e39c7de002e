-- ===== src/Budget/Laws.antt =====
-- What the budget promises.
use langraph_agent_blueprint.Prelude.{
  ℕ, ◌+◌, ◌-◌, ◌≤◌, max, min, ◌≡◌, String, true, Option, none, some, List, [], ◌∷◌, leb, arith,
  Bool-cases, inl, inr,
}
use langraph_agent_blueprint.Budget.{
  ContextFragment, Applied, estimate_of, estimate_tokens, cut_content, apply_from, apply,
}

abbrev recorded : Option ℕ → ℕ
recorded none = 0
recorded (some n) = n

-- The tokens that the included fragments are recorded to take.
abbrev pub total : List ContextFragment → ℕ
total [] = 0
total (f ∷ fs) = recorded f.token_estimate + total fs

-- Each fragment in turn is included with its estimate, included with a shorter content and marked and recorded as
-- truncated, or dropped by its id.
pub data Partition
    : List ContextFragment → List ContextFragment → List String → List String → Type 0 where
  done : Partition [] [] [] []
  whole :
      (f : ContextFragment) {fs included : List ContextFragment} {dropped truncated : List String}
      → Partition fs included dropped truncated
      → Partition
          (f ∷ fs)
          (record f { token_estimate = some (estimate_of f) } ∷ included)
          dropped
          truncated
  cut :
      (f : ContextFragment) (remaining estimate : ℕ) {fs included : List ContextFragment}
      {dropped truncated : List String}
      → Partition fs included dropped truncated
      → Partition
          (f ∷ fs)
          (record f {
            content = cut_content f remaining;
            token_estimate = some estimate;
            truncated = true;
          }
            ∷ included)
          dropped
          (f.id ∷ truncated)
  drop :
      (f : ContextFragment) {fs included : List ContextFragment} {dropped truncated : List String}
      → Partition fs included dropped truncated
      → Partition (f ∷ fs) included (f.id ∷ dropped) truncated

-- A fit of fragments into a budget, from some tokens used.
pub record Fits (limit used : ℕ) (fs : List ContextFragment) (r : Applied) : Type 0 where
  pub bound : used ≤ limit → r.used ≤ limit
  pub sum : r.used ≡ used + total r.included
  pub partition : Partition fs r.included r.dropped r.truncated

apply_from-Fits :
    (limit : ℕ) (fs : List ContextFragment) (used : ℕ)
    → Fits limit used fs (apply_from limit fs used)
unfolding apply_from
apply_from-Fits limit [] used = record { bound = λ h. h; sum = omega arith; partition = done }
apply_from-Fits limit (f ∷ fs) used =
    let estimate = estimate_of f in
    let remaining = limit - used in
    let actual = min (estimate_tokens (cut_content f remaining)) remaining in
    let skipped = apply_from-Fits limit fs used in
    let fitted = apply_from-Fits limit fs (used + estimate) in
    let shortened = apply_from-Fits limit fs (used + actual) in
    elim (Bool-cases (leb limit used)) [
      | inl e ↦ rw e (record {
        bound = skipped.bound;
        sum = skipped.sum;
        partition = drop f skipped.partition;
      })
      | inr e ↦ elim (Bool-cases (leb estimate remaining)) [
        | inl g ↦ rw e (
            rw g (record {
              bound = λ h. fitted.bound (ground (arith, h, e, g));
              sum = ground (arith, fitted.sum);
              partition = whole f fitted.partition;
            }))
        | inr g ↦ rw e (
            rw g (record {
              bound = λ h. shortened.bound (ground (arith, h, e));
              sum = ground (arith, shortened.sum);
              partition = cut f remaining actual shortened.partition;
            }))
      ]
    ]

-- Whatever the fragments, the tokens used stay within the budget, which is at least one, they are the sum of the
-- estimates recorded with the included fragments, and each fragment in turn is either included as it is with its
-- estimate, or included with a cut content, marked and recorded as truncated, or dropped with its id recorded.
pub apply-Fits :
    (max_tokens : ℕ) (fs : List ContextFragment)
    → let r = apply max_tokens fs in
      (r.used ≤ max 1 max_tokens)
      × (r.used ≡ total r.included)
      × Partition fs r.included r.dropped r.truncated
unfolding apply
apply-Fits max_tokens fs =
    let h = apply_from-Fits (max 1 max_tokens) fs 0 in
    (h.bound (omega arith), omega (arith, h.sum), h.partition)
