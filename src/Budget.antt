-- ===== src/Budget.antt =====
-- context/budget.py: fitting the fragments of resolved context into a budget of tokens.
pub mod Laws
mod Tests
use langraph_agent_blueprint.Prelude.{
  ℕ, zero, suc, ◌+◌, ◌-◌, ◌*◌, ◌/◌, max, min, String, ◌<>◌, Bool, true, false, Option, none, some,
  List, [], ◌∷◌, leb, eqb, if◌then◌else◌,
}
use langraph_agent_blueprint.Text.{text_length, take_text, is_space}
use langraph_agent_blueprint.Text.Strip.{rstrip}

pub record ContextFragment : Type 0 where
  pub id : String
  pub content : String
  pub token_estimate : Option ℕ
  pub truncated : Bool

-- `max_tokens` of the service: at least one.
abbrev pub max_tokens_of : ℕ → ℕ
max_tokens_of n = max 1 n

unfoldable pub estimate_tokens : String → ℕ
estimate_tokens text = max 1 ((text_length text + 3) / 4)

-- `fragment.token_estimate or self.estimate_tokens(fragment.content)`
unfoldable pub estimate_of : ContextFragment → ℕ
unfolding estimate_tokens
estimate_of f = elim f.token_estimate [
  | none ↦ estimate_tokens f.content
  | some n ↦ if eqb n 0 then estimate_tokens f.content else n
]

-- The included fragments, the ids of the dropped and the truncated ones, and the tokens used.
pub record Applied : Type 0 where
  pub included : List ContextFragment
  pub dropped : List String
  pub truncated : List String
  pub used : ℕ

abbrev pub cut_content : ContextFragment → ℕ → String
cut_content f remaining =
    rstrip is_space (take_text (max 1 (remaining * 4)) f.content) <> "\n[truncated]"

abbrev whole : ContextFragment → ℕ → Applied → Applied
whole f estimate rest = record rest {
  included = record f { token_estimate = some estimate } ∷ rest.included;
}

abbrev cut : ContextFragment → String → ℕ → Applied → Applied
cut f content estimate rest = record rest {
  included =
      record f { content = content; token_estimate = some estimate; truncated = true }
      ∷ rest.included;
  truncated = f.id ∷ rest.truncated;
}

-- The loop of `apply`, from the tokens used so far.
unfoldable pub apply_from : ℕ → List ContextFragment → ℕ → Applied
unfolding estimate_of estimate_tokens rstrip is_space
apply_from limit [] used = record { included = []; dropped = []; truncated = []; used = used }
apply_from limit (f ∷ fs) used =
    let estimate = estimate_of f in
    let remaining = limit - used in
    let content = cut_content f remaining in
    let actual = min (estimate_tokens content) remaining in
    let skipped = apply_from limit fs used in
    let fitted = apply_from limit fs (used + estimate) in
    let shortened = apply_from limit fs (used + actual) in
    if leb limit used
    then record skipped { dropped = f.id ∷ skipped.dropped }
    else if leb estimate remaining
    then whole f estimate fitted
    else cut f content actual shortened

unfoldable pub apply : ℕ → List ContextFragment → Applied
unfolding apply_from
apply max_tokens fragments = apply_from (max_tokens_of max_tokens) fragments 0
