-- ===== src/ModelCall/UsageService.antt =====
-- services/usage_service.py: adding up the tokens of model calls.
use langraph_agent_blueprint.Prelude.{
  ℕ, ◌+◌, ◌≡◌, ◌∙◌, String, false, refl, All, Option, none, some, List, [], ◌∷◌, ◌==◌, eq_refl, ap,
}
use langraph_agent_blueprint.Prelude.Dict.{Dict, lookup, insert, lookup-insert}
use langraph_agent_blueprint.ModelCall.{Usage}
use langraph_agent_blueprint.Value.{Value, null, num, str, bool, obj, arr}

-- `int(d.get(key, 0))`, for a count.
abbrev pub count : Option Value → ℕ
count (some (num n)) = n
count _ = 0

abbrev counted : String → Dict Value → Dict Value → Dict Value
counted k update d = insert k (num (count (lookup k d) + count (lookup k update))) d

-- `merged[key] = update[key]`, where that is not `None`.
abbrev replaced_by : String → Option Value → Dict Value → Dict Value
replaced_by k none d = d
replaced_by k (some null) d = d
replaced_by k (some v) d = insert k v d

abbrev all_counted : Dict Value → Dict Value → Dict Value
all_counted update d = counted "tool_calls" update (
    counted "total_tokens" update
      (counted "output_tokens" update (counted "input_tokens" update d)))

-- `UsageService.merge`
unfoldable pub merge : Dict Value → Dict Value → Dict Value
merge existing update =
    let tokens = all_counted update existing in
    replaced_by "cost" (lookup "cost" update) (
      replaced_by "duration_ms" (lookup "duration_ms" update) (
        replaced_by "provider" (lookup "provider" update)
          (replaced_by "model" (lookup "model" update) tokens)))

abbrev text : Option Value → Option String
text (some (str s)) = some s
text _ = none

abbrev present : Option Value → Option Value
present (some null) = none
present v = v

-- The validation of a dict as `Usage`.
unfoldable pub usage_of : Dict Value → Usage
usage_of d = record {
  input_tokens = count (lookup "input_tokens" d);
  output_tokens = count (lookup "output_tokens" d);
  total_tokens = count (lookup "total_tokens" d);
  tool_calls = count (lookup "tool_calls" d);
  cost = present (lookup "cost" d);
  model = text (lookup "model" d);
  provider = text (lookup "provider" d);
  duration_ms = present (lookup "duration_ms" d);
}

lookup-replaced_by :
    (j k : String) (v : Option Value) (d : Dict Value)
    → (k == j) ≡ false
    → lookup j (replaced_by k v d) ≡ lookup j d
lookup-replaced_by j k none d h = refl
lookup-replaced_by j k (some null) d h = refl
lookup-replaced_by j k (some (bool b)) d h = rw lookup-insert (rw h refl)
lookup-replaced_by j k (some (num n)) d h = rw lookup-insert (rw h refl)
lookup-replaced_by j k (some (str s)) d h = rw lookup-insert (rw h refl)
lookup-replaced_by j k (some (obj fs)) d h = rw lookup-insert (rw h refl)
lookup-replaced_by j k (some (arr xs)) d h = rw lookup-insert (rw h refl)

abbrev pub count_keys : List String
count_keys = "input_tokens" ∷ "output_tokens" ∷ "total_tokens" ∷ "tool_calls" ∷ []

lookup-merge_others :
    (j : String) (a b : Dict Value)
    → ("cost" == j) ≡ false
    → ("duration_ms" == j) ≡ false
    → ("provider" == j) ≡ false
    → ("model" == j) ≡ false
    → lookup j (merge a b) ≡ lookup j (all_counted b a)
unfolding merge
lookup-merge_others j a b c d p m =
    lookup-replaced_by j "cost" (lookup "cost" b) _ c
    ∙ (lookup-replaced_by j "duration_ms" (lookup "duration_ms" b) _ d
        ∙ (lookup-replaced_by j "provider" (lookup "provider" b) _ p
            ∙ lookup-replaced_by j "model" (lookup "model" b) _ m))

lookup-counted_same :
    (k : String) (u d : Dict Value)
    → lookup k (counted k u d) ≡ some (num (count (lookup k d) + count (lookup k u)))
lookup-counted_same k u d = rw lookup-insert (rw (eq_refl k) refl)

lookup-counted_other :
    (j k : String) (u d : Dict Value) → (k == j) ≡ false → lookup j (counted k u d) ≡ lookup j d
lookup-counted_other j k u d h = rw lookup-insert (rw h refl)

module _ (a b : Dict Value) where
  abbrev pub sum : String → Option Value
  sum k = some (num (count (lookup k a) + count (lookup k b)))

  lookup-counted_sum :
      (k : String) (d : Dict Value) → lookup k d ≡ lookup k a → lookup k (counted k b d) ≡ sum k
  lookup-counted_sum k d h =
      lookup-counted_same k b d ∙ ap (λ v. some (num (count v + count (lookup k b)))) h

  lookup-input_tokens : lookup "input_tokens" (merge a b) ≡ sum "input_tokens"
  lookup-input_tokens =
      lookup-merge_others "input_tokens" a b refl refl refl refl
      ∙ (lookup-counted_other _ "tool_calls" b _ refl
          ∙ (lookup-counted_other _ "total_tokens" b _ refl
              ∙ (lookup-counted_other _ "output_tokens" b _ refl ∙ lookup-counted_same _ b a)))

  lookup-output_tokens : lookup "output_tokens" (merge a b) ≡ sum "output_tokens"
  lookup-output_tokens =
      lookup-merge_others "output_tokens" a b refl refl refl refl
      ∙ (lookup-counted_other _ "tool_calls" b _ refl
          ∙ (lookup-counted_other _ "total_tokens" b _ refl
              ∙ lookup-counted_sum _ _ (lookup-counted_other _ "input_tokens" b a refl)))

  lookup-total_tokens : lookup "total_tokens" (merge a b) ≡ sum "total_tokens"
  lookup-total_tokens =
      lookup-merge_others "total_tokens" a b refl refl refl refl
      ∙ (lookup-counted_other _ "tool_calls" b _ refl
          ∙ lookup-counted_sum _ _ (
              lookup-counted_other _ "output_tokens" b _ refl
              ∙ lookup-counted_other _ "input_tokens" b a refl))

  lookup-tool_calls : lookup "tool_calls" (merge a b) ≡ sum "tool_calls"
  lookup-tool_calls =
      lookup-merge_others "tool_calls" a b refl refl refl refl
      ∙ lookup-counted_sum _ _ (
          lookup-counted_other _ "total_tokens" b _ refl
          ∙ (lookup-counted_other _ "output_tokens" b _ refl
              ∙ lookup-counted_other _ "input_tokens" b a refl))

-- For each of the four keys that count, the merged usage holds the sum of the two counts.
pub merge-sum : (a b : Dict Value) → All (λ k. lookup k (merge a b) ≡ sum a b k) count_keys
merge-sum a b = (
  lookup-input_tokens a b,
  (lookup-output_tokens a b, (lookup-total_tokens a b, (lookup-tool_calls a b, tt))),
)
