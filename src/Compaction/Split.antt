-- ===== src/Compaction/Split.antt =====
-- Where the recent messages begin.
use langraph_agent_blueprint.Prelude.{
  ℕ, zero, suc, ◌≤◌, ◌<◌, String, ◌≡◌, refl, Bool, true, false, ◌&&◌, Option, none, some, List, [],
  ◌∷◌, ◌++◌, length, take, drop, any, arith, if◌then◌else◌, Bool-cases, inl, inr, length-take,
  take-append-drop,
}
use langraph_agent_blueprint.Compaction.{
  CompactionService, leading_ids, makes, find_last, starts_with_tool, position_or,
  tool_pair_safe_keep_start, split_messages, keep_start_of,
}
use langraph_agent_blueprint.State.{Message, ai, tool, human, system, remove_all}

abbrev head_is : (Message → Bool) → List Message → Bool
head_is p [] = false
head_is p (m ∷ ms) = p m

-- What the search for the last message with a property has found.
abbrev Found : (Message → Bool) → List Message → Option ℕ → Type 0
Found p ms none = any p ms ≡ false
Found p ms (some i) = (i < length ms) × (head_is p (drop i ms) ≡ true)

cons-Found :
    (p : Message → Bool) (m : Message) (ms : List Message) (r : Option ℕ) (b : Bool)
    → p m ≡ b
    → Found p ms r
    → Found p (m ∷ ms) (elim r [ some i ↦ some (suc i) | none ↦ if b then some 0 else none ])
cons-Found p m ms none true e h = (omega arith, e)
cons-Found p m ms none false e h = rw e h
cons-Found p m ms (some i) b e (h, g) = (omega (arith, h), g)

find_last-Found : (p : Message → Bool) (ms : List Message) → Found p ms (find_last p ms)
find_last-Found p [] = refl
find_last-Found p (m ∷ ms) = cons-Found p m ms (find_last p ms) (p m) refl (find_last-Found p ms)

-- What stands at a position of the first messages stands there in all of them.
head_is-take :
    (p : Message → Bool) (i k : ℕ) (ms : List Message)
    → head_is p (drop i (take k ms)) ≡ true
    → head_is p (drop i ms) ≡ true
head_is-take p zero zero ms h = cc h
head_is-take p zero (suc k) [] h = h
head_is-take p zero (suc k) (m ∷ ms) h = h
head_is-take p (suc i) zero ms h = cc h
head_is-take p (suc i) (suc k) [] h = h
head_is-take p (suc i) (suc k) (m ∷ ms) h = head_is-take p i k ms h

-- A message that makes a call is no tool message.
makes-starts_with_tool :
    (ids : List String) (ms : List Message)
    → head_is (makes ids) ms ≡ true
    → starts_with_tool ms ≡ false
makes-starts_with_tool ids [] h = refl
makes-starts_with_tool ids (human t ∷ ms) h = refl
makes-starts_with_tool ids (system t ∷ ms) h = refl
makes-starts_with_tool ids (ai t calls ∷ ms) h = refl
makes-starts_with_tool ids (tool id payload ∷ ms) h = cc h
makes-starts_with_tool ids (remove_all ∷ ms) h = refl

-- Whether a split parts the results that the recent messages begin with from a call of them.
abbrev pub separates : List Message → List Message → Bool
separates old recent = starts_with_tool recent && any (makes (leading_ids recent)) old

-- A good place to begin: not after the place asked for, and not between a call and its result.
pub record IsSafe (ms : List Message) (asked k : ℕ) : Type 0 where
  pub bound : k ≤ asked
  pub paired : separates (take k ms) (drop k ms) ≡ false

position_or-IsSafe :
    (ms : List Message) (asked : ℕ) (r : Option ℕ)
    → Found (makes (leading_ids (drop asked ms))) (take asked ms) r
    → IsSafe ms asked (position_or asked r)
position_or-IsSafe ms asked none h = record { bound = omega arith; paired = ground (arith, h) }
position_or-IsSafe ms asked (some i) (h, g) = record {
  bound = omega (arith, h, length-take asked ms);
  paired = ground (
    arith,
    makes-starts_with_tool (leading_ids (drop asked ms)) (drop i ms)
        (head_is-take (makes (leading_ids (drop asked ms))) i asked ms g),
  );
}

-- Where the recent messages are made to begin, no later than asked for, they do not begin with the results
-- of calls that an earlier, compacted message made.
pub tool_pair_safe_keep_start-IsSafe :
    (ms : List Message) (asked : ℕ) → IsSafe ms asked (tool_pair_safe_keep_start ms asked)
unfolding tool_pair_safe_keep_start
tool_pair_safe_keep_start-IsSafe ms asked =
    let p = makes (leading_ids (drop asked ms)) in
    elim (Bool-cases (starts_with_tool (drop asked ms))) [
      | inl e ↦ rw e (
          position_or-IsSafe ms asked (find_last p (take asked ms))
            (find_last-Found p (take asked ms)))
      | inr e ↦ rw e (record { bound = omega arith; paired = ground (arith, e) })
    ]

-- Splitting loses no message and keeps the order, and the recent part does not begin with the results of
-- calls that the old part made.
pub split_messages-IsSafe :
    (service : CompactionService) (ms : List Message)
    → ((split_messages service ms).0 ++ (split_messages service ms).1 ≡ ms)
      × (separates (split_messages service ms).0 (split_messages service ms).1 ≡ false)
unfolding split_messages
split_messages-IsSafe service ms =
    let asked = keep_start_of service ms in
    (
      take-append-drop (tool_pair_safe_keep_start ms asked) ms,
      (tool_pair_safe_keep_start-IsSafe ms asked).paired,
    )
