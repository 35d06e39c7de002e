-- ===== src/Value.antt =====
-- The values of Python's JSON-like data: tool arguments, metadata entries and event payloads.
-- No modelled code computes with the numbers in such data, so one kind of number stands for all.
use langraph_agent_blueprint.Prelude.{
  ℕ, zero, suc, String, Bool, true, false, Option, none, some, List, [], ◌∷◌, not, ◌==◌, ◌≡◌, refl,
  arith,
}
use langraph_agent_blueprint.Prelude.Dict.{Dict, lookup, insert, lookup-insert}

mutual
  pub data Fields : Type 0 where
    end : Fields
    field : String → Value → Fields → Fields

  pub data Value : Type 0 where
    null : Value
    bool : Bool → Value
    num : ℕ → Value
    str : String → Value
    obj : Fields → Value
    arr : Items → Value

  pub data Items : Type 0 where
    nil : Items
    cons : Value → Items → Items

-- `bool(value)`
abbrev pub truthy : Value → Bool
truthy null = false
truthy (bool b) = b
truthy (num zero) = false
truthy (num (suc n)) = true
truthy (str s) = not (s == "")
truthy (arr nil) = false
truthy (arr (cons x xs)) = true
truthy (obj end) = false
truthy (obj (field k v fs)) = true

-- `bool(d.get(key))`
abbrev pub is_set : Option Value → Bool
is_set none = false
is_set (some v) = truthy v

abbrev pub items : List String → Items
items [] = nil
items (x ∷ xs) = cons (str x) (items xs)

-- The texts of a list of texts; an entry of another kind is equal to no text, and is left out.
abbrev pub texts : Items → List String
texts nil = []
texts (cons (str s) xs) = s ∷ texts xs
texts (cons v xs) = texts xs

abbrev pub dict_of : Fields → Dict Value
dict_of end = []
dict_of (field k v fs) = (k, v) ∷ dict_of fs

abbrev pub fields_of : Dict Value → Fields
fields_of [] = end
fields_of ((k, v) ∷ d) = field k v (fields_of d)

-- `value or {}`, for a value that is a dict where it is set.
abbrev pub dict_or_empty : Option Value → Dict Value
dict_or_empty (some (obj fs)) = dict_of fs
dict_or_empty _ = []

-- `list(value)`, for a value that is a list where it is set.
abbrev pub list_or_empty : Option Value → Items
list_or_empty (some (arr xs)) = xs
list_or_empty _ = nil

abbrev pub append_item : Items → Value → Items
append_item nil v = cons v nil
append_item (cons x xs) v = cons x (append_item xs v)

-- `{**a, **b}`. No modelled code observes the order of the keys.
unfoldable pub merge_dict : Dict Value → Dict Value → Dict Value
merge_dict a [] = a
merge_dict a ((k, v) ∷ b) = insert k v (merge_dict a b)

abbrev pub or_else : Option Value → Option Value → Option Value
or_else none b = b
or_else (some v) b = some v

-- The later dict wins.
pub lookup-merge_dict :
    (j : String) (a b : Dict Value) → lookup j (merge_dict a b) ≡ or_else (lookup j b) (lookup j a)
unfolding merge_dict lookup
lookup-merge_dict j a [] = refl
lookup-merge_dict j a ((k, v) ∷ b) =
    ground (arith, lookup-insert j k v (merge_dict a b), lookup-merge_dict j a b)

-- `d.get(key, value)`
abbrev pub value_or : Value → Option Value → Value
value_or v none = v
value_or v (some w) = w
