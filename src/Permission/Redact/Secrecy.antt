-- ===== src/Permission/Redact/Secrecy.antt =====
-- What an approval prompt can show of a tool's arguments.
use langraph_agent_blueprint.Prelude.{
  ℕ, String, ◌≡◌, refl, sym, ap, Bool, true, false, Option, List, contains, if◌then◌else◌,
  Bool-cases, inl, inr,
}
use langraph_agent_blueprint.Permission.{ToolPermissionMetadata, tool_permission}
use langraph_agent_blueprint.Permission.Redact.{
  redact_value, redact_items, redact_fields, redacted_keys, redact_args, cut_summary,
  summarize_args, confirmation_payload,
}
use langraph_agent_blueprint.Value.{
  Value, null, bool, num, str, arr, obj, Items, nil, cons, Fields, end, field,
}

module _ (lower : String → String) (keys : List String) where
  -- Every field with a sensitive key, at any depth, holds the marker.
  abbrev mutual
    pub IsRedacted : Value → Type 0
    IsRedacted null = Unit
    IsRedacted (bool b) = Unit
    IsRedacted (num n) = Unit
    IsRedacted (str s) = Unit
    IsRedacted (arr xs) = AreRedacted xs
    IsRedacted (obj fs) = FieldsRedacted fs

    pub AreRedacted : Items → Type 0
    AreRedacted nil = Unit
    AreRedacted (cons x xs) = IsRedacted x × AreRedacted xs

    pub FieldsRedacted : Fields → Type 0
    FieldsRedacted end = Unit
    FieldsRedacted (field k v fs) =
        (if contains keys (lower k) then v ≡ str "***" else IsRedacted v) × FieldsRedacted fs

  -- Equal but for the values under sensitive keys.
  mutual
    pub data Agree : Value → Value → Type 0 where
      same : (v : Value) → Agree v v
      arrs : {xs ys : Items} → AgreeItems xs ys → Agree (arr xs) (arr ys)
      objs : {fs gs : Fields} → AgreeFields fs gs → Agree (obj fs) (obj gs)

    pub data AgreeItems : Items → Items → Type 0 where
      nils : AgreeItems nil nil
      both :
          {x y : Value} {xs ys : Items}
          → Agree x y
          → AgreeItems xs ys
          → AgreeItems (cons x xs) (cons y ys)

    pub data AgreeFields : Fields → Fields → Type 0 where
      ends : AgreeFields end end
      hidden :
          {k : String} {v w : Value} {fs gs : Fields}
          → contains keys (lower k) ≡ true
          → AgreeFields fs gs
          → AgreeFields (field k v fs) (field k w gs)
      shown :
          {k : String} {v w : Value} {fs gs : Fields}
          → Agree v w
          → AgreeFields fs gs
          → AgreeFields (field k v fs) (field k w gs)

  -- One field, by its test.
  masked_field :
      (b : Bool) (v : Value)
      → IsRedacted v
      → if b
        then (if b then str "***" else v) ≡ str "***"
        else IsRedacted (if b then str "***" else v)
  masked_field true v h = refl
  masked_field false v h = h

  masked_id :
      (b : Bool) (v w : Value)
      → (IsRedacted v → w ≡ v)
      → if b then v ≡ str "***" else IsRedacted v
      → (if b then str "***" else w) ≡ v
  masked_id true v w ih h = sym h
  masked_id false v w ih h = ih h

  mutual
    unfolding redact_value

    redact_value-IsRedacted : (v : Value) → IsRedacted (redact_value lower keys v)
    redact_value-IsRedacted null = tt
    redact_value-IsRedacted (bool b) = tt
    redact_value-IsRedacted (num n) = tt
    redact_value-IsRedacted (str s) = tt
    redact_value-IsRedacted (arr xs) = redact_items-AreRedacted xs
    redact_value-IsRedacted (obj fs) = redact_fields-FieldsRedacted fs

    redact_items-AreRedacted : (xs : Items) → AreRedacted (redact_items lower keys xs)
    redact_items-AreRedacted nil = tt
    redact_items-AreRedacted (cons x xs) = (redact_value-IsRedacted x, redact_items-AreRedacted xs)

    redact_fields-FieldsRedacted : (fs : Fields) → FieldsRedacted (redact_fields lower keys fs)
    redact_fields-FieldsRedacted end = tt
    redact_fields-FieldsRedacted (field k v fs) = (
      masked_field (contains keys (lower k)) (redact_value lower keys v)
          (redact_value-IsRedacted v),
      redact_fields-FieldsRedacted fs,
    )

  mutual
    unfolding redact_value

    redact_value_fixed : (v : Value) → IsRedacted v → redact_value lower keys v ≡ v
    redact_value_fixed null h = refl
    redact_value_fixed (bool b) h = refl
    redact_value_fixed (num n) h = refl
    redact_value_fixed (str s) h = refl
    redact_value_fixed (arr xs) h = ap arr (redact_items_fixed xs h)
    redact_value_fixed (obj fs) h = ap obj (redact_fields_fixed fs h)

    redact_items_fixed : (xs : Items) → AreRedacted xs → redact_items lower keys xs ≡ xs
    redact_items_fixed nil h = refl
    redact_items_fixed (cons x xs) h = cc (redact_value_fixed x h.0, redact_items_fixed xs h.1)

    redact_fields_fixed : (fs : Fields) → FieldsRedacted fs → redact_fields lower keys fs ≡ fs
    redact_fields_fixed end h = refl
    redact_fields_fixed (field k v fs) h = cc (
      masked_id (contains keys (lower k)) v (redact_value lower keys v) (redact_value_fixed v) h.0,
      redact_fields_fixed fs h.1,
    )

  mutual
    unfolding redact_value

    redact_value-Agree :
        {v w : Value} → Agree v w → redact_value lower keys v ≡ redact_value lower keys w
    redact_value-Agree (same v) = refl
    redact_value-Agree (arrs a) = ap arr (redact_items-Agree a)
    redact_value-Agree (objs a) = ap obj (redact_fields-Agree a)

    redact_items-Agree :
        {xs ys : Items} → AgreeItems xs ys → redact_items lower keys xs ≡ redact_items lower keys ys
    redact_items-Agree nils = refl
    redact_items-Agree (both a rest) = cc (redact_value-Agree a, redact_items-Agree rest)

    redact_fields-Agree :
        {fs gs : Fields}
        → AgreeFields fs gs
        → redact_fields lower keys fs ≡ redact_fields lower keys gs
    redact_fields-Agree ends = refl
    redact_fields-Agree (hidden h a) = rw h (cc (redact_fields-Agree a))
    redact_fields-Agree (shown a rest) = cc (redact_value-Agree a, redact_fields-Agree rest)

  -- A field's value is hidden by the marker or stays as it is.
  redact_field_agrees :
      (k : String) (v w : Value) (fs gs : Fields)
      → Agree v w
      → AgreeFields fs gs
      → AgreeFields (field k v fs) (field k (if contains keys (lower k) then str "***" else w) gs)
  redact_field_agrees k v w fs gs h g = elim (Bool-cases (contains keys (lower k))) [
    | inl e ↦ hidden e g
    | inr e ↦ rw e (shown h g)
  ]

  mutual
    unfolding redact_value

    redact_value_agrees : (v : Value) → Agree v (redact_value lower keys v)
    redact_value_agrees null = same null
    redact_value_agrees (bool b) = same (bool b)
    redact_value_agrees (num n) = same (num n)
    redact_value_agrees (str s) = same (str s)
    redact_value_agrees (arr xs) = arrs (redact_items_agrees xs)
    redact_value_agrees (obj fs) = objs (redact_fields_agrees fs)

    redact_items_agrees : (xs : Items) → AgreeItems xs (redact_items lower keys xs)
    redact_items_agrees nil = nils
    redact_items_agrees (cons x xs) = both (redact_value_agrees x) (redact_items_agrees xs)

    redact_fields_agrees : (fs : Fields) → AgreeFields fs (redact_fields lower keys fs)
    redact_fields_agrees end = ends
    redact_fields_agrees (field k v fs) =
        redact_field_agrees k v (redact_value lower keys v) fs (redact_fields lower keys fs)
          (redact_value_agrees v) (redact_fields_agrees fs)

-- Redaction masks the value of every field with a sensitive key at every depth, changes nothing but the values
-- under such keys, and redacting twice is redacting once.
pub redact_args_complete :
    (lower : String → String) (args : Fields) (sensitive : List String)
    → FieldsRedacted lower (redacted_keys lower sensitive) (redact_args lower args sensitive)
      × AgreeFields lower (redacted_keys lower sensitive) args (redact_args lower args sensitive)
      × (redact_args lower (redact_args lower args sensitive) sensitive
          ≡ redact_args lower args sensitive)
unfolding redact_args
redact_args_complete lower args sensitive =
    let masked = redact_fields-FieldsRedacted lower (redacted_keys lower sensitive) args in
    (
      masked,
      redact_fields_agrees lower (redacted_keys lower sensitive) args,
      redact_fields_fixed lower (redacted_keys lower sensitive) _ masked,
    )

module _ (lower : String → String) (dumps : Fields → String) where
  summarize_args-Agree :
      {args args' : Fields} (sensitive : List String) (limit : ℕ)
      → AgreeFields lower (redacted_keys lower sensitive) args args'
      → summarize_args lower dumps args sensitive limit
        ≡ summarize_args lower dumps args' sensitive limit
  unfolding summarize_args redact_args
  summarize_args-Agree sensitive limit ends = refl
  summarize_args-Agree sensitive limit (hidden h a) =
      ap (λ r. cut_summary limit (dumps r)) (redact_fields-Agree lower _ (hidden h a))
  summarize_args-Agree sensitive limit (shown a rest) =
      ap (λ r. cut_summary limit (dumps r)) (redact_fields-Agree lower _ (shown a rest))

-- An approval prompt depends on nothing that redaction hides: two calls of a tool whose arguments
-- differ only under its sensitive keys, at any depth, raise the same request, summary included.
pub confirmation_payload-Agree :
    (lower : String → String) (dumps : Fields → String) (call_id call_name reason : String)
    (permission : Option ToolPermissionMetadata) {args args' : Fields}
    → AgreeFields lower
        (redacted_keys lower (tool_permission permission).sensitive_arg_keys)
        args
        args'
    → confirmation_payload lower dumps call_id call_name args permission reason
      ≡ confirmation_payload lower dumps call_id call_name args' permission reason
unfolding confirmation_payload redact_args
confirmation_payload-Agree lower dumps call_id call_name reason permission a = cc (
  redact_fields-Agree lower _ a,
  summarize_args-Agree lower dumps (tool_permission permission).sensitive_arg_keys 500 a,
)
