-- ===== src/Permission/Redact/Bounds.antt =====
-- The length of an argument summary.
use Prim.Native.String.append
use langraph_agent_blueprint.Prelude.{
  ℕ, zero, suc, ◌+◌, ◌-◌, ◌≤◌, ◌<◌, ◌≡◌, refl, ap, String, ◌<>◌, leb, arith, ◌⊎◌, inl, inr,
  Bool-cases,
}
use langraph_agent_blueprint.Permission.Redact.{cut_summary, truncation_suffix}
use langraph_agent_blueprint.Text.{text_length, take_text, text_length-append, text_length-take}

-- The first characters of a text, then any other text, begin with these characters.
take_text-append :
    (n : ℕ) (s t : String) → n ≤ text_length s → take_text n (take_text n s <> t) ≡ take_text n s
take_text-append zero s t h = refl
take_text-append (suc n) String.[] t h = ground (arith, h)
take_text-append (suc n) (String.◌∷◌ c s) t h =
    rw append.cons (ap (λ x. String.◌∷◌ c x) (take_text-append n s t (omega (arith, h))))

-- For a limit of thirteen or more: a text that fits the limit is shown as it is. A longer one is shown by its first
-- characters, thirteen fewer than the limit, in a summary that is one character longer than the limit, because
-- the marker has fourteen characters and the code makes room for thirteen.
pub length-cut_summary :
    (limit : ℕ) (rendered : String)
    → 13 ≤ limit
    → ((text_length rendered ≤ limit) × (cut_summary limit rendered ≡ rendered))
      ⊎ ((limit < text_length rendered)
          × (take_text (limit - 13) (cut_summary limit rendered) ≡ take_text (limit - 13) rendered)
          × (text_length (cut_summary limit rendered) ≡ limit + 1))
unfolding cut_summary
length-cut_summary limit rendered h = elim (Bool-cases (leb (text_length rendered) limit)) [
  | inl e ↦ inl (ground (arith, e), rw e refl)
  | inr e ↦ inr (
    ground (arith, e),
    rw e (take_text-append (limit - 13) rendered truncation_suffix (ground (arith, e))),
    rw e (
        ground (
          arith,
          e,
          h,
          text_length-append (take_text (limit - 13) rendered) truncation_suffix,
          text_length-take (limit - 13) rendered,
        )),
  )
]
