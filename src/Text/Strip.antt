-- ===== src/Text/Strip.antt =====
-- `str.strip`, `str.lstrip` and `str.rstrip`, with the stripped characters given by a test.
use Prim.Native.Char.{Char, code}
use langraph_agent_blueprint.Prelude.{
  ℕ, suc, ◌≤◌, String, Bool, Bool-cases, inl, inr, arith, if◌then◌else◌,
}
use langraph_agent_blueprint.Text.{text_length}

unfoldable pub lstrip : (ℕ → Bool) → String → String
lstrip p String.[] = ""
lstrip p (String.◌∷◌ c s) = if p (code c) then lstrip p s else String.◌∷◌ c s

abbrev keep_front : (ℕ → Bool) → Char → String → String
keep_front p c String.[] = if p (code c) then "" else String.◌∷◌ c ""
keep_front p c (String.◌∷◌ d s) = String.◌∷◌ c (String.◌∷◌ d s)

-- The longest front that does not end in a stripped character.
unfoldable pub rstrip : (ℕ → Bool) → String → String
rstrip p String.[] = ""
rstrip p (String.◌∷◌ c s) = keep_front p c (rstrip p s)

unfoldable pub strip : (ℕ → Bool) → String → String
unfolding lstrip rstrip
strip p s = rstrip p (lstrip p s)

text_length-keep_front :
    (p : ℕ → Bool) (c : Char) (s : String) → text_length (keep_front p c s) ≤ suc (text_length s)
text_length-keep_front p c String.[] = elim (Bool-cases (p (code c))) [
  | inl e ↦ rw e (omega arith)
  | inr e ↦ rw e (omega arith)
]
text_length-keep_front p c (String.◌∷◌ d s) = omega arith

pub text_length-rstrip : (p : ℕ → Bool) (s : String) → text_length (rstrip p s) ≤ text_length s
unfolding rstrip
text_length-rstrip p String.[] = omega arith
text_length-rstrip p (String.◌∷◌ c s) =
    omega (arith, text_length-rstrip p s, text_length-keep_front p c (rstrip p s))
