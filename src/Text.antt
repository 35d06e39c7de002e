-- ===== src/Text.antt =====
-- Texts by their characters, and the `str` operations that the program uses on them.
pub mod Strip
pub mod Search
use Prim.Native.Char.{code}
use Prim.Native.String.append
use langraph_agent_blueprint.Prelude.{
  ℕ, zero, suc, ◌+◌, ◌≤◌, min, ◌≡◌, refl, ap, String, ◌<>◌, Bool, ◌||◌, ◌&&◌, List, [], ◌∷◌, leb,
  eqb, arith,
}

abbrev pub codes : String → List ℕ
codes String.[] = []
codes (String.◌∷◌ c s) = code c ∷ codes s

-- `len(s)`: the number of characters.
abbrev pub text_length : String → ℕ
text_length String.[] = 0
text_length (String.◌∷◌ c s) = suc (text_length s)

-- `s[:n]`
abbrev pub take_text : ℕ → String → String
take_text zero s = ""
take_text (suc n) String.[] = ""
take_text (suc n) (String.◌∷◌ c s) = String.◌∷◌ c (take_text n s)

-- `s[n:]`
abbrev pub drop_text : ℕ → String → String
drop_text zero s = s
drop_text (suc n) String.[] = ""
drop_text (suc n) (String.◌∷◌ c s) = drop_text n s

-- `str.isspace` of one character, for every code point that Python counts as white space.
unfoldable pub is_space : ℕ → Bool
is_space c =
    (leb 9 c && leb c 13)
    || (leb 28 c && leb c 32)
    || eqb c 133
    || eqb c 160
    || eqb c 5760
    || (leb 8192 c && leb c 8202)
    || eqb c 8232
    || eqb c 8233
    || eqb c 8239
    || eqb c 8287
    || eqb c 12288

pub text_length-append : (s t : String) → text_length (s <> t) ≡ text_length s + text_length t
text_length-append String.[] t = rw append.nil (omega arith)
text_length-append (String.◌∷◌ c s) t = rw append.cons (omega (arith, text_length-append s t))

pub text_length-take : (n : ℕ) (s : String) → text_length (take_text n s) ≡ min n (text_length s)
text_length-take zero s = omega arith
text_length-take (suc n) String.[] = omega arith
text_length-take (suc n) (String.◌∷◌ c s) = omega (arith, text_length-take n s)
