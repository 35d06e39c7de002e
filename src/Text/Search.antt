-- ===== src/Text/Search.antt =====
-- The test `part in text` of Python's `str`.
use Prim.Native.Char.{code}
use langraph_agent_blueprint.Prelude.{String, Bool, true, false, List, [], ◌∷◌, ◌&&◌, ◌||◌, eqb}

-- `text.startswith(part)`
unfoldable pub starts_with : String → String → Bool
starts_with String.[] text = true
starts_with (String.◌∷◌ c part) String.[] = false
starts_with (String.◌∷◌ c part) (String.◌∷◌ d text) = eqb (code c) (code d) && starts_with part text

unfoldable pub has_text : String → String → Bool
unfolding starts_with
has_text part String.[] = starts_with part ""
has_text part (String.◌∷◌ d text) =
    let later = has_text part text in starts_with part (String.◌∷◌ d text) || later

-- `any(part in text for part in parts)`
abbrev pub has_any : List String → String → Bool
has_any [] text = false
has_any (part ∷ parts) text = has_text part text || has_any parts text
