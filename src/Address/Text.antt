-- ===== src/Address/Text.antt =====
-- The text functions of address.py: the two regular expressions' parts, a slice and a replacement.
use prism_harness_py.Prelude.{
  ℕ, zero, suc, String, Bool, true, false, ◌&&◌, ◌||◌, ◌==◌, leb, if◌then◌else◌,
}
use Prim.Native.String.{[], ◌∷◌, ◌++◌, count}
use Prim.Native.Char.{Char, code}

abbrev in_range : (low high : ℕ) → Char → Bool
in_range low high c = leb low (code c) && leb (code c) high

abbrev is_lower : Char → Bool
is_lower = in_range b'a' b'z'

-- `[a-z0-9_-]`
abbrev is_agent_char : Char → Bool
is_agent_char c = is_lower c || in_range b'0' b'9' c || code c == b'_' || code c == b'-'

abbrev all_agent_chars : String → Bool
all_agent_chars [] = true
all_agent_chars (c ∷ s) = is_agent_char c && all_agent_chars s

-- `re.fullmatch(r"[a-z][a-z0-9_-]{0,63}", agent)`
abbrev pub is_agent : String → Bool
is_agent [] = false
is_agent (c ∷ s) = is_lower c && all_agent_chars s && leb (count s) 63

-- `[:12]`
abbrev pub take_text : ℕ → String → String
take_text zero s = []
take_text (suc n) [] = []
take_text (suc n) (c ∷ s) = c ∷ take_text n s

-- `.replace("/", "\\/")`
abbrev pub escape_slashes : String → String
escape_slashes [] = []
escape_slashes (c ∷ s) =
    let rest = escape_slashes s in if code c == b'/' then "\\/" ++ rest else c ∷ rest
