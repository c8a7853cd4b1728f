-- ===== src/Hashes.antt =====
-- What the harness uses of `hashlib` and of `json.dumps` with its separators set.
use prism_harness_py.Prelude.{String, Bool, true, ◌&&◌, ◌||◌, ◌==◌, leb, ℕ, Option, List}
use Prim.Native.String.{[], ◌∷◌, count}
use Prim.Native.Char.{Char, code}

-- `sha1` and `sha256` are the hexadecimal digests of a text's UTF-8. `compact` and `escaped` are
-- `json.dumps` of a list of texts and nulls, with `ensure_ascii` False and True.
pub record Hashes : Type 0 where
  pub sha1 : String → String
  pub sha256 : String → String
  pub compact : List (Option String) → String
  pub escaped : List (Option String) → String

abbrev between : (low high n : ℕ) → Bool
between low high n = leb low n && leb n high

abbrev is_hex : Char → Bool
is_hex c = between b'a' b'f' (code c) || between b'0' b'9' (code c)

abbrev all_hex : String → Bool
all_hex [] = true
all_hex (c ∷ s) = is_hex c && all_hex s

-- `re.fullmatch(r"[a-f0-9]{64}", id)`
unfoldable pub is_digest : String → Bool
is_digest s = count s == 64 && all_hex s
