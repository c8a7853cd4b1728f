-- ===== src/Registration.antt =====
-- src/prism_harness/registration.py: the label of who registered something.
use prism_harness_py.Prelude.{
  String, Bool, false, ◌&&◌, ◌||◌, not, Option, none, some, leb, ltb, ◌==◌, if◌then◌else◌, str_eq,
}
use Prim.Native.String.{[], ◌∷◌, len}
use Prim.Native.Char.{Char, code}
use prism_harness_py.Errors.{value_error}
use prism_harness_py.Result.{Result, ok, err}

-- `[\x00-\x1f\x7f]`
abbrev is_control : Char → Bool
is_control c = ltb (code c) 32 || code c == 127

abbrev has_control : String → Bool
has_control [] = false
has_control (c ∷ s) = is_control c || has_control s

-- The length is that of the UTF-8.
abbrev pub is_label : String → Bool
is_label label = not (str_eq label "") && leb (len label) 128 && not (has_control label)

abbrev checked_label : String → Result String
checked_label label =
    if is_label label
    then ok label
    else err (
        value_error
          "A named registration requires a non-empty UTF-8 owner label of at most 128 bytes without control characters.")

abbrev owner_missing : Option String → Result String
owner_missing none = ok "legacy"
owner_missing (some _) = err (
    value_error
      "A named registration requires a non-empty UTF-8 owner label of at most 128 bytes without control characters.")

unfoldable pub registration_owner : (owner agent : Option String) → Result String
registration_owner (some label) agent = checked_label label
registration_owner none agent = owner_missing agent
