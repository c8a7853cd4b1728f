-- ===== src/Address/Collision.antt =====
-- The key of a session whose address has no agent does not tell its participant's id from its scope.
use prism_harness_py.Prelude.{String, none, some, ◌≡◌, refl}
use Prim.Native.String.{◌++◌}
use text.Mathlib.TextLemmas.{append_assoc}
use prism_harness_py.Hashes.{Hashes}
use prism_harness_py.Address.{SessionAddress, session_key}

abbrev pub of_participant : (type id scope : String) → SessionAddress
of_participant type id scope = record {
  participant_type = some type;
  participant_id = some id;
  scope = scope;
  agent = none;
}

-- Without an agent, an id that ends in a colon and more, and the id without it before a scope that
-- begins with that, have one session key: two participants of one type share the session.
pub session_key_collides :
    ⦃hashes : Hashes⦄ (type id more scope : String)
    → session_key (of_participant type (id ++ (":" ++ more)) scope)
      ≡ session_key (of_participant type id (more ++ (":" ++ scope)))
unfolding session_key
session_key_collides type id more scope =
    rw (append_assoc id (":" ++ more) (":" ++ scope), append_assoc ":" more (":" ++ scope)) refl
