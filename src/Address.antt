-- ===== src/Address.antt =====
-- src/prism_harness/address.py: the agent identifier's check, and the keys that an address is
-- stored under.
mod Text
mod Tests
pub mod Collision
use prism_harness_py.Prelude.{
  ℕ, zero, suc, String, Bool, true, false, ◌&&◌, ◌||◌, ◌==◌, leb, Option, none, some, [], ◌∷◌,
  if◌then◌else◌,
}
use Prim.Native.String.{◌++◌}
use prism_harness_py.Errors.{value_error}
use prism_harness_py.Result.{Result, ok, err}
use prism_harness_py.Address.Text.{is_agent, take_text, escape_slashes}
use prism_harness_py.Hashes.{Hashes}

unfoldable pub validate_agent : Option String → Result (Unit {0})
validate_agent none = ok tt
validate_agent (some agent) =
    if is_agent agent
    then ok tt
    else err (
        value_error
          "Harness namespace must be a configured lowercase identifier of 1–64 ASCII bytes.")

-- A participant's id is kept as its text.
pub record SessionAddress : Type 0 where
  pub participant_type : Option String
  pub participant_id : Option String
  pub scope : String
  pub agent : Option String

module _ ⦃hashes : Hashes⦄ where
  -- `_digest`
  abbrev pub digest : SessionAddress → (domain : String) → String
  digest a domain = hashes.sha256 (
      hashes.compact
        (some domain ∷ a.agent ∷ a.participant_type ∷ a.participant_id ∷ some a.scope ∷ []))

  abbrev legacy_session_key : (type id scope : String) → String
  legacy_session_key type id scope =
      "session:" ++ (take_text 12 (hashes.sha1 type) ++ (":" ++ (id ++ (":" ++ scope))))

  unfoldable pub session_key : SessionAddress → Result String
  session_key a = elim a.participant_type [
    | none ↦ err (value_error "A session requires a participant.")
    | some type ↦ elim a.participant_id [
      | none ↦ err (value_error "A session requires a participant.")
      | some id ↦ elim a.agent [
        | none ↦ ok (legacy_session_key type id a.scope)
        | some _ ↦ ok ("session:" ++ digest a "prism-harness.session.v1")
      ]
    ]
  ]

  unfoldable pub thread_key : SessionAddress → String
  thread_key a = elim a.agent [
    | some _ ↦ digest a "prism-harness.thread.v1"
    | none ↦ hashes.sha256 (
        escape_slashes (hashes.escaped (a.participant_type ∷ a.participant_id ∷ some a.scope ∷ [])))
  ]

  unfoldable pub index_key : SessionAddress → String
  index_key a = digest a "prism-harness.address.v1"
