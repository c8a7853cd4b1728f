-- ===== src/Address/Tests.antt =====
-- Runs of the checks of an address, with a hash that is no hash.
use prism_harness_py.Prelude.{some, ◌≡◌, refl}
use prism_harness_py.Result.{ok}
use prism_harness_py.Hashes.{Hashes}
use prism_harness_py.Address.{validate_agent, session_key}
use prism_harness_py.Address.Collision.{of_participant, session_key_collides}

instance abbrev plain_hashes : Hashes
plain_hashes = record { sha1 = λ s. s; sha256 = λ s. s; compact = λ l. ""; escaped = λ l. "" }

agent-chat : validate_agent (some "chat-2") ≡ ok tt
unfolding validate_agent
agent-chat = refl

collision_example :
    session_key (of_participant "user" "1:2" "chat")
    ≡ session_key (of_participant "user" "1" "2:chat")
collision_example = session_key_collides "user" "1" "2" "chat"
