-- ===== src/Thread/Tests.antt =====
-- A thread of two turns.
use prism_harness_py.Result.{ok}
use prism_harness_py.Thread.Positions.{record-positions, IsNumbered, after, added_entries}
use prism_harness_py.Prelude.Int.{pos}
use prism_harness_py.Thread.{
  entries, to_message, to_messages, append, ThreadMessage, record_messages,
}
use prism_harness_py.Value.{end, str, field, Fields}
use prism_harness_py.Store.{World}
use prism_harness_py.Prelude.{false, none, some, [], ◌∷◌, ◌≡◌, refl, ◌++◌}

abbrev empty : World
empty = record { entries = []; clock = 0; busy = λ k. false }

abbrev question : Fields
question = field "text" (str "hello") end

abbrev first_turn : World
first_turn = (record_messages "thread" (question ∷ []) (some "run") "now" empty).1

abbrev second_turn : ThreadMessage
second_turn = record { position = pos 2; message = question; run_id = none; recorded_at = "later" }

record_example :
    (to_messages (added_entries "thread" (question ∷ []) none "later" first_turn)
      ≡ ok (second_turn ∷ []))
    × (entries "thread" (after "thread" (question ∷ []) none "later" first_turn)
        ≡ entries "thread" first_turn
          ++ added_entries "thread" (question ∷ []) none "later" first_turn)
    × (IsNumbered 0 (entries "thread" first_turn)
        → IsNumbered 0 (entries "thread" (after "thread" (question ∷ []) none "later" first_turn)))
unfolding record_messages append to_messages to_message
record_example =
    record-positions "thread" (question ∷ []) none "later" first_turn (second_turn ∷ []) refl
