-- ===== src/Thread.antt =====
-- src/prism_harness/thread.py: the stored conversation of a session, over the world of its store.
use prism_harness_py.Prelude.{
  ℕ, suc, ◌+◌, String, Bool, true, false, ◌&&◌, Option, none, some, List, [], ◌∷◌, ◌++◌, map,
  length, if◌then◌else◌, ◌==◌, not,
}
use prism_harness_py.Prelude.Int.{ℤ, pos, leb_ℤ}
use prism_harness_py.Value.{
  Value, null, bool, int, float, str, arr, obj, Fields, end, field, get, put, dicts, to_list,
  of_list,
}
use prism_harness_py.Errors.{Error, harness, type_error, HarnessError}
use prism_harness_py.Result.{Result, ok, err, ◌>>=◌}
use prism_harness_py.Store.{World, with_lock}
use prism_harness_py.Store
mod Tests
pub mod Positions

pub record ThreadMessage : Type 0 where
  pub position : ℤ
  pub message : Fields
  pub run_id : Option String
  pub recorded_at : String

-- `position if isinstance(position, int) else 0`; True is an int
abbrev position_of : Option Value → ℤ
position_of (some (int n)) = n
position_of (some (bool true)) = pos 1
position_of _ = pos 0

abbrev text_or_none : Option Value → Option String
text_or_none (some (str s)) = some s
text_or_none _ = none

abbrev text_or_empty : Option Value → String
text_or_empty (some (str s)) = s
text_or_empty _ = ""

-- `_to_message`
unfoldable pub to_message : Fields → Result ThreadMessage
to_message entry = elim (get "message" entry) [
  | some (obj message) ↦ ok (record {
    position = position_of (get "position" entry);
    message = message;
    run_id = text_or_none (get "run_id" entry);
    recorded_at = text_or_empty (get "recorded_at" entry);
  })
  | _ ↦ err (harness (HarnessError.unmappable_content (get "position" entry)))
]

unfoldable pub to_messages : List Fields → Result (List ThreadMessage)
to_messages [] = ok []
to_messages (entry ∷ entries) = do
  message ← to_message entry
  rest ← to_messages entries
  ok (message ∷ rest)

-- The dicts among the stored messages, as a reader takes them: of what is no list, none.
abbrev pub listed : Option Value → List Fields
listed (some (arr vs)) = dicts (to_list vs)
listed _ = []

abbrev pub entries : (key : String) → World → List Fields
entries key w = listed (get "messages" (Store.get_or_empty key w))

-- `exists`
unfoldable pub exists : (key : String) → World → Bool
exists key w = elim (Store.get key w) [ none ↦ false | some _ ↦ true ]

-- `messages`
unfoldable pub messages : (key : String) → World → Result (List ThreadMessage)
messages key w = to_messages (entries key w)

-- `count`
unfoldable pub count : (key : String) → World → Result ℕ
unfolding messages
count key w = do all ← messages key w; ok (length all)

-- What a writer iterates over, `stored.get("messages") or []`: a number that is not zero is no
-- iterable, and a text or a dict has no dicts in it.
abbrev pub iterated : Option Value → Result (List Fields)
iterated (some (arr vs)) = ok (dicts (to_list vs))
iterated (some (bool true)) = err (type_error "'bool' object is not iterable")
iterated (some (int n)) =
    if leb_ℤ n (pos 0) && leb_ℤ (pos 0) n
    then ok []
    else err (type_error "'int' object is not iterable")
iterated (some (float t)) =
    if leb_ℤ t (pos 0) && leb_ℤ (pos 0) t
    then ok []
    else err (type_error "'float' object is not iterable")
iterated _ = ok []

abbrev text_or_null : Option String → Value
text_or_null none = null
text_or_null (some s) = str s

-- The entries of a batch, numbered on from `before`.
abbrev pub new_entries :
    (before : ℕ) → List Fields → (run_id : Option String) (recorded_at : String) → List Fields
new_entries before [] run_id recorded_at = []
new_entries before (message ∷ rest) run_id recorded_at =
    field "position" (int (pos (before + 1))) (
      field "message" (obj message)
        (field "run_id" (text_or_null run_id) (field "recorded_at" (str recorded_at) end)))
    ∷ new_entries (suc before) rest run_id recorded_at

abbrev pub written : Fields → List Fields → Fields
written stored all = put "messages" (arr (of_list (map obj all))) stored

-- `append`, under the lock of `record`. The messages are converted after the write.
unfoldable pub append :
    (key : String)
    → List Fields
    → (run_id : Option String) (recorded_at : String) (w : World)
    → Result (List ThreadMessage) × World
append key batch run_id recorded_at w =
    elim (iterated (get "messages" (Store.get_or_empty key w))) [
      | err e ↦ (err e, w)
      | ok existing ↦ (
        to_messages (new_entries (length existing) batch run_id recorded_at),
        Store.put key
            (written (Store.get_or_empty key w)
              (existing ++ new_entries (length existing) batch run_id recorded_at))
            w,
      )
    ]

-- `record`
unfoldable pub record_messages :
    (key : String)
    → List Fields
    → (run_id : Option String) (recorded_at : String) (w : World)
    → Result (List ThreadMessage) × World
unfolding append
record_messages key [] run_id recorded_at w = (ok [], w)
record_messages key batch run_id recorded_at w =
    with_lock key (append key batch run_id recorded_at) w

-- `clear`
unfoldable pub clear : (key : String) (w : World) → Result (Unit {0}) × World
clear key w =
    with_lock key (λ u. (ok tt, Store.put key (written (Store.get_or_empty key u) []) u)) w
