-- ===== src/Session.antt =====
-- src/prism_harness/session.py: a session of one participant, over the worlds of its two stores.
-- The session is one without an address index, so its stores are the two stores themselves. A method
-- that changes it runs in `Exec`; timestamps are arguments.
use prism_harness_py.Prelude.{
  String, Bool, true, false, Option, none, some, List, [], ◌∷◌, map, if◌then◌else◌, str_eq,
}
use Prim.Native.String.{◌++◌}
use prism_harness_py.Value.{
  Value, null, bool, int, float, str, arr, obj, Fields, end, field, get, put, merge, of_list,
}
use prism_harness_py.Errors.{harness, value_error, HarnessError}
use prism_harness_py.Result.{ok, err}
use prism_harness_py.Exec.{Exec, pure, raise_if, modify, gets, lift, ◌>>=◌, ◌>>◌}
use prism_harness_py.Store.{World, Durability}
use prism_harness_py.Store
use prism_harness_py.Thread
use prism_harness_py.Tasks.Lease.{Seconds}
use prism_harness_py.Tasks.Source.{Source, open_source}
pub mod Keeping
pub mod View
mod Tests

-- `cached` is `_cached_state`. `resolution_only` and `resolved_mode` are set in the view that
-- `resolve_read_only` hands out.
pub record Session : Type 0 where
  pub key : String
  pub ephemeral : World
  pub durable : World
  pub cached : Option Fields
  pub resolution_only : Bool
  pub resolved_mode : Option String

abbrev pub ephemeral_key : Session → String
ephemeral_key s = s.key ++ ":ephemeral"

abbrev pub durable_key : Session → String
durable_key s = s.key ++ ":durable"

abbrev pub thread_key : Session → String
thread_key s = s.key ++ ":thread"

-- `_assert_writable`
abbrev pub assert_writable : Exec Session (Unit {0})
assert_writable s =
    raise_if s.resolution_only (value_error "Harness tool resolution is read-only.") s

abbrev pub state_of : Session → Fields
state_of s = elim s.cached [ some d ↦ d | none ↦ Store.get_or_empty (ephemeral_key s) s.ephemeral ]

-- `state`: what is read is kept for the session's next reads.
unfoldable pub state : Exec Session Fields
state s = (ok (state_of s), record s { cached = some (state_of s) })

abbrev pub text_of : Option Value → Option String
text_of (some (str t)) = some t
text_of _ = none

-- `_read_str`
abbrev pub read_str : String → Exec Session (Option String)
read_str key = do stored ← state; pure (text_of (get key stored))

-- `mode`
unfoldable pub mode : Exec Session (Option String)
unfolding state
mode s = elim s.resolved_mode [ some m ↦ (ok (some m), s) | none ↦ read_str "mode" s ]

-- `model`
unfoldable pub model : Exec Session (Option String)
unfolding state
model = read_str "model"

-- `provider`
unfoldable pub provider : Exec Session (Option String)
unfolding state
provider = read_str "provider"

abbrev pub stored_state : Fields → Session → Session
stored_state d s = record s {
  ephemeral = Store.put (ephemeral_key s) d s.ephemeral;
  cached = some d;
}

-- `_write`
abbrev pub write : String → Value → Exec Session (Unit {0})
write key v = do assert_writable; stored ← state; modify (stored_state (put key v stored))

-- `using_mode`
unfoldable pub using_mode : String → Exec Session (Unit {0})
unfolding state
using_mode m = write "mode" (str m)

-- `using_model`
unfoldable pub using_model : String → Exec Session (Unit {0})
unfolding state
using_model m = write "model" (str m)

-- `using_provider`
unfoldable pub using_provider : String → Exec Session (Unit {0})
unfolding state
using_provider p = write "provider" (str p)

-- `forget`
unfoldable pub forget : Exec Session (Unit {0})
forget =
    assert_writable
    >> modify
        (λ s. record s { ephemeral = Store.forget (ephemeral_key s) s.ephemeral; cached = none })

abbrev dict_of : Option Value → Fields
dict_of (some (obj d)) = d
dict_of _ = end

abbrev dict_or_none : Option Value → Option Fields
dict_or_none (some (obj d)) = some d
dict_or_none _ = none

abbrev pub capabilities : Session → Fields
capabilities s = dict_of (get "capabilities" (Store.get_or_empty (durable_key s) s.durable))

-- `capability`
unfoldable pub capability : String → Session → Option Fields
capability name s = dict_or_none (get name (capabilities s))

-- `_write_capabilities`
abbrev pub write_capabilities : (Fields → Fields) → Exec Session (Unit {0})
write_capabilities mutate =
    assert_writable
    >> modify (λ s. record s {
      durable =
          Store.put (durable_key s)
            (put "capabilities" (obj (mutate (capabilities s)))
              (Store.get_or_empty (durable_key s) s.durable))
            s.durable;
    })

-- `using_capability`
unfoldable pub using_capability : String → Fields → Exec Session (Unit {0})
using_capability name d = write_capabilities (put name (obj d))

abbrev pub without : String → Fields → Fields
without key end = end
without key (field k v d) =
    let rest = without key d in if str_eq k key then rest else field k v rest

-- `forget_capability`
unfoldable pub forget_capability : String → Exec Session (Unit {0})
forget_capability name = write_capabilities (without name)

abbrev pub has_id : Fields → Bool
has_id d = elim (text_of (get "id" d)) [ none ↦ false | some _ ↦ true ]

abbrev pub run_in : Option Value → Option Fields
run_in (some (obj d)) = if has_id d then some d else none
run_in _ = none

-- `run`
unfoldable pub run : Exec Session (Option Fields)
unfolding state
run = do stored ← state; pure (run_in (get "run" stored))

abbrev pub begun : (run_id mode provider model started_at : String) → Fields
begun run_id mode provider model started_at = field "id" (str run_id) (
    field "status" (str "running") (
      field "mode" (str mode) (
        field "provider" (str provider)
          (field "model" (str model) (field "started_at" (str started_at) end)))))

-- `begin_run`
unfoldable pub begin_run :
    (run_id mode provider model started_at : String) → Exec Session (Unit {0})
unfolding state
begin_run run_id mode provider model started_at =
    write "run" (obj (begun run_id mode provider model started_at))

abbrev pub ended : Fields → (run_id status finished_at : String) → Fields → Fields
ended current run_id status finished_at extra =
    merge
      (put "finished_at" (str finished_at)
        (put "status" (str status) (put "id" (str run_id) current)))
      extra

abbrev pub is_run : String → Fields → Bool
is_run run_id d = elim (text_of (get "id" d)) [ none ↦ false | some id ↦ str_eq id run_id ]

abbrev pub finish_from :
    (run_id status : String)
    → Fields
    → (finished_at : String) (current : Option Fields) → Exec Session (Unit {0})
finish_from run_id status extra finished_at none =
    write "run" (obj (ended (field "id" (str run_id) end) run_id status finished_at extra))
finish_from run_id status extra finished_at (some d) =
    if is_run run_id d then write "run" (obj (ended d run_id status finished_at extra)) else pure tt

-- `_finish_run`: a run that is not the one in flight does not overwrite it.
abbrev pub finish_run :
    (run_id status : String) → Fields → (finished_at : String) → Exec Session (Unit {0})
finish_run run_id status extra finished_at = do
  current ← run
  finish_from run_id status extra finished_at current

abbrev pub completion : (finish_reason : String) (tool_calls : List String) → Fields
completion finish_reason tool_calls =
    field "finish_reason" (str finish_reason)
      (field "tool_calls" (arr (of_list (map str tool_calls))) end)

-- `complete_run`
unfoldable pub complete_run :
    (run_id finish_reason : String) (tool_calls : List String) (finished_at : String)
    → Exec Session (Unit {0})
unfolding run state
complete_run run_id finish_reason tool_calls =
    finish_run run_id "completed" (completion finish_reason tool_calls)

abbrev pub failed : (failure : String) → Fields
failed failure = field "failure" (str failure) end

-- `fail_run`
unfoldable pub fail_run : (run_id failure finished_at : String) → Exec Session (Unit {0})
unfolding run state
fail_run run_id failure = finish_run run_id "failed" (failed failure)

-- `thread`, of which this is the key
unfoldable pub thread : Exec Session String
thread = do assert_writable; gets thread_key

-- `find_thread`
unfoldable pub find_thread : Exec Session (Option String)
find_thread = do key ← thread; gets (λ s. if Thread.exists key s.durable then some key else none)

abbrev pub tasks_key : Session → String
tasks_key s = s.key ++ ":tasks"

-- `tasks`, over a durable store of which `durability` is what it says of itself
unfoldable pub tasks : Durability → (lease : Seconds) → Exec Session Source
tasks durability lease = do
  assert_writable
  key ← gets tasks_key
  lift (open_source durability key lease)

-- What was cached before the lock was had is read again.
abbrev pub locked : {A : Type 0} → Exec Session A → Exec Session A
locked callback s =
    if s.ephemeral.busy s.key
    then (err (harness (HarnessError.session_locked s.key)), s)
    else callback (record s { cached = none })

-- `lock`
unfoldable pub lock : {A : Type 0} → Exec Session A → Exec Session A
lock callback = do assert_writable; locked callback

-- `resolve_read_only`: the callback is given a copy. What it does to the stores stays done.
unfoldable pub resolve_read_only : {A : Type 0} (mode : String) → Exec Session A → Exec Session A
resolve_read_only mode resolve s =
    let (r, view) =
      resolve (record s { cached = none; resolution_only = true; resolved_mode = some mode }) in
    (r, record s { ephemeral = view.ephemeral; durable = view.durable })
