-- ===== src/Tasks/Record.antt =====
-- The stored record of a task, a dict, and the snapshot `StoredTask` that is read off it; the
-- expiry of lapsed claims (`_expire`), `_to_task`, `_state_of` and `task_record`.
use prism_harness_py.Prelude.{
  ℕ, ◌+◌, ◌*◌, ◌/◌, String, Bool, false, ◌&&◌, Option, none, some, List, map, any, if◌then◌else◌,
}
use prism_harness_py.Prelude.Int.{ℤ, pos, leb_ℤ, scale, truncate}
use prism_harness_py.Value.{
  Value, null, int, float, str, Fields, end, field, get, put, get_or, is_text, ticks_per_second,
}
use prism_harness_py.Errors.{harness, HarnessError}
use prism_harness_py.Result.{Result, ok, err, ◌>>=◌}
use prism_harness_py.Python.{Python, text}
use prism_harness_py.Tasks.State.{TaskState, value, state_of_text}

pub record StoredTask : Type 0 where
  pub id : String
  pub instruction : String
  pub state : TaskState
  pub claimed_by : Option String
  pub claimed_until : Option ℤ

-- `until <= now`, for a number that is no bool
abbrev pub passed : Option Value → (now : ℕ) → Bool
passed (some (int seconds)) now = leb_ℤ (scale ticks_per_second seconds) (pos now)
passed (some (float t)) now = leb_ℤ t (pos now)
passed _ now = false

-- A claim whose lease is over.
unfoldable pub lapsed : (now : ℕ) → Fields → Bool
lapsed now r = is_text (get "state" r) "claimed" && passed (get "claimed_until" r) now

-- The three assignments by which a record changes hands.
unfoldable pub mark : (state : String) (claimed_by claimed_until : Value) → Fields → Fields
mark s by until r = put "claimed_until" until (put "claimed_by" by (put "state" (str s) r))

unfoldable pub expire_record : (now : ℕ) → Fields → Fields
expire_record now r = if lapsed now r then mark "todo" null null r else r

-- `_expire` on the list, and whether it moved anything
unfoldable pub expire : (now : ℕ) → List Fields → List Fields
expire now = map (expire_record now)

unfoldable pub moved : (now : ℕ) → List Fields → Bool
moved now = any (lapsed now)

abbrev of_state_text : Option Value → Option TaskState
of_state_text (some (str s)) = state_of_text s
of_state_text _ = none

-- `_state_of`
unfoldable pub state_of : Fields → Result TaskState
state_of r = elim (of_state_text (get "state" r)) [
  | none ↦ err (harness (HarnessError.unmappable_content (get "id" r)))
  | some s ↦ ok s
]

abbrev pub text_or_none : Option Value → Option String
text_or_none (some (str s)) = some s
text_or_none _ = none

abbrev pub until_or_none : Option Value → Option ℤ
until_or_none (some (int n)) = some n
until_or_none (some (float t)) = some (truncate ticks_per_second t)
until_or_none _ = none

-- What a record says of its task, beside the state.
abbrev pub snapshot : ⦃py : Python⦄ → TaskState → Fields → StoredTask
snapshot s r = record {
  id = text (get_or "id" r (str ""));
  instruction = text (get_or "instruction" r (str ""));
  state = s;
  claimed_by = text_or_none (get "claimed_by" r);
  claimed_until = until_or_none (get "claimed_until" r);
}

-- `_to_task`
unfoldable pub to_task : ⦃py : Python⦄ → Fields → Result StoredTask
to_task r = do s ← state_of r; ok (snapshot s r)

-- `_timestamp(now + lease)`
abbrev pub timestamp : (now lease : ℕ) → ℤ
timestamp now lease = pos ((now + lease * ticks_per_second) / ticks_per_second)

-- The record that `add_many` appends.
abbrev pub new_record : (id instruction : String) → Fields
new_record id instruction = field "claimed_by" null (
    field "claimed_until" null (
      field "id" (str id) (field "instruction" (str instruction) (field "state" (str "todo") end))))

abbrev text_value : Option String → Value
text_value none = null
text_value (some s) = str s

abbrev int_value : Option ℤ → Value
int_value none = null
int_value (some n) = int n

-- `task_record`, the canonical dict of a record
unfoldable pub task_record : StoredTask → Fields
task_record t = field "claimed_by" (text_value t.claimed_by) (
    field "claimed_until" (int_value t.claimed_until) (
      field "id" (str t.id)
        (field "instruction" (str t.instruction) (field "state" (str (value t.state)) end))))
