-- ===== src/Store/Memory.antt =====
-- src/prism_harness/stores/memory.py: `MemorySessionStore`. A payload is a value that nobody changes, so
-- the copies that the source makes are the payload itself. A time is a reading of `time.monotonic()`, in
-- ticks, which the caller hands in.
use prism_harness_py.Prelude.{
  String, Bool, true, false, Option, none, some, List, [], if◌then◌else◌,
}
use prism_harness_py.Prelude.Assoc.{lookup, insert, remove}
use prism_harness_py.Prelude.Int.{ℤ, leb_ℤ, ◌+ℤ◌}
use prism_harness_py.Value.{Fields}
use prism_harness_py.Errors.{harness, HarnessError}
use prism_harness_py.Result.{Result, err}
use prism_harness_py.Exec.{Exec}
use prism_harness_py.Store.{Durability}

-- `_Entry`
pub record Entry : Type 0 where
  pub payload : Fields
  pub expires_at : Option ℤ

-- `locks` has, for each key that was ever locked, whether its lock is held.
pub record MemorySessionStore : Type 0 where
  pub entries : List (String × Entry)
  pub locks : List (String × Bool)

abbrev pub new_store : MemorySessionStore
new_store = record { entries = []; locks = [] }

-- `durability`
abbrev pub durability : MemorySessionStore → Durability
durability s = Durability.volatile

-- `entry.expires_at is not None and entry.expires_at <= time.monotonic()`
abbrev pub is_expired : Option ℤ → (now : ℤ) → Bool
is_expired none now = false
is_expired (some at) now = leb_ℤ at now

abbrev pub get_entry :
    (key : String) (now : ℤ)
    → Option Entry
    → MemorySessionStore
    → Option Fields × MemorySessionStore
get_entry key now none s = (none, s)
get_entry key now (some entry) s =
    if is_expired entry.expires_at now
    then (none, record s { entries = remove key s.entries })
    else (some entry.payload, s)

-- `get`
unfoldable pub get :
    (key : String) (now : ℤ) → MemorySessionStore → Option Fields × MemorySessionStore
get key now s = get_entry key now (lookup key s.entries) s

abbrev pub deadline : (ttl_seconds : Option ℤ) (now : ℤ) → Option ℤ
deadline none now = none
deadline (some ttl) now = some (now +ℤ ttl)

-- `put`
unfoldable pub put :
    (key : String)
    → Fields
    → (ttl_seconds : Option ℤ) (now : ℤ) → MemorySessionStore
    → MemorySessionStore
put key payload ttl_seconds now s = record s {
  entries =
      insert key (record { payload = payload; expires_at = deadline ttl_seconds now }) s.entries;
}

-- `forget`
unfoldable pub forget : (key : String) → MemorySessionStore → MemorySessionStore
forget key s = record s { entries = remove key s.entries }

abbrev pub is_held : Option Bool → Bool
is_held none = false
is_held (some held) = held

abbrev pub set_lock : (key : String) → Bool → MemorySessionStore → MemorySessionStore
set_lock key held s = record s { locks = insert key held s.locks }

abbrev pub released :
    {A : Type 0} → (key : String) → Result A × MemorySessionStore → Result A × MemorySessionStore
released key (r, s) = (r, set_lock key false s)

-- `with_lock`: a lock that is held is held for longer than the caller waits. The lock is released
-- whether the callback returns or raises.
unfoldable pub with_lock :
    {A : Type 0} → (key : String) → Exec MemorySessionStore A → Exec MemorySessionStore A
with_lock key callback s =
    if is_held (lookup key s.locks)
    then (err (harness (HarnessError.session_locked key)), s)
    else released key (callback (set_lock key true s))
