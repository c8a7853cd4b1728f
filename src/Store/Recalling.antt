-- ===== src/Store/Recalling.antt =====
-- What the store in memory answers, against the history of its calls.
use prism_harness_py.Prelude.{
  String, Bool, true, false, Option, none, some, List, [], ◌∷◌, ◌≡◌, inl, inr, refl, ◌∙◌, ap, arith,
  eq_iff, str_eq, Bool-cases, Option-cases, if◌then◌else◌,
}
use prism_harness_py.Prelude.Assoc.{lookup, lookup-insert, lookup-remove}
use prism_harness_py.Prelude.Int.{ℤ, ◌≤ℤ◌}
use prism_harness_py.Value.{Fields}
use prism_harness_py.Store.Memory.{
  Entry, MemorySessionStore, new_store, is_expired, get_entry, deadline,
}
use prism_harness_py.Store.Memory

pub data Call : Type 0 where
  get : (key : String) → Call
  put : (key : String) → Fields → (ttl_seconds : Option ℤ) → Call
  forget : (key : String) → Call

-- The store after one call at a time, and after a history with the newest call first.
abbrev after_call : ℤ → Call → MemorySessionStore → MemorySessionStore
after_call now (get key) s = (Memory.get key now s).1
after_call now (put key payload ttl_seconds) s = Memory.put key payload ttl_seconds now s
after_call now (forget key) s = Memory.forget key s

abbrev pub after : List (ℤ × Call) → MemorySessionStore
after [] = new_store
after ((now, call) ∷ history) = after_call now call (after history)

-- The clock of the calls does not run backwards, and has not passed `now`.
abbrev pub IsUpTo : ℤ → List (ℤ × Call) → Type 0
IsUpTo now [] = Unit
IsUpTo now ((time, call) ∷ history) = (time ≤ℤ now) × IsUpTo time history

-- The payload that was put last under the key and not forgotten since, with the time it expires at.
abbrev pub latest : (key : String) → List (ℤ × Call) → Option Entry
latest key [] = none
latest key ((time, get k) ∷ history) = latest key history
latest key ((time, put k payload ttl_seconds) ∷ history) =
    let rest = latest key history in
    if str_eq k key
    then some (record { payload = payload; expires_at = deadline ttl_seconds time })
    else rest
latest key ((time, forget k) ∷ history) =
    let rest = latest key history in if str_eq k key then none else rest

-- What of it there is at a time.
abbrev pub fresh : ℤ → Option Entry → Option Fields
fresh now none = none
fresh now (some entry) = if is_expired entry.expires_at now then none else some entry.payload

get-fresh :
    (key : String) (now : ℤ) (s : MemorySessionStore)
    → (Memory.get key now s).0 ≡ fresh now (lookup key s.entries)
unfolding Memory.get
get-fresh key now s = elim (Option-cases (lookup key s.entries)) [
  | inl no_entry ↦ rw no_entry refl
  | inr (entry, is) ↦ rw is (ground arith)
]

expired_later :
    (at : Option ℤ) (time now : ℤ)
    → time ≤ℤ now
    → is_expired at time ≡ true
    → is_expired at now ≡ true
expired_later none time now le h = cc
expired_later (some at) time now le h = ground arith

le_trans : (a b c : ℤ) → a ≤ℤ b → b ≤ℤ c → a ≤ℤ c
le_trans a b c h k = omega arith

-- An entry that is over is not missed.
removed-fresh :
    (k key : String) (now : ℤ) (entry : Entry) (entries : List (String × Entry))
    → lookup k entries ≡ some entry
    → is_expired entry.expires_at now ≡ true
    → fresh now (if str_eq k key then none else lookup key entries) ≡ fresh now (lookup key entries)
removed-fresh k key now entry entries is over = elim (Bool-cases (str_eq k key)) [
  | inr other ↦ rw other refl
  | inl same ↦
      let its : k ≡ key = ground (arith, eq_iff k key) in
      let there : lookup key entries ≡ some entry = rw its at is in
      rw (same, there, fresh) (rw over refl)
]

-- A read leaves everything that is still there then or later.
get-keeps :
    (k key : String) (time now : ℤ) (s : MemorySessionStore)
    → time ≤ℤ now
    → fresh now (lookup key (Memory.get k time s).1.entries) ≡ fresh now (lookup key s.entries)
unfolding Memory.get
get-keeps k key time now s le = elim (Option-cases (lookup k s.entries)) [
  | inl no_entry ↦ rw no_entry refl
  | inr (entry, is) ↦ elim (Bool-cases (is_expired entry.expires_at time)) [
    | inr live ↦ rw (is, live, get_entry) refl
    | inl over ↦
        rw (is, over, get_entry)
          (ap (fresh now) (lookup-remove k key s.entries)
            ∙ removed-fresh k key now entry s.entries is
                (expired_later entry.expires_at time now le over))
  ]
]

IsUpTo-mono :
    (time now : ℤ) (history : List (ℤ × Call))
    → time ≤ℤ now
    → IsUpTo time history
    → IsUpTo now history
IsUpTo-mono time now [] le h = tt
IsUpTo-mono time now ((first, call) ∷ history) le h = (le_trans first time now h.0 le, h.1)

fresh-if :
    (b : Bool) (now : ℤ) (o x y : Option Entry)
    → fresh now x ≡ fresh now y
    → fresh now (if b then o else x) ≡ fresh now (if b then o else y)
fresh-if true now o x y h = refl
fresh-if false now o x y h = h

after-fresh :
    (key : String) (now : ℤ) (history : List (ℤ × Call))
    → IsUpTo now history
    → fresh now (lookup key (after history).entries) ≡ fresh now (latest key history)
unfolding Memory.put Memory.forget
after-fresh key now [] h = refl
after-fresh key now ((time, get k) ∷ history) h =
    get-keeps k key time now (after history) h.0
    ∙ after-fresh key now history (IsUpTo-mono time now history h.0 h.1)
after-fresh key now ((time, put k payload ttl) ∷ history) h =
    let entry : Entry = record { payload = payload; expires_at = deadline ttl time } in
    let s = after history in
    ap (fresh now) (lookup-insert k key entry s.entries)
    ∙ fresh-if (str_eq k key) now (some entry) (lookup key s.entries) (latest key history)
        (after-fresh key now history (IsUpTo-mono time now history h.0 h.1))
after-fresh key now ((time, forget k) ∷ history) h =
    let s = after history in
    ap (fresh now) (lookup-remove k key s.entries)
    ∙ fresh-if (str_eq k key) now none (lookup key s.entries) (latest key history)
        (after-fresh key now history (IsUpTo-mono time now history h.0 h.1))

-- After any calls, in the order of a clock that never runs backwards, a read answers what was put last
-- under the key and not forgotten since, until its time to live is over: what reads drop on the way
-- is never missed.
pub get-eq-latest :
    (key : String) (now : ℤ) (history : List (ℤ × Call))
    → IsUpTo now history
    → (Memory.get key now (after history)).0 ≡ fresh now (latest key history)
get-eq-latest key now history h = get-fresh key now (after history) ∙ after-fresh key now history h
