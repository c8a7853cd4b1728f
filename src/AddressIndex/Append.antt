-- ===== src/AddressIndex/Append.antt =====
-- What writes the index: the journaled append, its recovery, and `record`.
use prism_harness_py.Prelude.{
  ℕ, ◌+◌, ◌/◌, ◌%◌, String, Bool, false, ◌&&◌, ◌||◌, not, Option, none, some, List, [], ◌∷◌, map,
  ◌==◌, leb, ltb, any, length, get_elem?, if◌then◌else◌, str_eq, ◌++◌,
}
use prism_harness_py.Prelude.Int.{pos}
use prism_harness_py.Value.{
  Value, null, int, str, arr, obj, Fields, end, field, get, put, is_number, same, to_list, of_list,
}
use prism_harness_py.Errors.{value_error, address_limit_exceeded}
use prism_harness_py.Result.{Result, ok, err}
use prism_harness_py.Exec.{Exec, pure, raise, raise_if, ◌>>=◌, ◌>>◌}
use prism_harness_py.Store.{World, with_lock}
use prism_harness_py.Store
use prism_harness_py.Python.{Python}
use prism_harness_py.Hashes.{Hashes, is_digest}
use prism_harness_py.Address.{SessionAddress, index_key}
use prism_harness_py.AddressIndex.Head.{
  Head, head_of, head_key, entry_key, page_key, page_ids, root_of, settled_head, head_fields,
  page_size,
}

-- A pending append that its checks accept.
pub record Journal : Type 0 where
  pub hash : String
  pub entry : Fields

abbrev checked_journal : (count : ℕ) → Fields → Option Value → Option Value → Option Journal
checked_journal count pending (some (str hash)) (some (obj entry)) =
    if is_digest hash
      && is_number (get "position" pending) count
      && is_number (get "position" entry) count
    then some (record { hash = hash; entry = entry })
    else none
checked_journal count pending _ _ = none

unfoldable pub journal : (count : ℕ) → Fields → Result Journal
journal count pending =
    elim (checked_journal count pending (get "hash" pending) (get "entry" pending)) [
      | none ↦ err (value_error "Invalid harness address append journal.")
      | some j ↦ ok j
    ]

abbrev is_elem : Option String → String → Bool
is_elem none s = false
is_elem (some t) s = str_eq t s

abbrev pub page_fields : List String → Fields
page_fields ids = field "version" (int (pos 1)) (field "ids" (arr (of_list (map str ids))) end)

-- What the recovery writes to the page that it read as `ids`: the digest at its place, if it is not
-- there yet.
unfoldable pub page_write :
    ⦃py : Python⦄
    → (root : String) (count : ℕ) → Journal
    → (ids : List String) → Result (List (String × Fields))
page_write root count j ids =
    if length ids == count % 100
    then ok ((page_key root (count / 100), page_fields (ids ++ (j.hash ∷ []))) ∷ [])
    else if length ids == count % 100 + 1 && is_elem (get_elem? ids (count % 100)) j.hash
    then ok []
    else err (value_error "Conflicting harness address append journal.")

abbrev pub after_page : (root : String) (count : ℕ) → Journal → List (String × Fields)
after_page root count j =
    (entry_key root j.hash, j.entry)
    ∷ ((head_key root, head_fields (count + 1) (count / 100 + 1)) ∷ [])

abbrev write_plan :
    ⦃py : Python⦄
    → (root : String) (count : ℕ) → Journal
    → Result (List String)
    → Result (List (String × Fields))
write_plan root count j (err e) = err e
write_plan root count j (ok ids) = elim (page_write root count j ids) [
  | err e ↦ err e
  | ok pages ↦ ok (pages ++ after_page root count j)
]

-- The puts of `_recover`, in order, on a head with a pending append. All it reads is read before.
unfoldable pub plan :
    ⦃py : Python⦄ → (root : String) (count : ℕ) → Fields → World → Result (List (String × Fields))
plan root count pending w = elim (journal count pending) [
  | err e ↦ err e
  | ok j ↦ write_plan root count j (page_ids root (count / 100) w)
]

abbrev pub put_all : List (String × Fields) → World → World
put_all [] w = w
put_all ((key, payload) ∷ rest) w = put_all rest (Store.put key payload w)

-- `_recover`
unfoldable pub recover_head : ⦃py : Python⦄ → (root : String) → Head → Exec World Head
recover_head root head w = elim head.pending [
  | none ↦ (ok head, w)
  | some pending ↦ elim (plan root head.count pending w) [
    | err e ↦ (err e, w)
    | ok writes ↦ (ok (settled_head (head.count + 1) (head.count / 100 + 1)), put_all writes w)
  ]
]

-- `self._recover(root, self._head(self._store.get(f"{root}:head")))`
unfoldable pub recover_root : ⦃py : Python⦄ → (root : String) → Exec World Head
recover_root root w = elim (head_of (Store.get (head_key root) w)) [
  | err e ↦ (err e, w)
  | ok head ↦ recover_head root head w
]

-- `recover`
unfoldable pub recover :
    ⦃py : Python⦄ ⦃hashes : Hashes⦄ → (type id : Option String) → Exec World Head
recover type id = with_lock (root_of type id) (recover_root (root_of type id))

abbrev text_or_null : Option String → Value
text_or_null none = null
text_or_null (some s) = str s

abbrev pub identity : SessionAddress → Fields
identity a = field "agent" (text_or_null a.agent) (
    field "participant_type" (text_or_null a.participant_type)
      (field "participant_id" (text_or_null a.participant_id) (field "scope" (str a.scope) end)))

abbrev pub resource : (slot kind key : String) → Value
resource slot kind key =
    obj (field "slot" (str slot) (field "kind" (str kind) (field "key" (str key) end)))

-- The position of an entry and the resources it lists, where it belongs to the address.
abbrev checked_entry :
    (count : ℕ) → Value → Fields → Option Value → Option Value → Option (ℕ × List Value)
checked_entry count owner entry (some (int (pos position))) (some (arr resources)) =
    if ltb position count && elim (get "address" entry) [ none ↦ false | some v ↦ same v owner ]
    then some (position, to_list resources)
    else none
checked_entry count owner entry _ _ = none

abbrev pub entry_fields : Fields → List Value → (position : ℕ) → Fields
entry_fields owner resources position =
    field "address" (obj owner)
      (field "resources" (arr (of_list resources)) (field "position" (int (pos position)) end))

abbrev pub is_over : Option ℕ → (count : ℕ) → Bool
is_over none count = false
is_over (some limit) count = leb limit count

module _ ⦃py : Python⦄ ⦃hashes : Hashes⦄ where
  -- The branch of `write` for an address with no entry: the journal first, then its recovery.
  unfoldable pub append :
      (limit : Option ℕ) (root : String)
      → Head
      → (a : SessionAddress) → Value
      → Exec World (Unit {0})
  append limit root head a added = do
    raise_if (is_over limit head.count) address_limit_exceeded
    let entry = entry_fields (identity a) (added ∷ []) head.count
    let pending =
        field "hash" (str (index_key a))
          (field "position" (int (pos head.count)) (field "entry" (obj entry) end))
    let prepared = put "pending" (obj pending) head.raw
    (λ w. (ok tt, Store.put (head_key root) prepared w))
    recover_head root (record { raw = prepared; count = head.count; pending = some pending })
    pure tt

  -- The entry with the new resource, where it is new.
  abbrev add_resource :
      (root : String) → SessionAddress → Value → List Value → (position : ℕ) → Exec World (Unit {0})
  add_resource root a added resources position w = (
    ok tt,
    if any (same added) resources
        then w
        else Store.put (entry_key root (index_key a))
            (entry_fields (identity a) (resources ++ (added ∷ [])) position) w,
  )

  -- The branch for an address that is listed: the new resource is added to its entry.
  unfoldable pub extend :
      (root : String) → Head → (a : SessionAddress) → Value → Fields → Exec World (Unit {0})
  extend root head a added entry =
      elim (checked_entry head.count (obj (identity a)) entry (get "position" entry)
        (get "resources" entry)) [
          | none ↦ raise (value_error "Invalid harness address index entry.")
          | some (position, resources) ↦ do
            ids ← (λ w. (page_ids root (position / page_size) w, w))
            raise_if (not (is_elem (get_elem? ids (position % page_size)) (index_key a)))
                (value_error "Unlinked harness address index entry.")
            add_resource root a added resources position
        ]

  -- `write`, under the lock of `record`
  unfoldable pub write :
      (limit : Option ℕ) (root : String) → (a : SessionAddress) → Value → Exec World (Unit {0})
  write limit root a added = do
    head ← recover_root root
    existing ← (λ w. (ok (Store.get (entry_key root (index_key a)) w), w))
    elim existing [
      | none ↦ append limit root head a added
      | some entry ↦ extend root head a added entry
    ]

  abbrev is_slot : String → Bool
  is_slot s = str_eq s "ephemeral" || str_eq s "durable"

  abbrev is_kind : String → Bool
  is_kind s = str_eq s "state" || str_eq s "lock" || str_eq s "tasks" || str_eq s "thread"

  -- `record`
  unfoldable pub record_resource :
      (limit : Option ℕ) → SessionAddress → (slot kind key : String) → Exec World (Unit {0})
  record_resource limit a slot kind key = do
    raise_if (not (is_slot slot && is_kind kind))
        (value_error "Unknown harness resource slot or kind.")
    with_lock (root_of a.participant_type a.participant_id)
        (write limit (root_of a.participant_type a.participant_id) a (resource slot kind key))
