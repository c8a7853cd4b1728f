-- ===== src/AddressIndex/Reading.antt =====
-- `page`: the committed entries from a cursor on, each page of digests read once.
use prism_harness_py.Prelude.{
  ℕ, zero, suc, ◌+◌, ◌-◌, ◌/◌, ◌%◌, min, String, ◌&&◌, not, Option, none, some, List, [], ◌∷◌, ◌==◌,
  leb, ltb, get_elem?, if◌then◌else◌,
}
use prism_harness_py.Value.{str, Fields, end, field, get, merge, is_number}
use prism_harness_py.Errors.{value_error, index_recovery_required}
use prism_harness_py.Result.{Result, ok, err}
use prism_harness_py.Store.{World}
use prism_harness_py.Store
use prism_harness_py.Python.{Python}
use prism_harness_py.AddressIndex.Head.{Head, head_of, head_key, entry_key, page_ids, page_size}

-- What `page` answers with.
pub record Page : Type 0 where
  pub entries : List Fields
  pub next_cursor : Option ℕ

module _ ⦃py : Python⦄ (root : String) (w : World) where
  -- `{"address_key": hash, **entry}`
  abbrev with_address_key : String → Fields → Fields
  with_address_key hash entry = merge (field "address_key" (str hash) end) entry

  abbrev checked : (position : ℕ) → String → Option Fields → Result Fields
  checked position hash none = err (value_error "Missing committed harness address index entry.")
  checked position hash (some entry) =
      if is_number (get "position" entry) position
      then ok (with_address_key hash entry)
      else err (value_error "Missing committed harness address index entry.")

  -- The entry of a position, from the digests of its page.
  abbrev pub entry_in : (position : ℕ) → List String → Result Fields
  entry_in position ids = elim (get_elem? ids (position % page_size)) [
    | none ↦ err (value_error "Missing committed harness address page member.")
    | some hash ↦ checked position hash (Store.get (entry_key root hash) w)
  ]

  -- The digests of a page, from the last page read where it is that page: `page_number` and `ids`.
  abbrev pub cached_ids : Option (ℕ × List String) → (number : ℕ) → Result (List String)
  cached_ids none number = page_ids root number w
  cached_ids (some (last, ids)) number = if last == number then ok ids else page_ids root number w

  -- The loop, with the positions that are left to read.
  unfoldable pub read_entries :
      (left position : ℕ) → Option (ℕ × List String) → Result (List Fields)
  read_entries zero position cache = ok []
  read_entries (suc left) position cache = elim (cached_ids cache (position / page_size)) [
    | err e ↦ err e
    | ok ids ↦
        let rest = read_entries left (position + 1) (some (position / page_size, ids)) in
        elim (entry_in position ids) [
          | err e ↦ err e
          | ok entry ↦ elim rest [ err e ↦ err e | ok entries ↦ ok (entry ∷ entries) ]
        ]
  ]

  abbrev page_of : Head → (cursor limit : ℕ) → Result Page
  page_of head cursor limit =
      elim (read_entries (min (cursor + limit) head.count - cursor) cursor none) [
        | err e ↦ err e
        | ok entries ↦ ok (record {
          entries = entries;
          next_cursor =
              if ltb (min (cursor + limit) head.count) head.count
              then some (min (cursor + limit) head.count)
              else none;
        })
      ]

  abbrev unless_pending : Head → (cursor limit : ℕ) → Result Page
  unless_pending head cursor limit = elim head.pending [
    | some _ ↦ err index_recovery_required
    | none ↦ page_of head cursor limit
  ]

  -- `page`, of a cursor and a limit that are ints and not negative
  unfoldable pub read_index : (cursor limit : ℕ) → Result Page
  unfolding read_entries
  read_index cursor limit =
      if not (leb 1 limit && leb limit 100)
      then err (value_error "Invalid address index page cursor or limit.")
      else elim (head_of (Store.get (head_key root) w)) [
        | err e ↦ err e
        | ok head ↦ unless_pending head cursor limit
      ]
