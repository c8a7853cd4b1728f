-- ===== src/AddressIndex/Head.antt =====
-- The stored records of the index: a participant's head, and its pages of address digests.
use prism_harness_py.Prelude.{
  ℕ, ◌+◌, ◌/◌, String, ◌&&◌, Option, none, some, List, [], ◌∷◌, leb, length, if◌then◌else◌,
}
use prism_harness_py.Prelude.Int.{pos}
use Prim.Native.String.{◌++◌}
use prism_harness_py.Value.{
  Value, null, int, str, arr, obj, Fields, end, field, get, is_number, to_list,
}
use prism_harness_py.Errors.{value_error}
use prism_harness_py.Result.{Result, ok, err}
use prism_harness_py.Store.{World}
use prism_harness_py.Store
use prism_harness_py.Python.{Python}
use prism_harness_py.Hashes.{Hashes, is_digest}

abbrev pub page_size : ℕ
page_size = 100

-- `_root`
unfoldable pub root_of : ⦃hashes : Hashes⦄ → (type id : Option String) → String
root_of ⦃hashes⦄ type id =
    "harness-address-index:v1:" ++ hashes.sha256 (hashes.compact (type ∷ id ∷ []))

abbrev pub head_key : (root : String) → String
head_key root = root ++ ":head"

abbrev pub entry_key : (root hash : String) → String
entry_key root hash = root ++ (":entry:" ++ hash)

abbrev pub page_key : ⦃py : Python⦄ → (root : String) (number : ℕ) → String
page_key ⦃py⦄ root number = root ++ (":page:" ++ py.show (int (pos number)))

-- A head that `_head` accepted: the dict, its count and what it holds as pending.
pub record Head : Type 0 where
  pub raw : Fields
  pub count : ℕ
  pub pending : Option Fields

-- The head of `count` addresses with nothing pending.
abbrev pub head_fields : (count pages : ℕ) → Fields
head_fields count pages =
    field "version" (int (pos 1))
      (field "count" (int (pos count)) (field "pages" (int (pos pages)) (field "pending" null end)))

abbrev pub settled_head : (count pages : ℕ) → Head
settled_head count pages = record { raw = head_fields count pages; count = count; pending = none }

abbrev pub count_of : Option Value → Option ℕ
count_of (some (int (pos n))) = some n
count_of _ = none

-- Present, and null or a dict.
abbrev pub pending_of : Option Value → Option (Option Fields)
pending_of (some null) = some none
pending_of (some (obj d)) = some (some d)
pending_of _ = none

abbrev pub pages_for : (count : ℕ) → ℕ
pages_for count = (count + 99) / 100

abbrev pub checked_head : Fields → Option ℕ → Option (Option Fields) → Option Head
checked_head raw (some count) (some pending) =
    if is_number (get "version" raw) 1 && is_number (get "pages" raw) (pages_for count)
    then some (record { raw = raw; count = count; pending = pending })
    else none
checked_head raw _ _ = none

-- `_head`
unfoldable pub head_of : Option Fields → Result Head
head_of none = ok (settled_head 0 0)
head_of (some raw) =
    elim (checked_head raw (count_of (get "count" raw)) (pending_of (get "pending" raw))) [
      | none ↦ err (value_error "Invalid harness address index head.")
      | some head ↦ ok head
    ]

-- The list's texts, where every item is a digest.
abbrev pub digests : List Value → Option (List String)
digests [] = some []
digests (str s ∷ vs) =
    let rest = digests vs in
    if is_digest s then elim rest [ none ↦ none | some ids ↦ some (s ∷ ids) ] else none
digests _ = none

abbrev ids_of : Option Value → Option (List String)
ids_of (some (arr vs)) = if leb (length (to_list vs)) page_size then digests (to_list vs) else none
ids_of _ = none

unfoldable pub read_page : Option Fields → Result (List String)
read_page none = ok []
read_page (some page) = elim (ids_of (get "ids" page)) [
  | none ↦ err (value_error "Invalid harness address index page.")
  | some ids ↦
      if is_number (get "version" page) 1
      then ok ids
      else err (value_error "Invalid harness address index page.")
]

-- `_page_ids`
abbrev pub page_ids : ⦃py : Python⦄ → (root : String) (number : ℕ) → World → Result (List String)
page_ids root number w = read_page (Store.get (page_key root number) w)
