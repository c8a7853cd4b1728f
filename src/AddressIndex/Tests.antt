-- ===== src/AddressIndex/Tests.antt =====
-- Runs of the index with one address, and each theorem at them.
use prism_harness_py.AddressIndex.Recovery.{recovery_completes, Recovers}
use prism_harness_py.AddressIndex.Journaling.{append-Puts, Puts}
use prism_harness_py.Prelude.Int.{pos}
use prism_harness_py.AddressIndex.Paging.{read_entries-eq-entries_at, entries_at}
use prism_harness_py.AddressIndex.Reading.{read_index, read_entries}
use prism_harness_py.AddressIndex.Head.{
  head_key, read_page, head_of, head_fields, settled_head, page_key, Head,
}
use prism_harness_py.AddressIndex.Append.{
  put_all, after_page, page_write, identity, journal, page_fields, entry_fields, plan, resource,
  Journal, append, recover_head,
}
use prism_harness_py.Result.{ok, Result}
use prism_harness_py.Store
use prism_harness_py.Value.{put, end, int, obj, str, field, Fields, Value}
use prism_harness_py.Address.{index_key, SessionAddress}
use prism_harness_py.Store.{World}
use prism_harness_py.Hashes.{Hashes, is_digest}
use prism_harness_py.Prelude.{refl, take, ◌∷◌, false, true, [], none, some, ◌≡◌, List, String}
use prism_harness_py.Python.{bytes, Python}

instance abbrev plain_python : Python
plain_python = record { show = λ v. "0"; json = λ v. ""; b64decode = λ s. bytes 1 }

-- A hash of the right form, which maps every text to one digest.
abbrev one_digest : String
one_digest = "aaaaaaaaaaaaaaaaaaaaaaaaaaaaaaaaaaaaaaaaaaaaaaaaaaaaaaaaaaaaaaaa"

instance abbrev one_hash : Hashes
one_hash = record {
  sha1 = λ s. one_digest;
  sha256 = λ s. one_digest;
  compact = λ l. "";
  escaped = λ l. "";
}

digest-valid : is_digest one_digest ≡ true
unfolding is_digest
digest-valid = refl

abbrev empty : World
empty = record { entries = []; clock = 0; busy = λ k. false }

abbrev address : SessionAddress
address = record {
  participant_type = some "user";
  participant_id = some "7";
  scope = "main";
  agent = none;
}

abbrev list_resource : Value
list_resource = resource "durable" "tasks" "list"

abbrev once : Result (Unit {0}) × World
once = append none "r" (settled_head 0 0) address list_resource empty

append_example : Puts none "r" (settled_head 0 0) address list_resource empty
unfolding append recover_head plan journal page_write is_digest index_key head_of read_page
append_example = append-Puts none "r" (settled_head 0 0) address list_resource empty refl refl

-- An append cut off behind the journal and the page.
abbrev entry : Fields
entry = entry_fields (identity address) (list_resource ∷ []) 0

abbrev pending : Fields
pending =
    field "hash" (str one_digest) (field "position" (int (pos 0)) (field "entry" (obj entry) end))

abbrev journaled : Head
journaled = record {
  raw = put "pending" (obj pending) (head_fields 0 0);
  count = 0;
  pending = some pending;
}

abbrev cut : World
cut = Store.put (head_key "r") journaled.raw empty

abbrev job : Journal
job = record { hash = one_digest; entry = entry }

abbrev writes : List (String × Fields)
writes = (page_key "r" 0, page_fields (one_digest ∷ [])) ∷ after_page "r" 0 job

recovery_example :
    Recovers "r" journaled pending cut (put_all (take 1 writes) cut) (put_all writes cut)
unfolding recover_head plan journal page_write is_digest head_of read_page
recovery_example = recovery_completes "r" journaled pending cut refl refl writes refl 1

paging_example : read_entries "r" once.1 1 0 none ≡ entries_at "r" once.1 1 0
paging_example = read_entries-eq-entries_at "r" once.1 1 0 none tt

-- The address is read back from the index.
page-once :
    read_index "r" once.1 0 100
    ≡ ok (record { entries = field "address_key" (str one_digest) entry ∷ []; next_cursor = none })
unfolding append recover_head plan journal page_write is_digest index_key head_of read_page
    read_index
page-once = refl
