-- ===== src/Tasks/Written.antt =====
-- What a reader sees after a write, and the three shapes an operation's effect has.
use prism_harness_py.Prelude.{String, List, map, ◌≡◌, ◌≢◌, sym, ap, arith}
use prism_harness_py.Value.{
  Value, arr, obj, Fields, get, put, dicts, to_list, of_list, dicts-of_list,
}
use prism_harness_py.Value
use prism_harness_py.Store
use prism_harness_py.Store.{World}
use prism_harness_py.Tasks.Listing.{records_of}
use prism_harness_py.Tasks.Source.{Source, write_back, stored_in}

-- The records that the store holds, expired or not.
abbrev pub held_in : Source → World → List Fields
held_in source w = records_of (stored_in source w)

pub records_of-put :
    (records : List Fields) (stored : Fields)
    → records_of (put "tasks" (arr (of_list (map obj records))) stored) ≡ records
records_of-put records stored = rw (Value.get-put_self "tasks") (dicts-of_list records)

module _ (source : Source) (records : List Fields) (w : World) where
  pub stored_in-write_back :
      stored_in source (write_back source records w)
      ≡ put "tasks" (arr (of_list (map obj records))) (stored_in source w)
  stored_in-write_back = ground (
    arith,
    Store.get-put_self source.key
        (put "tasks" (arr (of_list (map obj records))) (stored_in source w)) w,
  )

  pub held_in-write_back : held_in source (write_back source records w) ≡ records
  held_in-write_back = rw stored_in-write_back (records_of-put records (stored_in source w))

  -- Every other key of the store is left alone.
  pub get-write_back :
      (key : String)
      → key ≢ source.key
      → Store.get key (write_back source records w) ≡ Store.get key w
  get-write_back key h = Store.get-put_ne source.key key _ w (λ e. h (sym e))

-- A write to another key leaves the list alone.
pub held_in-put :
    (source : Source) (key : String) (payload : Fields) (w : World)
    → key ≢ source.key
    → held_in source (Store.put key payload w) ≡ held_in source w
held_in-put source key payload w h =
    let same = Store.get-put_ne key source.key payload w h in
    let stored : stored_in source (Store.put key payload w) ≡ stored_in source w = ground arith in
    ap records_of stored
