-- ===== src/Tasks/Adding.antt =====
-- What `add_many` appends: the batch whole, or nothing (Tasks/Source.antt).
use prism_harness_py.Prelude.{String, false, Option, List, ◌≡◌, ◌⊎◌, inl, inr, arith, Bool-cases}
use prism_harness_py.Value.{Fields}
use prism_harness_py.Errors.{Error, harness, value_error, HarnessError}
use prism_harness_py.Result.{ok, err, Result-cases}
use prism_harness_py.Store.{World}
use prism_harness_py.Python.{Python}
use prism_harness_py.Tasks.Record.{StoredTask}
use prism_harness_py.Tasks.Listing.{append_each, with_ids, count_differs}
use prism_harness_py.Tasks.Source.{Source, write_back, add_many}
use prism_harness_py.Tasks.Written.{held_in}

module _ ⦃py : Python⦄ (source : Source) (instructions : List String) (ids : Option (List String))
    (w : World) where
  pub record Appends : Type 0 where
    pub grown : List Fields
    pub added : List StoredTask
    pub paired : count_differs instructions ids ≡ false
    pub free : w.busy source.key ≡ false
    pub looped : append_each (held_in source w) (with_ids instructions ids) ≡ ok (grown, added)
    pub effect : add_many source instructions ids w ≡ (ok added, write_back source grown w)

  pub add_many-cases : Appends ⊎ ((e : Error) × (add_many source instructions ids w ≡ (err e, w)))
  unfolding add_many
  add_many-cases = elim (Bool-cases (count_differs instructions ids)) [
    | inl differs ↦
        inr (value_error "instruction(s) were given id(s) of another number.", ground arith)
    | inr paired ↦ elim (Bool-cases (w.busy source.key)) [
      | inl busy ↦ inr (harness (HarnessError.session_locked source.key), ground arith)
      | inr free ↦
          elim (Result-cases (append_each (held_in source w) (with_ids instructions ids))) [
            | inr (e, refused) ↦ inr (e, ground arith)
            | inl ((grown, added), looped) ↦ inl (record {
              grown = grown;
              added = added;
              paired = paired;
              free = free;
              looped = looped;
              effect = ground arith;
            })
          ]
    ]
  ]
