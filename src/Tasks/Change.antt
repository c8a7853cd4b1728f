-- ===== src/Tasks/Change.antt =====
-- How one action changes one task's record: the state machine of the source, read off the code.
use prism_harness_py.Prelude.{
  ℕ, String, true, Option, some, List, [], ◌∷◌, ◌++◌, ◌≡◌, inl, inr, ap, ◌∙◌, arith,
}
use mathlib.Core.List.{append-nil, append_assoc}
use prism_harness_py.Value.{Value, Fields, get, is_text, get-put}
use prism_harness_py.Store.{World}
use prism_harness_py.Result.{ok, Result-cases}
use prism_harness_py.Python.{Python}
use prism_harness_py.Tasks.State.{TaskOutcome}
use prism_harness_py.Tasks.Record.{StoredTask, expire_record, mark, new_record}
use prism_harness_py.Tasks.Listing.{find_first, has_id, is_todo, append_each, chosen_id}
use prism_harness_py.Tasks.Source.{Source, claim_record, settle_record, hold_record}
use prism_harness_py.Tasks.Expiry.{id-expire_record, id-mark}
use prism_harness_py.Tasks.Written.{held_in}
use prism_harness_py.Tasks.Releasing.{IsHeldBy}

-- What one action, by a worker or by none, may make of a record `r`.
pub data Change (by : Option String) (now : ℕ) (r r' : Fields) : Type 0 where
  kept : r' ≡ r → Change by now r r'
  expired : r' ≡ expire_record now r → Change by now r r'
  claimed :
      (worker : String) (lease : ℕ)
      → by ≡ some worker
      → is_todo (expire_record now r) ≡ true
      → r' ≡ claim_record worker now lease (expire_record now r)
      → Change by now r r'
  settled :
      (worker : String) (outcome : TaskOutcome)
      → by ≡ some worker
      → IsHeldBy worker (expire_record now r)
      → r' ≡ settle_record outcome (expire_record now r)
      → Change by now r r'
  extended :
      (worker : String) (granted : ℕ)
      → by ≡ some worker
      → IsHeldBy worker (expire_record now r)
      → r' ≡ hold_record now granted (expire_record now r)
      → Change by now r r'

-- The operations keep every record's id.
module _ (id : String) (r : Fields) where
  pub has_id-expire_record : (now : ℕ) → has_id id (expire_record now r) ≡ has_id id r
  has_id-expire_record now = ap (λ v. is_text v id) (id-expire_record now r)

  pub has_id-mark : (s : String) (by until : Value) → has_id id (mark s by until r) ≡ has_id id r
  has_id-mark s by until = ap (λ v. is_text v id) (id-mark s by until r)

  pub has_id-hold_record : (now granted : ℕ) → has_id id (hold_record now granted r) ≡ has_id id r
  has_id-hold_record now granted = ap (λ v. is_text v id) (get-hold r)
    where
      get-hold : (x : Fields) → get "id" (hold_record now granted x) ≡ get "id" x
      get-hold x = simp get-put

-- Where the record with an id stands after an action, and what has become of it.
pub record Becomes (source : Source) (id : String) (by : Option String) (now : ℕ) (r : Fields)
    (w' : World) : Type 0 where
  pub result : Fields
  pub found : find_first (has_id id) (held_in source w') ≡ some result
  pub change : Change by now r result

module _ ⦃py : Python⦄ where
  pub append_each-grows :
      (records : List Fields) (items : List (String × Option String)) (grown : List Fields)
      (added : List StoredTask)
      → append_each records items ≡ ok (grown, added)
      → (extra : List Fields) × (grown ≡ records ++ extra)
  unfolding append_each
  append_each-grows records [] grown added h = ([], ground (arith, append-nil records))
  append_each-grows records ((instruction, given) ∷ rest) grown added h =
      let new : Fields = new_record (chosen_id records given) instruction in
      elim (Result-cases (append_each (records ++ (new ∷ [])) rest)) [
        | inr (e, refused) ↦ ground arith
        | inl ((g, a), more) ↦
            let (extra, ends) = append_each-grows (records ++ (new ∷ [])) rest g a more in
            let same : grown ≡ g = ground arith in
            (new ∷ extra, same ∙ (ends ∙ append_assoc records (new ∷ []) extra))
      ]
