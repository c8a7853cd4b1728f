-- ===== src/Tasks/Extending.antt =====
-- Who may extend a lease, by how much, and what an extension writes (Tasks/Source.antt).
use prism_harness_py.Prelude.{
  ℕ, String, false, Option, some, ◌≡◌, arith, ◌⊎◌, inl, inr, Bool-cases, Option-cases,
}
use prism_harness_py.Value.{Value, int, Fields, get-put}
use prism_harness_py.Errors.{Error, harness, HarnessError, NotHeld}
use prism_harness_py.Result.{Result, ok, err, Result-cases}
use prism_harness_py.Store.{World}
use prism_harness_py.Python.{Python}
use prism_harness_py.Subagents.{RunLedger, RunBudget}
use prism_harness_py.Tasks.State.{claimed}
use prism_harness_py.Tasks.Record.{StoredTask, state_of, to_task, snapshot, timestamp}
use prism_harness_py.Tasks.Lease.{Seconds, require_identifier}
use prism_harness_py.Tasks.Listing.{find_first, update_first, has_id, check_held}
use prism_harness_py.Tasks.Source.{
  Source, current, hold_record, grant, lease_or, extend_lease, write_back,
}
use prism_harness_py.Tasks.Releasing.{IsHeldBy, check_held-ok, check_held_passes}

-- A new expiry changes neither the state nor the id of a record.
pub state_of-hold_record :
    (now granted : ℕ) (r : Fields) → state_of (hold_record now granted r) ≡ state_of r
unfolding state_of
state_of-hold_record now granted r =
    let v : Value = int (timestamp now granted) in
    ground (arith, get-put "claimed_until" "state" v r, get-put "claimed_until" "id" v r)

module _ (source : Source) (id worker : String) (ledger : RunLedger) (budget : RunBudget)
    (first second : ℕ) (seconds : Option Seconds) (w : World) where
  -- The conditions of an extension that goes through, and the seconds it grants.
  pub record Extends : Type 0 where
    pub lease : ℕ
    pub granted : ℕ
    pub named : require_identifier worker "worker" ≡ ok tt
    pub leased : lease_or source seconds ≡ ok lease
    pub grants : grant id lease ledger budget first second ≡ ok granted
    pub free : w.busy source.key ≡ false
    pub target : Fields
    pub found : find_first (has_id id) (current source w) ≡ some target
    pub held : IsHeldBy worker target

module _ ⦃py : Python⦄ (source : Source) (id worker : String) (ledger : RunLedger)
    (budget : RunBudget) (first second : ℕ) (seconds : Option Seconds) (w : World) where
  extended : Result StoredTask × World
  extended = extend_lease source id worker ledger budget first second seconds w

  pub extend_lease_lem :
      (x : Extends source id worker ledger budget first second seconds w)
      → extend_lease source id worker ledger budget first second seconds w ≡ (
        ok (snapshot claimed (hold_record w.clock x.granted x.target)),
        write_back source
            (update_first (has_id id) (hold_record w.clock x.granted) (current source w))
            w,
      )
  unfolding extend_lease to_task
  extend_lease_lem x =
      let e = check_held_passes id worker NotHeld.expired x.target x.held in
      let s = state_of-hold_record w.clock x.granted x.target in ground arith

  pub extend_lease-cases :
      (Extends source id worker ledger budget first second seconds w)
      ⊎ ((e : Error) × (extend_lease source id worker ledger budget first second seconds w
            ≡ (err e, w)))
  unfolding extend_lease
  extend_lease-cases = elim (Result-cases (require_identifier worker "worker")) [
    | inr (e, refused) ↦ inr (e, ground arith)
    | inl (u, named) ↦ elim (Result-cases (lease_or source seconds)) [
      | inr (e, refused) ↦ inr (e, ground arith)
      | inl (lease, leased) ↦ elim (Result-cases (grant id lease ledger budget first second)) [
        | inr (e, refused) ↦ inr (e, ground arith)
        | inl (granted, grants) ↦ elim (Bool-cases (w.busy source.key)) [
          | inl busy ↦ inr (harness (HarnessError.session_locked source.key), ground arith)
          | inr free ↦ elim (Option-cases (find_first (has_id id) (current source w))) [
            | inl nothing ↦ inr (harness (HarnessError.task_not_found id), ground arith)
            | inr (r, found) ↦ elim (Result-cases (check_held id worker NotHeld.expired r)) [
              | inr (e, refused) ↦ inr (e, ground arith)
              | inl (u', held) ↦ inl (record {
                lease = lease;
                granted = granted;
                named = named;
                leased = leased;
                grants = grants;
                free = free;
                target = r;
                found = found;
                held = check_held-ok id worker NotHeld.expired r held;
              })
            ]
          ]
        ]
      ]
    ]
  ]
