-- ===== src/Tasks/Allowance.antt =====
-- A lease is extended within the run's allowance, and what a lease or an outcome may be.
use prism_harness_py.Prelude.{
  ℕ, ◌*◌, ◌≤◌, String, false, Option, none, some, ◌≡◌, ap, arith, inl, inr, Option-cases,
}
use prism_harness_py.Prelude.Int.{
  ℤ, pos, negsuc, pos_part, scale, truncate, max_ℤ, leb_ℤ, ◌+ℤ◌, ◌-ℤ◌, ◌≤ℤ◌, int_laws,
}
use prism_harness_py.Value.{int, Fields, ticks_per_second, get-put_self}
use prism_harness_py.Result.{ok, ok_unique}
use prism_harness_py.Store.{World}
use prism_harness_py.Python.{Python}
use prism_harness_py.Subagents.{RunLedger, RunBudget, exhaustion, remaining_seconds, elapsed}
use prism_harness_py.Tasks.State.{claimed}
use prism_harness_py.Tasks.Record.{StoredTask, snapshot, timestamp}
use prism_harness_py.Tasks.Lease.{Seconds}
use prism_harness_py.Tasks.Source.{Source, grant, extend_lease, lease_or, hold_record}
use prism_harness_py.Tasks.Extending.{extend_lease_lem, extend_lease-cases}

-- Whole seconds of a remainder fit the remainder.
left_bound :
    (d : ℤ) (g : ℕ)
    → leb_ℤ (max_ℤ (pos 0) (truncate ticks_per_second d)) (pos 0) ≡ false
    → g ≤ pos_part (max_ℤ (pos 0) (truncate ticks_per_second d))
    → pos (g * ticks_per_second) ≤ℤ d
left_bound (pos n) g some_left h = ground arith
left_bound (negsuc n) g some_left h = ground arith

module _ (id : String) (lease : ℕ) (ledger : RunLedger) (budget : RunBudget) (first second g : ℕ)
    (granted : grant id lease ledger budget first second ≡ ok g) where
  may_spend : exhaustion ledger budget first ≡ none
  unfolding grant
  may_spend = elim (Option-cases (exhaustion ledger budget first)) [
    | inr (reason, spent) ↦ ground arith
    | inl may ↦ may
  ]

  within_left :
      (left : ℤ)
      → remaining_seconds ledger budget second ≡ some left
      → (leb_ℤ left (pos 0) ≡ false) × (g ≤ pos_part left) × (g ≤ lease)
  unfolding grant
  within_left left h = let may = may_spend in ground arith

  within_lease : g ≤ lease
  unfolding grant
  within_lease = elim (Option-cases (remaining_seconds ledger budget second)) [
    | inl unbounded ↦ let may = may_spend in ground arith
    | inr (left, h) ↦ (within_left left h).2
  ]

  within_cap :
      (cap : ℤ)
      → budget.max_seconds ≡ some cap
      → pos (g * ticks_per_second) +ℤ elapsed ledger second ≤ℤ scale ticks_per_second cap
  unfolding remaining_seconds
  within_cap cap capped =
      let d = scale ticks_per_second cap -ℤ elapsed ledger second in
      let (positive, fits, _) =
        within_left (max_ℤ (pos 0) (truncate ticks_per_second d)) (rw capped) in
      let b = left_bound d g positive fits in
      fits_cap (g * ticks_per_second) (elapsed ledger second) (scale ticks_per_second cap) b
    where
      fits_cap : (a : ℕ) (e c : ℤ) → pos a ≤ℤ (c -ℤ e) → pos a +ℤ e ≤ℤ c
      fits_cap a e c b = omega int_laws

-- An extension that returns a task was granted to a run that may still spend. The new expiry is the
-- clock plus a grant of no more than the lease asked for and, where the budget caps wall-clock time,
-- of no more than what the run has left: the grant and the time elapsed fit the cap together.
pub extension_bounded :
    ⦃py : Python⦄ (source : Source) (id worker : String) (ledger : RunLedger) (budget : RunBudget)
    (first second : ℕ) (seconds : Option Seconds) (w : World) (t : StoredTask)
    → (extend_lease source id worker ledger budget first second seconds w).0 ≡ ok t
    → (lease granted : ℕ) × (lease_or source seconds ≡ ok lease)
      × (t.claimed_until ≡ some (timestamp w.clock granted))
      × (exhaustion ledger budget first ≡ none)
      × (granted ≤ lease)
      × ((cap : ℤ)
          → budget.max_seconds ≡ some cap
          → pos (granted * ticks_per_second) +ℤ elapsed ledger second ≤ℤ scale ticks_per_second cap)
extension_bounded source id worker ledger budget one two seconds w t h =
    elim (extend_lease-cases source id worker ledger budget one two seconds w) [
      | inr (e, refused) ↦ ground arith
      | inl x ↦
          let effect = extend_lease_lem source id worker ledger budget one two seconds w x in
          (
            x.lease,
            x.granted,
            x.leased,
            held_until x.granted x.target (ok_unique h (ap (λ p. p.0) effect)),
            may_spend id x.lease ledger budget one two x.granted x.grants,
            within_lease id x.lease ledger budget one two x.granted x.grants,
            within_cap id x.lease ledger budget one two x.granted x.grants,
          )
    ]
  where
    held_until :
        (granted : ℕ) (r : Fields)
        → t ≡ snapshot claimed (hold_record w.clock granted r)
        → t.claimed_until ≡ some (timestamp w.clock granted)
    held_until granted r e =
        let set = get-put_self "claimed_until" (int (timestamp w.clock granted)) r in ground arith
