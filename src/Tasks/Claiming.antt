-- ===== src/Tasks/Claiming.antt =====
-- What `claim` takes and writes (Tasks/Source.antt).
use prism_harness_py.Prelude.{
  ℕ, String, false, Option, none, some, ◌∷◌, ◌++◌, ◌≡◌, ◌↔◌, arith, ◌⊎◌, inl, inr, Bool-cases,
  Option-cases, ◌∙◌,
}
use prism_harness_py.Value.{str, int, Fields}
use prism_harness_py.Errors.{Error, harness, HarnessError}
use prism_harness_py.Result.{ok, err, Result-cases}
use prism_harness_py.Store.{World}
use prism_harness_py.Python.{Python}
use prism_harness_py.Tasks.State.{claimed}
use prism_harness_py.Tasks.Record.{StoredTask, to_task, snapshot, timestamp}
use prism_harness_py.Tasks.Lease.{Seconds, require_identifier}
use prism_harness_py.Tasks.Listing.{find_first, update_first, is_todo}
use prism_harness_py.Tasks.Source.{
  Source, lease_or, current, claim_record, take, claim, pending, write_back, lapsed_any,
}
use prism_harness_py.Tasks.Expiry.{state_of-mark}
use prism_harness_py.Tasks.Search.{IsFirst, find_first-IsFirst, count-eq-zero_iff}
use prism_harness_py.Tasks.Written.{held_in, held_in-write_back}

-- The record of a fresh claim always reads back as a claimed task.
to_task-claim_record :
    ⦃py : Python⦄ (worker : String) (now lease : ℕ) (r : Fields)
    → to_task (claim_record worker now lease r)
      ≡ ok (snapshot claimed (claim_record worker now lease r))
unfolding to_task
to_task-claim_record worker now lease r =
    rw (state_of-mark claimed (str worker) (int (timestamp now lease)) r)

module _ ⦃py : Python⦄ (source : Source) (worker : String) (seconds : Option Seconds)
    (w : World) where
  -- A claim that does not raise has passed its checks, and is the step under the lock.
  pub claim-ok :
      {r : Option StoredTask}
      → (claim source worker seconds w).0 ≡ ok r
      → (lease : ℕ) × (require_identifier worker "worker" ≡ ok tt)
        × (lease_or source seconds ≡ ok lease)
        × (w.busy source.key ≡ false)
        × (claim source worker seconds w ≡ take source worker lease w)
  unfolding claim
  claim-ok h = elim (Result-cases (require_identifier worker "worker")) [
    | inr (e, refused) ↦ ground arith
    | inl (u, named) ↦ elim (Result-cases (lease_or source seconds)) [
      | inr (e, refused) ↦ ground arith
      | inl (lease, granted) ↦ elim (Bool-cases (w.busy source.key)) [
        | inl busy ↦ ground arith
        | inr free ↦ (lease, named, granted, free, ground arith)
      ]
    ]
  ]

  -- The step under the lock, where a record is claimable.
  pub take-some :
      (lease : ℕ) (target : Fields)
      → find_first is_todo (current source w) ≡ some target
      → take source worker lease w ≡ (
        ok (some (snapshot claimed (claim_record worker w.clock lease target))),
        write_back source
            (update_first is_todo (claim_record worker w.clock lease) (current source w))
            w,
      )
  unfolding take
  take-some lease target h = ground (arith, to_task-claim_record worker w.clock lease target)

  pub take-none :
      (lease : ℕ)
      → find_first is_todo (current source w) ≡ none
      → (take source worker lease w).0 ≡ ok none
  unfolding take
  take-none lease h = ground arith

  -- What a claim that returns a task has done: it took the first claimable record, in the order of
  -- the list, wrote the claim in its place and left every other record as it was.
  pub record Claims (t : StoredTask) (w' : World) : Type 0 where
    pub lease : ℕ
    pub leased : lease_or source seconds ≡ ok lease
    pub free : w.busy source.key ≡ false
    pub target : Fields
    pub first : IsFirst is_todo target (current source w)
    pub task : t ≡ snapshot claimed (claim_record worker w.clock lease target)
    pub stored :
        held_in source w' ≡ first.before ++ (claim_record worker w.clock lease target ∷ first.after)

  -- A claim that returns a task took the lock and the first task to do, in list order, once lapsed
  -- claims are back in todo. What it returns is the task that the changed record reads as, and the
  -- stored list is the list as it stood with that record alone changed: the state claimed, the
  -- worker as holder, and the end of the lease counted from the clock.
  pub claim-Claims :
      (t : StoredTask)
      → (claim source worker seconds w).0 ≡ ok (some t)
      → Claims t (claim source worker seconds w).1
  claim-Claims t h =
      let (lease, named, leased, free, e) = claim-ok h in
      elim (Option-cases (find_first is_todo (current source w))) [
        | inl nothing ↦ ground (arith, take-none lease nothing)
        | inr (target, found) ↦
            let first = find_first-IsFirst is_todo (current source w) found in
            let taken = take-some lease target found in
            record {
              lease = lease;
              leased = leased;
              free = free;
              target = target;
              first = first;
              task = ground arith;
              stored =
                  rw (e, taken)
                    (held_in-write_back source _ w
                      ∙ first.updated (claim_record worker w.clock lease));
            }
      ]

  -- A claim that is let through returns no task exactly when none is pending.
  pub claim-eq-none_iff :
      {r : Option StoredTask}
      → (claim source worker seconds w).0 ≡ ok r
      → (r ≡ none) ↔ (pending source w ≡ 0)
  unfolding pending
  claim-eq-none_iff {r} h =
      let (lease, named, leased, free, e) = claim-ok h in
      let counted = count-eq-zero_iff is_todo (current source w) in
      elim (Option-cases (find_first is_todo (current source w))) [
        | inl nothing ↦ (λ _. counted.1 nothing, λ _. ground (arith, take-none lease nothing))
        | inr (target, found) ↦ (
          λ none_taken. ground (arith, take-some lease target found),
          λ none_left. cc (counted.0 none_left),
        )
      ]

  -- A claim is the step under the lock, or raises and changes nothing.
  pub claim-cases :
      ((lease : ℕ) × (lease_or source seconds ≡ ok lease)
        × (claim source worker seconds w ≡ take source worker lease w))
      ⊎ ((e : Error) × (claim source worker seconds w ≡ (err e, w)))
  unfolding claim
  claim-cases = elim (Result-cases (require_identifier worker "worker")) [
    | inr (e, refused) ↦ inr (e, ground arith)
    | inl (u, named) ↦ elim (Result-cases (lease_or source seconds)) [
      | inr (e, refused) ↦ inr (e, ground arith)
      | inl (lease, leased) ↦ elim (Bool-cases (w.busy source.key)) [
        | inl busy ↦ inr (harness (HarnessError.session_locked source.key), ground arith)
        | inr free ↦ inl (lease, leased, ground arith)
      ]
    ]
  ]

  -- The step under the lock leaves the world, writes the expiries back, or writes a claim too.
  pub take-cases :
      (lease : ℕ)
      → ((take source worker lease w).1 ≡ w)
        ⊎ ((take source worker lease w).1 ≡ write_back source (current source w) w)
        ⊎ ((take source worker lease w).1
            ≡ write_back source
                (update_first is_todo (claim_record worker w.clock lease) (current source w))
                w)
  unfolding take
  take-cases lease = elim (Option-cases (find_first is_todo (current source w))) [
    | inr (target, found) ↦ inr (inr (ground arith))
    | inl nothing ↦ elim (Bool-cases (lapsed_any source w)) [
      | inl some_lapsed ↦ inr (inl (ground arith))
      | inr none_lapsed ↦ inl (ground arith)
    ]
  ]
