-- ===== src/Tasks/Steps.antt =====
-- Interleavings: what workers, and the world around them, do to one task list. Each action is one
-- atomic step, which is what the store's lock makes of it.
use prism_harness_py.Prelude.{ℕ, ◌≤◌, String, Bool, Option, none, some, List, ◌≡◌, ◌≢◌}
use prism_harness_py.Value.{Fields}
use prism_harness_py.Store.{World}
use prism_harness_py.Store
use prism_harness_py.Python.{Python}
use prism_harness_py.Subagents.{RunLedger, RunBudget}
use prism_harness_py.Tasks.State.{Supplied}
use prism_harness_py.Tasks.Lease.{Seconds}
use prism_harness_py.Tasks.Source.{Source, add_many, claim, release, extend_lease}

pub data Action : Type 0 where
  add : List String → Option (List String) → Action
  claim_by : (worker : String) → Option Seconds → Action
  release_by : (id worker : String) → Supplied → Action
  extend_by :
      (id worker : String) → RunLedger → RunBudget → (first second : ℕ) → Option Seconds → Action
  -- The clock moves on, a lock is taken or let go, another key of the store is written.
  tick : ℕ → Action
  lock : (String → Bool) → Action
  elsewhere : String → Fields → Action

-- The worker who acts.
abbrev pub actor : Action → Option String
actor (claim_by worker _) = some worker
actor (release_by _ worker _) = some worker
actor (extend_by _ worker _ _ _ _ _) = some worker
actor _ = none

-- Time does not run backwards, and the list's key is the list's.
abbrev pub Allowed : Source → World → Action → Type 0
Allowed source w (tick n) = w.clock ≤ n
Allowed source w (elsewhere key payload) = key ≢ source.key
Allowed source w _ = Unit

module _ ⦃py : Python⦄ (source : Source) where
  abbrev pub act : Action → World → World
  act (add instructions ids) w = (add_many source instructions ids w).1
  act (claim_by worker seconds) w = (claim source worker seconds w).1
  act (release_by id worker outcome) w = (release source id worker outcome w).1
  act (extend_by id worker ledger budget first second seconds) w =
      (extend_lease source id worker ledger budget first second seconds w).1
  act (tick n) w = record w { clock = n }
  act (lock busy) w = record w { busy = busy }
  act (elsewhere key payload) w = Store.put key payload w

  -- A history of actions, none of them by a worker that `Excluded` names.
  pub data Reach (Excluded : String → Type 0) (s : World) : World → Type 0 where
    here : Reach Excluded s s
    next :
        {t : World}
        → Reach Excluded s t
        → (a : Action) → Allowed source t a
        → ((worker : String) → actor a ≡ some worker → ¬ Excluded worker)
        → Reach Excluded s (act a t)
