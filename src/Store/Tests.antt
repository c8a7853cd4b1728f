-- ===== src/Store/Tests.antt =====
-- The store in memory on concrete calls.
use prism_harness_py.Prelude.{some, none, List, [], ◌∷◌, ◌≡◌, refl, arith}
use prism_harness_py.Prelude.Int.{ℤ, pos, ◌+ℤ◌}
use prism_harness_py.Value.{end}
use prism_harness_py.Errors.{harness, HarnessError}
use prism_harness_py.Result.{ok, err}
use prism_harness_py.Exec.{Exec}
use prism_harness_py.Store.Memory.{MemorySessionStore, new_store, with_lock}
use prism_harness_py.Store.Memory
use prism_harness_py.Store.Recalling.{Call, latest, fresh, after, get-eq-latest}

-- A payload with ten ticks to live, read while it is there and again after.
abbrev history : List (ℤ × Call)
history = (pos 9, Call.get "a") ∷ ((pos 1, Call.put "a" end (some (pos 10))) ∷ [])

latest_example : (Memory.get "a" (pos 12) (after history)).0 ≡ fresh (pos 12) (latest "a" history)
latest_example = get-eq-latest "a" (pos 12) history (omega arith, (omega arith, tt))

dropped : (Memory.get "a" (pos 12) (after history)).0 ≡ none
unfolding Memory.get Memory.put ◌+ℤ◌
dropped = refl

still_there : (Memory.get "a" (pos 10) (after history)).0 ≡ some end
unfolding Memory.get Memory.put ◌+ℤ◌
still_there = refl

abbrev nothing : Exec MemorySessionStore (Unit {0})
nothing s = (ok tt, s)

-- The lock is not reentrant, and it is free again after the callback.
locked_out :
    (with_lock "a" (with_lock "a" nothing) new_store).0
    ≡ err (harness (HarnessError.session_locked "a"))
unfolding with_lock
locked_out = refl
