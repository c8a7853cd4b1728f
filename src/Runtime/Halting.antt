-- ===== src/Runtime/Halting.antt =====
-- A run ends: each step that goes on was paid for, and the budget's steps run out.
use prism_harness_py.Runtime.Counting.{answer-Keeps, over-done, view_rows-Keeps, IsCounted}
use prism_harness_py.Subagents.Nesting.{exhaustion-none}
use prism_harness_py.Prelude.{
  ◌∙◌, ap, subst, ℕ, zero, suc, ◌+◌, ◌≤◌, ◌<◌, String, false, none, some, List, ◌≡◌, inl, inr,
  arith, Option-cases,
}
use prism_harness_py.Prelude.Int.{ℤ, pos, pos_part, leb_ℤ, ◌-ℤ◌}
use prism_harness_py.Python.{Python}
use prism_harness_py.Result.{Result, ok, err}
use prism_harness_py.Exec.{after_err, after_ok, Exec-cases}
use prism_harness_py.Session.{assert_writable}
use prism_harness_py.Subagents.{record_steps, record_cost, exhaustion}
use prism_harness_py.Runtime.Data.{
  LlmResponse, AgentResponse, Machine, Outside, Turn, Progress, done, again,
}
use prism_harness_py.Runtime.Steps.{on_session, finish}
use prism_harness_py.Runtime.Responses.{request_of, charge}
use prism_harness_py.Runtime.Loop.{
  follow, start_loop, ask_with, charge_then, view_rows, ask, step, steps, loop,
}

nothing_below : (n : ℕ) → n < 0 → ⊥
nothing_below n h = omega arith

fewer_left :
    (most : ℤ) (before after fuel : ℕ)
    → leb_ℤ most (pos before) ≡ false
    → before + 1 ≤ after
    → pos_part (most -ℤ pos before) < suc fuel
    → pos_part (most -ℤ pos after) < fuel
unfolding ◌-ℤ◌
fewer_left most before after fuel room spent h = ground arith

module _ ⦃py : Python⦄ (out : Outside) (counted : IsCounted out) where
  charge-steps :
      (response : LlmResponse) (m : Machine) → (charge response m).ledger.steps ≡ m.ledger.steps + 1
  unfolding record_steps record_cost
  charge-steps response m = elim (Option-cases response.cost_usd) [
    | inl unknown ↦ rw (unknown, charge) (omega arith)
    | inr (cost, known) ↦ rw (known, charge) (omega arith)
  ]

  charge_then-spends :
      (t : Turn) (st : Progress) (response : LlmResponse) (m : Machine)
      → m.ledger.steps + 1 ≤ (charge_then out t st response m).1.ledger.steps
  charge_then-spends t st response m =
      omega
        (arith, charge-steps response m, answer-Keeps out counted t st response (charge response m))

  -- A step that goes on was charged for.
  ask-spends :
      (t : Turn) (st more : Progress) (m n : Machine)
      → ask out t st m ≡ (ok (again more), n)
      → m.ledger.steps + 1 ≤ n.ledger.steps
  unfolding ask
  ask-spends t st more m n h = elim (Exec-cases view_rows m) [
    | inr (e, v, is) ↦ cc (h, after_err view_rows (ask_with out t st) m v e is)
    | inl (view, v, is) ↦
        let asks : ask_with out t st view v ≡ (ok (again more), n) =
          cc (h, after_ok view_rows (ask_with out t st) m v view is) in
        let same : m.ledger.steps ≤ v.ledger.steps =
          subst (λ p. m.ledger.steps ≤ p.1.ledger.steps) is (view_rows-Keeps out counted m) in
        elim (Exec-cases (out.client (request_of t view)) v) [
          | inr (e, w, was) ↦
              cc (asks, after_err (out.client (request_of t view)) (charge_then out t st) v w e was)
          | inl (response, w, was) ↦
              let asked : charge_then out t st response w ≡ (ok (again more), n) = cc (
                asks,
                after_ok (out.client (request_of t view)) (charge_then out t st) v w response was,
              ) in
              let kept : v.ledger.steps ≤ w.ledger.steps =
                subst (λ p. v.ledger.steps ≤ p.1.ledger.steps) was
                  (counted.client (request_of t view) v) in
              let spent : w.ledger.steps + 1 ≤ n.ledger.steps =
                subst (λ p. w.ledger.steps + 1 ≤ p.1.ledger.steps) asked
                  (charge_then-spends t st response w) in
              omega (arith, same, kept, spent)
        ]
  ]

  step-again :
      (t : Turn) (st more : Progress) (m n : Machine)
      → step out t st m ≡ (ok (again more), n)
      → (leb_ℤ t.budget.max_steps (pos m.ledger.steps) ≡ false)
        × (m.ledger.steps + 1 ≤ n.ledger.steps)
  unfolding step
  step-again t st more m n h = elim (Option-cases (exhaustion m.ledger t.budget m.clock)) [
    | inr (why, is) ↦
        elim (over-done (finish out t "budget_exhausted" st.text st.called (some why) none) more m n
          (cc (rw (is, step) at h))) [ ]
    | inl may ↦
        let (live, left, rest) = exhaustion-none m.ledger t.budget m.clock may in
        let asked : ask out t st m ≡ (ok (again more), n) = cc (rw (may, step) at h) in
        (left, ask-spends t st more m n asked)
  ]

  steps_enough :
      (fuel : ℕ) (t : Turn) (st : Progress) (m : Machine)
      → pos_part (t.budget.max_steps -ℤ pos m.ledger.steps) < fuel
      → (r : Result AgentResponse) × (n : Machine) × (steps out t fuel st m ≡ some (r, n))
  unfolding steps
  steps_enough zero t st m h = elim (nothing_below _ h) [ ]
  steps_enough (suc fuel) t st m h = elim (Exec-cases (step out t st) m) [
    | inr (e, n, is) ↦ (err e, n, ap (follow (steps out t fuel)) is)
    | inl (done response, n, is) ↦ (ok response, n, ap (follow (steps out t fuel)) is)
    | inl (again more, n, is) ↦
        let (room, spent) = step-again t st more m n is in
        let less = fewer_left t.budget.max_steps m.ledger.steps n.ledger.steps fuel room spent h in
        let (r, o, rest) = steps_enough fuel t more n less in
        (r, o, ap (follow (steps out t fuel)) is ∙ rest)
  ]

  -- A run ends, with a response or an exception: as many rounds of its loop as the budget's steps that
  -- are left, and one more, are enough, whatever the client answers and the tools do, as long as they
  -- return and do not take steps off the ledger. Each round asks the client once at most.
  pub loop_enough :
      (t : Turn) (called : List String) (m : Machine)
      → (r : Result AgentResponse) × (n : Machine) × (loop out t
            (suc (pos_part (t.budget.max_steps -ℤ pos m.ledger.steps)))
            called
            m
          ≡ some (r, n))
  unfolding loop
  loop_enough t called m =
      let fuel : ℕ = suc (pos_part (t.budget.max_steps -ℤ pos m.ledger.steps)) in
      elim (Exec-cases (on_session assert_writable) m) [
        | inr (e, n, is) ↦ (err e, n, ap (start_loop (steps out t fuel) called) is)
        | inl (u, n, is) ↦
            let same : m.ledger ≡ n.ledger = ap (λ p. p.1.ledger) is in
            let first : Progress = record { called = called; text = "" } in
            let (r, o, rest) = steps_enough fuel t first n (rw (← same) (omega arith)) in
            (r, o, ap (start_loop (steps out t fuel) called) is ∙ rest)
      ]
