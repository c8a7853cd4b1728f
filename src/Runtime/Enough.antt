-- ===== src/Runtime/Enough.antt =====
-- A turn ends.
use prism_harness_py.Prelude.{ℕ, suc, Option, some, ◌≡◌, inl, inr, ◌∙◌, ap}
use prism_harness_py.Prelude.Int.{pos, pos_part, ◌-ℤ◌}
use prism_harness_py.Python.{Python}
use prism_harness_py.Result.{Result, ok, err}
use prism_harness_py.Exec.{Exec-cases}
use prism_harness_py.Runtime.Data.{AgentResponse, Machine, Outside}
use prism_harness_py.Runtime.Counting.{IsCounted}
use prism_harness_py.Runtime.Halting.{loop_enough}
use prism_harness_py.Runtime.Offering.{AgentRuntime}
use prism_harness_py.Runtime.Turning.{prepare}
use prism_harness_py.Runtime.Opening.{Sent, Setup}
use prism_harness_py.Runtime.Sending.{
  fail, caught, loop_from, begun, start, guarded, turn_with, turn,
}

abbrev Ends : (ℕ → Option (Result AgentResponse × Machine)) → Type 0
Ends ran = (fuel : ℕ) × (r : Result AgentResponse) × (n : Machine) × (ran fuel ≡ some (r, n))

caught-Ends :
    (out : Outside) (s : Setup) (ran : ℕ → Option (Result AgentResponse × Machine))
    → Ends ran
    → Ends (λ fuel. caught out s (ran fuel))
caught-Ends out s ran (fuel, ok response, n, is) = (fuel, ok response, n, ap (caught out s) is)
caught-Ends out s ran (fuel, err e, n, is) =
    (fuel, (fail out s e n).0, (fail out s e n).1, ap (caught out s) is)

module _ ⦃py : Python⦄ (out : Outside) (rt : AgentRuntime) (sent : Sent)
    (counted : IsCounted out) where
  prepared-Ends :
      (s : Setup) (m : Machine) → Ends (λ fuel. loop_from out fuel (prepare out rt sent s m))
  prepared-Ends s m = elim (Exec-cases (prepare out rt sent s) m) [
    | inr (e, n, is) ↦ (0, err e, n, ap (loop_from out 0) is)
    | inl ((t, called), n, is) ↦
        let fuel : ℕ = suc (pos_part (t.budget.max_steps -ℤ pos n.ledger.steps)) in
        let (r, o, ends) = loop_enough out counted t called n in
        (fuel, r, o, ap (loop_from out fuel) is ∙ ends)
  ]

  turn_with-Ends : (m : Machine) → Ends (λ fuel. turn_with out rt sent fuel m)
  unfolding turn_with
  turn_with-Ends m = elim (Exec-cases (start out rt sent) m) [
    | inr (e, n, is) ↦ (0, err e, n, ap (begun out rt sent 0) is)
    | inl (s, n, is) ↦
        let (fuel, r, o, ends) =
          caught-Ends out s (λ fuel. loop_from out fuel (prepare out rt sent s n))
            (prepared-Ends s n) in
        (fuel, r, o, ap (begun out rt sent fuel) is ∙ ends)
  ]

-- A turn ends, with a response or an exception, where the client and the tools that its authorizer wrapped
-- return and take no steps off the ledger.
pub turn_enough :
    ⦃py : Python⦄ (out : Outside) (rt : AgentRuntime) (sent : Sent) (m : Machine)
    → IsCounted (guarded out rt.agent rt.authorizer)
    → (fuel : ℕ) × (r : Result AgentResponse) × (n : Machine) × (turn out rt sent fuel m
        ≡ some (r, n))
unfolding turn
turn_enough out rt sent m counted =
    turn_with-Ends (guarded out rt.agent rt.authorizer) rt sent counted m
