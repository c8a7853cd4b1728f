-- ===== src/Nested/Framing.antt =====
-- However a nested run of an agent of no name ends, its parent is handed a text.
use prism_harness_py.Tools.Registry.{is_named}
use Prim.Native.String.{◌++◌}
use prism_harness_py.Value.{Fields, str, Value}
use prism_harness_py.Exec.{Exec}
use prism_harness_py.Prelude.{
  Bool, ◌+◌, if◌then◌else◌, ℕ, String, false, Option, none, some, ◌≡◌, inl, inr, refl, ◌∙◌, ap,
  Bool-cases, Option-cases, ◌&&◌, not,
}
use prism_harness_py.Python.{Python}
use prism_harness_py.Result.{Result, ok, err}
use prism_harness_py.Session.{
  read_str, write, Session, using_mode, using_provider, using_model, state,
}
use prism_harness_py.Session
use prism_harness_py.Exec.{Exec, ◌>>=◌, after_ok}
use prism_harness_py.Session.{text_of, state_of}
use prism_harness_py.Value.{get}
use prism_harness_py.Subagents.{Subagent, exhaustion, too_deep}
use prism_harness_py.Runtime.Data.{AgentResponse, Machine, Outside}
use prism_harness_py.Runtime.Counting.{IsCounted}
use prism_harness_py.Runtime.Enough.{turn_enough}
use prism_harness_py.Runtime.Offering.{AgentRuntime}
use prism_harness_py.Runtime.Sending.{guarded, turn}
use prism_harness_py.Nested.{
  identity_change, only_task, task_in, handle, tool_result, settle_names, settle_provider, as_child,
  as_parent, SubagentResult, Parent, refused, with_stores, child_of, inherited, using, settle_child,
  answered, framed, child_sent, spawned, context_of, spawn, unless_too_deep, unless_exhausted, run,
}

-- The child may be written, and the parent's session is the one it was.
abbrev IsLive : (key : String) → Session × Session → Type 0
IsLive key p = (p.1.resolution_only ≡ false) × (p.0.key ≡ key)

abbrev Returns : {A : Type 0} → (key : String) → Exec (Session × Session) A → Type 0
Returns {A} key f =
    (p : Session × Session)
    → IsLive key p
    → (a : A) × (q : Session × Session) × (f p ≡ (ok a, q)) × IsLive key q

Returns-bind :
    {A B : Type 0} (key : String) (f : Exec (Session × Session) A)
    (g : A → Exec (Session × Session) B)
    → Returns key f
    → ((a : A) → Returns key (g a))
    → Returns key (f >>= g)
Returns-bind key f g h k p live =
    let (a, q, is, live') = h p live in
    let (b, r, is', live'') = k a q live' in (b, r, after_ok f g p q a is ∙ is', live'')

write-Returns : (key k : String) (v : Value) → Returns key (as_child (write k v))
unfolding state
write-Returns key k v (own, child) live =
    (tt, (as_child (write k v) (own, child)).1, rw live.0 refl, rw live.0 (refl, live.1))

using-Returns :
    (key k : String) (f : String → Exec Session (Unit {0})) (name : Option String)
    → ((n : String) → f n ≡ write k (str n))
    → Returns key (as_child (using f name))
using-Returns key k f none is (own, child) live = (tt, (with_stores child own, child), refl, live)
using-Returns key k f (some name) is p live = rw (is name) (write-Returns key k (str name) p live)

read-Returns : (key k : String) → Returns key (as_parent (read_str k))
unfolding state
read-Returns key k (own, child) live =
    (text_of (get k (state_of own)), (as_parent (read_str k) (own, child)).1, refl, live)

settle_child-Returns :
    (key : String) (agent : Option String) (subagent : Subagent)
    → Returns key (settle_child agent subagent)
unfolding using_mode using_provider using_model Session.provider Session.model
settle_child-Returns key agent subagent =
    Returns-bind key (as_child (using_mode subagent.mode))
      (λ u. as_parent Session.provider >>= settle_provider agent)
      (write-Returns key "mode" (str subagent.mode))
      (λ u.
        Returns-bind key (as_parent Session.provider) (settle_provider agent)
          (read-Returns key "provider")
          (λ provider.
            Returns-bind key (as_parent Session.model) (settle_names agent provider)
              (read-Returns key "model")
              (λ model.
                Returns-bind key (as_child (using using_provider (inherited agent provider)))
                  (λ u. as_child (using using_model (inherited agent model)))
                  (using-Returns key "provider" using_provider (inherited agent provider)
                    (λ n. refl))
                  (λ u.
                    using-Returns key "model" using_model (inherited agent model) (λ n. refl)))))

module _ ⦃py : Python⦄ (out : Outside) (rt : AgentRuntime) (parent : Parent)
    (subagent : Subagent) where
  -- A result for the parent, and the parent's session again.
  abbrev Frames : (key : String) → (ℕ → Option (Result SubagentResult × Machine)) → Type 0
  Frames key ran =
      (fuel : ℕ) × (result : SubagentResult) × (n : Machine) × (ran fuel ≡ some (ok result, n))
      × (n.session.key ≡ key)

  framed-Frames :
      (key run_id : String) (s : Session) (ran : ℕ → Option (Result AgentResponse × Machine))
      (fuel : ℕ) (r : Result AgentResponse) (n : Machine)
      → ran fuel ≡ some (r, n)
      → s.key ≡ key
      → Frames key (λ fuel. framed out parent subagent run_id s (ran fuel))
  framed-Frames key run_id s ran fuel (ok response) n is its = (
    fuel,
    answered parent subagent response,
    record n { session = with_stores n.session s },
    ap (framed out parent subagent run_id s) is,
    its,
  )
  framed-Frames key run_id s ran fuel (err e) n is its = (
    fuel,
    refused subagent run_id parent.run_id "failed" (out.error_text e),
    record n { session = with_stores n.session s },
    ap (framed out parent subagent run_id s) is,
    its,
  )

  spawn-Frames :
      (run_id task : String) (m : Machine)
      → IsCounted (guarded out rt.agent rt.authorizer)
      → Frames m.session.key (λ fuel. spawn out rt parent subagent run_id task fuel m)
  spawn-Frames run_id task m counted =
      let context = context_of out rt parent subagent m in
      let (u, (own, child), is, (live, its)) =
        settle_child-Returns m.session.key rt.agent subagent
          (m.session, child_of parent subagent m.session) (refl, refl) in
      let begun : Machine = record m { session = child } in
      let (fuel, r, n, ran) = turn_enough out rt (child_sent context task) begun counted in
      let (fuel', result, o, ends, same) =
        framed-Frames m.session.key run_id own (λ k. turn out rt (child_sent context task) k begun)
          fuel r n ran its in
      (
        fuel',
        result,
        o,
        ap (spawned out rt parent subagent context run_id task fuel' m) is ∙ ends,
        same,
      )

run_returns :
    ⦃py : Python⦄ (out : Outside) (rt : AgentRuntime) (parent : Parent) (subagent : Subagent)
    (task : String) (m : Machine)
    → IsCounted (guarded out rt.agent rt.authorizer)
    → (fuel : ℕ) × (result : SubagentResult) × (n : Machine) × (run out rt parent subagent task fuel
          m
        ≡ some (ok result, n))
      × (n.session.key ≡ m.session.key)
unfolding run
run_returns out rt parent subagent task m counted =
    let run_id = "run_" ++ out.hex m.drawn in
    let n : Machine = record m { drawn = m.drawn + 1 } in
    elim (Option-cases (exhaustion m.ledger parent.context.budget m.clock)) [
      | inr (why, is) ↦ (
        0,
        refused subagent run_id parent.run_id
            (if m.ledger.cancelled then "cancelled" else "exhausted") (parent.show why),
        n,
        rw (is, unless_exhausted) refl,
        refl,
      )
      | inl may ↦ elim (Bool-cases (too_deep (context_of out rt parent subagent n))) [
        | inl deep ↦ (
          0,
          refused subagent run_id parent.run_id "denied"
              "subagent nesting reached the maximum depth of 4",
          n,
          rw (may, deep, unless_exhausted, unless_too_deep) refl,
          refl,
        )
        | inr fits ↦
            let (fuel, result, o, is, same) =
              spawn-Frames out rt parent subagent run_id task n counted in
            (fuel, result, o, rw (may, fits, unless_exhausted, unless_too_deep) is, same)
      ]
    ]

past_check :
    {A : Type 0} (named only : Bool) (x y : A)
    → named ≡ false
    → (if named && not only then x else y) ≡ y
past_check named only x y nameless = rw nameless refl

-- Where an agent of no name calls the tool of a nested agent over sessions without an address index,
-- with whatever arguments, the tool
-- returns a text to its parent's run and does not raise, whether the budget is spent, the tree is too
-- deep, the child raises or the child answers, and the machine has the parent's session again: enough
-- fuel gives that text, where the client and the tools return and take no steps off the ledger.
pub handle_returns :
    ⦃py : Python⦄ (out : Outside) (rt : AgentRuntime) (parent : Parent) (subagent : Subagent)
    (args : Fields) (m : Machine)
    → rt.agent ≡ none
    → IsCounted (guarded out rt.agent rt.authorizer)
    → (fuel : ℕ) × (text : String) × (n : Machine) × (handle out rt parent subagent args fuel m
        ≡ some (ok text, n))
      × (n.session.key ≡ m.session.key)
unfolding handle
handle_returns out rt parent subagent args m nameless counted =
    let task = task_in out rt parent subagent (get "task" args) in
    let (fuel, result, n, is, same) = run_returns out rt parent subagent task m counted in
    (
      fuel,
      result.text,
      n,
      past_check (is_named rt.agent) (only_task out rt parent subagent args)
            (some (err (identity_change out rt parent subagent), m))
            (tool_result out rt parent subagent (run out rt parent subagent task fuel m))
            (ap is_named nameless)
          ∙ ap (tool_result out rt parent subagent) is,
      same,
    )
