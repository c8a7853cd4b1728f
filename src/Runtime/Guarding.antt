-- ===== src/Runtime/Guarding.antt =====
-- A call that the policy refuses reaches no tool.
use prism_harness_py.Runtime.Preparing.{prepare-Kind, on_session-ok}
use prism_harness_py.Runtime.Turning.{prepare, offered_to}
use prism_harness_py.Runtime.Gating.{loop-same}
use prism_harness_py.Runtime.Wrapped.{
  bound_by-AreWrapped, within_scope-AreWrapped, find_tool-wrapped, offered_to-AreWrapped,
  AreWrapped,
}
use prism_harness_py.Runtime.Agreeing.{prepare-same, bind_from}
use prism_harness_py.Prelude.{
  zero, suc, ◌<◌, arith, Bool, false, ℕ, String, true, false, some, List, ◌≡◌, refl, sym, ◌∙◌, ap,
}
use prism_harness_py.Value.{Value, Fields}
use prism_harness_py.Python.{Python}
use prism_harness_py.Result.{err, Result, ok}
use prism_harness_py.Exec.{Exec, ◌>>=◌}
use prism_harness_py.Tools.Tool.{HarnessTool}
use prism_harness_py.Tools.Authorizer.{
  wrapped_handle, ToolAuthorizer, AgentOptions, allows_call, if_allowed, authorized_handle,
}
use prism_harness_py.Runtime.Data.{Turn, Machine, Outside}
use prism_harness_py.Runtime.Offering.{AgentRuntime, scoped}
use prism_harness_py.Runtime.Opening.{Setup, Sent}
use prism_harness_py.Runtime.Sending.{
  caught, loop_from, begun, fail, start, guarded, guarded_by, turn_with, turn,
}

guarded_is :
    (out : Outside) (rt : AgentRuntime)
    (root : ToolAuthorizer Machine × List (String × AgentOptions Machine))
    (a : ToolAuthorizer Machine)
    → rt.authorizer ≡ some root
    → scoped rt.agent root ≡ ok a
    → guarded out rt.agent rt.authorizer
      ≡ record out { handle = authorized_handle Machine a out.handle }
guarded_is out rt root a has its = ap (guarded out rt.agent) has ∙ ap (guarded_by out) its

module _ (a : ToolAuthorizer Machine) (handle handle' : HarnessTool → Fields → Exec Machine Value)
    (same : (tool : HarnessTool) (args : Fields) (n o : Machine)
      → allows_call Machine a tool args n ≡ (ok true, o)
      → handle' tool args o ≡ handle tool args o) where
  if_allowed-same :
      (tool : HarnessTool) (args : Fields) (n o : Machine) (runs runs' : Exec Machine Value)
      (may : Bool)
      → allows_call Machine a tool args n ≡ (ok may, o)
      → ((p : Machine) → allows_call Machine a tool args n ≡ (ok true, p) → runs' p ≡ runs p)
      → if_allowed Machine tool runs' may o ≡ if_allowed Machine tool runs may o
  if_allowed-same tool args n o runs runs' true is alike = alike o is
  if_allowed-same tool args n o runs runs' false is alike = refl

  asked-same :
      (tool : HarnessTool) (args : Fields) (n : Machine) (runs runs' : Exec Machine Value)
      → ((p : Machine) → allows_call Machine a tool args n ≡ (ok true, p) → runs' p ≡ runs p)
      → (allows_call Machine a tool args >>= if_allowed Machine tool runs') n
        ≡ (allows_call Machine a tool args >>= if_allowed Machine tool runs) n
  asked-same tool args n runs runs' alike =
      bind_from (allows_call Machine a tool args) (if_allowed Machine tool runs)
        (if_allowed Machine tool runs') n
        (λ may o is. if_allowed-same tool args n o runs runs' may is alike)

  -- The innermost wrapping asks about the tool that does what `handle` says.
  wrapped-same :
      (wrappings : ℕ) (tool : HarnessTool) (args : Fields) (n : Machine)
      → wrapped_handle Machine a handle' (suc wrappings) tool args n
        ≡ wrapped_handle Machine a handle (suc wrappings) tool args n
  wrapped-same zero tool args n =
      let inner : HarnessTool = record tool { wrappings = 0 } in
      asked-same inner args n (handle inner args) (handle' inner args)
        (λ p may. same inner args n p may)
  wrapped-same (suc k) tool args n =
      let inner : HarnessTool = record tool { wrappings = suc k } in
      asked-same inner args n (wrapped_handle Machine a handle (suc k) tool args)
        (wrapped_handle Machine a handle' (suc k) tool args) (λ p may. wrapped-same k tool args p)

  wrapped_in :
      (wrappings : ℕ) (tool : HarnessTool) (args : Fields) (n : Machine)
      → 0 < wrappings
      → wrapped_handle Machine a handle' wrappings tool args n
        ≡ wrapped_handle Machine a handle wrappings tool args n
  wrapped_in zero tool args n h = let no_less : ⊥ = omega arith in absurd no_less
  wrapped_in (suc k) tool args n h = wrapped-same k tool args n

  authorized-same :
      (tool : HarnessTool) (args : Fields) (n : Machine)
      → 0 < tool.wrappings
      → authorized_handle Machine a handle' tool args n
        ≡ authorized_handle Machine a handle tool args n
  unfolding authorized_handle
  authorized-same tool args n h = wrapped_in tool.wrappings tool args n h

module _ ⦃py : Python⦄ (out : Outside) (rt : AgentRuntime)
    (handle : HarnessTool → Fields → Exec Machine Value)
    (root : ToolAuthorizer Machine × List (String × AgentOptions Machine))
    (a : ToolAuthorizer Machine) (has : rt.authorizer ≡ some root)
    (its : scoped rt.agent root ≡ ok a) (enabled : a.enabled ≡ true)
    (agree : (tool : HarnessTool) (args : Fields) (n : Machine)
      → 0 < tool.wrappings
      → handle tool args n ≡ out.handle tool args n) where
  abbrev others : Outside
  others = record out { handle = handle }

  loop_from-same :
      (fuel : ℕ) (p : Result (Turn × List String) × Machine)
      → ((t : Turn) (called : List String) (n : Machine)
          → p ≡ (ok (t, called), n)
          → AreWrapped t.offered)
      → loop_from others fuel p ≡ loop_from out fuel p
  loop_from-same fuel (err e, m) wrapped = refl
  loop_from-same fuel (ok (t, called), m) wrapped =
      loop-same out t out.client handle (λ request n may. refl)
        (λ name tool args n found free.
          agree tool args n (find_tool-wrapped t.offered name tool (wrapped t called m refl) found))
        fuel called m

  begun-same :
      (sent : Sent) (fuel : ℕ) (p : Result Setup × Machine)
      → begun others rt sent fuel p ≡ begun out rt sent fuel p
  unfolding fail
  begun-same sent fuel (err e, m) = refl
  begun-same sent fuel (ok s, m) =
      let ready = prepare-same out handle agree rt sent s m (λ tools n is.
        offered_to-AreWrapped rt root a has its enabled s.mode sent.tool_names tools m.session
          (offered_to rt s.mode sent.tool_names m.session).1
          (on_session-ok (offered_to rt s.mode sent.tool_names) m n tools is)) in
      let goes = loop_from-same fuel (prepare out rt sent s m) (λ t called n is.
        prepare-Kind AreWrapped out rt sent s m n t called within_scope-AreWrapped
          (bound_by-AreWrapped s.mode)
          (λ tools.
            offered_to-AreWrapped rt root a has its enabled s.mode sent.tool_names tools m.session
              (offered_to rt s.mode sent.tool_names m.session).1)
          is) in
      ap (λ q. caught others s (loop_from others fuel q)) ready ∙ ap (caught out s) goes

  turn_with-same :
      (sent : Sent) (fuel : ℕ) (m : Machine)
      → turn_with others rt sent fuel m ≡ turn_with out rt sent fuel m
  unfolding turn_with
  turn_with-same sent fuel m = begun-same sent fuel (start out rt sent m)

-- Where the session's agent has an authorizer that is enabled, a tool's code runs only for a call that the
-- policy allows: with any other code in the place of the calls that it refuses or raises on, every turn
-- goes the same way to the same end.
pub turn-refused_unused :
    ⦃py : Python⦄ (out : Outside) (rt : AgentRuntime)
    (handle : HarnessTool → Fields → Exec Machine Value)
    (root : ToolAuthorizer Machine × List (String × AgentOptions Machine))
    (a : ToolAuthorizer Machine)
    → rt.authorizer ≡ some root
    → scoped rt.agent root ≡ ok a
    → a.enabled ≡ true
    → ((tool : HarnessTool) (args : Fields) (n o : Machine)
        → allows_call Machine a tool args n ≡ (ok true, o)
        → handle tool args o ≡ out.handle tool args o)
    → (sent : Sent) (fuel : ℕ) (m : Machine)
    → turn (record out { handle = handle }) rt sent fuel m ≡ turn out rt sent fuel m
unfolding turn
turn-refused_unused out rt handle root a has its enabled same sent fuel m =
    let with_ : (HarnessTool → Fields → Exec Machine Value) → Outside =
      λ h. record out { handle = h } in
    ap (λ o. turn_with o rt sent fuel m) (guarded_is (with_ handle) rt root a has its)
    ∙ turn_with-same (with_ (authorized_handle Machine a out.handle)) rt
        (authorized_handle Machine a handle) root a has its enabled
        (authorized-same a out.handle handle same) sent fuel m
    ∙ sym (ap (λ o. turn_with o rt sent fuel m) (guarded_is out rt root a has its))
