-- ===== src/Runtime/Offered.antt =====
-- A run is offered no tool that its mode does not list.
use prism_harness_py.Prelude.{
  String, Bool, true, false, Option, none, some, List, [], ◌∷◌, ◌≡◌, inl, inr, refl, sym, ap,
  Bool-cases, if◌then◌else◌,
}
use prism_harness_py.Prelude.Assoc.{is_in}
use prism_harness_py.Result.{ok, ok_unique}
use prism_harness_py.Exec.{pure, lift, ◌>>=◌, first_returned}
use prism_harness_py.Session.{Session}
use prism_harness_py.Modes.Mode.{AgentMode}
use prism_harness_py.Tools.Tool.{HarnessTool, OfferPolicy, ResolvedTool}
use prism_harness_py.Tools.Named.{AreNamed}
use prism_harness_py.Tools.Authorizer.{
  ToolAuthorizer, AgentOptions, asked, kept, wrap, offered_by, allowed,
}
use prism_harness_py.Runtime.Data.{Machine}
use prism_harness_py.Runtime.Resolving.{within_scope}
use prism_harness_py.Runtime.Offering.{tools_of, allowed_by, scoped}
use prism_harness_py.Runtime.Turning.{staying, bound_by, may_stay}

-- Every tool has one of the names.
abbrev pub AreWithin : List String → List HarnessTool → Type 0
AreWithin names [] = Unit
AreWithin names (tool ∷ tools) = (is_in tool.name names ≡ true) × AreWithin names tools

pub tools_of-AreWithin :
    (names : List String) (detailed : List (String × ResolvedTool))
    → AreNamed names detailed
    → AreWithin names (tools_of detailed)
tools_of-AreWithin names [] h = tt
tools_of-AreWithin names ((key, entry) ∷ detailed) h = (h.0, tools_of-AreWithin names detailed h.1)

pub AreWithin-mono :
    (names more : List String) (tools : List HarnessTool)
    → ((name : String) → is_in name names ≡ true → is_in name more ≡ true)
    → AreWithin names tools
    → AreWithin more tools
AreWithin-mono names more [] h k = tt
AreWithin-mono names more (tool ∷ tools) h k =
    (h tool.name k.0, AreWithin-mono names more tools h k.1)

kept-AreWithin :
    (names : List String) (b : Bool) (tool : HarnessTool) (tools : List HarnessTool)
    → is_in tool.name names ≡ true
    → AreWithin names tools
    → AreWithin names (if b then tool ∷ tools else tools)
kept-AreWithin names true tool tools h k = (h, k)
kept-AreWithin names false tool tools h k = k

offered_by-AreWithin :
    (names : List String) (policy : Option OfferPolicy) (tools result : List HarnessTool)
    (s t : Session)
    → AreWithin names tools
    → offered_by Machine policy tools s ≡ (ok result, t)
    → AreWithin names result
unfolding offered_by
offered_by-AreWithin names policy [] result s t h is =
    let same : result ≡ [] = sym (ok_unique refl (ap (λ c. c.0) is)) in rw same tt
offered_by-AreWithin names policy (tool ∷ tools) result s t h is =
    let (may, s1, gave, more) =
      first_returned (asked Machine policy tool)
        (λ may. offered_by Machine policy tools >>= λ rest. pure (kept Machine may tool rest)) s t
        result is in
    let (rest, s2, had, ends) =
      first_returned (offered_by Machine policy tools) (λ rest. pure (kept Machine may tool rest))
        s1 t result more in
    let same : result ≡ kept Machine may tool rest = sym (ok_unique refl (ap (λ c. c.0) ends)) in
    rw same (
      kept-AreWithin names may (wrap Machine tool) rest h.0
        (offered_by-AreWithin names policy tools rest s1 s2 h.1 had))

allowed-AreWithin :
    (names : List String) (a : ToolAuthorizer Machine) (tools result : List HarnessTool)
    (s t : Session)
    → AreWithin names tools
    → allowed Machine a tools s ≡ (ok result, t)
    → AreWithin names result
unfolding allowed
allowed-AreWithin names a tools result s t h is = elim (Bool-cases a.enabled) [
  | inl on ↦ offered_by-AreWithin names a.offer tools result s t h (rw (on, allowed) at is)
  | inr off ↦
      let same : result ≡ tools = sym (ok_unique refl (ap (λ c. c.0) (rw (off, allowed) at is))) in
      rw same h
]

pub authorized-AreWithin :
    (names : List String) (agent : Option String)
    (authorizer : Option (ToolAuthorizer Machine × List (String × AgentOptions Machine)))
    (tools result : List HarnessTool) (s t : Session)
    → AreWithin names tools
    → allowed_by agent authorizer tools s ≡ (ok result, t)
    → AreWithin names result
authorized-AreWithin names agent none tools result s t h is =
    let same : result ≡ tools = sym (ok_unique refl (ap (λ c. c.0) is)) in rw same h
authorized-AreWithin names agent (some root) tools result s t h is =
    let (a, s1, had, more) =
      first_returned (lift (scoped agent root)) (λ a. allowed Machine a tools) s t result is in
    allowed-AreWithin names a tools result s1 t h more

staying-AreWithin :
    (names : List String) (mode : AgentMode) (scope : List String) (tools : List HarnessTool)
    → AreWithin names tools
    → AreWithin names (staying mode scope tools)
staying-AreWithin names mode scope [] h = tt
staying-AreWithin names mode scope (tool ∷ tools) h =
    kept-AreWithin names (may_stay mode scope tool) tool (staying mode scope tools) h.0
      (staying-AreWithin names mode scope tools h.1)

pub bound_by-AreWithin :
    (names : List String) (mode : AgentMode) (scope : Option (List String × Bool))
    (tools : List HarnessTool)
    → AreWithin names tools
    → AreWithin names (bound_by mode scope tools)
bound_by-AreWithin names mode none tools h = h
bound_by-AreWithin names mode (some (scope, legacy)) tools h =
    staying-AreWithin names mode scope tools h

pub within_scope-AreWithin :
    (names : List String) (scope : Option (List String × Bool)) (tools : List HarnessTool)
    → AreWithin names tools
    → AreWithin names (within_scope scope tools)
within_scope-AreWithin names none tools h = tt
within_scope-AreWithin names (some scope) [] h = tt
within_scope-AreWithin names (some scope) (tool ∷ tools) h =
    kept-AreWithin names (is_in tool.name scope.0) tool (within_scope (some scope) tools) h.0
      (within_scope-AreWithin names (some scope) tools h.1)
