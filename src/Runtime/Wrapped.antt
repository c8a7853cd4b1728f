-- ===== src/Runtime/Wrapped.antt =====
-- An authorizer that is enabled wraps every tool that a turn is offered.
use prism_harness_py.Prelude.{
  ◌∙◌, ◌<◌, String, Bool, true, false, Option, none, some, List, [], ◌∷◌, ◌≡◌, refl, sym, ap, arith,
  if◌then◌else◌, inl, inr, Bool-cases, str_eq,
}
use prism_harness_py.Prelude.Assoc.{is_in}
use prism_harness_py.Result.{ok, ok_unique}
use prism_harness_py.Exec.{pure, lift, ◌>>=◌, first_returned}
use prism_harness_py.Session.{Session, resolve_read_only}
use prism_harness_py.Modes.Mode.{AgentMode}
use prism_harness_py.Tools.Tool.{HarnessTool, OfferPolicy}
use prism_harness_py.Tools.Authorizer.{
  ToolAuthorizer, AgentOptions, asked, kept, wrap, offered_by, allowed,
}
use prism_harness_py.Tools.Resolving.{resolve_detailed}
use prism_harness_py.Runtime.Data.{Machine}
use prism_harness_py.Runtime.Steps.{find_tool}
use prism_harness_py.Runtime.Resolving.{within_scope}
use prism_harness_py.Runtime.Offering.{
  AgentRuntime, OwnedTool, tools_of, allowed_by, scoped, show_owned, offer_detailed, offer_names,
  offered_names, check_completion, authorized, ownership, owned, offer_in, offer, is_narrowing,
}
use prism_harness_py.Runtime.Turning.{
  requested_or, staying, bound_by, may_stay, offer_widely, offer_narrowly, offered_to,
}

abbrev pub AreWrapped : List HarnessTool → Type 0
AreWrapped [] = Unit
AreWrapped (tool ∷ tools) = (0 < tool.wrappings) × AreWrapped tools

kept-AreWrapped :
    (b : Bool) (tool : HarnessTool) (tools : List HarnessTool)
    → 0 < tool.wrappings
    → AreWrapped tools
    → AreWrapped (if b then tool ∷ tools else tools)
kept-AreWrapped true tool tools h k = (h, k)
kept-AreWrapped false tool tools h k = k

offered_by-AreWrapped :
    (policy : Option OfferPolicy) (tools result : List HarnessTool) (s t : Session)
    → offered_by Machine policy tools s ≡ (ok result, t)
    → AreWrapped result
unfolding offered_by
offered_by-AreWrapped policy [] result s t is =
    let same : result ≡ [] = sym (ok_unique refl (ap (λ c. c.0) is)) in rw same tt
offered_by-AreWrapped policy (tool ∷ tools) result s t is =
    let (may, s1, gave, more) =
      first_returned (asked Machine policy tool)
        (λ may. offered_by Machine policy tools >>= λ rest. pure (kept Machine may tool rest)) s t
        result is in
    let (rest, s2, had, ends) =
      first_returned (offered_by Machine policy tools) (λ rest. pure (kept Machine may tool rest))
        s1 t result more in
    let same : result ≡ kept Machine may tool rest = sym (ok_unique refl (ap (λ c. c.0) ends)) in
    rw same (
      kept-AreWrapped may (wrap Machine tool) rest (omega arith)
        (offered_by-AreWrapped policy tools rest s1 s2 had))

pub staying-AreWrapped :
    (mode : AgentMode) (scope : List String) (tools : List HarnessTool)
    → AreWrapped tools
    → AreWrapped (staying mode scope tools)
staying-AreWrapped mode scope [] h = tt
staying-AreWrapped mode scope (tool ∷ tools) h =
    kept-AreWrapped (may_stay mode scope tool) tool (staying mode scope tools) h.0
      (staying-AreWrapped mode scope tools h.1)

pub bound_by-AreWrapped :
    (mode : AgentMode) (scope : Option (List String × Bool)) (tools : List HarnessTool)
    → AreWrapped tools
    → AreWrapped (bound_by mode scope tools)
bound_by-AreWrapped mode none tools h = h
bound_by-AreWrapped mode (some (scope, legacy)) tools h = staying-AreWrapped mode scope tools h

pub within_scope-AreWrapped :
    (scope : Option (List String × Bool)) (tools : List HarnessTool)
    → AreWrapped tools
    → AreWrapped (within_scope scope tools)
within_scope-AreWrapped none tools h = tt
within_scope-AreWrapped (some scope) [] h = tt
within_scope-AreWrapped (some scope) (tool ∷ tools) h =
    kept-AreWrapped (is_in tool.name scope.0) tool (within_scope (some scope) tools) h.0
      (within_scope-AreWrapped (some scope) tools h.1)

pub find_tool-wrapped :
    (tools : List HarnessTool) (name : String) (tool : HarnessTool)
    → AreWrapped tools
    → find_tool tools name ≡ some tool
    → 0 < tool.wrappings
find_tool-wrapped [] name tool h is = cc
find_tool-wrapped (t ∷ tools) name tool h is = elim (Bool-cases (str_eq t.name name)) [
  | inl it ↦ let same : t ≡ tool = cc (rw it at is) in rw (← same) h.0
  | inr other ↦ find_tool-wrapped tools name tool h.1 (rw other at is)
]

module _ (rt : AgentRuntime) (root : ToolAuthorizer Machine × List (String × AgentOptions Machine))
    (a : ToolAuthorizer Machine) (has : rt.authorizer ≡ some root)
    (its : scoped rt.agent root ≡ ok a) (enabled : a.enabled ≡ true) where
  authorized-AreWrapped :
      (tools result : List HarnessTool) (s t : Session)
      → authorized rt tools s ≡ (ok result, t)
      → AreWrapped result
  unfolding authorized allowed
  authorized-AreWrapped tools result s t is =
      let asks : allowed_by rt.agent (some root) tools s ≡ (ok result, t) =
        ap (λ o. allowed_by rt.agent o tools s) (sym has) ∙ is in
      let offers : allowed Machine a tools s ≡ (ok result, t) = rw (allowed_by, its) at asks in
      offered_by-AreWrapped a.offer tools result s t (rw (allowed, enabled) at offers)

  module _ (mode : AgentMode) where
    offer_in-AreWrapped :
        (requested : Option (List String)) (both : List HarnessTool × List OwnedTool)
        (s t : Session)
        → offer_in rt mode requested s ≡ (ok both, t)
        → AreWrapped both.0
    offer_in-AreWrapped requested both s t is =
        let (names, s1, named, more) =
          first_returned (lift (offered_names rt mode requested)) (offer_names rt) s t both is in
        let (detailed, s2, had, rest) =
          first_returned (resolve_detailed rt.tools names) (offer_detailed rt) s1 t both more in
        let (u, s3, may, after) =
          first_returned (lift (check_completion rt detailed))
            (λ _. authorized rt (tools_of detailed) >>= show_owned detailed) s2 t both rest in
        let (offered, s4, gave, last) =
          first_returned (authorized rt (tools_of detailed)) (show_owned detailed) s3 t both
            after in
        let (rows, s5, owns, ends) =
          first_returned (lift (owned (ownership detailed []) offered))
            (λ rows. pure (offered, rows)) s4 t both last in
        let same : both.0 ≡ offered = ap (λ p. p.0) (sym (ok_unique refl (ap (λ c. c.0) ends))) in
        rw same (authorized-AreWrapped (tools_of detailed) offered s3 s4 gave)

    narrowly-AreWrapped :
        (requested : Option (List String)) (tools : List HarnessTool) (s t : Session)
        → offer_narrowly rt mode requested s ≡ (ok tools, t)
        → AreWrapped tools
    unfolding offer resolve_read_only
    narrowly-AreWrapped requested tools s t is =
        let (both, s1, had, ends) =
          first_returned (offer rt mode requested) (λ both. pure both.0) s t tools is in
        let view = record s {
          cached = none;
          resolution_only = true;
          resolved_mode = some mode.name;
        } in
        let inside : offer_in rt mode requested view
            ≡ (ok both, (offer_in rt mode requested view).1) =
          ap (λ r. (r, (offer_in rt mode requested view).1)) (ap (λ c. c.0) had) in
        let same : tools ≡ both.0 = sym (ok_unique refl (ap (λ c. c.0) ends)) in
        rw same (offer_in-AreWrapped requested both view (offer_in rt mode requested view).1 inside)

    widely-AreWrapped :
        (requested : Option (List String)) (tools : List HarnessTool) (s t : Session)
        → offer_widely rt mode requested s ≡ (ok tools, t)
        → AreWrapped tools
    widely-AreWrapped requested tools s t is =
        let (detailed, s1, had, ends) =
          first_returned (resolve_detailed rt.tools (requested_or mode.tools requested))
            (λ detailed. authorized rt (tools_of detailed)) s t tools is in
        authorized-AreWrapped (tools_of detailed) tools s1 t ends

    -- Whether or not requests are narrowed.
    pub offered_to-AreWrapped :
        (requested : Option (List String)) (tools : List HarnessTool) (s t : Session)
        → offered_to rt mode requested s ≡ (ok tools, t)
        → AreWrapped tools
    offered_to-AreWrapped requested tools s t is = elim (Bool-cases (is_narrowing rt)) [
      | inl narrow ↦ narrowly-AreWrapped requested tools s t (rw (narrow, offered_to) at is)
      | inr wide ↦ widely-AreWrapped requested tools s t (rw (wide, offered_to) at is)
    ]
