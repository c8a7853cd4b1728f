-- ===== src/Runtime/Preparing.antt =====
-- From the mode's list of tools to the tools that the loop of a turn is given.
use prism_harness_py.Prelude.{
  String, Bool, true, false, Option, none, some, List, [], ◌∷◌, ◌≡◌, inl, inr, refl, sym, ap,
  Bool-cases, if◌then◌else◌,
}
use prism_harness_py.Prelude.Assoc.{is_in}
use prism_harness_py.Value.{Fields}
use prism_harness_py.Python.{Python}
use prism_harness_py.Result.{ok, ok_unique}
use prism_harness_py.Exec.{Exec, pure, lift, ◌>>=◌, ◌>>◌, first_returned}
use prism_harness_py.Session.{Session, lock, resolve_read_only}
use prism_harness_py.ThreadRows.Scope.{approval_tool_scope}
use prism_harness_py.Modes.Mode.{AgentMode}
use prism_harness_py.Tools.Tool.{ResolvedTool, HarnessTool}
use prism_harness_py.Tools.Registry.{is_strict}
use prism_harness_py.Tools.Built.{Built, Built-AreKeyed}
use prism_harness_py.Tools.Named.{resolve_detailed-AreNamed}
use prism_harness_py.Tools.Resolving.{resolve_detailed}
use prism_harness_py.Runtime.Data.{Machine, Outside, Turn}
use prism_harness_py.Runtime.Steps.{on_session, thread_rows, record_rows}
use prism_harness_py.Runtime.Settings.{narrowed_tools, narrowed_tools_within}
use prism_harness_py.Runtime.Resolving.{
  resolve_if, resolve_left, Work, within_scope, unresolved, answer_calls, answers_row, resolve_work,
  resolve_rows, resolve_approvals,
}
use prism_harness_py.Runtime.Offering.{
  show_owned, offer_detailed, offer_names, AgentRuntime, OwnedTool, is_narrowing, offered_names,
  check_completion, tools_of, authorized, ownership, owned, offer_in, offer,
}
use prism_harness_py.Runtime.Turning.{
  resume_with, resume_within, resume_after, resume, offer_widely, offered_to, offer_narrowly,
  bound_by, record_prompt, turn_of, prepare,
}
use prism_harness_py.Runtime.Opening.{Sent, Setup}
use prism_harness_py.Runtime.Offered.{
  AreWithin, AreWithin-mono, tools_of-AreWithin, authorized-AreWithin, bound_by-AreWithin,
  within_scope-AreWithin,
}

returned_pair :
    {S A B : Type 0} (a a' : A) (b b' : B) (m n : S)
    → pure {A = A × B} (a, b) m ≡ (ok (a', b'), n)
    → a' ≡ a
returned_pair a a' b b' m n is = ap (λ p. p.0) (sym (ok_unique refl (ap (λ c. c.0) is)))

first_branch :
    (b : Bool) (f g : Exec Session (List HarnessTool)) (s t : Session) (tools : List HarnessTool)
    → b ≡ true
    → (if b then f else g) s ≡ (ok tools, t)
    → f s ≡ (ok tools, t)
first_branch true f g s t tools h is = is
first_branch false f g s t tools h is = cc

module _ (rt : AgentRuntime) (mode : AgentMode) (built : Built rt.tools)
    (strict : is_strict rt.tools ≡ true) (narrow : is_narrowing rt ≡ true)
    (closed : is_in "*" mode.tools ≡ false) where
  no_star :
      (names : List String) (requested : Option (List String))
      → narrowed_tools mode.tools requested ≡ ok names
      → is_in "*" names ≡ false
  no_star names requested is = elim (Bool-cases (is_in "*" names)) [
    | inr fine ↦ fine
    | inl star ↦ cc (closed, narrowed_tools_within mode.tools names requested "*" closed is star)
  ]

  detailed-AreWithin :
      (names : List String) (requested : Option (List String))
      (detailed : List (String × ResolvedTool)) (s t : Session)
      → narrowed_tools mode.tools requested ≡ ok names
      → resolve_detailed rt.tools names s ≡ (ok detailed, t)
      → AreWithin mode.tools (tools_of detailed)
  detailed-AreWithin names requested detailed s t its is =
      AreWithin-mono names mode.tools (tools_of detailed)
        (λ name has. narrowed_tools_within mode.tools names requested name closed its has)
        (tools_of-AreWithin names detailed (
          resolve_detailed-AreNamed rt.tools strict (Built-AreKeyed rt.tools built) names detailed s
            t (no_star names requested its) is))

  offer_in-AreWithin :
      (requested : Option (List String)) (both : List HarnessTool × List OwnedTool) (s t : Session)
      → offer_in rt mode requested s ≡ (ok both, t)
      → AreWithin mode.tools both.0
  unfolding authorized
  offer_in-AreWithin requested both s t is =
      let (names, s1, its, more) =
        first_returned (lift (offered_names rt mode requested)) (offer_names rt) s t both is in
      let (detailed, s2, had, rest) =
        first_returned (resolve_detailed rt.tools names) (offer_detailed rt) s1 t both more in
      let (u, s3, may, after) =
        first_returned (lift (check_completion rt detailed))
          (λ _. authorized rt (tools_of detailed) >>= show_owned detailed) s2 t both rest in
      let (offered, s4, gave, last) =
        first_returned (authorized rt (tools_of detailed)) (show_owned detailed) s3 t both after in
      let (rows, s5, owns, ends) =
        first_returned (lift (owned (ownership detailed []) offered)) (λ rows. pure (offered, rows))
          s4 t both last in
      let named : narrowed_tools mode.tools requested ≡ ok names =
        rw (narrow, offered_names) at (ap (λ c. c.0) its) in
      let same : both.0 ≡ offered = returned_pair offered both.0 rows both.1 s5 t ends in
      rw same (
        authorized-AreWithin mode.tools rt.agent rt.authorizer (tools_of detailed) offered s3 s4
          (detailed-AreWithin names requested detailed s1 s2 named had) gave)

  offered_to-AreWithin :
      (requested : Option (List String)) (tools : List HarnessTool) (s t : Session)
      → offered_to rt mode requested s ≡ (ok tools, t)
      → AreWithin mode.tools tools
  unfolding offer resolve_read_only
  offered_to-AreWithin requested tools s t is =
      let narrowly : offer_narrowly rt mode requested s ≡ (ok tools, t) =
        first_branch (is_narrowing rt) (offer_narrowly rt mode requested)
          (offer_widely rt mode requested) s t tools narrow is in
      let (both, s1, had, ends) =
        first_returned (offer rt mode requested) (λ both. pure both.0) s t tools narrowly in
      let view = record s {
        cached = none;
        resolution_only = true;
        resolved_mode = some mode.name;
      } in
      let inside : offer_in rt mode requested view
          ≡ (ok both, (offer_in rt mode requested view).1) =
        ap (λ r. (r, (offer_in rt mode requested view).1)) (ap (λ c. c.0) had) in
      let same : tools ≡ both.0 = sym (ok_unique refl (ap (λ c. c.0) ends)) in
      rw same (offer_in-AreWithin requested both view (offer_in rt mode requested view).1 inside)

-- What resolving the approvals leaves is still of a kind that a scope keeps.
module _ ⦃py : Python⦄ (Kind : List HarnessTool → Type 0)
    (scoped_Kind : (scope : Option (List String × Bool)) (tools : List HarnessTool)
      → Kind tools
      → Kind (within_scope scope tools))
    (out : Outside) (mode : AgentMode) (tools : List HarnessTool) (h : Kind tools) (run_id : String)
    (result : List HarnessTool × List String) where
  resolve_work-Kind :
      (bounded : List HarnessTool) (work : Work) (m n : Machine)
      → Kind bounded
      → resolve_work out run_id bounded work m ≡ (ok result, n)
      → Kind result.0
  resolve_work-Kind bounded work m n within is =
      let (answered, m1, had, more) =
        first_returned (answer_calls out bounded work work.calls)
          (λ answered.
            record_rows out (some run_id) (answers_row work answered.1 ∷ [])
            >> pure (bounded, answered.0))
          m n result is in
      let (u, m2, wrote, ends) =
        first_returned (record_rows out (some run_id) (answers_row work answered.1 ∷ []))
          (λ _. pure (bounded, answered.0)) m1 n result more in
      rw (returned_pair bounded result.0 answered.0 result.1 m2 n ends) within

  resolve_left-Kind :
      (left : Option Work) (scope : Option (List String × Bool)) (m n : Machine)
      → resolve_left out run_id tools left scope m ≡ (ok result, n)
      → Kind result.0
  resolve_left-Kind none scope m n is =
      rw (returned_pair {B = List String} tools result.0 [] result.1 m n is) h
  resolve_left-Kind (some work) scope m n is =
      resolve_work-Kind (within_scope scope tools) work m n (scoped_Kind scope tools h) is

  resolve_rows-Kind :
      (rows : List Fields) (m n : Machine)
      → resolve_rows out mode tools run_id rows m ≡ (ok result, n)
      → Kind result.0
  resolve_rows-Kind rows m n is =
      let (left, m1, had, more) =
        first_returned (lift (unresolved mode rows))
          (λ left. lift (approval_tool_scope rows) >>= resolve_left out run_id tools left) m n
          result is in
      let (scope, m2, has, ends) =
        first_returned (lift (approval_tool_scope rows)) (resolve_left out run_id tools left) m1 n
          result more in
      resolve_left-Kind left scope m2 n ends

  resolve_if-Kind :
      (left : Option Work) (m n : Machine)
      → resolve_if out mode tools run_id left m ≡ (ok result, n)
      → Kind result.0
  resolve_if-Kind none m n is =
      rw (returned_pair {B = List String} tools result.0 [] result.1 m n is) h
  resolve_if-Kind (some work) m n is =
      let (u, m1, locked, more) =
        first_returned (on_session (lock (λ s. (ok tt, s))))
          (λ _. thread_rows >>= resolve_rows out mode tools run_id) m n result is in
      let (rows, m2, had, ends) =
        first_returned thread_rows (resolve_rows out mode tools run_id) m1 n result more in
      resolve_rows-Kind rows m2 n ends

  resolve_approvals-Kind :
      (m n : Machine) → resolve_approvals out mode tools run_id m ≡ (ok result, n) → Kind result.0
  unfolding resolve_approvals
  resolve_approvals-Kind m n is =
      let (rows, m1, had, more) =
        first_returned thread_rows
          (λ rows. lift (unresolved mode rows) >>= resolve_if out mode tools run_id) m n result
          is in
      let (left, m2, is_left, ends) =
        first_returned (lift (unresolved mode rows)) (resolve_if out mode tools run_id) m1 n result
          more in
      resolve_if-Kind left m2 n ends

pub on_session-ok :
    {A : Type 0} (f : Exec Session A) (m n : Machine) (a : A)
    → on_session f m ≡ (ok a, n)
    → f m.session ≡ (ok a, (f m.session).1)
on_session-ok f m n a is = ap (λ r. (r, (f m.session).1)) (ap (λ c. c.0) is)

-- What a turn is offered is of any kind that its first offer has and that a scope keeps.
pub prepare-Kind :
    ⦃py : Python⦄ (Kind : List HarnessTool → Type 0) (out : Outside) (rt : AgentRuntime)
    (sent : Sent) (s : Setup) (m n : Machine) (t : Turn) (called : List String)
    → ((scope : Option (List String × Bool)) (tools : List HarnessTool)
        → Kind tools
        → Kind (within_scope scope tools))
    → ((scope : Option (List String × Bool)) (tools : List HarnessTool)
        → Kind tools
        → Kind (bound_by s.mode scope tools))
    → ((tools : List HarnessTool)
        → offered_to rt s.mode sent.tool_names m.session
          ≡ (ok tools, (offered_to rt s.mode sent.tool_names m.session).1)
        → Kind tools)
    → prepare out rt sent s m ≡ (ok (t, called), n)
    → Kind t.offered
unfolding prepare
prepare-Kind Kind out rt sent s m n t called scopes bounds first is =
    let (tools, m1, offers, more) =
      first_returned (on_session (offered_to rt s.mode sent.tool_names)) (resume out sent s) m n
        (t, called) is in
    let within =
      first tools (on_session-ok (offered_to rt s.mode sent.tool_names) m m1 tools offers) in
    let (rows, m2, had, more2) =
      first_returned thread_rows (resume_after out sent s tools) m1 n (t, called) more in
    let (scope, m3, its, more3) =
      first_returned (lift (approval_tool_scope rows)) (resume_within out sent s tools) m2 n
        (t, called) more2 in
    let (left, m4, resolved, more4) =
      first_returned (resolve_approvals out s.mode (bound_by s.mode scope tools) s.run_id)
        (resume_with out sent s) m3 n (t, called) more3 in
    let (u, m5, wrote, ends) =
      first_returned (record_prompt out s.run_id sent.prompt s.attachments)
        (λ _. pure (turn_of s sent.schema left.0, left.1)) m4 n (t, called) more4 in
    let same : t ≡ turn_of s sent.schema left.0 =
      returned_pair (turn_of s sent.schema left.0) t left.1 called m5 n ends in
    rw same (
      resolve_approvals-Kind Kind scopes out s.mode (bound_by s.mode scope tools)
        (bounds scope tools within) s.run_id left m3 m4 resolved)

-- Where a strict registry of tools is built by the operations, and requests are narrowed (or the agent
-- is named), a turn in a mode that has no star is offered only tools that the mode lists, whatever tools
-- the caller asked for, what providers and factories made, what the policy offered, and what approvals
-- were resolved.
pub prepare-AreWithin :
    ⦃py : Python⦄ (out : Outside) (rt : AgentRuntime) (sent : Sent) (s : Setup) (m n : Machine)
    (t : Turn) (called : List String)
    → Built rt.tools
    → is_strict rt.tools ≡ true
    → is_narrowing rt ≡ true
    → is_in "*" s.mode.tools ≡ false
    → prepare out rt sent s m ≡ (ok (t, called), n)
    → AreWithin s.mode.tools t.offered
prepare-AreWithin out rt sent s m n t called built strict narrow closed =
    prepare-Kind (AreWithin s.mode.tools) out rt sent s m n t called
      (within_scope-AreWithin s.mode.tools) (bound_by-AreWithin s.mode.tools s.mode)
      (λ tools.
        offered_to-AreWithin rt s.mode built strict narrow closed sent.tool_names tools m.session
          (offered_to rt s.mode sent.tool_names m.session).1)
