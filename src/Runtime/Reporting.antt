-- ===== src/Runtime/Reporting.antt =====
-- A turn that raises has changed nothing, or has reported that its run failed.
use prism_harness_py.Tools.Authorizer.{AgentOptions, ToolAuthorizer}
use prism_harness_py.Runtime.Starting.{start-err, IsUntouched}
use prism_harness_py.Prelude.{
  ℕ, String, false, Option, none, some, List, ◌∷◌, ◌≡◌, ◌⊎◌, inl, inr, refl, sym, ◌∙◌, ap,
  Bool-cases,
}
use prism_harness_py.Errors.{Error}
use prism_harness_py.Python.{Python}
use prism_harness_py.Result.{Result, ok, err, Result-cases}
use prism_harness_py.Exec.{Exec, raise, modify, ◌>>◌, Exec-cases, after_ok, after_err}
use prism_harness_py.Session.{
  Session, fail_run, run, state, write, finish_from, is_run, run_in, state_of, failed,
}
use prism_harness_py.Value.{Value, Fields, get}
use prism_harness_py.Runtime.Data.{AgentResponse, Event, run_failed, Machine, Outside}
use prism_harness_py.Runtime.Steps.{emit}
use prism_harness_py.Runtime.Offering.{scoped, AgentRuntime}
use prism_harness_py.Runtime.Turning.{prepare}
use prism_harness_py.Runtime.Opening.{Sent, Setup}
use prism_harness_py.Runtime.Sending.{
  guarded, failure_text, failed_event, fail_session, fail, caught, loop_from, begun, start,
  turn_with, turn,
}

-- What `fail_run` is for a session: it returns where the session may be written, and keeps that.
abbrev Reports : Exec Session (Unit {0}) → Session → Type 0
Reports f s =
    (s.resolution_only ≡ false → (f s).0 ≡ ok tt) × ((f s).1.resolution_only ≡ s.resolution_only)

write-Reports : (k : String) (v : Value) (s : Session) → Reports (write k v) s
unfolding state
write-Reports k v s = elim (Bool-cases s.resolution_only) [
  | inl view ↦ rw view (λ free. cc, refl)
  | inr live ↦ rw live (λ free. refl, refl)
]

finish_from-Reports :
    (run_id status at : String) (extra : Fields) (current : Option Fields) (s : Session)
    → Reports (finish_from run_id status extra at current) s
finish_from-Reports run_id status at extra none s = write-Reports "run" _ s
finish_from-Reports run_id status at extra (some d) s = elim (Bool-cases (is_run run_id d)) [
  | inl its ↦ rw (its, finish_from) (write-Reports "run" _ s)
  | inr other ↦ rw (other, finish_from) (λ free. refl, refl)
]

fail_run-Reports :
    (run_id failure at : String) (s : Session) → Reports (fail_run run_id failure at) s
unfolding fail_run run state
fail_run-Reports run_id failure at s =
    let read = record s { cached = some (state_of s) } in
    finish_from-Reports run_id "failed" at (failed failure) (run_in (get "run" (state_of s))) read

abbrev then_raise : Setup → (failure : String) → Error → Unit {0} → Exec Machine AgentResponse
then_raise s failure e _ = modify (λ m. emit (failed_event s failure m) m) >> raise e

fail-reports :
    (out : Outside) (s : Setup) (e e' : Error) (m n : Machine)
    → fail out s e m ≡ (err e', n)
    → n.session.resolution_only ≡ false
    → n.events
      ≡ run_failed s.run_id n.session.key (failure_text out.error_text e') n.ledger.steps ∷ m.events
unfolding fail
fail-reports out s e e' m n h free =
    let text = failure_text out.error_text e in
    let (may, view) = fail_run-Reports s.run_id text (out.stamp m.clock) m.session in
    elim (Exec-cases (fail_session out s text) m) [
      | inl (u, o, is) ↦
          let ends : (err e', n) ≡ (err e, emit (failed_event s text o) o) =
            sym h ∙ after_ok (fail_session out s text) (then_raise s text e) m o u is in
          let same : n ≡ emit (failed_event s text o) o = ap (λ p. p.1) ends in
          let error : e' ≡ e = cc (ap (λ p. p.0) ends) in
          let kept : o.events ≡ m.events = sym (ap (λ p. p.1.events) is) in
          rw (error, same, kept) refl
      | inr (e0, o, is) ↦
          let ends : (err e', n) ≡ (err e0, o) =
            sym h ∙ after_err (fail_session out s text) (then_raise s text e) m o e0 is in
          let stays : m.session.resolution_only ≡ false =
            sym view
            ∙ ap (λ p. p.1.session.resolution_only) is
            ∙ ap (λ p. p.1.session.resolution_only) (sym ends)
            ∙ free in
          let wrong : err e0 ≡ ok tt = ap (λ p. p.0) (sym is) ∙ may stays in cc
    ]

caught-err :
    (out : Outside) (s : Setup) (ran : Option (Result AgentResponse × Machine)) (e : Error)
    (n : Machine)
    → caught out s ran ≡ some (err e, n)
    → (e0 : Error) × (m : Machine) × (fail out s e0 m ≡ (err e, n))
caught-err out s none e n h = cc
caught-err out s (some (ok response, m)) e n h = cc
caught-err out s (some (err e0, m)) e n h = (e0, m, cc)

-- The newest event tells of a run that failed, with what the error is called.
abbrev pub Reported : (error_text : Error → String) → Error → Machine → Type 0
Reported error_text e n =
    (run_id : String) × (before : List Event) × (n.events
      ≡ run_failed run_id n.session.key (failure_text error_text e) n.ledger.steps ∷ before)

begun-err :
    ⦃py : Python⦄ (out : Outside) (rt : AgentRuntime) (sent : Sent) (fuel : ℕ)
    (p : Result Setup × Machine) (m n : Machine) (e : Error)
    → ((o : Machine) (e0 : Error) → p ≡ (err e0, o) → IsUntouched m o)
    → begun out rt sent fuel p ≡ some (err e, n)
    → n.session.resolution_only ≡ false
    → IsUntouched m n ⊎ Reported out.error_text e n
begun-err out rt sent fuel (err e0, o) m n e first h free =
    let same : n ≡ o = cc in inl (rw same (first o e0 refl))
begun-err out rt sent fuel (ok s, o) m n e first h free =
    let (e0, k, is) = caught-err out s (loop_from out fuel (prepare out rt sent s o)) e n h in
    inr (s.run_id, k.events, fail-reports out s e0 e k n is free)

turn_with-reports :
    ⦃py : Python⦄ (out : Outside) (rt : AgentRuntime) (sent : Sent) (fuel : ℕ) (m n : Machine)
    (e : Error)
    → turn_with out rt sent fuel m ≡ some (err e, n)
    → n.session.resolution_only ≡ false
    → IsUntouched m n ⊎ Reported out.error_text e n
unfolding turn_with
turn_with-reports out rt sent fuel m n e h free =
    begun-err out rt sent fuel (start out rt sent m) m n e
      (λ o e0 is. start-err out rt sent m o e0 is) h free

guarded-text :
    (out : Outside) (agent : Option String)
    (authorizer : Option (ToolAuthorizer Machine × List (String × AgentOptions Machine)))
    → (guarded out agent authorizer).error_text ≡ out.error_text
guarded-text out agent none = refl
guarded-text out agent (some root) = elim (Result-cases (scoped agent root)) [
  | inl (a, is) ↦ rw is refl
  | inr (e, is) ↦ rw is refl
]

-- A turn that raises, in a session that may be written, either did not begin its run, and then no event
-- was emitted and neither store has changed, or its newest event says that a run failed, with the code
-- of an error that holds the model's document and the text of any other.
pub turn-reports :
    ⦃py : Python⦄ (out : Outside) (rt : AgentRuntime) (sent : Sent) (fuel : ℕ) (m n : Machine)
    (e : Error)
    → turn out rt sent fuel m ≡ some (err e, n)
    → n.session.resolution_only ≡ false
    → IsUntouched m n ⊎ Reported out.error_text e n
unfolding turn
turn-reports out rt sent fuel m n e h free =
    rw (← guarded-text out rt.agent rt.authorizer)
      (turn_with-reports (guarded out rt.agent rt.authorizer) rt sent fuel m n e h free)
