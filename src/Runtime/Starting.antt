-- ===== src/Runtime/Starting.antt =====
-- What comes before a run begins changes no store and tells nobody.
use prism_harness_py.Modes.Mode.{AgentMode}
use prism_harness_py.Attachments.{admit_attachments}
use prism_harness_py.Subagents.{too_deep, RunContext}
use prism_harness_py.Prelude.{
  String, true, false, Option, List, ◌≡◌, inl, inr, refl, sym, ◌∙◌, ap, Bool-cases, Option-cases,
}
use prism_harness_py.Errors.{value_error, Error}
use prism_harness_py.Python.{Python}
use prism_harness_py.Result.{ok, err}
use prism_harness_py.Exec.{
  Exec, raise_if, pure, lift, modify, ◌>>=◌, ◌>>◌, Exec-cases, after_ok, after_err,
}
use prism_harness_py.Session
use prism_harness_py.Session.{
  assert_writable, begin_run, read_str, Session, fail_run, run, state, write, finish_from, is_run,
  run_in, state_of, failed,
}
use prism_harness_py.Modes.Resolution
use prism_harness_py.Value.{Fields}
use prism_harness_py.Runtime.Data.{Machine, Outside}
use prism_harness_py.Runtime.Steps.{on_session, emit}
use prism_harness_py.Runtime.Offering.{AgentRuntime}
use prism_harness_py.Runtime.Opening.{
  begin_session, started_event, nested_too_deep, setup_of, draw_run, settle, check_run, set_up_run,
  choose_mode, Sent, Setup, set_up, begin,
}
use prism_harness_py.Runtime.Sending.{start}

-- No event, and nothing in either store.
pub record IsUntouched (m n : Machine) : Type 0 where
  pub events : n.events ≡ m.events
  pub ephemeral : n.session.ephemeral ≡ m.session.ephemeral
  pub durable : n.session.durable ≡ m.session.durable

IsUntouched-self : (m : Machine) → IsUntouched m m
IsUntouched-self m = record { events = refl; ephemeral = refl; durable = refl }

IsUntouched-trans : (l m n : Machine) → IsUntouched l m → IsUntouched m n → IsUntouched l n
IsUntouched-trans l m n h k = record {
  events = k.events ∙ h.events;
  ephemeral = k.ephemeral ∙ h.ephemeral;
  durable = k.durable ∙ h.durable;
}

abbrev Leaves : {A : Type 0} → Exec Machine A → Type 0
Leaves f = (m : Machine) → IsUntouched m (f m).1

Leaves-bind :
    {A B : Type 0} (f : Exec Machine A) (g : A → Exec Machine B)
    → Leaves f
    → ((a : A) → Leaves (g a))
    → Leaves (f >>= g)
Leaves-bind f g h k m = elim (Exec-cases f m) [
  | inl (a, n, is) ↦
      let first : IsUntouched m n = rw (← ap (λ p. p.1) is) (h m) in
      rw (after_ok f g m n a is) (IsUntouched-trans m n (g a n).1 first (k a n))
  | inr (e, n, is) ↦ rw (after_err f g m n e is) (rw (← ap (λ p. p.1) is) (h m))
]

on_session-Leaves :
    {A : Type 0} (f : Exec Session A)
    → ((s : Session) → ((f s).1.ephemeral ≡ s.ephemeral) × ((f s).1.durable ≡ s.durable))
    → Leaves (on_session f)
on_session-Leaves f keeps m = record {
  events = refl;
  ephemeral = (keeps m.session).0;
  durable = (keeps m.session).1;
}

mode-keeps :
    (s : Session)
    → ((Session.mode s).1.ephemeral ≡ s.ephemeral) × ((Session.mode s).1.durable ≡ s.durable)
unfolding Session.mode state
mode-keeps s = elim (Option-cases s.resolved_mode) [
  | inl own ↦ rw own (refl, refl)
  | inr (mode, is) ↦ rw is (refl, refl)
]

choose_mode-Leaves : (rt : AgentRuntime) → Leaves (choose_mode rt)
choose_mode-Leaves rt =
    Leaves-bind (on_session Session.mode) (λ wanted. lift (Resolution.resolve wanted rt.modes))
      (on_session-Leaves Session.mode mode-keeps) (λ wanted m. IsUntouched-self m)

draw_run-Leaves :
    (out : Outside) (rt : AgentRuntime) (context : Option RunContext) (mode : AgentMode)
    → Leaves (draw_run out rt context mode)
draw_run-Leaves out rt context mode m = record { events = refl; ephemeral = refl; durable = refl }

check_run-Leaves : (context : RunContext) → Leaves (check_run context)
check_run-Leaves context =
    Leaves-bind (on_session assert_writable) (λ u. raise_if (too_deep context) nested_too_deep)
      (λ m. IsUntouched-self m) (λ u m. IsUntouched-self m)

read-keeps :
    (key : String) (s : Session)
    → ((read_str key s).1.ephemeral ≡ s.ephemeral) × ((read_str key s).1.durable ≡ s.durable)
unfolding state
read-keeps key s = (refl, refl)

abbrev read_only : Error
read_only = value_error "Harness tool resolution is read-only."

begin_run-view :
    (run_id mode provider model at : String) (s : Session)
    → s.resolution_only ≡ true
    → begin_run run_id mode provider model at s ≡ (err read_only, s)
unfolding begin_run
begin_run-view run_id mode provider model at s view = rw view refl

begin_run-live :
    (run_id mode provider model at : String) (s : Session)
    → s.resolution_only ≡ false
    → (t : Session) × (begin_run run_id mode provider model at s ≡ (ok tt, t))
unfolding begin_run state
begin_run-live run_id mode provider model at s live =
    ((begin_run run_id mode provider model at s).1, rw live refl)

module _ (out : Outside) (rt : AgentRuntime) where
  settle-Leaves :
      (context : Option RunContext) (attachments : List Fields) (mode : AgentMode)
      (provider model : Option String)
      → Leaves (settle out rt context attachments mode provider model)
  settle-Leaves context attachments mode provider model =
      Leaves-bind (draw_run out rt context mode)
        (λ drawn. check_run drawn.1 >> pure (setup_of rt attachments mode provider model drawn))
        (draw_run-Leaves out rt context mode)
        (λ drawn.
          Leaves-bind (check_run drawn.1)
            (λ u. pure (setup_of rt attachments mode provider model drawn))
            (check_run-Leaves drawn.1) (λ u m. IsUntouched-self m))

  set_up_run-Leaves :
      (context : Option RunContext) (attachments : List Fields) (mode : AgentMode)
      → Leaves (set_up_run out rt context attachments mode)
  unfolding Session.provider Session.model
  set_up_run-Leaves context attachments mode =
      Leaves-bind (on_session Session.provider)
        (λ provider. on_session Session.model >>= settle out rt context attachments mode provider)
        (on_session-Leaves Session.provider (read-keeps "provider"))
        (λ provider.
          Leaves-bind (on_session Session.model) (settle out rt context attachments mode provider)
            (on_session-Leaves Session.model (read-keeps "model"))
            (settle-Leaves context attachments mode provider))

  set_up-Leaves : ⦃py : Python⦄ (sent : Sent) → Leaves (set_up out rt sent)
  unfolding set_up
  set_up-Leaves sent =
      Leaves-bind (lift (admit_attachments sent.prompt sent.additional_content))
        (λ attachments. choose_mode rt >>= set_up_run out rt sent.context attachments)
        (λ m. IsUntouched-self m)
        (λ attachments.
          Leaves-bind (choose_mode rt) (set_up_run out rt sent.context attachments)
            (choose_mode-Leaves rt) (set_up_run-Leaves sent.context attachments))

  -- A run that did not begin left everything as it was.
  begin-err : (s : Setup) (m n : Machine) (e : Error) → begin out s m ≡ (err e, n) → IsUntouched m n
  unfolding begin
  begin-err s m n e h =
      let adopted = record m { ledger = s.run.ledger } in
      let tells : Unit {0} → Exec Machine (Unit {0}) =
        λ _. modify (λ k. emit (started_event s k) k) in
      elim (Bool-cases m.session.resolution_only) [
        | inl view ↦
            let is : begin_session out s adopted ≡ (err read_only, adopted) =
              ap (λ p. (p.0, record adopted { session = p.1 }))
                (begin_run-view s.run_id s.mode.name s.provider s.model (out.stamp m.clock)
                  m.session view) in
            let same : n ≡ adopted =
              ap (λ p. p.1)
                (sym h ∙ after_err (begin_session out s) tells adopted adopted read_only is) in
            rw same (record { events = refl; ephemeral = refl; durable = refl })
        | inr live ↦
            let (k, is) =
              begin_run-live s.run_id s.mode.name s.provider s.model (out.stamp m.clock) m.session
                live in
            let is' : begin_session out s adopted ≡ (ok tt, record adopted { session = k }) =
              ap (λ p. (p.0, record adopted { session = p.1 })) is in
            cc (
              h,
              after_ok (begin_session out s) tells adopted (record adopted { session = k }) tt is',
            )
      ]

  abbrev begin_then : Setup → Exec Machine Setup
  begin_then s = begin out s >> pure s

  begin_then-err :
      (s : Setup) (m n : Machine) (e : Error) → begin_then s m ≡ (err e, n) → IsUntouched m n
  begin_then-err s m n e h = elim (Exec-cases (begin out s) m) [
    | inl (u, o, is) ↦ cc (h, after_ok (begin out s) (λ _. pure s) m o u is)
    | inr (e', o, is) ↦
        let same : n ≡ o =
          ap (λ p. p.1) (sym h ∙ after_err (begin out s) (λ _. pure s) m o e' is) in
        rw same (begin-err s m o e' is)
  ]

  pub start-err :
      ⦃py : Python⦄ (sent : Sent) (m n : Machine) (e : Error)
      → start out rt sent m ≡ (err e, n)
      → IsUntouched m n
  start-err sent m n e h = elim (Exec-cases (set_up out rt sent) m) [
    | inl (s, o, is) ↦
        let first : IsUntouched m o = rw (← ap (λ p. p.1) is) (set_up-Leaves sent m) in
        let rest =
          begin_then-err s o n e (sym (after_ok (set_up out rt sent) begin_then m o s is) ∙ h) in
        IsUntouched-trans m o n first rest
    | inr (e', o, is) ↦
        let same : n ≡ o =
          ap (λ p. p.1) (sym h ∙ after_err (set_up out rt sent) begin_then m o e' is) in
        let first : IsUntouched m o = rw (← ap (λ p. p.1) is) (set_up-Leaves sent m) in
        rw same first
  ]
