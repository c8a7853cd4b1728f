-- ===== src/Tasks/Atomic.antt =====
-- An operation that raises has changed nothing, and an outcome is recorded only by its holder.
use prism_harness_py.Prelude.{
  ℕ, String, true, false, Option, some, List, ◌≡◌, ◌⊎◌, inl, inr, refl, sym, ap, ◌∙◌, arith,
  Option-cases, Bool-cases, some_unique,
}
use prism_harness_py.Value.{null, str, int, Fields, get, is_text-eq}
use prism_harness_py.Errors.{Error}
use prism_harness_py.Result.{Result, ok, err}
use prism_harness_py.Store.{World}
use prism_harness_py.Python.{Python}
use prism_harness_py.Subagents.{RunLedger, RunBudget}
use prism_harness_py.Tasks.State.{state_of_text, TaskState, todo, claimed, is_terminal, Supplied}
use prism_harness_py.Tasks.Record.{state_of, expire_record, lapsed, timestamp}
use prism_harness_py.Tasks.Lease.{Seconds}
use prism_harness_py.Tasks.Listing.{find_first, is_todo}
use prism_harness_py.Tasks.Source.{Source, current, add_many, claim, release, extend_lease}
use prism_harness_py.Tasks.Expiry.{state_of-mark, expire_record_live}
use prism_harness_py.Tasks.Claiming.{claim-cases, take-some, take-none}
use prism_harness_py.Tasks.Releasing.{IsHeldBy, release_atomic}
use prism_harness_py.Tasks.Extending.{extend_lease-cases, extend_lease_lem, state_of-hold_record}
use prism_harness_py.Tasks.Adding.{add_many-cases}
use prism_harness_py.Tasks.Steps.{Action, actor, Allowed, act}
use prism_harness_py.Tasks.Change.{Change, kept, expired, settled, extended}
use prism_harness_py.Tasks.Acting.{act-Becomes}
use prism_harness_py.Tasks.Histories.{Holds}

-- An operation that raises leaves the world as it found it.
abbrev pub IsAtomic : {A : Type 0} → (World → Result A × World) → World → Type 0
IsAtomic m w = (e : Error) → (m w).0 ≡ err e → (m w).1 ≡ w

module _ ⦃py : Python⦄ (source : Source) (w : World) where
  add-IsAtomic :
      (instructions : List String) (ids : Option (List String))
      → IsAtomic (add_many source instructions ids) w
  add-IsAtomic instructions ids e h = elim (add_many-cases source instructions ids w) [
    | inr (e', same) ↦ ground arith
    | inl a ↦ let effect = a.effect in ground arith
  ]

  claim-IsAtomic :
      (worker : String) (seconds : Option Seconds) → IsAtomic (claim source worker seconds) w
  claim-IsAtomic worker seconds e h = elim (claim-cases source worker seconds w) [
    | inr (e', same) ↦ ground arith
    | inl (lease, leased, step) ↦ elim (Option-cases (find_first is_todo (current source w))) [
      | inl nothing ↦ let effect = take-none source worker seconds w lease nothing in ground arith
      | inr (target, found) ↦
          let effect = take-some source worker seconds w lease target found in ground arith
    ]
  ]

  extend-IsAtomic :
      (id worker : String) (ledger : RunLedger) (budget : RunBudget) (first second : ℕ)
      (seconds : Option Seconds)
      → IsAtomic (extend_lease source id worker ledger budget first second seconds) w
  extend-IsAtomic id worker ledger budget one two seconds e h =
      elim (extend_lease-cases source id worker ledger budget one two seconds w) [
        | inr (e', same) ↦ ground arith
        | inl x ↦
            let effect = extend_lease_lem source id worker ledger budget one two seconds w x in
            ground arith
      ]

  release-IsAtomic :
      (id worker : String) (outcome : Supplied) → IsAtomic (release source id worker outcome) w
  release-IsAtomic id worker outcome e h = release_atomic source id worker outcome w h

  -- Each of the four operations that write (add_many, claim, release, extend_lease), called with any
  -- arguments, leaves the store exactly as it was whenever it raises, whatever it raises.
  pub raising_changes_nothing :
      ((instructions : List String) (ids : Option (List String))
        → IsAtomic (add_many source instructions ids) w)
      × ((worker : String) (seconds : Option Seconds) → IsAtomic (claim source worker seconds) w)
      × ((id worker : String) (outcome : Supplied) → IsAtomic (release source id worker outcome) w)
      × ((id worker : String) (ledger : RunLedger) (budget : RunBudget) (first second : ℕ)
            (seconds : Option Seconds)
          → IsAtomic (extend_lease source id worker ledger budget first second seconds) w)
  raising_changes_nothing = (add-IsAtomic, claim-IsAtomic, release-IsAtomic, extend-IsAtomic)

-- A lapsed record goes back to todo, and to no other state.
state_of-lapsed :
    (now : ℕ) (r : Fields) → lapsed now r ≡ true → state_of (expire_record now r) ≡ ok todo
unfolding expire_record
state_of-lapsed now r over = rw over (state_of-mark todo null null r)

lapsed_words : (now : ℕ) (r : Fields) → lapsed now r ≡ true → get "state" r ≡ some (str "claimed")
unfolding lapsed
lapsed_words now r over = is_text-eq (get "state" r) "claimed" (ground arith)

claimed_only :
    (r : Fields) (s : TaskState)
    → get "state" r ≡ some (str "claimed")
    → state_of r ≡ ok s
    → s ≡ claimed
unfolding state_of state_of_text
claimed_only r s words is = ground arith

-- A record changed into a settled one was settled before, or live in the hands of who acts.
earned :
    (by : Option String) (now : ℕ) (r r' : Fields) (outcome : TaskState)
    → state_of r' ≡ ok outcome
    → is_terminal outcome ≡ true
    → Change by now r r'
    → (state_of r ≡ ok outcome)
      ⊎ ((worker : String) × (by ≡ some worker) × IsHeldBy worker r × (lapsed now r ≡ false))
earned by now r r' outcome is terminal c = elim (Bool-cases (lapsed now r)) [
  | inl over ↦ absurd (over_not over (state_of-lapsed now r over) c)
  | inr live ↦ in_hand live (expire_record_live now r live) c
]
  where
    not_open : (s : TaskState) → state_of r' ≡ ok s → is_terminal s ≡ false → ⊥
    not_open s e open' =
        let same : outcome ≡ s = cc in cc (sym terminal ∙ (ap is_terminal same ∙ open'))

    over_not :
        lapsed now r ≡ true → state_of (expire_record now r) ≡ ok todo → Change by now r r' → ⊥
    over_not over back (kept e) =
        let words = lapsed_words now r over in
        let before : state_of r ≡ ok outcome = ap state_of (sym e) ∙ is in
        let same : outcome ≡ claimed = claimed_only r outcome words before in
        cc (sym terminal ∙ ap is_terminal same)
    over_not over back (expired e) = not_open todo (ap state_of e ∙ back) refl
    over_not over back (Change.claimed v lease acts free e) =
        not_open claimed
          (ap state_of e ∙ state_of-mark claimed (str v) (int (timestamp now lease)) _) refl
    over_not over back (settled v o acts held e) =
        let two : ok todo ≡ ok claimed = sym back ∙ held.0 in cc
    over_not over back (extended v granted acts held e) =
        let two : ok todo ≡ ok claimed = sym back ∙ held.0 in cc

    in_hand :
        lapsed now r ≡ false
        → expire_record now r ≡ r
        → Change by now r r'
        → (state_of r ≡ ok outcome)
          ⊎ ((worker : String) × (by ≡ some worker) × IsHeldBy worker r × (lapsed now r ≡ false))
    in_hand live same (kept e) = inl (ap state_of (sym e) ∙ is)
    in_hand live same (expired e) = inl (ap state_of (sym (e ∙ same)) ∙ is)
    in_hand live same (Change.claimed v lease acts free e) = absurd (
        not_open claimed
          (ap state_of e ∙ state_of-mark claimed (str v) (int (timestamp now lease)) _) refl)
    in_hand live same (settled v o acts held e) = inr (v, acts, rw same at held, live)
    in_hand live same (extended v granted acts held e) = absurd (
        not_open claimed
          (ap state_of e ∙ (state_of-hold_record now granted (expire_record now r) ∙ held.0)) refl)

module _ ⦃py : Python⦄ (source : Source) where
  -- Whatever the action, if the record under an id is done or failed after it, then it had that very
  -- outcome before, or the action was by the worker who held the record's live lease. So no expiry,
  -- no claim, no addition and no other worker ever settles a task.
  pub outcome_earned :
      (a : Action) (id : String) (r r' : Fields) (w : World) (outcome : TaskState)
      → Allowed source w a
      → Holds source id r w
      → Holds source id r' (act source a w)
      → state_of r' ≡ ok outcome
      → is_terminal outcome ≡ true
      → (state_of r ≡ ok outcome)
        ⊎ ((worker : String) × (actor a ≡ some worker)
            × IsHeldBy worker r
            × (lapsed w.clock r ≡ false))
  outcome_earned a id r r' w outcome allowed before after is terminal =
      let b = act-Becomes source id r w before a allowed in
      let same : b.result ≡ r' = some_unique b.found after in
      earned (actor a) w.clock r b.result outcome (ap state_of same ∙ is) terminal b.change
