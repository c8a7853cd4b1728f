-- ===== src/Tasks/Histories.antt =====
-- What holds over every history of actions (Tasks/Steps.antt): an outcome is final, and a live lease
-- keeps a task from every other worker.
use prism_harness_py.Prelude.{
  ℕ, ◌≤◌, String, true, false, Option, none, some, ◌≡◌, ◌≢◌, refl, sym, ap, ◌∙◌, arith, eq_iff,
}
use prism_harness_py.Value.{Value, null, bool, int, float, str, arr, obj, Fields, get}
use prism_harness_py.Result.{ok}
use prism_harness_py.Store.{World}
use prism_harness_py.Python.{Python}
use prism_harness_py.Tasks.State.{
  TaskState, todo, claimed, done, failed, is_terminal, state_of_text, value,
}
use prism_harness_py.Tasks.Record.{state_of, lapsed, expire_record, passed}
use prism_harness_py.Tasks.Listing.{find_first, has_id, is_todo}
use prism_harness_py.Tasks.Source.{Source}
use prism_harness_py.Tasks.Expiry.{expire_record_live}
use prism_harness_py.Tasks.Written.{held_in}
use prism_harness_py.Tasks.Releasing.{IsHeldBy}
use prism_harness_py.Tasks.Steps.{actor, Reach, here, next}
use prism_harness_py.Tasks.Change.{Change, kept, expired, settled, extended}
use prism_harness_py.Tasks.Acting.{act-Becomes, clock-act}

state_of_text-eq : (t : String) (s : TaskState) → state_of_text t ≡ some s → t ≡ value s
unfolding state_of_text
state_of_text-eq t s h =
    ground (arith, eq_iff t "todo", eq_iff t "claimed", eq_iff t "done", eq_iff t "failed")

-- What the stored state says, in words.
pub state_of-text :
    (r : Fields) (s : TaskState) → state_of r ≡ ok s → get "state" r ≡ some (str (value s))
unfolding state_of
state_of-text r s h = in_words (get "state" r) refl
  where
    in_words : (o : Option Value) → get "state" r ≡ o → get "state" r ≡ some (str (value s))
    in_words none e = ground arith
    in_words (some null) e = ground arith
    in_words (some (bool b)) e = ground arith
    in_words (some (int n)) e = ground arith
    in_words (some (float n)) e = ground arith
    in_words (some (str t)) e =
        let read : state_of_text t ≡ some s = ground arith in
        e ∙ ap (λ u. some (str u)) (state_of_text-eq t s read)
    in_words (some (arr vs)) e = ground arith
    in_words (some (obj d)) e = ground arith

passed_earlier : (o : Option Value) (m n : ℕ) → m ≤ n → passed o n ≡ false → passed o m ≡ false
passed_earlier (some (int u)) m n h live = ground arith
passed_earlier (some (float t)) m n h live = ground arith
passed_earlier _ m n h live = refl

-- A lease that is live later is live now.
lapsed_earlier : (r : Fields) (m n : ℕ) → m ≤ n → lapsed n r ≡ false → lapsed m r ≡ false
unfolding lapsed
lapsed_earlier r m n h live = ground (arith, passed_earlier (get "claimed_until" r) m n h)

-- Only a claimed record lapses.
settled_live :
    (r : Fields) (s : TaskState) (now : ℕ)
    → state_of r ≡ ok s
    → is_terminal s ≡ true
    → (lapsed now r ≡ false) × (is_todo r ≡ false)
unfolding lapsed
settled_live r todo now is terminal = cc
settled_live r claimed now is terminal = cc
settled_live r done now is terminal = let words = state_of-text r done is in ground arith
settled_live r failed now is terminal = let words = state_of-text r failed is in ground arith

-- A record that is settled makes no change at all.
settled_stays :
    (r r' : Fields) (s : TaskState) {by : Option String} {now : ℕ}
    → state_of r ≡ ok s
    → is_terminal s ≡ true
    → Change by now r r'
    → r' ≡ r
settled_stays r r' s {now = now} is terminal c =
    let (live, not_todo) = settled_live r s now is terminal in
    let same = expire_record_live now r live in go same not_todo c
  where
    not_held : (worker : String) → IsHeldBy worker r → ⊥
    not_held worker held = cc

    go :
        {by : Option String}
        → expire_record now r ≡ r
        → is_todo r ≡ false
        → Change by now r r'
        → r' ≡ r
    go same not_todo (kept e) = e
    go same not_todo (expired e) = e ∙ same
    go same not_todo (Change.claimed worker lease by free e) =
        absurd (cc (sym not_todo ∙ (rw same at free)))
    go same not_todo (settled worker outcome by held e) = absurd (not_held worker (rw same at held))
    go same not_todo (extended worker granted by held e) =
        absurd (not_held worker (rw same at held))

-- The record that the store holds under an id.
abbrev pub Holds : Source → (id : String) → Fields → World → Type 0
Holds source id r w = find_first (has_id id) (held_in source w) ≡ some r

module _ ⦃py : Python⦄ (source : Source) (id : String) where
  -- Once a task is done or failed its record never changes again: whatever the workers do after,
  -- with whatever leases, and however the clock moves.
  pub outcome_final :
      {s : World} {Excluded : String → Type 0} {t : World}
      → Reach source Excluded s t
      → (r : Fields) (outcome : TaskState) → Holds source id r s
      → state_of r ≡ ok outcome
      → is_terminal outcome ≡ true
      → Holds source id r t
  outcome_final here r outcome held is terminal = held
  outcome_final (next {t = u} path a allowed others) r outcome held is terminal =
      let before = outcome_final path r outcome held is terminal in
      let b = act-Becomes source id r u before a allowed in
      b.found ∙ ap some (settled_stays r b.result outcome is terminal b.change)

  clock-Reach :
      {s : World} {Excluded : String → Type 0} {t : World}
      → Reach source Excluded s t
      → s.clock ≤ t.clock
  clock-Reach here = omega arith
  clock-Reach (next {t = u} path a allowed others) =
      omega (arith, clock-Reach path, clock-act source u a allowed)

  -- A change of a record that its holder's lease still covers is the holder's own.
  held_stays :
      (worker : String) (r r' : Fields) (by : Option String) (now : ℕ)
      → IsHeldBy worker r
      → lapsed now r ≡ false
      → ((v : String) → by ≡ some v → v ≢ worker)
      → Change by now r r'
      → r' ≡ r
  held_stays worker r r' by now held live others c =
      go (expire_record_live now r live) (state_of-text r claimed held.0) c
    where
      not_other : (v : String) → by ≡ some v → IsHeldBy v r → ⊥
      not_other v acts theirs = others v acts (cc theirs.1)

      go :
          expire_record now r ≡ r
          → get "state" r ≡ some (str "claimed")
          → Change by now r r'
          → r' ≡ r
      go same words (kept e) = e
      go same words (expired e) = e ∙ same
      go same words (Change.claimed v lease acts free e) =
          let todo_too = rw same at free in ground arith
      go same words (settled v outcome acts theirs e) =
          absurd (not_other v acts (rw same at theirs))
      go same words (extended v granted acts theirs e) =
          absurd (not_other v acts (rw same at theirs))

  -- While the lease of a task's holder is live, no history of other workers' actions touches the
  -- task's record: it is not claimed again, released, extended or expired.
  pub lease_excludes :
      (worker : String) {s t : World}
      → Reach source (λ v. v ≡ worker) s t
      → (r : Fields) → Holds source id r s
      → IsHeldBy worker r
      → lapsed t.clock r ≡ false
      → Holds source id r t
  lease_excludes worker here r held by live = held
  lease_excludes worker (next {t = u} path a allowed others) r held by live =
      let still = lapsed_earlier r u.clock _ (clock-act source u a allowed) live in
      let before = lease_excludes worker path r held by still in
      let b = act-Becomes source id r u before a allowed in
      b.found ∙ ap some (held_stays worker r b.result (actor a) u.clock by still others b.change)
