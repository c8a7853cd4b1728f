-- ===== src/Tasks/Acting.antt =====
-- Every action of a history makes one of the changes of Tasks/Change.antt to a task's record.
use prism_harness_py.Prelude.{
  ℕ, ◌≤◌, String, Bool, true, Option, none, some, List, ◌≡◌, inl, inr, refl, ap, ◌∙◌, arith,
  some_unique,
}
use prism_harness_py.Value.{null, str, int, Fields}
use prism_harness_py.Store.{World}
use prism_harness_py.Python.{Python}
use prism_harness_py.Subagents.{RunLedger, RunBudget}
use prism_harness_py.Tasks.State.{Supplied, value, state}
use prism_harness_py.Tasks.Record.{expire_record, expire, timestamp}
use prism_harness_py.Tasks.Lease.{Seconds}
use prism_harness_py.Tasks.Listing.{find_first, update_first, has_id, is_todo, with_ids}
use prism_harness_py.Tasks.Source.{
  Source, current, write_back, claim_record, settle_record, hold_record, release, extend_lease,
  claim, add_many,
}
use prism_harness_py.Tasks.Search.{find_first-map, find_first-append, find_first-update_first}
use prism_harness_py.Tasks.Written.{held_in, held_in-write_back, held_in-put}
use prism_harness_py.Tasks.Steps.{
  Action, add, claim_by, release_by, extend_by, tick, lock, elsewhere, actor, Allowed, act,
}
use prism_harness_py.Tasks.Change.{
  Change, kept, expired, claimed, settled, extended, Becomes, has_id-expire_record, has_id-mark,
  has_id-hold_record, append_each-grows,
}
use prism_harness_py.Tasks.Claiming.{claim-cases, take-cases}
use prism_harness_py.Tasks.Releasing.{release_lem, release-cases}
use prism_harness_py.Tasks.Extending.{extend_lease_lem, extend_lease-cases}
use prism_harness_py.Tasks.Adding.{add_many-cases}

module _ (source : Source) (id : String) (r : Fields) (w : World)
    (before : find_first (has_id id) (held_in source w) ≡ some r) where
  stays : {by : Option String} (w' : World) → w' ≡ w → Becomes source id by w.clock r w'
  stays w' e = record { result = r; found = rw e before; change = kept refl }

  found_current : find_first (has_id id) (current source w) ≡ some (expire_record w.clock r)
  unfolding expire
  found_current =
      find_first-map (has_id id) (expire_record w.clock) (λ x. has_id-expire_record id x w.clock) r
        (held_in source w) before

  expires :
      {by : Option String} (w' : World)
      → w' ≡ write_back source (current source w) w
      → Becomes source id by w.clock r w'
  expires w' e = record {
    result = expire_record w.clock r;
    found = rw (e, held_in-write_back source (current source w) w) found_current;
    change = expired refl;
  }

  -- An update of the current records by another search.
  updates :
      (q : Fields → Bool) (f : Fields → Fields)
      (keeps : (x : Fields) → has_id id (f x) ≡ has_id id x) {by : Option String} (w' : World)
      → w' ≡ write_back source (update_first q f (current source w)) w
      → (q (expire_record w.clock r) ≡ true
          → find_first q (current source w) ≡ some (expire_record w.clock r)
          → Change by w.clock r (f (expire_record w.clock r)))
      → Becomes source id by w.clock r w'
  updates q f keeps w' e changes =
      let written = held_in-write_back source (update_first q f (current source w)) w in
      elim (find_first-update_first (has_id id) q f keeps (expire_record w.clock r)
        (current source w) found_current) [
          | inl same ↦ record {
            result = expire_record w.clock r;
            found = rw (e, written) same;
            change = expired refl;
          }
          | inr (new, passes, first) ↦ record {
            result = f (expire_record w.clock r);
            found = rw (e, written) new;
            change = changes passes first;
          }
        ]

module _ ⦃py : Python⦄ (source : Source) (id : String) (r : Fields) (w : World)
    (before : find_first (has_id id) (held_in source w) ≡ some r) where
  add-Becomes :
      (instructions : List String) (ids : Option (List String))
      → Becomes source id none w.clock r (add_many source instructions ids w).1
  add-Becomes instructions ids = elim (add_many-cases source instructions ids w) [
    | inr (e, same) ↦
        stays source id r w before (add_many source instructions ids w).1 (ap (λ p. p.1) same)
    | inl a ↦
        let (extra, ends) =
          append_each-grows (held_in source w) (with_ids instructions ids) a.grown a.added
            a.looped in
        record {
          result = r;
          found =
              rw (ap (λ p. p.1) a.effect, held_in-write_back source a.grown w, ends)
                (find_first-append (has_id id) r (held_in source w) extra before);
          change = kept refl;
        }
  ]

  claim-Becomes :
      (worker : String) (seconds : Option Seconds)
      → Becomes source id (some worker) w.clock r (claim source worker seconds w).1
  claim-Becomes worker seconds = elim (claim-cases source worker seconds w) [
    | inr (e, same) ↦ stays source id r w before _ (ap (λ p. p.1) same)
    | inl (lease, leased, step) ↦ elim (take-cases source worker seconds w lease) [
      | inl same ↦ stays source id r w before _ (ap (λ p. p.1) step ∙ same)
      | inr (inl same) ↦ expires source id r w before _ (ap (λ p. p.1) step ∙ same)
      | inr (inr same) ↦
          updates source id r w before is_todo (claim_record worker w.clock lease)
            (λ x. has_id-mark id x "claimed" (str worker) (int (timestamp w.clock lease))) _
            (ap (λ p. p.1) step ∙ same) (λ passes first. claimed worker lease refl passes refl)
    ]
  ]

  release-Becomes :
      (other worker : String) (outcome : Supplied)
      → Becomes source id (some worker) w.clock r (release source other worker outcome w).1
  release-Becomes other worker outcome = elim (release-cases source other worker outcome w) [
    | inr (e, same) ↦ stays source id r w before _ (ap (λ p. p.1) same)
    | inl p ↦
        updates source id r w before (has_id other) (settle_record p.recorded)
          (λ x. has_id-mark id x (value (state p.recorded)) null null) _
          (ap (λ p. p.1) (release_lem source other worker outcome w p))
          (λ passes first.
            settled worker p.recorded refl (rw (some_unique p.found first) at p.held) refl)
  ]

  extend-Becomes :
      (other worker : String) (ledger : RunLedger) (budget : RunBudget) (first second : ℕ)
      (seconds : Option Seconds)
      → Becomes source id
          (some worker)
          w.clock
          r
          (extend_lease source other worker ledger budget first second seconds w).1
  extend-Becomes other worker ledger budget one two seconds =
      elim (extend_lease-cases source other worker ledger budget one two seconds w) [
        | inr (e, same) ↦ stays source id r w before _ (ap (λ p. p.1) same)
        | inl x ↦
            updates source id r w before (has_id other) (hold_record w.clock x.granted)
              (λ y. has_id-hold_record id y w.clock x.granted) _
              (ap (λ p. p.1)
                (extend_lease_lem source other worker ledger budget one two seconds w x))
              (λ passes first.
                extended worker x.granted refl (rw (some_unique x.found first) at x.held) refl)
      ]

  -- Whatever the action, the record keeps its place under its id and makes one of the changes.
  pub act-Becomes :
      (a : Action) → Allowed source w a → Becomes source id (actor a) w.clock r (act source a w)
  act-Becomes (add instructions ids) ok' = add-Becomes instructions ids
  act-Becomes (claim_by worker seconds) ok' = claim-Becomes worker seconds
  act-Becomes (release_by other worker outcome) ok' = release-Becomes other worker outcome
  act-Becomes (extend_by other worker ledger budget one two seconds) ok' =
      extend-Becomes other worker ledger budget one two seconds
  act-Becomes (tick n) ok' = record { result = r; found = before; change = kept refl }
  act-Becomes (lock busy) ok' = record { result = r; found = before; change = kept refl }
  act-Becomes (elsewhere key payload) apart = record {
    result = r;
    found = rw (held_in-put source key payload w apart) before;
    change = kept refl;
  }

module _ ⦃py : Python⦄ (source : Source) (w : World) where
  -- No action turns the clock back.
  pub clock-act : (a : Action) → Allowed source w a → w.clock ≤ (act source a w).clock
  clock-act (add instructions ids) ok' = elim (add_many-cases source instructions ids w) [
    | inr (e, same) ↦ ground arith
    | inl a ↦ let e = a.effect in ground arith
  ]
  clock-act (claim_by worker seconds) ok' = elim (claim-cases source worker seconds w) [
    | inr (e, same) ↦ ground arith
    | inl (lease, leased, step) ↦ elim (take-cases source worker seconds w lease) [
      | inl same ↦ ground arith
      | inr (inl same) ↦ ground arith
      | inr (inr same) ↦ ground arith
    ]
  ]
  clock-act (release_by id worker outcome) ok' = elim (release-cases source id worker outcome w) [
    | inr (e, same) ↦ ground arith
    | inl p ↦ let e = release_lem source id worker outcome w p in ground arith
  ]
  clock-act (extend_by id worker ledger budget one two seconds) ok' =
      elim (extend_lease-cases source id worker ledger budget one two seconds w) [
        | inr (e, same) ↦ ground arith
        | inl x ↦
            let e = extend_lease_lem source id worker ledger budget one two seconds w x in
            ground arith
      ]
  clock-act (tick n) later = later
  clock-act (lock busy) ok' = omega arith
  clock-act (elsewhere key payload) ok' = omega arith
