-- ===== src/Tasks/Releasing.antt =====
-- Who may release a task, and what a release writes (Tasks/Source.antt).
use prism_harness_py.Prelude.{
  String, true, false, some, ◌≡◌, ◌↔◌, refl, ap, arith, ◌⊎◌, inl, inr, Bool-cases, Option-cases,
  ◌∙◌,
}
use prism_harness_py.Value.{str, Fields, get, is_text, is_text-eq, is_text_self}
use prism_harness_py.Errors.{Error, NotHeld, not_claimed}
use prism_harness_py.Result.{ok, err, Result-cases}
use prism_harness_py.Store.{World}
use prism_harness_py.Tasks.State.{TaskState, claimed, TaskOutcome, Supplied, parse}
use prism_harness_py.Tasks.Record.{state_of}
use prism_harness_py.Tasks.Lease.{require_identifier}
use prism_harness_py.Tasks.Listing.{find_first, update_first, has_id, check_held}
use prism_harness_py.Tasks.Source.{Source, current, settle_record, release, write_back}

-- What `check_held` lets through: a claimed record whose holder is the worker.
abbrev pub IsHeldBy : (worker : String) → Fields → Type 0
IsHeldBy worker r = (state_of r ≡ ok claimed) × (get "claimed_by" r ≡ some (str worker))

held_in_state :
    (id worker : String) (why : NotHeld) (r : Fields) (s : TaskState)
    → state_of r ≡ ok s
    → check_held id worker why r ≡ ok tt
    → (s ≡ claimed) × (is_text (get "claimed_by" r) worker ≡ true)
unfolding check_held
held_in_state id worker why r claimed is h = (refl, ground arith)
held_in_state id worker why r _ is h = ground arith

pub check_held-ok :
    (id worker : String) (why : NotHeld) (r : Fields)
    → check_held id worker why r ≡ ok tt
    → IsHeldBy worker r
unfolding check_held
check_held-ok id worker why r h = elim (Result-cases (state_of r)) [
  | inr (e, unreadable) ↦ ground arith
  | inl (s, is) ↦
      let (same, by) = held_in_state id worker why r s is h in
      (is ∙ ap ok same, is_text-eq (get "claimed_by" r) worker by)
]

pub check_held_passes :
    (id worker : String) (why : NotHeld) (r : Fields)
    → IsHeldBy worker r
    → check_held id worker why r ≡ ok tt
unfolding check_held
check_held_passes id worker why r (is, by) = ground (arith, is_text_self worker)

module _ (source : Source) (id worker : String) (outcome : Supplied) (w : World) where
  -- The conditions of a release that goes through.
  pub record Permits : Type 0 where
    pub named : require_identifier worker "worker" ≡ ok tt
    pub recorded : TaskOutcome
    pub parsed : parse outcome ≡ ok recorded
    pub free : w.busy source.key ≡ false
    pub target : Fields
    pub found : find_first (has_id id) (current source w) ≡ some target
    pub held : IsHeldBy worker target

  release-Permits : (release source id worker outcome w).0 ≡ ok tt → Permits
  unfolding release
  release-Permits h = elim (Result-cases (require_identifier worker "worker")) [
    | inr (e, refused) ↦ ground arith
    | inl (u, named) ↦ elim (Result-cases (parse outcome)) [
      | inr (e, refused) ↦ ground arith
      | inl (o, parsed) ↦ elim (Bool-cases (w.busy source.key)) [
        | inl busy ↦ ground arith
        | inr free ↦ elim (Option-cases (find_first (has_id id) (current source w))) [
          | inl nothing ↦ ground arith
          | inr (r, found) ↦ elim (Result-cases (check_held id worker not_claimed r)) [
            | inr (e, refused) ↦ ground arith
            | inl (u', held) ↦ record {
              named = named;
              recorded = o;
              parsed = parsed;
              free = free;
              target = r;
              found = found;
              held = check_held-ok id worker not_claimed r held;
            }
          ]
        ]
      ]
    ]
  ]

  -- Under its conditions a release writes the outcome in the record's place.
  pub release_lem :
      (p : Permits)
      → release source id worker outcome w ≡ (
        ok tt,
        write_back source
            (update_first (has_id id) (settle_record p.recorded) (current source w))
            w,
      )
  unfolding release
  release_lem p = let e = check_held_passes id worker not_claimed p.target p.held in ground arith

  -- A release goes through exactly under its conditions.
  pub release-ok_iff : ((release source id worker outcome w).0 ≡ ok tt) ↔ Permits
  release-ok_iff = (release-Permits, λ p. rw (release_lem p))

  -- A release that raises has changed nothing.
  pub release_atomic :
      {e : Error}
      → (release source id worker outcome w).0 ≡ err e
      → (release source id worker outcome w).1 ≡ w
  unfolding release
  release_atomic h = ground arith

  -- A release goes through, or raises and changes nothing.
  pub release-cases : Permits ⊎ ((e : Error) × (release source id worker outcome w ≡ (err e, w)))
  release-cases = elim (Result-cases (release source id worker outcome w).0) [
    | inl (u, passed) ↦ inl (release-Permits passed)
    | inr (e, refused) ↦ inr (e, ground (arith, release_atomic refused))
  ]

  -- A release is one of two things. The worker has a name, the outcome reads as one, the lock is to
  -- be had, and the first record with the id is in an unlapsed claim that this worker holds: then it
  -- returns, and what it writes is that record with the outcome in its state and no holder. Or one of
  -- these fails: then it raises, and the store is unchanged.
  pub release_exact :
      ((p : Permits) × (release source id worker outcome w ≡ (
        ok tt,
        write_back source
            (update_first (has_id id) (settle_record p.recorded) (current source w))
            w,
      )))
      ⊎ ((e : Error) × ¬ Permits × (release source id worker outcome w ≡ (err e, w)))
  release_exact = elim (Result-cases (release source id worker outcome w).0) [
    | inl (u, passed) ↦ let p = release-Permits passed in inl (p, release_lem p)
    | inr (e, refused) ↦
        inr (e, (λ p. cc (refused, release-ok_iff.1 p)), ground (arith, release_atomic refused))
  ]
