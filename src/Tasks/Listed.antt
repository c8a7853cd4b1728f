-- ===== src/Tasks/Listed.antt =====
-- Over every history the list keeps its order and its ids distinct.
use prism_harness_py.Prelude.{String, Bool, List, ◌≡◌, inl, inr, refl, ap, ◌∙◌}
use prism_harness_py.Value.{null, str, int, Fields, get}
use prism_harness_py.Store.{World}
use prism_harness_py.Python.{Python}
use prism_harness_py.Tasks.State.{value, state}
use prism_harness_py.Tasks.Record.{timestamp}
use prism_harness_py.Tasks.Listing.{update_first, has_id, is_todo, with_ids}
use prism_harness_py.Tasks.Source.{
  Source, current, write_back, claim_record, settle_record, hold_record,
}
use prism_harness_py.Tasks.Expiry.{id-mark}
use prism_harness_py.Tasks.Written.{held_in, held_in-write_back, held_in-put}
use prism_harness_py.Tasks.Claiming.{claim-cases, take-cases}
use prism_harness_py.Tasks.Releasing.{release_lem, release-cases}
use prism_harness_py.Tasks.Extending.{extend_lease_lem, extend_lease-cases}
use prism_harness_py.Tasks.Adding.{add_many-cases}
use prism_harness_py.Tasks.Steps.{
  Action, add, claim_by, release_by, extend_by, tick, lock, elsewhere, Allowed, act, Reach, here,
  next,
}
use prism_harness_py.Tasks.Order.{
  ids, ids-expire, ids-update_first, id-hold_record, Extended, same_ids, Extended-trans,
  append_each-Extended,
}

ids-current : (source : Source) (w : World) → ids (current source w) ≡ ids (held_in source w)
ids-current source w = ids-expire w.clock (held_in source w)

module _ (source : Source) (w : World) where
  rewritten :
      (rs : List Fields) (w' : World)
      → w' ≡ write_back source rs w
      → ids rs ≡ ids (held_in source w)
      → Extended (ids (held_in source w)) (ids (held_in source w'))
  rewritten rs w' e same =
      same_ids
        (ap (λ v. ids (held_in source v)) e ∙ (ap ids (held_in-write_back source rs w) ∙ same))

  updated :
      (q : Fields → Bool) (f : Fields → Fields) (keeps : (x : Fields) → get "id" (f x) ≡ get "id" x)
      (w' : World)
      → w' ≡ write_back source (update_first q f (current source w)) w
      → Extended (ids (held_in source w)) (ids (held_in source w'))
  updated q f keeps w' e =
      rewritten (update_first q f (current source w)) w' e
        (ids-update_first q f keeps (current source w) ∙ ids-current source w)

  unchanged : (w' : World) → w' ≡ w → Extended (ids (held_in source w)) (ids (held_in source w'))
  unchanged w' e = same_ids (ap (λ v. ids (held_in source v)) e)

module _ ⦃py : Python⦄ (source : Source) (w : World) where
  act-Extended :
      (a : Action)
      → Allowed source w a
      → Extended (ids (held_in source w)) (ids (held_in source (act source a w)))
  act-Extended (add instructions given) ok' = elim (add_many-cases source instructions given w) [
    | inr (e, same) ↦ unchanged source w _ (ap (λ p. p.1) same)
    | inl a ↦
        rw (ap (λ p. p.1) a.effect, held_in-write_back source a.grown w)
          (append_each-Extended (held_in source w) (with_ids instructions given) a.grown a.added
            a.looped)
  ]
  act-Extended (claim_by worker seconds) ok' = elim (claim-cases source worker seconds w) [
    | inr (e, same) ↦ unchanged source w _ (ap (λ p. p.1) same)
    | inl (lease, leased, step) ↦ elim (take-cases source worker seconds w lease) [
      | inl same ↦ unchanged source w _ (ap (λ p. p.1) step ∙ same)
      | inr (inl same) ↦
          rewritten source w (current source w) _ (ap (λ p. p.1) step ∙ same) (ids-current source w)
      | inr (inr same) ↦
          updated source w is_todo (claim_record worker w.clock lease)
            (id-mark "claimed" (str worker) (int (timestamp w.clock lease))) _
            (ap (λ p. p.1) step ∙ same)
    ]
  ]
  act-Extended (release_by id worker outcome) ok' =
      elim (release-cases source id worker outcome w) [
        | inr (e, same) ↦ unchanged source w _ (ap (λ p. p.1) same)
        | inl p ↦
            updated source w (has_id id) (settle_record p.recorded)
              (id-mark (value (state p.recorded)) null null) _
              (ap (λ p. p.1) (release_lem source id worker outcome w p))
      ]
  act-Extended (extend_by id worker ledger budget one two seconds) ok' =
      elim (extend_lease-cases source id worker ledger budget one two seconds w) [
        | inr (e, same) ↦ unchanged source w _ (ap (λ p. p.1) same)
        | inl x ↦
            updated source w (has_id id) (hold_record w.clock x.granted)
              (id-hold_record w.clock x.granted) _
              (ap (λ p. p.1) (extend_lease_lem source id worker ledger budget one two seconds w x))
      ]
  act-Extended (tick n) ok' = same_ids refl
  act-Extended (lock busy) ok' = same_ids refl
  act-Extended (elsewhere key payload) apart =
      same_ids (ap ids (held_in-put source key payload w apart))

module _ ⦃py : Python⦄ (source : Source) where
  -- Over every history the tasks stay in the order they were added in: what was listed is listed, in
  -- its place, and new tasks stand behind it. Ids that were distinct texts stay distinct texts.
  pub history-Extended :
      {s : World} {Excluded : String → Type 0} {t : World}
      → Reach source Excluded s t
      → Extended (ids (held_in source s)) (ids (held_in source t))
  history-Extended here = same_ids refl
  history-Extended (next {t = u} path a allowed others) =
      Extended-trans (history-Extended path) (act-Extended source u a allowed)
