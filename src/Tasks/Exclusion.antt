-- ===== src/Tasks/Exclusion.antt =====
-- A successful claim is exclusive: from the claim until its lease ends, the task is the worker's.
use prism_harness_py.Prelude.{
  ℕ, String, Bool, false, Option, some, List, [], ◌∷◌, ◌++◌, any, ◌≡◌, sym, ap, ◌∙◌, arith, eq_iff,
  eq_refl,
}
use prism_harness_py.Prelude.Int.{ℤ, pos, leb_ℤ, scale}
use prism_harness_py.Value.{Value, str, int, Fields, get, is_text, ticks_per_second}
use prism_harness_py.Result.{ok}
use prism_harness_py.Store.{World}
use prism_harness_py.Python.{Python}
use prism_harness_py.Tasks.State.{claimed}
use prism_harness_py.Tasks.Record.{StoredTask, snapshot, lapsed, passed, timestamp}
use prism_harness_py.Tasks.Lease.{Seconds}
use prism_harness_py.Tasks.Listing.{find_first, has_id}
use prism_harness_py.Tasks.Source.{Source, claim, claim_record}
use prism_harness_py.Tasks.Expiry.{claimed_by-mark, claimed_until-mark, id-mark, state_of-mark}
use prism_harness_py.Tasks.Written.{held_in}
use prism_harness_py.Tasks.Claiming.{claim-Claims}
use prism_harness_py.Tasks.Releasing.{IsHeldBy}
use prism_harness_py.Tasks.Steps.{Reach}
use prism_harness_py.Tasks.Order.{ids, Distinct, ids-expire}
use prism_harness_py.Tasks.Histories.{Holds, lease_excludes}

any-middle :
    (p : Option Value → Bool) (xs ys : List Fields) (x : Fields)
    → any p (ids (xs ++ (x ∷ ys))) ≡ false
    → p (get "id" x) ≡ false
any-middle p [] ys x h = ground arith
any-middle p (y ∷ xs) ys x h = ground (arith, any-middle p xs ys x)

-- Where ids are distinct, an entry is the first with its id, also after a change that keeps the id.
Distinct-first :
    (before after : List Fields) (x y : Fields)
    → Distinct (ids (before ++ (x ∷ after)))
    → get "id" y ≡ get "id" x
    → (id : String) × (get "id" y ≡ some (str id))
      × (find_first (has_id id) (before ++ (y ∷ after)) ≡ some y)
unfolding find_first
Distinct-first [] after x y (id, is, apart, rest) same =
    let named = same ∙ is in (id, named, rw (named, eq_refl id))
Distinct-first (b ∷ before) after x y (u, is, apart, rest) same =
    let (id, named, found) = Distinct-first before after x y rest same in
    let other = any-middle (λ p. is_text p u) before after x apart in
    let mine : get "id" x ≡ some (str id) = sym same ∙ named in
    (id, named, ground (arith, eq_iff u id, eq_iff id u))

module _ ⦃py : Python⦄ (source : Source) (worker : String) (seconds : Option Seconds)
    (w : World) where
  claimed_id :
      (now lease : ℕ) (r : Fields) (id : String)
      → get "id" (claim_record worker now lease r) ≡ some (str id)
      → (snapshot claimed (claim_record worker now lease r)).id ≡ id
  claimed_id now lease r id h = ground arith

  live_until :
      (clock : ℕ) (r : Fields) (t : StoredTask) (until n : ℤ)
      → t ≡ snapshot claimed r
      → t.claimed_until ≡ some until
      → get "claimed_until" r ≡ some (int n)
      → leb_ℤ (scale ticks_per_second until) (pos clock) ≡ false
      → lapsed clock r ≡ false
  unfolding lapsed
  live_until clock r t until n e ends expiry live =
      let same : some n ≡ some until = ground arith in
      let equal : n ≡ until = cc in
      let over : passed (get "claimed_until" r) clock ≡ false = rw (expiry, equal) live in
      ground arith

  -- Take any list whose ids are distinct texts and any claim that returned a task. Over every history
  -- of other workers' actions (claims, releases, extensions, additions, the clock moving), as long as
  -- the clock has not reached the task's `claimed_until`, the store's record under the task's id is
  -- the claimed one, held by the worker, and it still reads back as the very task the claim returned.
  pub claim_excludes :
      (t : StoredTask) (until : ℤ) {u : World}
      → Distinct (ids (held_in source w))
      → (claim source worker seconds w).0 ≡ ok (some t)
      → t.claimed_until ≡ some until
      → Reach source (λ v. v ≡ worker) (claim source worker seconds w).1 u
      → leb_ℤ (scale ticks_per_second until) (pos u.clock) ≡ false
      → (r : Fields) × Holds source t.id r u × IsHeldBy worker r × (t ≡ snapshot claimed r)
  claim_excludes t until {u} distinct taken ends path live =
      let c = claim-Claims source worker seconds w t taken in
      let new = claim_record worker w.clock c.lease c.target in
      let listed : Distinct (ids (c.first.before ++ (c.target ∷ c.first.after))) =
        rw (← c.first.split) (rw (ids-expire w.clock (held_in source w)) distinct) in
      let (id, named, found) =
        Distinct-first c.first.before c.first.after c.target new listed
          (id-mark "claimed" (str worker) (int (timestamp w.clock c.lease)) c.target) in
      let held : IsHeldBy worker new = (
        state_of-mark claimed (str worker) (int (timestamp w.clock c.lease)) c.target,
        claimed_by-mark "claimed" (str worker) (int (timestamp w.clock c.lease)) c.target,
      ) in
      let start : Holds source id new (claim source worker seconds w).1 = rw c.stored found in
      let expiry =
        claimed_until-mark "claimed" (str worker) (int (timestamp w.clock c.lease)) c.target in
      let still = live_until u.clock new t until _ c.task ends expiry live in
      let kept = lease_excludes source id worker path new start held still in
      let same : t.id ≡ id = ap (λ s. s.id) c.task ∙ claimed_id w.clock c.lease c.target id named in
      (new, rw same kept, held, c.task)
