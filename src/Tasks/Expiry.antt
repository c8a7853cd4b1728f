-- ===== src/Tasks/Expiry.antt =====
-- What a change of hands and an expiry do to a record (`mark`, `expire` of Tasks/Record.antt).
use prism_harness_py.Prelude.{
  ℕ, ◌+◌, ◌*◌, ◌/◌, ◌≤◌, ◌<◌, String, false, some, List, [], ◌∷◌, ◌≡◌, refl, arith,
}
use prism_harness_py.Prelude.Int.{pos, leb_ℤ, scale}
use prism_harness_py.Value.{Value, null, str, Fields, get, ticks_per_second, get-put}
use prism_harness_py.Result.{ok}
use prism_harness_py.Tasks.State.{TaskState, todo, claimed, done, failed, value, state_of_text}
use prism_harness_py.Tasks.Record.{state_of, lapsed, mark, expire_record, expire, moved, timestamp}

module _ (s : String) (by until : Value) (r : Fields) where
  pub state-mark : get "state" (mark s by until r) ≡ some (str s)
  unfolding mark
  state-mark = simp get-put

  pub claimed_by-mark : get "claimed_by" (mark s by until r) ≡ some by
  unfolding mark
  claimed_by-mark = simp get-put

  pub claimed_until-mark : get "claimed_until" (mark s by until r) ≡ some until
  unfolding mark
  claimed_until-mark = simp get-put

  pub id-mark : get "id" (mark s by until r) ≡ get "id" r
  unfolding mark
  id-mark = simp get-put

  pub instruction-mark : get "instruction" (mark s by until r) ≡ get "instruction" r
  unfolding mark
  instruction-mark = simp get-put

pub ruleset mark_laws = (state-mark, claimed_by-mark, claimed_until-mark, id-mark, instruction-mark)

-- The expiry never names a task failed, nor touches its id.
pub id-expire_record : (now : ℕ) (r : Fields) → get "id" (expire_record now r) ≡ get "id" r
unfolding expire_record
id-expire_record now r = ground (arith, id-mark "todo" null null r)

pub lapsed-expire_record : (now : ℕ) (r : Fields) → lapsed now (expire_record now r) ≡ false
unfolding expire_record lapsed
lapsed-expire_record now r = ground (arith, state-mark "todo" null null r)

pub expire_record_live : (now : ℕ) (r : Fields) → lapsed now r ≡ false → expire_record now r ≡ r
unfolding expire_record
expire_record_live now r h = rw h

pub expire_idem : (now : ℕ) (rs : List Fields) → expire now (expire now rs) ≡ expire now rs
unfolding expire
expire_idem now [] = refl
expire_idem now (r ∷ rs) =
    cc (
      expire_record_live now (expire_record now r) (lapsed-expire_record now r),
      expire_idem now rs,
    )

-- If nothing lapsed, the expiry changes nothing.
pub expire_unmoved : (now : ℕ) (rs : List Fields) → moved now rs ≡ false → expire now rs ≡ rs
unfolding expire moved
expire_unmoved now [] h = refl
expire_unmoved now (r ∷ rs) h = ground (arith, expire_record_live now r, expire_unmoved now rs)

-- A lease of at least a second ends after the moment that it was granted.
pub timestamp_after :
    (now lease : ℕ)
    → 0 < lease
    → leb_ℤ (scale ticks_per_second (timestamp now lease)) (pos now) ≡ false
timestamp_after now lease h = ground arith

-- And no later than the lease.
pub timestamp_within :
    (now lease : ℕ)
    → ((now + lease * ticks_per_second) / ticks_per_second) * ticks_per_second
      ≤ now + lease * ticks_per_second
timestamp_within now lease = omega arith

-- A record marked with the wire word of a state is in that state.
pub state_of-mark :
    (st : TaskState) (by until : Value) (r : Fields) → state_of (mark (value st) by until r) ≡ ok st
unfolding state_of state_of_text
state_of-mark todo by until r = rw (state-mark "todo" by until r, state_of)
state_of-mark claimed by until r = rw (state-mark "claimed" by until r, state_of)
state_of-mark done by until r = rw (state-mark "done" by until r, state_of)
state_of-mark failed by until r = rw (state-mark "failed" by until r, state_of)
