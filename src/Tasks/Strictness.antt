-- ===== src/Tasks/Strictness.antt =====
-- What is read as an outcome and what as a lease, exactly.
use prism_harness_py.Prelude.{
  refl, ℕ, ◌*◌, ◌<◌, ◌≡◌, ◌↔◌, ap, Bool-cases, inl, inr, leb, ◌||◌, ◌==◌, false, arith, eq_iff,
}
use prism_harness_py.Prelude.Int.{pos, negsuc}
use prism_harness_py.Value.{Value, null, bool, int, float, str, arr, obj, ticks_per_second}
use prism_harness_py.Result.{ok}
use prism_harness_py.Tasks.State.{TaskOutcome, value, state, plain, parse}
use prism_harness_py.Tasks.Lease.{
  to_double, Seconds, whole, fraction, not_finite, no_number, require_lease, overflow_bound,
}

-- A value that is no member of the enum is read as an outcome exactly when it is the outcome's wire
-- word, letter for letter; every other value is refused.
pub parse_iff :
    (v : Value) (o : TaskOutcome) → (parse (plain v) ≡ ok o) ↔ (v ≡ str (value (state o)))
unfolding parse
parse_iff null o = (λ h. cc, λ h. cc)
parse_iff (bool b) o = (λ h. cc, λ h. cc)
parse_iff (int n) o = (λ h. cc, λ h. cc)
parse_iff (float t) o = (λ h. cc, λ h. cc)
parse_iff (str s) TaskOutcome.done =
    (λ h. ground (arith, eq_iff s "done", eq_iff s "failed"), λ h. ground (arith, eq_iff s "done"))
parse_iff (str s) TaskOutcome.failed =
    (λ h. ground (arith, eq_iff s "done", eq_iff s "failed"), λ h. ap (λ v. parse (plain v)) h)
parse_iff (arr vs) o = (λ h. cc, λ h. cc)
parse_iff (obj d) o = (λ h. cc, λ h. cc)

-- The numbers of seconds that are a lease of `n`: an int below the range of a double, of which `n` is the
-- double, or the float.
abbrev pub IsLease : Seconds → ℕ → Type 0
IsLease (whole z) n = (m : ℕ) × (z ≡ pos m) × (0 < m) × (m < overflow_bound) × (n ≡ to_double m)
IsLease (fraction t) n = (t ≡ pos (n * ticks_per_second)) × (0 < n)
IsLease _ n = ⊥

range_of : (bound m : ℕ) → (leb bound m || m == 0) ≡ false → (0 < m) × (m < bound)
range_of bound m h = ground arith

in_range : (bound m : ℕ) → 0 < m → m < bound → (leb bound m || m == 0) ≡ false
in_range bound m h g = ground arith

whole_in : (m n : ℕ) → require_lease (whole (pos m)) ≡ ok n → IsLease (whole (pos m)) n
unfolding require_lease
whole_in m n h = elim (Bool-cases (leb overflow_bound m || m == 0)) [
  | inl is ↦ cc (rw is at h)
  | inr not_out ↦
      let same : to_double m ≡ n = cc (rw not_out at h) in
      let bounds : (0 < m) × (m < overflow_bound) = range_of overflow_bound m not_out in
      (m, refl, bounds.0, bounds.1, cc)
]

whole_out :
    (m n x : ℕ)
    → pos m ≡ pos x
    → 0 < x
    → x < overflow_bound
    → n ≡ to_double x
    → require_lease (whole (pos m)) ≡ ok n
unfolding require_lease
whole_out m n x is pos_x fits eq =
    let same : m ≡ x = cc in
    let accepted : (leb overflow_bound x || x == 0) ≡ false =
      in_range overflow_bound x pos_x fits in
    rw same (rw accepted (rw eq refl))

-- A number of seconds is accepted as a lease, of `n` seconds, exactly when it is a positive int within
-- the range of a double that rounds to `n`, or `n` itself as a positive float: zero, a negative, a
-- fraction, NaN, an infinity, an int too large and what is no number are refused.
pub require_lease_iff : (s : Seconds) (n : ℕ) → (require_lease s ≡ ok n) ↔ IsLease s n
unfolding require_lease
require_lease_iff (whole (pos m)) n =
    (whole_in m n, λ (x, is, pos_x, fits, eq). whole_out m n x is pos_x fits eq)
require_lease_iff (whole (negsuc m)) n = (λ h. cc, λ (x, is, lo, hi, eq). cc)
require_lease_iff (fraction (pos t)) n = (λ h. ground arith, λ h. ground arith)
require_lease_iff (fraction (negsuc t)) n = (λ h. cc, λ h. ground arith)
require_lease_iff not_finite n = (λ h. cc, λ h. absurd h)
require_lease_iff no_number n = (λ h. cc, λ h. absurd h)
