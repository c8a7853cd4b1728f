-- ===== src/Tasks/Lease.antt =====
-- What a lease and an identifier must be: `_require_lease` and `_require_identifier`.
use prism_harness_py.Prelude.{
  ℕ, zero, suc, ltb, ◌&&◌, ◌+◌, ◌*◌, ◌-◌, ◌/◌, ◌%◌, ◌^◌, String, ◌||◌, leb, ◌==◌, not,
  if◌then◌else◌, str_eq,
}
use prism_harness_py.Prelude.Int.{ℤ, pos}
use prism_harness_py.Value.{ticks_per_second}
use prism_harness_py.Errors.{harness, HarnessError}
use prism_harness_py.Result.{Result, ok, err}

-- What a caller passes as a number of seconds: an int (True is 1 and False 0), a finite float in
-- ticks, a float that is not finite, or something that is no number.
pub data Seconds : Type 0 where
  whole : ℤ → Seconds
  fraction : (ticks : ℤ) → Seconds
  not_finite : Seconds
  no_number : Seconds

-- An int at or above this does not fit a double, and `math.isfinite` raises OverflowError.
abbrev pub overflow_bound : ℕ
overflow_bound = 2 ^ 1024 - 2 ^ 970

-- The distance of the doubles around an int: the least power of two that leaves it 53 bits. An int
-- below the bound has 1024 bits at most, so that many doublings are enough.
abbrev pub spacing : (fuel unit n : ℕ) → ℕ
spacing zero unit n = unit
spacing (suc fuel) unit n =
    let wider = spacing fuel (2 * unit) n in if ltb n (unit * 2 ^ 53) then unit else wider

-- To the nearest multiple of `unit`, and of two that are as near to the even one.
abbrev pub nearest : (unit n : ℕ) → ℕ
nearest unit n =
    let below = n / unit in
    let over = 2 * (n % unit) in
    if ltb unit over || (over == unit && below % 2 == 1) then (below + 1) * unit else below * unit

-- `float(n)`, of an int below the bound
unfoldable pub to_double : ℕ → ℕ
to_double n = nearest (spacing 1024 1 n) n

-- `_require_lease`, the lease as a whole number of seconds
unfoldable pub require_lease : Seconds → Result ℕ
require_lease (whole (pos n)) =
    if leb overflow_bound n || n == 0
    then err (harness HarnessError.task_lease_invalid)
    else ok (to_double n)
require_lease (fraction (pos t)) =
    if t == 0 || not (t % ticks_per_second == 0)
    then err (harness HarnessError.task_lease_invalid)
    else ok (t / ticks_per_second)
require_lease _ = err (harness HarnessError.task_lease_invalid)

-- `_require_identifier`
unfoldable pub require_identifier : (value kind : String) → Result (Unit {0})
require_identifier value kind =
    if str_eq value "" then err (harness (HarnessError.task_identifier_blank kind)) else ok tt
