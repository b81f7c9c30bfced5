-- ===== src/Time/Splits.antt =====
-- The split of a `TimeDelta` into seconds and nanoseconds, and division with remainder.
use ffnetwork.Common.{◌<◌, ◌≡◌, true, arith, ok}
use ffnetwork.Common.Int.{ℤ, pos, ◌*ℤ◌, ◌+ℤ◌}
use ffnetwork.Time.Units.{from_seconds_lem}
use ffnetwork.Time.{
  quot, rem, to_seconds, TimeDelta, in_int64, from_timespec, to_timespec, abs, delta_add,
}

to_seconds-eq-quot : (d : TimeDelta) → to_seconds d ≡ quot d.delta (pos 1000000000)
unfolding to_seconds
to_seconds-eq-quot d = ground arith

in_int64-quot :
    (z : ℤ) → in_int64 z ≡ true → in_int64 (quot z (pos 1000000000) *ℤ pos 1000000000) ≡ true
unfolding quot ◌*ℤ◌
in_int64-quot z h = ground arith

quot-rem : (z : ℤ) → (quot z (pos 1000000000) *ℤ pos 1000000000) +ℤ rem z (pos 1000000000) ≡ z
unfolding quot rem ◌*ℤ◌ ◌+ℤ◌
quot-rem z = ground arith

rem-lt : (z : ℤ) → abs (rem z (pos 1000000000)) < 1000000000
unfolding rem
rem-lt z = ground arith

-- A difference of times that fits `int64_t` is the sum of the seconds and nanoseconds it splits
-- into, and the nanoseconds are less than a second, of either sign.
pub from_timespec-to_timespec :
    (d : TimeDelta)
    → in_int64 d.delta ≡ true
    → (from_timespec (to_timespec d) ≡ ok d) × (abs (to_timespec d).tv_nsec < 1000000000)
unfolding from_timespec to_timespec delta_add
from_timespec-to_timespec d h = (
  rw (
    to_seconds-eq-quot d,
    from_seconds_lem (quot d.delta (pos 1000000000)),
    in_int64-quot d.delta h,
    quot-rem d.delta,
    h,
  ),
  rem-lt d.delta,
)
