-- ===== src/Time.antt =====
-- source/base/time: `TimeDelta` and `TimePoint` over `int64_t` nanoseconds. A signed overflow and a
-- division that C++ leaves undefined are errors. The floating-point conversions are left out.
pub mod Units
pub mod Splits
pub mod Points
use ffnetwork.Common.{
  ℕ, ◌+◌, ◌-◌, ◌*◌, ◌/◌, ◌%◌, ◌^◌, Bool, true, false, not, ◌&&◌, ◌||◌, ltb, leb, ◌==◌,
  if◌then◌else◌, Outcome, ok, err, overflow, div_by_zero, ◌>>=◌, ◌>>◌, guard,
}
use ffnetwork.Common.Int.{ℤ, pos, negsuc, pos_part, neg_part, sub_ℕ, ◌+ℤ◌, ◌-ℤ◌, ◌*ℤ◌, ltb_ℤ}

-- `std::numeric_limits<int64_t>`.
abbrev pub int64_min : ℤ
int64_min = negsuc (2 ^ 63 - 1)

abbrev pub int64_max : ℤ
int64_max = pos (2 ^ 63 - 1)

abbrev pub in_int64 : ℤ → Bool
in_int64 z = ltb (pos_part z) (2 ^ 63) && leb (neg_part z) (2 ^ 63)

-- The value of a signed expression, or the overflow.
abbrev pub int64 : ℤ → Outcome ℤ
int64 z = if in_int64 z then ok z else err overflow

abbrev pub abs : ℤ → ℕ
abs z = pos_part z + neg_part z

abbrev pub eqb_ℤ : ℤ → ℤ → Bool
eqb_ℤ a b = pos_part a + neg_part b == pos_part b + neg_part a

-- `a / b` and `a % b` of C++: the quotient is truncated, the remainder has the sign of `a`.
unfoldable pub quot : ℤ → ℤ → ℤ
quot a b =
    let q = abs a / abs b in
    if ltb (neg_part a * pos_part b + pos_part a * neg_part b) 1 then pos q else sub_ℕ 0 q

unfoldable pub rem : ℤ → ℤ → ℤ
rem a b = let r = abs a % abs b in if ltb (neg_part a) 1 then pos r else sub_ℕ 0 r

-- The divisions that C++ leaves undefined.
abbrev pub divisible : ℤ → ℤ → Outcome (Unit {0})
divisible a b =
    if abs b == 0
    then err div_by_zero
    else if eqb_ℤ a int64_min && eqb_ℤ b (negsuc 0)
    then err overflow
    else ok tt

pub record TimeDelta : Type 0 where
  pub delta : ℤ

pub record TimePoint : Type 0 where
  pub ticks : ℤ

pub record Timespec : Type 0 where
  pub tv_sec : ℤ
  pub tv_nsec : ℤ

-- class TimeDelta
abbrev pub from_nanoseconds : ℤ → TimeDelta
from_nanoseconds n = record { delta = n }

unfoldable pub from_microseconds : ℤ → Outcome TimeDelta
unfolding ◌*ℤ◌
from_microseconds micros = do n ← int64 (micros *ℤ pos 1000); ok (from_nanoseconds n)

unfoldable pub from_milliseconds : ℤ → Outcome TimeDelta
unfolding from_microseconds
from_milliseconds millis = do n ← int64 (millis *ℤ pos 1000); from_microseconds n

unfoldable pub from_seconds : ℤ → Outcome TimeDelta
unfolding from_milliseconds
from_seconds seconds = do n ← int64 (seconds *ℤ pos 1000); from_milliseconds n

abbrev pub to_nanoseconds : TimeDelta → ℤ
to_nanoseconds d = d.delta

unfoldable pub to_microseconds : TimeDelta → ℤ
unfolding quot
to_microseconds d = quot (to_nanoseconds d) (pos 1000)

unfoldable pub to_milliseconds : TimeDelta → ℤ
unfolding to_microseconds
to_milliseconds d = quot (to_microseconds d) (pos 1000)

unfoldable pub to_seconds : TimeDelta → ℤ
unfolding to_milliseconds
to_seconds d = quot (to_milliseconds d) (pos 1000)

unfoldable pub delta_sub : TimeDelta → TimeDelta → Outcome TimeDelta
unfolding ◌-ℤ◌
delta_sub a b = do n ← int64 (a.delta -ℤ b.delta); ok (from_nanoseconds n)

unfoldable pub delta_add : TimeDelta → TimeDelta → Outcome TimeDelta
unfolding ◌+ℤ◌
delta_add a b = do n ← int64 (a.delta +ℤ b.delta); ok (from_nanoseconds n)

unfoldable pub delta_mul : TimeDelta → ℤ → Outcome TimeDelta
unfolding ◌*ℤ◌
delta_mul a k = do n ← int64 (a.delta *ℤ k); ok (from_nanoseconds n)

unfoldable pub delta_div : TimeDelta → ℤ → Outcome TimeDelta
unfolding quot
delta_div a k = do divisible a.delta k; ok (from_nanoseconds (quot a.delta k))

unfoldable pub delta_ratio : TimeDelta → TimeDelta → Outcome ℤ
unfolding quot
delta_ratio a b = do divisible a.delta b.delta; ok (quot a.delta b.delta)

unfoldable pub delta_mod : TimeDelta → TimeDelta → Outcome TimeDelta
unfolding rem
delta_mod a b = do divisible a.delta b.delta; ok (from_nanoseconds (rem a.delta b.delta))

unfoldable pub from_timespec : Timespec → Outcome TimeDelta
unfolding from_seconds delta_add
from_timespec ts = do s ← from_seconds ts.tv_sec; delta_add s (from_nanoseconds ts.tv_nsec)

unfoldable pub to_timespec : TimeDelta → Timespec
unfolding to_seconds rem
to_timespec d = record { tv_sec = to_seconds d; tv_nsec = rem d.delta (pos 1000000000) }

-- class TimePoint
abbrev pub point_max : TimePoint
point_max = record { ticks = int64_max }

abbrev pub from_epoch_delta : TimeDelta → TimePoint
from_epoch_delta d = record { ticks = to_nanoseconds d }

abbrev pub to_epoch_delta : TimePoint → TimeDelta
to_epoch_delta p = from_nanoseconds p.ticks

unfoldable pub point_diff : TimePoint → TimePoint → Outcome TimeDelta
unfolding ◌-ℤ◌
point_diff a b = do n ← int64 (a.ticks -ℤ b.ticks); ok (from_nanoseconds n)

unfoldable pub point_add : TimePoint → TimeDelta → Outcome TimePoint
unfolding ◌+ℤ◌
point_add a d = do n ← int64 (a.ticks +ℤ to_nanoseconds d); ok (record { ticks = n })

unfoldable pub point_sub : TimePoint → TimeDelta → Outcome TimePoint
unfolding ◌-ℤ◌
point_sub a d = do n ← int64 (a.ticks -ℤ to_nanoseconds d); ok (record { ticks = n })

-- The comparisons of both classes, on the numbers that they hold.
abbrev pub point_gt : TimePoint → TimePoint → Bool
point_gt a b = ltb_ℤ b.ticks a.ticks

abbrev pub point_eq : TimePoint → TimePoint → Bool
point_eq a b = eqb_ℤ a.ticks b.ticks

abbrev pub delta_ge : TimeDelta → TimeDelta → Bool
delta_ge a b = not (ltb_ℤ a.delta b.delta)
