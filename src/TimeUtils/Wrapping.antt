-- ===== src/TimeUtils/Wrapping.antt =====
-- The comparisons of source/utils/time_utils.cpp on times that wrap around.
use ffnetwork.Common.{ℕ, ◌+◌, ◌%◌, ◌^◌, ◌<◌, ◌≤◌, ◌-◌, ◌/◌, ◌≡◌, ◌≢◌, true, not, leb, ltb, arith}
use ffnetwork.Common.Int.{pos}
use ffnetwork.TimeUtils.{
  difference, time_after, time_is_between, time_is_later_or_equal, time_is_later, time_max,
  time_min, time_diff, time_since, now_time_millis,
}

difference-after : (t e : ℕ) → t < 2 ^ 32 → e < 2 ^ 32 → difference ((t + e) % 2 ^ 32) t ≡ e
difference-after t e h k = omega arith

-- A time that is less than 2^31 ms after another, the wrap-around included, is later or equal, is
-- the larger of the two, and their difference is the elapsed time.
pub time_after_lem :
    (t e : ℕ)
    → t < 2 ^ 32
    → e < 2 ^ 31
    → (time_is_later_or_equal t (time_after t e) ≡ true)
      × (time_is_later t (time_after t e) ≡ ltb 0 e)
      × (time_max t (time_after t e) ≡ time_after t e)
      × (time_min t (time_after t e) ≡ t)
      × (time_diff (time_after t e) t ≡ pos e)
unfolding time_after time_is_later_or_equal time_is_later time_max time_min time_diff
time_after_lem t e h k =
    let d = difference-after t e h (omega arith) in
    let small : ltb e (2 ^ 31) ≡ true = ground arith in
    (rw (d, small), rw (d, small) (ground arith), rw (d, small), rw (d, small), rw (d, small))

-- Of two different times that are not exactly 2^31 ms apart, exactly one is later.
pub time_is_later_total :
    (a b : ℕ)
    → a < 2 ^ 32
    → b < 2 ^ 32
    → a ≢ b
    → difference a b ≢ 2 ^ 31
    → time_is_later a b ≡ not (time_is_later b a)
unfolding time_is_later
time_is_later_total a b h k ne far = ground arith

-- With all times counted from the first, the wrap-around included, the middle time is between the
-- others exactly if it is not after the last.
pub time_is_between_lem :
    (t a b : ℕ)
    → t < 2 ^ 32
    → a < 2 ^ 32
    → b < 2 ^ 32
    → time_is_between t ((t + a) % 2 ^ 32) ((t + b) % 2 ^ 32) ≡ leb a b
unfolding time_is_between
time_is_between_lem t a b h k l = ground arith

-- Of two readings of the clock that are less than 2^31 ms apart, `TimeSince` gives the milliseconds
-- that passed, also if the time in milliseconds wraps around in between.
pub time_since_lem :
    (n m : ℕ)
    → n ≤ m
    → m / 1000000 < n / 1000000 + 2 ^ 31
    → time_since (now_time_millis m) (now_time_millis n) ≡ pos (m / 1000000 - n / 1000000)
unfolding time_since time_diff now_time_millis
time_since_lem n m le near =
    let elapsed : difference (m / 1000000 % 2 ^ 32) (n / 1000000 % 2 ^ 32)
        ≡ m / 1000000 - n / 1000000 =
      omega arith in
    let small : ltb (m / 1000000 - n / 1000000) (2 ^ 31) ≡ true = ground arith in
    rw (elapsed, small)
