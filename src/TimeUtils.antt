-- ===== src/TimeUtils.antt =====
-- source/utils/time_utils.h and .cpp: times of 32 bits, in milliseconds, that wrap around. The clock
-- is an argument `now`.
pub mod Wrapping
mod Tests
use ffnetwork.Common.{ℕ, ◌+◌, ◌-◌, ◌/◌, ◌%◌, ◌^◌, Bool, not, ltb, leb, ◌&&◌, if◌then◌else◌}
use ffnetwork.Common.Int.{ℤ, pos, negsuc}

abbrev pub k_num_nanosecs_per_millisec : ℕ
k_num_nanosecs_per_millisec = 1000000000 / 1000

abbrev pub k_num_nanosecs_per_microsec : ℕ
k_num_nanosecs_per_microsec = 1000000000 / 1000000

-- `NowTimeMillis` and `NowTimeMicros` at this value of `NowTimeNanos`, the system clock's.
unfoldable pub now_time_millis : ℕ → ℕ
now_time_millis now_time_nanos = now_time_nanos / k_num_nanosecs_per_millisec % 2 ^ 32

unfoldable pub now_time_micros : ℕ → ℕ
now_time_micros now_time_nanos = now_time_nanos / k_num_nanosecs_per_microsec

-- `later - earlier`, on `uint32_t`.
abbrev pub difference : ℕ → ℕ → ℕ
difference later earlier = (later + 2 ^ 32 - earlier) % 2 ^ 32

abbrev pub half : ℕ
half = 2 ^ 31

-- The test `diff >= 0` on an `int32_t` from its bit pattern.
abbrev pub not_negative : ℕ → Bool
not_negative d = ltb d (2 ^ 31)

-- The elapsed time is an `int32_t`, given by its bit pattern.
unfoldable pub time_after : ℕ → ℕ → ℕ
time_after now elapsed = (now + elapsed) % 2 ^ 32

unfoldable pub time_is_between : ℕ → ℕ → ℕ → Bool
time_is_between earlier middle later =
    if leb earlier later
    then leb earlier middle && leb middle later
    else not (ltb later middle && ltb middle earlier)

unfoldable pub time_is_later_or_equal : ℕ → ℕ → Bool
time_is_later_or_equal earlier later =
    not_negative (difference later earlier) && ltb (difference later earlier) half

unfoldable pub time_is_later : ℕ → ℕ → Bool
time_is_later earlier later =
    (not_negative (difference later earlier) && ltb 0 (difference later earlier))
    && ltb (difference later earlier) half

unfoldable pub time_max : ℕ → ℕ → ℕ
unfolding time_is_later_or_equal
time_max a b = if time_is_later_or_equal a b then b else a

unfoldable pub time_min : ℕ → ℕ → ℕ
unfolding time_is_later_or_equal
time_min a b = if time_is_later_or_equal a b then a else b

-- The result is an `int32_t`.
unfoldable pub time_diff : ℕ → ℕ → ℤ
time_diff later earlier =
    if not_negative (difference later earlier)
    then pos (difference later earlier)
    else negsuc (2 ^ 32 - difference later earlier - 1)

unfoldable pub time_since : ℕ → ℕ → ℤ
unfolding time_diff
time_since now earlier = time_diff now earlier

unfoldable pub time_until : ℕ → ℕ → ℤ
unfolding time_diff
time_until now later = time_diff later now
