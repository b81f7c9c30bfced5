-- ===== src/Time/Units.antt =====
-- Conversions of source/base/time/time_delta.h between units.
use ffnetwork.Common.{if◌then◌else◌, ◌≡◌, arith, ok, err, overflow}
use ffnetwork.Common.Int.{ℤ, pos, ◌*ℤ◌}
use ffnetwork.Time.{TimeDelta, in_int64, from_seconds, to_seconds}

-- A number of seconds that converts without overflow is read back.
pub to_seconds-from_seconds : (s : ℤ) {d : TimeDelta} → from_seconds s ≡ ok d → to_seconds d ≡ s
unfolding from_seconds to_seconds
to_seconds-from_seconds s h = ground arith

-- The conversion from seconds fails exactly when the nanoseconds do not fit `int64_t`, and gives
-- them otherwise: the products on the way fit whenever the last one does.
pub from_seconds_lem :
    (s : ℤ)
    → from_seconds s ≡ (
        if in_int64 (s *ℤ pos 1000000000)
        then ok (record { delta = s *ℤ pos 1000000000 })
        else err overflow)
unfolding from_seconds ◌*ℤ◌
from_seconds_lem s = ground arith
