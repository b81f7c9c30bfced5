-- ===== src/Tests.antt =====
-- Tests of the smaller components of source/base/time, and their theorems at concrete inputs.
use ffnetwork.Common.{◌≡◌, ◌<◌, ◌^◌, refl, ok, if◌then◌else◌, err, overflow}
use ffnetwork.Common.Int.{pos, negsuc, ◌*ℤ◌}
use ffnetwork.Time.{TimeDelta, abs, in_int64, from_timespec, to_timespec, from_seconds}
use ffnetwork.Time.Splits.{from_timespec-to_timespec}
use ffnetwork.Time.Units.{from_seconds_lem}

abbrev before_zero : TimeDelta
before_zero = record { delta = negsuc 1500000000 }

from_timespec-to_timespec_example :
    (from_timespec (to_timespec before_zero) ≡ ok before_zero)
    × (abs (to_timespec before_zero).tv_nsec < 1000000000)
from_timespec-to_timespec_example = from_timespec-to_timespec before_zero refl

from_seconds_lem_example : from_seconds (pos (2 ^ 40)) ≡ (
    if in_int64 (pos (2 ^ 40) *ℤ pos 1000000000)
    then ok (record { delta = pos (2 ^ 40) *ℤ pos 1000000000 })
    else err overflow)
from_seconds_lem_example = from_seconds_lem (pos (2 ^ 40))
