-- ===== src/Time/Points.antt =====
-- Arithmetic of source/base/time/time_point.h.
use ffnetwork.Common.{◌≡◌, true, arith, ok}
use ffnetwork.Time.{TimeDelta, TimePoint, in_int64, point_diff, point_add, point_sub}

-- The difference of two time points, where it does not overflow, leads from the second to the first
-- and back.
pub point_add-point_diff :
    (a b : TimePoint) {d : TimeDelta}
    → in_int64 a.ticks ≡ true
    → in_int64 b.ticks ≡ true
    → point_diff a b ≡ ok d
    → (point_add b d ≡ ok a) × (point_sub a d ≡ ok b)
unfolding point_add point_diff point_sub
point_add-point_diff a b ha hb h = (ground arith, ground arith)

-- Moving a time point by a duration and back.
pub point_sub-point_add :
    (a c : TimePoint) (d : TimeDelta)
    → in_int64 a.ticks ≡ true
    → in_int64 d.delta ≡ true
    → point_add a d ≡ ok c
    → (point_sub c d ≡ ok a) × (point_diff c a ≡ ok d)
unfolding point_add point_diff point_sub
point_sub-point_add a c d ha hb h = (ground arith, ground arith)
