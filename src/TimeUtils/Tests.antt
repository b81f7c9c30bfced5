-- ===== src/TimeUtils/Tests.antt =====
-- Concrete times around 2^32 (source/utils/time_utils.cpp).
use ffnetwork.Common.{ℕ, ◌+◌, ◌-◌, ◌%◌, ◌^◌, ◌≡◌, leb, arith}
use ffnetwork.TimeUtils.{time_is_between}
use ffnetwork.TimeUtils.Wrapping.{time_is_between_lem}

abbrev late : ℕ
late = 2 ^ 32 - 5

time_is_between_lem_example :
    time_is_between late ((late + 7) % 2 ^ 32) ((late + 9) % 2 ^ 32) ≡ leb 7 9
time_is_between_lem_example = time_is_between_lem late 7 9 (omega arith) (omega arith) (omega arith)
