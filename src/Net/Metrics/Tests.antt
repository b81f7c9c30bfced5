-- ===== src/Net/Metrics/Tests.antt =====
-- Metrics of source/net/request_task_impl.cpp and response_impl.cpp; a number is shown in unary, by
-- strokes.
use ffnetwork.Common.{ℕ, zero, suc, ◌*◌, true, ◌≡◌, refl, [], ◌∷◌, none, some, arith}
use ffnetwork.Common.Int.{ℤ, pos, negsuc}
use ffnetwork.Net.Request.{Bytes}
use ffnetwork.Net.Metrics.{
  Metrics, Info, new_metrics, start_metrics, fill_metrics, metrics_dump_info,
}
use ffnetwork.Net.Metrics.Dump.{OneLine}

strokes : ℕ → Bytes
strokes zero = []
strokes (suc n) = b'|' ∷ strokes n

strokes-OneLine : (n : ℕ) → OneLine (strokes n)
unfolding strokes
strokes-OneLine zero = tt
strokes-OneLine (suc n) = (λ h. omega (arith, h), strokes-OneLine n)

signed : ℤ → Bytes
signed (pos n) = strokes n
signed (negsuc n) = b'-' ∷ strokes (suc n)

signed-OneLine : (z : ℤ) → OneLine (signed z)
unfolding signed
signed-OneLine (pos n) = strokes-OneLine n
signed-OneLine (negsuc n) = (λ h. omega (arith, h), strokes-OneLine (suc n))

abbrev transfer : Info ℕ
transfer = record {
  namelookup_time = 1;
  connect_time = 2;
  appconnect_time = 0;
  pretransfer_time = 2;
  starttransfer_time = 3;
  total_time = 4;
  size_upload = pos 5;
  size_download = pos 6;
}

abbrev times : ℕ → ℕ
times n = n * 1000

abbrev filled : Metrics ℕ
filled = fill_metrics 0 times (some transfer) 9 (start_metrics 0 times 3 (new_metrics 0 times))

test_fill :
    (filled.request_start_ms ≡ 3)
    × (filled.request_end_ms ≡ 9)
    × (filled.dns_time_ms ≡ 1000)
    × (filled.send_byte_count ≡ pos 5)
unfolding fill_metrics
test_fill = (refl, refl, refl, refl)

test_no_handle : fill_metrics 0 times none 9 (new_metrics 0 times) ≡ new_metrics 0 times
unfolding fill_metrics
test_no_handle = refl

same_text :
    metrics_dump_info strokes strokes signed (new_metrics 0 times)
    ≡ metrics_dump_info strokes strokes signed
        (record (new_metrics 0 times) { socket_reuse = true })
unfolding metrics_dump_info
same_text = refl
