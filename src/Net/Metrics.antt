-- ===== src/Net/Metrics.antt =====
-- The metrics of a task: `Metrics` of include/ffnetwork/response.h, `Resume` and `FillMetrics` of
-- source/net/request_task_impl.cpp, and `metrics_dump_info` of source/net/response_impl.cpp. `D` is
-- the type of `double`, with its product by 1000 and its 0 as arguments; what libcurl reports of a
-- handle is the argument `Info`. The text that `std::ostream` makes of a number is an argument too.
pub mod Dump
mod Tests
use ffnetwork.Common.{ℕ, Bool, false, List, [], ◌∷◌, ◌++◌, Option, none, some}
use ffnetwork.Common.Int.{ℤ, pos, negsuc}
use ffnetwork.Common.Text.{codes}
use ffnetwork.Net.Request.{Bytes}

pub record Metrics (D : Type 0) : Type 0 where
  pub request_start_ms : ℕ
  pub request_end_ms : ℕ
  pub dns_time_ms : D
  pub connect_time_ms : D
  pub ssl_time_ms : D
  pub pretransfer_time_ms : D
  pub transfer_start_time_ms : D
  pub totoal_time_ms : D
  pub socket_reuse : Bool
  pub send_byte_count : ℤ
  pub receive_byte_count : ℤ

-- What `curl_easy_getinfo` gives for the names that `FillMetrics` asks for; the times are in seconds.
pub record Info (D : Type 0) : Type 0 where
  pub namelookup_time : D
  pub connect_time : D
  pub appconnect_time : D
  pub pretransfer_time : D
  pub starttransfer_time : D
  pub total_time : D
  pub size_upload : ℤ
  pub size_download : ℤ

module _ {D : Type 0} (zero_time : D) (times_1000 : D → D) where
  abbrev pub new_metrics : Metrics D
  new_metrics = record {
    request_start_ms = 0;
    request_end_ms = 0;
    dns_time_ms = zero_time;
    connect_time_ms = zero_time;
    ssl_time_ms = zero_time;
    pretransfer_time_ms = zero_time;
    transfer_start_time_ms = zero_time;
    totoal_time_ms = zero_time;
    socket_reuse = false;
    send_byte_count = negsuc 0;
    receive_byte_count = negsuc 0;
  }

  -- `Resume`, at this time of `NowTimeMillis`.
  abbrev pub start_metrics : ℕ → Metrics D → Metrics D
  start_metrics now m = record m { request_start_ms = now }

  -- `FillMetrics`; a null handle is `none`.
  unfoldable pub fill_metrics : Option (Info D) → ℕ → Metrics D → Metrics D
  fill_metrics none now m = m
  fill_metrics (some i) now m = record m {
    request_end_ms = now;
    dns_time_ms = times_1000 i.namelookup_time;
    connect_time_ms = times_1000 i.connect_time;
    ssl_time_ms = times_1000 i.appconnect_time;
    pretransfer_time_ms = times_1000 i.pretransfer_time;
    transfer_start_time_ms = times_1000 i.starttransfer_time;
    totoal_time_ms = times_1000 i.total_time;
    send_byte_count = i.size_upload;
    receive_byte_count = i.size_download;
  }

-- A label and a value with the end of the line, before what follows.
abbrev pub line : Bytes → Bytes → Bytes → Bytes
line label value rest = label ++ (value ++ 10 ∷ rest)

module _ {D : Type 0} (show : ℕ → Bytes) (show_double : D → Bytes) (show_int : ℤ → Bytes) where
  unfoldable pub metrics_dump_info : Metrics D → Bytes
  metrics_dump_info m =
      10
      ∷ line (codes "request_start_time: ") (show m.request_start_ms) (
          line (codes "request_end_ms: ") (show m.request_end_ms) (
            line (codes "dns_time_ms: ") (show_double m.dns_time_ms) (
              line (codes "connect_time_ms: ") (show_double m.connect_time_ms) (
                line (codes "ssl_time_ms: ") (show_double m.ssl_time_ms) (
                  line (codes "pretransfer_time_ms: ") (show_double m.pretransfer_time_ms) (
                    line (codes "transfer_start_time_ms: ") (show_double m.transfer_start_time_ms) (
                      line (codes "totoal_time_ms: ") (show_double m.totoal_time_ms) (
                        line (codes "receive byte count: ") (show_int m.receive_byte_count)
                          (line (codes "send byte count: ") (show_int m.send_byte_count) [])))))))))
