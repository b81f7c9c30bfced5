-- ===== src/Net/Metrics/Dump.antt =====
-- What the text of `metrics_dump_info` (source/net/response_impl.cpp) says of the metrics.
use ffnetwork.Common.{ℕ, ◌≡◌, ◌≢◌, refl, ap, [], ◌∷◌, ◌++◌, All}
use ffnetwork.Common.Int.{ℤ}
use ffnetwork.Common.Text.{codes}
use ffnetwork.Net.Request.{Bytes}
use ffnetwork.Net.Metrics.{Metrics, line, metrics_dump_info}

-- The byte that ends a line is not in this text.
abbrev pub OneLine : Bytes → Type 0
OneLine = All (λ c. c ≢ 10)

drop_first : Bytes → Bytes
drop_first [] = []
drop_first (c ∷ s) = s

append-cancel : (l s t : Bytes) → l ++ s ≡ l ++ t → s ≡ t
append-cancel [] s t h = h
append-cancel (c ∷ l) s t h = append-cancel l s t cc

value-cancel :
    (a b s t : Bytes) → OneLine a → OneLine b → a ++ 10 ∷ s ≡ b ++ 10 ∷ t → (a ≡ b) × (s ≡ t)
value-cancel [] [] s t f g h = (refl, cc)
value-cancel [] (y ∷ b) s t f g h = absurd (g.0 cc)
value-cancel (x ∷ a) [] s t f g h = absurd (f.0 cc)
value-cancel (x ∷ a) (y ∷ b) s t f g h =
    let (same, rest) = value-cancel a b s t f.1 g.1 cc in (cc, rest)

line-cancel :
    (label a b s t : Bytes)
    → OneLine a
    → OneLine b
    → line label a s ≡ line label b t
    → (a ≡ b) × (s ≡ t)
line-cancel label a b s t f g h = value-cancel a b s t f g (append-cancel label _ _ h)

module _ {D : Type 0} (show : ℕ → Bytes) (show_double : D → Bytes) (show_int : ℤ → Bytes)
    (show-OneLine : (n : ℕ) → OneLine (show n))
    (show_double-OneLine : (x : D) → OneLine (show_double x))
    (show_int-OneLine : (z : ℤ) → OneLine (show_int z)) where
  -- The texts of two metrics are the same only if each of their times and counts has the same text,
  -- provided that the text of a number has no end of a line.
  pub metrics_dump_info-cancel :
      (m n : Metrics D)
      → metrics_dump_info show show_double show_int m
        ≡ metrics_dump_info show show_double show_int n
      → (show m.request_start_ms ≡ show n.request_start_ms)
        × (show m.request_end_ms ≡ show n.request_end_ms)
        × (show_double m.dns_time_ms ≡ show_double n.dns_time_ms)
        × (show_double m.connect_time_ms ≡ show_double n.connect_time_ms)
        × (show_double m.ssl_time_ms ≡ show_double n.ssl_time_ms)
        × (show_double m.pretransfer_time_ms ≡ show_double n.pretransfer_time_ms)
        × (show_double m.transfer_start_time_ms ≡ show_double n.transfer_start_time_ms)
        × (show_double m.totoal_time_ms ≡ show_double n.totoal_time_ms)
        × (show_int m.receive_byte_count ≡ show_int n.receive_byte_count)
        × (show_int m.send_byte_count ≡ show_int n.send_byte_count)
  unfolding metrics_dump_info drop_first
  metrics_dump_info-cancel m n same =
      let (e0, r0) =
        line-cancel (codes "request_start_time: ") (show m.request_start_ms)
          (show n.request_start_ms) _ _ (show-OneLine m.request_start_ms)
          (show-OneLine n.request_start_ms) (ap drop_first same) in
      let (e1, r1) =
        line-cancel (codes "request_end_ms: ") (show m.request_end_ms) (show n.request_end_ms) _ _
          (show-OneLine m.request_end_ms) (show-OneLine n.request_end_ms) r0 in
      let (e2, r2) =
        line-cancel (codes "dns_time_ms: ") (show_double m.dns_time_ms) (show_double n.dns_time_ms)
          _ _ (show_double-OneLine m.dns_time_ms) (show_double-OneLine n.dns_time_ms) r1 in
      let (e3, r3) =
        line-cancel (codes "connect_time_ms: ") (show_double m.connect_time_ms)
          (show_double n.connect_time_ms) _ _ (show_double-OneLine m.connect_time_ms)
          (show_double-OneLine n.connect_time_ms) r2 in
      let (e4, r4) =
        line-cancel (codes "ssl_time_ms: ") (show_double m.ssl_time_ms) (show_double n.ssl_time_ms)
          _ _ (show_double-OneLine m.ssl_time_ms) (show_double-OneLine n.ssl_time_ms) r3 in
      let (e5, r5) =
        line-cancel (codes "pretransfer_time_ms: ") (show_double m.pretransfer_time_ms)
          (show_double n.pretransfer_time_ms) _ _ (show_double-OneLine m.pretransfer_time_ms)
          (show_double-OneLine n.pretransfer_time_ms) r4 in
      let (e6, r6) =
        line-cancel (codes "transfer_start_time_ms: ") (show_double m.transfer_start_time_ms)
          (show_double n.transfer_start_time_ms) _ _ (show_double-OneLine m.transfer_start_time_ms)
          (show_double-OneLine n.transfer_start_time_ms) r5 in
      let (e7, r7) =
        line-cancel (codes "totoal_time_ms: ") (show_double m.totoal_time_ms)
          (show_double n.totoal_time_ms) _ _ (show_double-OneLine m.totoal_time_ms)
          (show_double-OneLine n.totoal_time_ms) r6 in
      let (e8, r8) =
        line-cancel (codes "receive byte count: ") (show_int m.receive_byte_count)
          (show_int n.receive_byte_count) _ _ (show_int-OneLine m.receive_byte_count)
          (show_int-OneLine n.receive_byte_count) r7 in
      let (e9, r9) =
        line-cancel (codes "send byte count: ") (show_int m.send_byte_count)
          (show_int n.send_byte_count) _ _ (show_int-OneLine m.send_byte_count)
          (show_int-OneLine n.send_byte_count) r8 in
      (e0, e1, e2, e3, e4, e5, e6, e7, e8, e9)
