-- ===== src/Message/Decoding.antt =====
-- `Decode` of source/base/messageloop/message.h and .cpp.
use ffnetwork.Common.{
  ltb, leb, ℕ, ◌+◌, ◌%◌, ◌^◌, ◌≤◌, ◌<◌, ◌≡◌, sym, ap, ◌∙◌, true, false, some, Option-cases, inl,
  inr, ok, arith, length, take, drop,
}
use ffnetwork.Common.Slices.{take-drop-take}
use ffnetwork.Message.{Message, read, prepare_decode, decode}
use ffnetwork.Message.Coding.{IsValid, content, bytes_of, bytes_of_buffer}

prepare_decode-eq :
    (m : Message) (n : ℕ)
    → IsValid m
    → m.size_read + n ≤ m.buffer_length
    → prepare_decode m n ≡ (record m { size_read = m.size_read + n }, some m.size_read)
unfolding prepare_decode
prepare_decode-eq m n v inside =
    let test : ltb m.buffer_length ((n + m.size_read) % 2 ^ 64) ≡ false = ground (arith, v.small) in
    let moved : (m.size_read + n) % 2 ^ 64 ≡ m.size_read + n = omega (arith, v.small) in
    rw (test, moved)

read-eq :
    (m : Message) (pos n : ℕ)
    → IsValid m
    → 0 < n
    → pos + n ≤ m.buffer_length
    → read m pos n ≡ ok (take n (drop pos (bytes_of m)))
unfolding read
read-eq m pos n v some_bytes inside = elim (Option-cases m.buffer) [
  | inl null ↦ absurd (omega (arith, v.sized, ap (λ b. length (bytes_of_buffer b)) null))
  | inr (b, there) ↦
      let long : length b ≡ m.buffer_length =
        ap (λ b. length (bytes_of_buffer b)) (sym there) ∙ v.sized in
      let room : leb (pos + n) (length b) ≡ true = ground (arith, long) in rw (there, room, read)
]

abbrev pub moved_by : Message → ℕ → Message
moved_by m n = record m { size_read = m.size_read + n }

pub moved_by-IsValid :
    (m : Message) (n : ℕ) → IsValid m → m.size_read + n ≤ m.buffer_length → IsValid (moved_by m n)
moved_by-IsValid m n v inside = record {
  sized = v.sized;
  written = v.written;
  read_within = inside;
  small = v.small;
}

pub decode_within :
    (m : Message) (n : ℕ)
    → IsValid m
    → 0 < n
    → m.size_read + n ≤ m.buffer_length
    → decode m n ≡ ok (moved_by m n, some (take n (drop m.size_read (bytes_of m))))
unfolding decode
decode_within m n v pos inside =
    let prepared = prepare_decode-eq m n v inside in
    let value = read-eq (moved_by m n) m.size_read n (moved_by-IsValid m n v inside) pos inside in
    rw (prepared, ap (λ r. r.0) prepared, value, decode)

-- A `Decode` of a non-empty value inside what was encoded returns the bytes at the read position
-- and moves it behind them.
pub decode_lem :
    (m : Message) (n : ℕ)
    → IsValid m
    → 0 < n
    → m.size_read + n ≤ m.data_length
    → decode m n ≡ ok (moved_by m n, some (take n (drop m.size_read (content m))))
decode_lem m n v pos inside = rw (
  decode_within m n v pos (omega (arith, v.written)),
  take-drop-take n m.size_read m.data_length (bytes_of m) inside,
)
