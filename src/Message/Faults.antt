-- ===== src/Message/Faults.antt =====
-- The limits of `Encode` and `Decode` of source/base/messageloop/message.h and .cpp.
use ffnetwork.Common.{
  ℕ, ◌+◌, ◌%◌, ◌^◌, ◌≤◌, ◌<◌, ◌≡◌, Bool, true, false, ltb, leb, List, none, some, ok, err,
  check_failed, arith, length, take, drop,
}
use ffnetwork.Message.Coding.{IsValid, bytes_of}
use ffnetwork.Message.Decoding.{moved_by, decode_within}
use ffnetwork.Message.Grow.{next_of_two_size_wraps}
use ffnetwork.Message.{
  Message, Byte, resize, reserve, prepare_encode, encode, prepare_decode, decode,
}

-- `Decode` of a value with at most 2^63 bytes from a valid message compares with the buffer, not
-- with what was encoded: it returns the bytes at the read position, written or not, when they lie
-- within the buffer, and `false` with the message as it was when they do not.
pub decode_bound :
    (m : Message) (n : ℕ)
    → IsValid m
    → 0 < n
    → n ≤ 2 ^ 63
    → (m.size_read + n ≤ m.buffer_length
        → decode m n ≡ ok (moved_by m n, some (take n (drop m.size_read (bytes_of m)))))
      × (m.buffer_length < m.size_read + n → decode m n ≡ ok (m, none))
unfolding decode prepare_decode
decode_bound m n v pos small = (
  λ inside. decode_within m n v pos inside,
  λ beyond.
      let test : ltb m.buffer_length ((n + m.size_read) % 2 ^ 64) ≡ true =
        ground (arith, v.small, v.read_within) in
      rw (test, test, decode, prepare_decode),
)

resize_zero :
    (alloc : ℕ → Bool) (m : Message) (b : List Byte)
    → m.buffer ≡ some b
    → resize alloc m 0 ≡ err check_failed
unfolding resize
resize_zero alloc m b there =
    let shrinks : ltb m.buffer_length 0 ≡ false = ground arith in rw (there, shrinks, resize)

-- The size that `PrepareEncode` asks for is cut to 0 and refused.
reserve_too_large :
    (alloc : ℕ → Bool) (m : Message) (b : List Byte) (size : ℕ)
    → m.buffer ≡ some b
    → m.buffer_length < size
    → 2 ^ 31 < size
    → size < 2 ^ 32
    → reserve alloc m size ≡ err check_failed
unfolding reserve
reserve_too_large alloc m b size there more big fits =
    let test : leb size m.buffer_length ≡ false = ground arith in
    let cut : size % 2 ^ 32 ≡ size = omega arith in
    rw (test, cut, next_of_two_size_wraps size big fits, resize_zero alloc m b there, reserve)

-- An `Encode` that takes the buffer beyond 2^31 bytes aborts: `NextOfTwoSize` wraps to 0, and
-- `Resize` checks that it makes the buffer larger.
pub encode_too_large :
    (alloc : ℕ → Bool) (m : Message) (b : List Byte) (bytes : List ℕ)
    → m.buffer ≡ some b
    → 2 ^ 31 < m.buffer_length + length bytes
    → m.buffer_length + length bytes < 2 ^ 32
    → 0 < length bytes
    → encode alloc m bytes ≡ err check_failed
unfolding encode prepare_encode
encode_too_large alloc m b bytes there big fits pos =
    let size : (m.buffer_length + length bytes) % 2 ^ 64 ≡ m.buffer_length + length bytes =
      omega arith in
    rw (
      size,
      reserve_too_large alloc m b (m.buffer_length + length bytes) there (omega arith) big fits,
      encode,
      prepare_encode,
    )
