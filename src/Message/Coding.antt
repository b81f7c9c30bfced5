-- ===== src/Message/Coding.antt =====
-- `Encode` of source/base/messageloop/message.h and .cpp.
use mathlib.Core.List.{append_assoc}
use ffnetwork.Common.{
  ltb, leb, ℕ, ◌+◌, ◌-◌, ◌%◌, ◌^◌, ◌≤◌, ◌<◌, ◌≡◌, refl, sym, ap, ◌∙◌, Bool, true, false, List, [],
  ◌++◌, map, Option, none, some, Option-cases, inl, inr, ok, arith, length, take, drop, replicate,
  length-append, length-take, length-drop, length-replicate, length-map,
}
use ffnetwork.Common.Slices.{take-append_le, take_all, take-append_eq}
use ffnetwork.Message.Grow.{next_of_two_size_lem}
use ffnetwork.Message.{
  Message, Byte, next_of_two_size, resize, reserve, prepare_encode, write, encode,
}

abbrev pub bytes_of_buffer : Option (List Byte) → List Byte
bytes_of_buffer none = []
bytes_of_buffer (some b) = b

abbrev pub bytes_of : Message → List Byte
bytes_of m = bytes_of_buffer m.buffer

-- What was encoded.
abbrev pub content : Message → List Byte
content m = take m.data_length (bytes_of m)

-- The lengths agree with the buffer, and the positions lie within it.
pub record IsValid (m : Message) : Type 0 where
  pub sized : length (bytes_of m) ≡ m.buffer_length
  pub written : m.data_length ≤ m.buffer_length
  pub read_within : m.size_read ≤ m.buffer_length
  pub small : m.buffer_length ≤ 2 ^ 31

module _ (alloc : ℕ → Bool) (memory : (s : ℕ) → alloc s ≡ true) where
  abbrev grown : Message → ℕ → Message
  grown m size = record m {
    buffer = some (bytes_of m ++ replicate (size - m.buffer_length) none);
    buffer_length = size;
  }

  resize-eq :
      (m : Message) (size : ℕ)
      → IsValid m
      → m.buffer_length < size
      → resize alloc m size ≡ ok (grown m size, true)
  unfolding resize
  resize-eq m size v more = elim (Option-cases m.buffer) [
    | inl null ↦
        let empty : m.buffer_length ≡ 0 =
          omega (arith, sym v.sized, ap (λ b. length (bytes_of_buffer b)) null) in
        let nothing : size - 0 ≡ size = omega arith in
        rw (null, empty, memory size, nothing, resize)
    | inr (b, there) ↦
        let long : length b ≡ m.buffer_length =
          ap (λ b. length (bytes_of_buffer b)) (sym there) ∙ v.sized in
        let test : ltb m.buffer_length size ≡ true = ground arith in
        rw (there, test, memory size, take_all size b (omega (arith, long)), long, resize)
  ]

  reserve-eq :
      (m : Message) (size : ℕ)
      → IsValid m
      → m.buffer_length < size
      → size ≤ 2 ^ 31
      → reserve alloc m size ≡ ok (grown m (next_of_two_size size), true)
  unfolding reserve
  reserve-eq m size v more small =
      let test : leb size m.buffer_length ≡ false = ground arith in
      let cut : size % 2 ^ 32 ≡ size = omega arith in
      let (k, power, above, below, least) = next_of_two_size_lem size (omega arith) small in
      rw (test, cut, resize-eq m (next_of_two_size size) v (omega (arith, power, above)), reserve)

  prepare_encode-eq :
      (m : Message) (n : ℕ)
      → IsValid m
      → 0 < n
      → m.buffer_length + n ≤ 2 ^ 31
      → prepare_encode alloc m n
        ≡ ok (
          record (grown m (next_of_two_size (m.buffer_length + n))) {
            data_length = m.data_length + n;
          },
          some m.data_length,
        )
  unfolding prepare_encode
  prepare_encode-eq m n v pos fits =
      let fits_buffer : (m.buffer_length + n) % 2 ^ 64 ≡ m.buffer_length + n = omega arith in
      let fits_data : (m.data_length + n) % 2 ^ 64 ≡ m.data_length + n = omega (arith, v.written) in
      rw (
        fits_buffer,
        reserve-eq m (m.buffer_length + n) v (omega arith) fits,
        fits_data,
        prepare_encode,
      )

  -- The buffer after `Encode` grew it.
  space : Message → ℕ → List Byte
  space m n =
      bytes_of m ++ replicate (next_of_two_size (m.buffer_length + n) - m.buffer_length) none

  pub encoded : Message → List ℕ → Message
  encoded m bytes = record m {
    buffer = some (
        take m.data_length (space m (length bytes))
        ++ (map some bytes ++ drop (m.data_length + length bytes) (space m (length bytes))));
    buffer_length = next_of_two_size (m.buffer_length + length bytes);
    data_length = m.data_length + length bytes;
  }

  length-space :
      (m : Message) (n : ℕ)
      → IsValid m
      → m.buffer_length ≤ next_of_two_size (m.buffer_length + n)
      → length (space m n) ≡ next_of_two_size (m.buffer_length + n)
  unfolding space
  length-space m n v grows =
      let rest = next_of_two_size (m.buffer_length + n) - m.buffer_length in
      let unwritten : Byte = none in
      omega (
        arith,
        length-append (bytes_of m) (replicate rest none),
        length-replicate rest unwritten,
        v.sized,
        grows,
      )

  encode-eq :
      (m : Message) (bytes : List ℕ)
      → IsValid m
      → 0 < length bytes
      → m.buffer_length + length bytes ≤ 2 ^ 31
      → encode alloc m bytes ≡ ok (encoded m bytes, true)
  unfolding encode write encoded space
  encode-eq m bytes v pos fits =
      let (k, power, above, below, least) =
        next_of_two_size_lem (m.buffer_length + length bytes) (omega arith) fits in
      let long = length-space m (length bytes) v (omega (arith, power, above)) in
      let test : leb (m.data_length + length bytes) (length (space m (length bytes))) ≡ true =
        ground (arith, long, power, above, v.written) in
      rw (prepare_encode-eq m (length bytes) v pos fits, test, encode)

  encoded-IsValid :
      (m : Message) (bytes : List ℕ)
      → IsValid m
      → 0 < length bytes
      → m.buffer_length + length bytes ≤ 2 ^ 31
      → IsValid (encoded m bytes)
  unfolding encoded
  encoded-IsValid m bytes v pos fits =
      let (k, power, above, below, least) =
        next_of_two_size_lem (m.buffer_length + length bytes) (omega arith) fits in
      let b = space m (length bytes) in
      let d = m.data_length in
      let n = length bytes in
      let long = length-space m n v (omega (arith, power, above)) in
      record {
        sized = omega (
          arith,
          length-append (take d b) (map some bytes ++ drop (d + n) b),
          length-append (map some bytes) (drop (d + n) b),
          length-take d b,
          length-drop (d + n) b,
          length-map bytes (λ x. some x),
          long,
          power,
          above,
          v.written,
        );
        written = omega (arith, power, above, v.written);
        read_within = omega (arith, power, above, v.read_within);
        small = omega (arith, power, least);
      }

  encoded-content :
      (m : Message) (bytes : List ℕ)
      → IsValid m
      → 0 < length bytes
      → m.buffer_length + length bytes ≤ 2 ^ 31
      → content (encoded m bytes) ≡ content m ++ map some bytes
  unfolding encoded space
  encoded-content m bytes v pos fits =
      let d = m.data_length in
      let n = length bytes in
      let b = space m n in
      let (k, power, above, below, least) =
        next_of_two_size_lem (m.buffer_length + length bytes) (omega arith) fits in
      let long = length-space m n v (omega (arith, power, above)) in
      let kept : take d b ≡ take d (bytes_of m) =
        take-append_le d (bytes_of m) _ (omega (arith, v.sized, v.written)) in
      ap (take (d + n)) (sym (append_assoc (take d b) (map some bytes) (drop (d + n) b)))
      ∙ take-append_eq (d + n) (take d b ++ map some bytes) (drop (d + n) b) (
          omega (
            arith,
            length-append (take d b) (map some bytes),
            length-take d b,
            length-map bytes (λ x. some x),
            long,
            power,
            above,
            v.written,
          ))
      ∙ ap (λ xs. xs ++ map some bytes) kept

  -- With memory, an `Encode` of a non-empty value that fits keeps the message valid, appends the
  -- bytes to what was encoded and keeps the read position. The new length of
  -- the buffer is the power of two that NextOfTwoSize makes of the old length plus the length of the
  -- value, which is that sum at least.
  pub encode_lem :
      (m : Message) (bytes : List ℕ)
      → IsValid m
      → 0 < length bytes
      → m.buffer_length + length bytes ≤ 2 ^ 31
      → (m' : Message) × (encode alloc m bytes ≡ ok (m', true))
        × IsValid m'
        × (content m' ≡ content m ++ map some bytes)
        × (m'.size_read ≡ m.size_read)
        × (m'.buffer_length ≡ next_of_two_size (m.buffer_length + length bytes))
        × (m.buffer_length + length bytes ≤ m'.buffer_length)
  unfolding encoded
  encode_lem m bytes v pos fits =
      let (k, power, above, below, least) =
        next_of_two_size_lem (m.buffer_length + length bytes) (omega arith) fits in
      (
        encoded m bytes,
        encode-eq m bytes v pos fits,
        encoded-IsValid m bytes v pos fits,
        encoded-content m bytes v pos fits,
        refl,
        refl,
        omega (arith, power, above),
      )
