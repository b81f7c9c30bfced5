-- ===== src/Message/Tests.antt =====
-- Concrete messages (source/base/messageloop/message.h and .cpp).
use ffnetwork.Common.{
  ℕ, ◌≡◌, refl, Bool, true, [], ◌∷◌, ◌+◌, ◌*◌, ◌^◌, map, some, none, ok, ◌>>=◌, arith, ◌++◌, ◌<◌,
  ◌≤◌, take, drop, replicate,
}
use ffnetwork.Message.{Message, new_message, encode, decode, next_of_two_size}
use ffnetwork.Message.Grow.{next_of_two_size_lem}
use ffnetwork.Message.Coding.{IsValid, content, encode_lem}
use ffnetwork.Message.Decoding.{decode_lem}
use ffnetwork.Message.RoundTrip.{encode_all, decode_all, decode_all-encode_all}
use ffnetwork.Message.Faults.{decode_bound}

abbrev plenty : ℕ → Bool
plenty s = true

-- Five bytes encoded in a buffer of eight, two of them decoded.
abbrev five : Message
five = record {
  buffer = some (map some (1 ∷ 2 ∷ 3 ∷ 4 ∷ 5 ∷ []) ++ replicate 3 none);
  buffer_length = 8;
  data_length = 5;
  size_read = 2;
}

five-IsValid : IsValid five
five-IsValid = record {
  sized = refl;
  written = omega arith;
  read_within = omega arith;
  small = omega arith;
}

next_of_two_size_lem_example :
    (k : ℕ) × (next_of_two_size 5 ≡ 2 ^ k) × (5 ≤ 2 ^ k) × (2 ^ k < 2 * 5) × (2 ^ k ≤ 2 ^ 31)
next_of_two_size_lem_example = next_of_two_size_lem 5 (omega arith) (omega arith)

encode_lem_example :
    (m' : Message) × (encode plenty five (6 ∷ 7 ∷ []) ≡ ok (m', true))
    × IsValid m'
    × (content m' ≡ content five ++ map some (6 ∷ 7 ∷ []))
    × (m'.size_read ≡ five.size_read)
    × (m'.buffer_length ≡ next_of_two_size (five.buffer_length + 2))
    × (five.buffer_length + 2 ≤ m'.buffer_length)
encode_lem_example =
    encode_lem plenty (λ s. refl) five (6 ∷ 7 ∷ []) five-IsValid (omega arith) (omega arith)

decode_lem_example : decode five 2 ≡ ok (record five { size_read = 4 }, some (some 3 ∷ some 4 ∷ []))
decode_lem_example = decode_lem five 2 five-IsValid (omega arith) (omega arith)

decode_all-encode_all_example :
    encode_all plenty new_message ((1 ∷ 2 ∷ []) ∷ (3 ∷ []) ∷ [])
      >>= (λ m. decode_all m (2 ∷ 1 ∷ []))
    ≡ ok (some (some 1 ∷ some 2 ∷ []) ∷ some (some 3 ∷ []) ∷ [])
unfolding next_of_two_size
decode_all-encode_all_example =
    decode_all-encode_all plenty (λ s. refl) ((1 ∷ 2 ∷ []) ∷ (3 ∷ []) ∷ [])
      (omega arith, omega arith, (omega arith, omega arith, tt))

decode_bound_example :
    (five.size_read + 6 ≤ five.buffer_length
      → decode five 6
        ≡ ok (
          record five { size_read = 8 },
          some (take 6 (drop 2 (map some (1 ∷ 2 ∷ 3 ∷ 4 ∷ 5 ∷ []) ++ replicate 3 none))),
        ))
    × (five.buffer_length < five.size_read + 6 → decode five 6 ≡ ok (five, none))
decode_bound_example = decode_bound five 6 five-IsValid (omega arith) (omega arith)

-- A buffer at the limit; its contents do not matter.
abbrev huge : Message
huge = record { buffer = some []; buffer_length = 2 ^ 31; data_length = 0; size_read = 0 }
