-- ===== src/Message.antt =====
-- source/base/messageloop/message.h and .cpp: `Message`, a growing byte buffer with a write and a
-- read position. `size_t` has 64 bits. `malloc` and `realloc` are not in the repository: whether
-- they succeed for a size is the argument `alloc`. The build is one in which `FF_DCHECK` checks.
pub mod Grow
pub mod Coding
pub mod Decoding
pub mod RoundTrip
pub mod Faults
mod Tests
use Prim.Native.Nat.{bit_or}
use ffnetwork.Common.{
  ℕ, ◌+◌, ◌-◌, ◌/◌, ◌%◌, ◌^◌, Bool, true, false, ltb, leb, ◌==◌, if◌then◌else◌, List, [], ◌∷◌, ◌++◌,
  map, Option, none, some, Outcome, ok, err, check_failed, null_deref, overrun, ◌>>=◌, ◌>>◌, guard,
  length, take, drop, replicate,
}

-- `x |= x >> s`
abbrev pub smear : ℕ → ℕ → ℕ
smear s x = bit_or x (x / 2 ^ s)

-- `NextOfTwoSize`, on a `uint32_t`.
unfoldable pub next_of_two_size : ℕ → ℕ
next_of_two_size x =
    if x == 0 then 1 else (smear 16 (smear 8 (smear 4 (smear 2 (smear 1 (x - 1))))) + 1) % 2 ^ 32

-- A byte that was never written is `none`.
abbrev pub Byte : Type 0
Byte = Option ℕ

-- A null `buffer_` is `none`.
pub record Message : Type 0 where
  pub buffer : Option (List Byte)
  pub buffer_length : ℕ
  pub data_length : ℕ
  pub size_read : ℕ

abbrev pub new_message : Message
new_message = record { buffer = none; buffer_length = 0; data_length = 0; size_read = 0 }

abbrev pub reset_read : Message → Message
reset_read m = record m { size_read = 0 }

-- `memcpy` to a position of the buffer.
unfoldable pub write : Message → ℕ → List ℕ → Outcome Message
write m pos bytes = elim m.buffer [
  | none ↦ err null_deref
  | some b ↦
      if leb (pos + length bytes) (length b)
      then ok (record m {
        buffer = some (take pos b ++ (map some bytes ++ drop (pos + length bytes) b));
      })
      else err overrun
]

-- `memcpy` from a position of the buffer.
unfoldable pub read : Message → ℕ → ℕ → Outcome (List Byte)
read m pos size = elim m.buffer [
  | none ↦ err null_deref
  | some b ↦ if leb (pos + size) (length b) then ok (take size (drop pos b)) else err overrun
]

unfoldable pub prepare_decode : Message → ℕ → Message × Option ℕ
prepare_decode m size =
    if ltb m.buffer_length ((size + m.size_read) % 2 ^ 64)
    then (m, none)
    else (record m { size_read = (m.size_read + size) % 2 ^ 64 }, some m.size_read)

-- `Decode` of a type with `sizeof(T) == size`, so that `size` is not 0; `none` is its result `false`.
unfoldable pub decode : Message → ℕ → Outcome (Message × Option (List Byte))
unfolding prepare_decode read
decode m size =
    let (m', p) = prepare_decode m size in
    elim p [ none ↦ ok (m', none) | some pos ↦ do bytes ← read m' pos size; ok (m', some bytes) ]

module _ (alloc : ℕ → Bool) where
  unfoldable pub resize : Message → ℕ → Outcome (Message × Bool)
  resize m size = elim m.buffer [
    | none ↦ do
      guard (m.buffer_length == 0) check_failed
      ok (
          if alloc size
          then (record m { buffer = some (replicate size none); buffer_length = size }, true)
          else (m, false))
    | some b ↦ do
      guard (ltb m.buffer_length size) check_failed
      ok (
          if alloc size
          then (
            record m {
              buffer = some (take size b ++ replicate (size - length b) none);
              buffer_length = size;
            },
            true,
          )
          else (m, false))
  ]

  -- The argument of `NextOfTwoSize` is cut to 32 bits.
  unfoldable pub reserve : Message → ℕ → Outcome (Message × Bool)
  unfolding resize next_of_two_size
  reserve m size =
      if leb size m.buffer_length then ok (m, true) else resize m (next_of_two_size (size % 2 ^ 32))

  unfoldable pub prepare_encode : Message → ℕ → Outcome (Message × Option ℕ)
  unfolding reserve
  prepare_encode m size = do
    (m', reserved) ← reserve m ((m.buffer_length + size) % 2 ^ 64)
    ok (
        if reserved
        then (record m' { data_length = (m'.data_length + size) % 2 ^ 64 }, some m'.data_length)
        else (m', none))

  -- `Encode` of a value with these bytes.
  unfoldable pub encode : Message → List ℕ → Outcome (Message × Bool)
  unfolding prepare_encode write
  encode m bytes = do
    (m', p) ← prepare_encode m (length bytes)
    elim p [ none ↦ ok (m', false) | some pos ↦ do m'' ← write m' pos bytes; ok (m'', true) ]
