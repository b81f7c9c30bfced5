-- ===== src/Message/RoundTrip.antt =====
-- Values encoded one after the other and decoded in the same order
-- (source/base/messageloop/message.h).
use mathlib.Core.Path.{subst}
use mathlib.Core.List.{append_assoc, append-nil}
use ffnetwork.Common.{
  ℕ, ◌+◌, ◌^◌, ◌≤◌, ◌<◌, ◌≡◌, refl, sym, ap, ◌∙◌, Bool, true, List, [], ◌∷◌, ◌++◌, map, Option,
  some, Outcome, ok, ◌>>=◌, arith, length, take, drop, length-append, length-map, length-take,
  length-drop,
}
use ffnetwork.Common.Slices.{take-append_eq, drop-append_eq, drop-drop}
use ffnetwork.Message.Coding.{IsValid, content, encode_lem, bytes_of}
use ffnetwork.Message.Decoding.{decode_lem, moved_by, moved_by-IsValid}
use ffnetwork.Message.{Message, Byte, new_message, encode, decode, next_of_two_size}

module _ (alloc : ℕ → Bool) where
  unfoldable pub encode_all : Message → List (List ℕ) → Outcome Message
  encode_all m [] = ok m
  encode_all m (b ∷ bs) = do (m', done) ← encode alloc m b; encode_all m' bs

unfoldable pub decode_all : Message → List ℕ → Outcome (List (Option (List Byte)))
decode_all m [] = ok []
decode_all m (n ∷ ns) = do (m', v) ← decode m n; vs ← decode_all m' ns; ok (v ∷ vs)

-- The values are not empty and the buffer, of this length before, stays within 2^31 bytes.
abbrev pub Room : ℕ → List (List ℕ) → Type 0
Room l [] = Unit
Room l (b ∷ bs) =
    (0 < length b) × (l + length b ≤ 2 ^ 31) × Room (next_of_two_size (l + length b)) bs

-- The bytes of all values.
abbrev joined : List (List ℕ) → List Byte
joined [] = []
joined (b ∷ bs) = map some b ++ joined bs

decode_all_lem :
    (m : Message) (l : ℕ) (bs : List (List ℕ))
    → IsValid m
    → Room l bs
    → m.size_read ≤ m.data_length
    → drop m.size_read (content m) ≡ joined bs
    → decode_all m (map length bs) ≡ ok (map (λ b. some (map some b)) bs)
unfolding decode_all
decode_all_lem m l [] v room within left = refl
decode_all_lem m l (b ∷ bs) v room within left =
    let n = length b in
    let rest = content m in
    let long : length (drop m.size_read rest) ≡ n + length (joined bs) =
      omega (
        arith,
        ap length left,
        length-append (map some b) (joined bs),
        length-map b (λ x. some x),
      ) in
    let inside : m.size_read + n ≤ m.data_length = omega (
      arith,
      long,
      length-drop m.size_read rest,
      length-take m.data_length (bytes_of m),
      room.0,
      within,
    ) in
    let moved-IsValid = moved_by-IsValid m n v (omega (arith, v.written)) in
    let value : take n (drop m.size_read rest) ≡ map some b =
      ap (take n) left ∙ take-append_eq n (map some b) (joined bs) (length-map b (λ x. some x)) in
    let next : drop (m.size_read + n) rest ≡ joined bs =
      sym (drop-drop n m.size_read (m.size_read + n) rest refl)
      ∙ ap (drop n) left
      ∙ drop-append_eq n (map some b) (joined bs) (length-map b (λ x. some x)) in
    let others = decode_all_lem (moved_by m n) _ bs moved-IsValid room.2 inside next in
    rw (decode_lem m n v room.0 inside, value, others)

encode_all_lem :
    (alloc : ℕ → Bool)
    → ((s : ℕ) → alloc s ≡ true)
    → (m : Message) (bs : List (List ℕ)) → IsValid m
    → Room m.buffer_length bs
    → (m' : Message) × (encode_all alloc m bs ≡ ok m')
      × IsValid m'
      × (content m' ≡ content m ++ joined bs)
      × (m'.size_read ≡ m.size_read)
unfolding encode_all
encode_all_lem alloc memory m [] v room = (m, refl, v, sym (append-nil (content m)), refl)
encode_all_lem alloc memory m (b ∷ bs) v room =
    let (m1, step, v1, added, kept, size, grows) = encode_lem alloc memory m b v room.0 room.1 in
    let room1 : Room m1.buffer_length bs = subst (λ l. Room l bs) (sym size) room.2 in
    let (m2, steps, v2, added2, kept2) = encode_all_lem alloc memory m1 bs v1 room1 in
    (
      m2,
      rw (step, steps),
      v2,
      added2 ∙ ap (λ xs. xs ++ joined bs) added ∙ append_assoc (content m) (map some b) (joined bs),
      kept2 ∙ kept,
    )

new_message-IsValid : IsValid new_message
new_message-IsValid = record {
  sized = refl;
  written = omega arith;
  read_within = omega arith;
  small = omega arith;
}

-- With memory, values that are not empty and fit are decoded as they were encoded: a new message
-- that takes them by `Encode`, one after the other, gives them back by as many calls of `Decode`.
pub decode_all-encode_all :
    (alloc : ℕ → Bool)
    → ((s : ℕ) → alloc s ≡ true)
    → (bs : List (List ℕ)) → Room 0 bs
    → encode_all alloc new_message bs >>= (λ m. decode_all m (map length bs))
      ≡ ok (map (λ b. some (map some b)) bs)
decode_all-encode_all alloc memory bs room =
    let (m, steps, v, added, kept) =
      encode_all_lem alloc memory new_message bs new_message-IsValid room in
    let start : drop m.size_read (content m) ≡ joined bs = rw (kept) added in
    rw (steps, decode_all_lem m 0 bs v room (omega (arith, kept)) start)
