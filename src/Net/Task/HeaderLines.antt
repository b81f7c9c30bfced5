-- ===== src/Net/Task/HeaderLines.antt =====
-- The header lines of a request and of a response (source/net/request_task_impl.cpp).
use Prim.Native.Nat.{min}
use ffnetwork.Common.{
  ℕ, zero, suc, ◌+◌, ◌≡◌, refl, ap, true, false, ◌==◌, ltb, [], ◌∷◌, ◌++◌, none, some, arith,
  length, take, drop, All, length-append, ◌∙◌,
}
use ffnetwork.Common.Maps.{bytes_key, insert, lookup-insert_self, lookup-insert, same_bytes}
use ffnetwork.Common.Slices.{take-append_eq}
use ffnetwork.Net.Request.{Bytes}
use ffnetwork.Net.Task.{Task, find_colon, on_receive_header, header_at}

abbrev pub NoColon : Bytes → Type 0
NoColon = All (λ c. (c == 58) ≡ false)

find_colon-append : (k s : Bytes) → NoColon k → find_colon (k ++ 58 ∷ s) ≡ some (length k)
unfolding find_colon
find_colon-append [] s h = refl
find_colon-append (c ∷ k) s h = rw (h.0, find_colon-append k s h.1)

find_colon-none : (k : Bytes) → NoColon k → find_colon k ≡ none
unfolding find_colon
find_colon-none [] h = refl
find_colon-none (c ∷ k) h = rw (h.0, find_colon-none k h.1)

drop-key : (k value : Bytes) (n : ℕ) → n ≡ length k + 2 → drop n (k ++ 58 ∷ 32 ∷ value) ≡ value
drop-key [] value n h = rw h
drop-key (c ∷ k) value zero h = absurd (omega arith)
drop-key (c ∷ k) value (suc n) h = drop-key k value n (omega (arith, h))

positive : (n : ℕ) → ltb 0 (suc n) ≡ true
positive n = ground arith

-- A line "key: value" with its end, whose key is not empty and has no colon, sets the header `key`
-- to all that follows the space, the end of the line included, and no other header; a line without
-- a colon changes nothing.
pub on_receive_header_lem :
    (t : Task) (c : ℕ) (k value : Bytes)
    → NoColon (c ∷ k)
    → (header_at (c ∷ k) (on_receive_header ((c ∷ k) ++ 58 ∷ 32 ∷ value) t).response ≡ some value)
      × ((other : Bytes)
          → same_bytes (c ∷ k) other ≡ false
          → header_at other (on_receive_header ((c ∷ k) ++ 58 ∷ 32 ∷ value) t).response
            ≡ header_at other t.response)
      × (on_receive_header (c ∷ k) t ≡ t)
unfolding on_receive_header
on_receive_header_lem t c k value h =
    let key = c ∷ k in
    let line = key ++ 58 ∷ 32 ∷ value in
    let found = find_colon-append key (32 ∷ value) h in
    let whole : min (length key + 2) (length line) ≡ length key + 2 =
      omega (arith, length-append key (58 ∷ 32 ∷ value)) in
    let start : take (length k) (k ++ 58 ∷ 32 ∷ value) ≡ k =
      take-append_eq (length k) k (58 ∷ 32 ∷ value) refl in
    let stored : on_receive_header line t ≡ record t {
      response = record t.response { headers = insert key value t.response.headers };
    } =
      rw (
        found,
        whole,
        start,
        positive (length k),
        drop-key key value (length key + 2) refl,
        on_receive_header,
      ) in
    (
      ap (λ u. header_at key u.response) stored ∙ lookup-insert_self key value t.response.headers,
      λ other differs.
          ap (λ u. header_at other u.response) stored
          ∙ lookup-insert key other value t.response.headers
          ∙ rw differs,
      rw (find_colon-none key h, on_receive_header),
    )
