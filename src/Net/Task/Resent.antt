-- ===== src/Net/Task/Resent.antt =====
-- The header lines that a request sends, as `OnReceiveHeader` reads such lines
-- (source/net/request_task_impl.cpp).
use mathlib.Core.List.{append_assoc}
use ffnetwork.Common.{
  All, ◌==◌, ◌≡◌, ◌≢◌, refl, sym, ap, ◌∙◌, true, false, Bool-cases, if◌then◌else◌, List, [], ◌∷◌,
  ◌++◌, Option, none, some, inl, inr, arith,
}
use ffnetwork.Common.Maps.{bytes_key, bytes_sound, bytes_refl, lookup, same_bytes}
use ffnetwork.Net.Request.{Bytes, Headers}
use ffnetwork.Net.Task.{
  c_str, Task, CurlOption, opt_range, range, construct_headers, on_receive_header, header_at,
}
use ffnetwork.Net.Task.HeaderLines.{NoColon, on_receive_header_lem}

-- Lines that arrive one after the other, each with this end.
unfoldable pub receive_all : Bytes → List Bytes → Task → Task
receive_all end [] t = t
receive_all end (line ∷ lines) t = receive_all end lines (on_receive_header (line ++ end) t)

-- No byte is 0.
abbrev pub NoNul : Bytes → Type 0
NoNul = All (λ c. (c == 0) ≡ false)

-- A name of a header: it is not empty and has no colon and no byte 0.
abbrev pub IsName : Bytes → Type 0
IsName k = (k ≢ []) × NoColon k × NoNul k

c_str-whole : (s : Bytes) → NoNul s → c_str s ≡ s
unfolding c_str
c_str-whole [] h = refl
c_str-whole (c ∷ s) h = rw (h.0, c_str-whole s h.1)

line-whole : (key value : Bytes) → NoNul key → NoNul value → NoNul (key ++ 58 ∷ 32 ∷ value)
line-whole [] value h g = (refl, (refl, g))
line-whole (c ∷ key) value h g = (h.0, line-whole key value h.1 g)

-- Headers of a map, whose names differ.
pub data Named : Headers → Type 0 where
  no_headers : Named []
  header :
      {key value : Bytes} {hs : Headers}
      → IsName key
      → NoNul value
      → lookup key hs ≡ none
      → Named hs
      → Named ((key, value) ∷ hs)

-- What a response has for a name after the lines of these headers.
abbrev pub after_lines : Bytes → Option Bytes → Option Bytes → Option Bytes
after_lines end none before = before
after_lines end (some value) before = some (value ++ end)

abbrev pub read_back : Bytes → Headers → Bytes → Option Bytes → Option Bytes
read_back end hs name before =
    if same_bytes range name then before else after_lines end (lookup name hs) before

abbrev pub range_option : Option Bytes → List CurlOption
range_option none = []
range_option (some value) = opt_range value ∷ []

line_read :
    (t : Task) (key value end : Bytes)
    → IsName key
    → (header_at key (on_receive_header ((key ++ 58 ∷ 32 ∷ value) ++ end) t).response
        ≡ some (value ++ end))
      × ((other : Bytes)
          → same_bytes key other ≡ false
          → header_at other (on_receive_header ((key ++ 58 ∷ 32 ∷ value) ++ end) t).response
            ≡ header_at other t.response)
line_read t [] value end name = absurd (name.0 refl)
line_read t (c ∷ k) value end name =
    let (found, others, nothing) = on_receive_header_lem t c k (value ++ end) name.1 in
    let whole : ((c ∷ k) ++ 58 ∷ 32 ∷ value) ++ end ≡ (c ∷ k) ++ 58 ∷ 32 ∷ (value ++ end) =
      append_assoc (c ∷ k) (58 ∷ 32 ∷ value) end in
    (
      ap (λ l. header_at (c ∷ k) (on_receive_header l t).response) whole ∙ found,
      λ other differs.
          ap (λ l. header_at other (on_receive_header l t).response) whole ∙ others other differs,
    )

-- The option "Range" is no line.
read_back-range :
    (key value end name : Bytes) (hs : Headers) (before : Option Bytes)
    → same_bytes key range ≡ true
    → read_back end ((key, value) ∷ hs) name before ≡ read_back end hs name before
unfolding lookup
read_back-range key value end name hs before is_range = elim (Bool-cases (same_bytes range name)) [
  | inl hit ↦ rw hit
  | inr miss ↦
      let other : same_bytes key name ≡ false =
        ap (λ k. same_bytes k name) (bytes_sound key range is_range) ∙ miss in
      rw (miss, other)
]

-- A line sets what its name has.
read_back_line :
    (key value end name : Bytes) (hs : Headers) (before now : Option Bytes)
    → same_bytes key range ≡ false
    → lookup key hs ≡ none
    → (same_bytes key name ≡ true → now ≡ some (value ++ end))
    → (same_bytes key name ≡ false → now ≡ before)
    → read_back end hs name now ≡ read_back end ((key, value) ∷ hs) name before
unfolding lookup
read_back_line key value end name hs before now no_range apart hits misses =
    elim (Bool-cases (same_bytes key name)) [
      | inl hit ↦
          let same = bytes_sound key name hit in
          let other : same_bytes range name ≡ false = elim (Bool-cases (same_bytes range name)) [
            | inl is_range ↦
                let again : range ≡ key = bytes_sound range name is_range ∙ sym same in
                let both : true ≡ false =
                  sym (bytes_refl range) ∙ ap (λ k. same_bytes k range) again ∙ no_range in
                absurd cc
            | inr differs ↦ differs
          ] in
          let gone : lookup name hs ≡ none = sym (ap (λ k. lookup k hs) same) ∙ apart in
          rw (other, hit, gone) (hits hit)
      | inr miss ↦ ap (λ b. read_back end hs name b) (misses miss) ∙ rw miss
    ]

reads_back :
    (hs : Headers) (end name : Bytes) (t : Task)
    → Named hs
    → header_at name (receive_all end (construct_headers hs).1 t).response
      ≡ read_back end hs name (header_at name t.response)
unfolding receive_all construct_headers lookup
reads_back [] end name t n = ground arith
reads_back ((key, value) ∷ hs) end name t (header is_name no_nul apart n) =
    elim (Bool-cases (same_bytes key range)) [
      | inl hit ↦
          rw hit (reads_back hs end name t n)
          ∙ sym (read_back-range key value end name hs (header_at name t.response) hit)
      | inr miss ↦
          let t1 = on_receive_header ((key ++ 58 ∷ 32 ∷ value) ++ end) t in
          let (found, others) = line_read t key value end is_name in
          let whole : c_str (key ++ 58 ∷ 32 ∷ value) ≡ key ++ 58 ∷ 32 ∷ value =
            c_str-whole (key ++ 58 ∷ 32 ∷ value) (line-whole key value is_name.2 no_nul) in
          rw (miss, whole) (reads_back hs end name t1 n)
          ∙ read_back_line key value end name hs (header_at name t.response)
              (header_at name t1.response) miss apart
              (λ hit. ap (λ k. header_at k t1.response) (sym (bytes_sound key name hit)) ∙ found)
              (λ differs. others name differs)
    ]

range_once : (hs : Headers) → Named hs → (construct_headers hs).0 ≡ range_option (lookup range hs)
unfolding construct_headers lookup
range_once [] n = refl
range_once ((key, value) ∷ hs) (header is_name no_nul apart n) =
    elim (Bool-cases (same_bytes key range)) [
      | inl hit ↦
          let same = bytes_sound key range hit in
          rw (
            hit,
            range_once hs n,
            sym (ap (λ k. lookup k hs) same) ∙ apart,
            c_str-whole value no_nul,
          )
      | inr miss ↦ rw (miss, range_once hs n)
    ]

-- The lines that ConstructHeaders makes of headers with different names, not empty and without a
-- colon, and without a byte 0 in names and values, are read by OnReceiveHeader, each with the same
-- end, as these headers: the response has for each name the value and that end, and for other names
-- what it had. "Range" is left out: it is set as an option, once, with its value, if the request has
-- it.
pub receive_all-construct_headers :
    (hs : Headers) (end : Bytes) (t : Task)
    → Named hs
    → ((name : Bytes)
        → header_at name (receive_all end (construct_headers hs).1 t).response
          ≡ read_back end hs name (header_at name t.response))
      × ((construct_headers hs).0 ≡ range_option (lookup range hs))
receive_all-construct_headers hs end t n = (λ name. reads_back hs end name t n, range_once hs n)
