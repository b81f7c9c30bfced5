-- ===== src/Net/Task/HandleInfo.antt =====
-- `HandleInfo` of source/net/request_task_impl.cpp: the list of header lines that it makes by
-- `curl_slist_append` and frees.
use mathlib.Core.List.{append-nil, append_assoc}
use ffnetwork.Common.{
  ◌≡◌, refl, sym, ap, ◌∙◌, Bool, true, false, Bool-cases, if◌then◌else◌, List, [], ◌∷◌, ◌++◌, map,
  inl, inr,
}
use ffnetwork.Common.Maps.{same_bytes}
use ffnetwork.Net.Request.{Bytes, Headers}
use ffnetwork.Net.Task.{c_str, range, construct_headers}

-- A list of lines, the null pointer if it is empty, and the lines of lists to which nothing points any
-- more.
pub record HeaderList : Type 0 where
  pub request_headers : List Bytes
  pub lost : List Bytes

abbrev pub no_lines : HeaderList
no_lines = record { request_headers = []; lost = [] }

-- `headers = curl_slist_append(headers, ...)`: without memory the result is null, and the list is as it
-- was.
abbrev pub append_line : Bool → Bytes → HeaderList → HeaderList
append_line true line l = record l { request_headers = l.request_headers ++ line ∷ [] }
append_line false line l = record { request_headers = []; lost = l.lost ++ l.request_headers }

-- Whether there is memory for an append, and for those after it.
abbrev pub has_memory : List Bool → Bool
has_memory [] = true
has_memory (b ∷ bs) = b

abbrev pub later_memory : List Bool → List Bool
later_memory [] = []
later_memory (b ∷ bs) = bs

-- The lines of `ConstructHeaders`, by whether there is memory for each.
unfoldable pub append_headers : List Bool → Headers → HeaderList → HeaderList
append_headers memory [] l = l
append_headers memory ((key, value) ∷ hs) l =
    if same_bytes key range
    then append_headers memory hs l
    else append_headers (later_memory memory) hs
        (append_line (has_memory memory) (c_str (key ++ 58 ∷ 32 ∷ value)) l)

pub data HandleCall : Type 0 where
  slist_free_all : List Bytes → HandleCall
  easy_cleanup : HandleCall

abbrev pub free_list : List Bytes → List HandleCall
free_list [] = []
free_list (line ∷ lines) = slist_free_all (line ∷ lines) ∷ []

-- The destructor, by whether `curl_easy_init` gave a handle.
unfoldable pub destroy_handle : Bool → HeaderList → List HandleCall
destroy_handle handle l = free_list l.request_headers ++ (if handle then easy_cleanup ∷ [] else [])

abbrev pub freed : List HandleCall → List Bytes
freed [] = []
freed (slist_free_all lines ∷ cs) = lines ++ freed cs
freed (easy_cleanup ∷ cs) = freed cs

abbrev pub lines_of : Headers → List Bytes
lines_of hs = (construct_headers hs).1

-- Memory for as many lines.
abbrev pub memory_for : List Bytes → List Bool
memory_for ls = map (λ l. true) ls

lines_of-range :
    (key value : Bytes) (hs : Headers)
    → same_bytes key range ≡ true
    → lines_of ((key, value) ∷ hs) ≡ lines_of hs
unfolding construct_headers
lines_of-range key value hs hit = rw (hit, lines_of)

lines_of_line :
    (key value : Bytes) (hs : Headers)
    → same_bytes key range ≡ false
    → lines_of ((key, value) ∷ hs) ≡ (c_str (key ++ 58 ∷ 32 ∷ value)) ∷ lines_of hs
unfolding construct_headers
lines_of_line key value hs miss = rw (miss, lines_of)

append_headers-append :
    (before after : Headers) (memory : List Bool) (kept lost : List Bytes)
    → append_headers
        (memory_for (lines_of before) ++ memory)
        (before ++ after)
        (record { request_headers = kept; lost = lost })
      ≡ append_headers memory after
          (record { request_headers = kept ++ lines_of before; lost = lost })
unfolding append_headers construct_headers
append_headers-append [] after memory kept lost =
    ap (λ ls. append_headers memory after (record { request_headers = ls; lost = lost }))
      (sym (append-nil kept))
append_headers-append ((key, value) ∷ before) after memory kept lost =
    elim (Bool-cases (same_bytes key range)) [
      | inl hit ↦ rw (
        lines_of-range key value before hit,
        hit,
        append_headers-append before after memory kept lost,
      )
      | inr miss ↦
          let line = c_str (key ++ 58 ∷ 32 ∷ value) in
          rw (
            lines_of_line key value before miss,
            miss,
            append_headers-append before after memory (kept ++ line ∷ []) lost,
            append_assoc kept (line ∷ []) (lines_of before),
          )
    ]

-- With memory for all of it, the list has the lines of all headers but "Range", in their order, and
-- the destructor frees them all.
append_headers-all :
    (hs : Headers) (kept lost : List Bytes)
    → append_headers [] hs (record { request_headers = kept; lost = lost })
      ≡ record { request_headers = kept ++ lines_of hs; lost = lost }
unfolding append_headers construct_headers
append_headers-all [] kept lost =
    ap (λ ls. record { request_headers = ls; lost = lost }) (sym (append-nil kept))
append_headers-all ((key, value) ∷ hs) kept lost = elim (Bool-cases (same_bytes key range)) [
  | inl hit ↦ rw (lines_of-range key value hs hit, hit, append_headers-all hs kept lost)
  | inr miss ↦
      let line = c_str (key ++ 58 ∷ 32 ∷ value) in
      rw (
        lines_of_line key value hs miss,
        miss,
        append_headers-all hs (kept ++ line ∷ []) lost,
        append_assoc kept (line ∷ []) (lines_of hs),
      )
]

destroy_handle-frees :
    (handle : Bool) (lines lost : List Bytes)
    → freed (destroy_handle handle (record { request_headers = lines; lost = lost })) ≡ lines
unfolding destroy_handle
destroy_handle-frees true [] lost = refl
destroy_handle-frees false [] lost = refl
destroy_handle-frees true (l ∷ ls) lost = append-nil (l ∷ ls)
destroy_handle-frees false (l ∷ ls) lost = append-nil (l ∷ ls)

-- The destructor frees exactly these lines, and these are lost.
abbrev pub Frees : HeaderList → List Bytes → List Bytes → Type 0
Frees l lines lost =
    ((handle : Bool) → freed (destroy_handle handle l) ≡ lines)
    × (l ≡ record { request_headers = lines; lost = lost })

frees :
    (l : HeaderList) (lines lost : List Bytes)
    → l ≡ record { request_headers = lines; lost = lost }
    → Frees l lines lost
frees l lines lost e = (
  λ handle. ap (λ x. freed (destroy_handle handle x)) e ∙ destroy_handle-frees handle lines lost,
  e,
)

-- With memory, the list has the lines of all headers but "Range", in their order, and the destructor
-- frees them. If the append of one line fails, and no other, the list has only the lines of the
-- headers behind it, which the destructor frees, and those before it are lost.
pub append_headers_lem :
    (before after : Headers) (key value : Bytes)
    → same_bytes key range ≡ false
    → Frees (append_headers [] (before ++ after) no_lines) (lines_of (before ++ after)) []
      × Frees
          (append_headers
            (memory_for (lines_of before) ++ false ∷ [])
            (before ++ (key, value) ∷ after)
            no_lines)
          (lines_of after)
          (lines_of before)
unfolding append_headers
append_headers_lem before after key value no_range = (
  frees _ (lines_of (before ++ after)) [] (append_headers-all (before ++ after) [] []),
  frees _ (lines_of after) (lines_of before) (
      append_headers-append before ((key, value) ∷ after) (false ∷ []) [] []
      ∙ rw (no_range, append_headers-all after [] (lines_of before))),
)
