-- ===== src/Net/Task/Tests.antt =====
-- A concrete response header (source/net/request_task_impl.cpp).
use ffnetwork.Common.{◌≡◌, refl, false, arith, [], ◌∷◌, ◌++◌, some}
use ffnetwork.Common.Maps.{bytes_key, lookup, insert}
use ffnetwork.Net.Request.{Bytes, Headers, new_request}
use ffnetwork.Net.Task.{
  c_str, Task, new_task, on_receive_header, header_at, range, construct_headers, find_colon,
}
use ffnetwork.Net.Task.HandleInfo.{
  append_headers, no_lines, lines_of, memory_for, Frees, append_headers_lem,
}
use ffnetwork.Net.Task.Resent.{
  receive_all, Named, no_headers, header, read_back, range_option, receive_all-construct_headers,
}

abbrev waiting : Task
waiting = new_task (new_request (1 ∷ []) []) (2 ∷ [])

-- "A: x" and "Range: 1".
abbrev two_headers : Headers
two_headers = (65 ∷ [], 120 ∷ []) ∷ (range, 49 ∷ []) ∷ []

two_headers-Named : Named two_headers
unfolding lookup
two_headers-Named =
    header (ground arith, (refl, tt), (refl, tt)) (refl, tt) refl
      (header
        (
          ground arith,
          (refl, (refl, (refl, (refl, (refl, tt))))),
          (refl, (refl, (refl, (refl, (refl, tt))))),
        )
        (refl, tt) refl no_headers)

-- The lines end with a carriage return and a line feed.
receive_all-construct_headers_example :
    ((name : Bytes)
      → header_at name
          (receive_all (13 ∷ 10 ∷ []) (construct_headers two_headers).1 waiting).response
        ≡ read_back (13 ∷ 10 ∷ []) two_headers name (header_at name waiting.response))
    × ((construct_headers two_headers).0 ≡ range_option (lookup range two_headers))
receive_all-construct_headers_example =
    receive_all-construct_headers two_headers (13 ∷ 10 ∷ []) waiting two_headers-Named

read_a :
    header_at
      (65 ∷ [])
      (receive_all (13 ∷ 10 ∷ []) (construct_headers two_headers).1 waiting).response
    ≡ some (120 ∷ 13 ∷ 10 ∷ [])
unfolding receive_all construct_headers c_str on_receive_header find_colon lookup insert
read_a = refl

-- The append of "A: x" fails between "B: y" and "C: z".
append_headers_lem_example :
    Frees
      (append_headers [] ((66 ∷ [], 121 ∷ []) ∷ (67 ∷ [], 122 ∷ []) ∷ []) no_lines)
      (lines_of ((66 ∷ [], 121 ∷ []) ∷ (67 ∷ [], 122 ∷ []) ∷ []))
      []
    × Frees
        (append_headers
          (memory_for (lines_of ((66 ∷ [], 121 ∷ []) ∷ [])) ++ false ∷ [])
          ((66 ∷ [], 121 ∷ []) ∷ (65 ∷ [], 120 ∷ []) ∷ (67 ∷ [], 122 ∷ []) ∷ [])
          no_lines)
        (lines_of ((67 ∷ [], 122 ∷ []) ∷ []))
        (lines_of ((66 ∷ [], 121 ∷ []) ∷ []))
append_headers_lem_example =
    append_headers_lem ((66 ∷ [], 121 ∷ []) ∷ []) ((67 ∷ [], 122 ∷ []) ∷ []) (65 ∷ []) (120 ∷ [])
      refl
