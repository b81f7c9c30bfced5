-- ===== src/Net/Request.antt =====
-- source/net/request_impl.h, request_impl.cpp and request.cpp: `RequestImpl`. Strings are lists of
-- bytes; a `std::unordered_map` is the list of its entries in the order of its iteration, which the
-- library does not specify. `sha256` of source/utils is third-party code: an argument.
pub mod Hashing
mod Tests
use ffnetwork.Common.{
  ℕ, zero, suc, ◌+◌, Bool, true, false, not, ltb, leb, ◌==◌, ◌&&◌, ◌||◌, if◌then◌else◌, List, [],
  ◌∷◌, ◌++◌, Option, none, some, length, take,
}
use ffnetwork.Common.Maps.{Key, bytes_key, lookup, insert, same_bytes}

abbrev pub Bytes : Type 0
Bytes = List ℕ

abbrev pub Headers : Type 0
Headers = List (Bytes × Bytes)

-- "GET", "POST", "PUT" and "HEAD".
abbrev pub get_method : Bytes
get_method = 71 ∷ 69 ∷ 84 ∷ []

abbrev pub post_method : Bytes
post_method = 80 ∷ 79 ∷ 83 ∷ 84 ∷ []

abbrev pub put_method : Bytes
put_method = 80 ∷ 85 ∷ 84 ∷ []

abbrev pub head_method : Bytes
head_method = 72 ∷ 69 ∷ 65 ∷ 68 ∷ []

-- `block` is the allocated `data_`, null as `none`; `set_data` allocates a byte more than it counts.
pub record Request : Type 0 where
  pub url : Bytes
  pub headers : Headers
  pub method : Bytes
  pub block : Option Bytes
  pub data_length : ℕ

abbrev pub new_request : Bytes → Headers → Request
new_request url headers = record {
  url = url;
  headers = headers;
  method = get_method;
  block = none;
  data_length = 0;
}

abbrev pub set_url : Bytes → Request → Request
set_url url r = record r { url = url }

abbrev pub set_method : Bytes → Request → Request
set_method method r = record r { method = method }

-- `headerMap()[key] = value`: a key that is there keeps its place; a new entry can change the order of
-- the iteration, and `arrange` gives the entries in the order that the library then has.
unfoldable pub set_header : (Headers → Headers) → Bytes → Bytes → Request → Request
set_header arrange key value r = elim (lookup key r.headers) [
  | none ↦ record r { headers = arrange (insert key value r.headers) }
  | some old ↦ record r { headers = insert key value r.headers }
]

-- `setData` with this block, and its length as `data_length`.
unfoldable pub set_data : Bytes → Request → Request
set_data [] r = record r { block = none; data_length = 0 }
set_data (b ∷ bs) r = record r { block = some ((b ∷ bs) ++ 0 ∷ []); data_length = length (b ∷ bs) }

-- The constructor from a `Request`; `memcpy` takes `data_length` bytes of the block.
unfoldable pub copy : Request → Request
copy r = record {
  url = r.url;
  headers = r.headers;
  method = r.method;
  block =
      if ltb 0 r.data_length
      then elim r.block [ none ↦ none | some b ↦ some (take r.data_length b) ]
      else none;
  data_length = if ltb 0 r.data_length then r.data_length else 0;
}

-- `isspace` of the "C" locale.
abbrev pub is_space : ℕ → Bool
is_space c = c == 32 || (leb 9 c && leb c 13)

unfoldable pub remove_space : Bytes → Bytes
remove_space [] = []
remove_space (c ∷ cs) = if is_space c then remove_space cs else c ∷ remove_space cs

-- `getline` with ',' until it fails; `token` is what the call at work has read.
unfoldable pub tokens_from : Bytes → Bytes → List Bytes
tokens_from token [] = token ∷ []
tokens_from token (c ∷ []) = if c == 44 then token ∷ [] else (token ++ c ∷ []) ∷ []
tokens_from token (c ∷ d ∷ cs) =
    if c == 44 then token ∷ tokens_from [] (d ∷ cs) else tokens_from (token ++ c ∷ []) (d ∷ cs)

unfoldable pub tokens : Bytes → List Bytes
unfolding tokens_from
tokens [] = []
tokens (c ∷ cs) = tokens_from [] (c ∷ cs)

unfoldable pub remove_spaces : List Bytes → List Bytes
unfolding remove_space
remove_spaces [] = []
remove_spaces (t ∷ ts) = remove_space t ∷ remove_spaces ts

-- "Vary"
abbrev pub vary : Bytes
vary = 86 ∷ 97 ∷ 114 ∷ 121 ∷ []

unfoldable pub excluded_headers : Headers → List Bytes
unfolding remove_spaces tokens lookup
excluded_headers headers = elim (lookup vary headers) [
  | none ↦ []
  | some value ↦ remove_spaces (tokens value)
]

-- `std::find`
unfoldable pub contains : List Bytes → Bytes → Bool
contains [] key = false
contains (e ∷ es) key = same_bytes e key || contains es key

-- The loop over the headers.
unfoldable pub included : List Bytes → Headers → Bytes
unfolding contains
included excluded [] = []
included excluded ((key, value) ∷ hs) =
    if contains excluded key then included excluded hs else (key ++ value) ++ included excluded hs

unfoldable pub body : Request → Bytes
body r = elim r.block [ none ↦ [] | some b ↦ take r.data_length b ]

unfoldable pub amalgamation : Request → Bytes
unfolding included excluded_headers body
amalgamation r = (r.url ++ included (excluded_headers r.headers) r.headers) ++ body r

module _ (sha256 : Bytes → Bytes) where
  unfoldable pub hash : Request → Bytes
  unfolding amalgamation
  hash r = sha256 (amalgamation r)
