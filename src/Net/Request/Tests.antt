-- ===== src/Net/Request/Tests.antt =====
-- Concrete requests (source/net/request_impl.cpp).
use ffnetwork.Common.{some, false, ◌≡◌, refl, true, List, [], ◌∷◌, All}
use ffnetwork.Common.Maps.{bytes_key, lookup, insert}
use ffnetwork.Net.Request.{
  amalgamation, Bytes, Request, post_method, new_request, set_header, set_method, vary,
  excluded_headers, contains, hash, remove_spaces, remove_space, tokens, tokens_from,
}
use ffnetwork.Net.Request.Hashing.{hash_ignores, excluded_headers-vary_value, vary_value, IsName}

-- A hash that tells all strings apart.
abbrev plain : Bytes → Bytes
plain s = s

abbrev varied : Request
varied = new_request (1 ∷ []) ((vary, 65 ∷ 44 ∷ 32 ∷ 66 ∷ []) ∷ (66 ∷ [], 7 ∷ []) ∷ [])

abbrev old_value : Bytes
old_value = 7 ∷ []

abbrev new_value : Bytes
new_value = 8 ∷ []

varied_named : contains (excluded_headers varied.headers) (66 ∷ []) ≡ true
unfolding contains excluded_headers remove_spaces remove_space tokens tokens_from lookup
varied_named = refl

varied_there : lookup (66 ∷ []) varied.headers ≡ some (7 ∷ [])
unfolding lookup
varied_there = refl

hash_ignores_example :
    let changed = set_header (λ hs. hs) (66 ∷ []) new_value (set_method post_method varied) in
    (contains (excluded_headers varied.headers) (66 ∷ []) ≡ true
      → hash plain changed ≡ hash plain varied)
    × (contains (excluded_headers varied.headers) (66 ∷ []) ≡ false
        → amalgamation changed ≡ amalgamation varied
        → new_value ≡ old_value)
hash_ignores_example =
    hash_ignores plain (λ hs. hs) varied post_method (66 ∷ []) new_value old_value (λ e. cc)
      varied_there

abbrev two_names : List Bytes
two_names = (65 ∷ []) ∷ (66 ∷ 67 ∷ []) ∷ []

two_names-IsName : All IsName two_names
two_names-IsName =
    (((λ e. cc), ((refl, refl), tt)), (((λ e. cc), ((refl, refl), ((refl, refl), tt))), tt))

excluded_headers-vary_value_example :
    excluded_headers (insert vary (vary_value two_names) []) ≡ two_names
excluded_headers-vary_value_example = excluded_headers-vary_value two_names [] two_names-IsName
