-- ===== src/Net/Request/Hashing.antt =====
-- What `RequestImpl::hash` of source/net/request_impl.cpp depends on.
use mathlib.Core.List.{append-nil, append_assoc, append_cancel_left, append_cancel_right}
use ffnetwork.Common.{
  false, ℕ, suc, ltb, ◌≡◌, ◌≢◌, refl, sym, ap, ◌∙◌, true, false, ◌==◌, List, [], ◌∷◌, ◌++◌, some,
  Bool-cases, inl, inr, arith, length, take, All,
}
use ffnetwork.Common.Maps.{
  bytes_key, lookup, insert, same_bytes, lookup-insert, lookup-insert_self, bytes_sound,
}
use ffnetwork.Common.Slices.{take_all, take-append_eq}
use ffnetwork.Net.Request.{
  Bytes, Headers, Request, set_header, set_method, set_data, copy, is_space, remove_space,
  tokens_from, tokens, remove_spaces, vary, excluded_headers, contains, included, body,
  amalgamation, hash,
}

included-insert :
    (excluded : List Bytes) (key value : Bytes) (hs : Headers)
    → contains excluded key ≡ true
    → included excluded (insert key value hs) ≡ included excluded hs
unfolding included insert
included-insert excluded key value [] h = rw h
included-insert excluded key value ((k, v) ∷ hs) h = elim (Bool-cases (same_bytes k key)) [
  | inl hit ↦
      let there : contains excluded k ≡ true = ap (contains excluded) (bytes_sound k key hit) ∙ h in
      rw (hit, there)
  | inr miss ↦ rw (miss, included-insert excluded key value hs h)
]

excluded_headers-insert :
    (key value : Bytes) (hs : Headers)
    → key ≢ vary
    → excluded_headers (insert key value hs) ≡ excluded_headers hs
unfolding excluded_headers
excluded_headers-insert key value hs other = elim (Bool-cases (same_bytes key vary)) [
  | inl hit ↦ absurd (other (bytes_sound key vary hit))
  | inr miss ↦
      let kept : lookup vary (insert key value hs) ≡ lookup vary hs =
        lookup-insert key vary value hs ∙ rw miss in
      rw (kept, excluded_headers)
]

-- Where the value of a header that is not excluded stands in the text.
included-split :
    (excluded : List Bytes) (key value old : Bytes) (hs : Headers)
    → lookup key hs ≡ some old
    → contains excluded key ≡ false
    → (before after : Bytes) × (included excluded hs ≡ before ++ (old ++ after))
      × (included excluded (insert key value hs) ≡ before ++ (value ++ after))
unfolding included insert lookup
included-split excluded key value old [] there listed = absurd cc
included-split excluded key value old ((k, v) ∷ hs) there listed =
    elim (Bool-cases (same_bytes k key)) [
      | inl hit ↦
          let here : contains excluded k ≡ false =
            ap (contains excluded) (bytes_sound k key hit) ∙ listed in
          let found : some v ≡ some old = rw hit at there in
          let same : v ≡ old = cc in
          (
            k,
            included excluded hs,
            rw here (append_assoc k v (included excluded hs))
                ∙ ap (λ x. k ++ (x ++ included excluded hs)) same,
            rw (hit, here) (append_assoc k value (included excluded hs)),
          )
      | inr miss ↦
          let (before, after, now, later) =
            included-split excluded key value old hs (rw miss at there) listed in
          elim (Bool-cases (contains excluded k)) [
            | inl skipped ↦ (before, after, rw skipped now, rw (miss, skipped) later)
            | inr kept ↦ (
              (k ++ v) ++ before,
              after,
              rw (kept, now) (sym (append_assoc (k ++ v) before (old ++ after))),
              rw (miss, kept, later) (sym (append_assoc (k ++ v) before (value ++ after))),
            )
          ]
    ]

set_header-there :
    (arrange : Headers → Headers) (key value old : Bytes) (r : Request)
    → lookup key r.headers ≡ some old
    → set_header arrange key value r ≡ record r { headers = insert key value r.headers }
unfolding set_header
set_header-there arrange key value old r there = rw (there, set_header)

-- When the method of a request changes, and the value of a header that it has, "Vary" aside: the hash
-- does not change if "Vary" names the header; if not, the text that is hashed stays the same only if
-- the value does.
pub hash_ignores :
    (sha256 : Bytes → Bytes) (arrange : Headers → Headers) (r : Request)
    (method key value old : Bytes)
    → key ≢ vary
    → lookup key r.headers ≡ some old
    → (contains (excluded_headers r.headers) key ≡ true
        → hash sha256 (set_header arrange key value (set_method method r)) ≡ hash sha256 r)
      × (contains (excluded_headers r.headers) key ≡ false
          → amalgamation (set_header arrange key value (set_method method r)) ≡ amalgamation r
          → value ≡ old)
unfolding hash amalgamation body
hash_ignores sha256 arrange r method key value old other there =
    let ex = excluded_headers r.headers in
    let changed = set_header-there arrange key value old (set_method method r) there in
    let new : Request = record (set_method method r) { headers = insert key value r.headers } in
    let same_ex = excluded_headers-insert key value r.headers other in
    (
      λ named.
          ap (λ q. hash sha256 q) changed
          ∙ rw (same_ex, included-insert ex key value r.headers named),
      λ not_named same.
          let (before, after, now, later) =
            included-split ex key value old r.headers there not_named in
          let text : (r.url ++ included ex (insert key value r.headers)) ++ body r
              ≡ (r.url ++ included ex r.headers) ++ body r =
            ap (λ e. (r.url ++ included e (insert key value r.headers)) ++ body r) (sym same_ex)
            ∙ ap amalgamation (sym changed)
            ∙ same in
          let headers = append_cancel_left r.url _ _ (append_cancel_right _ _ (body r) text) in
          append_cancel_right value old after
            (append_cancel_left before (value ++ after) (old ++ after) (sym later ∙ headers ∙ now)),
    )

copy-eq :
    (r : Request) (b : Bytes)
    → r.block ≡ some b
    → ltb 0 r.data_length ≡ true
    → copy r ≡ record r { block = some (take r.data_length b) }
unfolding copy
copy-eq r b there test = rw (test, there)

positive : (n : ℕ) → ltb 0 (suc n) ≡ true
positive n = ground arith

-- A request that `setData` has filled carries the bytes that were set, and so does its copy, which
-- has the same URL, headers and method, and the same hash.
pub set_data-copy :
    (sha256 : Bytes → Bytes) (r : Request) (bytes : Bytes)
    → (body (set_data bytes r) ≡ bytes)
      × (body (copy (set_data bytes r)) ≡ bytes)
      × ((copy (set_data bytes r)).url ≡ r.url)
      × ((copy (set_data bytes r)).headers ≡ r.headers)
      × ((copy (set_data bytes r)).method ≡ r.method)
      × (hash sha256 (copy (set_data bytes r)) ≡ hash sha256 (set_data bytes r))
unfolding body set_data copy hash amalgamation
set_data-copy sha256 r [] = (refl, refl, refl, refl, refl, refl)
set_data-copy sha256 r (c ∷ cs) =
    let n = length (c ∷ cs) in
    let filled = set_data (c ∷ cs) r in
    let whole : take n (c ∷ cs ++ 0 ∷ []) ≡ c ∷ cs = take-append_eq n (c ∷ cs) (0 ∷ []) refl in
    let again : take n (take n (c ∷ cs ++ 0 ∷ [])) ≡ c ∷ cs =
      ap (take n) whole ∙ take_all n (c ∷ cs) (omega arith) in
    let copied = copy-eq filled (c ∷ cs ++ 0 ∷ []) refl (positive (length cs)) in
    let same_body = ap body copied ∙ again in
    (
      whole,
      same_body,
      refl,
      refl,
      refl,
      ap (λ b. sha256 ((r.url ++ included (excluded_headers r.headers) r.headers) ++ b))
          (same_body ∙ sym whole),
    )

-- A header name without white space and commas.
abbrev pub IsPlain : ℕ → Type 0
IsPlain c = ((c == 44) ≡ false) × (is_space c ≡ false)

-- The names with a comma and a space between them.
unfoldable pub vary_value : List Bytes → Bytes
vary_value [] = []
vary_value (n ∷ []) = n
vary_value (n ∷ m ∷ ns) = n ++ 44 ∷ 32 ∷ vary_value (m ∷ ns)

tokens_from-last : (t n : Bytes) → All IsPlain n → n ≢ [] → tokens_from t n ≡ (t ++ n) ∷ []
unfolding tokens_from
tokens_from-last t [] h k = absurd (k refl)
tokens_from-last t (c ∷ []) h k = rw (h.0.0)
tokens_from-last t (c ∷ d ∷ n) h k =
    rw
      (h.0.0, tokens_from-last (t ++ c ∷ []) (d ∷ n) h.1 (λ e. cc), append_assoc t (c ∷ []) (d ∷ n))

tokens_from-comma :
    (t n s : Bytes) (d : ℕ)
    → All IsPlain n
    → tokens_from t (n ++ 44 ∷ d ∷ s) ≡ (t ++ n) ∷ tokens_from [] (d ∷ s)
unfolding tokens_from
tokens_from-comma t [] s d h = rw (append-nil t)
tokens_from-comma t (c ∷ []) s d h = rw (h.0.0)
tokens_from-comma t (c ∷ e ∷ n) s d h =
    rw (h.0.0, tokens_from-comma (t ++ c ∷ []) (e ∷ n) s d h.1, append_assoc t (c ∷ []) (e ∷ n))

remove_space-plain : (n : Bytes) → All IsPlain n → remove_space n ≡ n
unfolding remove_space
remove_space-plain [] h = refl
remove_space-plain (c ∷ cs) h = rw (h.0.1, remove_space-plain cs h.1)

vary_value-cons :
    (n : Bytes) (ns : List Bytes) → n ≢ [] → (d : ℕ) × (cs : Bytes) × (vary_value (n ∷ ns) ≡ d ∷ cs)
unfolding vary_value
vary_value-cons [] ns h = absurd (h refl)
vary_value-cons (c ∷ n) [] h = (c, n, refl)
vary_value-cons (c ∷ n) (m ∷ ns) h = (c, _, refl)

tokens_from-space :
    (v : Bytes) (d : ℕ) (cs : Bytes)
    → v ≡ d ∷ cs
    → tokens_from [] (32 ∷ v) ≡ tokens_from (32 ∷ []) v
unfolding tokens_from
tokens_from-space v d cs h = rw h

abbrev pub IsName : Bytes → Type 0
IsName n = (n ≢ []) × All IsPlain n

-- `t` is white space that was read before the names.
tokens_from-vary_value :
    (t n : Bytes) (ns : List Bytes)
    → ((s : Bytes) → remove_space (t ++ s) ≡ remove_space s)
    → IsName n
    → All IsName ns
    → remove_spaces (tokens_from t (vary_value (n ∷ ns))) ≡ n ∷ ns
unfolding remove_spaces vary_value
tokens_from-vary_value t n [] space h hs =
    rw (tokens_from-last t n h.1 h.0, space n, remove_space-plain n h.1)
tokens_from-vary_value t n (m ∷ ns) space h hs =
    let (d, cs, more) = vary_value-cons m ns hs.0.0 in
    let rest : remove_spaces (tokens_from (32 ∷ []) (vary_value (m ∷ ns))) ≡ m ∷ ns =
      tokens_from-vary_value (32 ∷ []) m ns (λ s. unfold remove_space in refl) hs.0 hs.1 in
    rw (
      tokens_from-comma t n (vary_value (m ∷ ns)) 32 h.1,
      space n,
      remove_space-plain n h.1,
      tokens_from-space (vary_value (m ∷ ns)) d cs more,
      rest,
    )

tokens-vary_value :
    (names : List Bytes) → All IsName names → remove_spaces (tokens (vary_value names)) ≡ names
unfolding tokens remove_spaces vary_value
tokens-vary_value [] h = refl
tokens-vary_value (n ∷ ns) h =
    let (d, cs, more) = vary_value-cons n ns h.0.0 in
    let start : tokens (vary_value (n ∷ ns)) ≡ tokens_from [] (vary_value (n ∷ ns)) = rw more in
    ap remove_spaces start ∙ tokens_from-vary_value [] n ns (λ s. refl) h.0 h.1

-- A "Vary" header that lists names, not empty and without white space and commas, with a comma and
-- a space between them, excludes these headers, in their order.
pub excluded_headers-vary_value :
    (names : List Bytes) (hs : Headers)
    → All IsName names
    → excluded_headers (insert vary (vary_value names) hs) ≡ names
unfolding excluded_headers tokens
excluded_headers-vary_value names hs h =
    let found : lookup vary (insert vary (vary_value names) hs) ≡ some (vary_value names) =
      lookup-insert_self vary (vary_value names) hs in
    rw (found, excluded_headers) (tokens-vary_value names h)
