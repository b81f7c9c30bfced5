-- ===== src/Net/Client/Lifetime.antt =====
-- `ConfigCurlGlobalState` and the destructor of source/net/curl_client.cpp.
use mathlib.Core.List.{append-nil, append_assoc}
use ffnetwork.Common.{
  zero, suc, Option-cases, Bool-cases, inl, inr, ap, ◌∙◌, ℕ, ◌+◌, ◌-◌, Bool, true, false, not, ◌&&◌,
  ◌==◌, ltb, if◌then◌else◌, List, [], ◌∷◌, ◌++◌, Option, none, some, ◌≡◌, refl, arith,
}
use ffnetwork.Common.Maps.{bytes_key, erase, lookup, lookup-erase, same_bytes}
use ffnetwork.Net.Request.{Bytes}
use ffnetwork.Net.Client.{Client, CurlCall, remove_handle, cleanup_request, tell}

pub data GlobalCall : Type 0 where
  global_init global_cleanup : GlobalCall

-- `curl_clients_active`, as long as it does not overflow, and the calls of libcurl.
pub record Global : Type 0 where
  pub active : ℕ
  pub calls : List GlobalCall

abbrev pub new_global : Global
new_global = record { active = 0; calls = [] }

unfoldable pub config_curl_global_state : Bool → Global → Global
config_curl_global_state added_client g =
    let previous = g.active in
    let active =
      if added_client
      then previous + 1
      else if not (previous == 0)
      then previous - 1
      else previous in
    record {
      active = active;
      calls =
          if previous == 0 && active == 1
          then g.calls ++ global_init ∷ []
          else if previous == 1 && active == 0
          then g.calls ++ global_cleanup ∷ []
          else g.calls;
    }

-- Clients that are made and destroyed, one after the other.
unfoldable pub config_all : List Bool → Global → Global
unfolding config_curl_global_state
config_all [] g = g
config_all (b ∷ bs) g = config_all bs (config_curl_global_state b g)

-- The first loop of the destructor, with the hashes that it collects.
unfoldable pub remove_handles : List (Bytes × ℕ) → Client → Client
unfolding tell
remove_handles [] c = c
remove_handles ((h, id) ∷ m) c = remove_handles m (tell (remove_handle id) c)

-- The second loop.
unfoldable pub cleanup_all : List (Bytes × ℕ) → Client → Client
unfolding cleanup_request
cleanup_all [] c = c
cleanup_all ((h, id) ∷ m) c = cleanup_all m (cleanup_request h c)

-- The destructor from where the request thread has ended, with the global state.
unfoldable pub destroy_client : Client → Global → Client × Global
unfolding remove_handles cleanup_all config_curl_global_state
destroy_client c g = (
  cleanup_all c.request_task_map (remove_handles c.request_task_map c),
  config_curl_global_state false g,
)

-- Whether libcurl is set up after these calls, when it is not set up before; a second set-up and a
-- clean-up without a set-up are misuse, `none`.
abbrev pub set_up : Bool → List GlobalCall → Option Bool
set_up up [] = some up
set_up false (global_init ∷ cs) = set_up true cs
set_up true (global_cleanup ∷ cs) = set_up false cs
set_up false (global_cleanup ∷ cs) = none
set_up true (global_init ∷ cs) = none

set_up-append :
    (up : Bool) (cs ds : List GlobalCall) (mid : Bool)
    → set_up up cs ≡ some mid
    → set_up up (cs ++ ds) ≡ set_up mid ds
set_up-append up [] ds mid h = ap (λ b. set_up b ds) (ground arith)
set_up-append false (global_init ∷ cs) ds mid h = set_up-append true cs ds mid h
set_up-append true (global_cleanup ∷ cs) ds mid h = set_up-append false cs ds mid h
set_up-append false (global_cleanup ∷ cs) ds mid h = cc
set_up-append true (global_init ∷ cs) ds mid h = cc

abbrev IsSound : Global → Type 0
IsSound g = set_up false g.calls ≡ some (ltb 0 g.active)

config-IsSound : (b : Bool) (g : Global) → IsSound g → IsSound (config_curl_global_state b g)
unfolding config_curl_global_state
config-IsSound b g h = ground (
  arith,
  set_up-append false g.calls (global_init ∷ []) (ltb 0 g.active) h,
  set_up-append false g.calls (global_cleanup ∷ []) (ltb 0 g.active) h,
)

-- How many clients there are after these constructions and destructions, when there were `n`; to
-- destroy one when there is none is not possible, `none`.
abbrev pub clients_after : ℕ → List Bool → Option ℕ
clients_after n [] = some n
clients_after n (true ∷ bs) = clients_after (suc n) bs
clients_after zero (false ∷ bs) = none
clients_after (suc n) (false ∷ bs) = clients_after n bs

config_all-IsSound :
    (bs : List Bool) (g : Global) (k n : ℕ)
    → IsSound g
    → g.active ≡ k
    → clients_after k bs ≡ some n
    → IsSound (config_all bs g) × ((config_all bs g).active ≡ n)
unfolding config_all config_curl_global_state
config_all-IsSound [] g k n h e live = (h, ground arith)
config_all-IsSound (true ∷ bs) g k n h e live =
    config_all-IsSound bs (config_curl_global_state true g) (suc k) n (config-IsSound true g h)
      (ground arith) live
config_all-IsSound (false ∷ bs) g zero n h e live = absurd cc
config_all-IsSound (false ∷ bs) g (suc k) n h e live =
    config_all-IsSound bs (config_curl_global_state false g) k n (config-IsSound false g h)
      (ground arith) live

-- When clients are made and destroyed, one after the other, and there are `n` at the end: libcurl was
-- never set up twice nor cleaned up when it was not set up, and it is set up exactly if there is a
-- client, which the counter counts.
pub config_all-set_up :
    (bs : List Bool) (n : ℕ)
    → clients_after 0 bs ≡ some n
    → (set_up false (config_all bs new_global).calls ≡ some (ltb 0 n))
      × ((config_all bs new_global).active ≡ n)
config_all-set_up bs n live =
    let (sound, count) = config_all-IsSound bs new_global 0 n refl refl live in
    (sound ∙ ap (λ k. some (ltb 0 k)) count, count)

-- The removals of these handles.
abbrev pub removals : List (Bytes × ℕ) → List CurlCall
removals [] = []
removals ((h, id) ∷ m) = remove_handle id ∷ removals m

remove_handles-eq :
    (m : List (Bytes × ℕ)) (c : Client)
    → remove_handles m c ≡ record c { curl_calls = c.curl_calls ++ removals m }
unfolding remove_handles tell
remove_handles-eq [] c = rw (append-nil c.curl_calls)
remove_handles-eq ((h, id) ∷ m) c =
    remove_handles-eq m (tell (remove_handle id) c)
    ∙ ap (λ l. record c { curl_calls = l })
        (append_assoc c.curl_calls (remove_handle id ∷ []) (removals m))

erase_all : List (Bytes × ℕ) → List (Bytes × ℕ) → List (Bytes × ℕ)
erase_all [] m = m
erase_all ((h, id) ∷ hs) m = erase_all hs (erase h m)

cleanup_all-eq :
    (hs : List (Bytes × ℕ)) (c : Client)
    → cleanup_all hs c ≡ record c { request_task_map = erase_all hs c.request_task_map }
unfolding cleanup_all cleanup_request erase_all
cleanup_all-eq [] c = refl
cleanup_all-eq ((h, id) ∷ hs) c = cleanup_all-eq hs (cleanup_request h c)

lookup-erase_all-none :
    (j : Bytes) (hs m : List (Bytes × ℕ)) → lookup j m ≡ none → lookup j (erase_all hs m) ≡ none
unfolding erase_all
lookup-erase_all-none j [] m h = h
lookup-erase_all-none j ((k, id) ∷ hs) m h =
    lookup-erase_all-none j hs (erase k m) (ground (arith, lookup-erase k j m))

lookup-erase_all :
    (j : Bytes) (hs m : List (Bytes × ℕ)) (id : ℕ)
    → lookup j hs ≡ some id
    → lookup j (erase_all hs m) ≡ none
unfolding erase_all lookup
lookup-erase_all j [] m id h = cc
lookup-erase_all j ((k, i) ∷ hs) m id h = elim (Bool-cases (same_bytes k j)) [
  | inl hit ↦ lookup-erase_all-none j hs (erase k m) (unfold lookup in lookup-erase k j m ∙ rw hit)
  | inr miss ↦ lookup-erase_all j hs (erase k m) id (rw miss at h)
]

-- The destructor removes the handles of exactly the tasks that the map holds from libcurl, in the
-- order of the map, and empties the map; it calls no completion callback.
pub destroy_client_lem :
    (c : Client) (g : Global)
    → let c' = (destroy_client c g).0 in
      (c'.curl_calls ≡ c.curl_calls ++ removals c.request_task_map)
      × ((h : Bytes) → lookup h c'.request_task_map ≡ none)
      × (c'.events ≡ c.events)
      × ((destroy_client c g).1 ≡ config_curl_global_state false g)
unfolding destroy_client
destroy_client_lem c g =
    let m = c.request_task_map in
    let removed = remove_handles-eq m c in
    let cleaned = cleanup_all-eq m (remove_handles m c) in
    let emptied = λ (h : Bytes).
      elim (Option-cases (lookup h m)) as (λ o. lookup h (erase_all m m) ≡ none) [
        | inl free ↦ lookup-erase_all-none h m m free
        | inr (id, held) ↦ lookup-erase_all h m m id held
      ] in
    (
      ap (λ d. d.curl_calls) cleaned ∙ ap (λ d. d.curl_calls) removed,
      λ h.
          ap (λ d. lookup h d.request_task_map) cleaned
          ∙ ap (λ d. lookup h (erase_all m d.request_task_map)) removed
          ∙ emptied h,
      ap (λ d. d.events) cleaned ∙ ap (λ d. d.events) removed,
      refl,
    )
