-- ===== src/Net/Client/Legal/Ending.antt =====
-- The destructor of source/net/curl_client.cpp, after a history that the client's users and libcurl
-- can make.
use mathlib.Core.Path.{subst}
use ffnetwork.Common.{
  ℕ, ◌≡◌, ◌≢◌, refl, sym, ap, ◌∙◌, true, false, Bool-cases, List, [], ◌∷◌, none, some, Option-cases,
  inl, inr, ok, arith,
}
use ffnetwork.Common.Maps.{bytes_key, lookup, lookup-erase, same_bytes}
use ffnetwork.Net.Request.{Bytes}
use ffnetwork.Net.Client.{Client, remove_handle, cleanup_request, tell, Step, run, new_client}
use ffnetwork.Net.Client.Lifetime.{Global, remove_handles, cleanup_all, destroy_client}
use ffnetwork.Net.Client.Legal.{in_multi, in_multi-remove, all_legal, Held}
use ffnetwork.Net.Client.Legal.Returning.{legal_history_returns}

-- A handle that libcurl still has was there before, and is of none of these tasks.
remove_handles_left :
    (m : List (Bytes × ℕ)) (c : Client) (id : ℕ)
    → in_multi id (remove_handles m c).curl_calls ≡ true
    → (in_multi id c.curl_calls ≡ true) × ((h : Bytes) → lookup h m ≢ some id)
unfolding remove_handles lookup tell
remove_handles_left [] c id inside = (inside, λ h e. absurd cc)
remove_handles_left ((k, i) ∷ m) c id inside =
    let (inside1, others) = remove_handles_left m (tell (remove_handle i) c) id inside in
    let (differs, before) = in_multi-remove i id c.curl_calls inside1 in
    (
      before,
      λ h e. elim (Bool-cases (same_bytes k h)) [
        | inl hit ↦
            let both : some i ≡ some id = rw hit at e in let same : i ≡ id = cc in differs same
        | inr miss ↦ others h (rw miss at e)
      ],
    )

-- Cleaning up tells libcurl nothing and calls nobody.
cleanup_all_silent :
    (m : List (Bytes × ℕ)) (c : Client)
    → ((cleanup_all m c).curl_calls ≡ c.curl_calls) × ((cleanup_all m c).events ≡ c.events)
unfolding cleanup_all cleanup_request
cleanup_all_silent [] c = (refl, refl)
cleanup_all_silent ((k, i) ∷ m) c = cleanup_all_silent m (cleanup_request k c)

remove_handles_quiet :
    (m : List (Bytes × ℕ)) (c : Client)
    → ((remove_handles m c).request_task_map ≡ c.request_task_map)
      × ((remove_handles m c).events ≡ c.events)
unfolding remove_handles tell
remove_handles_quiet [] c = (refl, refl)
remove_handles_quiet ((k, i) ∷ m) c = remove_handles_quiet m (tell (remove_handle i) c)

cleanup_all_gone :
    (m : List (Bytes × ℕ)) (c : Client) (h : Bytes)
    → lookup h c.request_task_map ≡ none
    → lookup h (cleanup_all m c).request_task_map ≡ none
unfolding cleanup_all cleanup_request
cleanup_all_gone [] c h gone = gone
cleanup_all_gone ((k, i) ∷ m) c h gone =
    cleanup_all_gone m (cleanup_request k c) h (ground (arith, lookup-erase k h c.request_task_map))

cleanup_all-erases :
    (m : List (Bytes × ℕ)) (c : Client) (h : Bytes) (id : ℕ)
    → lookup h m ≡ some id
    → lookup h (cleanup_all m c).request_task_map ≡ none
unfolding cleanup_all cleanup_request lookup
cleanup_all-erases [] c h id e = absurd cc
cleanup_all-erases ((k, i) ∷ m) c h id e = elim (Bool-cases (same_bytes k h)) [
  | inl hit ↦
      cleanup_all_gone m (cleanup_request k c) h
        (ground (arith, lookup-erase k h c.request_task_map))
  | inr miss ↦ cleanup_all-erases m (cleanup_request k c) h id (rw miss at e)
]

-- After a history as in legal_history_returns, when the request thread has ended, the destructor leaves libcurl without any
-- handle and the map without any request. It calls no callback: those of the requests that were
-- under way are never called.
pub destroy_client_empties :
    (sha256 : Bytes → Bytes) (ss : List Step) (c : Client) (g : Global)
    → all_legal sha256 ss new_client ≡ true
    → run sha256 ss new_client ≡ ok c
    → ((id : ℕ) → in_multi id (destroy_client c g).0.curl_calls ≡ false)
      × ((h : Bytes) → lookup h (destroy_client c g).0.request_task_map ≡ none)
      × ((destroy_client c g).0.events ≡ c.events)
unfolding destroy_client
destroy_client_empties sha256 ss c g legal ran =
    let m = c.request_task_map in
    let c1 = remove_handles m c in
    let (d, ran', held) = legal_history_returns sha256 ss legal in
    let same : d ≡ c = let both = sym ran' ∙ ran in cc in
    let (silent, calls_none) = cleanup_all_silent m c1 in
    let (map_kept, quiet) = remove_handles_quiet m c in
    (
      λ id. elim (Bool-cases (in_multi id (cleanup_all m c1).curl_calls)) [
        | inl inside ↦
            let (before, others) =
              remove_handles_left m c id (sym (ap (λ cs. in_multi id cs) silent) ∙ inside) in
            let k =
              subst (λ x. Held x id) same
                (held id (ap (λ x. in_multi id x.curl_calls) same ∙ before)) in
            absurd (others k.task.identifier k.in_map)
        | inr outside ↦ outside
      ],
      λ h. elim (Option-cases (lookup h m)) [
        | inl gone ↦ cleanup_all_gone m c1 h (ap (λ x. lookup h x) map_kept ∙ gone)
        | inr (id, found) ↦ cleanup_all-erases m c1 h id found
      ],
      calls_none ∙ quiet,
    )
