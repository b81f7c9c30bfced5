-- ===== src/Net/Client/Legal/Returning.antt =====
-- Legal histories of the client of source/net/curl_client.cpp return.
use mathlib.Core.Path.{subst}
use ffnetwork.Common.{
  ℕ, ◌≡◌, refl, sym, ap, ◌∙◌, true, false, List, [], ◌∷◌, ◌++◌, some, Outcome, ok, arith,
}
use ffnetwork.Common.Maps.{number_key, bytes_key, lookup, number_refl}
use ffnetwork.Net.Request.{Bytes}
use ffnetwork.Net.Task.{notify, construct, Task}
use ffnetwork.Net.Client.{
  convert_curl_code, CurlCode, handle_done, run_next, run_posted, Posted, start_request,
  cancel_request, Client, CurlCall, remove_handle, Step, step, run, new_client, creates, disposes,
  starts, cancels, runs, receives, finishes,
}
use ffnetwork.Net.Client.Once.{Keeps, step-Keeps, run-ok, new_client-InvOf}
use ffnetwork.Net.Client.Delivery.{handle_done_delivers}
use ffnetwork.Net.Client.Pending.{InvOf}
use ffnetwork.Net.Client.Legal.{
  in_multi, after_calls-append, all_legal, is_legal, Held, Driven, is_free-none, ltb-less,
}
use ffnetwork.Net.Client.Legal.Steps.{
  Returns, start-Returns, cancel-Returns, done-Returns, header-Returns, posted-Driven,
  posts-Returns, create-Returns,
}

run_posted-Returns : (p : Posted) (c : Client) → InvOf c → Driven c → Returns (run_posted p c)
unfolding run_posted
run_posted-Returns (start_request h) c inv d = start-Returns c inv d h
run_posted-Returns (cancel_request h) c inv d = cancel-Returns c inv d h

run_next-Returns :
    (c : Client) (ps : List Posted) → c.posted ≡ ps → InvOf c → Driven c → Returns (run_next c)
unfolding run_next
run_next-Returns c [] e inv d = (
  c,
  ap
      (λ qs. elim qs as (λ x. Outcome Client) [
        | [] ↦ ok c
        | p ∷ ps ↦ run_posted p (record c { posted = ps })
      ])
      e,
  d,
)
run_next-Returns c (p ∷ ps) e inv d =
    rw (e, run_next)
      (run_posted-Returns p (record c { posted = ps }) inv (posted-Driven c inv d ps))

step-Returns :
    (sha256 : Bytes → Bytes) (s : Step) (c : Client)
    → InvOf c
    → Driven c
    → is_legal sha256 s c ≡ true
    → Returns (step sha256 s c)
unfolding step
step-Returns sha256 disposes c inv d legal = (_, refl, posted-Driven c inv d [])
step-Returns sha256 (creates r k kept) c inv d legal =
    (_, refl, create-Returns c inv d sha256 r k kept (is_free-none _ legal))
step-Returns sha256 (starts id) c inv d legal = (posts-Returns c inv d id (ltb-less _ _ legal)).0
step-Returns sha256 (cancels id) c inv d legal = (posts-Returns c inv d id (ltb-less _ _ legal)).1
step-Returns sha256 runs c inv d legal = run_next-Returns c c.posted refl inv d
step-Returns sha256 (receives id line) c inv d legal = header-Returns c inv d id line legal
step-Returns sha256 (finishes id status result) c inv d legal =
    done-Returns c inv d id status result legal

new_client-Driven : Driven new_client
new_client-Driven = record {
  made = λ id less. absurd (omega (arith, less));
  held = λ id h. absurd cc;
}

run-Returns :
    (sha256 : Bytes → Bytes) (ss : List Step) (c : Client)
    → InvOf c
    → Driven c
    → all_legal sha256 ss c ≡ true
    → (c' : Client) × (run sha256 ss c ≡ ok c') × InvOf c' × Driven c'
unfolding all_legal run
run-Returns sha256 [] c inv d legal = (c, refl, inv, d)
run-Returns sha256 (s ∷ ss) c inv d legal =
    let (c1, stepped, d1) = step-Returns sha256 s c inv d (ground arith) in
    let inv1 = subst Keeps stepped (step-Keeps sha256 s c inv) in
    let rest : all_legal sha256 ss c1 ≡ true = ground arith in
    let (c2, ran, inv2, d2) = run-Returns sha256 ss c1 inv1 d1 rest in
    (c2, run-ok sha256 s ss c c1 stepped ∙ ran, inv2, d2)

-- A history of a new client returns, without ever following a null pointer, if no request is made
-- while the map holds one of its hash, only tasks that were made are started or cancelled, and
-- libcurl reports only on handles that it has. At its end each handle that libcurl has belongs to a
-- task that the map still holds under its hash, so that no such task is destroyed.
pub legal_history_returns :
    (sha256 : Bytes → Bytes) (ss : List Step)
    → all_legal sha256 ss new_client ≡ true
    → (c : Client) × (run sha256 ss new_client ≡ ok c)
      × ((id : ℕ) → in_multi id c.curl_calls ≡ true → Held c id)
legal_history_returns sha256 ss legal =
    let (c, ran, inv, d) =
      run-Returns sha256 ss new_client new_client-InvOf new_client-Driven legal in
    (c, ran, d.held)

removed : (id : ℕ) (cs : List CurlCall) → in_multi id (cs ++ remove_handle id ∷ []) ≡ false
removed id cs = after_calls-append id cs (remove_handle id) false ∙ ground (arith, number_refl id)

-- In a history as in legal_history_returns, when libcurl reports the end of a transfer of a handle
-- that it has, the client
-- returns and calls the callback of the handle's own task, if any, with its request, the status and
-- the converted result, and libcurl does not have the handle any more.
pub legal_end_delivers :
    (sha256 : Bytes → Bytes) (ss : List Step) (c : Client) (id status : ℕ) (result : CurlCode)
    → all_legal sha256 ss new_client ≡ true
    → run sha256 ss new_client ≡ ok c
    → in_multi id c.curl_calls ≡ true
    → (t : Task) × (c' : Client) × (lookup id c.tasks ≡ some t)
      × (handle_done id status result c ≡ ok c')
      × (c'.events
          ≡ c.events
            ++ record {
              task = id;
              calls =
                  notify t.completion_callback
                    (construct t.request status (convert_curl_code result) t.response);
            }
              ∷ [])
      × (in_multi id c'.curl_calls ≡ false)
legal_end_delivers sha256 ss c id status result legal ran inside =
    let (d, ran', held) = legal_history_returns sha256 ss legal in
    let same : d ≡ c = let both = sym ran' ∙ ran in cc in
    let k =
      subst (λ x. Held x id) same (held id (ap (λ x. in_multi id x.curl_calls) same ∙ inside)) in
    let (c', done, events, calls, free) =
      handle_done_delivers c id status result k.task k.there k.in_map in
    (k.task, c', k.there, done, events, ap (λ cs. in_multi id cs) calls ∙ removed id c.curl_calls)
