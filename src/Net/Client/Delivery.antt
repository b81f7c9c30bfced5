-- ===== src/Net/Client/Delivery.antt =====
-- Who gets the response of a transfer in source/net/curl_client.cpp.
use ffnetwork.Common.{
  sym, Bool, false, ℕ, suc, ◌≡◌, ◌≢◌, refl, ap, ◌∙◌, true, List, [], ◌∷◌, ◌++◌, Option, none, some,
  ok, err, null_deref, arith,
}
use ffnetwork.Common.Maps.{
  lookup-insert_other, number_key, bytes_key, lookup, insert, erase, lookup-insert_self,
  lookup-erase, bytes_refl, number_refl,
}
use ffnetwork.Net.Request.{Bytes, Request, hash}
use ffnetwork.Net.Task.{
  Task, Call, new_task, did_finished, did_cancelled, notify, construct, response_of, user_cancel,
  new_response,
}
use ffnetwork.Net.Client.{
  Client, CurlCode, convert_curl_code, remove_handle, task_with_request, handle_done, run, step,
  Step, creates, starts, runs, request_task_start, run_next, run_posted, post, add_handle, drop_old,
  do_cancel_request, do_start_request, cleanup_request, tell, settle,
}
use ffnetwork.Net.Client.Access.{task_at-eq, mapped-eq, mapped-none, do_start_request-eq}

lookup-erase_self : (h : Bytes) (m : List (Bytes × ℕ)) → lookup h (erase h m) ≡ none
lookup-erase_self h m = ground (arith, lookup-erase h h m, bytes_refl h)

abbrev pub finished : Client → Bytes → ℕ → ℕ → Task × List Call → Client
finished c h handle id r = cleanup_request h (tell (remove_handle handle) (settle id r c))

pub handle_done-eq :
    (c : Client) (handle id status : ℕ) (result : CurlCode) (t u : Task)
    → lookup handle c.tasks ≡ some t
    → lookup t.identifier c.request_task_map ≡ some id
    → lookup id c.tasks ≡ some u
    → handle_done handle status result c
      ≡ ok (finished c t.identifier handle id (did_finished status (convert_curl_code result) u))
unfolding handle_done
handle_done-eq c handle id status result t u a b d =
    rw (task_at-eq c handle t a, mapped-eq c t.identifier id b, task_at-eq c id u d, handle_done)

handle_done_lost :
    (c : Client) (handle status : ℕ) (result : CurlCode) (t : Task)
    → lookup handle c.tasks ≡ some t
    → lookup t.identifier c.request_task_map ≡ none
    → handle_done handle status result c ≡ err null_deref
unfolding handle_done
handle_done_lost c handle status result t a b =
    rw (task_at-eq c handle t a, mapped-none c t.identifier b, handle_done)

-- When the transfer of a task that the map holds under its hash is done, the client returns, calls
-- that task's callback, if any, with its request, the status and the converted result, removes its
-- handle from libcurl and drops the hash.
pub handle_done_delivers :
    (c : Client) (id status : ℕ) (result : CurlCode) (t : Task)
    → lookup id c.tasks ≡ some t
    → lookup t.identifier c.request_task_map ≡ some id
    → (c' : Client) × (handle_done id status result c ≡ ok c')
      × (c'.events
          ≡ c.events
            ++ record {
              task = id;
              calls =
                  notify t.completion_callback
                    (construct t.request status (convert_curl_code result) t.response);
            }
              ∷ [])
      × (c'.curl_calls ≡ c.curl_calls ++ remove_handle id ∷ [])
      × (lookup t.identifier c'.request_task_map ≡ none)
unfolding cleanup_request tell settle did_finished
handle_done_delivers c id status result t there held = (
  finished c t.identifier id id (did_finished status (convert_curl_code result) t),
  handle_done-eq c id id status result t t there held there,
  refl,
  refl,
  lookup-erase_self t.identifier c.request_task_map,
)

-- `CancelRequest` of a hash that the map holds returns, calls the callback of its task, if any,
-- with `UserCancel`, removes its handle from libcurl and drops the hash; after that, starting or
-- cancelling the hash again does nothing.
pub cancel_request_lem :
    (c : Client) (h : Bytes) (id : ℕ) (t : Task)
    → lookup h c.request_task_map ≡ some id
    → lookup id c.tasks ≡ some t
    → (c' : Client) × (do_cancel_request h c ≡ ok c')
      × (c'.events
          ≡ c.events
            ++ record {
              task = id;
              calls = notify t.completion_callback (response_of t.request 0 user_cancel true);
            }
              ∷ [])
      × (c'.curl_calls ≡ c.curl_calls ++ remove_handle id ∷ [])
      × (do_start_request h c' ≡ ok c')
      × (do_cancel_request h c' ≡ ok c')
unfolding do_cancel_request do_start_request cleanup_request tell settle did_cancelled
cancel_request_lem c h id t held there =
    let gone = lookup-erase_self h c.request_task_map in
    (
      finished c h id id (did_cancelled t),
      rw (held, task_at-eq c id t there, do_cancel_request),
      refl,
      refl,
      rw (gone, do_start_request),
      rw (gone, do_cancel_request),
    )

-- Two requests with one hash, and what happens until libcurl has the handles of both: each is made
-- and started, and the closure of each runs before anything else. `kept` tells whether the user of
-- the first task kept its pointer.
abbrev pub two_requests :
    Request → Request → Option ℕ → Option ℕ → (kept : Bool) → Client → List Step
two_requests r s k l kept c =
    creates r k true
    ∷ starts c.next_task
    ∷ runs
    ∷ creates s l kept
    ∷ starts (suc c.next_task)
    ∷ runs
    ∷ []

run-nil : (sha256 : Bytes → Bytes) (c : Client) → run sha256 [] c ≡ ok c
unfolding run
run-nil sha256 c = refl

-- A request is made and started, and the closure runs.
performed :
    (sha256 : Bytes → Bytes) (r : Request) (k : Option ℕ) (kept : Bool) (c : Client)
    (rest : List Step)
    → c.posted ≡ []
    → run sha256 (creates r k kept ∷ starts c.next_task ∷ runs ∷ rest) c
      ≡ run sha256 rest (
          tell
            (add_handle c.next_task)
            (record (task_with_request sha256 r k kept c).0 { posted = [] }))
unfolding run step task_with_request request_task_start run_next run_posted post tell
performed sha256 r k kept c rest idle =
    let h = hash sha256 r in
    let id = c.next_task in
    let t = record (new_task r h) { completion_callback = k } in
    let made = (task_with_request sha256 r k kept c).0 in
    let there = lookup-insert_self id t (drop_old kept (lookup h c.request_task_map) c.tasks) in
    let held = lookup-insert_self h id c.request_task_map in
    rw (
      task_at-eq made id t there,
      idle,
      do_start_request-eq (record made { posted = [] }) h id t held there,
    )

-- Two requests with one hash, of a client for which nothing is posted: libcurl then has the handles of
-- both. If the user of the first task kept its pointer, the end of the first transfer calls the
-- callback of the second task, with the status of the first, and the end of the second follows a null
-- pointer; the first task's callback is not called. If not, the first task is destroyed while
-- libcurl has its handle.
pub same_hash_collides :
    (sha256 : Bytes → Bytes) (c : Client) (r s : Request) (k l : Option ℕ) (status status' : ℕ)
    (result result' : CurlCode)
    → c.posted ≡ []
    → hash sha256 r ≡ hash sha256 s
    → ((c2 c' : Client) × (run sha256 (two_requests r s k l true c) c ≡ ok c2)
        × (c2.curl_calls
            ≡ (c.curl_calls ++ add_handle c.next_task ∷ []) ++ add_handle (suc c.next_task) ∷ [])
        × (handle_done c.next_task status result c2 ≡ ok c')
        × (c'.events
            ≡ c.events
              ++ record {
                task = suc c.next_task;
                calls = notify l (construct s status (convert_curl_code result) new_response);
              }
                ∷ [])
        × (handle_done (suc c.next_task) status' result' c' ≡ err null_deref))
      × ((c3 : Client) × (run sha256 (two_requests r s k l false c) c ≡ ok c3)
          × (c3.curl_calls
              ≡ (c.curl_calls ++ add_handle c.next_task ∷ []) ++ add_handle (suc c.next_task) ∷ [])
          × (lookup c.next_task c3.tasks ≡ none))
unfolding task_with_request cleanup_request tell settle did_finished
same_hash_collides sha256 c r s k l status status' result result' idle same =
    let h = hash sha256 s in
    let a = c.next_task in
    let b = suc a in
    let t = record (new_task r (hash sha256 r)) { completion_callback = k } in
    let u = record (new_task s h) { completion_callback = l } in
    let c1 = tell (add_handle a) (record (task_with_request sha256 r k true c).0 { posted = [] }) in
    let after = λ (kept : Bool).
      tell (add_handle b) (record (task_with_request sha256 s l kept c1).0 { posted = [] }) in
    let ran = λ (kept : Bool).
      performed sha256 r k true c (creates s l kept ∷ starts b ∷ runs ∷ []) idle
      ∙ performed sha256 s l kept c1 [] refl in
    let apart : b ≢ a = λ e. omega (arith, e) in
    let m = insert (hash sha256 r) a c.request_task_map in
    let overwritten : lookup h m ≡ some a =
      ap (λ j. lookup j m) (sym same) ∙ lookup-insert_self (hash sha256 r) a c.request_task_map in
    let c2 = after true in
    let first : lookup a c2.tasks ≡ some t =
      lookup-insert_other b a u (drop_old true (lookup h m) c1.tasks) apart
      ∙ ap (λ o. lookup a (drop_old true o c1.tasks)) overwritten
      ∙ lookup-insert_self a t _ in
    let second = lookup-insert_self b u (drop_old true (lookup h m) c1.tasks) in
    let held = ap (λ j. lookup j (insert h b m)) same ∙ lookup-insert_self h b m in
    let (u', calls) = did_finished status (convert_curl_code result) u in
    let gone =
      ap (λ j. lookup h (erase j (insert h b m))) same ∙ lookup-erase_self h (insert h b m) in
    let c' = finished c2 (hash sha256 r) a b (did_finished status (convert_curl_code result) u) in
    let destroyed =
      lookup-insert_other b a u (drop_old false (lookup h m) c1.tasks) apart
      ∙ ap (λ o. lookup a (drop_old false o c1.tasks)) overwritten
      ∙ ground (arith, lookup-erase a a c1.tasks, number_refl a) in
    (
      (
        c2,
        c',
        ran true ∙ run-nil sha256 c2,
        refl,
        handle_done-eq c2 a b status result t u first held second,
        refl,
        handle_done_lost c' b status' result' u' (lookup-insert_self b u' c2.tasks) gone,
      ),
      (after false, ran false ∙ run-nil sha256 (after false), refl, destroyed),
    )
