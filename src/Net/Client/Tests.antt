-- ===== src/Net/Client/Tests.antt =====
-- Concrete clients (source/net/curl_client.cpp).
use ffnetwork.Net.Task.{on_receive_header, find_colon}
use ffnetwork.Common.{
  Bool, ◌≡◌, refl, ◌++◌, List, [], ◌∷◌, true, false, some, none, ok, err, null_deref,
}
use ffnetwork.Common.Maps.{number_key, bytes_key, lookup, insert, erase, AllOf}
use ffnetwork.Net.Request.{
  Bytes, Request, new_request, hash, amalgamation, included, excluded_headers, body, post_method,
  set_method,
}
use ffnetwork.Net.Task.{
  Task, success, did_finished, did_cancelled, new_response, construct, response_of, user_cancel,
}
use ffnetwork.Net.Client.{
  Client, run_posted, new_client, curle_ok, curle_operation_timedout, Step, creates, starts,
  cancels, runs, finishes, step, run, remove_handle, request_task_start, request_task_cancel,
  run_next, handle_done, do_cancel_request, do_start_request, task_with_request,
}
use ffnetwork.Net.Client.{perform_request, add_handle, header_callback}
use ffnetwork.Net.Client.Lifetime.{
  Global, destroy_client, set_up, config_all, config_curl_global_state, new_global,
  config_all-set_up,
}
use ffnetwork.Net.Client.Polling.{run_for_time, users, multi_perform, handle_curl_msg, msg_done}
use ffnetwork.Net.Client.Polling.{Round, Polled, run_thread, multi_wait}
use ffnetwork.Net.Client.Stepping.{run_thread-replay}
use ffnetwork.Net.Client.Replay.{items, replay, standing, going, until_end, some_ends}
use ffnetwork.Net.Client.{start_request}
use ffnetwork.Net.Client.Completion.{perform_request_completes, run_with_late, performs}
use ffnetwork.Common.{ℕ, not, ◌>>=◌}
use ffnetwork.Net.Task.{notify}
use ffnetwork.Net.Client.Legal.{in_multi, all_legal, Held}
use ffnetwork.Net.Client.Legal.Ending.{destroy_client_empties}
use ffnetwork.Net.Client.Legal.Returning.{legal_history_returns, legal_end_delivers}
use ffnetwork.Net.Client.Pending.{Distinct, NotBy}
use ffnetwork.Net.Client.Once.{run-Distinct}
use ffnetwork.Net.Client.Delivery.{two_requests, cancel_request_lem, same_hash_collides}

abbrev plain : Bytes → Bytes
plain s = s

abbrev page : Request
page = new_request (1 ∷ []) []

-- A request is made, started, and its transfer finishes; a second is made and cancelled.
abbrev history : List Step
history =
    creates page (some 7) true
    ∷ starts 0
    ∷ runs
    ∷ finishes 0 200 curle_ok
    ∷ creates page (some 8) true
    ∷ cancels 1
    ∷ runs
    ∷ []

history_runs : (c : Client) × (run plain history new_client ≡ ok c)
unfolding run step task_with_request hash amalgamation included excluded_headers body lookup insert
    erase did_finished did_cancelled request_task_start run_next handle_done request_task_cancel
history_runs = (_, refl)

run-Distinct_example :
    Distinct history_runs.0.events
    × AllOf (λ h id. NotBy id history_runs.0.events) history_runs.0.request_task_map
run-Distinct_example = run-Distinct plain history history_runs.0 history_runs.1

abbrev held_task : Task
held_task = record {
  request = page;
  identifier = 1 ∷ [];
  cancelled = false;
  response = new_response;
  completion_callback = some 7;
}

abbrev held : Client
held = record {
  tasks = (0, held_task) ∷ [];
  next_task = 1;
  request_task_map = (1 ∷ [], 0) ∷ [];
  posted = [];
  curl_calls = [];
  events = [];
}

held_there :
    (lookup 0 held.tasks ≡ some held_task) × (lookup (1 ∷ []) held.request_task_map ≡ some 0)
unfolding lookup
held_there = (refl, refl)

cancel_request_lem_example :
    (c' : Client) × (do_cancel_request (1 ∷ []) held ≡ ok c')
    × (c'.events ≡ record { task = 0; calls = (7, response_of page 0 user_cancel true) ∷ [] } ∷ [])
    × (c'.curl_calls ≡ remove_handle 0 ∷ [])
    × (do_start_request (1 ∷ []) c' ≡ ok c')
    × (do_cancel_request (1 ∷ []) c' ≡ ok c')
cancel_request_lem_example = cancel_request_lem held (1 ∷ []) 0 held_task held_there.1 held_there.0

-- GET and POST of one URL.
same_method_hash : hash plain page ≡ hash plain (set_method post_method page)
unfolding hash amalgamation body
same_method_hash = refl

same_hash_collides_example :
    let other = set_method post_method page in
    let c = new_client in
    ((c2 c' : Client) × (run plain (two_requests page other (some 7) (some 8) true c) c ≡ ok c2)
      × (c2.curl_calls ≡ add_handle 0 ∷ add_handle 1 ∷ [])
      × (handle_done 0 200 curle_ok c2 ≡ ok c')
      × (c'.events
          ≡ record { task = 1; calls = (8, construct other 200 success new_response) ∷ [] } ∷ [])
      × (handle_done 1 0 curle_operation_timedout c' ≡ err null_deref))
    × ((c3 : Client) × (run plain (two_requests page other (some 7) (some 8) false c) c ≡ ok c3)
        × (c3.curl_calls ≡ add_handle 0 ∷ add_handle 1 ∷ [])
        × (lookup 0 c3.tasks ≡ none))
same_hash_collides_example =
    same_hash_collides plain new_client page (set_method post_method page) (some 7) (some 8) 200 0
      curle_ok curle_operation_timedout refl same_method_hash

abbrev comings : List Bool
comings = true ∷ true ∷ false ∷ false ∷ true ∷ []

config_all-set_up_example :
    (set_up false (config_all comings new_global).calls ≡ some true)
    × ((config_all comings new_global).active ≡ 1)
config_all-set_up_example = config_all-set_up comings 1 refl

perform_request_completes_example :
    let c = new_client in
    ((c1 c2 c3 : Client) × (perform_request plain page (some 7) true c ≡ ok (c1, 0))
      × (run_for_time plain (run_with_late []) c1 ≡ ok c2)
      × (c2.curl_calls ≡ add_handle 0 ∷ [])
      × (handle_curl_msg (msg_done 0 200 curle_ok ∷ []) c2 ≡ ok (c3, true))
      × (c3.events
          ≡ record { task = 0; calls = (7, construct page 200 success new_response) ∷ [] } ∷ [])
      × (lookup (hash plain page) c3.request_task_map ≡ none))
    × ((c4 : Client) × (run_for_time plain (run_with_late (performs page (some 7) true c)) c
          ≡ ok c4)
        × (run_for_time plain (run_with_late []) c4 ≡ ok c4)
        × (c4.curl_calls ≡ [])
        × (c4.events ≡ [])
        × (lookup (hash plain page) c4.request_task_map ≡ some 0))
perform_request_completes_example =
    perform_request_completes plain new_client page (some 7) true 200 curle_ok refl

-- The request thread starts the request that was posted, waits for libcurl, and hears of its end.
abbrev quiet : Round
quiet = record {
  stop = false;
  received = [];
  messages = [];
  loop_run = run_with_late [];
  active = 1;
  max_fd = none;
  wait_time = none;
  stop_later = false;
}

-- In the second round a line of a header arrives, and the end of the transfer.
abbrev rounds : List Round
rounds =
    quiet
    ∷ record quiet {
      received = (0, 65 ∷ 58 ∷ 32 ∷ 120 ∷ []) ∷ [];
      messages = msg_done 0 200 curle_ok ∷ [];
    }
    ∷ []

abbrev thread : Polled
thread = record {
  client = record held { posted = start_request (1 ∷ []) ∷ [] };
  waits = [];
  running = true;
}

thread_runs :
    (q : Polled) × (run_thread plain true rounds thread ≡ ok q)
    × (q.waits ≡ multi_wait 100 ∷ [])
    × (q.client.curl_calls ≡ add_handle 0 ∷ remove_handle 0 ∷ [])
unfolding run_thread run_for_time users run multi_perform header_callback on_receive_header
    find_colon run_posted handle_curl_msg do_start_request handle_done lookup insert erase
    did_finished
thread_runs = (_, refl, refl, refl)

run_thread-replay_example : (do q ← run_thread plain true rounds thread; ok (standing q)) ≡ (do
  c ← replay plain (items (until_end rounds)) thread.client
  going (not (some_ends rounds)) c)
run_thread-replay_example = run_thread-replay plain true rounds thread refl

-- Two pages at once; one is cancelled before its transfer ends.
abbrev two_pages : List Step
two_pages =
    creates page (some 7) true
    ∷ creates (new_request (2 ∷ []) []) (some 8) true
    ∷ starts 0
    ∷ starts 1
    ∷ runs
    ∷ runs
    ∷ cancels 1
    ∷ runs
    ∷ []

two_pages-legal : all_legal plain two_pages new_client ≡ true
unfolding all_legal step task_with_request hash amalgamation included excluded_headers body lookup
    insert erase did_finished did_cancelled request_task_start run_next handle_done
    request_task_cancel
two_pages-legal = refl

two_pages_run :
    (c : Client) × (run plain two_pages new_client ≡ ok c)
    × (in_multi 0 c.curl_calls ≡ true)
    × (in_multi 1 c.curl_calls ≡ false)
unfolding run step task_with_request hash amalgamation included excluded_headers body lookup insert
    erase did_finished did_cancelled request_task_start run_next handle_done request_task_cancel
two_pages_run = (_, refl, refl, refl)

-- A request is not made again while it is under way.
same_page_illegal :
    all_legal plain (creates page (some 7) true ∷ creates page (some 8) true ∷ []) new_client
    ≡ false
unfolding all_legal step task_with_request hash amalgamation included excluded_headers body lookup
    insert
same_page_illegal = refl

legal_history_returns_example :
    (c : Client) × (run plain two_pages new_client ≡ ok c)
    × ((id : ℕ) → in_multi id c.curl_calls ≡ true → Held c id)
legal_history_returns_example = legal_history_returns plain two_pages two_pages-legal

legal_end_delivers_example :
    let c = two_pages_run.0 in
    (t : Task) × (c' : Client) × (lookup 0 c.tasks ≡ some t)
    × (handle_done 0 200 curle_ok c ≡ ok c')
    × (c'.events
        ≡ c.events
          ++ record {
            task = 0;
            calls = notify t.completion_callback (construct t.request 200 success t.response);
          }
            ∷ [])
    × (in_multi 0 c'.curl_calls ≡ false)
legal_end_delivers_example =
    legal_end_delivers plain two_pages two_pages_run.0 0 200 curle_ok two_pages-legal
      two_pages_run.1 two_pages_run.2

abbrev one_client : Global
one_client = config_curl_global_state true new_global

destroy_client_empties_example :
    let c = two_pages_run.0 in
    let c' = (destroy_client c one_client).0 in
    ((id : ℕ) → in_multi id c'.curl_calls ≡ false)
    × ((h : Bytes) → lookup h c'.request_task_map ≡ none)
    × (c'.events ≡ c.events)
destroy_client_empties_example =
    destroy_client_empties plain two_pages two_pages_run.0 one_client two_pages-legal
      two_pages_run.1
