-- ===== src/Net/Client/Completion.antt =====
-- A request of source/net/curl_client.cpp from `PerformRequest` to its callback, and how long the
-- request thread waits.
use ffnetwork.Common.{
  false, Bool, List, ℕ, ◌+◌, ◌*◌, ◌≡◌, refl, true, [], ◌∷◌, ◌++◌, Option, none, some, ok, arith,
}
use ffnetwork.Common.Maps.{number_key, bytes_key, lookup, lookup-insert_self}
use ffnetwork.Net.Request.{Bytes, Request, hash}
use ffnetwork.Net.Task.{notify, construct, new_response, new_task}
use ffnetwork.Net.Client.{
  drop_old, run, step, Client, CurlCode, add_handle, convert_curl_code, start_request,
  perform_request, task_with_request, request_task_start, post, tell, run_posted,
}
use ffnetwork.Net.Client.Access.{task_at-eq, do_start_request-eq}
use ffnetwork.Net.Client.Delivery.{handle_done_delivers}
use ffnetwork.Net.Client.Polling.{
  UserCall, user_creates, user_starts, LoopRun, users, run_flushes, msg_done, handle_msg,
  handle_msgs, handle_curl_msg, run_all, run_for_time, Wait, multi_wait, sleep, select, wait_fd,
}

-- A run of the loop, which is not terminated, in which users do nothing but these calls after its
-- last flush.
abbrev pub run_with_late : List UserCall → LoopRun
run_with_late us = record { terminated = false; earlier = []; last = []; late = us }

-- The calls of `PerformRequest` in another thread, for the next task.
abbrev pub performs : Request → Option ℕ → (kept : Bool) → Client → List UserCall
performs r callback kept c = user_creates r callback kept ∷ user_starts c.next_task ∷ []

-- When a request is performed while nothing else is posted, and users do nothing more until the
-- request thread has run its loop, which is not terminated: its handle is added to libcurl; when
-- libcurl then reports the end of its transfer, the callback, if any, gets the request, the status and
-- the converted result, and the client has forgotten the hash. But if it is performed during such a
-- run, after the last flush, libcurl does not get the handle, no callback is called and the map holds
-- the request, and a further run in which users do nothing changes nothing.
pub perform_request_completes :
    (sha256 : Bytes → Bytes) (c : Client) (r : Request) (callback : Option ℕ) (kept : Bool)
    (status : ℕ) (result : CurlCode)
    → c.posted ≡ []
    → ((c1 c2 c3 : Client) × (perform_request sha256 r callback kept c ≡ ok (c1, c.next_task))
        × (run_for_time sha256 (run_with_late []) c1 ≡ ok c2)
        × (c2.curl_calls ≡ c.curl_calls ++ add_handle c.next_task ∷ [])
        × (handle_curl_msg (msg_done c.next_task status result ∷ []) c2 ≡ ok (c3, true))
        × (c3.events
            ≡ c.events
              ++ record {
                task = c.next_task;
                calls =
                    notify callback (construct r status (convert_curl_code result) new_response);
              }
                ∷ [])
        × (lookup (hash sha256 r) c3.request_task_map ≡ none))
      × ((c4 : Client) × (run_for_time sha256 (run_with_late (performs r callback kept c)) c
            ≡ ok c4)
          × (run_for_time sha256 (run_with_late []) c4 ≡ ok c4)
          × (c4.curl_calls ≡ c.curl_calls)
          × (c4.events ≡ c.events)
          × (lookup (hash sha256 r) c4.request_task_map ≡ some c.next_task))
unfolding perform_request task_with_request request_task_start run_for_time run_flushes users run
    step run_all run_posted post tell handle_curl_msg handle_msgs handle_msg
perform_request_completes sha256 c r callback kept status result idle =
    let h = hash sha256 r in
    let id = c.next_task in
    let t = record (new_task r h) { completion_callback = callback } in
    let made = (task_with_request sha256 r callback kept c).0 in
    let there = lookup-insert_self id t (drop_old kept (lookup h c.request_task_map) c.tasks) in
    let held = lookup-insert_self h id c.request_task_map in
    let c1 = post (start_request h) made in
    let c2 = tell (add_handle id) (record made { posted = [] }) in
    let (c3, done, events, calls, free) = handle_done_delivers c2 id status result t there held in
    (
      (
        c1,
        c2,
        c3,
        rw (task_at-eq made id t there),
        rw (idle, do_start_request-eq (record made { posted = [] }) h id t held there),
        refl,
        rw done,
        events,
        free,
      ),
      (
        record made { posted = [] },
        rw (idle, task_at-eq (record made { posted = [] }) id t there),
        refl,
        refl,
        refl,
        held,
      ),
    )

-- How long a wait is to last at most.
abbrev pub microseconds : Wait → ℕ
microseconds (multi_wait ms) = ms * 1000
microseconds (sleep us) = us
microseconds (select n sec usec) = sec * 1000000 + usec

-- With descriptors `WaitFD` waits for the time that libcurl asks for, or the time-out if it asks for
-- none, in whole seconds and less than a second; without descriptors it waits for a thousandth of
-- it.
pub wait_fd_lem :
    (timeout_ms t n : ℕ)
    → (microseconds (wait_fd timeout_ms (some n) (some t)) ≡ t * 1000)
      × (microseconds (wait_fd timeout_ms (some n) none) ≡ timeout_ms * 1000)
      × (microseconds (wait_fd timeout_ms none (some t)) ≡ t)
      × (microseconds (wait_fd timeout_ms none none) ≡ timeout_ms)
unfolding wait_fd
wait_fd_lem timeout_ms t n = (omega arith, omega arith, refl, refl)
