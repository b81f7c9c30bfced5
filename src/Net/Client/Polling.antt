-- ===== src/Net/Client/Polling.antt =====
-- `HandleCurlMsg`, `Run`, `WaitMulti` and `WaitFD` of source/net/curl_client.cpp: the request
-- thread. The messages, the counts and the descriptors that libcurl gives are arguments.
use ffnetwork.Common.{
  map, ℕ, ◌+◌, ◌*◌, ◌/◌, ◌%◌, Bool, false, not, ltb, if◌then◌else◌, List, [], ◌∷◌, ◌++◌, Option,
  none, some, Outcome, ok, ◌>>=◌, length,
}
use ffnetwork.Net.Request.{Bytes, Request}
use ffnetwork.Net.Client.{
  Client, CurlCode, Posted, handle_done, run_posted, header_callback, Step, creates, starts,
  cancels, run,
}

-- `CURLMSG_DONE` with the easy handle, its HTTP status and the result, or another message.
pub data CurlMsg : Type 0 where
  msg_done : ℕ → ℕ → CurlCode → CurlMsg
  msg_other : CurlMsg

unfoldable pub handle_msg : CurlMsg → Client → Outcome Client
handle_msg (msg_done handle status result) c = handle_done handle status result c
handle_msg msg_other c = ok c

-- The messages that `curl_multi_info_read` returns until it returns null.
unfoldable pub handle_msgs : List CurlMsg → Client → Outcome Client
unfolding handle_msg
handle_msgs [] c = ok c
handle_msgs (m ∷ ms) c = do c' ← handle_msg m c; handle_msgs ms c'

-- `HandleCurlMsg`, with its result.
unfoldable pub handle_curl_msg : List CurlMsg → Client → Outcome (Client × Bool)
unfolding handle_msgs
handle_curl_msg ms c = do c' ← handle_msgs ms c; ok (c', ltb 0 (length ms))

unfoldable pub run_all : List Posted → Client → Outcome Client
run_all [] c = ok c
run_all (p ∷ ps) c = do c' ← run_posted p c; run_all ps c'

-- What users of the client do in other threads.
pub data UserCall : Type 0 where
  user_creates : Request → Option ℕ → (kept : Bool) → UserCall
  user_starts user_cancels : ℕ → UserCall

abbrev pub as_step : UserCall → Step
as_step (user_creates r k kept) = creates r k kept
as_step (user_starts id) = starts id
as_step (user_cancels id) = cancels id

-- A run of the loop: whether it was terminated before; what users do before each flush of
-- `RunForTime`, before that of `DoRunForTime`, and between that and the disposal. The closures are
-- posted for now, so that a flush runs all that are there.
pub record LoopRun : Type 0 where
  pub terminated : Bool
  pub earlier : List (List UserCall)
  pub last : List UserCall
  pub late : List UserCall

module _ (sha256 : Bytes → Bytes) where
  unfoldable pub users : List UserCall → Client → Outcome Client
  users us c = run sha256 (map as_step us) c

  unfoldable pub run_flushes : List (List UserCall) → Client → Outcome Client
  unfolding run_all users
  run_flushes [] c = ok c
  run_flushes (us ∷ fs) c = do
    c1 ← users us c
    c2 ← run_all c1.posted (record c1 { posted = [] })
    run_flushes fs c2

  -- `RunForTime` of the loop, that is `DoRunForTime`: it disposes of what is posted after its flush.
  unfoldable pub run_for_time : LoopRun → Client → Outcome Client
  unfolding run_flushes users
  run_for_time l c = if l.terminated then ok c else do
    c1 ← run_flushes (l.earlier ++ l.last ∷ []) c
    c2 ← users l.late c1
    ok (record c2 { posted = [] })

-- `curl_multi_perform`, which calls `header_callback` with the lines that have arrived, for these
-- handles; `write_callback` changes nothing.
unfoldable pub multi_perform : List (ℕ × Bytes) → Client → Outcome Client
multi_perform [] c = ok c
multi_perform ((handle, line) ∷ ls) c = do c' ← header_callback handle line c; multi_perform ls c'

-- How the thread waits: for libcurl, in `usleep` with microseconds, or in `select` with the number
-- of descriptors and a `timeval`.
pub data Wait : Type 0 where
  multi_wait : ℕ → Wait
  sleep : ℕ → Wait
  select : ℕ → ℕ → ℕ → Wait

-- `max_fd` and `wait_time` are what `curl_multi_fdset` and `curl_multi_timeout` give, -1 as `none`.
unfoldable pub wait_fd : ℕ → Option ℕ → Option ℕ → Wait
wait_fd timeout_ms max_fd wait_time =
    let wait_time' : ℕ = elim wait_time [ none ↦ timeout_ms | some t ↦ t ] in
    elim max_fd [
      | none ↦ sleep wait_time'
      | some n ↦ select (n + 1) (wait_time' / 1000) (wait_time' % 1000 * 1000)
    ]

-- One round of `Run`: `stop` and `stop_later` are `is_terminated_` at the head of the loop and at
-- its end, `received` the lines that arrive, `active` the number of running transfers.
pub record Round : Type 0 where
  pub stop : Bool
  pub received : List (ℕ × Bytes)
  pub messages : List CurlMsg
  pub loop_run : LoopRun
  pub active : ℕ
  pub max_fd : Option ℕ
  pub wait_time : Option ℕ
  pub stop_later : Bool

-- The client, the waits until now, and whether the thread goes on.
pub record Polled : Type 0 where
  pub client : Client
  pub waits : List Wait
  pub running : Bool

module _ (sha256 : Bytes → Bytes) where
  unfoldable pub poll : Bool → Round → Polled → Outcome Polled
  unfolding multi_perform handle_curl_msg run_for_time wait_fd
  poll use_multi_wait r p = if r.stop then ok (record p { running = false }) else do
    c0 ← multi_perform r.received p.client
    (c, handled) ← handle_curl_msg r.messages c0
    if handled then ok (record p { client = c }) else do
      c' ← run_for_time sha256 r.loop_run c
      ok (
          if ltb 0 r.active
          then record p {
            client = c';
            waits =
                p.waits
                ++ (if use_multi_wait then multi_wait 100 else wait_fd 100 r.max_fd r.wait_time)
                  ∷ [];
          }
          else record p { client = c'; running = not r.stop_later })

  -- `Run`, as far as these rounds go.
  unfoldable pub run_thread : Bool → List Round → Polled → Outcome Polled
  unfolding poll
  run_thread multi [] p = ok p
  run_thread multi (r ∷ rs) p =
      let rest = (do p' ← poll multi r p; run_thread multi rs p') in
      if p.running then rest else ok p
