-- ===== src/Net/Client.antt =====
-- source/net/curl_client.h, curl_client.cpp and the delegation of request_task_impl.cpp:
-- `CurlClient`. A task is a number that names it, and its easy handle has the same number. What
-- libcurl does is not modelled: its messages are arguments, and what it is told is recorded.
-- `RequestTaskStart` and `RequestTaskCancel` post a closure to the request thread, which runs them
-- in the order of their posting. `sha256` is an argument, as in Net.Request.
pub mod Access
pub mod Pending
pub mod Once
pub mod Delivery
pub mod Polling
pub mod Legal
pub mod Replay
pub mod Stepping
pub mod Completion
pub mod Lifetime
mod Tests
use ffnetwork.Common.{
  ℕ, suc, ◌+◌, Bool, true, false, List, [], ◌∷◌, ◌++◌, map, Option, none, some, Outcome, ok, err,
  null_deref, ◌>>=◌,
}
use ffnetwork.Common.Maps.{number_key, bytes_key, lookup, insert, erase}
use ffnetwork.Net.Request.{Bytes, Request, hash}
use ffnetwork.Net.Task.{
  Task, Response, ResponseCode, success, connect_to_server_failed, timeout, unknown_error, new_task,
  did_finished, did_cancelled, on_receive_header, Call,
}

-- The results of a transfer that the client tells apart.
pub data CurlCode : Type 0 where
  curle_ok curle_couldnt_connect curle_operation_timedout : CurlCode
  curle_other : ℕ → CurlCode

abbrev pub convert_curl_code : CurlCode → ResponseCode
convert_curl_code curle_ok = success
convert_curl_code curle_couldnt_connect = connect_to_server_failed
convert_curl_code curle_operation_timedout = timeout
convert_curl_code (curle_other n) = unknown_error

-- The closures of `RequestTaskStart` and `RequestTaskCancel`.
pub data Posted : Type 0 where
  start_request cancel_request : Bytes → Posted

-- `curl_multi_add_handle` and `curl_multi_remove_handle`.
pub data CurlCall : Type 0 where
  add_handle remove_handle : ℕ → CurlCall

-- A call of a completion callback, with the task that made it.
pub record Event : Type 0 where
  pub task : ℕ
  pub calls : List Call

-- `tasks` are the task objects, `next_task` names the next one.
pub record Client : Type 0 where
  pub tasks : List (ℕ × Task)
  pub next_task : ℕ
  pub request_task_map : List (Bytes × ℕ)
  pub posted : List Posted
  pub curl_calls : List CurlCall
  pub events : List Event

abbrev pub new_client : Client
new_client = record {
  tasks = [];
  next_task = 0;
  request_task_map = [];
  posted = [];
  curl_calls = [];
  events = [];
}

-- A task that is used through a pointer.
pub task_at : Client → ℕ → Outcome Task
task_at c id = elim (lookup id c.tasks) [ none ↦ err null_deref | some t ↦ ok t ]

-- `request_task_map_[hash]->`: a missing key is inserted with a null pointer, which is followed.
pub mapped : Client → Bytes → Outcome ℕ
mapped c h = elim (lookup h c.request_task_map) [ none ↦ err null_deref | some id ↦ ok id ]

pub post : Posted → Client → Client
post p c = record c { posted = c.posted ++ p ∷ [] }

-- `Resume` and `Cancel` of the task.
pub request_task_start : ℕ → Client → Outcome Client
unfolding task_at post
request_task_start id c = do t ← task_at c id; ok (post (start_request t.identifier) c)

pub request_task_cancel : ℕ → Client → Outcome Client
unfolding task_at post
request_task_cancel id c = do t ← task_at c id; ok (post (cancel_request t.identifier) c)

-- The map drops its pointer to the task that it had: the task is destroyed unless its user kept it.
abbrev pub drop_old : Bool → Option ℕ → List (ℕ × Task) → List (ℕ × Task)
drop_old kept none ts = ts
drop_old true (some id) ts = ts
drop_old false (some id) ts = erase id ts

-- `kept` tells whether the user of the task that the map has under this hash kept a pointer to it.
pub task_with_request : (Bytes → Bytes) → Request → Option ℕ → (kept : Bool) → Client → Client × ℕ
task_with_request sha256 request callback kept c =
    let request_hash = hash sha256 request in
    let t = record (new_task request request_hash) { completion_callback = callback } in
    (
      record c {
        tasks =
            insert c.next_task t (drop_old kept (lookup request_hash c.request_task_map) c.tasks);
        next_task = suc c.next_task;
        request_task_map = insert request_hash c.next_task c.request_task_map;
      },
      c.next_task,
    )

pub perform_request :
    (Bytes → Bytes) → Request → Option ℕ → (kept : Bool) → Client → Outcome (Client × ℕ)
unfolding task_with_request request_task_start
perform_request sha256 request callback kept c = do
  let (c', id) = task_with_request sha256 request callback kept c
  c'' ← request_task_start id c'
  ok (c'', id)

pub cleanup_request : Bytes → Client → Client
cleanup_request h c = record c { request_task_map = erase h c.request_task_map }

-- The task object changed, and these calls of its callback were made.
pub settle : ℕ → Task × List Call → Client → Client
settle id (t, calls) c = record c {
  tasks = insert id t c.tasks;
  events = c.events ++ record { task = id; calls = calls } ∷ [];
}

pub tell : CurlCall → Client → Client
tell call c = record c { curl_calls = c.curl_calls ++ call ∷ [] }

-- `CancelRequest`
pub do_cancel_request : Bytes → Client → Outcome Client
unfolding task_at settle tell cleanup_request
do_cancel_request h c = elim (lookup h c.request_task_map) [
  | none ↦ ok c
  | some id ↦ do
    t ← task_at c id
    ok (cleanup_request h (tell (remove_handle id) (settle id (did_cancelled t) c)))
]

-- `StartRequest`
pub do_start_request : Bytes → Client → Outcome Client
unfolding task_at tell
do_start_request h c = elim (lookup h c.request_task_map) [
  | none ↦ ok c
  | some id ↦ do t ← task_at c id; ok (tell (add_handle id) c)
]

pub run_posted : Posted → Client → Outcome Client
unfolding do_start_request do_cancel_request
run_posted (start_request h) c = do_start_request h c
run_posted (cancel_request h) c = do_cancel_request h c

-- The first closure that was posted runs on the request thread.
pub run_next : Client → Outcome Client
unfolding run_posted
run_next c = elim c.posted [ [] ↦ ok c | p ∷ ps ↦ run_posted p (record c { posted = ps }) ]

-- The body of the loop of `HandleCurlMsg` for a transfer that is done, with the easy handle, the
-- HTTP status and the result.
pub handle_done : ℕ → ℕ → CurlCode → Client → Outcome Client
unfolding task_at mapped settle tell cleanup_request
handle_done handle status_code result c = do
  finished ← task_at c handle
  id ← mapped c finished.identifier
  t ← task_at c id
  let c' = settle id (did_finished status_code (convert_curl_code result) t) c
  ok (cleanup_request finished.identifier (tell (remove_handle handle) c'))

-- `header_callback` of the transfer of this task.
pub header_callback : ℕ → Bytes → Client → Outcome Client
unfolding task_at
header_callback id line c = do
  t ← task_at c id
  ok (record c { tasks = insert id (on_receive_header line t) c.tasks })

-- What happens to a client; `disposes` is the loop's disposal of the closures that are left.
pub data Step : Type 0 where
  creates : Request → Option ℕ → (kept : Bool) → Step
  disposes : Step
  starts cancels : ℕ → Step
  runs : Step
  receives : ℕ → Bytes → Step
  finishes : ℕ → ℕ → CurlCode → Step

module _ (sha256 : Bytes → Bytes) where
  unfoldable pub step : Step → Client → Outcome Client
  step (creates r k kept) c = ok (task_with_request sha256 r k kept c).0
  step disposes c = ok (record c { posted = [] })
  step (starts id) c = request_task_start id c
  step (cancels id) c = request_task_cancel id c
  step runs c = run_next c
  step (receives id line) c = header_callback id line c
  step (finishes id status result) c = handle_done id status result c

  unfoldable pub run : List Step → Client → Outcome Client
  unfolding step
  run [] c = ok c
  run (s ∷ ss) c = do c' ← step s c; run ss c'
