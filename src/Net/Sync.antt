-- ===== src/Net/Sync.antt =====
-- `Client::PerformRequestSync` of source/net/client.cpp: the thread that calls it, and the request
-- thread that runs the callback, as interleaved moves. `R` is the type of responses. The mutex and
-- the condition variable are the standard library's: one owner at a time; `wait` gives the mutex up
-- and sleeps in one move, and takes it again when it was notified, or woken for no reason.
pub mod Progress
mod Tests
use ffnetwork.Common.{Bool, true, false, Option, none, some, ◌≡◌}

pub data Thread : Type 0 where
  caller callback : Thread

-- Where the calling thread is; `returned` holds its result.
pub data CallerPc (R : Type 0) : Type 0 where
  locking checking sleeping waking : CallerPc R
  returned : Option R → CallerPc R

-- Where the callback is: before its lock, before each of its two assignments, before `notify_one`.
pub data CallbackPc : Type 0 where
  before storing readying notifying finished : CallbackPc

pub record Sync (R : Type 0) : Type 0 where
  pub owner : Option Thread
  pub response_ready : Bool
  pub output_response : Option R
  pub caller_pc : CallerPc R
  pub callback_pc : CallbackPc

-- `PerformRequest` has returned, and the callback is still to come.
abbrev pub begin : {R : Type 0} → Sync R
begin = record {
  owner = none;
  response_ready = false;
  output_response = none;
  caller_pc = locking;
  callback_pc = before;
}

pub data Move : Type 0 where
  take_lock check_ready spurious wake_up : Move
  callback_lock store_response store_ready notify_one : Move

-- The calling thread. A move that it cannot make is `none`.
unfoldable pub caller_lock : {R : Type 0} → CallerPc R → Option Thread → Sync R → Option (Sync R)
caller_lock locking none s = some (record s { owner = some caller; caller_pc = checking })
caller_lock p o s = none

unfoldable pub caller_wake : {R : Type 0} → CallerPc R → Option Thread → Sync R → Option (Sync R)
caller_wake waking none s = some (record s { owner = some caller; caller_pc = checking })
caller_wake p o s = none

-- The test of the loop: it returns, or waits.
unfoldable pub caller_check : {R : Type 0} → CallerPc R → Bool → Sync R → Option (Sync R)
caller_check checking true s =
    some (record s { owner = none; caller_pc = returned s.output_response })
caller_check checking false s = some (record s { owner = none; caller_pc = sleeping })
caller_check p b s = none

unfoldable pub caller_spurious : {R : Type 0} → CallerPc R → Sync R → Option (Sync R)
caller_spurious sleeping s = some (record s { caller_pc = waking })
caller_spurious p s = none

-- The callback, with its response.
unfoldable pub lock_callback : {R : Type 0} → CallbackPc → Option Thread → Sync R → Option (Sync R)
lock_callback before none s = some (record s { owner = some callback; callback_pc = storing })
lock_callback p o s = none

unfoldable pub callback_response : {R : Type 0} → R → CallbackPc → Sync R → Option (Sync R)
callback_response r storing s = some (record s { output_response = some r; callback_pc = readying })
callback_response r p s = none

unfoldable pub callback_ready : {R : Type 0} → CallbackPc → Sync R → Option (Sync R)
callback_ready readying s =
    some (record s { response_ready = true; owner = none; callback_pc = notifying })
callback_ready p s = none

-- `notify_one` wakes the caller if it sleeps.
abbrev pub notified : {R : Type 0} → CallerPc R → CallerPc R
notified sleeping = waking
notified locking = locking
notified checking = checking
notified waking = waking
notified (returned o) = returned o

unfoldable pub callback_notify : {R : Type 0} → CallbackPc → Sync R → Option (Sync R)
callback_notify notifying s =
    some (record s { callback_pc = finished; caller_pc = notified s.caller_pc })
callback_notify p s = none

unfoldable pub move : {R : Type 0} → R → Move → Sync R → Option (Sync R)
unfolding caller_lock caller_wake caller_check caller_spurious lock_callback callback_response
    callback_ready callback_notify
move r take_lock s = caller_lock s.caller_pc s.owner s
move r check_ready s = caller_check s.caller_pc s.response_ready s
move r spurious s = caller_spurious s.caller_pc s
move r wake_up s = caller_wake s.caller_pc s.owner s
move r callback_lock s = lock_callback s.callback_pc s.owner s
move r store_response s = callback_response r s.callback_pc s
move r store_ready s = callback_ready s.callback_pc s
move r notify_one s = callback_notify s.callback_pc s

-- What the two threads can reach, in any order of their moves.
pub data Reach {R : Type 0} (r : R) : Sync R → Type 0 where
  start : Reach r begin
  then_move : {s t : Sync R} → Reach r s → (m : Move) → move r m s ≡ some t → Reach r t
