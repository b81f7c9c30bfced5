-- ===== src/Threads/Starting.antt =====
-- The handshake of `Thread::Start` (source/base/thread/thread.cpp) with the thread that it makes, by
-- an `AutoResetWaitableEvent` (waitable_event.cpp) and the variable `task_runner`, as interleaved
-- moves. The mutex and the condition variable of the event are the standard library's: one owner at
-- a time; `wait` gives the mutex up and sleeps in one move, and takes it again when it was notified,
-- or woken for no reason. `R` is the type of task runners.
pub mod Progress
use ffnetwork.Common.{Bool, true, false, Option, none, some, ◌≡◌}

pub data Side : Type 0 where
  starter child : Side

-- Where `Start` is; `returned` holds what it stores in `task_runner_`.
pub data StarterPc (R : Type 0) : Type 0 where
  locking checking sleeping waking : StarterPc R
  returned : Option R → StarterPc R

-- Where the new thread is: before its assignment to `task_runner`, in `Signal` before the lock, the
-- assignment, `notify_one` and the unlock, or past it.
pub data ChildPc : Type 0 where
  assigning signalling storing notifying unlocking running : ChildPc

pub record Starting (R : Type 0) : Type 0 where
  pub owner : Option Side
  pub signaled : Bool
  pub task_runner : Option R
  pub starter_pc : StarterPc R
  pub child_pc : ChildPc

-- `thread_` has its new thread.
abbrev pub begin_start : {R : Type 0} → Starting R
begin_start = record {
  owner = none;
  signaled = false;
  task_runner = none;
  starter_pc = locking;
  child_pc = assigning;
}

pub data StartMove : Type 0 where
  take_lock check_signal spurious wake_up : StartMove
  assign_runner take_child_lock set_signal notify_starter release_child_lock : StartMove

-- `Wait`, in `Start`. A move that cannot be made is `none`.
unfoldable pub start_lock :
    {R : Type 0} → StarterPc R → Option Side → Starting R → Option (Starting R)
start_lock locking none s = some (record s { owner = some starter; starter_pc = checking })
start_lock p o s = none

unfoldable pub start_wake :
    {R : Type 0} → StarterPc R → Option Side → Starting R → Option (Starting R)
start_wake waking none s = some (record s { owner = some starter; starter_pc = checking })
start_wake p o s = none

-- The test of the loop: it resets the event and `Start` returns, or it waits.
unfoldable pub start_check : {R : Type 0} → StarterPc R → Bool → Starting R → Option (Starting R)
start_check checking true s =
    some (record s { owner = none; signaled = false; starter_pc = returned s.task_runner })
start_check checking false s = some (record s { owner = none; starter_pc = sleeping })
start_check p b s = none

unfoldable pub start_spurious : {R : Type 0} → StarterPc R → Starting R → Option (Starting R)
start_spurious sleeping s = some (record s { starter_pc = waking })
start_spurious p s = none

-- The new thread, with the task runner of its loop.
unfoldable pub child_assign : {R : Type 0} → R → ChildPc → Starting R → Option (Starting R)
child_assign r assigning s = some (record s { task_runner = some r; child_pc = signalling })
child_assign r p s = none

unfoldable pub child_lock : {R : Type 0} → ChildPc → Option Side → Starting R → Option (Starting R)
child_lock signalling none s = some (record s { owner = some child; child_pc = storing })
child_lock p o s = none

unfoldable pub child_store : {R : Type 0} → ChildPc → Starting R → Option (Starting R)
child_store storing s = some (record s { signaled = true; child_pc = notifying })
child_store p s = none

abbrev pub woken : {R : Type 0} → StarterPc R → StarterPc R
woken sleeping = waking
woken locking = locking
woken checking = checking
woken waking = waking
woken (returned o) = returned o

unfoldable pub child_notify : {R : Type 0} → ChildPc → Starting R → Option (Starting R)
child_notify notifying s = some (record s { child_pc = unlocking; starter_pc = woken s.starter_pc })
child_notify p s = none

unfoldable pub child_unlock : {R : Type 0} → ChildPc → Starting R → Option (Starting R)
child_unlock unlocking s = some (record s { owner = none; child_pc = running })
child_unlock p s = none

unfoldable pub start_move : {R : Type 0} → R → StartMove → Starting R → Option (Starting R)
unfolding start_lock start_wake start_check start_spurious child_assign child_lock child_store
    child_notify child_unlock
start_move r take_lock s = start_lock s.starter_pc s.owner s
start_move r check_signal s = start_check s.starter_pc s.signaled s
start_move r spurious s = start_spurious s.starter_pc s
start_move r wake_up s = start_wake s.starter_pc s.owner s
start_move r assign_runner s = child_assign r s.child_pc s
start_move r take_child_lock s = child_lock s.child_pc s.owner s
start_move r set_signal s = child_store s.child_pc s
start_move r notify_starter s = child_notify s.child_pc s
start_move r release_child_lock s = child_unlock s.child_pc s

-- What the two threads can reach, in any order of their moves.
pub data Reachable {R : Type 0} (r : R) : Starting R → Type 0 where
  begins : Reachable r begin_start
  moves :
      {s t : Starting R}
      → Reachable r s
      → (m : StartMove) → start_move r m s ≡ some t
      → Reachable r t
