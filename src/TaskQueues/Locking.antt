-- ===== src/TaskQueues/Locking.antt =====
-- Threads that use queues of message_loop_task_queues.cpp at the same time, each call under the
-- mutex of its queue (`ScopedMutex queue_lock(GetMutex(queue_id))`). A call takes the mutex, makes its
-- use of `order_`, which is atomic, reads the queue's entry, writes it, and gives the mutex up: these
-- are its moves, and those of different threads interleave in any order. No queue is created or
-- disposed of in the meantime. The wake-ups and the log output of the calls are left out.
pub mod Effects
pub mod Invariant
pub mod Moves
pub mod Counts
pub mod Writes
pub mod Linear
pub mod Progress
mod Tests
use ffnetwork.Common.{
  ℕ, ◌+◌, ◌%◌, ◌^◌, ◌≡◌, List, [], ◌∷◌, ◌++◌, Option, none, some, map, ◌==◌, if◌then◌else◌, Outcome,
  ok, ◌>>=◌,
}
use ffnetwork.Common.Int.{ℤ, pos}
use ffnetwork.Common.Maps.{number_key, lookup, insert, erase}
use ffnetwork.Time.{TimePoint}
use ffnetwork.DelayedTask.{push}
use ffnetwork.TaskQueues.{
  TaskQueues, TaskQueueEntry, key_of, size_of_int, all, put_entry, insert_observer, erase_observer,
  get_tasks_to_run_now,
}
use ffnetwork.TaskQueues.Flush.{with_tasks, due, later}
use ffnetwork.TaskQueues.Lifecycle.{Op, step, clears, registers, flushes, observes, forgets}

-- What a thread asks of a queue: `RegisterTask` at the time `now`, `GetTasksToRunNow` with `kAll`,
-- `DisposeTasks`, `AddTaskObserver` and `RemoveTaskObserver`.
pub data QueueCall (C : Type 0) : Type 0 where
  register : C → (target now : ℕ) → QueueCall C
  flush : TimePoint → QueueCall C
  clear : QueueCall C
  observe : ℤ → C → QueueCall C
  forget : ℤ → QueueCall C

-- Where a thread is, with its queue: `counted` has the number that it got from `order_`, `loaded`
-- the entry that it read.
pub data Place (C : Type 0) : Type 0 where
  idle : Place C
  entered : ℕ → QueueCall C → Place C
  counted : ℕ → QueueCall C → ℕ → Place C
  loaded : ℕ → QueueCall C → ℕ → TaskQueueEntry C → Place C
  leaving : ℕ → Place C

-- `owners` are the threads that hold a mutex, by its queue; `log` the calls in the order in which
-- they used `order_`; `given` what the calls returned, with their queues, in the order of the writes.
pub record System (C : Type 0) : Type 0 where
  pub queues : TaskQueues C
  pub owners : List (ℕ × ℕ)
  pub places : List (ℕ × Place C)
  pub log : List (ℕ × QueueCall C)
  pub given : List (ℕ × List C)

-- A thread calls an operation of a queue, or moves on in its call.
pub data LockTurn (C : Type 0) : Type 0 where
  calls : ℕ → ℕ → QueueCall C → LockTurn C
  moves : ℕ → LockTurn C

module _ {C : Type 0} where
  abbrev pub all_idle : TaskQueues C → System C
  all_idle q = record { queues = q; owners = []; places = []; log = []; given = [] }

  abbrev pub the_place : Option (Place C) → Place C
  the_place none = idle
  the_place (some p) = p

  abbrev pub place_of : ℕ → System C → Place C
  place_of i s = the_place (lookup i s.places)

  abbrev pub op_of : ℕ × QueueCall C → Op C
  op_of (id, register c target now) =
      registers id c (record { ticks = pos target }) (record { ticks = pos now })
  op_of (id, flush now) = flushes id all now
  op_of (id, clear) = clears id
  op_of (id, observe key c) = observes id key (some c)
  op_of (id, forget key) = forgets id key

  -- What a call makes of the entry that it read.
  unfoldable pub effect : QueueCall C → ℕ → TaskQueueEntry C → TaskQueueEntry C
  effect (register c target now) n e = with_tasks e (
      push (record { order = size_of_int n; task = c; target_time = record { ticks = pos target } })
        e.delayed_tasks)
  effect (flush now) n e = with_tasks e (later now e.delayed_tasks)
  effect clear n e = with_tasks e []
  effect (observe key c) n e = record e { task_observers = insert_observer key c e.task_observers }
  effect (forget key) n e = record e { task_observers = erase_observer key e.task_observers }

  -- The closures that a call returns, by the entry that it read.
  unfoldable pub handed : QueueCall C → TaskQueueEntry C → List C
  handed (register c target now) e = []
  handed (flush now) e = map (λ t. t.task) (due now e.delayed_tasks)
  handed clear e = []
  handed (observe key c) e = []
  handed (forget key) e = []

  -- The closures that calls of a queue returned.
  unfoldable pub given_by : ℕ → List (ℕ × List C) → List C
  given_by k [] = []
  given_by k ((j, cs) ∷ g) = if j == k then cs ++ given_by k g else given_by k g

  -- `order_++` of `RegisterTask`.
  abbrev pub count : QueueCall C → TaskQueues C → TaskQueues C
  count (register c target now) q = record q { order = (q.order + 1) % 2 ^ 32 }
  count (flush now) q = q
  count clear q = q
  count (observe key c) q = q
  count (forget key) q = q

  -- The call of a thread that is in none, for a queue that is there and whose mutex is free.
  unfoldable pub enter :
      ℕ
      → ℕ
      → QueueCall C
      → Place C
      → Option (Unit {0})
      → Option (TaskQueueEntry C)
      → Option ℕ
      → System C
      → Option (System C)
  enter i id call idle (some l) (some e) none s = some (record s {
    owners = insert (key_of id) i s.owners;
    places = insert i (entered id call) s.places;
  })
  enter i id call p l e o s = none

  -- The read of an entry.
  unfoldable pub load :
      ℕ → ℕ → QueueCall C → ℕ → Option (TaskQueueEntry C) → System C → Option (System C)
  load i id call n (some e) s = some (record s { places = insert i (loaded id call n e) s.places })
  load i id call n none s = none

  unfoldable pub move_on : ℕ → Place C → System C → Option (System C)
  unfolding effect handed load
  move_on i idle s = none
  move_on i (entered id call) s = some (record s {
    queues = count call s.queues;
    places = insert i (counted id call s.queues.order) s.places;
    log = s.log ++ (id, call) ∷ [];
  })
  move_on i (counted id call n) s = load i id call n (lookup (key_of id) s.queues.queue_entries) s
  move_on i (loaded id call n e) s = some (record s {
    queues = put_entry s.queues id (effect call n e);
    places = insert i (leaving id) s.places;
    given = s.given ++ (key_of id, handed call e) ∷ [];
  })
  move_on i (leaving id) s =
      some (record s { owners = erase (key_of id) s.owners; places = insert i idle s.places })

  -- A turn that cannot be taken, since the thread waits for a mutex or is elsewhere, is `none`.
  unfoldable pub turn : LockTurn C → System C → Option (System C)
  unfolding enter move_on
  turn (calls i id call) s =
      enter i id call (place_of i s) (lookup (key_of id) s.queues.queue_locks)
        (lookup (key_of id) s.queues.queue_entries) (lookup (key_of id) s.owners) s
  turn (moves i) s = move_on i (place_of i s) s

  -- The closures that an operation returns.
  unfoldable pub returned : TaskQueues C → Op C → Outcome (List C)
  returned q (flushes id type now) = do f ← get_tasks_to_run_now q id type now; ok f.invocations
  returned q o = ok []

  -- The same calls, one after the other, with what they returned so far.
  unfoldable pub replay :
      TaskQueues C
      → List (ℕ × List C)
      → List (ℕ × QueueCall C)
      → Outcome (TaskQueues C × List (ℕ × List C))
  replay q g [] = ok (q, g)
  replay q g ((id, call) ∷ ls) = do
    cs ← returned q (op_of (id, call))
    q' ← step q (op_of (id, call))
    replay q' (g ++ (key_of id, cs) ∷ []) ls

  -- What the threads can reach.
  pub data Reached (q : TaskQueues C) : System C → Type 0 where
    begins : Reached q (all_idle q)
    then_turn :
        {s s' : System C} → Reached q s → (t : LockTurn C) → turn t s ≡ some s' → Reached q s'
