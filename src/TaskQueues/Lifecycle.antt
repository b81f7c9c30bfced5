-- ===== src/TaskQueues/Lifecycle.antt =====
-- Histories of a `MessageLoopTaskQueues` (message_loop_task_queues.cpp): the operations that change
-- its state, one after the other, since each holds its mutex to the end.
use ffnetwork.Common.{ℕ, List, [], ◌∷◌, Option, Outcome, ok, ◌>>=◌}
use ffnetwork.Common.Int.{ℤ}
use ffnetwork.Time.{TimePoint}
use ffnetwork.TaskQueues.{
  TaskQueues, FlushType, create_task_queue, dispose, dispose_tasks, register_task,
  get_tasks_to_run_now, add_task_observer, remove_task_observer, set_wakeable,
}

-- A registration and a flush come with the time of the clock.
pub data Op (C : Type 0) : Type 0 where
  creates : Op C
  disposes clears : ℕ → Op C
  registers : ℕ → C → TimePoint → TimePoint → Op C
  flushes : ℕ → FlushType → TimePoint → Op C
  observes : ℕ → ℤ → Option C → Op C
  forgets : ℕ → ℤ → Op C
  wakes : ℕ → Option ℕ → Op C

module _ {C : Type 0} where
  unfoldable pub step : TaskQueues C → Op C → Outcome (TaskQueues C)
  step q creates = ok (create_task_queue q).0
  step q (disposes id) = dispose q id
  step q (clears id) = dispose_tasks q id
  step q (registers id task target now) = do (q', ws) ← register_task q id task target now; ok q'
  step q (flushes id type now) = do f ← get_tasks_to_run_now q id type now; ok f.queues
  step q (observes id key callback) = add_task_observer q id key callback
  step q (forgets id key) = remove_task_observer q id key
  step q (wakes id wakeable) = set_wakeable q id wakeable

  -- A failure ends a history.
  unfoldable pub run : TaskQueues C → List (Op C) → Outcome (TaskQueues C)
  run q [] = ok q
  run q (o ∷ os) = do q' ← step q o; run q' os
