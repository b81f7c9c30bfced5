-- ===== src/MessageLoop.antt =====
-- source/base/messageloop/message_loop_impl.cpp, message_loop.cpp and task_runner.cpp: a loop that
-- runs the closures of its task queue. `id` is the loop's queue. What a closure does is not in the
-- repository: it is the argument `effect`, and it can fail, post tasks and terminate the loop.
-- `FF_DCHECK` checks.
pub mod Flushing
pub mod Posting
pub mod Ending
pub mod Lifetime
pub mod Threaded
pub mod Linux
mod Tests
use ffnetwork.Common.{
  ℕ, Bool, true, false, List, [], ◌∷◌, ◌++◌, Option, none, some, Outcome, ok, err, check_failed,
  ◌>>=◌, ◌>>◌, guard, ◌==◌, if◌then◌else◌,
}
use ffnetwork.Common.Int.{ℤ}
use ffnetwork.Time.{TimePoint, TimeDelta, point_add}
use ffnetwork.TaskQueues.{
  TaskQueues, FlushType, single, all, key_of, create_task_queue, set_wakeable, dispose,
  register_task, get_tasks_to_run_now, get_observers_to_notify, dispose_tasks, add_task_observer,
  remove_task_observer, Flushed, Wake,
}

-- The queues of all loops, the loop's `terminated_`, the callbacks that ran on it, and the wake-ups
-- that it caused.
pub record Loop (C : Type 0) : Type 0 where
  pub queues : TaskQueues C
  pub terminated : Bool
  pub log : List C
  pub wakes : List Wake

-- The queue of the current thread's loop: `tls_message_loop`, null before it is initialized.
abbrev pub Current : Type 0
Current = Option ℕ

abbrev pub is_initialized_for_current_thread : Current → Bool
is_initialized_for_current_thread none = false
is_initialized_for_current_thread (some c) = true

abbrev pub get_current_task_queue_id : Current → Outcome ℕ
get_current_task_queue_id none = err check_failed
get_current_task_queue_id (some c) = ok c

-- `RunTasksOnCurrentThread` of a task runner for the loop `id`; ids are compared as `int`.
unfoldable pub run_tasks_on_current_thread : ℕ → Current → Bool
run_tasks_on_current_thread id none = false
run_tasks_on_current_thread id (some c) = key_of c == key_of id

module _ {C : Type 0} where
  -- The constructor, with the wakeable that the loop is.
  unfoldable pub new_loop : TaskQueues C → Option ℕ → Outcome (Loop C × ℕ)
  new_loop q self = do
    let (q', id) = create_task_queue q
    q'' ← set_wakeable q' id self
    ok (record { queues = q''; terminated = false; log = []; wakes = [] }, id)

  unfoldable pub destroy_loop : ℕ → Loop C → Outcome (TaskQueues C)
  destroy_loop id w = dispose w.queues id

  -- A null task is `none`; `now` is the clock of `RegisterTask`.
  unfoldable pub post_task : ℕ → Option C → TimePoint → TimePoint → Loop C → Outcome (Loop C)
  post_task id none target_time now w = err check_failed
  post_task id (some task) target_time now w = if w.terminated then ok w else do
    (q, wakes) ← register_task w.queues id task target_time now
    ok (record w { queues = q; wakes = w.wakes ++ wakes })

  -- `PostTask` of a task runner.
  abbrev pub runner_post_task : ℕ → Option C → TimePoint → Loop C → Outcome (Loop C)
  runner_post_task id task now w = post_task id task now now w

  abbrev pub post_task_for_time : ℕ → Option C → TimePoint → TimePoint → Loop C → Outcome (Loop C)
  post_task_for_time id task target_time now w = post_task id task target_time now w

  -- `PostDelayTask`
  unfoldable pub post_delay_task : ℕ → Option C → TimeDelta → TimePoint → Loop C → Outcome (Loop C)
  unfolding post_task
  post_delay_task id task delay now w = do
    target_time ← point_add now delay
    post_task id task target_time now w

  -- `AddTaskObserver`, on a thread with the loop `current`.
  unfoldable pub add_observer : ℕ → Current → ℤ → Option C → Loop C → Outcome (Loop C)
  add_observer id current key callback w = do
    c ← elim callback [ none ↦ err check_failed | some c ↦ ok c ]
    here ← get_current_task_queue_id current
    guard (here == id) check_failed
    q ← add_task_observer w.queues id key (some c)
    ok (record w { queues = q })

  unfoldable pub remove_observer : ℕ → Current → ℤ → Loop C → Outcome (Loop C)
  remove_observer id current key w = do
    here ← get_current_task_queue_id current
    guard (here == id) check_failed
    q ← remove_task_observer w.queues id key
    ok (record w { queues = q })

  module _ (effect : C → Loop C → Outcome (Loop C)) where
    unfoldable pub invoke : C → Loop C → Outcome (Loop C)
    invoke c w = effect c (record w { log = w.log ++ c ∷ [] })

    unfoldable pub invoke_all : List C → Loop C → Outcome (Loop C)
    unfolding invoke
    invoke_all [] w = ok w
    invoke_all (c ∷ cs) w = do w' ← invoke c w; invoke_all cs w'

    -- The loop of `FlushTasks`: the observers are notified after each invocation.
    unfoldable pub run_invocations : ℕ → List C → Loop C → Outcome (Loop C)
    unfolding invoke_all invoke
    run_invocations id [] w = ok w
    run_invocations id (c ∷ cs) w = do
      w1 ← invoke c w
      observers ← get_observers_to_notify w1.queues id
      w2 ← invoke_all observers w1
      run_invocations id cs w2

    unfoldable pub flush_tasks : ℕ → FlushType → TimePoint → Loop C → Outcome (Loop C)
    unfolding run_invocations
    flush_tasks id type now w = do
      f ← get_tasks_to_run_now w.queues id type now
      run_invocations id f.invocations (record w { queues = f.queues; wakes = w.wakes ++ f.wakes })

    unfoldable pub run_expired_tasks_now : ℕ → TimePoint → Loop C → Outcome (Loop C)
    unfolding flush_tasks
    run_expired_tasks_now id now w = flush_tasks id all now w

    unfoldable pub run_single_expired_task_now : ℕ → TimePoint → Loop C → Outcome (Loop C)
    unfolding flush_tasks
    run_single_expired_task_now id now w = flush_tasks id single now w

    -- `Run` of the platform's loop is `run`; `now` is the clock when it has returned.
    unfoldable pub do_run : ℕ → (Loop C → Outcome (Loop C)) → TimePoint → Loop C → Outcome (Loop C)
    unfolding run_expired_tasks_now
    do_run id run now w = if w.terminated then ok w else do
      w1 ← run w
      w2 ← run_expired_tasks_now id now (record w1 { terminated = true })
      q ← dispose_tasks w2.queues id
      ok (record w2 { queues = q })

    unfoldable pub do_run_for_time :
        ℕ → (Loop C → Outcome (Loop C)) → TimePoint → Loop C → Outcome (Loop C)
    unfolding run_expired_tasks_now
    do_run_for_time id run_for_time now w = if w.terminated then ok w else do
      w1 ← run_for_time w
      w2 ← run_expired_tasks_now id now w1
      q ← dispose_tasks w2.queues id
      ok (record w2 { queues = q })

    -- `RunNowOrPostTask`, on a thread with the loop `current`.
    unfoldable pub run_now_or_post_task : ℕ → Current → C → TimePoint → Loop C → Outcome (Loop C)
    unfolding run_tasks_on_current_thread post_task invoke
    run_now_or_post_task id current task now w =
        if run_tasks_on_current_thread id current
        then invoke task w
        else runner_post_task id (some task) now w

  -- `terminate` is the platform's `Terminate`.
  unfoldable pub do_terminate : (Loop C → Outcome (Loop C)) → Loop C → Outcome (Loop C)
  do_terminate terminate w = terminate (record w { terminated = true })
