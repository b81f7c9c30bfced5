-- ===== src/TaskQueues/Tests.antt =====
-- Tests of the model of message_loop_task_queues.cpp, and its theorems at concrete queues.
use ffnetwork.Common.{ℕ, ◌≡◌, refl, ◌⊎◌, List, [], ◌∷◌, ◌++◌, none, some, arith, ok}
use ffnetwork.Common.Int.{pos}
use ffnetwork.Common.Maps.{number_key, lookup, insert}
use ffnetwork.Time.{TimePoint, point_diff}
use ffnetwork.DelayedTask.{DelayedTask, greater_than, push}
use ffnetwork.DelayedTask.Sorted.{IsSorted}
use ffnetwork.DelayedTask.Fifo.{Placed}
use ffnetwork.TaskQueues.{
  TaskQueues, TaskQueueEntry, Flushed, all, initial, empty_entry, size_of_int, key_of,
  create_task_queue, register_task, get_tasks_to_run_now, get_mutex, entry_at, entry_ref, put_entry,
  wake_up_unlocked,
}
use ffnetwork.TaskQueues.Access.{wake}
use ffnetwork.TaskQueues.Flush.{with_tasks, wake_time}
use ffnetwork.TaskQueues.Flush.Due.{
  Flushes, get_tasks_to_run_now-Flushes, get_tasks_to_run_now_wakes,
}
use ffnetwork.TaskQueues.Register.{registered, register_task-Placed}
use ffnetwork.TaskQueues.Lifecycle.{Op, creates, registers, run, step}
use ffnetwork.TaskQueues.Invariant.{Inv}
use ffnetwork.TaskQueues.Invariant.Histories.{run-Inv}

abbrev at : ℕ → TimePoint
at n = record { ticks = pos n }

abbrev early : DelayedTask ℕ
early = record { order = 1; task = 11; target_time = at 5 }

abbrev late : DelayedTask ℕ
late = record { order = 0; task = 10; target_time = at 9 }

abbrev busy : TaskQueueEntry ℕ
busy = record {
  task_observers = (pos 3, 33) ∷ (pos 8, 88) ∷ [];
  delayed_tasks = early ∷ late ∷ [];
  wakeable = some 4;
}

-- Queue 0 with two tasks; the mutex of queue 1 is left from a queue that was disposed of.
abbrev queues : TaskQueues ℕ
queues = record {
  queue_entries = (0, busy) ∷ [];
  queue_locks = (0, tt) ∷ (1, tt) ∷ [];
  task_queue_id_counter = 2;
  order = 2;
}

lock_0 : lookup (key_of 0) queues.queue_locks ≡ some tt
unfolding lookup
lock_0 = refl

lock_1 : lookup (key_of 1) queues.queue_locks ≡ some tt
unfolding lookup
lock_1 = refl

busy_0 : lookup (key_of 0) queues.queue_entries ≡ some busy
unfolding lookup
busy_0 = refl

gone_1 : lookup (key_of 1) queues.queue_entries ≡ none
unfolding lookup
gone_1 = refl

busy-IsSorted : IsSorted busy.delayed_tasks
unfolding greater_than
busy-IsSorted = ((refl, tt), (tt, tt))

get_tasks_to_run_now-Flushes_example :
    Flushes queues 0 busy (at 6) (get_tasks_to_run_now queues 0 all (at 6))
get_tasks_to_run_now-Flushes_example =
    get_tasks_to_run_now-Flushes queues 0 busy (at 6) lock_0 busy_0 busy-IsSorted

get_tasks_to_run_now_wakes_example :
    (f : Flushed ℕ) × (get_tasks_to_run_now queues 0 all (at 6) ≡ ok f)
    × ((f.invocations ≡ [])
        ⊎ ((ws : List (ℕ × TimePoint)) × (left : List (DelayedTask ℕ)) × (f.wakes
              ≡ ws ++ (4, wake_time left) ∷ [])
            × (lookup (key_of 0) f.queues.queue_entries ≡ some (with_tasks busy left))))
get_tasks_to_run_now_wakes_example =
    get_tasks_to_run_now_wakes queues 0 4 busy (at 6) lock_0 busy_0 refl

register_task-Placed_example :
    (q' : TaskQueues ℕ) × (ws : List (ℕ × TimePoint)) × (ts : List (DelayedTask ℕ)) × (register_task
        queues 0 12
        (at 5)
        (at 1)
      ≡ ok (q', ws))
    × (lookup (key_of 0) q'.queue_entries ≡ some (with_tasks busy ts))
    × IsSorted ts
    × Placed (registered queues 12 (at 5)) busy.delayed_tasks ts
    × (ws ≡ wake busy.wakeable (wake_time ts))
unfolding push point_diff size_of_int
register_task-Placed_example =
    register_task-Placed queues 0 busy 12 (at 5) (at 1) {d = record { delta = pos 4 }} lock_0 busy_0
      refl busy-IsSorted (omega arith, (omega arith, tt))

abbrev history : List (Op ℕ)
history = creates ∷ registers 0 10 (at 9) (at 1) ∷ registers 0 11 (at 5) (at 1) ∷ []

abbrev after_history : TaskQueues ℕ
after_history = record {
  queue_entries = (0, record empty_entry { delayed_tasks = early ∷ late ∷ [] }) ∷ [];
  queue_locks = (0, tt) ∷ [];
  task_queue_id_counter = 1;
  order = 2;
}

history_runs : run initial history ≡ ok after_history
unfolding run step create_task_queue register_task get_mutex entry_ref entry_at put_entry
    wake_up_unlocked lookup insert push point_diff size_of_int
history_runs = refl

run-Inv_example : Inv 3 after_history
run-Inv_example = run-Inv history (omega arith) history_runs
