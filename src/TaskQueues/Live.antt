-- ===== src/TaskQueues/Live.antt =====
-- The operations of message_loop_task_queues.cpp on a queue that is there, and on one that is
-- disposed of.
use ffnetwork.Common.{
  ℕ, ◌≡◌, not, map, Option, none, some, ok, err, out_of_range, null_deref, arith, length, ==_iff,
  [],
}
use ffnetwork.Common.Int.{ℤ}
use ffnetwork.Common.Maps.{number_key, lookup, erase, lookup-erase}
use ffnetwork.Time.{TimePoint}
use ffnetwork.DelayedTask.{is_empty}
use ffnetwork.TaskQueues.Access.{
  get_mutex-eq-ok, entry_at-eq-ok, has_pending-eq, has_pending-eq-err, lookup-put_entry,
}
use ffnetwork.TaskQueues.Register.{register_task-disposed, counted}
use ffnetwork.TaskQueues.Flush.{with_tasks}
use ffnetwork.TaskQueues.Flush.Due.{get_tasks_to_run_now-disposed}
use ffnetwork.TaskQueues.{
  TaskQueues, TaskQueueEntry, FlushType, key_of, entry_at, entry_ref, put_entry, dispose,
  dispose_tasks, has_pending_task, get_num_pending_tasks, get_observers_to_notify, register_task,
  get_tasks_to_run_now, add_task_observer, remove_task_observer, set_wakeable,
}

module _ {C : Type 0} (q : TaskQueues C) (id : ℕ)
    (lock : lookup (key_of id) q.queue_locks ≡ some tt) where
  pub dispose_tasks-eq :
      (e : TaskQueueEntry C)
      → lookup (key_of id) q.queue_entries ≡ some e
      → dispose_tasks q id ≡ ok (put_entry q id (with_tasks e []))
  unfolding dispose_tasks
  dispose_tasks-eq e there = rw (get_mutex-eq-ok q id lock, entry_at-eq-ok q id e there)

  -- On a queue that is there the queries return what it holds, `DisposeTasks` drops its tasks and
  -- nothing else of it, and `Dispose` removes it.
  pub live_queue :
      (e : TaskQueueEntry C)
      → lookup (key_of id) q.queue_entries ≡ some e
      → (has_pending_task q id ≡ ok (not (is_empty e.delayed_tasks)))
        × (get_num_pending_tasks q id ≡ ok (length e.delayed_tasks))
        × (get_observers_to_notify q id ≡ ok (map (λ o. o.1) e.task_observers))
        × ((q' : TaskQueues C) × (dispose_tasks q id ≡ ok q')
            × (lookup (key_of id) q'.queue_entries ≡ some (with_tasks e [])))
        × ((q' : TaskQueues C) × (dispose q id ≡ ok q')
            × (lookup (key_of id) q'.queue_entries ≡ none))
  unfolding has_pending_task get_num_pending_tasks get_observers_to_notify dispose_tasks dispose
  live_queue e there =
      let locked = get_mutex-eq-ok q id lock in
      let found = entry_at-eq-ok q id e there in
      (
        rw (locked, has_pending-eq q id e there),
        rw (locked, found),
        rw (locked, found),
        (
          put_entry q id (with_tasks e []),
          rw (locked, found),
          lookup-put_entry q id (with_tasks e []),
        ),
        (
          record q { queue_entries = erase (key_of id) q.queue_entries },
          rw locked,
          ground (
            arith,
            lookup-erase (key_of id) (key_of id) q.queue_entries,
            ==_iff (key_of id) (key_of id),
          ),
        ),
      )

  -- After `Dispose` the mutex is still there, but every use of the queue fails: the ones that look it
  -- up by `at` throw, and the ones that use `operator[]` follow a null pointer.
  pub disposed_queue :
      (type : FlushType) (task : C) (target now : TimePoint) (key : ℤ) (wakeable : Option ℕ)
      → lookup (key_of id) q.queue_entries ≡ none
      → (has_pending_task q id ≡ err out_of_range)
        × (get_num_pending_tasks q id ≡ err out_of_range)
        × (get_observers_to_notify q id ≡ err out_of_range)
        × (dispose_tasks q id ≡ err out_of_range)
        × (get_tasks_to_run_now q id type now ≡ err out_of_range)
        × (register_task q id task target now ≡ err null_deref)
        × (add_task_observer q id key (some task) ≡ err null_deref)
        × (remove_task_observer q id key ≡ err null_deref)
        × (set_wakeable q id wakeable ≡ err null_deref)
  unfolding has_pending_task get_num_pending_tasks get_observers_to_notify dispose_tasks
      add_task_observer remove_task_observer set_wakeable entry_at entry_ref
  disposed_queue type task target now key wakeable gone =
      let locked = get_mutex-eq-ok q id lock in
      let missing : entry_at q id ≡ err out_of_range = rw (gone, entry_at) in
      let null : entry_ref q id ≡ err null_deref = rw (gone, entry_ref) in
      let null' : entry_ref (counted q) id ≡ err null_deref = rw (gone, entry_ref) in
      (
        rw (locked, has_pending-eq-err q id missing),
        rw (locked, missing),
        rw (locked, missing),
        rw (locked, missing),
        get_tasks_to_run_now-disposed q id type now locked missing,
        register_task-disposed q id task target now null_deref locked null',
        rw (locked, null),
        rw (locked, null),
        rw (locked, null),
      )
