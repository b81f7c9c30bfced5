-- ===== src/TaskQueues/Register.antt =====
-- `RegisterTask` of message_loop_task_queues.cpp.
use ffnetwork.Common.{ℕ, ◌+◌, ◌%◌, ◌^◌, ◌<◌, ◌≡◌, refl, List, ◌∷◌, some, arith, ok, err, Fault, All}
use ffnetwork.Common.Maps.{number_key, lookup}
use ffnetwork.Time.{TimePoint, TimeDelta, point_diff}
use ffnetwork.DelayedTask.{DelayedTask, push}
use ffnetwork.DelayedTask.Sorted.{IsSorted, push-IsSorted}
use ffnetwork.TaskQueues.{
  TaskQueues, TaskQueueEntry, Wake, key_of, get_mutex, entry_ref, put_entry, register_task,
  size_of_int,
}
use ffnetwork.DelayedTask.Fifo.{push_cons, Placed, push-Placed}
use ffnetwork.TaskQueues.Access.{
  wake, lookup-put_entry, get_mutex-eq-ok, entry_ref-eq-ok, wake_up-eq-ok,
}
use ffnetwork.TaskQueues.Flush.{wake_time, with_tasks}

-- The sequence numbers of the first 2^32 registrations rise, as `size_t`.
pub size_of_int_mono : (a b : ℕ) → a < b → b < 2 ^ 32 → size_of_int a < size_of_int b
unfolding size_of_int
size_of_int_mono a b h k = ground arith

module _ {C : Type 0} where
  -- The task that a registration makes.
  abbrev pub registered : TaskQueues C → C → TimePoint → DelayedTask C
  registered q task target_time = record {
    order = size_of_int q.order;
    task = task;
    target_time = target_time;
  }

  abbrev pub counted : TaskQueues C → TaskQueues C
  counted q = record q { order = (q.order + 1) % 2 ^ 32 }

  pub register_task-unknown :
      (q : TaskQueues C) (id : ℕ) (task : C) (target now : TimePoint) (f : Fault)
      → get_mutex q id ≡ err f
      → register_task q id task target now ≡ err f
  unfolding register_task
  register_task-unknown q id task target now f h = rw h

  pub register_task-disposed :
      (q : TaskQueues C) (id : ℕ) (task : C) (target now : TimePoint) (f : Fault)
      → get_mutex q id ≡ ok tt
      → entry_ref (counted q) id ≡ err f
      → register_task q id task target now ≡ err f
  unfolding register_task
  register_task-disposed q id task target now f h m = rw (h, m)

  -- The overflow of the delay that is logged.
  pub register_task-overflow :
      (q : TaskQueues C) (id : ℕ) (e : TaskQueueEntry C) (task : C) (target now : TimePoint)
      (f : Fault)
      → lookup (key_of id) q.queue_locks ≡ some tt
      → lookup (key_of id) q.queue_entries ≡ some e
      → point_diff (wake_time (push (registered q task target) e.delayed_tasks)) now ≡ err f
      → register_task q id task target now ≡ err f
  unfolding register_task
  register_task-overflow q id e task target now f lock there delay =
      let (x, r, h) = push_cons (registered q task target) e.delayed_tasks in
      rw (get_mutex-eq-ok q id lock, entry_ref-eq-ok (counted q) id e there, h, (rw h at delay))

  module _ (q : TaskQueues C) (id : ℕ) (e : TaskQueueEntry C) (task : C) (target now : TimePoint)
      {d : TimeDelta} (lock : lookup (key_of id) q.queue_locks ≡ some tt)
      (there : lookup (key_of id) q.queue_entries ≡ some e)
      (delay : point_diff (wake_time (push (registered q task target) e.delayed_tasks)) now
        ≡ ok d) where
    -- `RegisterTask` on a queue that is there returns, unless the delay that it logs overflows. It
    -- counts the task, adds it to its queue, and wakes the queue's wakeable, if it has one, for the
    -- first task.
    pub register_task-eq :
        register_task q id task target now
        ≡ ok (
          put_entry (counted q) id (with_tasks e (push (registered q task target) e.delayed_tasks)),
          wake e.wakeable (wake_time (push (registered q task target) e.delayed_tasks)),
        )
    unfolding register_task
    register_task-eq =
        let (x, r, h) = push_cons (registered q task target) e.delayed_tasks in
        rw (
          get_mutex-eq-ok q id lock,
          entry_ref-eq-ok (counted q) id e there,
          h,
          (rw h at delay),
          wake_up-eq-ok (put_entry (counted q) id (with_tasks e (x ∷ r))) id (with_tasks e (x ∷ r))
              (lookup-put_entry (counted q) id (with_tasks e (x ∷ r))) x.target_time,
        )

    -- The task goes behind all tasks of its queue that are due no later, and before those that are
    -- due later: tasks for the same time stay in the order of their registration.
    pub register_task-Placed :
        IsSorted e.delayed_tasks
        → All (λ y. y.order < size_of_int q.order) e.delayed_tasks
        → (q' : TaskQueues C) × (ws : List Wake) × (ts : List (DelayedTask C)) × (register_task q id
              task target now
            ≡ ok (q', ws))
          × (lookup (key_of id) q'.queue_entries ≡ some (with_tasks e ts))
          × IsSorted ts
          × Placed (registered q task target) e.delayed_tasks ts
          × (ws ≡ wake e.wakeable (wake_time ts))
    register_task-Placed s fresh = (
      _,
      _,
      push (registered q task target) e.delayed_tasks,
      register_task-eq,
      lookup-put_entry (counted q) id _,
      push-IsSorted (registered q task target) e.delayed_tasks s,
      push-Placed (registered q task target) e.delayed_tasks s fresh,
      refl,
    )
