-- ===== src/TaskQueues/Invariant.antt =====
-- What holds of a `MessageLoopTaskQueues` (message_loop_task_queues.cpp) after any history.
pub mod Histories
use ffnetwork.Common.{
  ℕ, zero, suc, ◌+◌, ◌%◌, ◌^◌, ◌≤◌, ◌<◌, ◌≡◌, refl, sym, List, [], ◌∷◌, Option, none, some, Outcome,
  ok, err, arith, out_of_range, null_deref, All, All-map, All-append_right, ◌++◌, Outcome-cases,
  Option-cases, inl, inr, length, if◌then◌else◌, Bool-cases, ◌==◌, ==_iff, true, false,
}
use ffnetwork.Common.Maps.{
  number_key, lookup, insert, lookup-insert, lookup-insert_self, AllOf, AllOf-insert, AllOf-erase,
}
use native.Mathlib.Nat.{add-zero}
use ffnetwork.Common.Int.{ℤ}
use ffnetwork.Time.{TimePoint, point_diff}
use ffnetwork.DelayedTask.{DelayedTask, push}
use ffnetwork.DelayedTask.Sorted.{All-push, IsSorted-append_right, IsSorted, push-IsSorted}
use ffnetwork.TaskQueues.Access.{
  get_mutex-cases, entry-cases, entry_at-eq-ok, entry_ref-eq-ok, has_pending-eq-err,
}
use ffnetwork.TaskQueues.Flush.{with_tasks, wake_time}
use ffnetwork.TaskQueues.Flush.Due.{
  get_tasks_to_run_now-unknown, get_tasks_to_run_now-disposed, get_tasks_to_run_now-Flushes,
  get_tasks_to_run_now-FlushesFirst,
}
use ffnetwork.TaskQueues.Register.{
  counted, register_task-eq, register_task-unknown, register_task-disposed, register_task-overflow,
  size_of_int_mono, registered,
}
use ffnetwork.TaskQueues.Lifecycle.{
  Op, creates, disposes, clears, registers, flushes, observes, forgets, wakes, step, run,
}
use ffnetwork.TaskQueues.{
  TaskQueues, TaskQueueEntry, FlushType, single, all, key_of, size_of_int, initial, empty_entry,
  put_entry, create_task_queue, dispose, dispose_tasks, register_task, get_tasks_to_run_now,
  add_task_observer, remove_task_observer, set_wakeable,
}

module _ {C : Type 0} where
  -- A queue that is there has its mutex and an id that was given out; its tasks are sorted, and have
  -- the sequence numbers of earlier registrations.
  abbrev pub Good : TaskQueues C → ℕ → TaskQueueEntry C → Type 0
  Good q k e =
      (lookup k q.queue_locks ≡ some tt)
      × (k < q.task_queue_id_counter)
      × IsSorted e.delayed_tasks
      × All (λ t. t.order < size_of_int q.order) e.delayed_tasks

  -- After at most `n` operations.
  pub record Inv (n : ℕ) (q : TaskQueues C) : Type 0 where
    pub entries : AllOf (Good q) q.queue_entries
    pub few_queues : q.task_queue_id_counter ≤ n
    pub few_tasks : q.order ≤ n

  -- The invariant of a result; a failure ends the history.
  abbrev pub Keeps : ℕ → Outcome (TaskQueues C) → Type 0
  Keeps n (ok q) = Inv n q
  Keeps n (err f) = Unit {0}

  weaken : {n : ℕ} {q : TaskQueues C} → Inv n q → Inv (suc n) q
  weaken v = record {
    entries = v.entries;
    few_queues = omega (arith, v.few_queues);
    few_tasks = omega (arith, v.few_tasks);
  }

  pub weaken_result : (n : ℕ) (r : Outcome (TaskQueues C)) → Keeps n r → Keeps (suc n) r
  weaken_result n (ok q) v = weaken v
  weaken_result n (err f) v = tt

  pub put_entry-Inv :
      {n : ℕ} {q : TaskQueues C} (id : ℕ) (e e' : TaskQueueEntry C)
      → Inv n q
      → lookup (key_of id) q.queue_entries ≡ some e
      → IsSorted e'.delayed_tasks
      → All (λ t. t.order < size_of_int q.order) e'.delayed_tasks
      → Inv n (put_entry q id e')
  unfolding put_entry
  put_entry-Inv {q} id e e' v there s f =
      let g = v.entries (key_of id) e there in
      record {
        entries = AllOf-insert (Good q) (key_of id) e' q.queue_entries (g.0, g.1, s, f) v.entries;
        few_queues = v.few_queues;
        few_tasks = v.few_tasks;
      }

  pub create_task_queue-Inv :
      {n : ℕ} {q : TaskQueues C} → Inv n q → suc n < 2 ^ 32 → Inv (suc n) (create_task_queue q).0
  unfolding create_task_queue
  create_task_queue-Inv {n} {q} v room = record {
    entries =
        AllOf-insert (Good (create_task_queue q).0) _ _ q.queue_entries
          (lookup-insert_self _ tt q.queue_locks, omega (arith, v.few_queues), tt, tt)
          λ k e h.
            let g = v.entries k e h in
            (
              ground
                  (arith, g.0, lookup-insert (key_of q.task_queue_id_counter) k tt q.queue_locks),
              omega (arith, g.1, v.few_queues),
              g.2,
              g.3,
            );
    few_queues = omega (arith, v.few_queues);
    few_tasks = omega (arith, v.few_tasks);
  }

  pub dispose-Keeps : {n : ℕ} {q : TaskQueues C} (id : ℕ) → Inv n q → Keeps n (dispose q id)
  unfolding dispose
  dispose-Keeps {q} id v = elim (get_mutex-cases q id) [
    | inr h ↦ rw h tt
    | inl h ↦ rw h (record {
      entries = AllOf-erase (Good q) (key_of id) q.queue_entries v.entries;
      few_queues = v.few_queues;
      few_tasks = v.few_tasks;
    })
  ]

  pub dispose_tasks-Keeps :
      {n : ℕ} {q : TaskQueues C} (id : ℕ) → Inv n q → Keeps n (dispose_tasks q id)
  unfolding dispose_tasks
  dispose_tasks-Keeps {q} id v = elim (get_mutex-cases q id) [
    | inr h ↦ rw h tt
    | inl h ↦ elim (entry-cases q id) [
      | inr m ↦ rw (h, m.0) tt
      | inl (e, there) ↦ rw (h, entry_at-eq-ok q id e there) (put_entry-Inv id e _ v there tt tt)
    ]
  ]

  pub add_task_observer-Keeps :
      {n : ℕ} {q : TaskQueues C} (id : ℕ) (key : ℤ) (callback : Option C)
      → Inv n q
      → Keeps n (add_task_observer q id key callback)
  unfolding add_task_observer
  add_task_observer-Keeps {q} id key none v = elim (get_mutex-cases q id) [
    | inr h ↦ rw h tt
    | inl h ↦ rw h tt
  ]
  add_task_observer-Keeps {q} id key (some c) v = elim (get_mutex-cases q id) [
    | inr h ↦ rw h tt
    | inl h ↦ elim (entry-cases q id) [
      | inr m ↦ rw (h, m.1) tt
      | inl (e, there) ↦
          let g = v.entries (key_of id) e there in
          rw (h, entry_ref-eq-ok q id e there) (put_entry-Inv id e _ v there g.2 g.3)
    ]
  ]

  pub remove_task_observer-Keeps :
      {n : ℕ} {q : TaskQueues C} (id : ℕ) (key : ℤ)
      → Inv n q
      → Keeps n (remove_task_observer q id key)
  unfolding remove_task_observer
  remove_task_observer-Keeps {q} id key v = elim (get_mutex-cases q id) [
    | inr h ↦ rw h tt
    | inl h ↦ elim (entry-cases q id) [
      | inr m ↦ rw (h, m.1) tt
      | inl (e, there) ↦
          let g = v.entries (key_of id) e there in
          rw (h, entry_ref-eq-ok q id e there) (put_entry-Inv id e _ v there g.2 g.3)
    ]
  ]

  pub set_wakeable-Keeps :
      {n : ℕ} {q : TaskQueues C} (id : ℕ) (wakeable : Option ℕ)
      → Inv n q
      → Keeps n (set_wakeable q id wakeable)
  unfolding set_wakeable
  set_wakeable-Keeps {q} id wakeable v = elim (get_mutex-cases q id) [
    | inr h ↦ rw h tt
    | inl h ↦ elim (entry-cases q id) [
      | inr m ↦ rw (h, m.1) tt
      | inl (e, there) ↦
          let g = v.entries (key_of id) e there in
          elim (Option-cases e.wakeable) [
            | inl free ↦
                rw (h, entry_ref-eq-ok q id e there, free, entry_at-eq-ok q id e there)
                  (put_entry-Inv id e _ v there g.2 g.3)
            | inr (w, set) ↦ rw (h, entry_ref-eq-ok q id e there, set) tt
          ]
    ]
  ]
