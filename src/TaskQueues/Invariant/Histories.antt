-- ===== src/TaskQueues/Invariant/Histories.antt =====
-- The invariant of `MessageLoopTaskQueues` (message_loop_task_queues.cpp) over whole histories.
use ffnetwork.Common.{
  ℕ, suc, ◌+◌, ◌%◌, ◌^◌, ◌<◌, ◌≡◌, sym, List, [], ◌∷◌, none, some, Outcome, ok, err, arith, ◌>>=◌,
  ◌≢◌, out_of_range, null_deref, All-map, All-append_right, ◌++◌, Outcome-cases, Option-cases, inl,
  inr, length,
}
use ffnetwork.Common.Maps.{number_key, lookup, lookup-insert, lookup-insert_self}
use ffnetwork.Time.{TimePoint, point_diff}
use ffnetwork.DelayedTask.{DelayedTask, push}
use ffnetwork.DelayedTask.Sorted.{All-push, IsSorted-append_right, push-IsSorted}
use ffnetwork.TaskQueues.Access.{get_mutex-cases, entry-cases}
use ffnetwork.TaskQueues.Flush.{with_tasks, wake_time}
use ffnetwork.TaskQueues.Flush.Due.{
  get_tasks_to_run_now-unknown, get_tasks_to_run_now-disposed, get_tasks_to_run_now-Flushes,
  get_tasks_to_run_now-FlushesFirst,
}
use ffnetwork.TaskQueues.Register.{
  counted, register_task-eq, register_task-unknown, register_task-disposed, register_task-overflow,
  size_of_int_mono, registered,
}
use ffnetwork.TaskQueues.Lifecycle.{
  Op, creates, disposes, clears, registers, flushes, observes, forgets, wakes, step, run,
}
use ffnetwork.TaskQueues.Invariant.{
  Inv, Keeps, weaken_result, put_entry-Inv, create_task_queue-Inv, dispose-Keeps,
  dispose_tasks-Keeps, add_task_observer-Keeps, remove_task_observer-Keeps, set_wakeable-Keeps,
}
use ffnetwork.TaskQueues.{
  TaskQueues, TaskQueueEntry, FlushType, single, all, key_of, size_of_int, initial, empty_entry,
  put_entry, create_task_queue,
}

module _ {C : Type 0} where
  -- What is left of a queue keeps its order.
  left-Inv :
      {n : ℕ} {q : TaskQueues C} (id : ℕ) (e : TaskQueueEntry C) (taken left : List (DelayedTask C))
      → Inv n q
      → lookup (key_of id) q.queue_entries ≡ some e
      → taken ++ left ≡ e.delayed_tasks
      → Inv n (put_entry q id (with_tasks e left))
  left-Inv {q} id e taken left v there split =
      let g = v.entries (key_of id) e there in
      put_entry-Inv id e _ v there (IsSorted-append_right taken left (rw split g.2))
        (All-append_right (λ t. t.order < size_of_int q.order) taken left (rw split g.3))

  get_tasks_to_run_now-Keeps :
      {n : ℕ} {q : TaskQueues C} (id : ℕ) (type : FlushType) (now : TimePoint)
      → Inv n q
      → Keeps n (step q (flushes id type now))
  unfolding step
  get_tasks_to_run_now-Keeps {n} {q} id type now v = elim (entry-cases q id) [
    | inr m ↦ elim (get_mutex-cases q id) [
      | inr h ↦ rw (get_tasks_to_run_now-unknown q id type now out_of_range h) tt
      | inl h ↦ rw (get_tasks_to_run_now-disposed q id type now h m.0) tt
    ]
    | inl (e, there) ↦ live type e there
  ]
    where
      live :
          (type : FlushType) (e : TaskQueueEntry C)
          → lookup (key_of id) q.queue_entries ≡ some e
          → Keeps n (step q (flushes id type now))
      live all e there =
          let g = v.entries (key_of id) e there in
          let (taken, left, split, _, _, r) =
            get_tasks_to_run_now-Flushes q id e now g.0 there g.2 in
          rw r (left-Inv id e taken left v there split)
      live single e there =
          let g = v.entries (key_of id) e there in
          elim (get_tasks_to_run_now-FlushesFirst q id e now g.0 there g.2) [
            | inl (x, left, split, _, r) ↦ rw r (left-Inv id e (x ∷ []) left v there (sym split))
            | inr (_, r) ↦ rw r v
          ]

  -- The sequence number of a registration is below the next one.
  next_order :
      {n : ℕ} {q : TaskQueues C}
      → Inv n q
      → suc n < 2 ^ 32
      → size_of_int q.order < size_of_int (counted q).order
  next_order {q} v room =
      size_of_int_mono q.order ((q.order + 1) % 2 ^ 32) (omega (arith, v.few_tasks)) (omega arith)

  counted-Inv : {n : ℕ} {q : TaskQueues C} → Inv n q → suc n < 2 ^ 32 → Inv (suc n) (counted q)
  counted-Inv {n} {q} v room =
      let more = next_order v room in
      record {
        entries = λ k e h.
            let g = v.entries k e h in
            (
              g.0,
              g.1,
              g.2,
              All-map (λ t. t.order < size_of_int q.order) _ e.delayed_tasks (λ t p. omega arith)
                  g.3,
            );
        few_queues = omega (arith, v.few_queues);
        few_tasks = omega (arith, v.few_tasks);
      }

  register_task-Keeps :
      {n : ℕ} {q : TaskQueues C} (id : ℕ) (task : C) (target now : TimePoint)
      → Inv n q
      → suc n < 2 ^ 32
      → Keeps (suc n) (step q (registers id task target now))
  unfolding step
  register_task-Keeps {q} id task target now v room = elim (entry-cases (counted q) id) [
    | inr m ↦ elim (get_mutex-cases q id) [
      | inr h ↦ rw (register_task-unknown q id task target now out_of_range h) tt
      | inl h ↦ rw (register_task-disposed q id task target now null_deref h m.1) tt
    ]
    | inl (e, there) ↦
        let g = v.entries (key_of id) e there in
        let counts = counted-Inv v room in
        elim (Outcome-cases
          (point_diff (wake_time (push (registered q task target) e.delayed_tasks)) now)) [
            | inr (f, bad) ↦ rw (register_task-overflow q id e task target now f g.0 there bad) tt
            | inl (d, delay) ↦ rw (register_task-eq q id e task target now g.0 there delay) (
                put_entry-Inv id e _ counts there
                  (push-IsSorted (registered q task target) e.delayed_tasks g.2)
                  (All-push (λ t. t.order < size_of_int (counted q).order)
                    (registered q task target) e.delayed_tasks (next_order v room)
                    (counts.entries (key_of id) e there).3))
          ]
  ]

  -- One operation.
  step-Keeps :
      {n : ℕ} {q : TaskQueues C} (o : Op C) → Inv n q → suc n < 2 ^ 32 → Keeps (suc n) (step q o)
  unfolding step
  step-Keeps creates v room = create_task_queue-Inv v room
  step-Keeps (disposes id) v room = weaken_result _ _ (dispose-Keeps id v)
  step-Keeps (clears id) v room = weaken_result _ _ (dispose_tasks-Keeps id v)
  step-Keeps (registers id task target now) v room = register_task-Keeps id task target now v room
  step-Keeps (flushes id type now) v room =
      weaken_result _ _ (get_tasks_to_run_now-Keeps id type now v)
  step-Keeps (observes id key callback) v room =
      weaken_result _ _ (add_task_observer-Keeps id key callback v)
  step-Keeps (forgets id key) v room = weaken_result _ _ (remove_task_observer-Keeps id key v)
  step-Keeps (wakes id wakeable) v room = weaken_result _ _ (set_wakeable-Keeps id wakeable v)

  run-Keeps :
      (n k : ℕ) (q : TaskQueues C) (os : List (Op C))
      → Inv n q
      → n + length os ≡ k
      → k < 2 ^ 32
      → Keeps k (run q os)
  unfolding run
  run-Keeps n k q [] v e room = let same : n ≡ k = omega arith in rw (← same) v
  run-Keeps n k q (o ∷ os) v e room =
      after (step q o) (step-Keeps o v (omega arith))
        (λ q' v'. run-Keeps (suc n) k q' os v' (omega arith) room)
    where
      after :
          (r : Outcome (TaskQueues C))
          → Keeps (suc n) r
          → ((q' : TaskQueues C) → Inv (suc n) q' → Keeps k (run q' os))
          → Keeps k (r >>= λ q'. run q' os)
      after (ok q') v' next = next q' v'
      after (err f) v' next = tt

  initial-Inv : Inv 0 (initial {C = C})
  initial-Inv = record {
    entries = λ k e h. unfold lookup in cc;
    few_queues = omega arith;
    few_tasks = omega arith;
  }

  -- After fewer than 2^32 operations that all returned, every queue has its mutex and its own id,
  -- its tasks are sorted by time and registration, and the next sequence number is above theirs.
  pub run-Inv :
      (os : List (Op C)) {q : TaskQueues C}
      → length os < 2 ^ 32
      → run initial os ≡ ok q
      → Inv (length os) q
  run-Inv os room h = rw h at (run-Keeps 0 (length os) initial os initial-Inv (omega arith) room)

  -- In such a state a new queue gets an id that no queue has, and the other queues stay as they are.
  pub create_task_queue-fresh :
      {n : ℕ} {q : TaskQueues C}
      → Inv n q
      → n < 2 ^ 32
      → (lookup (key_of (create_task_queue q).1) q.queue_entries ≡ none)
        × (lookup (key_of (create_task_queue q).1) (create_task_queue q).0.queue_entries
            ≡ some empty_entry)
        × ((k : ℕ)
            → k ≢ key_of (create_task_queue q).1
            → lookup k (create_task_queue q).0.queue_entries ≡ lookup k q.queue_entries)
  unfolding create_task_queue
  create_task_queue-fresh {q} v room = (
    elim (Option-cases (lookup (key_of q.task_queue_id_counter) q.queue_entries)) [
      | inl h ↦ h
      | inr (e, h) ↦ absurd (omega (arith, (v.entries _ e h).1, v.few_queues))
    ],
    lookup-insert_self _ empty_entry q.queue_entries,
    λ k other. ground (
      arith,
      other,
      lookup-insert (key_of q.task_queue_id_counter) k empty_entry q.queue_entries,
    ),
  )
