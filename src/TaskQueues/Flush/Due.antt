-- ===== src/TaskQueues/Flush/Due.antt =====
-- Which tasks `GetTasksToRunNow` of message_loop_task_queues.cpp takes, and when it wakes the loop.
use ffnetwork.Common.{
  ℕ, suc, ◌≡◌, refl, ◌∙◌, true, false, List, [], ◌∷◌, ◌++◌, map, some, arith, Bool-cases, inl, inr,
  ok, err, Fault, out_of_range, length, All, All-map, Outcome, ◌⊎◌,
}
use ffnetwork.Common.Maps.{number_key, lookup}
use ffnetwork.Time.{TimePoint, point_gt}
use ffnetwork.DelayedTask.{DelayedTask, greater_than}
use ffnetwork.DelayedTask.Sorted.{IsSorted, not_greater-time}
use ffnetwork.TaskQueues.{
  TaskQueues, TaskQueueEntry, FlushType, single, all, Flushed, Wake, key_of, flush_round,
  flush_loop, put_entry, get_tasks_to_run_now, get_mutex, entry_at,
}
use ffnetwork.TaskQueues.Access.{
  has_pending-eq-err, lookup-put_entry, get_mutex-eq-ok, has_pending-eq, rounds-eq-suc,
}
use ffnetwork.TaskQueues.Flush.{
  due, later, wake_time, due_wakes, with_tasks, flush_loop-eq, round_single, round_later,
  put_entry_same,
}

abbrev pub IsDue : {C : Type 0} → TimePoint → DelayedTask C → Type 0
IsDue now t = point_gt t.target_time now ≡ false

abbrev pub IsLater : {C : Type 0} → TimePoint → DelayedTask C → Type 0
IsLater now t = point_gt t.target_time now ≡ true

-- What `GetTasksToRunNow` returns for a queue of tasks: those that are due, in the queue's order.
abbrev pub Flushes :
    {C : Type 0} → TaskQueues C → ℕ → TaskQueueEntry C → TimePoint → Outcome (Flushed C) → Type 0
Flushes {C} q id e now r =
    (taken left : List (DelayedTask C)) × (taken ++ left ≡ e.delayed_tasks)
    × All (IsDue now) taken
    × All (IsLater now) left
    × (r
        ≡ ok (record {
          queues = put_entry q id (with_tasks e left);
          invocations = map (λ t. t.task) taken;
          wakes = due_wakes e.wakeable now e.delayed_tasks;
        }))

module _ {C : Type 0} where
  pub due-append-later :
      (now : TimePoint) (ts : List (DelayedTask C)) → due now ts ++ later now ts ≡ ts
  unfolding due later
  due-append-later now [] = refl
  due-append-later now (x ∷ q) = ground (arith, due-append-later now q)

  due-IsDue : (now : TimePoint) (ts : List (DelayedTask C)) → All (IsDue now) (due now ts)
  unfolding due
  due-IsDue now [] = tt
  due-IsDue now (x ∷ q) = elim (Bool-cases (point_gt x.target_time now)) [
    | inl g ↦ rw g tt
    | inr g ↦ rw g (g, due-IsDue now q)
  ]

  later-IsLater :
      (now : TimePoint) (ts : List (DelayedTask C)) → IsSorted ts → All (IsLater now) (later now ts)
  unfolding later
  later-IsLater now [] s = tt
  later-IsLater now (x ∷ q) s = elim (Bool-cases (point_gt x.target_time now)) [
    | inl g ↦ rw g (
      g,
      All-map (λ y. greater_than x y ≡ false) (IsLater now) q (λ y h. not_greater-time x y now h g)
          s.0,
    )
    | inr g ↦ rw g (later-IsLater now q s.1)
  ]

  enters_loop :
      (q : TaskQueues C) (id : ℕ) (e : TaskQueueEntry C) (type : FlushType) (now : TimePoint)
      (x : DelayedTask C) (r : List (DelayedTask C))
      → lookup (key_of id) q.queue_locks ≡ some tt
      → lookup (key_of id) q.queue_entries ≡ some e
      → e.delayed_tasks ≡ x ∷ r
      → get_tasks_to_run_now q id type now ≡ flush_loop (suc (length (x ∷ r))) q id type now [] []
  unfolding get_tasks_to_run_now
  enters_loop q id e type now x r lock there tasks =
      rw (get_mutex-eq-ok q id lock, has_pending-eq q id e there, rounds-eq-suc q id e there, tasks)

  stops :
      (n : ℕ) (q : TaskQueues C) (id : ℕ) (type : FlushType) (now : TimePoint) (f : Flushed C)
      → flush_round q id type now [] [] ≡ ok (f, false)
      → flush_loop (suc n) q id type now [] [] ≡ ok f
  unfolding flush_loop
  stops n q id type now f h = rw h

  pub get_tasks_to_run_now-eq :
      (q : TaskQueues C) (id : ℕ) (e : TaskQueueEntry C) (now : TimePoint)
      → lookup (key_of id) q.queue_locks ≡ some tt
      → lookup (key_of id) q.queue_entries ≡ some e
      → get_tasks_to_run_now q id all now
        ≡ ok (record {
          queues = put_entry q id (with_tasks e (later now e.delayed_tasks));
          invocations = map (λ t. t.task) (due now e.delayed_tasks);
          wakes = due_wakes e.wakeable now e.delayed_tasks;
        })
  get_tasks_to_run_now-eq q id e now lock there = go e.delayed_tasks refl
    where
      go :
          (ts : List (DelayedTask C))
          → e.delayed_tasks ≡ ts
          → get_tasks_to_run_now q id all now
            ≡ ok (record {
              queues = put_entry q id (with_tasks e (later now ts));
              invocations = map (λ t. t.task) (due now ts);
              wakes = due_wakes e.wakeable now ts;
            })
      go [] tasks =
          unfold get_tasks_to_run_now due later due_wakes in
          rw (
            get_mutex-eq-ok q id lock,
            has_pending-eq q id e there,
            tasks,
            put_entry_same q id e [] there tasks,
          )
      go (x ∷ r) tasks =
          enters_loop q id e all now x r lock there tasks
          ∙ flush_loop-eq (suc (length (x ∷ r))) (x ∷ r) q id e now [] [] (omega arith) there tasks

  pub get_tasks_to_run_now-unknown :
      (q : TaskQueues C) (id : ℕ) (type : FlushType) (now : TimePoint) (f : Fault)
      → get_mutex q id ≡ err f
      → get_tasks_to_run_now q id type now ≡ err f
  unfolding get_tasks_to_run_now
  get_tasks_to_run_now-unknown q id type now f h = rw h

  pub get_tasks_to_run_now-disposed :
      (q : TaskQueues C) (id : ℕ) (type : FlushType) (now : TimePoint)
      → get_mutex q id ≡ ok tt
      → entry_at q id ≡ err out_of_range
      → get_tasks_to_run_now q id type now ≡ err out_of_range
  unfolding get_tasks_to_run_now
  get_tasks_to_run_now-disposed q id type now h m = rw (h, has_pending-eq-err q id m)

  -- `GetTasksToRunNow` with `kAll` returns, for every queue that is there. It takes exactly the
  -- tasks whose target time has come, in the order of the queue, and keeps exactly the others.
  pub get_tasks_to_run_now-Flushes :
      (q : TaskQueues C) (id : ℕ) (e : TaskQueueEntry C) (now : TimePoint)
      → lookup (key_of id) q.queue_locks ≡ some tt
      → lookup (key_of id) q.queue_entries ≡ some e
      → IsSorted e.delayed_tasks
      → Flushes q id e now (get_tasks_to_run_now q id all now)
  get_tasks_to_run_now-Flushes q id e now lock there s = (
    due now e.delayed_tasks,
    later now e.delayed_tasks,
    due-append-later now e.delayed_tasks,
    due-IsDue now e.delayed_tasks,
    later-IsLater now e.delayed_tasks s,
    get_tasks_to_run_now-eq q id e now lock there,
  )

  nothing_due :
      (w : ℕ) (now : TimePoint) (ts : List (DelayedTask C))
      → due now ts ≡ []
      → (due_wakes (some w) now ts ≡ []) × (later now ts ≡ ts)
  unfolding due later due_wakes
  nothing_due w now [] h = (refl, refl)
  nothing_due w now (x ∷ q) h = ground arith

  last_wake :
      (w : ℕ) (now : TimePoint) (ts : List (DelayedTask C))
      → (due now ts ≡ [])
        ⊎ ((ws : List Wake) × (due_wakes (some w) now ts
              ≡ ws ++ (w, wake_time (later now ts)) ∷ []))
  unfolding due later due_wakes
  last_wake w now [] = inl refl
  last_wake w now (x ∷ q) = elim (Bool-cases (point_gt x.target_time now)) [
    | inl g ↦ inl (rw g)
    | inr g ↦ inr (elim (last_wake w now q) [
      | inl h ↦ ([], rw (g, (nothing_due w now q h).0, (nothing_due w now q h).1))
      | inr (ws, h) ↦ ((w, wake_time q) ∷ ws, rw (g, h))
    ])
  ]

  -- A flush with `kAll` that runs a task ends with a wake-up of the queue's wakeable, for the target
  -- time of the first task that it leaves in the queue, or for the end of time if it leaves none.
  pub get_tasks_to_run_now_wakes :
      (q : TaskQueues C) (id w : ℕ) (e : TaskQueueEntry C) (now : TimePoint)
      → lookup (key_of id) q.queue_locks ≡ some tt
      → lookup (key_of id) q.queue_entries ≡ some e
      → e.wakeable ≡ some w
      → (f : Flushed C) × (get_tasks_to_run_now q id all now ≡ ok f)
        × ((f.invocations ≡ [])
            ⊎ ((ws : List Wake) × (left : List (DelayedTask C)) × (f.wakes
                  ≡ ws ++ (w, wake_time left) ∷ [])
                × (lookup (key_of id) f.queues.queue_entries ≡ some (with_tasks e left))))
  get_tasks_to_run_now_wakes q id w e now lock there wakes = (
    _,
    get_tasks_to_run_now-eq q id e now lock there,
    elim (last_wake w now e.delayed_tasks) [
      | inl h ↦ inl (rw h)
      | inr (ws, h) ↦ inr (ws, later now e.delayed_tasks, rw (wakes, h), lookup-put_entry q id _)
    ],
  )

  -- The first task, if it is due; or else nothing, and then no task is due.
  abbrev pub FlushesFirst :
      TaskQueues C → ℕ → TaskQueueEntry C → TimePoint → Outcome (Flushed C) → Type 0
  FlushesFirst q id e now r =
      ((x : DelayedTask C) × (left : List (DelayedTask C)) × (e.delayed_tasks ≡ x ∷ left)
        × IsDue now x
        × (r
            ≡ ok (record {
              queues = put_entry q id (with_tasks e left);
              invocations = x.task ∷ [];
              wakes = [];
            })))
      ⊎ (All (IsLater now) e.delayed_tasks
          × (r ≡ ok (record { queues = q; invocations = []; wakes = [] })))

  -- `GetTasksToRunNow` with `kSingle` takes the first task of a queue if it is due. If not, no task
  -- of the queue is due, and nothing changes. It wakes nobody.
  pub get_tasks_to_run_now-FlushesFirst :
      (q : TaskQueues C) (id : ℕ) (e : TaskQueueEntry C) (now : TimePoint)
      → lookup (key_of id) q.queue_locks ≡ some tt
      → lookup (key_of id) q.queue_entries ≡ some e
      → IsSorted e.delayed_tasks
      → FlushesFirst q id e now (get_tasks_to_run_now q id single now)
  get_tasks_to_run_now-FlushesFirst q id e now lock there s = go e.delayed_tasks refl
    where
      go :
          (ts : List (DelayedTask C))
          → e.delayed_tasks ≡ ts
          → FlushesFirst q id e now (get_tasks_to_run_now q id single now)
      go [] tasks = inr (
        rw tasks tt,
        unfold get_tasks_to_run_now in
            rw (get_mutex-eq-ok q id lock, has_pending-eq q id e there, tasks),
      )
      go (x ∷ r) tasks = elim (Bool-cases (point_gt x.target_time now)) [
        | inl g ↦ inr (
          rw tasks (
            g,
            All-map (λ y. greater_than x y ≡ false) (IsLater now) r
                (λ y h. not_greater-time x y now h g) (rw tasks at s).0,
          ),
          enters_loop q id e single now x r lock there tasks
              ∙ stops _ q id single now _ (round_later q id e now [] [] there single x r tasks g),
        )
        | inr g ↦ inl (
          x,
          r,
          tasks,
          g,
          enters_loop q id e single now x r lock there tasks
              ∙ stops _ q id single now _ (round_single q id e now [] [] there x r tasks g),
        )
      ]
