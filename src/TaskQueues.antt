-- ===== src/TaskQueues.antt =====
-- source/base/messageloop/message_loop_task_queues.h and .cpp: `MessageLoopTaskQueues`.
-- An operation runs under its queue's mutex, so it is one step: a function from the state to an
-- `Outcome` of the new state. `C` is the type of the closures; a wakeable is a number that names it.
pub mod Access
pub mod Flush
pub mod Register
pub mod Lifecycle
pub mod Locking
pub mod Invariant
pub mod Live
mod Tests
pub mod Observers
use ffnetwork.Common.{
  ℕ, ◌+◌, ◌-◌, ◌%◌, ◌^◌, Bool, true, false, not, ltb, if◌then◌else◌, List, [], ◌∷◌, ◌++◌, map,
  Option, none, some, Outcome, ok, err, out_of_range, check_failed, null_deref, out_of_fuel, ◌>>=◌,
  ◌>>◌, guard, zero, suc, length,
}
use ffnetwork.Common.Int.{ℤ, ltb_ℤ}
use ffnetwork.Common.Maps.{number_key, lookup, insert, erase}
use ffnetwork.Time.{TimePoint, TimeDelta, point_diff, point_gt, point_max, eqb_ℤ}
use ffnetwork.DelayedTask.{DelayedTask, push, is_empty, top, pop}

-- `TaskQueueId` is its `size_t` value. Maps compare ids by `operator int`, so an id is looked up by
-- the bit pattern of an `int`.
abbrev pub key_of : ℕ → ℕ
key_of id = id % 2 ^ 32

-- `TaskQueueId::kUnmerged` is `ULONG_MAX`.
abbrev pub k_unmerged : ℕ
k_unmerged = 2 ^ 64 - 1

-- `static_cast<size_t>` of an `int`, from its bit pattern: negative numbers are sign-extended.
unfoldable pub size_of_int : ℕ → ℕ
size_of_int n = if ltb n (2 ^ 31) then n else n + (2 ^ 64 - 2 ^ 32)

pub data FlushType : Type 0 where
  single all : FlushType

abbrev pub is_single : FlushType → Bool
is_single single = true
is_single all = false

pub record TaskQueueEntry (C : Type 0) : Type 0 where
  pub task_observers : List (ℤ × C)
  pub delayed_tasks : List (DelayedTask C)
  pub wakeable : Option ℕ

-- `order` is the bit pattern of the `std::atomic_int`.
pub record TaskQueues (C : Type 0) : Type 0 where
  pub queue_entries : List (ℕ × TaskQueueEntry C)
  pub queue_locks : List (ℕ × Unit {0})
  pub task_queue_id_counter : ℕ
  pub order : ℕ

-- A call `wakeable->WakeUp(time)`.
abbrev pub Wake : Type 0
Wake = ℕ × TimePoint

-- What `GetTasksToRunNow` leaves: the state, the invocations and the wake-ups on the way.
pub record Flushed (C : Type 0) : Type 0 where
  pub queues : TaskQueues C
  pub invocations : List C
  pub wakes : List Wake

module _ {C : Type 0} where
  abbrev pub empty_entry : TaskQueueEntry C
  empty_entry = record { task_observers = []; delayed_tasks = []; wakeable = none }

  abbrev pub initial : TaskQueues C
  initial = record { queue_entries = []; queue_locks = []; task_queue_id_counter = 0; order = 0 }

  -- `GetInstance`, from what `instance_` points to: the one instance, and `instance_` after it.
  abbrev pub get_instance : Option (TaskQueues C) → TaskQueues C × Option (TaskQueues C)
  get_instance none = (initial, some initial)
  get_instance (some q) = (q, some q)

  unfoldable pub create_task_queue : TaskQueues C → TaskQueues C × ℕ
  create_task_queue q =
      let id = q.task_queue_id_counter in
      (
        record {
          queue_entries = insert (key_of id) empty_entry q.queue_entries;
          queue_locks = insert (key_of id) tt q.queue_locks;
          task_queue_id_counter = (id + 1) % 2 ^ 64;
          order = q.order;
        },
        id,
      )

  -- `queue_locks_.at(queue_id)`
  unfoldable pub get_mutex : TaskQueues C → ℕ → Outcome (Unit {0})
  get_mutex q id = elim (lookup (key_of id) q.queue_locks) [
    | none ↦ err out_of_range
    | some l ↦ ok tt
  ]

  -- `queue_entries_.at(id)->`
  unfoldable pub entry_at : TaskQueues C → ℕ → Outcome (TaskQueueEntry C)
  entry_at q id = elim (lookup (key_of id) q.queue_entries) [
    | none ↦ err out_of_range
    | some e ↦ ok e
  ]

  -- `queue_entries_[id]->`: a missing key is inserted with a null pointer, which is followed.
  unfoldable pub entry_ref : TaskQueues C → ℕ → Outcome (TaskQueueEntry C)
  entry_ref q id = elim (lookup (key_of id) q.queue_entries) [
    | none ↦ err null_deref
    | some e ↦ ok e
  ]

  unfoldable pub put_entry : TaskQueues C → ℕ → TaskQueueEntry C → TaskQueues C
  put_entry q id e = record q { queue_entries = insert (key_of id) e q.queue_entries }

  pub dispose : TaskQueues C → ℕ → Outcome (TaskQueues C)
  dispose q id = do
    get_mutex q id
    ok (record q { queue_entries = erase (key_of id) q.queue_entries })

  pub dispose_tasks : TaskQueues C → ℕ → Outcome (TaskQueues C)
  dispose_tasks q id = do
    get_mutex q id
    e ← entry_at q id
    ok (put_entry q id (record e { delayed_tasks = [] }))

  pub wake_up_unlocked : TaskQueues C → ℕ → TimePoint → Outcome (List Wake)
  wake_up_unlocked q id time = do
    e ← entry_at q id
    ok (elim e.wakeable [ none ↦ [] | some w ↦ (w, time) ∷ [] ])

  pub has_pending_tasks_unlocked : TaskQueues C → ℕ → Outcome Bool
  has_pending_tasks_unlocked q id = do e ← entry_at q id; ok (not (is_empty e.delayed_tasks))

  pub has_pending_task : TaskQueues C → ℕ → Outcome Bool
  has_pending_task q id = do get_mutex q id; has_pending_tasks_unlocked q id

  -- The task and the new value of `top_queue_id`.
  pub peek_next_task_unlocked : TaskQueues C → ℕ → ℕ → Outcome (DelayedTask C × ℕ)
  peek_next_task_unlocked q owner_id top_queue_id = do
    owner ← entry_at q owner_id
    let top_id = if is_empty owner.delayed_tasks then top_queue_id else owner_id
    e ← entry_at q top_id
    t ← top e.delayed_tasks
    ok (t, top_id)

  pub get_next_wake_time_unlocked : TaskQueues C → ℕ → Outcome TimePoint
  get_next_wake_time_unlocked q id = do
    (t, top_id) ← peek_next_task_unlocked q id k_unmerged
    ok t.target_time

  -- `now` is the clock at the delay that is logged; the difference overflows like any other.
  pub register_task :
      TaskQueues C → ℕ → C → TimePoint → TimePoint → Outcome (TaskQueues C × List Wake)
  register_task q id task target_time now = do
    get_mutex q id
    let counted = record q { order = (q.order + 1) % 2 ^ 32 }
    e ← entry_ref counted id
    let new_task : DelayedTask C = record {
      order = size_of_int q.order;
      task = task;
      target_time = target_time;
    }
    let tasks = push new_task e.delayed_tasks
    let q' = put_entry counted id (record e { delayed_tasks = tasks })
    t ← top tasks
    delay ← point_diff t.target_time now
    wakes ← wake_up_unlocked q' id t.target_time
    ok (q', wakes)

  -- One round of the `while` loop of `GetTasksToRunNow`, and whether another follows.
  pub flush_round :
      TaskQueues C → ℕ → FlushType → TimePoint → List C → List Wake → Outcome (Flushed C × Bool)
  unfolding has_pending_tasks_unlocked peek_next_task_unlocked get_next_wake_time_unlocked entry_at
      entry_ref put_entry wake_up_unlocked
  flush_round q id type now invocations wakes = do
    pending ← has_pending_tasks_unlocked q id
    let stop : Flushed C = record { queues = q; invocations = invocations; wakes = wakes }
    if not pending then ok (stop, false) else do
      (t, top_id) ← peek_next_task_unlocked q id k_unmerged
      if point_gt t.target_time now then ok (stop, false) else do
        e ← entry_ref q top_id
        let q' = put_entry q top_id (record e { delayed_tasks = pop e.delayed_tasks })
        let taken = invocations ++ t.task ∷ []
        let last : Flushed C = record { queues = q'; invocations = taken; wakes = wakes }
        if is_single type then ok (last, false) else do
          pending' ← has_pending_tasks_unlocked q' id
          time ← if pending' then get_next_wake_time_unlocked q' id else ok point_max
          w ← wake_up_unlocked q' id time
          ok (record { queues = q'; invocations = taken; wakes = wakes ++ w }, true)

  -- The loop, on fuel.
  pub flush_loop :
      ℕ → TaskQueues C → ℕ → FlushType → TimePoint → List C → List Wake → Outcome (Flushed C)
  flush_loop zero q id type now invocations wakes = err out_of_fuel
  flush_loop (suc fuel) q id type now invocations wakes = do
    (f, again) ← flush_round q id type now invocations wakes
    let rest = flush_loop fuel f.queues id type now f.invocations f.wakes
    if again then rest else ok f

  -- Each round takes a task off the queue.
  pub rounds : TaskQueues C → ℕ → ℕ
  rounds q id = elim (lookup (key_of id) q.queue_entries) [
    | none ↦ 0
    | some e ↦ suc (length e.delayed_tasks)
  ]

  pub get_tasks_to_run_now : TaskQueues C → ℕ → FlushType → TimePoint → Outcome (Flushed C)
  get_tasks_to_run_now q id type now = do
    get_mutex q id
    pending ← has_pending_tasks_unlocked q id
    if pending
        then flush_loop (rounds q id) q id type now [] []
        else ok (record { queues = q; invocations = []; wakes = [] })

  pub get_num_pending_tasks : TaskQueues C → ℕ → Outcome ℕ
  get_num_pending_tasks q id = do get_mutex q id; e ← entry_at q id; ok (length e.delayed_tasks)

  -- `task_observers[key] = callback` of a `std::map`, in the order of the keys.
  pub insert_observer : ℤ → C → List (ℤ × C) → List (ℤ × C)
  insert_observer k c [] = (k, c) ∷ []
  insert_observer k c ((j, d) ∷ m) =
      if eqb_ℤ j k
      then (k, c) ∷ m
      else if ltb_ℤ k j
      then (k, c) ∷ (j, d) ∷ m
      else (j, d) ∷ insert_observer k c m

  pub erase_observer : ℤ → List (ℤ × C) → List (ℤ × C)
  erase_observer k [] = []
  erase_observer k ((j, d) ∷ m) = if eqb_ℤ j k then m else (j, d) ∷ erase_observer k m

  -- A null callback is `none`.
  pub add_task_observer : TaskQueues C → ℕ → ℤ → Option C → Outcome (TaskQueues C)
  add_task_observer q id key callback = do
    get_mutex q id
    c ← elim callback [ none ↦ err check_failed | some c ↦ ok c ]
    e ← entry_ref q id
    ok (put_entry q id (record e { task_observers = insert_observer key c e.task_observers }))

  pub remove_task_observer : TaskQueues C → ℕ → ℤ → Outcome (TaskQueues C)
  remove_task_observer q id key = do
    get_mutex q id
    e ← entry_ref q id
    ok (put_entry q id (record e { task_observers = erase_observer key e.task_observers }))

  pub get_observers_to_notify : TaskQueues C → ℕ → Outcome (List C)
  get_observers_to_notify q id = do
    get_mutex q id
    e ← entry_at q id
    ok (map (λ o. o.1) e.task_observers)

  unfoldable pub set_wakeable : TaskQueues C → ℕ → Option ℕ → Outcome (TaskQueues C)
  set_wakeable q id wakeable = do
    get_mutex q id
    e ← entry_ref q id
    guard (elim e.wakeable [ none ↦ true | some w ↦ false ]) check_failed
    e' ← entry_at q id
    ok (put_entry q id (record e' { wakeable = wakeable }))
