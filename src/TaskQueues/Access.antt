-- ===== src/TaskQueues/Access.antt =====
-- The lookups of message_loop_task_queues.cpp on a queue that is there.
use ffnetwork.Common.{
  ℕ, suc, ◌+◌, ◌%◌, ◌^◌, refl, ◌≡◌, not, List, [], ◌∷◌, Option, none, some, arith, ok, err,
  out_of_range, null_deref, length, inl, inr, Option-cases, ◌⊎◌,
}
use ffnetwork.Common.Maps.{number_key, lookup, lookup-insert_self, insert-insert}
use ffnetwork.Time.{TimePoint}
use ffnetwork.DelayedTask.{is_empty}
use ffnetwork.TaskQueues.{
  TaskQueues, TaskQueueEntry, Wake, key_of, rounds, get_mutex, has_pending_tasks_unlocked, entry_at,
  entry_ref, wake_up_unlocked, put_entry, create_task_queue, set_wakeable, empty_entry,
}

-- `WakeUpUnlocked` through a pointer that may be null.
abbrev pub wake : Option ℕ → TimePoint → List Wake
wake none time = []
wake (some w) time = (w, time) ∷ []

module _ {C : Type 0} where
  module _ (q : TaskQueues C) (id : ℕ) (e : TaskQueueEntry C)
      (there : lookup (key_of id) q.queue_entries ≡ some e) where
    pub entry_at-eq-ok : entry_at q id ≡ ok e
    unfolding entry_at
    entry_at-eq-ok = ground arith

    pub entry_ref-eq-ok : entry_ref q id ≡ ok e
    unfolding entry_ref
    entry_ref-eq-ok = ground arith

    pub wake_up-eq-ok : (time : TimePoint) → wake_up_unlocked q id time ≡ ok (wake e.wakeable time)
    unfolding wake_up_unlocked entry_at
    wake_up-eq-ok time = ground arith

    pub rounds-eq-suc : rounds q id ≡ suc (length e.delayed_tasks)
    unfolding rounds
    rounds-eq-suc = ground arith

    pub has_pending-eq : has_pending_tasks_unlocked q id ≡ ok (not (is_empty e.delayed_tasks))
    unfolding has_pending_tasks_unlocked entry_at
    has_pending-eq = ground arith

  pub get_mutex-eq-ok :
      (q : TaskQueues C) (id : ℕ)
      → lookup (key_of id) q.queue_locks ≡ some tt
      → get_mutex q id ≡ ok tt
  unfolding get_mutex
  get_mutex-eq-ok q id h = ground arith

  pub lookup-put_entry :
      (q : TaskQueues C) (id : ℕ) (e : TaskQueueEntry C)
      → lookup (key_of id) (put_entry q id e).queue_entries ≡ some e
  unfolding put_entry
  lookup-put_entry q id e = lookup-insert_self (key_of id) e q.queue_entries

  -- The two ways in which an operation begins.
  pub get_mutex-cases :
      (q : TaskQueues C) (id : ℕ) → (get_mutex q id ≡ ok tt) ⊎ (get_mutex q id ≡ err out_of_range)
  unfolding get_mutex
  get_mutex-cases q id = ground arith

  pub entry-cases :
      (q : TaskQueues C) (id : ℕ)
      → ((e : TaskQueueEntry C) × (lookup (key_of id) q.queue_entries ≡ some e))
        ⊎ ((entry_at q id ≡ err out_of_range) × (entry_ref q id ≡ err null_deref))
  unfolding entry_at entry_ref
  entry-cases q id = elim (Option-cases (lookup (key_of id) q.queue_entries)) [
    | inl h ↦ inr (rw (h, entry_at), rw (h, entry_ref))
    | inr (e, h) ↦ inl (e, h)
  ]

  pub has_pending-eq-err :
      (q : TaskQueues C) (id : ℕ)
      → entry_at q id ≡ err out_of_range
      → has_pending_tasks_unlocked q id ≡ err out_of_range
  unfolding has_pending_tasks_unlocked
  has_pending-eq-err q id h = rw h

  pub put_entry-put_entry :
      (q : TaskQueues C) (id : ℕ) (a b : TaskQueueEntry C)
      → put_entry (put_entry q id a) id b ≡ put_entry q id b
  unfolding put_entry
  put_entry-put_entry q id a b = rw (insert-insert (key_of id) b a q.queue_entries)

  pub lock-put_entry :
      (q : TaskQueues C) (id : ℕ) (e : TaskQueueEntry C)
      → lookup (key_of id) q.queue_locks ≡ some tt
      → lookup (key_of id) (put_entry q id e).queue_locks ≡ some tt
  unfolding put_entry
  lock-put_entry q id e h = h

  pub order-put_entry :
      (q : TaskQueues C) (id : ℕ) (e : TaskQueueEntry C) → (put_entry q id e).order ≡ q.order
  unfolding put_entry
  order-put_entry q id e = λ i. q.order

  set_wakeable-eq :
      (q : TaskQueues C) (id : ℕ) (e : TaskQueueEntry C) (wakeable : Option ℕ)
      → lookup (key_of id) q.queue_locks ≡ some tt
      → lookup (key_of id) q.queue_entries ≡ some e
      → e.wakeable ≡ none
      → set_wakeable q id wakeable ≡ ok (put_entry q id (record e { wakeable = wakeable }))
  unfolding set_wakeable get_mutex entry_ref entry_at
  set_wakeable-eq q id e wakeable lock there free =
      let locked : get_mutex q id ≡ ok tt = rw (lock, get_mutex) refl in
      let by_ref : entry_ref q id ≡ ok e = rw (there, entry_ref) refl in
      let by_at : entry_at q id ≡ ok e = rw (there, entry_at) refl in
      rw (locked, by_ref, by_at, free, set_wakeable) refl

  -- A new queue takes a wakeable.
  pub create-set_wakeable :
      (q : TaskQueues C) (wakeable : Option ℕ)
      → (q' : TaskQueues C) × (set_wakeable (create_task_queue q).0 (create_task_queue q).1 wakeable
          ≡ ok q')
        × (q'.task_queue_id_counter ≡ (q.task_queue_id_counter + 1) % 2 ^ 64)
  unfolding create_task_queue put_entry
  create-set_wakeable q wakeable =
      let key = key_of q.task_queue_id_counter in
      (
        _,
        set_wakeable-eq (create_task_queue q).0 q.task_queue_id_counter empty_entry wakeable
            (lookup-insert_self key tt q.queue_locks)
            (lookup-insert_self key empty_entry q.queue_entries) refl,
        refl,
      )
