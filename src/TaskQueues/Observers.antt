-- ===== src/TaskQueues/Observers.antt =====
-- Task observers of message_loop_task_queues.cpp, a map ordered by key.
use ffnetwork.Common.{
  ℕ, ◌≡◌, refl, List, [], ◌∷◌, some, ok, arith, All, All-map, Bool-cases, inl, inr, true,
}
use ffnetwork.Common.Int.{ℤ, ltb_ℤ}
use ffnetwork.Common.Maps.{number_key, lookup}
use ffnetwork.Time.{eqb_ℤ}
use ffnetwork.TaskQueues.Access.{
  lock-put_entry, put_entry-put_entry, get_mutex-eq-ok, entry_ref-eq-ok, lookup-put_entry,
}
use ffnetwork.TaskQueues.{
  TaskQueues, TaskQueueEntry, key_of, put_entry, insert_observer, erase_observer, add_task_observer,
  remove_task_observer,
}

module _ {C : Type 0} where
  -- The keys rise.
  abbrev pub IsAscending : List (ℤ × C) → Type 0
  IsAscending [] = Unit {0}
  IsAscending (o ∷ m) = All (λ p. ltb_ℤ o.0 p.0 ≡ true) m × IsAscending m

  All-insert_observer {κ} :
      (P : ℤ × C → Type κ) (k : ℤ) (c : C) (m : List (ℤ × C))
      → P (k, c)
      → All P m
      → All P (insert_observer k c m)
  unfolding insert_observer
  All-insert_observer P k c [] p a = (p, tt)
  All-insert_observer P k c ((j, d) ∷ m) p a = elim (Bool-cases (eqb_ℤ j k)) [
    | inl same ↦ rw same (p, a.1)
    | inr other ↦ elim (Bool-cases (ltb_ℤ k j)) [
      | inl less ↦ rw (other, less) (p, a)
      | inr more ↦ rw (other, more) (a.0, All-insert_observer P k c m p a.1)
    ]
  ]

  pub insert_observer-IsAscending :
      (k : ℤ) (c : C) (m : List (ℤ × C)) → IsAscending m → IsAscending (insert_observer k c m)
  unfolding insert_observer
  insert_observer-IsAscending k c [] s = (tt, tt)
  insert_observer-IsAscending k c ((j, d) ∷ m) s = elim (Bool-cases (eqb_ℤ j k)) [
    | inl same ↦ rw same (
      All-map (λ p. ltb_ℤ j p.0 ≡ true) (λ p. ltb_ℤ k p.0 ≡ true) m (λ p h. ground arith) s.0,
      s.1,
    )
    | inr other ↦ elim (Bool-cases (ltb_ℤ k j)) [
      | inl less ↦
          rw (other, less)
            (
              (
                less,
                All-map (λ p. ltb_ℤ j p.0 ≡ true) (λ p. ltb_ℤ k p.0 ≡ true) m (λ p h. ground arith)
                    s.0,
              ),
              s,
            )
      | inr more ↦
          rw (other, more)
            (
              All-insert_observer (λ p. ltb_ℤ j p.0 ≡ true) k c m (ground arith) s.0,
              insert_observer-IsAscending k c m s.1,
            )
    ]
  ]

  erase_observer-absent :
      (k : ℤ) (m : List (ℤ × C)) → All (λ p. ltb_ℤ k p.0 ≡ true) m → erase_observer k m ≡ m
  unfolding erase_observer
  erase_observer-absent k [] a = refl
  erase_observer-absent k ((j, d) ∷ m) a = ground (arith, erase_observer-absent k m a.1)

  All-erase_observer {κ} :
      (P : ℤ × C → Type κ) (k : ℤ) (m : List (ℤ × C)) → All P m → All P (erase_observer k m)
  unfolding erase_observer
  All-erase_observer P k [] a = tt
  All-erase_observer P k ((j, d) ∷ m) a = elim (Bool-cases (eqb_ℤ j k)) [
    | inl same ↦ rw same a.1
    | inr other ↦ rw other (a.0, All-erase_observer P k m a.1)
  ]

  erase_observer-IsAscending :
      (k : ℤ) (m : List (ℤ × C)) → IsAscending m → IsAscending (erase_observer k m)
  unfolding erase_observer
  erase_observer-IsAscending k [] s = tt
  erase_observer-IsAscending k ((j, d) ∷ m) s = elim (Bool-cases (eqb_ℤ j k)) [
    | inl same ↦ rw same s.1
    | inr other ↦
        rw other
          (All-erase_observer (λ p. ltb_ℤ j p.0 ≡ true) k m s.0, erase_observer-IsAscending k m s.1)
  ]

  erase-insert_observer :
      (k : ℤ) (c : C) (m : List (ℤ × C))
      → IsAscending m
      → erase_observer k (insert_observer k c m) ≡ erase_observer k m
  unfolding insert_observer erase_observer
  erase-insert_observer k c [] s = ground arith
  erase-insert_observer k c ((j, d) ∷ m) s = elim (Bool-cases (eqb_ℤ j k)) [
    | inl same ↦ ground (arith, same)
    | inr other ↦ elim (Bool-cases (ltb_ℤ k j)) [
      | inl less ↦
          let above : All (λ p. ltb_ℤ k p.0 ≡ true) m =
            All-map (λ p. ltb_ℤ j p.0 ≡ true) (λ p. ltb_ℤ k p.0 ≡ true) m (λ p h. ground arith)
              s.0 in
          ground (arith, other, less, erase_observer-absent k m above)
      | inr more ↦ ground (arith, other, more, erase-insert_observer k c m s.1)
    ]
  ]

  abbrev with_observers : TaskQueueEntry C → List (ℤ × C) → TaskQueueEntry C
  with_observers e m = record e { task_observers = m }

  module _ (q : TaskQueues C) (id : ℕ) (e : TaskQueueEntry C) (k : ℤ)
      (lock : lookup (key_of id) q.queue_locks ≡ some tt)
      (there : lookup (key_of id) q.queue_entries ≡ some e) where
    add_task_observer-eq :
        (c : C)
        → add_task_observer q id k (some c)
          ≡ ok (put_entry q id (with_observers e (insert_observer k c e.task_observers)))
    unfolding add_task_observer
    add_task_observer-eq c = rw (get_mutex-eq-ok q id lock, entry_ref-eq-ok q id e there)

    remove_task_observer-eq :
        remove_task_observer q id k
        ≡ ok (put_entry q id (with_observers e (erase_observer k e.task_observers)))
    unfolding remove_task_observer
    remove_task_observer-eq = rw (get_mutex-eq-ok q id lock, entry_ref-eq-ok q id e there)

  module _ (q : TaskQueues C) (id : ℕ) (e : TaskQueueEntry C) (k : ℤ) (c : C)
      (lock : lookup (key_of id) q.queue_locks ≡ some tt)
      (there : lookup (key_of id) q.queue_entries ≡ some e)
      (ordered : IsAscending e.task_observers) where
    -- The observers of a queue stay in the order of their keys when one is added, replaced or
    -- removed, and to add one and then remove its key is the same as to remove the key.
    pub observers_lem :
        (q₁ : TaskQueues C) × (q₂ : TaskQueues C) × (e₁ : TaskQueueEntry C) × (e₂ : TaskQueueEntry
          C)
        × (add_task_observer q id k (some c) ≡ ok q₁)
        × (lookup (key_of id) q₁.queue_entries ≡ some e₁)
        × IsAscending e₁.task_observers
        × (remove_task_observer q id k ≡ ok q₂)
        × (lookup (key_of id) q₂.queue_entries ≡ some e₂)
        × IsAscending e₂.task_observers
        × (remove_task_observer q₁ id k ≡ ok q₂)
    observers_lem =
        let e₁ = with_observers e (insert_observer k c e.task_observers) in
        let e₂ = with_observers e (erase_observer k e.task_observers) in
        (
          put_entry q id e₁,
          put_entry q id e₂,
          e₁,
          e₂,
          add_task_observer-eq q id e k lock there c,
          lookup-put_entry q id e₁,
          insert_observer-IsAscending k c e.task_observers ordered,
          remove_task_observer-eq q id e k lock there,
          lookup-put_entry q id e₂,
          erase_observer-IsAscending k e.task_observers ordered,
          rw (
            remove_task_observer-eq (put_entry q id e₁) id e₁ k (lock-put_entry q id e₁ lock)
                (lookup-put_entry q id e₁),
            erase-insert_observer k c e.task_observers ordered,
            put_entry-put_entry q id e₁ e₂,
          ),
        )
