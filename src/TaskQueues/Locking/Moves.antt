-- ===== src/TaskQueues/Locking/Moves.antt =====
-- The moves of a thread that change no queue keep the invariant of Locking.Invariant: it takes the
-- mutex of a queue, and reads its entry (message_loop_task_queues.cpp).
use ffnetwork.Common.{ℕ, ◌≡◌, sym, ap, ◌∙◌, none, some, inl, inr}
use ffnetwork.Common.Maps.{lookup-insert_other, number_key, lookup, insert, lookup-insert_self}
use ffnetwork.TaskQueues.{TaskQueues, TaskQueueEntry, key_of}
use ffnetwork.TaskQueues.Locking.{
  QueueCall, Place, idle, entered, counted, loaded, System, place_of, the_place,
}
use ffnetwork.TaskQueues.Locking.Invariant.{at_queue, under_way, Inv, placed}

module _ {C : Type 0} where
  -- A move within a call leaves every thread at its queue.
  pub still_at :
      (s : System C) (i : ℕ) (p : Place C)
      → at_queue p ≡ at_queue (place_of i s)
      → (j : ℕ) → at_queue (the_place (lookup j (insert i p s.places))) ≡ at_queue (place_of j s)
  still_at s i p e j = elim (placed i j p s.places) [
    | inl (same, now) ↦ ap at_queue now ∙ e ∙ ap (λ a. at_queue (place_of a s)) same
    | inr (ne, was) ↦ ap at_queue was
  ]

module _ {C : Type 0} (q : TaskQueues C) where
  -- A thread takes the mutex of a queue.
  pub enter-Inv :
      (s : System C) (v : Inv q s) (i id : ℕ) (call : QueueCall C) (e : TaskQueueEntry C)
      → place_of i s ≡ idle
      → lookup (key_of id) s.queues.queue_locks ≡ some tt
      → lookup (key_of id) s.queues.queue_entries ≡ some e
      → lookup (key_of id) s.owners ≡ none
      → Inv q (record s {
        owners = insert (key_of id) i s.owners;
        places = insert i (entered id call) s.places;
      })
  enter-Inv s v i id call e was lock there free =
      let here = λ (j : ℕ). placed i j (entered id call) s.places in
      record {
        seq = v.seq;
        out = v.out;
        ran = v.ran;
        order = v.order;
        locks = v.locks;
        timely = v.timely;
        owned = λ j id' h. elim (here j) [
          | inl (same, p) ↦
              let ids : some id ≡ some id' = sym (ap at_queue p) ∙ h in
              let id_eq : id ≡ id' = cc in
              ap (λ k. lookup (key_of k) (insert (key_of id) i s.owners)) (sym id_eq)
              ∙ lookup-insert_self (key_of id) i s.owners
              ∙ ap some same
          | inr (ne, p) ↦
              let held = v.owned j id' (sym (ap at_queue p) ∙ h) in
              lookup-insert_other (key_of id) (key_of id') i s.owners (λ k.
                let both : none ≡ some j = sym free ∙ ap (λ x. lookup x s.owners) k ∙ held in cc)
              ∙ held
        ];
        free = λ k none_here.
            let self =
              ap (λ o. at_queue (the_place o)) (lookup-insert_self i (entered id call) s.places) in
            lookup-insert_other (key_of id) k i s.owners (none_here i id self)
            ∙ v.free k (λ j id' h. elim (here j) [
              | inl (same, p) ↦
                  let nowhere : none ≡ some id' =
                    sym (ap at_queue was) ∙ ap (λ a. at_queue (place_of a s)) same ∙ h in
                  absurd cc
              | inr (ne, p) ↦ none_here j id' (ap at_queue p ∙ h)
            ]);
        locked = λ j id' h. elim (here j) [
          | inl (same, p) ↦
              let ids : some id ≡ some id' = sym (ap at_queue p) ∙ h in
              let id_eq : id ≡ id' = cc in
              ap (λ k. lookup (key_of k) s.queues.queue_locks) (sym id_eq) ∙ lock
          | inr (ne, p) ↦ v.locked j id' (sym (ap at_queue p) ∙ h)
        ];
        there = λ j id' h. elim (here j) [
          | inl (same, p) ↦
              let ids : some id ≡ some id' = sym (ap at_queue p) ∙ h in
              let id_eq : id ≡ id' = cc in
              (e, ap (λ k. lookup (key_of k) s.queues.queue_entries) (sym id_eq) ∙ there)
          | inr (ne, p) ↦ v.there j id' (sym (ap at_queue p) ∙ h)
        ];
        fresh = λ j id' call' n e' h. elim (here j) [
          | inl (same, p) ↦
              let no_place : entered id call ≡ loaded id' call' n e' = sym p ∙ h in absurd cc
          | inr (ne, p) ↦ v.fresh j id' call' n e' (sym p ∙ h)
        ];
        pending = λ j id' call' n e' h. elim (here j) [
          | inl (same, p) ↦ let no_call = sym (ap under_way p) ∙ h in absurd cc
          | inr (ne, p) ↦ v.pending j id' call' n e' (sym (ap under_way p) ∙ h)
        ];
        quiet = λ k none_here. v.quiet k (λ j id' call' n h. elim (here j) [
          | inl (same, p) ↦
              let none_way : none ≡ some (id', call', n) =
                sym (ap under_way was) ∙ ap (λ a. under_way (place_of a s)) same ∙ h in
              absurd cc
          | inr (ne, p) ↦ none_here j id' call' n (ap under_way p ∙ h)
        ]);
      }

  -- A thread reads its entry.
  pub load-Inv :
      (s : System C) (v : Inv q s) (i id : ℕ) (call : QueueCall C) (n : ℕ) (e : TaskQueueEntry C)
      → place_of i s ≡ counted id call n
      → lookup (key_of id) s.queues.queue_entries ≡ some e
      → Inv q (record s { places = insert i (loaded id call n e) s.places })
  load-Inv s v i id call n e was there =
      let p' = loaded id call n e in
      let here = λ (j : ℕ). placed i j p' s.places in
      let at_now = still_at s i p' (sym (ap at_queue was)) in
      let way_now : (j : ℕ)
          → under_way (the_place (lookup j (insert i p' s.places))) ≡ under_way (place_of j s) =
        λ j. elim (here j) [
          | inl (same, p) ↦
              ap under_way p ∙ sym (ap under_way was) ∙ ap (λ a. under_way (place_of a s)) same
          | inr (ne, p) ↦ ap under_way p
        ] in
      record {
        seq = v.seq;
        out = v.out;
        ran = v.ran;
        order = v.order;
        locks = v.locks;
        timely = v.timely;
        owned = λ j id' h. v.owned j id' (sym (at_now j) ∙ h);
        free = λ k none_here. v.free k (λ j id' h. none_here j id' (at_now j ∙ h));
        locked = λ j id' h. v.locked j id' (sym (at_now j) ∙ h);
        there = λ j id' h. v.there j id' (sym (at_now j) ∙ h);
        fresh = λ j id' call' n' x h. elim (here j) [
          | inl (same, p) ↦
              let both : p' ≡ loaded id' call' n' x = sym p ∙ h in
              let ids : id ≡ id' = cc in
              let entries : e ≡ x = cc in
              ap (λ k. lookup (key_of k) s.queues.queue_entries) (sym ids) ∙ there ∙ ap some entries
          | inr (ne, p) ↦ v.fresh j id' call' n' x (sym p ∙ h)
        ];
        pending = λ j id' call' n' x h. v.pending j id' call' n' x (sym (way_now j) ∙ h);
        quiet =
            λ k none_here. v.quiet k (λ j id' call' n' h. none_here j id' call' n' (way_now j ∙ h));
      }
