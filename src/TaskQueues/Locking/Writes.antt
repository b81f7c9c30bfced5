-- ===== src/TaskQueues/Locking/Writes.antt =====
-- A thread's write of its entry, and its unlock of the mutex, keep the invariant of
-- Locking.Invariant (message_loop_task_queues.cpp).
use mathlib.Core.Path.{subst}
use ffnetwork.Common.{
  ℕ, ◌≡◌, ◌≢◌, sym, ap, ◌∙◌, ◌==◌, [], ◌∷◌, ◌++◌, some, arith, Bool-cases, inl, inr,
}
use ffnetwork.Common.Maps.{
  number_miss, number_other, lookup-insert_other, lookup-erase_other, number_key, number_sound,
  lookup, insert, erase, lookup-erase, lookup-insert_self,
}
use ffnetwork.TaskQueues.{TaskQueues, TaskQueueEntry, key_of, put_entry}
use ffnetwork.TaskQueues.Locking.{
  QueueCall, Place, idle, loaded, leaving, System, place_of, the_place, effect, handed, given_by,
}
use ffnetwork.TaskQueues.Locking.Invariant.{
  at_queue, under_way, Inv, placed, under_way-at_queue, apart, given_by-snoc_hit,
  given_by-snoc_miss,
}
use ffnetwork.TaskQueues.Locking.Moves.{still_at}

module _ {C : Type 0} (q : TaskQueues C) where
  -- A thread writes its entry.
  pub write-Inv :
      (s : System C) (v : Inv q s) (i id : ℕ) (call : QueueCall C) (n : ℕ) (e : TaskQueueEntry C)
      → place_of i s ≡ loaded id call n e
      → Inv q (record s {
        queues = put_entry s.queues id (effect call n e);
        places = insert i (leaving id) s.places;
        given = s.given ++ (key_of id, handed call e) ∷ [];
      })
  unfolding put_entry
  write-Inv s v i id call n e was =
      let p' : Place C = leaving id in
      let here = λ (j : ℕ). placed i j p' s.places in
      let at_now = still_at s i p' (sym (ap at_queue was)) in
      let e' = effect call n e in
      let read = v.fresh i id call n e was in
      let (written, gives) = v.pending i id call n e (ap under_way was) read in
      let xs = handed call e in
      let given_other : (k : ℕ)
          → key_of id ≢ k
          → given_by k (s.given ++ (key_of id, xs) ∷ []) ≡ given_by k s.given =
        λ k ne. given_by-snoc_miss (key_of id) k s.given xs (number_miss (key_of id) k ne) in
      let elsewhere : (j id' : ℕ)
          → at_queue (place_of j s) ≡ some id'
          → i ≢ j
          → key_of id ≢ key_of id' =
        λ j id' h ne. apart q s v i j id id' (ap at_queue was) h ne in
      let other : (k : ℕ)
          → key_of id ≢ k
          → lookup k (insert (key_of id) e' s.queues.queue_entries)
            ≡ lookup k s.queues.queue_entries =
        λ k ne. lookup-insert_other (key_of id) k e' s.queues.queue_entries ne in
      let self = lookup-insert_self (key_of id) e' s.queues.queue_entries in
      record {
        seq = v.seq;
        out = v.out;
        ran = v.ran;
        order = v.order;
        locks = v.locks;
        timely = v.timely;
        owned = λ j id' h. v.owned j id' (sym (at_now j) ∙ h);
        free = λ k none_here. v.free k (λ j id' h. none_here j id' (at_now j ∙ h));
        locked = λ j id' h. v.locked j id' (sym (at_now j) ∙ h);
        there = λ j id' h. elim (Bool-cases (key_of id == key_of id')) [
          | inl hit ↦ (
            e',
            ap (λ k. lookup k (insert (key_of id) e' s.queues.queue_entries))
                  (sym (number_sound (key_of id) (key_of id') hit))
                ∙ self,
          )
          | inr miss ↦
              let (x, f) = v.there j id' (sym (at_now j) ∙ h) in
              (x, other (key_of id') (number_other (key_of id) (key_of id') miss) ∙ f)
        ];
        fresh = λ j id' call' n' x h. elim (here j) [
          | inl (same, p) ↦ let no_place : p' ≡ loaded id' call' n' x = sym p ∙ h in absurd cc
          | inr (ne, p) ↦
              let h' : place_of j s ≡ loaded id' call' n' x = sym p ∙ h in
              other (key_of id') (elsewhere j id' (ap at_queue h') ne) ∙ v.fresh j id' call' n' x h'
        ];
        pending = λ j id' call' n' x h f. elim (here j) [
          | inl (same, p) ↦ let no_call = sym (ap under_way p) ∙ h in absurd cc
          | inr (ne, p) ↦
              let h' = sym (ap under_way p) ∙ h in
              let apart_now =
                elsewhere j id' (under_way-at_queue (place_of j s) id' call' n' h') ne in
              let (entry, gives') =
                v.pending j id' call' n' x h' (sym (other (key_of id') apart_now) ∙ f) in
              (
                entry,
                gives' ∙ sym (ap (λ ys. ys ++ handed call' x) (given_other (key_of id') apart_now)),
              )
        ];
        quiet = λ k none_here. elim (Bool-cases (key_of id == k)) [
          | inl hit ↦
              let same = number_sound (key_of id) k hit in
              subst
                (λ a.
                  (lookup a v.seq.queue_entries
                    ≡ lookup a (insert (key_of id) e' s.queues.queue_entries))
                  × (given_by a v.out ≡ given_by a (s.given ++ (key_of id, xs) ∷ [])))
                same (written ∙ sym self, gives ∙ sym (given_by-snoc_hit (key_of id) s.given xs))
          | inr miss ↦
              let ne_key = number_other (key_of id) k miss in
              let (entry, gives') = v.quiet k (λ j id' call' n' h. elim (here j) [
                | inl (same, p) ↦
                    let both : some (id, call, n) ≡ some (id', call', n') =
                      sym (ap under_way was) ∙ ap (λ a. under_way (place_of a s)) same ∙ h in
                    let ids : id ≡ id' = cc in λ f. ne_key (ap key_of ids ∙ f)
                | inr (ne, p) ↦ none_here j id' call' n' (ap under_way p ∙ h)
              ]) in
              (entry ∙ sym (other k ne_key), gives' ∙ sym (given_other k ne_key))
        ];
      }

  -- A thread gives its mutex up.
  pub leave-Inv :
      (s : System C) (v : Inv q s) (i id : ℕ)
      → place_of i s ≡ leaving id
      → Inv q (record s { owners = erase (key_of id) s.owners; places = insert i idle s.places })
  leave-Inv s v i id was =
      let p' : Place C = idle in
      let here = λ (j : ℕ). placed i j p' s.places in
      let still : (j id' : ℕ)
          → at_queue (the_place (lookup j (insert i p' s.places))) ≡ some id'
          → (i ≢ j) × (at_queue (place_of j s) ≡ some id') =
        λ j id' h. elim (here j) [
          | inl (same, p) ↦ let nowhere = sym (ap at_queue p) ∙ h in absurd cc
          | inr (ne, p) ↦ (ne, sym (ap at_queue p) ∙ h)
        ] in
      let way_now : (j : ℕ)
          → under_way (the_place (lookup j (insert i p' s.places))) ≡ under_way (place_of j s) =
        λ j. elim (here j) [
          | inl (same, p) ↦
              ap under_way p ∙ sym (ap under_way was) ∙ ap (λ a. under_way (place_of a s)) same
          | inr (ne, p) ↦ ap under_way p
        ] in
      record {
        seq = v.seq;
        out = v.out;
        ran = v.ran;
        order = v.order;
        locks = v.locks;
        timely = v.timely;
        owned = λ j id' h.
            let (ne, h') = still j id' h in
            lookup-erase_other (key_of id) (key_of id') s.owners
              (apart q s v i j id id' (ap at_queue was) h' ne)
            ∙ v.owned j id' h';
        free = λ k none_here. elim (Bool-cases (key_of id == k)) [
          | inl hit ↦ ground (arith, lookup-erase (key_of id) k s.owners)
          | inr miss ↦
              lookup-erase_other (key_of id) k s.owners (number_other (key_of id) k miss)
              ∙ v.free k (λ j id' h. elim (here j) [
                | inl (same, p) ↦
                    let both : some id ≡ some id' =
                      sym (ap at_queue was) ∙ ap (λ a. at_queue (place_of a s)) same ∙ h in
                    let ids : id ≡ id' = cc in
                    λ f. number_other (key_of id) k miss (ap key_of ids ∙ f)
                | inr (ne, p) ↦ none_here j id' (ap at_queue p ∙ h)
              ])
        ];
        locked = λ j id' h. v.locked j id' (still j id' h).1;
        there = λ j id' h. v.there j id' (still j id' h).1;
        fresh = λ j id' call' n' x h. elim (here j) [
          | inl (same, p) ↦ let no_place : p' ≡ loaded id' call' n' x = sym p ∙ h in absurd cc
          | inr (ne, p) ↦ v.fresh j id' call' n' x (sym p ∙ h)
        ];
        pending = λ j id' call' n' x h. v.pending j id' call' n' x (sym (way_now j) ∙ h);
        quiet =
            λ k none_here. v.quiet k (λ j id' call' n' h. none_here j id' call' n' (way_now j ∙ h));
      }
