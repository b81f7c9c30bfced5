-- ===== src/TaskQueues/Locking/Counts.antt =====
-- A thread's use of `order_` keeps the invariant of Locking.Invariant (message_loop_task_queues.cpp).
use mathlib.Core.Path.{subst}
use ffnetwork.Common.{
  ℕ, ◌+◌, ◌%◌, ◌^◌, ◌≡◌, ◌≢◌, refl, sym, ap, ◌∙◌, [], ◌∷◌, ◌++◌, none, some, inl, inr,
}
use ffnetwork.Common.Maps.{
  number_miss, lookup-insert_other, number_key, lookup, insert, lookup-insert_self, AllOf-insert,
}
use ffnetwork.TaskQueues.{TaskQueues, key_of, put_entry}
use ffnetwork.TaskQueues.Locking.{
  QueueCall, register, flush, clear, observe, forget, entered, counted, loaded, System, place_of,
  the_place, effect, handed, given_by, count,
}
use ffnetwork.TaskQueues.Locking.Effects.{
  AllTimely, InTime, effect-AllTimely, step-effect, returned-handed,
}
use ffnetwork.TaskQueues.Locking.Invariant.{
  at_queue, under_way, Inv, placed, under_way-at_queue, apart, replay-snoc, given_by-snoc_hit,
  given_by-snoc_miss,
}
use ffnetwork.TaskQueues.Locking.Moves.{still_at}

module _ {C : Type 0} where
  count-entries :
      (call : QueueCall C) (q : TaskQueues C) → (count call q).queue_entries ≡ q.queue_entries
  count-entries (register c target now) q = refl
  count-entries (flush now) q = refl
  count-entries clear q = refl
  count-entries (observe key c) q = refl
  count-entries (forget key) q = refl

  count-locks : (call : QueueCall C) (q : TaskQueues C) → (count call q).queue_locks ≡ q.queue_locks
  count-locks (register c target now) q = refl
  count-locks (flush now) q = refl
  count-locks clear q = refl
  count-locks (observe key c) q = refl
  count-locks (forget key) q = refl

  count-order :
      (call : QueueCall C) (a b : TaskQueues C)
      → a.order ≡ b.order
      → (count call a).order ≡ (count call b).order
  count-order (register c target now) a b h = ap (λ n. (n + 1) % 2 ^ 32) h
  count-order (flush now) a b h = h
  count-order clear a b h = h
  count-order (observe key c) a b h = h
  count-order (forget key) a b h = h

module _ {C : Type 0} (q : TaskQueues C) where
  -- A thread uses `order_`: from here on its call counts.
  pub count-Inv :
      (s : System C) (v : Inv q s) (i id : ℕ) (call : QueueCall C)
      → place_of i s ≡ entered id call
      → InTime call
      → Inv q (record s {
        queues = count call s.queues;
        places = insert i (counted id call s.queues.order) s.places;
        log = s.log ++ (id, call) ∷ [];
      })
  unfolding put_entry
  count-Inv s v i id call was fits =
      let p' = counted id call s.queues.order in
      let here = λ (j : ℕ). placed i j p' s.places in
      let at_now = still_at s i p' (sym (ap at_queue was)) in
      let (e, there) = v.there i id (ap at_queue was) in
      let lock = v.locked i id (ap at_queue was) in
      let alone : (j id' : ℕ) (call' : QueueCall C) (n : ℕ)
          → under_way (place_of j s) ≡ some (id', call', n)
          → key_of id' ≢ key_of id =
        λ j id' call' n h.
          apart q s v j i id' id (under_way-at_queue (place_of j s) id' call' n h) (ap at_queue was)
            (λ same.
              let none_way : none ≡ some (id', call', n) =
                sym (ap under_way was) ∙ ap (λ a. under_way (place_of a s)) (sym same) ∙ h in
              absurd cc) in
      let (same_entry, same_given) = v.quiet (key_of id) alone in
      let seq_there = same_entry ∙ there in
      let seq_lock = ap (λ m. lookup (key_of id) m) v.locks ∙ lock in
      let xs = handed call e in
      let entries = count-entries call v.seq in
      let e' = effect call v.seq.order e in
      let stepped =
        step-effect v.seq id call e seq_lock seq_there fits (v.timely (key_of id) e seq_there) in
      let other : (k : ℕ)
          → key_of id ≢ k
          → lookup k (insert (key_of id) e' (count call v.seq).queue_entries)
            ≡ lookup k v.seq.queue_entries =
        λ k ne.
          lookup-insert_other (key_of id) k e' (count call v.seq).queue_entries ne
          ∙ ap (λ m. lookup k m) entries in
      let given_other : (k : ℕ)
          → key_of id ≢ k
          → given_by k (v.out ++ (key_of id, xs) ∷ []) ≡ given_by k v.out =
        λ k ne. given_by-snoc_miss (key_of id) k v.out xs (number_miss (key_of id) k ne) in
      let kept : (k : ℕ)
          → lookup k (count call s.queues).queue_entries ≡ lookup k s.queues.queue_entries =
        λ k. ap (λ m. lookup k m) (count-entries call s.queues) in
      record {
        seq = put_entry (count call v.seq) id e';
        out = v.out ++ (key_of id, xs) ∷ [];
        ran =
            replay-snoc q v.seq (put_entry (count call v.seq) id e') [] v.out s.log id call xs v.ran
              (returned-handed v.seq id call e seq_lock seq_there) stepped;
        order = count-order call v.seq s.queues v.order;
        locks = count-locks call v.seq ∙ v.locks ∙ sym (count-locks call s.queues);
        timely =
            AllOf-insert (λ k x. AllTimely x) (key_of id) e' (count call v.seq).queue_entries
              (effect-AllTimely call v.seq.order e fits (v.timely (key_of id) e seq_there))
              (λ k x h. v.timely k x (sym (ap (λ m. lookup k m) entries) ∙ h));
        owned = λ j id' h. v.owned j id' (sym (at_now j) ∙ h);
        free = λ k none_here. v.free k (λ j id' h. none_here j id' (at_now j ∙ h));
        locked = λ j id' h.
            ap (λ m. lookup (key_of id') m) (count-locks call s.queues)
            ∙ v.locked j id' (sym (at_now j) ∙ h);
        there = λ j id' h.
            let (x, f) = v.there j id' (sym (at_now j) ∙ h) in (x, kept (key_of id') ∙ f);
        fresh = λ j id' call' n x h. elim (here j) [
          | inl (same, p) ↦ let no_place : p' ≡ loaded id' call' n x = sym p ∙ h in absurd cc
          | inr (ne, p) ↦ kept (key_of id') ∙ v.fresh j id' call' n x (sym p ∙ h)
        ];
        pending = λ j id' call' n x h f. elim (here j) [
          | inl (same, p) ↦
              let both : some (id, call, s.queues.order) ≡ some (id', call', n) =
                sym (ap under_way p) ∙ h in
              let mine_way : ℕ × QueueCall C × ℕ = (id, call, s.queues.order) in
              let way : ℕ × QueueCall C × ℕ = (id', call', n) in
              let triple : mine_way ≡ way = cc in
              let entries_now = insert (key_of id) e' (count call v.seq).queue_entries in
              let out_now = v.out ++ (key_of id, xs) ∷ [] in
              let mine : lookup (key_of id) s.queues.queue_entries ≡ some x
                  → (lookup (key_of id) entries_now ≡ some (effect call s.queues.order x))
                    × (given_by (key_of id) out_now
                        ≡ given_by (key_of id) s.given ++ handed call x) =
                λ g.
                  let entry : e ≡ x = let two = sym there ∙ g in cc in
                  (
                    lookup-insert_self (key_of id) e' (count call v.seq).queue_entries
                        ∙ ap (λ m. some (effect call m e)) v.order
                        ∙ ap (λ y. some (effect call s.queues.order y)) entry,
                    given_by-snoc_hit (key_of id) v.out xs
                        ∙ ap (λ ys. ys ++ xs) same_given
                        ∙ ap (λ y. given_by (key_of id) s.given ++ handed call y) entry,
                  ) in
              subst
                (λ u.
                  lookup (key_of u.0) s.queues.queue_entries ≡ some x
                  → (lookup (key_of u.0) entries_now ≡ some (effect u.1 u.2 x))
                    × (given_by (key_of u.0) out_now
                        ≡ given_by (key_of u.0) s.given ++ handed u.1 x))
                triple mine (sym (kept (key_of id')) ∙ f)
          | inr (ne, p) ↦
              let h' = sym (ap under_way p) ∙ h in
              let ne_key : key_of id ≢ key_of id' = λ k. alone j id' call' n h' (sym k) in
              let (entry, gives) = v.pending j id' call' n x h' (sym (kept (key_of id')) ∙ f) in
              (other (key_of id') ne_key ∙ entry, given_other (key_of id') ne_key ∙ gives)
        ];
        quiet = λ k none_here.
            let ne_key =
              none_here i id call s.queues.order
                (ap (λ o. under_way (the_place o)) (lookup-insert_self i p' s.places)) in
            let (entry, gives) = v.quiet k (λ j id' call' n h. elim (here j) [
              | inl (same, p) ↦
                  let none_way : none ≡ some (id', call', n) =
                    sym (ap under_way was) ∙ ap (λ a. under_way (place_of a s)) same ∙ h in
                  absurd cc
              | inr (ne, p) ↦ none_here j id' call' n (ap under_way p ∙ h)
            ]) in
            (other k ne_key ∙ entry ∙ sym (kept k), given_other k ne_key ∙ gives);
      }
