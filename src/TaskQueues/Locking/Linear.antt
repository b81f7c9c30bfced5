-- ===== src/TaskQueues/Locking/Linear.antt =====
-- Calls of message_loop_task_queues.cpp that interleave leave what the same calls leave one after the
-- other.
use mathlib.Core.Path.{subst}
use ffnetwork.Common.{
  ℕ, ◌≡◌, ◌≢◌, refl, sym, List, [], ◌∷◌, ◌++◌, Option, none, some, ok, All, All-append_left,
  All-append_right,
}
use ffnetwork.Common.Maps.{number_key, lookup, insert, erase, AllOf}
use ffnetwork.TaskQueues.{TaskQueues, TaskQueueEntry, key_of, put_entry}
use ffnetwork.TaskQueues.Locking.{
  QueueCall, Place, idle, entered, counted, loaded, leaving, System, place_of, all_idle, effect,
  handed, replay, given_by, count, enter, load, move_on, turn, LockTurn, calls, moves, Reached,
  begins, then_turn,
}
use ffnetwork.TaskQueues.Locking.Effects.{AllTimely, InTime}
use ffnetwork.TaskQueues.Locking.Invariant.{at_queue, Inv, apart, under_way-at_queue}
use ffnetwork.TaskQueues.Locking.Moves.{enter-Inv, load-Inv}
use ffnetwork.TaskQueues.Locking.Counts.{count-Inv}
use ffnetwork.TaskQueues.Locking.Writes.{write-Inv, leave-Inv}

module _ {C : Type 0} (q : TaskQueues C) where
  -- The times of all registrations are not negative and fit.
  abbrev pub LogInTime : System C → Type 0
  LogInTime s = All (λ (l : ℕ × QueueCall C). InTime l.1) s.log

  abbrev Kept : System C → System C → Type 0
  Kept s s' = LogInTime s' → LogInTime s × (Inv q s → Inv q s')

  enter-Kept :
      (i id : ℕ) (call : QueueCall C) (p : Place C) (l : Option (Unit {0}))
      (e : Option (TaskQueueEntry C)) (o : Option ℕ) (s s' : System C)
      → place_of i s ≡ p
      → lookup (key_of id) s.queues.queue_locks ≡ l
      → lookup (key_of id) s.queues.queue_entries ≡ e
      → lookup (key_of id) s.owners ≡ o
      → enter i id call p l e o s ≡ some s'
      → Kept s s'
  unfolding enter
  enter-Kept i id call idle (some tt) (some e) none s s' was lock there free h fits =
      let new : System C = record s {
        owners = insert (key_of id) i s.owners;
        places = insert i (entered id call) s.places;
      } in
      let same : new ≡ s' = cc in
      (
        subst LogInTime (sym same) fits,
        λ v. subst (Inv q) same (enter-Inv q s v i id call e was lock there free),
      )
  enter-Kept i id call p l e o s s' was lock there free h fits = absurd cc

  load-Kept :
      (i id : ℕ) (call : QueueCall C) (n : ℕ) (e : Option (TaskQueueEntry C)) (s s' : System C)
      → place_of i s ≡ counted id call n
      → lookup (key_of id) s.queues.queue_entries ≡ e
      → load i id call n e s ≡ some s'
      → Kept s s'
  unfolding load
  load-Kept i id call n none s s' was there h fits = absurd cc
  load-Kept i id call n (some e) s s' was there h fits =
      let new : System C = record s { places = insert i (loaded id call n e) s.places } in
      let same : new ≡ s' = cc in
      (
        subst LogInTime (sym same) fits,
        λ v. subst (Inv q) same (load-Inv q s v i id call n e was there),
      )

  move_on-Kept :
      (i : ℕ) (p : Place C) (s s' : System C)
      → place_of i s ≡ p
      → move_on i p s ≡ some s'
      → Kept s s'
  unfolding move_on
  move_on-Kept i idle s s' was h fits = absurd cc
  move_on-Kept i (entered id call) s s' was h fits =
      let new : System C = record s {
        queues = count call s.queues;
        places = insert i (counted id call s.queues.order) s.places;
        log = s.log ++ (id, call) ∷ [];
      } in
      let same : new ≡ s' = cc in
      let all : LogInTime new = subst LogInTime (sym same) fits in
      (
        All-append_left (λ (l : ℕ × QueueCall C). InTime l.1) s.log ((id, call) ∷ []) all,
        λ v. subst (Inv q) same (
            count-Inv q s v i id call was
              (All-append_right (λ (l : ℕ × QueueCall C). InTime l.1) s.log ((id, call) ∷ [])
                all).0),
      )
  move_on-Kept i (counted id call n) s s' was h fits =
      load-Kept i id call n (lookup (key_of id) s.queues.queue_entries) s s' was refl h fits
  move_on-Kept i (loaded id call n e) s s' was h fits =
      let new : System C = record s {
        queues = put_entry s.queues id (effect call n e);
        places = insert i (leaving id) s.places;
        given = s.given ++ (key_of id, handed call e) ∷ [];
      } in
      let same : new ≡ s' = cc in
      (subst LogInTime (sym same) fits, λ v. subst (Inv q) same (write-Inv q s v i id call n e was))
  move_on-Kept i (leaving id) s s' was h fits =
      let new : System C = record s {
        owners = erase (key_of id) s.owners;
        places = insert i idle s.places;
      } in
      let same : new ≡ s' = cc in
      (subst LogInTime (sym same) fits, λ v. subst (Inv q) same (leave-Inv q s v i id was))

  turn-Kept : (t : LockTurn C) (s s' : System C) → turn t s ≡ some s' → Kept s s'
  unfolding turn
  turn-Kept (calls i id call) s s' h =
      enter-Kept i id call (place_of i s) (lookup (key_of id) s.queues.queue_locks)
        (lookup (key_of id) s.queues.queue_entries) (lookup (key_of id) s.owners) s s' refl refl
        refl refl h
  turn-Kept (moves i) s s' h = move_on-Kept i (place_of i s) s s' refl h

  all_idle-Inv : AllOf (λ k e. AllTimely e) q.queue_entries → Inv q (all_idle q)
  unfolding lookup replay given_by
  all_idle-Inv timely = record {
    seq = q;
    out = [];
    ran = refl;
    order = refl;
    locks = refl;
    timely = timely;
    owned = λ i id h. absurd cc;
    free = λ k h. refl;
    locked = λ i id h. absurd cc;
    there = λ i id h. absurd cc;
    fresh = λ i id call n e h. let no_place : idle ≡ loaded id call n e = h in absurd cc;
    pending = λ i id call n e h f. absurd cc;
    quiet = λ k h. (refl, refl);
  }

  pub Reached-Inv :
      (s : System C)
      → AllOf (λ k e. AllTimely e) q.queue_entries
      → Reached q s
      → LogInTime s
      → Inv q s
  Reached-Inv s timely begins fits = all_idle-Inv timely
  Reached-Inv s' timely (then_turn {s = s} r t h) fits =
      let (before, kept) = turn-Kept t s s' h fits in kept (Reached-Inv s timely r before)

  -- Two threads are never both between the lock and the unlock of one queue's mutex.
  abbrev pub Apart : System C → Type 0
  Apart s =
      (i j a b : ℕ)
      → at_queue (place_of i s) ≡ some a
      → at_queue (place_of j s) ≡ some b
      → i ≢ j
      → key_of a ≢ key_of b

  -- The state that calls leave one after the other, with what they returned, is that of the system at
  -- every queue in which no thread is.
  abbrev pub Agrees : System C → TaskQueues C × List (ℕ × List C) → Type 0
  Agrees s (q', out) =
      (q'.order ≡ s.queues.order)
      × (q'.queue_locks ≡ s.queues.queue_locks)
      × ((k : ℕ)
          → ((i id : ℕ) → at_queue (place_of i s) ≡ some id → key_of id ≢ k)
          → (lookup k q'.queue_entries ≡ lookup k s.queues.queue_entries)
            × (given_by k out ≡ given_by k s.given))

  -- However threads interleave their calls of queues that are there, with times that are not
  -- negative and fit: no two threads are in calls of one queue. The same calls, one after the other in
  -- the order in which they used `order_`, return, and leave the same counter; for every queue in
  -- which no thread is, they leave the same entry, and the flushes of it returned the same closures
  -- in the same order.
  pub calls_linearize :
      (s : System C)
      → AllOf (λ k e. AllTimely e) q.queue_entries
      → Reached q s
      → LogInTime s
      → Apart s × ((r : TaskQueues C × List (ℕ × List C)) × (replay q [] s.log ≡ ok r) × Agrees s r)
  calls_linearize s timely r fits =
      let v = Reached-Inv s timely r fits in
      (
        λ i j a b f g ne. apart q s v i j a b f g ne,
        (
          (v.seq, v.out),
          v.ran,
          (
            v.order,
            v.locks,
            λ k none_here.
                v.quiet k
                  (λ i id call n h. none_here i id (under_way-at_queue (place_of i s) id call n h)),
          ),
        ),
      )
