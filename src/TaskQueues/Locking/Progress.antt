-- ===== src/TaskQueues/Locking/Progress.antt =====
-- Threads that use queues of message_loop_task_queues.cpp at the same time get on.
use ffnetwork.Common.{ℕ, suc, ◌≡◌, ◌≢◌, refl, ap, List, [], ◌∷◌, ◌++◌, Option, none, some, inl, inr}
use ffnetwork.Common.Maps.{number_key, lookup, insert, erase, AllOf, lookup-insert_self}
use ffnetwork.TaskQueues.{TaskQueues, TaskQueueEntry, key_of, put_entry}
use ffnetwork.TaskQueues.Locking.{
  QueueCall, Place, idle, entered, counted, loaded, leaving, System, place_of, the_place, effect,
  handed, count, enter, load, move_on, turn, calls, moves, Reached,
}
use ffnetwork.TaskQueues.Locking.Effects.{AllTimely}
use ffnetwork.TaskQueues.Locking.Invariant.{at_queue, placed}
use ffnetwork.TaskQueues.Locking.Linear.{LogInTime, Reached-Inv}

module _ {C : Type 0} where
  -- The moves that a thread has before it.
  abbrev pub moves_left : Place C → ℕ
  moves_left idle = 0
  moves_left (entered id call) = 4
  moves_left (counted id call n) = 3
  moves_left (loaded id call n e) = 2
  moves_left (leaving id) = 1

  -- A move of a thread in its call, after which it has one less before it and the others are where
  -- they were.
  abbrev pub GetsOn : ℕ → Place C → Option (System C) → System C → Type 0
  GetsOn i p o s =
      (s' : System C) × (o ≡ some s')
      × (suc (moves_left (place_of i s')) ≡ moves_left p)
      × ((j : ℕ) → i ≢ j → place_of j s' ≡ place_of j s)

  other_place :
      (i j : ℕ) (p : Place C) (m : List (ℕ × Place C))
      → i ≢ j
      → the_place (lookup j (insert i p m)) ≡ the_place (lookup j m)
  other_place i j p m ne = elim (placed i j p m) [
    | inl (same, now) ↦ absurd (ne same)
    | inr (apart, still) ↦ still
  ]

  own_place :
      (i : ℕ) (p : Place C) (m : List (ℕ × Place C)) → the_place (lookup i (insert i p m)) ≡ p
  own_place i p m = ap the_place (lookup-insert_self i p m)

  left_after :
      (i : ℕ) (p : Place C) (m : List (ℕ × Place C))
      → suc (moves_left (the_place (lookup i (insert i p m)))) ≡ suc (moves_left p)
  left_after i p m = ap (λ x. suc (moves_left x)) (own_place i p m)

  load-GetsOn :
      (i id : ℕ) (call : QueueCall C) (n : ℕ) (o : Option (TaskQueueEntry C)) (e : TaskQueueEntry C)
      (s : System C)
      → o ≡ some e
      → GetsOn i (counted id call n) (load i id call n o s) s
  unfolding load
  load-GetsOn i id call n none e s h = absurd cc
  load-GetsOn i id call n (some x) e s h = (
    record s { places = insert i (loaded id call n x) s.places },
    refl,
    left_after i (loaded id call n x) s.places,
    λ j ne. other_place i j (loaded id call n x) s.places ne,
  )

  move_on-GetsOn :
      (i : ℕ) (p : Place C) (s : System C) (id : ℕ)
      → at_queue p ≡ some id
      → ((k : ℕ)
          → at_queue p ≡ some k
          → (e : TaskQueueEntry C) × (lookup (key_of k) s.queues.queue_entries ≡ some e))
      → GetsOn i p (move_on i p s) s
  unfolding move_on
  move_on-GetsOn i idle s id h there = absurd cc
  move_on-GetsOn i (entered k call) s id h there =
      let p = counted k call s.queues.order in
      (
        record s {
          queues = count call s.queues;
          places = insert i p s.places;
          log = s.log ++ (k, call) ∷ [];
        },
        refl,
        left_after i p s.places,
        λ j ne. other_place i j p s.places ne,
      )
  move_on-GetsOn i (counted k call n) s id h there =
      let (e, f) = there k refl in
      load-GetsOn i k call n (lookup (key_of k) s.queues.queue_entries) e s f
  move_on-GetsOn i (loaded k call n e) s id h there =
      let p : Place C = leaving k in
      (
        record s {
          queues = put_entry s.queues k (effect call n e);
          places = insert i p s.places;
          given = s.given ++ (key_of k, handed call e) ∷ [];
        },
        refl,
        left_after i p s.places,
        λ j ne. other_place i j p s.places ne,
      )
  move_on-GetsOn i (leaving k) s id h there =
      let p : Place C = idle in
      (
        record s { owners = erase (key_of k) s.owners; places = insert i p s.places },
        refl,
        left_after i p s.places,
        λ j ne. other_place i j p s.places ne,
      )

  -- A call that takes the mutex.
  abbrev pub Enters : ℕ → ℕ → QueueCall C → System C → Type 0
  Enters i id call s =
      (s' : System C) × (turn (calls i id call) s ≡ some s')
      × (place_of i s' ≡ entered id call)
      × ((j : ℕ) → i ≢ j → place_of j s' ≡ place_of j s)

  enter_free :
      (i id : ℕ) (call : QueueCall C) (e : TaskQueueEntry C) (s : System C)
      → place_of i s ≡ idle
      → lookup (key_of id) s.queues.queue_locks ≡ some tt
      → lookup (key_of id) s.queues.queue_entries ≡ some e
      → lookup (key_of id) s.owners ≡ none
      → Enters i id call s
  unfolding turn enter
  enter_free i id call e s was lock there free = (
    record s {
      owners = insert (key_of id) i s.owners;
      places = insert i (entered id call) s.places;
    },
    rw (was, lock, there, free),
    own_place i (entered id call) s.places,
    λ j ne. other_place i j (entered id call) s.places ne,
  )

module _ {C : Type 0} (q : TaskQueues C) where
  -- However threads interleave their calls of queues that are there, with times that are not
  -- negative and fit: a thread in a call can always make its next move, after which it has one move
  -- less to its end, of at most four, and the others are where they were. A thread that is in no call
  -- can call an operation of every queue that is there and in which no thread is.
  pub calls_progress :
      (s : System C)
      → AllOf (λ k e. AllTimely e) q.queue_entries
      → Reached q s
      → LogInTime q s
      → ((i id : ℕ)
          → at_queue (place_of i s) ≡ some id
          → GetsOn i (place_of i s) (turn (moves i) s) s)
        × ((i id : ℕ) (call : QueueCall C) (e : TaskQueueEntry C)
            → place_of i s ≡ idle
            → lookup (key_of id) s.queues.queue_locks ≡ some tt
            → lookup (key_of id) s.queues.queue_entries ≡ some e
            → ((j k : ℕ) → at_queue (place_of j s) ≡ some k → key_of k ≢ key_of id)
            → Enters i id call s)
  unfolding turn
  calls_progress s timely r fits =
      let v = Reached-Inv q s timely r fits in
      (
        λ i id h. move_on-GetsOn i (place_of i s) s id h (λ k f. v.there i k f),
        λ i id call e was lock there none_here.
            enter_free i id call e s was lock there (v.free (key_of id) none_here),
      )
