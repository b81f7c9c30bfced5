-- ===== src/TaskQueues/Locking/Tests.antt =====
-- Two threads that use two queues of message_loop_task_queues.cpp at the same time.
use mathlib.Core.Path.{subst}
use ffnetwork.Common.{
  ℕ, ◌≡◌, ◌≢◌, refl, List, [], ◌∷◌, Option, none, some, Option-cases, inl, inr, ok, arith,
}
use ffnetwork.Common.Int.{pos}
use ffnetwork.Common.Maps.{number_key, lookup, insert, erase, AllOf}
use ffnetwork.DelayedTask.{push, greater_than}
use ffnetwork.TaskQueues.{TaskQueues, TaskQueueEntry, key_of, size_of_int, empty_entry, put_entry}
use ffnetwork.TaskQueues.Flush.{due, later}
use ffnetwork.TaskQueues.Locking.{
  QueueCall, place_of, register, flush, clear, idle, counted, loaded, System, all_idle, enter, load,
  effect, handed, replay, move_on, turn, LockTurn, calls, moves, Reached, begins, then_turn,
}
use ffnetwork.TaskQueues.Locking.Effects.{AllTimely}
use ffnetwork.TaskQueues.Locking.Progress.{GetsOn, Enters, calls_progress}
use ffnetwork.TaskQueues.Locking.Invariant.{at_queue}
use ffnetwork.TaskQueues.Locking.Linear.{Apart, Agrees, calls_linearize}

abbrev empty : TaskQueueEntry ℕ
empty = empty_entry

-- Two queues without tasks.
abbrev two_queues : TaskQueues ℕ
two_queues = record {
  queue_entries = (0, empty) ∷ (1, empty) ∷ [];
  queue_locks = (0, tt) ∷ (1, tt) ∷ [];
  task_queue_id_counter = 2;
  order = 0;
}

two_queues_timely : AllOf (λ k e. AllTimely e) two_queues.queue_entries
unfolding lookup
two_queues_timely k e h = ground arith

turns : List (LockTurn ℕ) → System ℕ → Option (System ℕ)
turns [] s = some s
turns (t ∷ ts) s = elim (turn t s) [ none ↦ none | some s' ↦ turns ts s' ]

turns-Reached :
    (ts : List (LockTurn ℕ)) (s s' : System ℕ)
    → Reached two_queues s
    → turns ts s ≡ some s'
    → Reached two_queues s'
unfolding turns
turns-Reached [] s s' r h = let same : s ≡ s' = cc in subst (Reached two_queues) same r
turns-Reached (t ∷ ts) s s' r h = elim (Option-cases (turn t s)) [
  | inl e ↦ let gone : none ≡ some s' = rw (e, turns) at h in absurd cc
  | inr (s1, e) ↦ turns-Reached ts s1 s' (then_turn r t e) (rw (e, turns) at h)
]

-- Both threads hold the mutex of their queue and used `order_`; thread 5 was the first to take its
-- mutex, thread 6 the first to count.
abbrev both_inside : System ℕ
both_inside = record {
  queues = record two_queues { order = 2 };
  owners = (0, 5) ∷ (1, 6) ∷ [];
  places = (5, counted 0 (register 70 9 3) 1) ∷ (6, counted 1 (register 80 8 3) 0) ∷ [];
  log = (1, register 80 8 3) ∷ (0, register 70 9 3) ∷ [];
  given = [];
}

both_inside-Reached : Reached two_queues both_inside
unfolding turns turn enter move_on lookup insert
both_inside-Reached =
    turns-Reached
      (calls 5 0 (register 70 9 3) ∷ calls 6 1 (register 80 8 3) ∷ moves 6 ∷ moves 5 ∷ [])
      (all_idle two_queues) both_inside begins refl

-- A thread that calls an operation of a queue whose mutex another thread holds has to wait.
waits : turn (calls 7 1 clear) both_inside ≡ none
unfolding turn enter lookup
waits = refl

-- Thread 5 is done, and has then flushed what it registered; thread 6 has read its entry.
abbrev one_done : System ℕ
one_done = record {
  queues = record two_queues { order = 2 };
  owners = (1, 6) ∷ [];
  places = (5, idle) ∷ (6, loaded 1 (register 80 8 3) 0 empty) ∷ [];
  log = (1, register 80 8 3) ∷ (0, register 70 9 3) ∷ (0, flush (record { ticks = pos 9 })) ∷ [];
  given = (0, []) ∷ (0, 70 ∷ []) ∷ [];
}

one_done-Reached : Reached two_queues one_done
unfolding turns turn enter load effect handed due later put_entry move_on lookup insert erase push
    greater_than size_of_int
one_done-Reached =
    turns-Reached
      (moves 5
        ∷ moves 6
        ∷ moves 5
        ∷ moves 5
        ∷ calls 5 0 (flush (record { ticks = pos 9 }))
        ∷ moves 5
        ∷ moves 5
        ∷ moves 5
        ∷ moves 5
        ∷ [])
      both_inside one_done both_inside-Reached refl

calls_linearize_example :
    Apart two_queues one_done
    × ((r : TaskQueues ℕ × List (ℕ × List ℕ)) × (replay two_queues [] one_done.log ≡ ok r)
        × Agrees two_queues one_done r)
calls_linearize_example =
    calls_linearize two_queues one_done two_queues_timely one_done-Reached
      ((ground arith, ground arith), ((ground arith, ground arith), (tt, tt)))

calls_progress_example :
    ((i id : ℕ)
      → at_queue (place_of i one_done) ≡ some id
      → GetsOn i (place_of i one_done) (turn (moves i) one_done) one_done)
    × ((i id : ℕ) (call : QueueCall ℕ) (e : TaskQueueEntry ℕ)
        → place_of i one_done ≡ idle
        → lookup (key_of id) one_done.queues.queue_locks ≡ some tt
        → lookup (key_of id) one_done.queues.queue_entries ≡ some e
        → ((j k : ℕ) → at_queue (place_of j one_done) ≡ some k → key_of k ≢ key_of id)
        → Enters i id call one_done)
calls_progress_example =
    calls_progress two_queues one_done two_queues_timely one_done-Reached
      ((ground arith, ground arith), ((ground arith, ground arith), (tt, tt)))
