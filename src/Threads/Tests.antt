-- ===== src/Threads/Tests.antt =====
-- A thread of source/base/thread/thread.cpp in concrete uses.
use ffnetwork.Common.{
  ◌≡◌, ◌↔◌, refl, ℕ, ◌<◌, ◌≤◌, true, Option, some, [], ◌∷◌, ok, err, null_deref, terminated,
}
use ffnetwork.Threads.{new_thread, posts_terminate, joins, starts, joins_it, live_thread}
use ffnetwork.Threads.Life.{joins_times, live_thread_lem}
use ffnetwork.Threads.Starting.{
  Starting, start_move, StartMove, assign_runner, take_lock, check_signal, returned, running,
  Reachable, begins, moves,
}
use ffnetwork.Threads.Starting.Progress.{CanMove, start_measure, is_real, start_returns}

-- A thread that is never started cannot be destroyed.
test_not_started : live_thread [] new_thread ≡ err null_deref
unfolding live_thread
test_not_started = refl

test_started_again : live_thread (starts 1 ∷ joins_it ∷ starts 2 ∷ []) new_thread ≡ err terminated
unfolding live_thread
test_started_again = refl

live_thread_lem_example :
    (live_thread (starts 4 ∷ joins_it ∷ []) new_thread ≡ ok (posts_terminate 4 ∷ joins ∷ [])) ↔ (
      (id n : ℕ) × (starts 4 ∷ joins_it ∷ [] ≡ starts id ∷ joins_times n)
      × (posts_terminate 4 ∷ joins ∷ [] ≡ posts_terminate id ∷ joins ∷ []))
live_thread_lem_example =
    live_thread_lem (starts 4 ∷ joins_it ∷ []) (posts_terminate 4 ∷ joins ∷ [])

-- `Start` sleeps before the new thread has made a move but its assignment.
starting_asleep : (s : Starting ℕ) × Reachable 4 s
unfolding start_move
starting_asleep =
    let a = moves begins assign_runner refl in
    let b = moves a take_lock refl in (_, moves b check_signal refl)

start_returns_example :
    let s = starting_asleep.0 in
    CanMove 4 s
    × (start_measure s ≤ 54)
    × ((m : StartMove) (t : Starting ℕ)
        → is_real m ≡ true
        → start_move 4 m s ≡ some t
        → start_measure t < start_measure s)
    × ((o : Option ℕ) → s.starter_pc ≡ returned o → (o ≡ some 4) × (s.child_pc ≡ running))
start_returns_example = start_returns 4 starting_asleep.0 starting_asleep.1
