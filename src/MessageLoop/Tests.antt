-- ===== src/MessageLoop/Tests.antt =====
-- A loop with one observer and three tasks (source/base/messageloop/message_loop_impl.cpp).
use ffnetwork.Common.{◌++◌, ℕ, ◌≡◌, arith, refl, sym, ap, true, false, [], ◌∷◌, none, Outcome, ok}
use ffnetwork.Common.Int.{pos, ◌-ℤ◌}
use ffnetwork.Common.Maps.{number_key, lookup}
use ffnetwork.Time.{TimePoint, int64}
use ffnetwork.TaskQueues.{TaskQueueEntry}
use ffnetwork.MessageLoop.Linux.{RunState, run_rounds}
use ffnetwork.MessageLoop.Linux.Rounds.{quiet_turn, running_state, rounds_end}
use ffnetwork.Common.{map}
use ffnetwork.MessageLoop.{Loop, run_expired_tasks_now, do_terminate}
use ffnetwork.TaskQueues.{size_of_int}
use ffnetwork.Common.{if◌then◌else◌, ◌==◌, Bool-cases, inl, inr}
use ffnetwork.MessageLoop.Linux.{Turn, round}
use ffnetwork.MessageLoop.Ending.{Ends, join_ends_loop}
use ffnetwork.MessageLoop.Posting.{Waiting, at_time, post_all, posted_tasks_run}
use ffnetwork.MessageLoop.Flushing.{Observed, Steady, with_observers}

abbrev at : ℕ → TimePoint
at t = record { ticks = pos t }

abbrev three_entry : TaskQueueEntry ℕ
three_entry = record {
  task_observers = (pos 5, 50) ∷ [];
  delayed_tasks =
      record { order = 0; task = 1; target_time = at 10 }
      ∷ record { order = 1; task = 2; target_time = at 20 }
      ∷ record { order = 2; task = 3; target_time = at 30 }
      ∷ [];
  wakeable = none;
}

abbrev three : Loop ℕ
three = record {
  queues = record {
    queue_entries = (0, three_entry) ∷ [];
    queue_locks = (0, tt) ∷ [];
    task_queue_id_counter = 1;
    order = 3;
  };
  terminated = false;
  log = [];
  wakes = [];
}

abbrev quiet : ℕ → Loop ℕ → Outcome (Loop ℕ)
quiet c w = ok w

quiet-Steady : Steady 0 (50 ∷ []) quiet
quiet-Steady c w h = (w, refl, h, refl)

three_observed : Observed 0 (50 ∷ []) three.queues
unfolding lookup
three_observed = record { entry = three_entry; lock = refl; there = refl; listening = refl }

abbrev stopped : Loop ℕ
stopped = record three { terminated = true }

same_flag : (u v : Loop ℕ) → ok u ≡ ok v → v.terminated ≡ u.terminated
same_flag u v e = let same : u ≡ v = cc in ap (λ w. w.terminated) (sym same)

stops : do_terminate ok three ≡ ok stopped
unfolding do_terminate
stops = refl

-- A run of 10 ms that is woken 4 ms and 6 ms after its start ends after the second wake-up.
rounds_end_example :
    (run_rounds quiet 0 (map quiet_turn (4 ∷ [])) (running_state quiet 0 three 10)
      ≡ ok (running_state quiet 0 three 6))
    × ((s : RunState ℕ) × (run_rounds quiet 0
            (map quiet_turn (4 ∷ 6 ∷ []))
            (running_state quiet 0 three 10)
          ≡ ok s)
        × (s.running ≡ false)
        × (s.loop ≡ three))
rounds_end_example =
    rounds_end quiet 0 three 10 (4 ∷ []) 6 refl (omega arith) (omega arith) (omega arith)
      (omega arith)

three-Waiting : Waiting 0 (50 ∷ []) 30 three
unfolding size_of_int three_observed
three-Waiting = record {
  seen = three_observed;
  live = refl;
  in_time = ((10, refl, omega arith), ((20, refl, omega arith), ((30, refl, omega arith), tt)));
  older = (omega arith, (omega arith, (omega arith, tt)));
}

posted_tasks_run_example :
    (w1 w2 : Loop ℕ) × (post_all 0 ((8, 31) ∷ (9, 35) ∷ []) three ≡ ok w1)
    × (run_expired_tasks_now quiet 0 (at_time 40) w1 ≡ ok w2)
    × (w2.log
        ≡ with_observers
            (50 ∷ [])
            (map (λ t. t.task) three-Waiting.seen.entry.delayed_tasks ++ 8 ∷ 9 ∷ []))
posted_tasks_run_example =
    posted_tasks_run 0 (50 ∷ []) quiet 30 40 ((8, 31) ∷ (9, 35) ∷ []) three quiet-Steady
      three-Waiting
      (omega arith, omega arith, (omega arith, omega arith, (omega arith, omega arith)))
      (omega arith)

-- The closure 99 terminates the loop.
abbrev stopping : ℕ → Loop ℕ → Outcome (Loop ℕ)
stopping c w = if c == 99 then ok (record w { terminated = true }) else ok w

stopping-Steady : Steady 0 (50 ∷ []) stopping
stopping-Steady c w h = elim (Bool-cases (c == 99)) [
  | inl hit ↦ (record w { terminated = true }, rw hit refl, h, refl)
  | inr miss ↦ (w, rw miss refl, h, refl)
]

stopping-Ends : Ends 99 stopping
stopping-Ends c w w' h = ground arith

abbrev timer_turn : Turn
timer_turn = record (quiet_turn 5) {
  has_event = true;
  is_timer = true;
  drained = true;
  now = at_time 40;
}

elapsed_five : int64 (pos 100 -ℤ pos 5) ≡ ok (pos 95)
unfolding ◌-ℤ◌
elapsed_five = refl

join_ends_loop_example :
    (w1 : Loop ℕ) × (s : RunState ℕ) × (post_all 0 ((8, 31) ∷ (99, 35) ∷ []) three ≡ ok w1)
    × (round stopping 0 timer_turn
          (record { loop = w1; left_milliseconds = pos 100; running = true })
        ≡ ok s)
    × (s.running ≡ false)
    × (s.loop.terminated ≡ true)
    × (s.loop.log
        ≡ with_observers
            (50 ∷ [])
            (map (λ t. t.task) three-Waiting.seen.entry.delayed_tasks ++ 8 ∷ 99 ∷ []))
join_ends_loop_example =
    join_ends_loop 99 stopping stopping-Ends 0 (50 ∷ []) 30 40 ((8, 31) ∷ []) 35 three timer_turn
      (pos 100) (pos 95) stopping-Steady three-Waiting
      (omega arith, omega arith, (omega arith, omega arith, (omega arith, omega arith)))
      (omega arith) refl refl refl refl refl elapsed_five
