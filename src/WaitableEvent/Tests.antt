-- ===== src/WaitableEvent/Tests.antt =====
-- Concrete waits (source/base/thread/waitable_event.cpp).
use ffnetwork.Common.{
  ℕ, ◌≡◌, ◌≤◌, ◌+◌, Bool, true, false, List, [], ◌∷◌, ◌++◌, map, some, ok, arith,
}
use ffnetwork.Common.Int.{pos}
use ffnetwork.WaitableEvent.{Waited, wait_with_timeout}
use ffnetwork.WaitableEvent.Waiting.{TimedWakeup, wakeup, at_time, wait_with_timeout_lem}

abbrev waking : Bool → Bool → ℕ → TimedWakeup
waking t s n = record { timed_out = t; signaled = s; time = n }

-- A wake-up without a cause in time, and one after the timeout.
abbrev woken_twice : List TimedWakeup
woken_twice = waking false false 9 ∷ waking false false 16 ∷ []

wait_with_timeout_lem_example :
    (wait_with_timeout (record { delta = pos 10 }) (at_time 5) false (map wakeup woken_twice)
      ≡ ok (some (record { is_timeout = true; signaled = false })))
    × ((before after : List TimedWakeup) (u : TimedWakeup)
        → woken_twice ≡ before ++ u ∷ after
        → 5 + 10 ≤ u.time
        → (r : Waited) × (wait_with_timeout
              (record { delta = pos 10 })
              (at_time 5)
              false
              (map wakeup woken_twice)
            ≡ ok (some r)))
wait_with_timeout_lem_example =
    wait_with_timeout_lem 10 5 false woken_twice (omega arith)
      ((omega arith, omega arith), ((omega arith, omega arith), tt))
