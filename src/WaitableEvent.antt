-- ===== src/WaitableEvent.antt =====
-- source/base/thread/waitable_event.h and .cpp: `AutoResetWaitableEvent`. The state is `signaled_`.
-- A waiting thread gives up the mutex in the condition variable; each time it comes back, the
-- condition variable's result, the flag as the other threads left it and the clock are a `Wakeup`.
-- `none` is a thread that still waits after these wake-ups. `FF_DCHECK` checks.
pub mod Waiting
mod Tests
use ffnetwork.Common.{
  Bool, true, false, not, List, [], ◌∷◌, Option, none, some, if◌then◌else◌, Outcome, ok,
  check_failed, ◌>>=◌, ◌>>◌, guard,
}
use ffnetwork.Common.Int.{ltb_ℤ}
use ffnetwork.Time.{TimeDelta, TimePoint, point_diff, delta_sub, delta_ge}

pub record Wakeup : Type 0 where
  pub timed_out : Bool
  pub signaled : Bool
  pub now : TimePoint

-- The flag after `Signal`, which also wakes one waiting thread.
abbrev pub signal : Bool → Bool
signal signaled = true

-- The flag when `Wait` returns.
unfoldable pub wait : List Wakeup → Bool → Option Bool
wait ws true = some false
wait [] false = none
wait (u ∷ ws) false = wait ws u.signaled

-- The result and the flag.
pub record Waited : Type 0 where
  pub is_timeout : Bool
  pub signaled : Bool

-- The loop of `WaitWithTimeout`. How long the condition variable is asked to wait, `left` in every
-- further round, decides nothing here: whether it timed out is in the `Wakeup`.
unfoldable pub wait_loop : TimeDelta → TimePoint → List Wakeup → Outcome (Option Waited)
wait_loop timeout start [] = ok none
wait_loop timeout start (u ∷ us) =
    if u.timed_out
    then ok (some (record { is_timeout = true; signaled = u.signaled }))
    else if u.signaled
    then ok (some (record { is_timeout = false; signaled = false }))
    else do
      guard (not (ltb_ℤ u.now.ticks start.ticks)) check_failed
      elapsed ← point_diff u.now start
      left ← delta_sub timeout elapsed
      let rest = wait_loop timeout start us in
          if delta_ge elapsed timeout
          then ok (some (record { is_timeout = true; signaled = u.signaled }))
          else rest

-- `start` is the clock when the wait starts.
unfoldable pub wait_with_timeout :
    TimeDelta → TimePoint → Bool → List Wakeup → Outcome (Option Waited)
unfolding wait_loop
wait_with_timeout timeout start true us =
    ok (some (record { is_timeout = false; signaled = false }))
wait_with_timeout timeout start false us = wait_loop timeout start us
