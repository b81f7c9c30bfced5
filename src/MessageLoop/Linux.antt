-- ===== src/MessageLoop/Linux.antt =====
-- source/base/messageloop/message_loop_impl_linux.cpp and source/base/platform/linux/timerfd.cpp:
-- the loop over `epoll_wait`. What the system calls and the clock give in one round is a `Turn`.
-- `running_` is reset by `Terminate`, which only `DoTerminate` calls, after `terminated_` is set.
pub mod Rounds
pub mod Platform
use ffnetwork.Common.{
  ℕ, ◌+◌, ◌-◌, ◌/◌, ◌%◌, ◌^◌, Bool, true, false, not, ◌&&◌, if◌then◌else◌, List, [], ◌∷◌, Outcome,
  ok, ◌>>=◌,
}
use ffnetwork.Common.Int.{ℤ, pos, negsuc, ◌-ℤ◌, ltb_ℤ}
use ffnetwork.Time.{TimePoint, TimeDelta, int64, to_milliseconds}
use ffnetwork.MessageLoop.{Loop, run_expired_tasks_now}

-- `has_error` is `EPOLLERR` or `EPOLLHUP`, `has_event` a result of 1, `interrupted` the error
-- `EINTR`, `is_timer` the descriptor of the event, `drained` the result of `TimerDrain`, `now` the
-- clock of the flush, and `elapsed` the milliseconds since the start of the run.
pub record Turn : Type 0 where
  pub has_error : Bool
  pub has_event : Bool
  pub interrupted : Bool
  pub is_timer : Bool
  pub drained : Bool
  pub now : TimePoint
  pub elapsed : ℤ

-- `left_milliseconds` and `running_` with the loop.
pub record RunState (C : Type 0) : Type 0 where
  pub loop : Loop C
  pub left_milliseconds : ℤ
  pub running : Bool

-- `it_value` and `it_interval` of `TimerRearm`.
pub record Itimerspec : Type 0 where
  pub value_sec : ℕ
  pub value_nsec : ℕ
  pub interval_sec : ℕ
  pub interval_nsec : ℕ

-- The conversion of an `int64_t` to `uint64_t`.
abbrev pub uint64 : ℤ → ℕ
uint64 (pos n) = n % 2 ^ 64
uint64 (negsuc n) = 2 ^ 64 - 1 - n

unfoldable pub timer_rearm : TimePoint → Itimerspec
timer_rearm time_point =
    let nano_secs = uint64 time_point.ticks in
    record {
      value_sec = nano_secs / 1000000000;
      value_nsec = nano_secs % 1000000000;
      interval_sec = nano_secs / 1000000000;
      interval_nsec = nano_secs % 1000000000;
    }

module _ {C : Type 0} (effect : C → Loop C → Outcome (Loop C)) (id : ℕ) where
  unfoldable pub on_event_fired : Turn → Loop C → Outcome (Loop C)
  on_event_fired t w = if t.drained then run_expired_tasks_now effect id t.now w else ok w

  unfoldable pub round : Turn → RunState C → Outcome (RunState C)
  unfolding on_event_fired
  round t s =
      if t.has_error
      then ok (record s { running = false })
      else if not t.has_event && not t.interrupted
      then ok (record s { running = false })
      else do
        w ← if t.is_timer then on_event_fired t s.loop else ok s.loop
        left ← int64 (s.left_milliseconds -ℤ t.elapsed)
        ok (record {
          loop = w;
          left_milliseconds = left;
          running = ltb_ℤ (pos 0) left && not w.terminated;
        })

  -- The loop, as far as these turns go.
  unfoldable pub run_rounds : List Turn → RunState C → Outcome (RunState C)
  unfolding round
  run_rounds [] s = ok s
  run_rounds (t ∷ ts) s =
      let rest = (do s' ← round t s; run_rounds ts s') in if s.running then rest else ok s

  unfoldable pub run_for_time : TimeDelta → List Turn → Loop C → Outcome (RunState C)
  unfolding run_rounds
  run_for_time duration ts w =
      run_rounds ts
        (record { loop = w; left_milliseconds = to_milliseconds duration; running = true })
