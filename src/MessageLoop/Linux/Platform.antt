-- ===== src/MessageLoop/Linux/Platform.antt =====
-- The descriptors of the Linux loop: the constructor, the destructor, `Terminate` and `WakeUp` of
-- source/base/messageloop/message_loop_impl_linux.cpp, and `TimerRearm` and `TimerDrain` of
-- source/base/platform/linux/timerfd.cpp. What the system calls return is an argument. `FF_DCHECK`
-- checks.
use ffnetwork.Common.{
  ℕ, ◌+◌, ◌*◌, ◌^◌, ◌<◌, ◌≡◌, refl, Bool, true, false, ltb, ap, not, if◌then◌else◌, ◌==◌, Option,
  none, some, Outcome, ok, check_failed, ◌>>◌, guard, arith,
}
use ffnetwork.Common.Int.{ℤ, pos, negsuc, ltb_ℤ}
use ffnetwork.Time.{TimePoint}
use ffnetwork.MessageLoop.Linux.{Itimerspec, timer_rearm}

-- Whether the timer is a source of the epoll descriptor, `running_`, and the times that the timer
-- was last set to.
pub record Platform : Type 0 where
  pub has_timer_source : Bool
  pub running : Bool
  pub timer : Option Itimerspec

-- A result of a system call: 0 is success.
abbrev pub succeeded : ℤ → Bool
succeeded (pos n) = n == 0
succeeded (negsuc n) = false

-- `add` and the result of `epoll_ctl`.
unfoldable pub add_or_remove_timer_source : Bool → ℤ → Platform → Platform × Bool
add_or_remove_timer_source add ctl_result p =
    (if succeeded ctl_result then record p { has_timer_source = add } else p, succeeded ctl_result)

-- The constructor; a descriptor is valid if it is not negative. `running_` is not initialized: it has
-- any value.
unfoldable pub new_platform : Bool → ℤ → ℤ → ℤ → Outcome Platform
unfolding add_or_remove_timer_source
new_platform running epoll_fd timer_fd ctl_result = do
  guard (not (ltb_ℤ epoll_fd (pos 0))) check_failed
  guard (not (ltb_ℤ timer_fd (pos 0))) check_failed
  let (p, added_source) =
      add_or_remove_timer_source true ctl_result
        (record { has_timer_source = false; running = running; timer = none })
  guard added_source check_failed
  ok p

unfoldable pub destroy_platform : ℤ → Platform → Outcome Platform
unfolding add_or_remove_timer_source
destroy_platform ctl_result p = do
  let (p', removed_source) = add_or_remove_timer_source false ctl_result p
  guard removed_source check_failed
  ok p'

-- `TimerRearm` with the result of `timerfd_settime`.
unfoldable pub set_timer : ℤ → TimePoint → Platform → Platform × Bool
unfolding timer_rearm
set_timer result time_point p = (
  if succeeded result then record p { timer = some (timer_rearm time_point) } else p,
  succeeded result,
)

-- `TimerDrain` with the result of `read` and the count that it fills in.
abbrev pub timer_drain : ℤ → ℕ → Bool
timer_drain (pos size) fire_count = if size == 8 then ltb 0 fire_count else false
timer_drain (negsuc n) fire_count = false

unfoldable pub wake_up : ℤ → TimePoint → Platform → Outcome Platform
unfolding set_timer
wake_up settime_result time_point p = do
  let (p', result) = set_timer settime_result time_point p
  guard result check_failed
  ok p'

-- `Terminate`, at this time of the clock.
unfoldable pub terminate : ℤ → TimePoint → Platform → Outcome Platform
unfolding wake_up
terminate settime_result now p = wake_up settime_result now (record p { running = false })

-- The time point of a timer in nanoseconds, and whether it is set: a time of zero disarms it.
abbrev pub nanoseconds_of : Itimerspec → ℕ
nanoseconds_of spec = spec.value_sec * 1000000000 + spec.value_nsec

abbrev pub is_armed : Itimerspec → Bool
is_armed spec = ltb 0 (nanoseconds_of spec)

-- A loop whose descriptors are valid and whose calls succeed has the timer as a source as long as it
-- lives. `Terminate` at any time of the clock that is not negative ends its run and sets the timer
-- to exactly that time, split into seconds and less than a second; the timer is armed unless that
-- time is 0.
pub terminate_lem :
    (running : Bool) (epoll_fd timer_fd now : ℕ)
    → now < 2 ^ 63
    → (p q r : Platform) × (spec : Itimerspec) × (new_platform running
          (pos epoll_fd)
          (pos timer_fd)
          (pos 0)
        ≡ ok p)
      × (terminate (pos 0) (record { ticks = pos now }) p ≡ ok q)
      × (q.has_timer_source ≡ true)
      × (q.running ≡ false)
      × (q.timer ≡ some spec)
      × (nanoseconds_of spec ≡ now)
      × (spec.value_nsec < 1000000000)
      × (is_armed spec ≡ ltb 0 now)
      × (destroy_platform (pos 0) q ≡ ok r)
      × (r.has_timer_source ≡ false)
unfolding new_platform terminate destroy_platform wake_up set_timer timer_rearm
    add_or_remove_timer_source
terminate_lem running epoll_fd timer_fd now small =
    let spec = timer_rearm (record { ticks = pos now }) in
    let whole : nanoseconds_of spec ≡ now = omega (arith, small) in
    (
      record { has_timer_source = true; running = running; timer = none },
      record { has_timer_source = true; running = false; timer = some spec },
      record { has_timer_source = false; running = false; timer = some spec },
      spec,
      ground arith,
      refl,
      refl,
      refl,
      refl,
      whole,
      omega (arith, small),
      ap (ltb 0) whole,
      refl,
      refl,
    )
