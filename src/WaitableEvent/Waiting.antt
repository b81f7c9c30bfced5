-- ===== src/WaitableEvent/Waiting.antt =====
-- When the waits of source/base/thread/waitable_event.cpp return.
use ffnetwork.Common.{
  ap, ℕ, ◌+◌, ◌-◌, ◌≤◌, ◌<◌, ◌^◌, ◌&&◌, not, leb, map, Option, arith, Bool-cases, inl, inr, ◌∙◌,
  ◌≡◌, refl, Bool, true, false, ◌||◌, List, [], ◌∷◌, ◌++◌, none, some, ok, if◌then◌else◌, All,
}
use ffnetwork.Common.Int.{pos, ltb_ℤ, ◌-ℤ◌}
use ffnetwork.Time.{TimeDelta, TimePoint, point_diff, delta_sub, delta_ge}
use ffnetwork.WaitableEvent.{Wakeup, Waited, wait, wait_loop, wait_with_timeout}

-- The event was signalled before the wait or at one of the wake-ups.
abbrev pub any_signal : List Wakeup → Bool → Bool
any_signal [] s = s
any_signal (u ∷ us) s = s || any_signal us u.signaled

-- `Wait` returns exactly if the event is signalled at its start or at a wake-up, and then resets
-- it; other wake-ups do not end it.
pub wait_lem :
    (us : List Wakeup) (s : Bool) → wait us s ≡ (if any_signal us s then some false else none)
unfolding wait
wait_lem [] true = refl
wait_lem [] false = refl
wait_lem (u ∷ us) true = refl
wait_lem (u ∷ us) false = wait_lem us u.signaled

-- A time of the clock that is not negative and fits.
abbrev pub at_time : ℕ → TimePoint
at_time n = record { ticks = pos n }

-- A wake-up with the condition variable's result, the flag, and the time of the clock.
pub record TimedWakeup : Type 0 where
  pub timed_out : Bool
  pub signaled : Bool
  pub time : ℕ

abbrev pub wakeup : TimedWakeup → Wakeup
wakeup u = record { timed_out = u.timed_out; signaled = u.signaled; now = at_time u.time }

-- The clock does not run backwards behind the start, and its times fit.
abbrev pub Clock : ℕ → List TimedWakeup → Type 0
Clock start us = All (λ u. (start ≤ u.time) × (u.time < 2 ^ 63)) us

-- Whether a wake-up ends the wait: a timeout of the condition variable, a signal, or a time at which
-- the timeout is over.
abbrev pub ends_wait : ℕ → ℕ → TimedWakeup → Bool
ends_wait start timeout u = u.timed_out || (u.signaled || leb (start + timeout) u.time)

-- The first wake-up that ends the wait, if one does.
abbrev pub first_end : ℕ → ℕ → List TimedWakeup → Option TimedWakeup
first_end start timeout [] = none
first_end start timeout (u ∷ us) =
    if ends_wait start timeout u then some u else first_end start timeout us

-- A wait that ended by a signal resets the event and is no timeout; any other leaves the flag.
abbrev pub outcome_of : Option TimedWakeup → Option Waited
outcome_of none = none
outcome_of (some u) = some (
    if not u.timed_out && u.signaled
    then record { is_timeout = false; signaled = false }
    else record { is_timeout = true; signaled = u.signaled })

forward : (n s : ℕ) → s ≤ n → ltb_ℤ (pos n) (pos s) ≡ false
forward n s le = ground arith

elapsed :
    (n s : ℕ)
    → s ≤ n
    → n < 2 ^ 63
    → point_diff (at_time n) (at_time s) ≡ ok (record { delta = pos (n - s) })
unfolding point_diff ◌-ℤ◌
elapsed n s le small = ground arith

left_time :
    (timeout n : ℕ)
    → timeout < 2 ^ 63
    → n < 2 ^ 63
    → (d : TimeDelta) × (delta_sub (record { delta = pos timeout }) (record { delta = pos n })
        ≡ ok d)
unfolding delta_sub ◌-ℤ◌
left_time timeout n fits small = (record { delta = pos timeout -ℤ pos n }, ground arith)

is_over :
    (n s timeout : ℕ)
    → s ≤ n
    → delta_ge (record { delta = pos (n - s) }) (record { delta = pos timeout })
      ≡ leb (s + timeout) n
is_over n s timeout le = ground arith

-- The first rounds of the loop that do not end it, and the one that does.
wait_loop-first_end :
    (timeout start : ℕ) (us : List TimedWakeup)
    → timeout < 2 ^ 63
    → Clock start us
    → wait_loop (record { delta = pos timeout }) (at_time start) (map wakeup us)
      ≡ ok (outcome_of (first_end start timeout us))
unfolding wait_loop
wait_loop-first_end timeout start [] fits clock = refl
wait_loop-first_end timeout start (u ∷ us) fits clock =
    let (start_first, small) = clock.0 in
    let (d, rest_time) = left_time timeout (u.time - start) fits (omega (arith, small)) in
    let rest = wait_loop-first_end timeout start us fits clock.1 in
    elim (Bool-cases u.timed_out) [
      | inl late ↦ rw late refl
      | inr early ↦ elim (Bool-cases u.signaled) [
        | inl signal ↦ rw (early, signal) refl
        | inr silent ↦
            let over = is_over u.time start timeout start_first in
            let round : wait_loop (record { delta = pos timeout }) (at_time start)
                  (wakeup u ∷ map wakeup us)
                ≡ (if leb (start + timeout) u.time
                    then ok (some (record { is_timeout = true; signaled = false }))
                    else wait_loop (record { delta = pos timeout }) (at_time start)
                        (map wakeup us)) =
              rw (
                early,
                silent,
                forward u.time start start_first,
                elapsed u.time start start_first small,
                rest_time,
                over,
              ) in
            elim (Bool-cases (leb (start + timeout) u.time)) [
              | inl ended ↦ round ∙ rw (early, silent, ended) refl
              | inr waits ↦ round ∙ rw (early, silent, waits) rest
            ]
      ]
    ]

first_end_there :
    (start timeout : ℕ) (before after : List TimedWakeup) (u : TimedWakeup)
    → ends_wait start timeout u ≡ true
    → (v : TimedWakeup) × (first_end start timeout (before ++ u ∷ after) ≡ some v)
first_end_there start timeout [] after u h = (u, rw h)
first_end_there start timeout (x ∷ before) after u h =
    elim (Bool-cases (ends_wait start timeout x)) [
      | inl ends ↦ (x, rw ends)
      | inr goes ↦ let (v, e) = first_end_there start timeout before after u h in (v, rw goes e)
    ]

over_ends :
    (start timeout : ℕ) (u : TimedWakeup)
    → start + timeout ≤ u.time
    → ends_wait start timeout u ≡ true
over_ends start timeout u h = ground arith

-- With times that do not run backwards behind the start and fit: `WaitWithTimeout` of a signalled event
-- resets it and returns false. Of another event it returns at the first wake-up at which the condition
-- variable timed out, the event is signalled or the timeout is over, and waits on if there is none:
-- false, with the event reset, if it was a signal without a timeout of the condition variable, else
-- true, with the event as it is. So it has returned when there was a wake-up after the timeout.
pub wait_with_timeout_lem :
    (timeout start : ℕ) (signaled : Bool) (us : List TimedWakeup)
    → timeout < 2 ^ 63
    → Clock start us
    → (wait_with_timeout (record { delta = pos timeout }) (at_time start) signaled (map wakeup us)
        ≡ ok (
            if signaled
            then some (record { is_timeout = false; signaled = false })
            else outcome_of (first_end start timeout us)))
      × ((before after : List TimedWakeup) (u : TimedWakeup)
          → us ≡ before ++ u ∷ after
          → start + timeout ≤ u.time
          → (r : Waited) × (wait_with_timeout
                (record { delta = pos timeout })
                (at_time start)
                signaled
                (map wakeup us)
              ≡ ok (some r)))
unfolding wait_with_timeout
wait_with_timeout_lem timeout start true us fits clock =
    (refl, λ before after u split over. (_, refl))
wait_with_timeout_lem timeout start false us fits clock =
    let main = wait_loop-first_end timeout start us fits clock in
    (
      main,
      λ before after u split over.
          let (v, e) =
            first_end_there start timeout before after u (over_ends start timeout u over) in
          let found : first_end start timeout us ≡ some v =
            ap (λ l. first_end start timeout l) split ∙ e in
          (_, main ∙ ap (λ o. ok (outcome_of o)) found),
    )
