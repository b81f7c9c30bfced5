-- ===== src/MessageLoop/Linux/Rounds.antt =====
-- How long a run of message_loop_impl_linux.cpp lasts.
use ffnetwork.Common.{
  refl, ◌∙◌, ℕ, ◌+◌, ◌-◌, ◌<◌, ◌≤◌, ◌^◌, ◌≡◌, ap, ◌&&◌, true, false, not, ltb, List, [], ◌∷◌, ◌++◌,
  map, Outcome, ok, arith,
}
use ffnetwork.Common.Int.{ℤ, pos, ◌-ℤ◌, ltb_ℤ, sub_ℕ}
use ffnetwork.Time.{int64}
use ffnetwork.MessageLoop.{Loop}
use ffnetwork.MessageLoop.Linux.{Turn, RunState, round, run_rounds}

-- A wake-up by a signal, this long after the start.
abbrev pub quiet_turn : ℕ → Turn
quiet_turn elapsed = record {
  has_error = false;
  has_event = false;
  interrupted = true;
  is_timer = false;
  drained = false;
  now = record { ticks = pos 0 };
  elapsed = pos elapsed;
}

abbrev pub sum : List ℕ → ℕ
sum [] = 0
sum (n ∷ ns) = n + sum ns

module _ {C : Type 0} (effect : C → Loop C → Outcome (Loop C)) (id : ℕ) where
  abbrev pub running_state : Loop C → ℕ → RunState C
  running_state w left = record { loop = w; left_milliseconds = pos left; running = true }

  reduced :
      (left e : ℕ) → left < 2 ^ 63 → e < left → int64 (pos left -ℤ pos e) ≡ ok (pos (left - e))
  unfolding ◌-ℤ◌
  reduced left e small more = ground arith

  used_up :
      (left e : ℕ)
      → left ≤ e
      → e < 2 ^ 63
      → (z : ℤ) × (int64 (pos left -ℤ pos e) ≡ ok z) × (ltb_ℤ (pos 0) z ≡ false)
  unfolding ◌-ℤ◌
  used_up left e less small = (sub_ℕ left e, ground arith, ground arith)

  round-eq :
      (w : Loop C) (left e : ℕ)
      → w.terminated ≡ false
      → left < 2 ^ 63
      → e < left
      → round effect id (quiet_turn e) (running_state w left) ≡ ok (running_state w (left - e))
  unfolding round
  round-eq w left e live small more =
      let positive : ltb 0 (left - e) ≡ true = ground arith in
      rw (reduced left e small more) (
        ap (λ r. ok (record { loop = w; left_milliseconds = pos (left - e); running = r }))
          (ground (arith, live, positive)))

  round-ends :
      (w : Loop C) (left e : ℕ)
      → left ≤ e
      → e < 2 ^ 63
      → (s : RunState C) × (round effect id (quiet_turn e) (running_state w left) ≡ ok s)
        × (s.running ≡ false)
        × (s.loop ≡ w)
  unfolding round
  round-ends w left e less small =
      let (z, value, over) = used_up left e less small in
      (
        record { loop = w; left_milliseconds = z; running = ltb_ℤ (pos 0) z && not w.terminated },
        rw value,
        ground (arith, over),
        refl,
      )

  -- A run that is woken by signals only goes on after the wake-ups `es` as long as the sum of the times
  -- since its start, at each of them, is below its duration, with the difference as what is left;
  -- and it ends with the next one if the sum with it reaches the duration, with the loop as it was.
  pub rounds_end :
      (w : Loop C) (duration : ℕ) (es : List ℕ) (e : ℕ)
      → w.terminated ≡ false
      → duration < 2 ^ 63
      → e < 2 ^ 63
      → sum es < duration
      → duration ≤ sum es + e
      → (run_rounds effect id (map quiet_turn es) (running_state w duration)
          ≡ ok (running_state w (duration - sum es)))
        × ((s : RunState C) × (run_rounds effect id
                (map quiet_turn (es ++ e ∷ []))
                (running_state w duration)
              ≡ ok s)
            × (s.running ≡ false)
            × (s.loop ≡ w))
  unfolding run_rounds
  rounds_end w duration [] e live small fits below reached =
      let (s, last, over, same) = round-ends w duration e (omega arith) fits in
      let whole : duration ≡ duration - 0 = omega arith in
      (ap (λ n. ok (running_state w n)) whole, (s, rw last, over, same))
  rounds_end w duration (d ∷ es) e live small fits below reached =
      let first = round-eq w duration d live small (omega arith) in
      let (on, (s, others, over, same)) =
        rounds_end w (duration - d) es e live (omega arith) fits (omega arith) (omega arith) in
      let left : duration - d - sum es ≡ duration - (d + sum es) = omega arith in
      (rw first (on ∙ ap (λ n. ok (running_state w n)) left), (s, rw first others, over, same))
