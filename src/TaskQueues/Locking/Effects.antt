-- ===== src/TaskQueues/Locking/Effects.antt =====
-- What a call does to its entry is what the operations of message_loop_task_queues.cpp do.
use ffnetwork.Common.{
  ℕ, ◌-◌, ◌^◌, ◌<◌, ◌≡◌, refl, ap, ◌∙◌, List, [], ◌∷◌, some, ok, arith, All, All-append_right,
}
use ffnetwork.Common.Int.{pos, ◌-ℤ◌}
use ffnetwork.Common.Maps.{number_key, lookup}
use ffnetwork.Time.{TimePoint, TimeDelta, point_diff}
use ffnetwork.DelayedTask.{DelayedTask, push}
use ffnetwork.DelayedTask.Sorted.{All-push}
use ffnetwork.TaskQueues.{
  TaskQueues, TaskQueueEntry, key_of, put_entry, add_task_observer, remove_task_observer,
}
use ffnetwork.TaskQueues.Access.{get_mutex-eq-ok, entry_ref-eq-ok}
use ffnetwork.TaskQueues.Register.{register_task-eq, registered}
use ffnetwork.TaskQueues.Live.{dispose_tasks-eq}
use ffnetwork.TaskQueues.Flush.{due, later, wake_time}
use ffnetwork.TaskQueues.Flush.Due.{get_tasks_to_run_now-eq, due-append-later}
use ffnetwork.TaskQueues.Lifecycle.{step}
use ffnetwork.TaskQueues.Locking.{
  QueueCall, register, flush, clear, observe, forget, op_of, effect, handed, returned, count,
}

time_of : ℕ → TimePoint
time_of n = record { ticks = pos n }

-- Times of the clock that is not negative.
diff_fits :
    (k n : ℕ)
    → k < 2 ^ 63
    → n < 2 ^ 63
    → (d : TimeDelta) × (point_diff (record { ticks = pos k }) (record { ticks = pos n }) ≡ ok d)
unfolding point_diff ◌-ℤ◌
diff_fits k n a b = (record { delta = pos k -ℤ pos n }, ground arith)

module _ {C : Type 0} where
  -- The time of a task is not negative and fits.
  abbrev pub Timely : DelayedTask C → Type 0
  Timely t = (k : ℕ) × (t.target_time ≡ record { ticks = pos k }) × (k < 2 ^ 63)

  abbrev pub AllTimely : TaskQueueEntry C → Type 0
  AllTimely e = All Timely e.delayed_tasks

  -- The times of a registration are not negative and fit.
  abbrev pub InTime : QueueCall C → Type 0
  InTime (register c target now) = (target < 2 ^ 63) × (now < 2 ^ 63)
  InTime (flush now) = Unit
  InTime clear = Unit
  InTime (observe key c) = Unit
  InTime (forget key) = Unit

  All-later : (now : TimePoint) (q : List (DelayedTask C)) → All Timely q → All Timely (later now q)
  All-later now q a =
      All-append_right Timely (due now q) (later now q) (rw (due-append-later now q) a)

  pub effect-AllTimely :
      (call : QueueCall C) (n : ℕ) (e : TaskQueueEntry C)
      → InTime call
      → AllTimely e
      → AllTimely (effect call n e)
  unfolding effect
  effect-AllTimely (register c target now) n e fits a =
      All-push Timely _ e.delayed_tasks (target, refl, fits.0) a
  effect-AllTimely (flush now) n e fits a = All-later now e.delayed_tasks a
  effect-AllTimely clear n e fits a = tt
  effect-AllTimely (observe key c) n e fits a = a
  effect-AllTimely (forget key) n e fits a = a

  first_fits :
      (q : List (DelayedTask C)) (t : DelayedTask C) (now : ℕ)
      → All Timely (push t q)
      → now < 2 ^ 63
      → (d : TimeDelta) × (point_diff (wake_time (push t q)) (record { ticks = pos now }) ≡ ok d)
  first_fits q t now a b = go (push t q) a
    where
      go :
          (ts : List (DelayedTask C))
          → All Timely ts
          → (d : TimeDelta) × (point_diff (wake_time ts) (record { ticks = pos now }) ≡ ok d)
      go [] a = diff_fits (2 ^ 63 - 1) now (omega arith) b
      go (x ∷ ts) a =
          let (d, e) = diff_fits a.0.0 now a.0.2 b in
          (d, ap (λ p. point_diff p (record { ticks = pos now })) a.0.1 ∙ e)

  pub step-effect :
      (q : TaskQueues C) (id : ℕ) (call : QueueCall C) (e : TaskQueueEntry C)
      → lookup (key_of id) q.queue_locks ≡ some tt
      → lookup (key_of id) q.queue_entries ≡ some e
      → InTime call
      → AllTimely e
      → step q (op_of (id, call)) ≡ ok (put_entry (count call q) id (effect call q.order e))
  unfolding step effect add_task_observer remove_task_observer
  step-effect q id (register c target now) e lock there fits a =
      let t = registered q c (record { ticks = pos target }) in
      let (d, delay) =
        first_fits e.delayed_tasks t now
          (All-push Timely t e.delayed_tasks (target, refl, fits.0) a) fits.1 in
      rw (
        register_task-eq q id e c (record { ticks = pos target }) (record { ticks = pos now }) lock
          there delay)
  step-effect q id (flush now) e lock there fits a =
      rw (get_tasks_to_run_now-eq q id e now lock there)
  step-effect q id clear e lock there fits a = dispose_tasks-eq q id lock e there
  step-effect q id (observe key c) e lock there fits a =
      rw (get_mutex-eq-ok q id lock, entry_ref-eq-ok q id e there)
  step-effect q id (forget key) e lock there fits a =
      rw (get_mutex-eq-ok q id lock, entry_ref-eq-ok q id e there)

  pub returned-handed :
      (q : TaskQueues C) (id : ℕ) (call : QueueCall C) (e : TaskQueueEntry C)
      → lookup (key_of id) q.queue_locks ≡ some tt
      → lookup (key_of id) q.queue_entries ≡ some e
      → returned q (op_of (id, call)) ≡ ok (handed call e)
  unfolding returned handed
  returned-handed q id (register c target now) e lock there = refl
  returned-handed q id (flush now) e lock there = rw (get_tasks_to_run_now-eq q id e now lock there)
  returned-handed q id clear e lock there = refl
  returned-handed q id (observe key c) e lock there = refl
  returned-handed q id (forget key) e lock there = refl
