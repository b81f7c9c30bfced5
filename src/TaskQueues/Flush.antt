-- ===== src/TaskQueues/Flush.antt =====
-- `GetTasksToRunNow` of message_loop_task_queues.cpp: its loop against a description by lists.
pub mod Due
use mathlib.Core.List.{append_assoc, append-nil}
use ffnetwork.Common.{
  ℕ, zero, suc, ◌+◌, ◌<◌, ◌≡◌, refl, sym, ◌∙◌, ap, Bool, true, false, if◌then◌else◌, List, [], ◌∷◌,
  ◌++◌, map, Option, none, some, arith, Bool-cases, inl, inr, ok, length, All,
}
use ffnetwork.Common.Maps.{
  number_key, lookup, insert, insert-insert, insert-lookup, lookup-insert_self,
}
use ffnetwork.Time.{TimePoint, point_gt, point_max}
use ffnetwork.DelayedTask.{DelayedTask, greater_than}
use ffnetwork.DelayedTask.Sorted.{IsSorted}
use ffnetwork.TaskQueues.Access.{put_entry-put_entry, wake, lookup-put_entry}
use ffnetwork.TaskQueues.{
  TaskQueues, TaskQueueEntry, FlushType, single, all, Flushed, Wake, key_of, flush_round,
  flush_loop, put_entry, get_tasks_to_run_now, rounds, get_mutex, has_pending_tasks_unlocked,
  entry_at,
}

module _ {C : Type 0} where
  -- The tasks up to the first that is not due at `now`, and the rest.
  unfoldable pub due : TimePoint → List (DelayedTask C) → List (DelayedTask C)
  due now [] = []
  due now (x ∷ q) = if point_gt x.target_time now then [] else x ∷ due now q

  unfoldable pub later : TimePoint → List (DelayedTask C) → List (DelayedTask C)
  later now [] = []
  later now (x ∷ q) = if point_gt x.target_time now then x ∷ q else later now q

  -- When the loop has to wake up for these tasks.
  abbrev pub wake_time : List (DelayedTask C) → TimePoint
  wake_time [] = point_max
  wake_time (x ∷ q) = x.target_time

  -- A wake-up for what is left after each task that is taken.
  pub due_wakes : Option ℕ → TimePoint → List (DelayedTask C) → List Wake
  due_wakes w now [] = []
  due_wakes w now (x ∷ q) =
      if point_gt x.target_time now then [] else wake w (wake_time q) ++ due_wakes w now q

  abbrev pub with_tasks : TaskQueueEntry C → List (DelayedTask C) → TaskQueueEntry C
  with_tasks e ts = record e { delayed_tasks = ts }

  module _ (q : TaskQueues C) (id : ℕ) (e : TaskQueueEntry C) (now : TimePoint) (inv : List C)
      (ws : List Wake) (there : lookup (key_of id) q.queue_entries ≡ some e) where
    round_empty :
        (type : FlushType)
        → e.delayed_tasks ≡ []
        → flush_round q id type now inv ws
          ≡ ok (record { queues = q; invocations = inv; wakes = ws }, false)
    unfolding flush_round
    round_empty type h = ground arith

    round_later :
        (type : FlushType) (x : DelayedTask C) (r : List (DelayedTask C))
        → e.delayed_tasks ≡ x ∷ r
        → point_gt x.target_time now ≡ true
        → flush_round q id type now inv ws
          ≡ ok (record { queues = q; invocations = inv; wakes = ws }, false)
    unfolding flush_round
    round_later type x r h g = ground arith

    round_single :
        (x : DelayedTask C) (r : List (DelayedTask C))
        → e.delayed_tasks ≡ x ∷ r
        → point_gt x.target_time now ≡ false
        → flush_round q id single now inv ws
          ≡ ok (
            record {
              queues = put_entry q id (with_tasks e r);
              invocations = inv ++ x.task ∷ [];
              wakes = ws;
            },
            false,
          )
    unfolding flush_round
    round_single x r h g = ground arith

    round_all :
        (x : DelayedTask C) (r : List (DelayedTask C))
        → e.delayed_tasks ≡ x ∷ r
        → point_gt x.target_time now ≡ false
        → flush_round q id all now inv ws
          ≡ ok (
            record {
              queues = put_entry q id (with_tasks e r);
              invocations = inv ++ x.task ∷ [];
              wakes = ws ++ wake e.wakeable (wake_time r);
            },
            true,
          )
    unfolding flush_round
    round_all x r h g =
        ground (arith, lookup-insert_self (key_of id) (with_tasks e r) q.queue_entries)

  put_entry_same :
      (q : TaskQueues C) (id : ℕ) (e : TaskQueueEntry C) (ts : List (DelayedTask C))
      → lookup (key_of id) q.queue_entries ≡ some e
      → e.delayed_tasks ≡ ts
      → put_entry q id (with_tasks e ts) ≡ q
  unfolding put_entry
  put_entry_same q id e ts there tasks =
      rw (← tasks) (rw (insert-lookup (key_of id) e q.queue_entries there))

  flush_loop-eq :
      (fuel : ℕ) (ts : List (DelayedTask C)) (q : TaskQueues C) (id : ℕ) (e : TaskQueueEntry C)
      (now : TimePoint) (inv : List C) (ws : List Wake)
      → length ts < fuel
      → lookup (key_of id) q.queue_entries ≡ some e
      → e.delayed_tasks ≡ ts
      → flush_loop fuel q id all now inv ws
        ≡ ok (record {
          queues = put_entry q id (with_tasks e (later now ts));
          invocations = inv ++ map (λ t. t.task) (due now ts);
          wakes = ws ++ due_wakes e.wakeable now ts;
        })
  unfolding flush_loop due later due_wakes
  flush_loop-eq zero ts q id e now inv ws h there tasks = absurd (omega arith)
  flush_loop-eq (suc fuel) [] q id e now inv ws h there tasks = rw (
    round_empty q id e now inv ws there all tasks,
    append-nil inv,
    append-nil ws,
    put_entry_same q id e [] there tasks,
  )
  flush_loop-eq (suc fuel) (x ∷ r) q id e now inv ws h there tasks =
      elim (Bool-cases (point_gt x.target_time now)) [
        | inl g ↦ rw (
          round_later q id e now inv ws there all x r tasks g,
          g,
          append-nil inv,
          append-nil ws,
          put_entry_same q id e (x ∷ r) there tasks,
        )
        | inr g ↦ rw (
          round_all q id e now inv ws there x r tasks g,
          g,
          flush_loop-eq fuel r (put_entry q id (with_tasks e r)) id (with_tasks e r) now
              (inv ++ x.task ∷ []) (ws ++ wake e.wakeable (wake_time r)) (omega arith)
              (lookup-put_entry q id (with_tasks e r)) refl,
          put_entry-put_entry q id (with_tasks e r) (with_tasks e (later now r)),
          append_assoc,
          append_assoc,
        )
      ]
