-- ===== src/MessageLoop/Ending.antt =====
-- How a loop ends that is told to by a task, as `Thread::Join` does (source/base/thread/thread.cpp,
-- source/base/messageloop/message_loop_impl.cpp and message_loop_impl_linux.cpp).
use ffnetwork.Common.{
  ℕ, ◌+◌, ◌^◌, ◌<◌, ◌≡◌, refl, sym, ap, ◌∙◌, Bool, true, false, not, ◌&&◌, List, [], ◌∷◌, ◌++◌, map,
  Outcome, Outcome-cases, ok, ◌>>=◌, inl, inr, arith, length,
}
use mathlib.Core.List.{map-append, append_assoc}
use ffnetwork.Common.Int.{ℤ, pos, ◌-ℤ◌, ltb_ℤ}
use ffnetwork.Time.{int64}
use ffnetwork.TaskQueues.{put_entry, get_observers_to_notify}
use ffnetwork.TaskQueues.Flush.{with_tasks, later, due, due_wakes}
use ffnetwork.TaskQueues.Flush.Due.{get_tasks_to_run_now-eq}
use ffnetwork.MessageLoop.{
  Loop, invoke, invoke_all, run_invocations, flush_tasks, run_expired_tasks_now,
}
use ffnetwork.MessageLoop.Flushing.{Steady, with_observers, run_expired_tasks_now-Ran}
use ffnetwork.MessageLoop.Posting.{at_time, Clock, Waiting, post_all, post_all-Waiting, due-all}
use ffnetwork.MessageLoop.Linux.{Turn, RunState, round, on_event_fired}

never : (b c : Bool) → c ≡ true → (b && not c) ≡ false
never b c h = ground arith

module _ {C : Type 0} (stop : C) (effect : C → Loop C → Outcome (Loop C)) where
  -- The closure `stop` terminates the loop when it returns, and none brings it back.
  abbrev pub Ends : Type 0
  Ends =
      (c : C) (w w' : Loop C)
      → effect c w ≡ ok w'
      → (c ≡ stop → w'.terminated ≡ true) × (w.terminated ≡ true → w'.terminated ≡ true)

  module _ (ends : Ends) (id : ℕ) where
    invoke_all-terminated :
        (cs : List C) (w w' : Loop C)
        → w.terminated ≡ true
        → invoke_all effect cs w ≡ ok w'
        → w'.terminated ≡ true
    unfolding invoke_all invoke
    invoke_all-terminated [] w w' off h = ground arith
    invoke_all-terminated (c ∷ cs) w w' off h =
        elim (Outcome-cases (effect c (record w { log = w.log ++ c ∷ [] }))) [
          | inl (w1, e) ↦ invoke_all-terminated cs w1 w' ((ends c _ w1 e).1 off) (ground arith)
          | inr (f, e) ↦ absurd (ground arith)
        ]

    -- A round of the loop of `FlushTasks`, when it returned.
    round_of :
        (c : C) (cs : List C) (w w' : Loop C)
        → run_invocations effect id (c ∷ cs) w ≡ ok w'
        → (w1 w2 : Loop C) × (os : List C) × (effect c (record w { log = w.log ++ c ∷ [] }) ≡ ok w1)
          × (invoke_all effect os w1 ≡ ok w2)
          × (run_invocations effect id cs w2 ≡ ok w')
    unfolding run_invocations invoke
    round_of c cs w w' h = elim (Outcome-cases (effect c (record w { log = w.log ++ c ∷ [] }))) [
      | inr (f, e) ↦ absurd (ground arith)
      | inl (w1, e) ↦ elim (Outcome-cases (get_observers_to_notify w1.queues id)) [
        | inr (f, e1) ↦ absurd (ground arith)
        | inl (os, e1) ↦ elim (Outcome-cases (invoke_all effect os w1)) [
          | inr (f, e2) ↦ absurd (ground arith)
          | inl (w2, e2) ↦ (w1, w2, os, e, e2, ground arith)
        ]
      ]
    ]

    run_invocations-terminated :
        (cs : List C) (w w' : Loop C)
        → w.terminated ≡ true
        → run_invocations effect id cs w ≡ ok w'
        → w'.terminated ≡ true
    unfolding run_invocations
    run_invocations-terminated [] w w' off h = ground arith
    run_invocations-terminated (c ∷ cs) w w' off h =
        let (w1, w2, os, e, e2, rest) = round_of c cs w w' h in
        run_invocations-terminated cs w2 w'
          (invoke_all-terminated os w1 w2 ((ends c _ w1 e).1 off) e2) rest

    run_invocations-stop :
        (cs ds : List C) (w w' : Loop C)
        → run_invocations effect id (cs ++ stop ∷ ds) w ≡ ok w'
        → w'.terminated ≡ true
    run_invocations-stop [] ds w w' h =
        let (w1, w2, os, e, e2, rest) = round_of stop ds w w' h in
        run_invocations-terminated ds w2 w'
          (invoke_all-terminated os w1 w2 ((ends stop _ w1 e).0 refl) e2) rest
    run_invocations-stop (c ∷ cs) ds w w' h =
        let (w1, w2, os, e, e2, rest) = round_of c (cs ++ stop ∷ ds) w w' h in
        run_invocations-stop cs ds w2 w' rest

    flush_terminates :
        (os : List C) (n : ℕ) (w w' : Loop C) (v : Waiting id os n w) (cs : List C)
        → map (λ t. t.task) v.seen.entry.delayed_tasks ≡ cs ++ stop ∷ []
        → run_expired_tasks_now effect id (at_time n) w ≡ ok w'
        → w'.terminated ≡ true
    unfolding run_expired_tasks_now flush_tasks
    flush_terminates os n w w' v cs tasks h =
        let e = v.seen.entry in
        let flushed = get_tasks_to_run_now-eq w.queues id e (at_time n) v.seen.lock v.seen.there in
        let invocations : map (λ t. t.task) (due (at_time n) e.delayed_tasks) ≡ cs ++ stop ∷ [] =
          ap (map (λ t. t.task)) (due-all n e.delayed_tasks v.in_time) ∙ tasks in
        let start : Loop C = record w {
          queues = put_entry w.queues id (with_tasks e (later (at_time n) e.delayed_tasks));
          wakes = w.wakes ++ due_wakes e.wakeable (at_time n) e.delayed_tasks;
        } in
        let ran =
          sym (
            ap
              (λ o. do
                f ← o
                run_invocations effect id f.invocations
                    (record w { queues = f.queues; wakes = w.wakes ++ f.wakes }))
              flushed)
          ∙ h in
        run_invocations-stop cs [] start w'
          (sym (ap (λ l. run_invocations effect id l start) invocations) ∙ ran)

    -- A round of the loop in which the timer fires.
    fires :
        (t : Turn) (l left : ℤ) (w w' : Loop C)
        → t.has_error ≡ false
        → t.has_event ≡ true
        → t.is_timer ≡ true
        → t.drained ≡ true
        → int64 (l -ℤ t.elapsed) ≡ ok left
        → run_expired_tasks_now effect id t.now w ≡ ok w'
        → w'.terminated ≡ true
        → (s : RunState C) × (round effect id t
              (record { loop = w; left_milliseconds = l; running = true })
            ≡ ok s)
          × (s.running ≡ false)
          × (s.loop ≡ w')
    unfolding round on_event_fired
    fires t l left w w' fine event timer drained fits ran off =
        let stopped = λ (b : Bool).
          ap {B = Outcome (RunState C)}
            (λ r. ok (record { loop = w'; left_milliseconds = left; running = r }))
            (never b w'.terminated off) in
        (
          record { loop = w'; left_milliseconds = left; running = false },
          rw (fine, event, timer, drained, ran, fits) (stopped (ltb_ℤ (pos 0) left)),
          refl,
          refl,
        )

    -- Tasks that are posted for now to a loop that is not terminated, waits in epoll_wait and
    -- has no pending task but such that are due already and were registered before, and after
    -- them the closure that terminates it, all run when the timer fires: the pending ones, then
    -- these, in the order of their posting, each followed by all observers. Then the loop is
    -- terminated and its run is over, however much time it has left. Its queue is there, the
    -- clock does not run backwards, its times are not negative and fit int64_t, the closures
    -- return, leave the queue and its observers and run no other closure themselves, none brings
    -- a terminated loop back, and nothing wraps around or overflows.
    pub join_ends_loop :
        (os : List C) (low now : ℕ) (ps : List (C × ℕ)) (n : ℕ) (w : Loop C) (t : Turn) (l left : ℤ)
        → Steady id os effect
        → (v : Waiting id os low w) → Clock low (ps ++ (stop, n) ∷ []) now
        → w.queues.order + length (ps ++ (stop, n) ∷ []) < 2 ^ 32
        → t.now ≡ at_time now
        → t.has_error ≡ false
        → t.has_event ≡ true
        → t.is_timer ≡ true
        → t.drained ≡ true
        → int64 (l -ℤ t.elapsed) ≡ ok left
        → (w1 : Loop C) × (s : RunState C) × (post_all id (ps ++ (stop, n) ∷ []) w ≡ ok w1)
          × (round effect id t (record { loop = w1; left_milliseconds = l; running = true }) ≡ ok s)
          × (s.running ≡ false)
          × (s.loop.terminated ≡ true)
          × (s.loop.log
              ≡ w.log
                ++ with_observers os (
                    map (λ t. t.task) v.seen.entry.delayed_tasks
                    ++ (map (λ p. p.0) ps ++ stop ∷ [])))
    join_ends_loop os low now ps n w t l left steady v clock fresh time fine event timer drained
          fits =
        let (w1, posted, v1, tasks, log1) =
          post_all-Waiting id os low now (ps ++ (stop, n) ∷ []) w v clock fresh in
        let queue =
          tasks
          ∙ ap (λ l. map (λ t. t.task) v.seen.entry.delayed_tasks ++ l)
              (map-append (λ p. p.0) ps ((stop, n) ∷ [])) in
        let (w2, ran, seen, log2) =
          run_expired_tasks_now-Ran id os effect steady (at_time now) w1 v1.seen in
        let off =
          flush_terminates os now w1 w2 v1
            (map (λ t. t.task) v.seen.entry.delayed_tasks ++ map (λ p. p.0) ps)
            (queue
              ∙ sym (
                  append_assoc (map (λ t. t.task) v.seen.entry.delayed_tasks) (map (λ p. p.0) ps)
                    (stop ∷ [])))
            ran in
        let (s, turned, over, same) =
          fires t l left w1 w2 fine event timer drained fits
            (ap (λ k. run_expired_tasks_now effect id k w1) time ∙ ran) off in
        (
          w1,
          s,
          posted,
          turned,
          over,
          ap (λ x. x.terminated) same ∙ off,
          ap (λ x. x.log) same
              ∙ log2
              ∙ ap (λ k. w1.log ++ with_observers os (map (λ t. t.task) k))
                  (due-all now v1.seen.entry.delayed_tasks v1.in_time)
              ∙ ap (λ k. w1.log ++ with_observers os k) queue
              ∙ ap
                  (λ k.
                    k
                    ++ with_observers os (
                        map (λ t. t.task) v.seen.entry.delayed_tasks
                        ++ (map (λ p. p.0) ps ++ stop ∷ [])))
                  log1,
        )
