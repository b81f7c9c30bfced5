-- ===== src/MessageLoop/Flushing.antt =====
-- What a flush runs, and what is left of the queue when a loop has run
-- (source/base/messageloop/message_loop_impl.cpp).
use mathlib.Core.List.{append_assoc, append-nil}
use ffnetwork.Common.{
  if◌then◌else◌, ℕ, ◌≡◌, refl, sym, ap, ◌∙◌, Bool, false, List, [], ◌∷◌, ◌++◌, map, some, Outcome,
  ok,
}
use ffnetwork.Common.Maps.{number_key, lookup}
use ffnetwork.Time.{TimePoint}
use ffnetwork.TaskQueues.{TaskQueues, TaskQueueEntry, key_of, put_entry, get_observers_to_notify}
use ffnetwork.TaskQueues.Access.{lookup-put_entry, lock-put_entry}
use ffnetwork.TaskQueues.Flush.{with_tasks, due, later, due_wakes}
use ffnetwork.TaskQueues.Live.{live_queue}
use ffnetwork.TaskQueues.Flush.Due.{get_tasks_to_run_now-eq}
use ffnetwork.MessageLoop.{
  Loop, invoke, invoke_all, run_invocations, flush_tasks, run_expired_tasks_now,
}

pub if_false {ℓ} : {A : Type ℓ} (b : Bool) (x y : A) → b ≡ false → (if b then x else y) ≡ y
if_false b x y h = rw h

module _ {C : Type 0} where
  -- The queue `id` is there, and these observers listen to it.
  pub record Observed (id : ℕ) (os : List C) (q : TaskQueues C) : Type 0 where
    pub entry : TaskQueueEntry C
    pub lock : lookup (key_of id) q.queue_locks ≡ some tt
    pub there : lookup (key_of id) q.queue_entries ≡ some entry
    pub listening : map (λ o. o.1) entry.task_observers ≡ os

  -- Closures that return and leave the queue and its observers, and run no other closure of the
  -- loop themselves; they can post tasks.
  abbrev pub Steady : ℕ → List C → (C → Loop C → Outcome (Loop C)) → Type 0
  Steady id os effect =
      (c : C) (w : Loop C)
      → Observed id os w.queues
      → (w' : Loop C) × (effect c w ≡ ok w') × Observed id os w'.queues × (w'.log ≡ w.log)

  -- The observers after each task.
  unfoldable pub with_observers : List C → List C → List C
  with_observers os [] = []
  with_observers os (c ∷ cs) = c ∷ (os ++ with_observers os cs)

  -- A run of closures: it returned, and these ran.
  abbrev pub Ran : ℕ → List C → List C → Loop C → Outcome (Loop C) → Type 0
  Ran id os cs w r = (w' : Loop C) × (r ≡ ok w') × Observed id os w'.queues × (w'.log ≡ w.log ++ cs)

  module _ (id : ℕ) (os : List C) (effect : C → Loop C → Outcome (Loop C))
      (steady : Steady id os effect) where
    invoke_all-Ran :
        (cs : List C) (w : Loop C)
        → Observed id os w.queues
        → Ran id os cs w (invoke_all effect cs w)
    unfolding invoke_all invoke
    invoke_all-Ran [] w h = (w, refl, h, sym (append-nil w.log))
    invoke_all-Ran (c ∷ cs) w h =
        let (w1, step, h1, log1) = steady c (record w { log = w.log ++ c ∷ [] }) h in
        let (w2, steps, h2, log2) = invoke_all-Ran cs w1 h1 in
        (w2, rw (step, steps), h2, log2 ∙ ap (λ l. l ++ cs) log1 ∙ append_assoc w.log (c ∷ []) cs)

    observers-eq : (q : TaskQueues C) → Observed id os q → get_observers_to_notify q id ≡ ok os
    observers-eq q h =
        let queries = live_queue q id h.lock h.entry h.there in queries.2 ∙ ap ok h.listening

    run_invocations-Ran :
        (cs : List C) (w : Loop C)
        → Observed id os w.queues
        → Ran id os (with_observers os cs) w (run_invocations effect id cs w)
    unfolding run_invocations invoke with_observers
    run_invocations-Ran [] w h = (w, refl, h, sym (append-nil w.log))
    run_invocations-Ran (c ∷ cs) w h =
        let (w1, step, h1, log1) = steady c (record w { log = w.log ++ c ∷ [] }) h in
        let (w2, notified, h2, log2) = invoke_all-Ran os w1 h1 in
        let (w3, steps, h3, log3) = run_invocations-Ran cs w2 h2 in
        (
          w3,
          rw (step, observers-eq w1.queues h1, notified, steps),
          h3,
          log3
              ∙ ap (λ l. l ++ with_observers os cs) (log2 ∙ ap (λ l. l ++ os) log1)
              ∙ append_assoc (w.log ++ c ∷ []) os (with_observers os cs)
              ∙ append_assoc w.log (c ∷ []) (os ++ with_observers os cs),
        )

    -- With closures that return and leave the queue and its observers, `RunExpiredTasksNow` runs
    -- the tasks up to the first that is not due, in the order of the queue, each followed by all
    -- observers. Tasks that these post do not run.
    pub run_expired_tasks_now-Ran :
        (now : TimePoint) (w : Loop C) (h : Observed id os w.queues)
        → Ran id os
            (with_observers os (map (λ t. t.task) (due now h.entry.delayed_tasks)))
            w
            (run_expired_tasks_now effect id now w)
    unfolding run_expired_tasks_now flush_tasks
    run_expired_tasks_now-Ran now w h =
        let e = with_tasks h.entry (later now h.entry.delayed_tasks) in
        let flushed = get_tasks_to_run_now-eq w.queues id h.entry now h.lock h.there in
        let start : Loop C = record w {
          queues = put_entry w.queues id e;
          wakes = w.wakes ++ due_wakes h.entry.wakeable now h.entry.delayed_tasks;
        } in
        let kept : Observed id os start.queues = record {
          entry = e;
          lock = lock-put_entry w.queues id e h.lock;
          there = lookup-put_entry w.queues id e;
          listening = h.listening;
        } in
        let (w', runs, h', log) =
          run_invocations-Ran (map (λ t. t.task) (due now h.entry.delayed_tasks)) start kept in
        (w', rw (flushed, runs), h', log)
