-- ===== src/MessageLoop/Posting.antt =====
-- Tasks posted one after another and the flush that follows
-- (source/base/messageloop/message_loop_impl.cpp, message_loop_task_queues.cpp, delayed_task.cpp).
use mathlib.Core.Path.{subst}
use mathlib.Core.List.{append_assoc, append-nil, map-append}
use ffnetwork.Common.{
  ℕ, ◌+◌, ◌^◌, ◌<◌, ◌≤◌, ◌≡◌, refl, sym, ap, ◌∙◌, false, List, [], ◌∷◌, ◌++◌, map, some, Outcome,
  ok, ◌>>=◌, arith, All, All-map, length,
}
use ffnetwork.Common.Int.{pos, ◌-ℤ◌}
use ffnetwork.Common.Maps.{number_key}
use ffnetwork.Time.{TimePoint, TimeDelta, point_gt, point_diff}
use ffnetwork.DelayedTask.{DelayedTask, push, greater_than}
use ffnetwork.TaskQueues.{put_entry, size_of_int}
use ffnetwork.TaskQueues.Access.{order-put_entry, lookup-put_entry, lock-put_entry, wake}
use ffnetwork.TaskQueues.Flush.{with_tasks, due, wake_time}
use ffnetwork.TaskQueues.Register.{registered, counted, register_task-eq, size_of_int_mono}
use ffnetwork.MessageLoop.{Loop, post_task, run_expired_tasks_now}
use ffnetwork.MessageLoop.Flushing.{
  Observed, Steady, with_observers, run_expired_tasks_now-Ran, if_false,
}

-- A time of the clock that is not negative.
abbrev pub at_time : ℕ → TimePoint
at_time n = record { ticks = pos n }

past_delay :
    (k n : ℕ) → k ≤ n → n < 2 ^ 63 → (d : TimeDelta) × (point_diff (at_time k) (at_time n) ≡ ok d)
unfolding point_diff ◌-ℤ◌
past_delay k n le small = (record { delta = pos k -ℤ pos n }, ground arith)

module _ {C : Type 0} where
  -- Every one of these tasks is due at `n`.
  abbrev pub DueBy : ℕ → List (DelayedTask C) → Type 0
  DueBy n = All (λ t. (k : ℕ) × (t.target_time ≡ at_time k) × (k ≤ n))

  -- `PostTask` of a task for now, one after another, with the time of each.
  unfoldable pub post_all : ℕ → List (C × ℕ) → Loop C → Outcome (Loop C)
  post_all id [] w = ok w
  post_all id ((c, n) ∷ ps) w = do
    w' ← post_task id (some c) (at_time n) (at_time n) w
    post_all id ps w'

  -- The clock does not run backwards: from `low` on the times rise to `now`.
  abbrev pub Clock : ℕ → List (C × ℕ) → ℕ → Type 0
  Clock low [] now = (low ≤ now) × (now < 2 ^ 63)
  Clock low ((c, n) ∷ ps) now = (low ≤ n) × (n < 2 ^ 63) × Clock n ps now

  push-last :
      (t : DelayedTask C) (q : List (DelayedTask C))
      → All (λ y. greater_than y t ≡ false) q
      → push t q ≡ q ++ t ∷ []
  unfolding push
  push-last t [] h = refl
  push-last t (x ∷ q) h = rw (h.0, push-last t q h.1)

  not_greater :
      (y t : DelayedTask C) (k n : ℕ)
      → y.target_time ≡ at_time k
      → t.target_time ≡ at_time n
      → k ≤ n
      → y.order < t.order
      → greater_than y t ≡ false
  unfolding greater_than
  not_greater y t k n e f le lt = ground arith

  All-both {κ λ'} :
      (P : DelayedTask C → Type κ) (Q : DelayedTask C → Type λ') (q : List (DelayedTask C))
      → All P q
      → All Q q
      → All (λ y. P y × Q y) q
  All-both P Q [] a b = tt
  All-both P Q (x ∷ q) a b = ((a.0, b.0), All-both P Q q a.1 b.1)

  All-snoc {κ} :
      (P : DelayedTask C → Type κ) (q : List (DelayedTask C)) (t : DelayedTask C)
      → All P q
      → P t
      → All P (q ++ t ∷ [])
  All-snoc P [] t a p = (p, tt)
  All-snoc P (x ∷ q) t a p = (a.0, All-snoc P q t a.1 p)

  -- The delay that a registration logs.
  first_delay :
      (q : List (DelayedTask C)) (t : DelayedTask C) (n : ℕ)
      → DueBy n q
      → t.target_time ≡ at_time n
      → n < 2 ^ 63
      → (d : TimeDelta) × (point_diff (wake_time (q ++ t ∷ [])) (at_time n) ≡ ok d)
  first_delay [] t n h e small =
      let (d, f) = past_delay n n (omega arith) small in
      (d, ap (λ p. point_diff p (at_time n)) e ∙ f)
  first_delay (x ∷ q) t n h e small =
      let (k, at, le) = h.0 in
      let (d, f) = past_delay k n le small in (d, ap (λ p. point_diff p (at_time n)) at ∙ f)

  pub due-all : (n : ℕ) (q : List (DelayedTask C)) → DueBy n q → due (at_time n) q ≡ q
  unfolding due
  due-all n [] h = refl
  due-all n (x ∷ q) h =
      let (k, at, le) = h.0 in
      let passed : point_gt x.target_time (at_time n) ≡ false =
        ap (λ p. point_gt p (at_time n)) at ∙ ground arith in
      rw (passed, due-all n q h.1)

  -- A loop that is not terminated, with tasks that are all due at `n` and were registered before.
  pub record Waiting (id : ℕ) (os : List C) (n : ℕ) (w : Loop C) : Type 0 where
    pub seen : Observed id os w.queues
    pub live : w.terminated ≡ false
    pub in_time : DueBy n seen.entry.delayed_tasks
    pub older : All (λ y. y.order < size_of_int w.queues.order) seen.entry.delayed_tasks

  post_task-Waiting :
      (id : ℕ) (os : List C) (low n : ℕ) (c : C) (w : Loop C) (v : Waiting id os low w)
      → low ≤ n
      → n < 2 ^ 63
      → w.queues.order + 1 < 2 ^ 32
      → (w' : Loop C) × (post_task id (some c) (at_time n) (at_time n) w ≡ ok w')
        × (v' : Waiting id os n w') × (v'.seen.entry.delayed_tasks
            ≡ v.seen.entry.delayed_tasks ++ registered w.queues c (at_time n) ∷ [])
        × (w'.log ≡ w.log)
        × (w'.queues.order ≡ w.queues.order + 1)
  unfolding post_task
  post_task-Waiting id os low n c w v rises small fresh =
      let e = v.seen.entry in
      let ts = e.delayed_tasks in
      let t = registered w.queues c (at_time n) in
      let in_time : DueBy n ts =
        All-map (λ t. (k : ℕ) × (t.target_time ≡ at_time k) × (k ≤ low)) _ ts
          (λ y h. (h.0, h.1, omega (arith, h.2))) v.in_time in
      let last : push t ts ≡ ts ++ t ∷ [] = push-last t ts (
        All-map _ (λ y. greater_than y t ≡ false) ts
          (λ y h. not_greater y t h.0.0 n h.0.1 refl h.0.2 h.1)
          (All-both _ _ ts in_time v.older)) in
      let (d, delay) = first_delay ts t n in_time refl small in
      let e' = with_tasks e (push t ts) in
      let q' = put_entry (counted w.queues) id e' in
      let posted =
        register_task-eq w.queues id e c (at_time n) (at_time n) v.seen.lock v.seen.there
          (ap (λ l. point_diff (wake_time l) (at_time n)) last ∙ delay) in
      let next : q'.order ≡ w.queues.order + 1 =
        order-put_entry (counted w.queues) id e' ∙ omega arith in
      let grows = size_of_int_mono w.queues.order (w.queues.order + 1) (omega arith) fresh in
      (
        record w { queues = q'; wakes = w.wakes ++ wake e.wakeable (wake_time (push t ts)) },
        if_false w.terminated _ _ v.live ∙ rw posted,
        record {
          seen = record {
            entry = e';
            lock = lock-put_entry (counted w.queues) id e' v.seen.lock;
            there = lookup-put_entry (counted w.queues) id e';
            listening = v.seen.listening;
          };
          live = v.live;
          in_time = rw last (All-snoc _ ts t in_time (n, refl, omega arith));
          older =
              subst (λ k. All (λ y. y.order < size_of_int k) (push t ts)) (sym next)
                (rw last (
                  All-snoc (λ y. y.order < size_of_int (w.queues.order + 1)) ts t
                    (All-map (λ y. y.order < size_of_int w.queues.order) _ ts
                      (λ y h. omega (arith, h, grows)) v.older)
                    grows));
        },
        last,
        refl,
        next,
      )

  pub post_all-Waiting :
      (id : ℕ) (os : List C) (low now : ℕ) (ps : List (C × ℕ)) (w : Loop C)
      (v : Waiting id os low w)
      → Clock low ps now
      → w.queues.order + length ps < 2 ^ 32
      → (w' : Loop C) × (post_all id ps w ≡ ok w')
        × (v' : Waiting id os now w') × (map (λ t. t.task) v'.seen.entry.delayed_tasks
            ≡ map (λ t. t.task) v.seen.entry.delayed_tasks ++ map (λ p. p.0) ps)
        × (w'.log ≡ w.log)
  unfolding post_all
  post_all-Waiting id os low now [] w v clock fresh =
      let ts = v.seen.entry.delayed_tasks in
      (
        w,
        refl,
        record {
          seen = v.seen;
          live = v.live;
          in_time =
              All-map (λ t. (k : ℕ) × (t.target_time ≡ at_time k) × (k ≤ low)) _ ts
                (λ y h. (h.0, h.1, omega (arith, h.2, clock.0))) v.in_time;
          older = v.older;
        },
        sym (append-nil (map (λ t. t.task) ts)),
        refl,
      )
  post_all-Waiting id os low now ((c, n) ∷ ps) w v clock fresh =
      let (w1, posted, v1, queue, log, order) =
        post_task-Waiting id os low n c w v clock.0 clock.1 (omega (arith, fresh)) in
      let (w2, others, v2, tasks, log2) =
        post_all-Waiting id os n now ps w1 v1 clock.2 (omega (arith, fresh, order)) in
      let ts = v.seen.entry.delayed_tasks in
      (
        w2,
        rw (posted, others),
        v2,
        tasks
            ∙ ap (λ l. map (λ t. t.task) l ++ map (λ p. p.0) ps) queue
            ∙ ap (λ l. l ++ map (λ p. p.0) ps)
                (map-append (λ t. t.task) ts (registered w.queues c (at_time n) ∷ []))
            ∙ append_assoc (map (λ t. t.task) ts) (c ∷ []) (map (λ p. p.0) ps),
        log2 ∙ log,
      )

  -- Tasks that are posted for now, one after another, to a loop that is not terminated, whose
  -- queue is there and whose pending tasks, if any, are all due already and were registered
  -- before, all run in the next flush, in the order in which they were posted and behind the
  -- pending ones, each followed by all observers. The clock does not run backwards, its times
  -- are not negative and fit int64_t, the closures return, leave the queue and its observers and
  -- run no other closure themselves, and the registrations do not wrap around.
  pub posted_tasks_run :
      (id : ℕ) (os : List C) (effect : C → Loop C → Outcome (Loop C)) (low now : ℕ)
      (ps : List (C × ℕ)) (w : Loop C)
      → Steady id os effect
      → (v : Waiting id os low w) → Clock low ps now
      → w.queues.order + length ps < 2 ^ 32
      → (w1 w2 : Loop C) × (post_all id ps w ≡ ok w1)
        × (run_expired_tasks_now effect id (at_time now) w1 ≡ ok w2)
        × (w2.log
            ≡ w.log
              ++ with_observers os
                  (map (λ t. t.task) v.seen.entry.delayed_tasks ++ map (λ p. p.0) ps))
  posted_tasks_run id os effect low now ps w steady v clock fresh =
      let (w1, posted, v1, tasks, log1) = post_all-Waiting id os low now ps w v clock fresh in
      let (w2, ran, seen, log2) =
        run_expired_tasks_now-Ran id os effect steady (at_time now) w1 v1.seen in
      let all_due = due-all now v1.seen.entry.delayed_tasks v1.in_time in
      (
        w1,
        w2,
        posted,
        ran,
        log2
            ∙ ap (λ l. w1.log ++ with_observers os (map (λ t. t.task) l)) all_due
            ∙ ap (λ l. w1.log ++ with_observers os l) tasks
            ∙ ap
                (λ l.
                  l
                  ++ with_observers os
                      (map (λ t. t.task) v.seen.entry.delayed_tasks ++ map (λ p. p.0) ps))
                log1,
      )
