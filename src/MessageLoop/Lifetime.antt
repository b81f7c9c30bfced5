-- ===== src/MessageLoop/Lifetime.antt =====
-- Loops that are terminated, and tasks for a loop of another thread
-- (source/base/messageloop/message_loop_impl.cpp and task_runner.cpp).
use ffnetwork.Common.{
  ℕ, ◌≡◌, ◌≢◌, refl, true, false, Bool, none, some, Outcome, if◌then◌else◌, ok, err, check_failed,
  ◌==◌, ◌++◌, ◌∷◌, [], arith,
}
use ffnetwork.Common.Int.{ℤ}
use ffnetwork.Time.{TimePoint}
use ffnetwork.TaskQueues.{key_of}
use ffnetwork.MessageLoop.{
  Loop, Current, post_task, do_run, do_run_for_time, do_terminate, run_now_or_post_task,
  run_tasks_on_current_thread, invoke, add_observer, remove_observer,
}

if_true {ℓ} : {A : Type ℓ} (b : Bool) (x y : A) → b ≡ true → (if b then x else y) ≡ x
if_true b x y h = rw h

module _ {C : Type 0} (effect : C → Loop C → Outcome (Loop C)) where
  -- After a `DoTerminate` that returned, with a platform whose `Terminate` does not reset
  -- `terminated_`, `PostTask` of a task, `DoRun` and `DoRunForTime` return and change nothing.
  pub terminated_loop :
      (id : ℕ) (terminate run : Loop C → Outcome (Loop C)) (task : C) (target now : TimePoint)
      (w w' : Loop C)
      → ((u v : Loop C) → terminate u ≡ ok v → v.terminated ≡ u.terminated)
      → do_terminate terminate w ≡ ok w'
      → (post_task id (some task) target now w' ≡ ok w')
        × (do_run effect id run now w' ≡ ok w')
        × (do_run_for_time effect id run now w' ≡ ok w')
  unfolding post_task do_run do_run_for_time do_terminate
  terminated_loop id terminate run task target now w w' keeps done =
      let off : w'.terminated ≡ true = keeps (record w { terminated = true }) w' done in
      (if_true w'.terminated _ _ off, if_true w'.terminated _ _ off, if_true w'.terminated _ _ off)

  -- `RunNowOrPostTask` runs the task at once on the thread of the loop, and nothing else; on every
  -- other thread, with a loop of its own or without one, it posts it for now.
  pub run_now_or_post_task_lem :
      (id : ℕ) (task : C) (now : TimePoint) (w : Loop C)
      → (run_now_or_post_task effect id (some id) task now w
          ≡ effect task (record w { log = w.log ++ task ∷ [] }))
        × (run_now_or_post_task effect id none task now w ≡ post_task id (some task) now now w)
        × ((other : ℕ)
            → key_of other ≢ key_of id
            → run_now_or_post_task effect id (some other) task now w
              ≡ post_task id (some task) now now w)
  unfolding run_now_or_post_task run_tasks_on_current_thread invoke
  run_now_or_post_task_lem id task now w =
      let same : (key_of id == key_of id) ≡ true = ground arith in
      (
        rw (same, run_tasks_on_current_thread, invoke),
        refl,
        λ other differs.
            let test : (key_of other == key_of id) ≡ false = ground (arith, differs) in
            rw (test, run_tasks_on_current_thread),
      )

  -- Observers are added and removed on the thread of the loop only: on a thread without a loop, or
  -- with another one, both abort.
  pub observers_need_thread :
      (id : ℕ) (current : Current) (key : ℤ) (callback : C) (w : Loop C)
      → current ≢ some id
      → (add_observer id current key (some callback) w ≡ err check_failed)
        × (remove_observer id current key w ≡ err check_failed)
  unfolding add_observer remove_observer
  observers_need_thread id none key callback w h = (refl, refl)
  observers_need_thread id (some here) key callback w h =
      let test : (here == id) ≡ false = ground (arith, h) in (rw test, rw test)
