-- ===== src/MessageLoop/Threaded.antt =====
-- The loops of all threads: source/base/messageloop/message_loop.cpp over the thread-local pointer
-- `tls_message_loop`. A `MessageLoop` is the queue of its `MessageLoopImpl`. What becomes of the
-- `MessageLoopImpl`, which others can hold, when its `MessageLoop` is deleted is left out.
pub mod Apart
mod Tests
use ffnetwork.Common.{
  ℕ, Bool, true, false, List, [], ◌∷◌, Option, none, some, Outcome, ok, err, check_failed, ◌>>=◌,
}
use ffnetwork.TaskQueues.{TaskQueues, initial}
use ffnetwork.ThreadLocal.{ThreadLocal, no_pointers, get, reset, exit_thread}
use ffnetwork.MessageLoop.{Loop, new_loop}

pub record Loops (C : Type 0) : Type 0 where
  pub queues : TaskQueues C
  pub tls_message_loop : ThreadLocal ℕ

-- What threads do to their loops: the thread, whether `pthread_setspecific` succeeds, and the
-- wakeable that a new loop is.
pub data LoopStep : Type 0 where
  ensures : ℕ → Bool → Option ℕ → LoopStep
  exits : ℕ → LoopStep

module _ {C : Type 0} where
  abbrev pub no_loops : Loops C
  no_loops = record { queues = initial; tls_message_loop = no_pointers }

  -- `GetCurrent`
  unfoldable pub get_current : ℕ → Loops C → Outcome ℕ
  get_current thread s = elim (get thread s.tls_message_loop) [
    | none ↦ err check_failed
    | some id ↦ ok id
  ]

  -- The branch for a thread without a loop.
  unfoldable pub initialize : ℕ → Bool → Option ℕ → Loops C → Outcome (Loops C)
  unfolding new_loop reset
  initialize thread set_ok self s = do
    (w, id) ← new_loop s.queues self
    tls ← reset set_ok thread (some id) s.tls_message_loop
    ok (record { queues = w.queues; tls_message_loop = tls })

  unfoldable pub ensure_initialized : ℕ → Bool → Option ℕ → Loops C → Outcome (Loops C)
  unfolding initialize
  ensure_initialized thread set_ok self s = elim (get thread s.tls_message_loop) [
    | some id ↦ ok s
    | none ↦ initialize thread set_ok self s
  ]

  unfoldable pub loop_step : LoopStep → Loops C → Outcome (Loops C)
  unfolding ensure_initialized exit_thread
  loop_step (ensures thread set_ok self) s = ensure_initialized thread set_ok self s
  loop_step (exits thread) s =
      ok (record s { tls_message_loop = exit_thread thread s.tls_message_loop })

  unfoldable pub loop_steps : List LoopStep → Loops C → Outcome (Loops C)
  unfolding loop_step
  loop_steps [] s = ok s
  loop_steps (t ∷ ts) s = do s' ← loop_step t s; loop_steps ts s'
