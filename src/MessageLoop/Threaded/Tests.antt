-- ===== src/MessageLoop/Threaded/Tests.antt =====
-- Two threads with loops (source/base/messageloop/message_loop.cpp).
use ffnetwork.Common.{
  ℕ, ◌≡◌, ◌≢◌, refl, true, All, List, [], ◌∷◌, none, some, ok, err, check_failed,
}
use ffnetwork.MessageLoop.Threaded.{
  Loops, LoopStep, ensures, exits, no_loops, get_current, loop_steps,
}
use ffnetwork.MessageLoop.Threaded.Apart.{Distinct, loops_apart}
use ffnetwork.Common.Maps.{lookup, insert, erase}
use ffnetwork.Common.{arith}
use ffnetwork.TaskQueues.{
  create_task_queue, set_wakeable, get_mutex, entry_at, entry_ref, put_entry,
}

-- Thread 7 ends and starts again.
abbrev two_threads : List LoopStep
two_threads =
    ensures 7 true (some 1)
    ∷ ensures 8 true (some 2)
    ∷ ensures 8 true (some 2)
    ∷ exits 7
    ∷ ensures 7 true none
    ∷ []

two_threads_run :
    (s : Loops ℕ) × (loop_steps two_threads no_loops ≡ ok s)
    × (get_current 7 s ≡ ok 2)
    × (get_current 8 s ≡ ok 1)
    × (get_current 9 s ≡ err check_failed)
    × (s.tls_message_loop.deleted ≡ 0 ∷ [])
unfolding loop_steps get_current create_task_queue set_wakeable get_mutex entry_at entry_ref
    put_entry lookup insert erase
two_threads_run = (_, refl, refl, refl, refl, refl)

loops_apart_example :
    let s = two_threads_run.0 in
    ((a b i j : ℕ) → get_current a s ≡ ok i → get_current b s ≡ ok j → a ≢ b → i ≢ j)
    × ((a i : ℕ) → get_current a s ≡ ok i → All (λ d. d ≢ i) s.tls_message_loop.deleted)
    × Distinct s.tls_message_loop.deleted
loops_apart_example = loops_apart two_threads two_threads_run.0 (omega arith) two_threads_run.1
