-- ===== src/Threads.antt =====
-- `Thread` of source/base/thread/thread.h and .cpp, without its name. A thread is used and destroyed
-- by one other thread. `std::thread` is the standard library's: to destroy or replace one that is
-- joinable is `std::terminate`.
pub mod Life
pub mod Starting
mod Tests
use ffnetwork.Common.{
  ℕ, Bool, true, false, List, [], ◌∷◌, ◌++◌, Option, none, some, if◌then◌else◌, Outcome, ok, err,
  terminated, null_deref, ◌>>=◌, ◌>>◌, guard, not,
}

-- `handle` is `thread_`: null, or whether it is joinable. A task runner is the queue of its loop.
pub record Thread : Type 0 where
  pub handle : Option Bool
  pub task_runner : Option ℕ
  pub joined : Bool

abbrev pub new_thread : Thread
new_thread = record { handle = none; task_runner = none; joined = false }

-- What `Join` does to others: it posts the task that terminates the current loop, and waits for the
-- thread to end.
pub data Action : Type 0 where
  posts_terminate : ℕ → Action
  joins : Action

abbrev pub is_joinable : Option Bool → Bool
is_joinable none = false
is_joinable (some b) = b

-- `Start`, with the task runner that the new thread makes; its handshake is in Threads.Starting.
unfoldable pub start : ℕ → Thread → Outcome Thread
start id t =
    if is_joinable t.handle
    then err terminated
    else ok (record t { handle = some true; task_runner = some id })

-- `thread_->join()`; of a thread that is not joinable it throws, and nothing here catches that.
unfoldable pub join_handle : Option Bool → Outcome (Option Bool)
join_handle none = err null_deref
join_handle (some true) = ok (some false)
join_handle (some false) = err terminated

unfoldable pub join : Thread → Outcome (Thread × List Action)
unfolding join_handle
join t = if t.joined then ok (t, []) else do
  id ← elim t.task_runner [ none ↦ err null_deref | some id ↦ ok id ]
  h ← join_handle t.handle
  ok (record t { handle = h; joined = true }, posts_terminate id ∷ joins ∷ [])

-- The destructor, with those of the members.
unfoldable pub destroy_thread : Thread → Outcome (List Action)
unfolding join
destroy_thread t = do
  (t', actions) ← join t
  guard (not (is_joinable t'.handle)) terminated
  ok actions

pub data Use : Type 0 where
  starts : ℕ → Use
  joins_it : Use

unfoldable pub use_thread : Use → Thread → Outcome (Thread × List Action)
unfolding start join
use_thread (starts id) t = do t' ← start id t; ok (t', [])
use_thread joins_it t = join t

-- A thread that is used like this and destroyed.
unfoldable pub live_thread : List Use → Thread → Outcome (List Action)
unfolding use_thread destroy_thread
live_thread [] t = destroy_thread t
live_thread (u ∷ us) t = do
  (t', actions) ← use_thread u t
  rest ← live_thread us t'
  ok (actions ++ rest)
