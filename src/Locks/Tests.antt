-- ===== src/Locks/Tests.antt =====
-- The theorems on mutex.h and mutex.cpp at a lock for at most two readers.
mod Posix
use mathlib.Core.Path.{subst}
use ffnetwork.Common.{
  ℕ, ◌≡◌, ◌≢◌, refl, sym, ap, ◌∙◌, inl, inr, ◌⊎◌, Bool, true, false, ◌==◌, Bool-cases, List, [],
  ◌∷◌, map, Option, none, some, All, arith, if◌then◌else◌,
}
use ffnetwork.Locks.{
  RwLock, SharedMutex, Guard, shared_lock, unique_lock, Users, GuardMove, makes, destroys, is_alive,
  without_guard, create, try_lock, try_lock_shared, make_guard, destroy_guard, made, destroyed,
  guard_move, users, Used, unused, then_move,
}
use ffnetwork.Locks.Holders.{
  is_reader, without_reader, Holders, IsFree, Written, Shared, RwLockLaws,
}
use ffnetwork.Locks.Guards.{AllZero, Holding}
use ffnetwork.Locks.Guards.Ends.{Destroys, live_guards}
use ffnetwork.Locks.Tries.{TryLocks, TryLocksShared, try_lock_true_fails, refused_shared_lock}
use ffnetwork.Locks.Tests.Posix.{Held, held_shared, held_unique, posix, holders, posix_laws}

-- Threads 1 and 2 read.
abbrev two_readers : Users Held
two_readers = record {
  mutex = record { rw_lock = held_shared (2 ∷ 1 ∷ []) };
  guards = (2, shared_lock) ∷ (1, shared_lock) ∷ [];
  results = 0 ∷ 0 ∷ [];
}

two_readers-Used : Used posix two_readers
unfolding guard_move make_guard made
two_readers-Used =
    let one : Users Held = record {
      mutex = record { rw_lock = held_shared (1 ∷ []) };
      guards = (1, shared_lock) ∷ [];
      results = 0 ∷ [];
    } in
    then_move {s = one} (then_move unused (makes 1 shared_lock) refl) (makes 2 shared_lock) refl

-- A writer has to wait.
writer_waits : guard_move posix (makes 3 unique_lock) two_readers ≡ none
unfolding guard_move make_guard made
writer_waits = refl

-- Both readers are gone, and thread 3 writes.
abbrev one_writer : Users Held
one_writer = record {
  mutex = record { rw_lock = held_unique 3 };
  guards = (3, unique_lock) ∷ [];
  results = 0 ∷ 0 ∷ 0 ∷ [];
}

one_writer-Used : Used posix one_writer
unfolding guard_move make_guard made destroy_guard destroyed is_alive without_guard is_reader
    without_reader
one_writer-Used =
    let one : Users Held = record {
      mutex = record { rw_lock = held_shared (2 ∷ []) };
      guards = (2, shared_lock) ∷ [];
      results = 0 ∷ 0 ∷ [];
    } in
    let nobody : Users Held = record {
      mutex = record { rw_lock = held_shared [] };
      guards = [];
      results = 0 ∷ 0 ∷ [];
    } in
    then_move {s = nobody}
      (then_move {s = one} (then_move two_readers-Used (destroys 1 shared_lock) refl)
        (destroys 2 shared_lock) refl)
      (makes 3 unique_lock) refl

live_guards_example :
    Holding holders one_writer
    × ((t : ℕ) (g : Guard)
        → is_alive t g one_writer.guards ≡ true
        → Destroys posix holders posix_laws t g one_writer)
live_guards_example =
    live_guards posix holders posix_laws one_writer one_writer-Used (refl, (refl, (refl, tt)))

try_lock_true_fails_example :
    TryLocks posix holders posix_laws 4 (one_writer.mutex) (try_lock posix 4 one_writer.mutex)
    × TryLocksShared posix holders posix_laws 4
        (one_writer.mutex)
        (try_lock_shared posix 4 one_writer.mutex)
try_lock_true_fails_example = try_lock_true_fails posix holders posix_laws 4 one_writer.mutex
