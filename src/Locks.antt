-- ===== src/Locks.antt =====
-- source/base/thread/mutex.h and mutex.cpp: `SharedMutexPosix`, over a `pthread_rwlock_t`, and the
-- guards `SharedLock` and `UniqueLock`. The calls of pthread are a parameter.
pub mod Holders
pub mod Guards
pub mod Tries
mod Tests
use ffnetwork.Common.{
  ℕ, ◌≡◌, ◌≢◌, Bool, true, false, not, ◌&&◌, ◌==◌, if◌then◌else◌, List, [], ◌∷◌, ◌++◌, Option, none,
  some,
}

-- The calls of pthread by a thread on a lock of type `R`, with their results: 0, or the number of an
-- error. A call that has to wait, or whose behaviour is undefined, is `none`.
pub record RwLock (R : Type 0) : Type 0 where
  pub init : R
  pub wrlock : ℕ → R → Option (ℕ × R)
  pub rdlock : ℕ → R → Option (ℕ × R)
  pub trywrlock : ℕ → R → ℕ × R
  pub tryrdlock : ℕ → R → ℕ × R
  pub unlock : ℕ → R → Option (ℕ × R)

pub record SharedMutex (R : Type 0) : Type 0 where
  pub rw_lock : R

-- `SharedLock` and `UniqueLock`.
pub data Guard : Type 0 where
  shared_lock unique_lock : Guard

-- Threads that use a mutex by guards: `guards` are those that live, with their threads, `results` what
-- pthread returned.
pub record Users (R : Type 0) : Type 0 where
  pub mutex : SharedMutex R
  pub guards : List (ℕ × Guard)
  pub results : List ℕ

-- A thread makes a guard, or destroys one.
pub data GuardMove : Type 0 where
  makes destroys : ℕ → Guard → GuardMove

-- The conversion of an `int` to `bool`.
abbrev pub to_bool : ℕ → Bool
to_bool n = not (n == 0)

abbrev pub same_guard : Guard → Guard → Bool
same_guard shared_lock shared_lock = true
same_guard unique_lock unique_lock = true
same_guard g h = false

unfoldable pub is_alive : ℕ → Guard → List (ℕ × Guard) → Bool
is_alive t g [] = false
is_alive t g ((u, h) ∷ gs) = if t == u && same_guard g h then true else is_alive t g gs

unfoldable pub without_guard : ℕ → Guard → List (ℕ × Guard) → List (ℕ × Guard)
without_guard t g [] = []
without_guard t g ((u, h) ∷ gs) =
    if t == u && same_guard g h then gs else (u, h) ∷ without_guard t g gs

module _ {R : Type 0} (l : RwLock R) where
  abbrev pub create : SharedMutex R
  create = record { rw_lock = l.init }

  -- What pthread returns is dropped, and the lock kept.
  abbrev pub dropped : Option (ℕ × R) → Option (SharedMutex R)
  dropped none = none
  dropped (some (result, r)) = some (record { rw_lock = r })

  abbrev pub lock : ℕ → SharedMutex R → Option (SharedMutex R)
  lock t m = dropped (l.wrlock t m.rw_lock)

  abbrev pub lock_shared : ℕ → SharedMutex R → Option (SharedMutex R)
  lock_shared t m = dropped (l.rdlock t m.rw_lock)

  abbrev pub unlock : ℕ → SharedMutex R → Option (SharedMutex R)
  unlock t m = dropped (l.unlock t m.rw_lock)

  abbrev pub unlock_shared : ℕ → SharedMutex R → Option (SharedMutex R)
  unlock_shared t m = dropped (l.unlock t m.rw_lock)

  unfoldable pub try_lock : ℕ → SharedMutex R → Bool × SharedMutex R
  try_lock t m =
      let (result, r) = l.trywrlock t m.rw_lock in (to_bool result, record { rw_lock = r })

  unfoldable pub try_lock_shared : ℕ → SharedMutex R → Bool × SharedMutex R
  try_lock_shared t m =
      let (result, r) = l.tryrdlock t m.rw_lock in (to_bool result, record { rw_lock = r })

  -- The constructors of the guards, and their destructors.
  unfoldable pub make_guard : ℕ → Guard → SharedMutex R → Option (SharedMutex R)
  make_guard t shared_lock m = lock_shared t m
  make_guard t unique_lock m = lock t m

  unfoldable pub destroy_guard : ℕ → Guard → SharedMutex R → Option (SharedMutex R)
  destroy_guard t shared_lock m = unlock_shared t m
  destroy_guard t unique_lock m = unlock t m

  abbrev pub result_of : Option (ℕ × R) → List ℕ
  result_of none = []
  result_of (some (result, r)) = result ∷ []

  abbrev pub results_of : ℕ → Guard → SharedMutex R → List ℕ
  results_of t shared_lock m = result_of (l.rdlock t m.rw_lock)
  results_of t unique_lock m = result_of (l.wrlock t m.rw_lock)

  unfoldable pub made : ℕ → Guard → Option (SharedMutex R) → Users R → Option (Users R)
  made t g none s = none
  made t g (some m) s = some (record {
    mutex = m;
    guards = (t, g) ∷ s.guards;
    results = results_of t g s.mutex ++ s.results;
  })

  unfoldable pub destroyed : ℕ → Guard → Option (SharedMutex R) → Users R → Option (Users R)
  destroyed t g none s = none
  destroyed t g (some m) s = some (record s { mutex = m; guards = without_guard t g s.guards })

  -- Only a guard that lives is destroyed. A move that has to wait is `none`.
  unfoldable pub guard_move : GuardMove → Users R → Option (Users R)
  unfolding make_guard destroy_guard made destroyed is_alive
  guard_move (makes t g) s = made t g (make_guard t g s.mutex) s
  guard_move (destroys t g) s =
      if is_alive t g s.guards then destroyed t g (destroy_guard t g s.mutex) s else none

  abbrev pub users : Users R
  users = record { mutex = create; guards = []; results = [] }

  -- What the threads can reach from a mutex that was just created.
  pub data Used : Users R → Type 0 where
    unused : Used users
    then_move : {s s' : Users R} → Used s → (m : GuardMove) → guard_move m s ≡ some s' → Used s'
