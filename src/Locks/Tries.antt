-- ===== src/Locks/Tries.antt =====
-- What the tries of mutex.cpp return, and a guard of mutex.h whose lock pthread refuses.
use ffnetwork.Common.{ℕ, ◌≡◌, ◌≢◌, refl, ap, Bool, true, false, none, some, arith}
use ffnetwork.Locks.{
  RwLock, SharedMutex, shared_lock, to_bool, try_lock, try_lock_shared, make_guard, destroy_guard,
}
use ffnetwork.Locks.Holders.{is_reader, Holders, IsFree, Written, Shared, RwLockLaws}

module _ {R : Type 0} (l : RwLock R) (h : Holders R) (laws : RwLockLaws l h) where
  refused : (n : ℕ) → to_bool n ≡ true → n ≢ 0
  refused n e = ground arith

  granted : (n : ℕ) → to_bool n ≡ false → n ≡ 0
  granted n e = ground arith

  -- What a try returns: true if it did not get the lock, which it left as it was, and false if it did.
  abbrev pub TryLocks : ℕ → SharedMutex R → Bool × SharedMutex R → Type 0
  TryLocks t m (b, m') =
      ((b ≡ true) → (m' ≡ m) × (IsFree h m.rw_lock → ⊥))
      × ((b ≡ false) → Written h t m.rw_lock m'.rw_lock)

  abbrev pub TryLocksShared : ℕ → SharedMutex R → Bool × SharedMutex R → Type 0
  TryLocksShared t m (b, m') =
      ((b ≡ true) → m' ≡ m) × ((b ≡ false) → Shared h t m.rw_lock m'.rw_lock)

  -- `TryLock` returns true exactly if it did not get the lock: the lock is then as it was, and was
  -- held. If it returns false, the lock was free and the thread is now its writer. `TryLockShared`
  -- returns true if it did not get the lock, which is then as it was; if it returns false, the lock
  -- had no writer and the thread is now one of its readers.
  pub try_lock_true_fails :
      (t : ℕ) (m : SharedMutex R)
      → TryLocks t m (try_lock l t m) × TryLocksShared t m (try_lock_shared l t m)
  unfolding try_lock try_lock_shared
  try_lock_true_fails t m =
      let (n, r) = l.trywrlock t m.rw_lock in
      let (k, x) = l.tryrdlock t m.rw_lock in
      (
        (
          λ b.
              let (same, held) = laws.trywrlock_fails t n m.rw_lock r refl (refused n b) in
              (ap (λ y. record { rw_lock = y }) same, held),
          λ b. laws.trywrlock_gets t m.rw_lock r (ap (λ i. (i, r)) (granted n b)),
        ),
        (
          λ b.
              ap (λ y. record { rw_lock = y })
                (laws.tryrdlock_fails t k m.rw_lock x refl (refused k b)),
          λ b. laws.tryrdlock_gets t m.rw_lock x (ap (λ i. (i, x)) (granted k b)),
        ),
      )

  -- A `SharedLock` of a mutex that its thread does not hold, for which pthread returns an error: it is
  -- made all the same, with the mutex as it was, and its destructor's unlock is undefined.
  pub refused_shared_lock :
      (t result : ℕ) (m : SharedMutex R) (r : R)
      → l.rdlock t m.rw_lock ≡ some (result, r)
      → result ≢ 0
      → h.writer m.rw_lock ≢ some t
      → is_reader t (h.readers m.rw_lock) ≡ false
      → (make_guard l t shared_lock m ≡ some m) × (destroy_guard l t shared_lock m ≡ none)
  unfolding make_guard destroy_guard
  refused_shared_lock t result m r e fails no_writer no_reader =
      let same = laws.rdlock_fails t result m.rw_lock r e fails in
      (rw (e, same), rw (laws.unlock_unheld t m.rw_lock no_writer no_reader))
