-- ===== src/Locks/Holders.antt =====
-- What POSIX says of a `pthread_rwlock_t`: which threads hold it, and what the calls do about that.
use ffnetwork.Common.{
  ℕ, ◌≡◌, ◌≢◌, Bool, true, false, ◌==◌, if◌then◌else◌, List, [], ◌∷◌, Option, none, some,
}
use ffnetwork.Locks.{RwLock}

unfoldable pub is_reader : ℕ → List ℕ → Bool
is_reader t [] = false
is_reader t (u ∷ us) = if t == u then true else is_reader t us

unfoldable pub without_reader : ℕ → List ℕ → List ℕ
without_reader t [] = []
without_reader t (u ∷ us) = if t == u then us else u ∷ without_reader t us

-- The thread that holds a lock for writing, and those that hold it for reading, one entry for each
-- time.
pub record Holders (R : Type 0) : Type 0 where
  pub writer : R → Option ℕ
  pub readers : R → List ℕ

module _ {R : Type 0} where
  abbrev pub IsFree : Holders R → R → Type 0
  IsFree h r = (h.writer r ≡ none) × (h.readers r ≡ [])

  abbrev pub Written : Holders R → ℕ → R → R → Type 0
  Written h t r r' = IsFree h r × (h.writer r' ≡ some t) × (h.readers r' ≡ [])

  abbrev pub Shared : Holders R → ℕ → R → R → Type 0
  Shared h t r r' = (h.writer r ≡ none) × (h.writer r' ≡ none) × (h.readers r' ≡ t ∷ h.readers r)

  -- A call whose result is 0 gets the lock, and one whose result is an error leaves it as it was.
  -- `pthread_rwlock_trywrlock` fails only if the lock is held. A thread that holds the lock can
  -- unlock it; if it does not, the behaviour is undefined.
  pub record RwLockLaws (l : RwLock R) (h : Holders R) : Type 0 where
    pub init_free : IsFree h l.init
    pub wrlock_gets : (t : ℕ) (r r' : R) → l.wrlock t r ≡ some (0, r') → Written h t r r'
    pub rdlock_gets : (t : ℕ) (r r' : R) → l.rdlock t r ≡ some (0, r') → Shared h t r r'
    pub rdlock_fails :
        (t result : ℕ) (r r' : R) → l.rdlock t r ≡ some (result, r') → result ≢ 0 → r' ≡ r
    pub trywrlock_gets : (t : ℕ) (r r' : R) → l.trywrlock t r ≡ (0, r') → Written h t r r'
    pub trywrlock_fails :
        (t result : ℕ) (r r' : R)
        → l.trywrlock t r ≡ (result, r')
        → result ≢ 0
        → (r' ≡ r) × (IsFree h r → ⊥)
    pub tryrdlock_gets : (t : ℕ) (r r' : R) → l.tryrdlock t r ≡ (0, r') → Shared h t r r'
    pub tryrdlock_fails :
        (t result : ℕ) (r r' : R) → l.tryrdlock t r ≡ (result, r') → result ≢ 0 → r' ≡ r
    pub unlock_writer :
        (t : ℕ) (r : R)
        → h.writer r ≡ some t
        → (result : ℕ) × (r' : R) × (l.unlock t r ≡ some (result, r'))
          × (h.writer r' ≡ none)
          × (h.readers r' ≡ h.readers r)
    pub unlock_reader :
        (t : ℕ) (r : R)
        → h.writer r ≡ none
        → is_reader t (h.readers r) ≡ true
        → (result : ℕ) × (r' : R) × (l.unlock t r ≡ some (result, r'))
          × (h.writer r' ≡ none)
          × (h.readers r' ≡ without_reader t (h.readers r))
    pub unlock_unheld :
        (t : ℕ) (r : R)
        → h.writer r ≢ some t
        → is_reader t (h.readers r) ≡ false
        → l.unlock t r ≡ none
