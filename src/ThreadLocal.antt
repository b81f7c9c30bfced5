-- ===== src/ThreadLocal.antt =====
-- source/base/thread/thread_local.h and .cpp: `ThreadLocalUniquePtr` over `ThreadLocalPointer`, over
-- a pthread key. A thread is a number; a thread without an entry has a null pointer. Whether
-- `pthread_setspecific` succeeds is the argument `set_ok`. `FF_CHECK` checks.
use ffnetwork.Common.{
  ℕ, Bool, List, [], ◌∷◌, ◌++◌, Option, none, some, Outcome, ok, check_failed, ◌>>=◌, ◌>>◌, guard,
}
use ffnetwork.Common.Maps.{number_key, lookup, insert, erase}

-- The pointers, and the objects that were deleted.
pub record ThreadLocal (V : Type 0) : Type 0 where
  pub pointers : List (ℕ × V)
  pub deleted : List V

module _ {V : Type 0} where
  abbrev pub no_pointers : ThreadLocal V
  no_pointers = record { pointers = []; deleted = [] }

  abbrev pub get : ℕ → ThreadLocal V → Option V
  get thread s = lookup thread s.pointers

  abbrev pub set_pointer : ℕ → Option V → List (ℕ × V) → List (ℕ × V)
  set_pointer thread none m = erase thread m
  set_pointer thread (some v) m = insert thread v m

  unfoldable pub swap : Bool → ℕ → Option V → ThreadLocal V → Outcome (ThreadLocal V × Option V)
  swap set_ok thread ptr s = do
    let old_ptr = get thread s
    guard set_ok check_failed
    ok (record s { pointers = set_pointer thread ptr s.pointers }, old_ptr)

  -- `destroy`; to delete a null pointer does nothing.
  abbrev pub destroy : Option V → ThreadLocal V → ThreadLocal V
  destroy none s = s
  destroy (some v) s = record s { deleted = s.deleted ++ v ∷ [] }

  unfoldable pub reset : Bool → ℕ → Option V → ThreadLocal V → Outcome (ThreadLocal V)
  unfolding swap
  reset set_ok thread ptr s = do (s', old) ← swap set_ok thread ptr s; ok (destroy old s')

  -- The end of a thread: pthread makes the pointer null and calls `destroy` with what it was.
  unfoldable pub exit_thread : ℕ → ThreadLocal V → ThreadLocal V
  exit_thread thread s = destroy (get thread s) (record s { pointers = erase thread s.pointers })
