-- ===== src/Locks/Guards.antt =====
-- Guards that live, and the holders of their mutex (mutex.h), by what POSIX says of the lock: the
-- making of a guard.
pub mod Ends
use mathlib.Core.Path.{subst}
use ffnetwork.Common.{
  ℕ, ◌≡◌, ◌≢◌, refl, sym, ap, ◌∙◌, inl, inr, ◌⊎◌, Bool, true, false, ◌==◌, Bool-cases, List, [],
  ◌∷◌, ◌++◌, map, Option, none, some, Option-cases, All, arith, if◌then◌else◌,
}
use ffnetwork.Locks.{
  RwLock, SharedMutex, Guard, shared_lock, unique_lock, Users, GuardMove, makes, destroys, to_bool,
  same_guard, is_alive, without_guard, create, dropped, lock, lock_shared, try_lock,
  try_lock_shared, make_guard, destroy_guard, results_of, made, destroyed, guard_move, users, Used,
  unused, then_move,
}
use ffnetwork.Locks.Holders.{
  is_reader, without_reader, Holders, IsFree, Written, Shared, RwLockLaws,
}

-- No call of pthread failed.
abbrev pub AllZero : List ℕ → Type 0
AllZero ns = All (λ n. n ≡ 0) ns

module _ {R : Type 0} (h : Holders R) where
  -- Either one thread has the mutex for writing, by the only guard, or the guards are those of its
  -- readers.
  abbrev pub Holding : Users R → Type 0
  Holding s =
      ((t : ℕ) × (s.guards ≡ (t, unique_lock) ∷ [])
        × (h.writer s.mutex.rw_lock ≡ some t)
        × (h.readers s.mutex.rw_lock ≡ []))
      ⊎ ((h.writer s.mutex.rw_lock ≡ none)
          × (s.guards ≡ map (λ t. (t, shared_lock)) (h.readers s.mutex.rw_lock)))

module _ {R : Type 0} (l : RwLock R) (h : Holders R) (laws : RwLockLaws l h) where
  module _ (t : ℕ) (s s' : Users R) where
    pass_zero :
        (g : Guard) (result : ℕ) (r : R)
        → results_of l t g s.mutex ≡ result ∷ []
        → made l t g (some (record { rw_lock = r })) s ≡ some s'
        → AllZero s'.results
        → (result ≡ 0)
          × AllZero s.results
          × (s'.mutex.rw_lock ≡ r)
          × (s'.guards ≡ (t, g) ∷ s.guards)
    unfolding made
    pass_zero g result r e m z =
        let new : Users R = record {
          mutex = record { rw_lock = r };
          guards = (t, g) ∷ s.guards;
          results = results_of l t g s.mutex ++ s.results;
        } in
        let same : new ≡ s' = cc in
        let (zero_now, before) =
          subst (λ ns. AllZero (ns ++ s.results)) e (subst (λ u. AllZero u.results) (sym same) z) in
        (
          zero_now,
          before,
          sym (ap (λ (u : Users R). u.mutex.rw_lock) same),
          sym (ap (λ (u : Users R). u.guards) same),
        )

    make_shared-Holding :
        (o : Option (ℕ × R))
        → l.rdlock t s.mutex.rw_lock ≡ o
        → made l t shared_lock (dropped l o) s ≡ some s'
        → AllZero s'.results
        → AllZero s.results × (Holding h s → Holding h s')
    unfolding made
    make_shared-Holding none e m z = absurd cc
    make_shared-Holding (some (result, r)) e m z =
        let (zero_now, before, lock_now, guards_now) = pass_zero shared_lock result r (rw e) m z in
        let (was, now, readers_now) =
          laws.rdlock_gets t s.mutex.rw_lock r (e ∙ ap (λ n. some (n, r)) zero_now) in
        (
          before,
          λ held. elim held [
            | inl (w, gs, has, rs) ↦ absurd cc
            | inr (none_writes, gs) ↦ inr (
              ap h.writer lock_now ∙ now,
              guards_now
                  ∙ ap (λ rest. (t, shared_lock) ∷ rest) gs
                  ∙ sym (ap (map (λ u. (u, shared_lock))) (ap h.readers lock_now ∙ readers_now)),
            )
          ],
        )

    make_unique-Holding :
        (o : Option (ℕ × R))
        → l.wrlock t s.mutex.rw_lock ≡ o
        → made l t unique_lock (dropped l o) s ≡ some s'
        → AllZero s'.results
        → AllZero s.results × (Holding h s → Holding h s')
    unfolding made
    make_unique-Holding none e m z = absurd cc
    make_unique-Holding (some (result, r)) e m z =
        let (zero_now, before, lock_now, guards_now) = pass_zero unique_lock result r (rw e) m z in
        let (free, now, readers_now) =
          laws.wrlock_gets t s.mutex.rw_lock r (e ∙ ap (λ n. some (n, r)) zero_now) in
        (
          before,
          λ held. elim held [
            | inl (w, gs, has, rs) ↦ absurd cc
            | inr (none_writes, gs) ↦ inl (
              t,
              guards_now
                  ∙ ap (λ rest. (t, unique_lock) ∷ rest)
                      (gs ∙ ap (map (λ u. (u, shared_lock))) free.1),
              ap h.writer lock_now ∙ now,
              ap h.readers lock_now ∙ readers_now,
            )
          ],
        )

    pub makes-Holding :
        (g : Guard)
        → guard_move l (makes t g) s ≡ some s'
        → AllZero s'.results
        → AllZero s.results × (Holding h s → Holding h s')
    unfolding guard_move make_guard
    makes-Holding shared_lock m z = make_shared-Holding (l.rdlock t s.mutex.rw_lock) refl m z
    makes-Holding unique_lock m z = make_unique-Holding (l.wrlock t s.mutex.rw_lock) refl m z
