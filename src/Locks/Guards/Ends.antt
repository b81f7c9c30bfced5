-- ===== src/Locks/Guards/Ends.antt =====
-- The destruction of a guard (mutex.h), and what guards that live keep to.
use mathlib.Core.Path.{subst}
use ffnetwork.Common.{
  ℕ, ◌≡◌, refl, sym, ap, ◌∙◌, inl, inr, true, false, ◌==◌, Bool-cases, List, [], ◌∷◌, map, Option,
  none, some, arith,
}
use ffnetwork.Locks.{
  RwLock, SharedMutex, Guard, shared_lock, unique_lock, Users, GuardMove, makes, destroys, is_alive,
  without_guard, destroy_guard, destroyed, guard_move, Used, unused, then_move,
}
use ffnetwork.Locks.Holders.{is_reader, without_reader, Holders, RwLockLaws}
use ffnetwork.Locks.Guards.{AllZero, Holding, makes-Holding}

reading : ℕ → ℕ × Guard
reading t = (t, shared_lock)

without_guard-shared :
    (t : ℕ) (ts : List ℕ)
    → without_guard t shared_lock (map reading ts) ≡ map reading (without_reader t ts)
unfolding without_guard without_reader reading
without_guard-shared t [] = refl
without_guard-shared t (u ∷ ts) = elim (Bool-cases (t == u)) [
  | inl hit ↦ rw hit
  | inr miss ↦ rw (miss, without_guard-shared t ts)
]

is_alive-shared : (t : ℕ) (ts : List ℕ) → is_alive t shared_lock (map reading ts) ≡ is_reader t ts
unfolding is_alive is_reader reading
is_alive-shared t [] = refl
is_alive-shared t (u ∷ ts) = elim (Bool-cases (t == u)) [
  | inl hit ↦ rw hit
  | inr miss ↦ rw (miss, is_alive-shared t ts)
]

is_alive_unique : (t : ℕ) (ts : List ℕ) → is_alive t unique_lock (map reading ts) ≡ false
unfolding is_alive reading
is_alive_unique t [] = refl
is_alive_unique t (u ∷ ts) = elim (Bool-cases (t == u)) [
  | inl hit ↦ rw (hit, is_alive_unique t ts)
  | inr miss ↦ rw (miss, is_alive_unique t ts)
]

module _ {R : Type 0} (l : RwLock R) (h : Holders R) (laws : RwLockLaws l h) where
  -- The destruction of a guard returns, and leaves the other guards with their locks.
  abbrev pub Destroys : ℕ → Guard → Users R → Type 0
  Destroys t g s =
      (s' : Users R) × (guard_move l (destroys t g) s ≡ some s')
      × (s'.results ≡ s.results)
      × Holding h s'

  destroy_unique-Holding :
      (t : ℕ) (s : Users R)
      → s.guards ≡ (t, unique_lock) ∷ []
      → h.writer s.mutex.rw_lock ≡ some t
      → h.readers s.mutex.rw_lock ≡ []
      → is_alive t unique_lock s.guards ≡ true
      → Destroys t unique_lock s
  unfolding guard_move destroy_guard destroyed without_guard
  destroy_unique-Holding t s gs has rs alive =
      let (result, r, e, now, readers_now) = laws.unlock_writer t s.mutex.rw_lock has in
      let left : without_guard t unique_lock ((t, unique_lock) ∷ []) ≡ [] = ground arith in
      (
        record s { mutex = record { rw_lock = r }; guards = without_guard t unique_lock s.guards },
        rw (alive, e),
        refl,
        inr (
          now,
          ap (without_guard t unique_lock) gs
              ∙ left
              ∙ sym (ap (map (λ u. (u, shared_lock))) (readers_now ∙ rs)),
        ),
      )

  destroy_shared-Holding :
      (t : ℕ) (s : Users R)
      → h.writer s.mutex.rw_lock ≡ none
      → s.guards ≡ map (λ u. (u, shared_lock)) (h.readers s.mutex.rw_lock)
      → is_alive t shared_lock s.guards ≡ true
      → Destroys t shared_lock s
  unfolding guard_move destroy_guard destroyed reading
  destroy_shared-Holding t s none_writes gs alive =
      let rs = h.readers s.mutex.rw_lock in
      let reads = sym (is_alive-shared t rs) ∙ sym (ap (is_alive t shared_lock) gs) ∙ alive in
      let (result, r, e, now, readers_now) =
        laws.unlock_reader t s.mutex.rw_lock none_writes reads in
      (
        record s { mutex = record { rw_lock = r }; guards = without_guard t shared_lock s.guards },
        rw (alive, e),
        refl,
        inr (
          now,
          ap (without_guard t shared_lock) gs
              ∙ without_guard-shared t rs
              ∙ sym (ap (map (λ u. (u, shared_lock))) readers_now),
        ),
      )

  alive-only :
      (t w : ℕ) (g : Guard)
      → is_alive t g ((w, unique_lock) ∷ []) ≡ true
      → (t ≡ w) × (g ≡ unique_lock)
  unfolding is_alive
  alive-only t w shared_lock a = ground arith
  alive-only t w unique_lock a = (ground arith, refl)

  destroy_alive :
      (t : ℕ) (g : Guard) (s : Users R)
      → Holding h s
      → is_alive t g s.guards ≡ true
      → Destroys t g s
  unfolding reading
  destroy_alive t g s (inl (w, gs, has, rs)) alive =
      let (same, kind) = alive-only t w g (sym (ap (is_alive t g) gs) ∙ alive) in
      subst (λ k. Destroys t k s) (sym kind)
        (destroy_unique-Holding t s (gs ∙ ap (λ u. (u, unique_lock) ∷ []) (sym same))
          (has ∙ ap some (sym same)) rs (sym (ap (λ k. is_alive t k s.guards) kind) ∙ alive))
  destroy_alive t shared_lock s (inr (none_writes, gs)) alive =
      destroy_shared-Holding t s none_writes gs alive
  destroy_alive t unique_lock s (inr (none_writes, gs)) alive =
      let dead = is_alive_unique t (h.readers s.mutex.rw_lock) in
      let both : false ≡ true = sym dead ∙ sym (ap (is_alive t unique_lock) gs) ∙ alive in absurd cc

  destroyed-results :
      (t : ℕ) (g : Guard) (o : Option (SharedMutex R)) (s s' : Users R)
      → destroyed l t g o s ≡ some s'
      → s'.results ≡ s.results
  unfolding destroyed
  destroyed-results t g none s s' e = absurd cc
  destroyed-results t g (some m) s s' e =
      let new : Users R = record s { mutex = m; guards = without_guard t g s.guards } in
      let same : new ≡ s' = cc in sym (ap (λ (u : Users R). u.results) same)

  destroys_alive :
      (t : ℕ) (g : Guard) (s s' : Users R)
      → guard_move l (destroys t g) s ≡ some s'
      → (is_alive t g s.guards ≡ true) × (s'.results ≡ s.results)
  unfolding guard_move
  destroys_alive t g s s' e = elim (Bool-cases (is_alive t g s.guards)) [
    | inl alive ↦ (alive, destroyed-results t g (destroy_guard l t g s.mutex) s s' (rw alive at e))
    | inr dead ↦ let gone : none ≡ some s' = rw dead at e in absurd cc
  ]

  move-Holding :
      (m : GuardMove) (s s' : Users R)
      → guard_move l m s ≡ some s'
      → AllZero s'.results
      → AllZero s.results × (Holding h s → Holding h s')
  unfolding guard_move
  move-Holding (makes t g) s s' e z = makes-Holding l h laws t s s' g e z
  move-Holding (destroys t g) s s' e z =
      let (alive, results) = destroys_alive t g s s' e in
      (
        subst AllZero results z,
        λ held.
            let (s1, e1, results1, held1) = destroy_alive t g s held alive in
            let both : some s1 ≡ some s' = sym e1 ∙ e in
            let same : s1 ≡ s' = cc in subst (Holding h) same held1,
      )

  Used-Holding : (s : Users R) → Used l s → AllZero s.results → Holding h s
  Used-Holding s unused z =
      let (w, rs) = laws.init_free in inr (w, sym (ap (map (λ u. (u, shared_lock))) rs))
  Used-Holding s' (then_move {s = s} u m e) z =
      let (before, kept) = move-Holding m s s' e z in kept (Used-Holding s u before)

  -- As long as no call of pthread failed: a `UniqueLock` that lives is the only guard, and its thread
  -- the writer; else the guards that live are the `SharedLock`s of the readers. Every guard that lives
  -- can be destroyed, and what is left is again such.
  pub live_guards :
      (s : Users R)
      → Used l s
      → AllZero s.results
      → Holding h s × ((t : ℕ) (g : Guard) → is_alive t g s.guards ≡ true → Destroys t g s)
  live_guards s u z =
      let held = Used-Holding s u z in (held, λ t g alive. destroy_alive t g s held alive)
