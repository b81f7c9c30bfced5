-- ===== src/Locks/Tests/Posix.antt =====
-- A lock that does what POSIX says of a `pthread_rwlock_t`, for at most two readers.
use mathlib.Core.Path.{subst}
use ffnetwork.Common.{
  ℕ, ◌≡◌, ◌≢◌, refl, sym, ap, inl, inr, true, false, ◌==◌, Bool-cases, List, [], ◌∷◌, Option, none,
  some, arith, if◌then◌else◌,
}
use ffnetwork.Locks.{RwLock}
use ffnetwork.Locks.Holders.{
  is_reader, without_reader, Holders, IsFree, Written, Shared, RwLockLaws,
}

pub data Held : Type 0 where
  held_shared : List ℕ → Held
  held_unique : ℕ → Held

abbrev read_once : ℕ → List ℕ → ℕ × Held
read_once t [] = (0, held_shared (t ∷ []))
read_once t (u ∷ []) = (0, held_shared (t ∷ u ∷ []))
read_once t (u ∷ v ∷ us) = (11, held_shared (u ∷ v ∷ us))

abbrev write_once : ℕ → Held → ℕ × Held
write_once t (held_shared []) = (0, held_unique t)
write_once t (held_shared (u ∷ us)) = (16, held_shared (u ∷ us))
write_once t (held_unique u) = (16, held_unique u)

abbrev wait_to_write : ℕ → Held → Option (ℕ × Held)
wait_to_write t (held_shared []) = some (0, held_unique t)
wait_to_write t (held_shared (u ∷ us)) = none
wait_to_write t (held_unique u) = if t == u then some (35, held_unique u) else none

abbrev wait_to_read : ℕ → Held → Option (ℕ × Held)
wait_to_read t (held_shared us) = some (read_once t us)
wait_to_read t (held_unique u) = none

abbrev try_to_read : ℕ → Held → ℕ × Held
try_to_read t (held_shared us) = read_once t us
try_to_read t (held_unique u) = (16, held_unique u)

abbrev give_up : ℕ → Held → Option (ℕ × Held)
give_up t (held_shared us) =
    if is_reader t us then some (0, held_shared (without_reader t us)) else none
give_up t (held_unique u) = if u == t then some (0, held_shared []) else none

abbrev pub posix : RwLock Held
posix = record {
  init = held_shared [];
  wrlock = wait_to_write;
  rdlock = wait_to_read;
  trywrlock = write_once;
  tryrdlock = try_to_read;
  unlock = give_up;
}

abbrev writer_of : Held → Option ℕ
writer_of (held_shared us) = none
writer_of (held_unique u) = some u

abbrev readers_of : Held → List ℕ
readers_of (held_shared us) = us
readers_of (held_unique u) = []

abbrev pub holders : Holders Held
holders = record { writer = writer_of; readers = readers_of }

written_lem : (t : ℕ) (r : Held) → held_unique t ≡ r → Written holders t (held_shared []) r
written_lem t r e = subst (Written holders t (held_shared [])) e ((refl, refl), refl, refl)

read_lem :
    (t : ℕ) (us : List ℕ) (r : Held)
    → held_shared (t ∷ us) ≡ r
    → Shared holders t (held_shared us) r
read_lem t us r e = subst (Shared holders t (held_shared us)) e (refl, refl, refl)

wrlock_lem : (t : ℕ) (r r' : Held) → wait_to_write t r ≡ some (0, r') → Written holders t r r'
wrlock_lem t (held_shared []) r' e = written_lem t r' (ground arith)
wrlock_lem t (held_shared (u ∷ us)) r' e = absurd cc
wrlock_lem t (held_unique u) r' e = absurd (ground arith)

read_once_lem :
    (t : ℕ) (us : List ℕ) (r' : Held)
    → read_once t us ≡ (0, r')
    → Shared holders t (held_shared us) r'
read_once_lem t [] r' e = read_lem t [] r' (ap (λ p. p.1) e)
read_once_lem t (u ∷ []) r' e = read_lem t (u ∷ []) r' (ap (λ p. p.1) e)
read_once_lem t (u ∷ v ∷ us) r' e =
    let numbers : 11 ≡ 0 = ap (λ (p : ℕ × Held). p.0) e in absurd (ground arith)

read_once_fails :
    (t result : ℕ) (us : List ℕ) (r' : Held)
    → read_once t us ≡ (result, r')
    → result ≢ 0
    → r' ≡ held_shared us
read_once_fails t result [] r' e ne = absurd (ne (sym (ap (λ (p : ℕ × Held). p.0) e)))
read_once_fails t result (u ∷ []) r' e ne = absurd (ne (sym (ap (λ (p : ℕ × Held). p.0) e)))
read_once_fails t result (u ∷ v ∷ us) r' e ne = sym (ap (λ p. p.1) e)

rdlock_lem : (t : ℕ) (r r' : Held) → wait_to_read t r ≡ some (0, r') → Shared holders t r r'
rdlock_lem t (held_shared us) r' e =
    let inner : read_once t us ≡ (0, r') = cc in read_once_lem t us r' inner
rdlock_lem t (held_unique u) r' e = absurd cc

rdlock_fails_lem :
    (t result : ℕ) (r r' : Held) → wait_to_read t r ≡ some (result, r') → result ≢ 0 → r' ≡ r
rdlock_fails_lem t result (held_shared us) r' e ne =
    let inner : read_once t us ≡ (result, r') = cc in read_once_fails t result us r' inner ne
rdlock_fails_lem t result (held_unique u) r' e ne = absurd cc

trywrlock_lem : (t : ℕ) (r r' : Held) → write_once t r ≡ (0, r') → Written holders t r r'
trywrlock_lem t (held_shared []) r' e = written_lem t r' (ap (λ p. p.1) e)
trywrlock_lem t (held_shared (u ∷ us)) r' e =
    let numbers : 16 ≡ 0 = ap (λ (p : ℕ × Held). p.0) e in absurd (ground arith)
trywrlock_lem t (held_unique u) r' e =
    let numbers : 16 ≡ 0 = ap (λ (p : ℕ × Held). p.0) e in absurd (ground arith)

trywrlock_fails_lem :
    (t result : ℕ) (r r' : Held)
    → write_once t r ≡ (result, r')
    → result ≢ 0
    → (r' ≡ r) × (IsFree holders r → ⊥)
trywrlock_fails_lem t result (held_shared []) r' e ne =
    absurd (ne (sym (ap (λ (p : ℕ × Held). p.0) e)))
trywrlock_fails_lem t result (held_shared (u ∷ us)) r' e ne =
    (sym (ap (λ p. p.1) e), λ free. let no_readers = free.1 in cc)
trywrlock_fails_lem t result (held_unique u) r' e ne =
    (sym (ap (λ p. p.1) e), λ free. let no_writer = free.0 in cc)

tryrdlock_lem : (t : ℕ) (r r' : Held) → try_to_read t r ≡ (0, r') → Shared holders t r r'
tryrdlock_lem t (held_shared us) r' e = read_once_lem t us r' e
tryrdlock_lem t (held_unique u) r' e =
    let numbers : 16 ≡ 0 = ap (λ (p : ℕ × Held). p.0) e in absurd (ground arith)

tryrdlock_fails_lem :
    (t result : ℕ) (r r' : Held) → try_to_read t r ≡ (result, r') → result ≢ 0 → r' ≡ r
tryrdlock_fails_lem t result (held_shared us) r' e ne = read_once_fails t result us r' e ne
tryrdlock_fails_lem t result (held_unique u) r' e ne = sym (ap (λ p. p.1) e)

release_writer :
    (t : ℕ) (r : Held)
    → writer_of r ≡ some t
    → (result : ℕ) × (r' : Held) × (give_up t r ≡ some (result, r'))
      × (writer_of r' ≡ none)
      × (readers_of r' ≡ readers_of r)
release_writer t (held_shared us) h = absurd cc
release_writer t (held_unique u) h =
    let same : u ≡ t = cc in (0, held_shared [], ground arith, refl, refl)

release_reader :
    (t : ℕ) (r : Held)
    → writer_of r ≡ none
    → is_reader t (readers_of r) ≡ true
    → (result : ℕ) × (r' : Held) × (give_up t r ≡ some (result, r'))
      × (writer_of r' ≡ none)
      × (readers_of r' ≡ without_reader t (readers_of r))
release_reader t (held_shared us) h g = (0, held_shared (without_reader t us), rw g, refl, refl)
release_reader t (held_unique u) h g = absurd cc

release_unheld :
    (t : ℕ) (r : Held)
    → writer_of r ≢ some t
    → is_reader t (readers_of r) ≡ false
    → give_up t r ≡ none
release_unheld t (held_shared us) h g = rw g
release_unheld t (held_unique u) h g = elim (Bool-cases (u == t)) [
  | inl hit ↦ absurd (h (ground arith))
  | inr miss ↦ rw miss
]

pub posix_laws : RwLockLaws posix holders
posix_laws = record {
  init_free = (refl, refl);
  wrlock_gets = wrlock_lem;
  rdlock_gets = rdlock_lem;
  rdlock_fails = rdlock_fails_lem;
  trywrlock_gets = trywrlock_lem;
  trywrlock_fails = trywrlock_fails_lem;
  tryrdlock_gets = tryrdlock_lem;
  tryrdlock_fails = tryrdlock_fails_lem;
  unlock_writer = release_writer;
  unlock_reader = release_reader;
  unlock_unheld = release_unheld;
}
