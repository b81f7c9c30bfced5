-- ===== src/Threads/Starting/Progress.antt =====
-- `Thread::Start` of source/base/thread/thread.cpp returns, with the new thread's task runner.
use ffnetwork.Common.{
  ℕ, ◌+◌, ◌*◌, ◌<◌, ◌≤◌, ◌≡◌, ◌≢◌, refl, Bool, true, false, Option, none, some, arith, inl, inr,
  ◌⊎◌,
}
use ffnetwork.Threads.Starting.{
  starter, child, StarterPc, locking, checking, sleeping, waking, returned, ChildPc, assigning,
  signalling, storing, notifying, unlocking, running, Starting, StartMove, take_lock, check_signal,
  spurious, wake_up, assign_runner, take_child_lock, set_signal, notify_starter, release_child_lock,
  woken, start_move, Reachable, begins, moves,
}

-- The owner that the places of the two threads call for.
abbrev pub starter_holds : {R : Type 0} → StarterPc R → Bool
starter_holds checking = true
starter_holds locking = false
starter_holds sleeping = false
starter_holds waking = false
starter_holds (returned o) = false

abbrev pub child_holds : ChildPc → Bool
child_holds storing = true
child_holds notifying = true
child_holds unlocking = true
child_holds assigning = false
child_holds signalling = false
child_holds running = false

-- The new thread has set the flag.
abbrev pub is_signalled : ChildPc → Bool
is_signalled notifying = true
is_signalled unlocking = true
is_signalled running = true
is_signalled assigning = false
is_signalled signalling = false
is_signalled storing = false

abbrev pub has_returned : {R : Type 0} → StarterPc R → Bool
has_returned (returned o) = true
has_returned checking = false
has_returned locking = false
has_returned sleeping = false
has_returned waking = false

pub record Inv {R : Type 0} (r : R) (s : Starting R) : Type 0 where
  pub by_starter : starter_holds s.starter_pc ≡ true → s.owner ≡ some starter
  pub by_child : child_holds s.child_pc ≡ true → s.owner ≡ some child
  pub free : starter_holds s.starter_pc ≡ false → child_holds s.child_pc ≡ false → s.owner ≡ none
  pub flag : has_returned s.starter_pc ≡ false → s.signaled ≡ is_signalled s.child_pc
  pub assigned : s.child_pc ≢ assigning → s.task_runner ≡ some r
  pub awake : s.child_pc ≡ unlocking → s.starter_pc ≢ sleeping
  pub awake_later : s.child_pc ≡ running → s.starter_pc ≢ sleeping
  pub result : (o : Option R) → s.starter_pc ≡ returned o → (o ≡ some r) × (s.child_pc ≡ running)

move-Inv :
    {R : Type 0} (r : R) (m : StartMove) (s t : Starting R)
    → Inv r s
    → start_move r m s ≡ some t
    → Inv r t
unfolding start_move
move-Inv r take_lock s t v h = grind arith
move-Inv r check_signal s t v h = grind arith
move-Inv r spurious s t v h = grind arith
move-Inv r wake_up s t v h = grind arith
move-Inv r assign_runner s t v h = grind arith
move-Inv r take_child_lock s t v h = grind arith
move-Inv r set_signal s t v h = grind arith
move-Inv r notify_starter s t v h = grind arith
move-Inv r release_child_lock s t v h = grind arith

Reachable-Inv : {R : Type 0} (r : R) (s : Starting R) → Reachable r s → Inv r s
Reachable-Inv r s begins = grind arith
Reachable-Inv r t (moves {s = s} reach m h) = move-Inv r m s t (Reachable-Inv r s reach) h

-- Every move but a wake-up without a cause.
abbrev pub is_real : StartMove → Bool
is_real spurious = false
is_real take_lock = true
is_real check_signal = true
is_real wake_up = true
is_real assign_runner = true
is_real take_child_lock = true
is_real set_signal = true
is_real notify_starter = true
is_real release_child_lock = true

abbrev pub child_rank : ChildPc → ℕ
child_rank assigning = 5
child_rank signalling = 4
child_rank storing = 3
child_rank notifying = 2
child_rank unlocking = 1
child_rank running = 0

abbrev pub starter_rank : {R : Type 0} → StarterPc R → ℕ
starter_rank locking = 4
starter_rank waking = 4
starter_rank checking = 3
starter_rank sleeping = 2
starter_rank (returned o) = 0

-- How many moves are left, at most.
abbrev pub start_measure : {R : Type 0} → Starting R → ℕ
start_measure s = child_rank s.child_pc * 10 + starter_rank s.starter_pc

start_move-measure :
    {R : Type 0} (r : R) (m : StartMove) (s t : Starting R)
    → is_real m ≡ true
    → start_move r m s ≡ some t
    → start_measure t < start_measure s
unfolding start_move
start_move-measure r take_lock s t real h = ground arith
start_move-measure r check_signal s t real h = ground arith
start_move-measure r spurious s t real h = cc
start_move-measure r wake_up s t real h = ground arith
start_move-measure r assign_runner s t real h = ground arith
start_move-measure r take_child_lock s t real h = ground arith
start_move-measure r set_signal s t real h = ground arith
start_move-measure r notify_starter s t real h = ground arith
start_move-measure r release_child_lock s t real h = ground arith

-- `Start` has returned the task runner, or a thread can move.
abbrev pub CanMove : {R : Type 0} → R → Starting R → Type 0
CanMove r s =
    (s.starter_pc ≡ returned (some r))
    ⊎ ((m : StartMove) × (t : Starting _) × (is_real m ≡ true) × (start_move r m s ≡ some t))

can_move :
    {R : Type 0} (r : R) (s : Starting R) (p : StarterPc R) (q : ChildPc)
    → s.starter_pc ≡ p
    → s.child_pc ≡ q
    → Inv r s
    → CanMove r s
unfolding start_move
can_move r s p assigning e f v =
    inr
      (assign_runner, record s { task_runner = some r; child_pc = signalling }, refl, ground arith)
can_move r s p storing e f v =
    inr (set_signal, record s { signaled = true; child_pc = notifying }, refl, ground arith)
can_move r s p notifying e f v = inr (
  notify_starter,
  record s { child_pc = unlocking; starter_pc = woken s.starter_pc },
  refl,
  ground arith,
)
can_move r s p unlocking e f v =
    inr (release_child_lock, record s { owner = none; child_pc = running }, refl, ground arith)
can_move r s checking signalling e f v =
    inr (check_signal, record s { owner = none; starter_pc = sleeping }, refl, grind arith)
can_move r s locking signalling e f v =
    inr (take_child_lock, record s { owner = some child; child_pc = storing }, refl, grind arith)
can_move r s sleeping signalling e f v =
    inr (take_child_lock, record s { owner = some child; child_pc = storing }, refl, grind arith)
can_move r s waking signalling e f v =
    inr (take_child_lock, record s { owner = some child; child_pc = storing }, refl, grind arith)
can_move r s (returned o) signalling e f v = inl (grind arith)
can_move r s checking running e f v = inr (
  check_signal,
  record s { owner = none; signaled = false; starter_pc = returned s.task_runner },
  refl,
  grind arith,
)
can_move r s locking running e f v =
    inr (take_lock, record s { owner = some starter; starter_pc = checking }, refl, grind arith)
can_move r s sleeping running e f v = absurd (v.awake_later f e)
can_move r s waking running e f v =
    inr (wake_up, record s { owner = some starter; starter_pc = checking }, refl, grind arith)
can_move r s (returned o) running e f v = inl (grind arith)

-- However the moves of `Start` and of its new thread interleave, `Start` has returned or a thread can
-- make a move that is not a wake-up without a cause; each such move brings the end nearer, so that no
-- schedule has more than 54 of them between two wake-ups without a cause; and when `Start` returns,
-- it has the new thread's task runner, and the new thread is done with the event on its stack.
pub start_returns :
    {R : Type 0} (r : R) (s : Starting R)
    → Reachable r s
    → CanMove r s
      × (start_measure s ≤ 54)
      × ((m : StartMove) (t : Starting R)
          → is_real m ≡ true
          → start_move r m s ≡ some t
          → start_measure t < start_measure s)
      × ((o : Option R) → s.starter_pc ≡ returned o → (o ≡ some r) × (s.child_pc ≡ running))
start_returns r s reach =
    let v = Reachable-Inv r s reach in
    (
      can_move r s s.starter_pc s.child_pc refl refl v,
      ground arith,
      λ m t. start_move-measure r m s t,
      v.result,
    )
