-- ===== src/Net/Sync/Progress.antt =====
-- The call of source/net/client.cpp returns, with the response.
use ffnetwork.Common.{
  ℕ, ◌+◌, ◌*◌, ◌<◌, ◌≤◌, ◌≡◌, ◌≢◌, refl, Bool, true, false, Option, none, some, arith, inl, inr,
  ◌⊎◌,
}
use ffnetwork.Net.Sync.{
  caller, callback, CallerPc, locking, checking, sleeping, waking, returned, CallbackPc, before,
  storing, readying, notifying, finished, Sync, Move, take_lock, check_ready, spurious, wake_up,
  callback_lock, store_response, store_ready, notify_one, notified, move, Reach, start, then_move,
}

-- The owner that the places of the two threads call for.
abbrev pub caller_holds : {R : Type 0} → CallerPc R → Bool
caller_holds checking = true
caller_holds locking = false
caller_holds sleeping = false
caller_holds waking = false
caller_holds (returned o) = false

abbrev pub callback_holds : CallbackPc → Bool
callback_holds storing = true
callback_holds readying = true
callback_holds before = false
callback_holds notifying = false
callback_holds finished = false

-- The callback has set the flag.
abbrev pub is_set : CallbackPc → Bool
is_set notifying = true
is_set finished = true
is_set before = false
is_set storing = false
is_set readying = false

pub record Inv {R : Type 0} (r : R) (s : Sync R) : Type 0 where
  pub by_caller : caller_holds s.caller_pc ≡ true → s.owner ≡ some caller
  pub by_callback : callback_holds s.callback_pc ≡ true → s.owner ≡ some callback
  pub flag : s.response_ready ≡ is_set s.callback_pc
  pub stored : s.response_ready ≡ true → s.output_response ≡ some r
  pub readied : s.callback_pc ≡ readying → s.output_response ≡ some r
  pub awake : s.callback_pc ≡ finished → s.caller_pc ≢ sleeping
  pub result : (o : Option R) → s.caller_pc ≡ returned o → o ≡ some r
  pub free :
      caller_holds s.caller_pc ≡ false → callback_holds s.callback_pc ≡ false → s.owner ≡ none

move-Inv : {R : Type 0} (r : R) (m : Move) (s t : Sync R) → Inv r s → move r m s ≡ some t → Inv r t
unfolding move
move-Inv r take_lock s t v h = grind arith
move-Inv r check_ready s t v h = grind arith
move-Inv r spurious s t v h = grind arith
move-Inv r wake_up s t v h = grind arith
move-Inv r callback_lock s t v h = grind arith
move-Inv r store_response s t v h = grind arith
move-Inv r store_ready s t v h = grind arith
move-Inv r notify_one s t v h = grind arith

Reach-Inv : {R : Type 0} (r : R) (s : Sync R) → Reach r s → Inv r s
Reach-Inv r s start = grind arith
Reach-Inv r t (then_move {s = s} reach m h) = move-Inv r m s t (Reach-Inv r s reach) h

-- Every move but a wake-up without a cause.
abbrev pub is_real : Move → Bool
is_real spurious = false
is_real take_lock = true
is_real check_ready = true
is_real wake_up = true
is_real callback_lock = true
is_real store_response = true
is_real store_ready = true
is_real notify_one = true

abbrev pub callback_rank : CallbackPc → ℕ
callback_rank before = 4
callback_rank storing = 3
callback_rank readying = 2
callback_rank notifying = 1
callback_rank finished = 0

abbrev pub caller_rank : {R : Type 0} → CallerPc R → ℕ
caller_rank locking = 4
caller_rank waking = 4
caller_rank checking = 3
caller_rank sleeping = 2
caller_rank (returned o) = 0

-- How many moves are left, at most.
abbrev pub measure : {R : Type 0} → Sync R → ℕ
measure s = callback_rank s.callback_pc * 10 + caller_rank s.caller_pc

move-measure :
    {R : Type 0} (r : R) (m : Move) (s t : Sync R)
    → is_real m ≡ true
    → move r m s ≡ some t
    → measure t < measure s
unfolding move
move-measure r take_lock s t real h = ground arith
move-measure r check_ready s t real h = ground arith
move-measure r spurious s t real h = cc
move-measure r wake_up s t real h = ground arith
move-measure r callback_lock s t real h = ground arith
move-measure r store_response s t real h = ground arith
move-measure r store_ready s t real h = ground arith
move-measure r notify_one s t real h = ground arith

-- The call has returned the response, or a thread can move.
abbrev pub CanMove : {R : Type 0} → R → Sync R → Type 0
CanMove r s =
    (s.caller_pc ≡ returned (some r))
    ⊎ ((m : Move) × (t : Sync _) × (is_real m ≡ true) × (move r m s ≡ some t))

can_move :
    {R : Type 0} (r : R) (s : Sync R) (p : CallerPc R) (q : CallbackPc)
    → s.caller_pc ≡ p
    → s.callback_pc ≡ q
    → Inv r s
    → CanMove r s
unfolding move
can_move r s p storing e f v = inr (
  store_response,
  record s { output_response = some r; callback_pc = readying },
  refl,
  ground arith,
)
can_move r s p readying e f v = inr (
  store_ready,
  record s { response_ready = true; owner = none; callback_pc = notifying },
  refl,
  ground arith,
)
can_move r s p notifying e f v = inr (
  notify_one,
  record s { callback_pc = finished; caller_pc = notified s.caller_pc },
  refl,
  ground arith,
)
can_move r s checking before e f v =
    inr (check_ready, record s { owner = none; caller_pc = sleeping }, refl, ground arith)
can_move r s locking before e f v =
    inr
      (callback_lock, record s { owner = some callback; callback_pc = storing }, refl, grind arith)
can_move r s sleeping before e f v =
    inr
      (callback_lock, record s { owner = some callback; callback_pc = storing }, refl, grind arith)
can_move r s waking before e f v =
    inr
      (callback_lock, record s { owner = some callback; callback_pc = storing }, refl, grind arith)
can_move r s (returned o) before e f v =
    inr
      (callback_lock, record s { owner = some callback; callback_pc = storing }, refl, grind arith)
can_move r s checking finished e f v = inr (
  check_ready,
  record s { owner = none; caller_pc = returned s.output_response },
  refl,
  ground arith,
)
can_move r s locking finished e f v =
    inr (take_lock, record s { owner = some caller; caller_pc = checking }, refl, grind arith)
can_move r s sleeping finished e f v = absurd (v.awake f e)
can_move r s waking finished e f v =
    inr (wake_up, record s { owner = some caller; caller_pc = checking }, refl, grind arith)
can_move r s (returned o) finished e f v = inl (grind arith)

-- However the moves of the two threads interleave, the call has returned with the response or a
-- thread can make a move that is not a wake-up without a cause; and each such move brings the end
-- nearer, so that no schedule has more than 44 of them between two wake-ups without a cause.
pub perform_request_sync_returns :
    {R : Type 0} (r : R) (s : Sync R)
    → Reach r s
    → CanMove r s
      × (measure s ≤ 44)
      × ((m : Move) (t : Sync R) → is_real m ≡ true → move r m s ≡ some t → measure t < measure s)
      × ((o : Option R) → s.caller_pc ≡ returned o → o ≡ some r)
perform_request_sync_returns r s reach =
    let v = Reach-Inv r s reach in
    (
      can_move r s s.caller_pc s.callback_pc refl refl v,
      ground arith,
      λ m t. move-measure r m s t,
      v.result,
    )

-- For every response there is an interleaving in which the call has returned, and with it has
-- destroyed its condition variable, while the callback has still to notify that variable.
pub notify_after_return :
    {R : Type 0} (r : R)
    → (s : Sync R) × Reach r s × (s.caller_pc ≡ returned (some r)) × (s.callback_pc ≡ notifying)
unfolding move
notify_after_return r =
    let a = then_move start callback_lock refl in
    let b = then_move a store_response refl in
    let c = then_move b store_ready refl in
    let d = then_move c take_lock refl in (_, then_move d check_ready refl, refl, refl)
