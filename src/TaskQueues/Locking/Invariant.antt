-- ===== src/TaskQueues/Locking/Invariant.antt =====
-- What holds between the queues that threads use at the same time and those that the same calls
-- leave one after the other (message_loop_task_queues.cpp).
use mathlib.Core.Path.{subst}
use mathlib.Core.List.{append-nil, append_assoc}
use ffnetwork.Common.{
  ℕ, ◌≡◌, ◌≢◌, sym, ap, ◌∙◌, false, ◌==◌, List, [], ◌∷◌, ◌++◌, Option, none, some, Bool-cases, inl,
  inr, ◌⊎◌, Outcome-cases, ok, arith,
}
use ffnetwork.Common.Maps.{
  number_key, number_sound, number_refl, lookup, insert, lookup-insert, AllOf,
}
use ffnetwork.TaskQueues.{TaskQueues, TaskQueueEntry, key_of}
use ffnetwork.TaskQueues.Lifecycle.{step}
use ffnetwork.TaskQueues.Locking.{
  QueueCall, Place, idle, entered, counted, loaded, leaving, System, place_of, the_place, op_of,
  effect, handed, returned, replay, given_by,
}
use ffnetwork.TaskQueues.Locking.Effects.{AllTimely}

module _ {C : Type 0} where
  -- The queue whose mutex a thread holds.
  abbrev pub at_queue : Place C → Option ℕ
  at_queue idle = none
  at_queue (entered id call) = some id
  at_queue (counted id call n) = some id
  at_queue (loaded id call n e) = some id
  at_queue (leaving id) = some id

  -- The call that used `order_` and has not written its entry.
  abbrev pub under_way : Place C → Option (ℕ × QueueCall C × ℕ)
  under_way idle = none
  under_way (entered id call) = none
  under_way (counted id call n) = some (id, call, n)
  under_way (loaded id call n e) = some (id, call, n)
  under_way (leaving id) = none

  -- Between the queues of the system and those that its log leaves, from `q`, call by call.
  pub record Inv (q : TaskQueues C) (s : System C) : Type 0 where
    pub seq : TaskQueues C
    pub out : List (ℕ × List C)
    pub ran : replay q [] s.log ≡ ok (seq, out)
    pub order : seq.order ≡ s.queues.order
    pub locks : seq.queue_locks ≡ s.queues.queue_locks
    pub timely : AllOf (λ k e. AllTimely e) seq.queue_entries
    pub owned :
        (i id : ℕ) → at_queue (place_of i s) ≡ some id → lookup (key_of id) s.owners ≡ some i
    pub free :
        (k : ℕ)
        → ((i id : ℕ) → at_queue (place_of i s) ≡ some id → key_of id ≢ k)
        → lookup k s.owners ≡ none
    pub locked :
        (i id : ℕ)
        → at_queue (place_of i s) ≡ some id
        → lookup (key_of id) s.queues.queue_locks ≡ some tt
    pub there :
        (i id : ℕ)
        → at_queue (place_of i s) ≡ some id
        → (e : TaskQueueEntry C) × (lookup (key_of id) s.queues.queue_entries ≡ some e)
    pub fresh :
        (i id : ℕ) (call : QueueCall C) (n : ℕ) (e : TaskQueueEntry C)
        → place_of i s ≡ loaded id call n e
        → lookup (key_of id) s.queues.queue_entries ≡ some e
    pub pending :
        (i id : ℕ) (call : QueueCall C) (n : ℕ) (e : TaskQueueEntry C)
        → under_way (place_of i s) ≡ some (id, call, n)
        → lookup (key_of id) s.queues.queue_entries ≡ some e
        → (lookup (key_of id) seq.queue_entries ≡ some (effect call n e))
          × (given_by (key_of id) out ≡ given_by (key_of id) s.given ++ handed call e)
    pub quiet :
        (k : ℕ)
        → ((i id : ℕ) (call : QueueCall C) (n : ℕ)
            → under_way (place_of i s) ≡ some (id, call, n)
            → key_of id ≢ k)
        → (lookup k seq.queue_entries ≡ lookup k s.queues.queue_entries)
          × (given_by k out ≡ given_by k s.given)

  -- After a move of `i`, the place of `i` is new, and those of the others are what they were.
  abbrev pub Placed : ℕ → ℕ → Place C → List (ℕ × Place C) → Type 0
  Placed i j p m =
      ((i ≡ j) × (the_place (lookup j (insert i p m)) ≡ p))
      ⊎ ((i ≢ j) × (the_place (lookup j (insert i p m)) ≡ the_place (lookup j m)))

  pub placed : (i j : ℕ) (p : Place C) (m : List (ℕ × Place C)) → Placed i j p m
  placed i j p m = elim (Bool-cases (i == j)) [
    | inl hit ↦
        let now : lookup j (insert i p m) ≡ some p = ground (arith, lookup-insert i j p m) in
        inl (number_sound i j hit, ap the_place now)
    | inr miss ↦
        let still : lookup j (insert i p m) ≡ lookup j m = ground (arith, lookup-insert i j p m) in
        inr (λ e. ground arith, ap the_place still)
  ]

  pub under_way-at_queue :
      (p : Place C) (id : ℕ) (call : QueueCall C) (n : ℕ)
      → under_way p ≡ some (id, call, n)
      → at_queue p ≡ some id
  under_way-at_queue p id call n h = ground arith

  -- Two threads that hold a mutex hold different ones.
  pub apart :
      (q : TaskQueues C) (s : System C) (v : Inv q s) (i j a b : ℕ)
      → at_queue (place_of i s) ≡ some a
      → at_queue (place_of j s) ≡ some b
      → i ≢ j
      → key_of a ≢ key_of b
  apart q s v i j a b f g ne same =
      let first = v.owned i a f in
      let second = v.owned j b g in
      let both : some i ≡ some j = sym first ∙ ap (λ k. lookup k s.owners) same ∙ second in ne cc

  pub replay-snoc :
      (q q1 q2 : TaskQueues C) (g g1 : List (ℕ × List C)) (ls : List (ℕ × QueueCall C)) (id : ℕ)
      (call : QueueCall C) (cs : List C)
      → replay q g ls ≡ ok (q1, g1)
      → returned q1 (op_of (id, call)) ≡ ok cs
      → step q1 (op_of (id, call)) ≡ ok q2
      → replay q g (ls ++ (id, call) ∷ []) ≡ ok (q2, g1 ++ (key_of id, cs) ∷ [])
  unfolding replay
  replay-snoc q q1 q2 g g1 [] id call cs h e f =
      let here : TaskQueues C × List (ℕ × List C) = (q, g) in
      let there : TaskQueues C × List (ℕ × List C) = (q1, g1) in
      let same : here ≡ there = cc in
      subst
        (λ (p : TaskQueues C × List (ℕ × List C)).
          replay p.0 p.1 ((id, call) ∷ []) ≡ ok (q2, g1 ++ (key_of id, cs) ∷ []))
        (sym same) (rw (e, f))
  replay-snoc q q1 q2 g g1 ((j, c) ∷ ls) id call cs h e f =
      elim (Outcome-cases (returned q (op_of (j, c)))) [
        | inl (xs, returns) ↦ elim (Outcome-cases (step q (op_of (j, c)))) [
          | inl (q', steps) ↦ rw (
            returns,
            steps,
            replay-snoc q' q1 q2 (g ++ (key_of j, xs) ∷ []) g1 ls id call cs
                (rw (returns, steps) at h) e f,
          )
          | inr (x, steps) ↦ absurd (ground arith)
        ]
        | inr (x, returns) ↦ absurd (ground arith)
      ]

  pub given_by-snoc_hit :
      (k : ℕ) (g : List (ℕ × List C)) (cs : List C)
      → given_by k (g ++ (k, cs) ∷ []) ≡ given_by k g ++ cs
  unfolding given_by
  given_by-snoc_hit k [] cs = rw (number_refl k, append-nil cs)
  given_by-snoc_hit k ((j, xs) ∷ g) cs = elim (Bool-cases (j == k)) [
    | inl hit ↦ rw (hit, given_by-snoc_hit k g cs, append_assoc xs (given_by k g) cs)
    | inr miss ↦ rw (miss, given_by-snoc_hit k g cs)
  ]

  pub given_by-snoc_miss :
      (j k : ℕ) (g : List (ℕ × List C)) (cs : List C)
      → (j == k) ≡ false
      → given_by k (g ++ (j, cs) ∷ []) ≡ given_by k g
  unfolding given_by
  given_by-snoc_miss j k [] cs miss = rw miss
  given_by-snoc_miss j k ((i, xs) ∷ g) cs miss = elim (Bool-cases (i == k)) [
    | inl hit ↦ rw (hit, given_by-snoc_miss j k g cs miss)
    | inr other ↦ rw (other, given_by-snoc_miss j k g cs miss)
  ]
