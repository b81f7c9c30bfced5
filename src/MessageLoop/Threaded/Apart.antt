-- ===== src/MessageLoop/Threaded/Apart.antt =====
-- Threads have loops of their own (source/base/messageloop/message_loop.cpp, thread_local.h).
use mathlib.Core.Path.{subst}
use ffnetwork.Common.{
  ℕ, suc, ◌+◌, ◌%◌, ◌^◌, ◌<◌, ◌≤◌, ◌≡◌, ◌≢◌, refl, sym, ap, ◌∙◌, Bool, true, false, ◌==◌, List, [],
  ◌∷◌, ◌++◌, All, Option, none, some, Option-cases, inl, inr, Outcome, Outcome-cases, ok, err,
  check_failed, All-map, length, arith,
}
use ffnetwork.Common.Maps.{
  number_key, number_sound, lookup, insert, erase, AllOf, lookup-insert, lookup-erase, AllOf-insert,
  AllOf-erase,
}
use ffnetwork.TaskQueues.Access.{create-set_wakeable}
use ffnetwork.TaskQueues.{TaskQueues, create_task_queue}
use ffnetwork.ThreadLocal.{ThreadLocal, no_pointers, get, swap, reset, exit_thread}
use ffnetwork.MessageLoop.{Loop, new_loop}
use ffnetwork.MessageLoop.Threaded.{
  Loops, LoopStep, ensures, exits, no_loops, get_current, initialize, ensure_initialized, loop_step,
  loop_steps,
}

module _ {C : Type 0} where
  new_loop-eq :
      (q : TaskQueues C) (self : Option ℕ)
      → (w : Loop C) × (new_loop q self ≡ ok (w, q.task_queue_id_counter))
        × (w.queues.task_queue_id_counter ≡ (q.task_queue_id_counter + 1) % 2 ^ 64)
  unfolding new_loop create_task_queue
  new_loop-eq q self =
      let (q', set, counter) = create-set_wakeable q self in
      (record { queues = q'; terminated = false; log = []; wakes = [] }, rw set, counter)

-- No number comes twice.
abbrev pub Distinct : List ℕ → Type 0
Distinct [] = Unit
Distinct (x ∷ xs) = All (λ y. y ≢ x) xs × Distinct xs

All-snoc : (P : ℕ → Type 0) (xs : List ℕ) (v : ℕ) → All P xs → P v → All P (xs ++ v ∷ [])
All-snoc P [] v a p = (p, tt)
All-snoc P (x ∷ xs) v a p = (a.0, All-snoc P xs v a.1 p)

Distinct-snoc : (xs : List ℕ) (v : ℕ) → Distinct xs → All (λ y. y ≢ v) xs → Distinct (xs ++ v ∷ [])
Distinct-snoc [] v d a = (tt, tt)
Distinct-snoc (x ∷ xs) v d a =
    (All-snoc (λ y. y ≢ x) xs v d.0 (λ e. a.0 (sym e)), Distinct-snoc xs v d.1 a.1)

-- The loops of the threads that have one, and those that were deleted.
pub record Separate (counter : ℕ) (t : ThreadLocal ℕ) : Type 0 where
  pub below : AllOf (λ thread id. id < counter) t.pointers
  pub apart :
      (a b i j : ℕ) → lookup a t.pointers ≡ some i → lookup b t.pointers ≡ some j → a ≢ b → i ≢ j
  pub kept : AllOf (λ thread id. All (λ d. d ≢ id) t.deleted) t.pointers
  pub past : All (λ d. d < counter) t.deleted
  pub once : Distinct t.deleted

erase-apart :
    (thread : ℕ) (m : List (ℕ × ℕ)) (a : ℕ) (i : ℕ)
    → lookup a (erase thread m) ≡ some i
    → (lookup a m ≡ some i) × ((thread == a) ≡ false)
erase-apart thread m a i h = ground (arith, lookup-erase thread a m)

exit-Separate :
    (counter thread : ℕ) (t : ThreadLocal ℕ)
    → Separate counter t
    → Separate counter (exit_thread thread t)
unfolding exit_thread
exit-Separate n thread t v =
    let fewer =
      λ (a b i j : ℕ) (ha : lookup a (erase thread t.pointers) ≡ some i)
          (hb : lookup b (erase thread t.pointers) ≡ some j).
        v.apart a b i j (erase-apart thread t.pointers a i ha).0
          (erase-apart thread t.pointers b j hb).0 in
    elim (Option-cases (lookup thread t.pointers)) [
      | inl missing ↦ rw missing record {
        below = AllOf-erase (λ u id. id < n) thread t.pointers v.below;
        apart = fewer;
        kept = AllOf-erase (λ u id. All (λ d. d ≢ id) t.deleted) thread t.pointers v.kept;
        past = v.past;
        once = v.once;
      }
      | inr (id, at) ↦ rw at record {
        below = AllOf-erase (λ u i. i < n) thread t.pointers v.below;
        apart = fewer;
        kept = λ u i h.
            let (there, other) = erase-apart thread t.pointers u i h in
            All-snoc (λ d. d ≢ i) t.deleted id (v.kept u i there)
              (v.apart thread u id i at there (λ e. grind arith));
        past = All-snoc (λ d. d < n) t.deleted id v.past (v.below thread id at);
        once = Distinct-snoc t.deleted id v.once (v.kept thread id at);
      }
    ]

start-Separate :
    (counter thread : ℕ) (t : ThreadLocal ℕ)
    → lookup thread t.pointers ≡ none
    → Separate counter t
    → Separate (suc counter) (record t { pointers = insert thread counter t.pointers })
start-Separate n thread t free v = record {
  below =
      AllOf-insert (λ u id. id < suc n) thread n t.pointers (omega arith)
        (λ u id h. omega (arith, v.below u id h));
  apart = λ a b i j ha hb ne. grind (
    arith,
    lookup-insert thread a n t.pointers,
    lookup-insert thread b n t.pointers,
    v.below a i,
    v.below b j,
    v.apart a b i j,
    number_sound thread a,
    number_sound thread b,
  );
  kept =
      AllOf-insert (λ u id. All (λ d. d ≢ id) t.deleted) thread n t.pointers
        (All-map (λ d. d < n) _ t.deleted (λ d h e. omega arith) v.past) v.kept;
  past = All-map (λ d. d < n) _ t.deleted (λ d h. omega arith) v.past;
  once = v.once;
}

no_loops-Separate : Separate 0 no_pointers
unfolding lookup
no_loops-Separate = record {
  below = λ k v h. absurd cc;
  apart = λ a b i j h k. absurd cc;
  kept = λ k v h. absurd cc;
  past = tt;
  once = tt;
}

module _ {C : Type 0} where
  -- `EnsureInitializedForCurrentThread` of a thread without a loop.
  initialize-eq :
      (thread : ℕ) (self : Option ℕ) (s : Loops C)
      → get thread s.tls_message_loop ≡ none
      → s.queues.task_queue_id_counter + 1 < 2 ^ 64
      → (s' : Loops C) × (initialize thread true self s ≡ ok s')
        × (s'.queues.task_queue_id_counter ≡ suc s.queues.task_queue_id_counter)
        × (s'.tls_message_loop ≡ record s.tls_message_loop {
          pointers = insert thread s.queues.task_queue_id_counter s.tls_message_loop.pointers;
        })
  unfolding initialize reset swap
  initialize-eq thread self s free small =
      let (w, made, counter) = new_loop-eq s.queues self in
      let tls = record s.tls_message_loop {
        pointers = insert thread s.queues.task_queue_id_counter s.tls_message_loop.pointers;
      } in
      (
        record { queues = w.queues; tls_message_loop = tls },
        rw (made, free),
        counter ∙ omega (arith, small),
        refl,
      )

  initialize-failed :
      (thread : ℕ) (self : Option ℕ) (s : Loops C)
      → initialize thread false self s ≡ err check_failed
  unfolding initialize reset swap
  initialize-failed thread self s = rw ((new_loop-eq s.queues self).1)

  ensures-held :
      (thread id : ℕ) (set_ok : Bool) (self : Option ℕ) (s : Loops C)
      → get thread s.tls_message_loop ≡ some id
      → loop_step (ensures thread set_ok self) s ≡ ok s
  unfolding loop_step ensure_initialized
  ensures-held thread id set_ok self s h = rw (h, ensure_initialized) refl

  ensures-free :
      (thread : ℕ) (set_ok : Bool) (self : Option ℕ) (s : Loops C)
      → get thread s.tls_message_loop ≡ none
      → loop_step (ensures thread set_ok self) s ≡ initialize thread set_ok self s
  unfolding loop_step ensure_initialized
  ensures-free thread set_ok self s h =
      ap
        (λ (o : Option ℕ). elim o as (λ x. Outcome (Loops C)) [
          | some id ↦ ok s
          | none ↦ initialize thread set_ok self s
        ])
        h

  current_at :
      (s : Loops C) (thread id : ℕ)
      → get_current thread s ≡ ok id
      → lookup thread s.tls_message_loop.pointers ≡ some id
  unfolding get_current
  current_at s thread id h = ground arith

  abbrev Sound : ℕ → Loops C → Type 0
  Sound n s =
      Separate s.queues.task_queue_id_counter s.tls_message_loop
      × (s.queues.task_queue_id_counter ≤ n)

  loop_step-Sound :
      (n : ℕ) (t : LoopStep) (s s' : Loops C)
      → n + 1 < 2 ^ 64
      → Sound n s
      → loop_step t s ≡ ok s'
      → Sound (suc n) s'
  unfolding loop_step ensure_initialized
  loop_step-Sound n (exits thread) s s' small v h =
      let same : record s { tls_message_loop = exit_thread thread s.tls_message_loop } ≡ s' = cc in
      subst (Sound (suc n)) same (
        exit-Separate s.queues.task_queue_id_counter thread s.tls_message_loop v.0,
        omega (arith, v.1),
      )
  loop_step-Sound n (ensures thread set_ok self) s s' small v h =
      elim (Option-cases (get thread s.tls_message_loop)) [
        | inr (id, held) ↦
            let same : s ≡ s' = let e = sym (ensures-held thread id set_ok self s held) ∙ h in cc in
            subst (Sound (suc n)) same (v.0, omega (arith, v.1))
        | inl free ↦ started set_ok free (sym (ensures-free thread set_ok self s free) ∙ h)
      ]
    where
      started :
          (set_ok : Bool)
          → get thread s.tls_message_loop ≡ none
          → initialize thread set_ok self s ≡ ok s'
          → Sound (suc n) s'
      started false free e = let failed = sym (initialize-failed thread self s) ∙ e in absurd cc
      started true free e =
          let (t, made, counter, tls) =
            initialize-eq thread self s free (omega (arith, small, v.1)) in
          let same : t ≡ s' = let both = sym made ∙ e in cc in
          let separate =
            start-Separate s.queues.task_queue_id_counter thread s.tls_message_loop free v.0 in
          subst (Sound (suc n)) same (rw (counter, tls) separate, omega (arith, counter, v.1))

  loop_steps-Sound :
      (n : ℕ) (ts : List LoopStep) (s s' : Loops C)
      → n + length ts < 2 ^ 64
      → Sound n s
      → loop_steps ts s ≡ ok s'
      → Separate s'.queues.task_queue_id_counter s'.tls_message_loop
  unfolding loop_steps
  loop_steps-Sound n [] s s' small v h =
      let same : s ≡ s' = cc in
      subst (λ x. Separate x.queues.task_queue_id_counter x.tls_message_loop) same v.0
  loop_steps-Sound n (t ∷ ts) s s' small v h = elim (Outcome-cases (loop_step t s)) [
    | inl (s1, e) ↦
        loop_steps-Sound (suc n) ts s1 s' (omega (arith, small))
          (loop_step-Sound n t s s1 (omega (arith, small)) v e) (ground arith)
    | inr (f, e) ↦ absurd (ground arith)
  ]

  -- However threads start to use loops and end, in fewer than 2^64 steps that returned: two threads
  -- never have one loop, nobody has a loop that was deleted, and no loop is deleted twice.
  pub loops_apart :
      (ts : List LoopStep) (s : Loops C)
      → length ts < 2 ^ 64
      → loop_steps ts no_loops ≡ ok s
      → ((a b i j : ℕ) → get_current a s ≡ ok i → get_current b s ≡ ok j → a ≢ b → i ≢ j)
        × ((a i : ℕ) → get_current a s ≡ ok i → All (λ d. d ≢ i) s.tls_message_loop.deleted)
        × Distinct s.tls_message_loop.deleted
  loops_apart ts s small h =
      let v =
        loop_steps-Sound 0 ts no_loops s (omega (arith, small)) (no_loops-Separate, omega arith)
          h in
      let at = λ (a i : ℕ) (g : get_current a s ≡ ok i). current_at s a i g in
      (λ a b i j g k. v.apart a b i j (at a i g) (at b j k), λ a i g. v.kept a i (at a i g), v.once)
