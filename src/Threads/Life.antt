-- ===== src/Threads/Life.antt =====
-- Which uses of a `Thread` (source/base/thread/thread.cpp) return.
use ffnetwork.Common.{
  ◌↔◌, ℕ, zero, suc, ◌≡◌, refl, sym, ap, ◌∙◌, true, false, List, [], ◌∷◌, some, Outcome-cases, ok,
  inl, inr, arith,
}
use ffnetwork.Threads.{
  Thread, new_thread, Action, posts_terminate, joins, start, join, destroy_thread, Use, starts,
  joins_it, use_thread, live_thread,
}

-- `Join`, ran often ran this.
abbrev pub joins_times : ℕ → List Use
joins_times zero = []
joins_times (suc n) = joins_it ∷ joins_times n

running : ℕ → Thread
running id = record { handle = some true; task_runner = some id; joined = false }

ended : ℕ → Thread
ended id = record { handle = some false; task_runner = some id; joined = true }

restarted : ℕ → Thread
restarted id = record { handle = some true; task_runner = some id; joined = true }

restarted-terminates :
    (id : ℕ) (us : List Use) (ran : List Action) → live_thread us (restarted id) ≡ ok ran → ⊥
unfolding live_thread use_thread destroy_thread restarted start join
restarted-terminates id [] ran h = cc
restarted-terminates id (joins_it ∷ us) ran h =
    elim (Outcome-cases (live_thread us (restarted id))) [
      | inl (bs, e) ↦ restarted-terminates id us bs e
      | inr (f, e) ↦ ground arith
    ]
restarted-terminates id (starts i ∷ us) ran h = cc

ended-joins :
    (id : ℕ) (us : List Use) (ran : List Action)
    → live_thread us (ended id) ≡ ok ran
    → (n : ℕ) × (us ≡ joins_times n) × (ran ≡ [])
unfolding live_thread use_thread destroy_thread ended restarted start join
ended-joins id [] ran h = (0, refl, cc)
ended-joins id (joins_it ∷ us) ran h = elim (Outcome-cases (live_thread us (ended id))) [
  | inl (bs, e) ↦
      let (n, same, nothing) = ended-joins id us bs e in
      (suc n, ap (◌∷◌ joins_it) same, ground arith)
  | inr (f, e) ↦ absurd (ground arith)
]
ended-joins id (starts i ∷ us) ran h = elim (Outcome-cases (live_thread us (restarted i))) [
  | inl (bs, e) ↦ absurd (restarted-terminates i us bs e)
  | inr (f, e) ↦ absurd (ground arith)
]

ended-ok : (id n : ℕ) → live_thread (joins_times n) (ended id) ≡ ok []
unfolding live_thread use_thread destroy_thread ended join
ended-ok id zero = refl
ended-ok id (suc n) = rw (ended-ok id n)

used_well :
    (id n : ℕ)
    → live_thread (starts id ∷ joins_times n) new_thread ≡ ok (posts_terminate id ∷ joins ∷ [])
unfolding live_thread use_thread destroy_thread ended start join
used_well id zero = refl
used_well id (suc n) = rw (ended-ok id n)

running-ok :
    (id : ℕ) (us : List Use) (ran : List Action)
    → live_thread us (running id) ≡ ok ran
    → (n : ℕ) × (us ≡ joins_times n)
unfolding live_thread use_thread destroy_thread running ended start join
running-ok id [] ran h = (0, refl)
running-ok id (starts i ∷ us) ran h = absurd cc
running-ok id (joins_it ∷ us) ran h = elim (Outcome-cases (live_thread us (ended id))) [
  | inl (bs, e) ↦ let (n, same, nothing) = ended-joins id us bs e in (suc n, ap (◌∷◌ joins_it) same)
  | inr (f, e) ↦ absurd (ground arith)
]

started_first :
    (us : List Use) (ran : List Action)
    → live_thread us new_thread ≡ ok ran
    → (id n : ℕ) × (us ≡ starts id ∷ joins_times n)
unfolding live_thread use_thread destroy_thread running start join
started_first [] ran h = absurd cc
started_first (joins_it ∷ us) ran h = absurd cc
started_first (starts id ∷ us) ran h = elim (Outcome-cases (live_thread us (running id))) [
  | inl (bs, e) ↦ let (n, same) = running-ok id us bs e in (id, n, ap (◌∷◌ (starts id)) same)
  | inr (f, e) ↦ absurd (ground arith)
]

live_thread_at :
    (us : List Use) (ran : List Action) (id n : ℕ)
    → us ≡ starts id ∷ joins_times n
    → live_thread us new_thread ≡ ok (posts_terminate id ∷ joins ∷ [])
live_thread_at us ran id n same = ap (λ vs. live_thread vs new_thread) same ∙ used_well id n

-- A new thread that is used and then destroyed returns exactly if it is started once, before
-- everything else, and joined any number of times; then it posts the task that ends its loop once
-- and waits for its thread once, after that.
pub live_thread_lem :
    (us : List Use) (ran : List Action)
    → (live_thread us new_thread ≡ ok ran)
      ↔ ((id n : ℕ) × (us ≡ starts id ∷ joins_times n) × (ran ≡ posts_terminate id ∷ joins ∷ []))
live_thread_lem us ran = (
  λ h.
      let (id, n, same) = started_first us ran h in
      let both : ok ran ≡ ok (posts_terminate id ∷ joins ∷ []) =
        sym h ∙ live_thread_at us ran id n same in
      (id, n, same, cc),
  λ w. live_thread_at us ran w.0 w.1 w.2 ∙ ap ok (sym w.3),
)
