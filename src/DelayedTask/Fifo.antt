-- ===== src/DelayedTask/Fifo.antt =====
-- Where the priority queue puts a task whose order is the greatest.
use ffnetwork.Common.{
  ◌<◌, ◌≡◌, refl, true, false, List, [], ◌∷◌, ◌++◌, arith, Bool-cases, inl, inr, All,
}
use ffnetwork.Time.{point_gt}
use ffnetwork.DelayedTask.{DelayedTask, greater_than, push}
use ffnetwork.DelayedTask.Sorted.{IsSorted}

module _ {C : Type 0} where
  -- A task stands behind those that are due no later than it, and before those that are due later.
  abbrev pub Placed : DelayedTask C → List (DelayedTask C) → List (DelayedTask C) → Type 0
  Placed t q r =
      (before after : List (DelayedTask C)) × (q ≡ before ++ after)
      × (r ≡ before ++ t ∷ after)
      × All (λ y. point_gt y.target_time t.target_time ≡ false) before
      × All (λ y. point_gt y.target_time t.target_time ≡ true) after

  greater-time :
      (x t : DelayedTask C)
      → x.order < t.order
      → greater_than x t ≡ true
      → point_gt x.target_time t.target_time ≡ true
  unfolding greater_than
  greater-time x t h g = ground arith

  not_greater-gt :
      (x t : DelayedTask C)
      → greater_than x t ≡ false
      → point_gt x.target_time t.target_time ≡ false
  unfolding greater_than
  not_greater-gt x t g = ground arith

  rest-later :
      (x t : DelayedTask C) (q : List (DelayedTask C))
      → point_gt x.target_time t.target_time ≡ true
      → All (λ y. greater_than x y ≡ false) q
      → All (λ y. point_gt y.target_time t.target_time ≡ true) q
  rest-later x t [] h a = tt
  rest-later x t (y ∷ q) h a = (unfold greater_than in ground arith, rest-later x t q h a.1)

  pub push-Placed :
      (t : DelayedTask C) (q : List (DelayedTask C))
      → IsSorted q
      → All (λ y. y.order < t.order) q
      → Placed t q (push t q)
  unfolding push
  push-Placed t [] s a = ([], [], refl, refl, tt, tt)
  push-Placed t (x ∷ q) s a = elim (Bool-cases (greater_than x t)) [
    | inl g ↦
        let behind = greater-time x t a.0 g in
        ([], x ∷ q, refl, rw g, tt, (behind, rest-later x t q behind s.0))
    | inr g ↦
        let (before, after, e, f, b, c) = push-Placed t q s.1 a.1 in
        (x ∷ before, after, rw e, rw (g, f), (not_greater-gt x t g, b), c)
  ]

  pub push_cons :
      (t : DelayedTask C) (q : List (DelayedTask C))
      → (x : DelayedTask C) × (r : List (DelayedTask C)) × (push t q ≡ x ∷ r)
  unfolding push
  push_cons t [] = (t, [], refl)
  push_cons t (x ∷ q) = elim (Bool-cases (greater_than x t)) [
    | inl g ↦ (t, x ∷ q, rw g)
    | inr g ↦ (x, push t q, rw g)
  ]
