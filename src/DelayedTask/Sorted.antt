-- ===== src/DelayedTask/Sorted.antt =====
-- The order of tasks, and what the priority queue keeps.
use mathlib.Core.List.{Perm}
use mathlib.Core.List.Perm
use ffnetwork.Common.{
  ◌≡◌, inl, inr, true, false, List, [], ◌∷◌, ◌++◌, arith, All, All-map, Bool-cases,
}
use ffnetwork.Time.{TimePoint, point_gt}
use ffnetwork.DelayedTask.{DelayedTask, greater_than, push}

module _ {C : Type 0} where
  -- Of two tasks one is not greater than the other.
  pub greater_than_total :
      (a b : DelayedTask C) → greater_than a b ≡ true → greater_than b a ≡ false
  unfolding greater_than
  greater_than_total a b h = ground arith

  pub not_greater_trans :
      (a b c : DelayedTask C)
      → greater_than a b ≡ false
      → greater_than b c ≡ false
      → greater_than a c ≡ false
  unfolding greater_than
  not_greater_trans a b c h k = ground arith

  -- No task is greater than a later one.
  abbrev pub IsSorted : List (DelayedTask C) → Type 0
  IsSorted [] = Unit {0}
  IsSorted (x ∷ q) = All (λ y. greater_than x y ≡ false) q × IsSorted q

  pub All-push {κ} :
      (P : DelayedTask C → Type κ) (t : DelayedTask C) (q : List (DelayedTask C))
      → P t
      → All P q
      → All P (push t q)
  unfolding push
  All-push P t [] h a = (h, tt)
  All-push P t (x ∷ q) h a = elim (Bool-cases (greater_than x t)) [
    | inl e ↦ rw e (h, a)
    | inr e ↦ rw e (a.0, All-push P t q h a.1)
  ]

  pub push-IsSorted :
      (t : DelayedTask C) (q : List (DelayedTask C)) → IsSorted q → IsSorted (push t q)
  unfolding push
  push-IsSorted t [] s = (tt, tt)
  push-IsSorted t (x ∷ q) s = elim (Bool-cases (greater_than x t)) [
    | inl e ↦ rw e (
      (
        greater_than_total x t e,
        All-map (λ y. greater_than x y ≡ false) (λ y. greater_than t y ≡ false) q
            (λ y h. not_greater_trans t x y (greater_than_total x t e) h) s.0,
      ),
      s,
    )
    | inr e ↦ rw e (All-push (λ y. greater_than x y ≡ false) t q e s.0, push-IsSorted t q s.1)
  ]

  -- `push` adds its task and no other.
  pub push-perm : (t : DelayedTask C) (q : List (DelayedTask C)) → Perm (push t q) (t ∷ q)
  unfolding push
  push-perm t [] = Perm.refl _
  push-perm t (x ∷ q) = elim (Bool-cases (greater_than x t)) [
    | inl e ↦ rw e (Perm.refl _)
    | inr e ↦ rw e (Perm.trans (Perm.cons x (push-perm t q)) (Perm.swap t x q))
  ]

  -- A task that is not greater than another is due no later.
  pub not_greater-time :
      (a b : DelayedTask C) (now : TimePoint)
      → greater_than a b ≡ false
      → point_gt a.target_time now ≡ true
      → point_gt b.target_time now ≡ true
  unfolding greater_than
  not_greater-time a b now h g = ground arith

  pub IsSorted-append_right : (xs ys : List (DelayedTask C)) → IsSorted (xs ++ ys) → IsSorted ys
  IsSorted-append_right [] ys s = s
  IsSorted-append_right (x ∷ xs) ys s = IsSorted-append_right xs ys s.1
