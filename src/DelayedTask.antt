-- ===== src/DelayedTask.antt =====
-- source/base/messageloop/delayed_task.h and .cpp: tasks with a target time, and the priority queue
-- of them. `std::priority_queue` with `std::greater` is a list in which no task is `greater_than` a
-- later one: `top` is its head. `C` is the type of the closures.
pub mod Sorted
pub mod Fifo
use ffnetwork.Common.{
  ℕ, Bool, true, false, ltb, if◌then◌else◌, List, [], ◌∷◌, Outcome, ok, err, empty_container,
}
use ffnetwork.Time.{TimePoint, point_eq, point_gt}

pub record DelayedTask (C : Type 0) : Type 0 where
  pub order : ℕ
  pub task : C
  pub target_time : TimePoint

module _ {C : Type 0} where
  -- `operator>`
  unfoldable pub greater_than : DelayedTask C → DelayedTask C → Bool
  greater_than a b =
      if point_eq a.target_time b.target_time
      then ltb b.order a.order
      else point_gt a.target_time b.target_time

  unfoldable pub push : DelayedTask C → List (DelayedTask C) → List (DelayedTask C)
  unfolding greater_than
  push t [] = t ∷ []
  push t (x ∷ q) = if greater_than x t then t ∷ x ∷ q else x ∷ push t q

  abbrev pub is_empty : List (DelayedTask C) → Bool
  is_empty [] = true
  is_empty (x ∷ q) = false

  abbrev pub top : List (DelayedTask C) → Outcome (DelayedTask C)
  top [] = err empty_container
  top (x ∷ q) = ok x

  abbrev pub pop : List (DelayedTask C) → List (DelayedTask C)
  pop [] = []
  pop (x ∷ q) = q
