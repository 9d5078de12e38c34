-- ===== src/InvariantHeuristicQueue/Examples.antt =====
-- A queue of two robots.
use rmf_task.Base.{ℕ, ◌≡◌, refl, some, List, [], ◌∷◌}
use rmf_task.InvariantHeuristicQueue.{
  Stack, rotate_front, push_element, make_queue, add, stack_cost, compute_cost, add_invariants,
}

-- Two robots, free at 10 and at 4, and three tasks.
abbrev three_tasks : List (ℕ × ℕ)
three_tasks = (0, 5) ∷ (1, 8) ∷ (2, 9) ∷ []

-- The second robot takes the first task until 9 and the second until 16, the first robot the third
-- one until 17.
abbrev full_queue : List Stack
full_queue =
    record {
      back = record { start = 1; end = 16 };
      earlier = record { start = 0; end = 9 } ∷ record { start = 0; end = 4 } ∷ [];
    }
    ∷ record {
      back = record { start = 2; end = 17 };
      earlier = record { start = 0; end = 10 } ∷ [];
    }
    ∷ []

three_added : add_invariants three_tasks (make_queue (10 ∷ 4 ∷ [])) ≡ some full_queue
unfolding add_invariants add make_queue rotate_front push_element
three_added = refl

three_cost : compute_cost full_queue ≡ 39
unfolding compute_cost stack_cost
three_cost = refl
