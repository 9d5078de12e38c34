-- ===== src/InvariantHeuristicQueue.antt =====
-- rmf_task/src/rmf_task/InvariantHeuristicQueue.cpp: the queue that bounds the cost of the tasks
-- that are left, in nanoseconds where the code has seconds.
pub mod Schedule
mod Examples
use rmf_task.Base.{
  ℕ, ◌+◌, ◌-◌, Bool, true, false, Option, none, some, if◌then◌else◌, leb, List, [], ◌∷◌, map,
}

pub record Element : Type 0 where
  pub start : ℕ
  pub end : ℕ

-- A stack, whose last element comes first.
pub record Stack : Type 0 where
  pub back : Element
  pub earlier : List Element

-- The loop and the rotation of `add`: the front stack is put before the first one that does not end
-- before it.
unfoldable pub rotate_front : Stack → List Stack → List Stack
rotate_front front [] = front ∷ []
rotate_front front (s ∷ rest) =
    if leb front.back.end s.back.end then front ∷ s ∷ rest else s ∷ rotate_front front rest

unfoldable pub push_element : Element → Stack → Stack
push_element e s = record { back = e; earlier = s.back ∷ s.earlier }

-- The constructor, with `std::sort`.
unfoldable pub make_queue : List ℕ → List Stack
unfolding rotate_front
make_queue [] = []
make_queue (value ∷ values) =
    rotate_front (record { back = record { start = 0; end = value }; earlier = [] })
      (make_queue values)

-- There is no front stack to add to in a queue of none. An invariant finishes no earlier than it
-- starts.
unfoldable pub add : ℕ → ℕ → List Stack → Option (List Stack)
unfolding rotate_front push_element
add earliest_start_time earliest_finish_time [] = none
add earliest_start_time earliest_finish_time (front ∷ rest) =
    let new_end_value = front.back.end + (earliest_finish_time - earliest_start_time) in
    some (
      rotate_front
        (push_element (record { start = earliest_start_time; end = new_end_value }) front) rest)

-- The cost of a stack: its first element, the last one here, does not count.
unfoldable pub stack_cost : Element → List Element → ℕ
stack_cost e [] = 0
stack_cost e (before ∷ rest) = (e.end - e.start) + stack_cost before rest

unfoldable pub compute_cost : List Stack → ℕ
unfolding stack_cost
compute_cost [] = 0
compute_cost (s ∷ rest) = stack_cost s.back s.earlier + compute_cost rest

-- The loop of `BinaryPriorityCostCalculator::compute_h` over the invariants.
unfoldable pub add_invariants : List (ℕ × ℕ) → List Stack → Option (List Stack)
unfolding add
add_invariants [] q = some q
add_invariants ((earliest_start_time, earliest_finish_time) ∷ rest) q =
    elim (add earliest_start_time earliest_finish_time q) [
      | none ↦ none
      | some q' ↦ add_invariants rest q'
    ]
