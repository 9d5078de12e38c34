-- ===== src/Priority.antt =====
-- rmf_task/src/rmf_task/BinaryPriorityCostCalculator.cpp: whether the tasks assigned to the robots
-- respect priorities, and, in Priority/Costs, what they cost.
pub mod Valid
pub mod Costs
pub mod Deploy
pub mod Earliest
mod Examples
use rmf_task.Base.{
  ℕ, zero, suc, ◌+◌, max, Bool, true, false, ◌&&◌, List, [], ◌∷◌, Option, none, some, if◌then◌else◌,
  ltb, Result, ok, err, past_end, ◌>>=◌,
}

-- An assignment: whether its request has a priority, and whether it is to charge the battery.
pub record Assignment : Type 0 where
  pub priority : Bool
  pub charging : Bool

unfoldable pub priority_count : List Assignment → ℕ
priority_count [] = 0
priority_count (a ∷ assignments) =
    let rest = priority_count assignments in if a.priority then suc rest else rest

unfoldable pub priority_counts : List (List Assignment) → List ℕ
unfolding priority_count
priority_counts [] = []
priority_counts (agent ∷ agents) = priority_count agent ∷ priority_counts agents

-- `std::max_element`, whose result is read without a test.
unfoldable pub max_priority_count : List ℕ → Result ℕ
max_priority_count [] = err past_end
max_priority_count (c ∷ []) = ok c
max_priority_count (c ∷ d ∷ counts) = do rest ← max_priority_count (d ∷ counts); ok (max c rest)

unfoldable pub has_zero : List ℕ → Bool
has_zero [] = false
has_zero (zero ∷ counts) = true
has_zero (suc c ∷ counts) = has_zero counts

-- The loop to the first assignment that is not for charging.
unfoldable pub skip_charging : List Assignment → Option (Assignment × List Assignment)
skip_charging [] = none
skip_charging (a ∷ rest) =
    let later = skip_charging rest in if a.charging then later else some (a, rest)

-- The loop over the later assignments.
unfoldable pub ordered : Bool → List Assignment → Bool
ordered prev_priority [] = true
ordered prev_priority (a ∷ rest) =
    let same = ordered prev_priority rest in
    let later = ordered a.priority rest in
    if a.charging
    then same
    else if prev_priority
    then later
    else if a.priority
    then false
    else later

-- The loop over the agents. It returns as soon as an agent has assignments for charging only.
unfoldable pub agents_ordered : List (List Assignment) → Bool
unfolding skip_charging ordered
agents_ordered [] = true
agents_ordered ([] ∷ agents) = agents_ordered agents
agents_ordered ((a ∷ rest) ∷ agents) =
    let later_agents = agents_ordered agents in
    elim (skip_charging (a ∷ rest)) [
      | none ↦ true
      | some (first, later) ↦ if ordered first.priority later then later_agents else false
    ]

unfoldable pub valid_assignment_priority : List (List Assignment) → Result Bool
unfolding priority_counts max_priority_count has_zero agents_ordered
valid_assignment_priority agents = do
  most ← max_priority_count (priority_counts agents)
  ok (if ltb 1 most && has_zero (priority_counts agents) then false else agents_ordered agents)
