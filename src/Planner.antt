-- ===== src/Planner.antt =====
-- rmf_task/src/rmf_task/internal_task_planning.hpp and TaskPlanner.cpp: the nodes that the task
-- planner searches, with the tasks that are assigned to each agent and those that are not yet.
pub mod Expand
pub mod Filter
pub mod Search
pub mod Greedy
pub mod Initial
pub mod Plan
pub mod Tasks
pub mod Assigning
pub mod Follow
pub mod Expanding
pub mod Searching
pub mod Solving
pub mod Reaching
pub mod Due
pub mod Numbering
pub mod Starting
pub mod Beginning
pub mod Merging
pub mod Finishing
pub mod Planning
pub mod Filtering
pub mod Tries
mod Examples
mod Stuck
use rmf_task.Base.{
  ℕ, zero, suc, ◌+◌, max, Bool, true, false, List, [], ◌∷◌, ◌++◌, map, Option, none, some,
  if◌then◌else◌, ◌==◌, ltb, Result, ok, err, past_end, ◌>>=◌, maybe,
}
use rmf_task.Candidates.{Candidates, update_map}

-- What a request asks for; `D` stands for the descriptions other than `ChargeBattery::Description`.
pub data Description (D : Type 0) : Type 0 where
  charge_battery : Description D
  task : D → Description D

-- `Request` with its `Task::Booking`.
pub record Request (D : Type 0) : Type 0 where
  pub description : Description D
  pub earliest_start_time : ℕ
  pub priority : Bool

-- `Estimate`; `S` stands for the states of agents.
pub record Estimate (S : Type 0) : Type 0 where
  pub finish_state : S
  pub wait_until : ℕ

pub record Assignment (S D : Type 0) : Type 0 where
  pub request : Request D
  pub finish_state : S
  pub deployment_time : ℕ

pub record AssignmentWrapper (S D : Type 0) : Type 0 where
  pub internal_id : ℕ
  pub assignment : Assignment S D

-- `PendingTask`; its model is that of the request's description from the time `model_start` on.
pub record PendingTask (S D : Type 0) : Type 0 where
  pub request : Request D
  pub model_start : ℕ
  pub candidates : Candidates S

-- `Invariant`, in nanoseconds where the code has a double of seconds.
pub record Invariant : Type 0 where
  pub task_id : ℕ
  pub earliest_start_time : ℕ
  pub earliest_finish_time : ℕ

-- `Node`; `C` stands for costs. The list of the unordered map has its elements in the order in which
-- a loop visits them, and that of the multiset in its order.
pub record SearchNode (S D C : Type 0) : Type 0 where
  pub assigned_tasks : List (List (AssignmentWrapper S D))
  pub unassigned_tasks : List (ℕ × PendingTask S D)
  pub cost_estimate : C
  pub latest_time : ℕ
  pub unassigned_invariants : List Invariant
  pub next_available_internal_id : ℕ

-- What the planner calls: the time of a state, the models of the descriptions from a start time on
-- (their estimates and invariant durations), the cost calculator, the order of costs, and
-- whether the charge of a state is at the threshold for recharging.
pub record World (S D C : Type 0) : Type 0 where
  pub time : S → ℕ
  pub estimate_finish : Description D → ℕ → S → Option (Estimate S)
  pub invariant_duration : Description D → ℕ → ℕ
  pub compute_cost : SearchNode S D C → ℕ → Bool → C
  pub less : C → C → Bool
  pub zero_cost : C
  pub has_recharge_soc : S → Bool

-- One second in nanoseconds.
abbrev pub segmentation_threshold : ℕ
segmentation_threshold = 1000000000

module _ {D : Type 0} where
  -- The `dynamic_pointer_cast` to a description of charging.
  unfoldable pub is_charging : Description D → Bool
  is_charging charge_battery = true
  is_charging (task d) = false

  unfoldable pub make_charging_request : ℕ → Request D
  make_charging_request start_time = record {
    description = charge_battery;
    earliest_start_time = start_time;
    priority = false;
  }

abbrev pub last_of {ℓ} : {A : Type ℓ} → List A → Option A
last_of [] = none
last_of (x ∷ []) = some x
last_of (x ∷ y ∷ xs) = last_of (y ∷ xs)

module _ {S D : Type 0} where
  abbrev pub charges : AssignmentWrapper S D → Bool
  charges a = is_charging a.assignment.request.description

  -- Whether the last assignment of an agent is to charge; `false` if there is none.
  unfoldable pub ends_charging : List (AssignmentWrapper S D) → Bool
  ends_charging [] = false
  ends_charging (a ∷ []) = charges a
  ends_charging (a ∷ b ∷ rest) = ends_charging (b ∷ rest)

  -- `assigned_tasks[agent].push_back(a)`.
  unfoldable pub push_assigned :
      ℕ
      → AssignmentWrapper S D
      → List (List (AssignmentWrapper S D))
      → Result (List (List (AssignmentWrapper S D)))
  push_assigned agent a [] = err past_end
  push_assigned zero a (x ∷ assigned) = ok ((x ++ a ∷ []) ∷ assigned)
  push_assigned (suc agent) a (x ∷ assigned) = do
    rest ← push_assigned agent a assigned
    ok (x ∷ rest)

  -- The copy constructor of `Candidates` links the new map.
  unfoldable pub copy_pending : PendingTask S D → PendingTask S D
  copy_pending u = record u {
    candidates = record u.candidates { candidate_map = update_map u.candidates.value_map [] };
  }

  unfoldable pub copy_unassigned : List (ℕ × PendingTask S D) → List (ℕ × PendingTask S D)
  unfolding copy_pending
  copy_unassigned [] = []
  copy_unassigned ((id, u) ∷ rest) = (id, copy_pending u) ∷ copy_unassigned rest

  unfoldable pub erase_task : ℕ → List (ℕ × PendingTask S D) → List (ℕ × PendingTask S D)
  erase_task id [] = []
  erase_task id ((i, u) ∷ rest) =
      let later = erase_task id rest in if i == id then rest else (i, u) ∷ later

  -- `get_latest_time`: agents without assignments do not count.
  unfoldable pub latest_finish : (S → ℕ) → List (List (AssignmentWrapper S D)) → ℕ
  latest_finish time [] = 0
  latest_finish time (agent ∷ agents) =
      maybe (last_of agent) (latest_finish time agents)
        λ a. max (time a.assignment.finish_state) (latest_finish time agents)

-- The search and the erasure in `pop_unassigned`: the iterator that is erased was never set if no
-- invariant has the identifier.
unfoldable pub erase_invariant : ℕ → List Invariant → Result (List Invariant)
erase_invariant id [] = err past_end
erase_invariant id (i ∷ rest) =
    let later = erase_invariant id rest in
    if i.task_id == id then ok rest else later >>= (λ l. ok (i ∷ l))

-- `multiset::insert`, by the earliest finish time.
unfoldable pub insert_invariant : Invariant → List Invariant → List Invariant
insert_invariant i [] = i ∷ []
insert_invariant i (j ∷ rest) =
    let later = insert_invariant i rest in
    if ltb i.earliest_finish_time j.earliest_finish_time then i ∷ j ∷ rest else j ∷ later

module _ {S D C : Type 0} where
  -- The copy of a node that an expansion begins with.
  unfoldable pub copy_node : SearchNode S D C → SearchNode S D C
  unfolding copy_unassigned
  copy_node n = record n { unassigned_tasks = copy_unassigned n.unassigned_tasks }

  unfoldable pub pop_unassigned : ℕ → SearchNode S D C → Result (SearchNode S D C)
  pop_unassigned id n = do
    invariants ← erase_invariant id n.unassigned_invariants
    ok (record n {
      unassigned_tasks = erase_task id n.unassigned_tasks;
      unassigned_invariants = invariants;
    })
