-- ===== src/Priority/Costs.antt =====
-- rmf_task/src/rmf_task/BinaryPriorityCostCalculator.cpp: the costs of a node of the planner, in
-- nanoseconds where the code has seconds.
use rmf_task.Base.{
  ℕ, zero, suc, ◌+◌, ◌-◌, ◌*◌, Bool, true, Option, none, some, maybe, if◌then◌else◌, ltb, List, [],
  ◌∷◌, map, Result, ok, err, past_end, ◌>>=◌,
}
use rmf_task.Candidates.{Node, best_finish_time, best_candidates}
use rmf_task.Planner.{
  Description, AssignmentWrapper, PendingTask, Invariant, SearchNode, is_charging, charges, last_of,
}
use rmf_task.InvariantHeuristicQueue.{make_queue, compute_cost, add_invariants}
use rmf_task.Priority.{valid_assignment_priority}
use rmf_task.Priority as Priority

-- `initial_queue_values[candidate]`, lowered to a value; `none` is infinity.
unfoldable pub lower_value : ℕ → ℕ → List (Option ℕ) → Result (List (Option ℕ))
lower_value candidate value [] = err past_end
lower_value zero value (x ∷ values) =
    ok ((if maybe x true (ltb value) then some value else x) ∷ values)
lower_value (suc candidate) value (x ∷ values) = do
  rest ← lower_value candidate value values
  ok (x ∷ rest)

-- The loop over the best candidates of a task.
unfoldable pub lower_values :
    {S : Type 0} → ℕ → List (Node S) → List (Option ℕ) → Result (List (Option ℕ))
unfolding lower_value
lower_values value [] values = ok values
lower_values value (n ∷ nodes) values = do
  values' ← lower_value n.entry.candidate value values
  lower_values value nodes values'

-- The parameters are the time of a state, and the invariant duration of the model of a description
-- from a start time on.
module _ {S D : Type 0} (time : S → ℕ) (invariant_duration : Description D → ℕ → ℕ) where
  -- A request finishes no earlier than it may start.
  unfoldable pub compute_g_assignment : AssignmentWrapper S D → ℕ
  unfolding is_charging
  compute_g_assignment a =
      if charges a
      then 0
      else time a.assignment.finish_state - a.assignment.request.earliest_start_time

  unfoldable pub compute_g_agent : List (AssignmentWrapper S D) → ℕ
  unfolding compute_g_assignment
  compute_g_agent [] = 0
  compute_g_agent (a ∷ rest) = compute_g_assignment a + compute_g_agent rest

  unfoldable pub compute_g : List (List (AssignmentWrapper S D)) → ℕ
  unfolding compute_g_agent
  compute_g [] = 0
  compute_g (agent ∷ agents) = compute_g_agent agent + compute_g agents

  -- The loop over the tasks that are not assigned. A best finish is no earlier than the duration.
  unfoldable pub deployment_values :
      List (ℕ × PendingTask S D) → List (Option ℕ) → Result (List (Option ℕ))
  unfolding lower_values best_finish_time best_candidates
  deployment_values [] values = ok values
  deployment_values ((id, u) ∷ rest) values = do
    best ← best_finish_time u.candidates
    range ← best_candidates u.candidates
    values' ←
        lower_values (best - invariant_duration u.request.description u.model_start) range values
    deployment_values rest values'

  -- The values that no task has lowered.
  unfoldable pub clear_infinity : ℕ → List (Option ℕ) → List (List (AssignmentWrapper S D)) → List ℕ
  clear_infinity time_now [] agents = []
  clear_infinity time_now (value ∷ values) [] = []
  clear_infinity time_now (value ∷ values) (agent ∷ agents) =
      maybe value (maybe (last_of agent) time_now (λ a. time a.assignment.finish_state)) (λ v. v)
      ∷ clear_infinity time_now values agents

  unfoldable pub compute_h : {C : Type 0} → SearchNode S D C → ℕ → Result ℕ
  unfolding deployment_values clear_infinity make_queue add_invariants compute_cost
  compute_h n time_now = do
    values ← deployment_values n.unassigned_tasks (map (λ agent. none) n.assigned_tasks)
    maybe
        (add_invariants
          (map (λ (i : Invariant). (i.earliest_start_time, i.earliest_finish_time))
            n.unassigned_invariants)
          (make_queue (clear_infinity time_now values n.assigned_tasks)))
        (err past_end) (λ q. ok (compute_cost q))

  abbrev pub priorities : List (List (AssignmentWrapper S D)) → List (List Priority.Assignment)
  priorities = map (
      map (λ (a : AssignmentWrapper S D). record {
        priority = a.assignment.request.priority;
        charging = charges a;
      }))

  -- `compute_cost` of a node.
  unfoldable pub binary_priority_cost : {C : Type 0} → ℕ → SearchNode S D C → ℕ → Bool → Result ℕ
  unfolding compute_g compute_h valid_assignment_priority
  binary_priority_cost priority_penalty n time_now check_priority = do
    h ← compute_h n time_now
    let g = compute_g n.assigned_tasks
    valid ←
        (if check_priority
          then valid_assignment_priority (priorities n.assigned_tasks)
          else ok true)
    ok (if valid then g + h else priority_penalty * (g + h))
