-- ===== src/Planner/Expand.antt =====
-- TaskPlanner.cpp: the nodes that follow a node.
use rmf_task.Base.{
  ℕ, ◌+◌, Bool, true, false, not, ◌&&◌, List, [], ◌∷◌, Option, none, some, if◌then◌else◌, ltb,
  Result, ok, err, past_end, ◌>>=◌, maybe, get_elem?,
}
use rmf_task.Candidates.{Entry, update_candidate}
use rmf_task.Planner.{
  Request, AssignmentWrapper, PendingTask, SearchNode, World, segmentation_threshold,
  make_charging_request, ends_charging, last_of, push_assigned, copy_node, pop_unassigned,
  latest_finish,
}

module _ {S D C : Type 0} (w : World S D C) where
  -- The estimate of the charging that begins in a state, and the assignment of it.
  unfoldable pub estimate_charging : ℕ → S → Option (AssignmentWrapper S D)
  estimate_charging id state =
      let charge : Request D = make_charging_request (w.time state) in
      maybe (w.estimate_finish charge.description charge.earliest_start_time state) none λ e.
        some (record {
          internal_id = id;
          assignment = record {
            request = charge;
            finish_state = e.finish_state;
            deployment_time = e.wait_until;
          };
        })

  -- The loop that updates the unassigned tasks for an agent which is in a state. It stops at the
  -- first task that the agent cannot finish from there, and tells so.
  unfoldable pub update_unassigned :
      ℕ → S → S → List (ℕ × PendingTask S D) → Result (Bool × List (ℕ × PendingTask S D))
  update_unassigned agent state previous [] = ok (false, [])
  update_unassigned agent state previous ((id, u) ∷ rest) =
      maybe (w.estimate_finish u.request.description u.model_start state)
        (ok (true, (id, u) ∷ rest))
        λ finish. (do
          cs ←
              update_candidate w.time agent finish.finish_state finish.wait_until previous false
                u.candidates
          (stopped, later) ← update_unassigned agent state previous rest
          ok (stopped, (id, record u { candidates = cs }) ∷ later))

  -- Charging that goes before the task where the candidate's estimate needs it: not if the agent's
  -- last assignment charges already, nor if the charger is out of reach.
  unfoldable pub charge_before :
      ℕ
      → Entry S
      → List (List (AssignmentWrapper S D))
      → Result (List (List (AssignmentWrapper S D)))
  charge_before id entry assigned =
      maybe (get_elem? assigned entry.candidate) (err past_end) λ agent.
        if entry.require_charge_battery && not (ends_charging agent)
        then maybe (estimate_charging id entry.previous_state) (ok assigned)
            (λ a. push_assigned entry.candidate a assigned)
        else ok assigned

  -- The part of an expansion behind an assignment after which the agent cannot finish some task:
  -- it charges, and then all of them have to be in reach.
  unfoldable pub add_charger : ℕ → S → S → SearchNode S D C → Result (Option (SearchNode S D C))
  add_charger agent state previous n = maybe (estimate_charging 0 state) (ok none) λ a. (do
    assigned ← push_assigned agent a n.assigned_tasks
    (stopped, unassigned) ←
        update_unassigned agent a.assignment.finish_state previous n.unassigned_tasks
    ok (
        if stopped
        then none
        else some (record n { assigned_tasks = assigned; unassigned_tasks = unassigned })))

module _ {S D C : Type 0} (w : World S D C) (time_now : ℕ) (check_priority : Bool) where
  -- The end of an expansion: the cost and the latest time.
  unfoldable pub finish_node : SearchNode S D C → SearchNode S D C
  finish_node n = record n {
    cost_estimate = w.compute_cost n time_now check_priority;
    latest_time = latest_finish w.time n.assigned_tasks;
  }

  -- `expand_candidate`, up to the filter.
  unfoldable pub expand_candidate :
      Entry S → ℕ → PendingTask S D → SearchNode S D C → Result (Option (SearchNode S D C))
  expand_candidate entry id u parent =
      if ltb (parent.latest_time + segmentation_threshold) entry.wait_until then ok none else (do
        let n = copy_node parent
        before ← charge_before w id entry n.assigned_tasks
        assigned ←
            push_assigned entry.candidate
              (record {
                internal_id = id;
                assignment = record {
                  request = u.request;
                  finish_state = entry.state;
                  deployment_time = entry.wait_until;
                };
              })
              before
        popped ← pop_unassigned id (record n { assigned_tasks = assigned })
        (stopped, unassigned) ←
            update_unassigned w entry.candidate entry.state entry.state popped.unassigned_tasks
        let updated = record popped { unassigned_tasks = unassigned }
        charged ←
            (if stopped
              then add_charger w entry.candidate entry.state entry.state updated
              else ok (some updated))
        ok (maybe charged none (λ m. some (finish_node m))))

  -- `expand_charger`: the agent has assignments, and the last one does not charge.
  unfoldable pub expand_charger : SearchNode S D C → ℕ → Result (Option (SearchNode S D C))
  expand_charger parent agent =
      maybe (get_elem? parent.assigned_tasks agent) (err past_end) λ assignments.
        maybe (last_of assignments) (ok none) λ last.
          if ends_charging assignments then ok none else (do
            let state = last.assignment.finish_state
            charged ← add_charger w agent state state (copy_node parent)
            ok (maybe charged none (λ m. some (finish_node m))))
