-- ===== src/Priority/Examples.antt =====
-- Tests of the check of priorities and of the costs, and the theorem about it at a concrete input.
use rmf_task.Base.{arith, ℕ, some, ◌≡◌, refl, true, false, not, ◌&&◌, [], ◌∷◌, ok}
use rmf_task.Priority.{
  Assignment, priority_count, priority_counts, max_priority_count, has_zero, skip_charging, ordered,
  agents_ordered, valid_assignment_priority,
}
use rmf_task.Priority.Valid.{
  some_two, some_none, none_late_before_charging, valid_assignment_priority_lem,
}
use rmf_task.Candidates.{Node, best_finish_time, best_candidates, best_range, same_key}
use rmf_task.Planner.{Description, task, charge_battery, Request, SearchNode, is_charging}
use rmf_task.InvariantHeuristicQueue.{
  rotate_front, push_element, make_queue, add, stack_cost, compute_cost, add_invariants,
}
use rmf_task.InvariantHeuristicQueue.Schedule.{Schedules}
use rmf_task.Priority.Deploy.{compute_h-Schedules, deployments}
use rmf_task.Priority.Costs.{
  lower_value, lower_values, compute_g_assignment, compute_g_agent, compute_g, deployment_values,
  clear_infinity, compute_h, binary_priority_cost,
}

abbrev high : Assignment
high = record { priority = true; charging = false }

abbrev low : Assignment
low = record { priority = false; charging = false }

abbrev charge : Assignment
charge = record { priority = false; charging = true }

late_is_invalid : valid_assignment_priority ((low ∷ charge ∷ high ∷ []) ∷ []) ≡ ok false
unfolding valid_assignment_priority priority_counts priority_count max_priority_count has_zero
    agents_ordered skip_charging ordered
late_is_invalid = refl

-- The same agent passes the check if an agent before it only charges.
late_after_charging_is_valid :
    valid_assignment_priority ((charge ∷ []) ∷ (low ∷ charge ∷ high ∷ []) ∷ []) ≡ ok true
unfolding valid_assignment_priority priority_counts priority_count max_priority_count has_zero
    agents_ordered skip_charging ordered
late_after_charging_is_valid = refl

valid_assignment_priority_lem_example :
    valid_assignment_priority ((low ∷ high ∷ []) ∷ (high ∷ []) ∷ [])
    ≡ ok (
        not (
          some_two ((low ∷ high ∷ []) ∷ (high ∷ []) ∷ [])
          && some_none ((low ∷ high ∷ []) ∷ (high ∷ []) ∷ []))
        && none_late_before_charging ((low ∷ high ∷ []) ∷ (high ∷ []) ∷ []))
valid_assignment_priority_lem_example =
    valid_assignment_priority_lem (low ∷ high ∷ []) ((high ∷ []) ∷ [])

-- Requests of the costs; a state is its time.
abbrev request_from : ℕ → Description ℕ → Request ℕ
request_from earliest d = record {
  description = d;
  earliest_start_time = earliest;
  priority = false;
}

abbrev candidate_at : ℕ → ℕ → Node ℕ
candidate_at c finish = record {
  key = finish;
  node = c;
  entry = record {
    candidate = c;
    state = finish;
    wait_until = 0;
    previous_state = 0;
    require_charge_battery = false;
  };
}

-- The first of two agents charges and does a task from 2 to 9; a task of the duration 4 is left,
-- which the second agent can finish at 12 and the first one at 15.
abbrev one_left : SearchNode ℕ ℕ ℕ
one_left = record {
  assigned_tasks =
      (record {
        internal_id = 0;
        assignment = record {
          request = request_from 0 charge_battery;
          finish_state = 3;
          deployment_time = 0;
        };
      }
        ∷ record {
          internal_id = 1;
          assignment = record {
            request = request_from 2 (task 7);
            finish_state = 9;
            deployment_time = 3;
          };
        }
        ∷ [])
      ∷ []
      ∷ [];
  unassigned_tasks =
      (
        2,
        record {
          request = request_from 1 (task 8);
          model_start = 1;
          candidates = record {
            value_map = candidate_at 1 12 ∷ candidate_at 0 15 ∷ [];
            candidate_map = some 0 ∷ some 1 ∷ [];
            next_node = 2;
          };
        },
      )
      ∷ [];
  cost_estimate = 0;
  latest_time = 9;
  unassigned_invariants =
      record { task_id = 2; earliest_start_time = 1; earliest_finish_time = 5 } ∷ [];
  next_available_internal_id = 3;
}

-- The second agent is free from 8 on and the first one from 9 on: the task that is left ends at 12,
-- 11 after its start, and the assigned one costs 7.
one_left_cost : binary_priority_cost (λ t. t) (λ d earliest. 4) 100 one_left 0 true ≡ ok 18
unfolding binary_priority_cost compute_g compute_g_agent compute_g_assignment is_charging compute_h
    deployment_values lower_values lower_value best_finish_time best_candidates best_range same_key
    clear_infinity make_queue rotate_front push_element add add_invariants compute_cost stack_cost
    valid_assignment_priority priority_counts priority_count max_priority_count has_zero
    agents_ordered skip_charging ordered
one_left_cost = refl

one_left_deployments :
    deployments (λ (t : ℕ). t) (λ d earliest. 4) one_left.unassigned_tasks ≡ ok ((1, 8) ∷ [])
unfolding best_finish_time best_candidates best_range same_key
one_left_deployments = refl

compute_h-Schedules_example :
    (cost : ℕ) × (compute_h (λ t. t) (λ d earliest. 4) one_left 0 ≡ ok cost)
    × Schedules ((1, 5) ∷ []) (9 ∷ 8 ∷ []) cost
compute_h-Schedules_example =
    compute_h-Schedules (λ t. t) (λ d earliest. 4) one_left 0 _ ([] ∷ []) ((1, 8) ∷ []) refl
      one_left_deployments (omega arith, tt)
