-- ===== src/Planner/Stuck.antt =====
-- Tests of the greedy search: it goes back to the same assignments over and over, or loses one.
use rmf_task.Base.{
  ℕ, ◌≡◌, refl, true, false, ltb, ◌==◌, if◌then◌else◌, List, [], ◌∷◌, map, Option, none, some,
  Result, ok, err, diverges,
}
use rmf_task.Candidates.{
  construct, put, insert_node, erase_node, update_map, update_candidate, best_finish_time, same_key,
  best_range, best_candidates,
}
use rmf_task.Planner.{
  Description, charge_battery, task, Request, Estimate, AssignmentWrapper, PendingTask, SearchNode,
  World, is_charging, make_charging_request, ends_charging, push_assigned, copy_pending,
  copy_unassigned, erase_task, latest_finish, erase_invariant, copy_node, pop_unassigned,
}
use rmf_task.Planner.Search.{is_due, finished_tasks, finished}
use rmf_task.Planner.Expand.{
  estimate_charging, update_unassigned, charge_before, add_charger, finish_node, expand_candidate,
  expand_charger,
}
use rmf_task.Planner.Greedy.{
  drop_last, drop_last_at, backtrack, greedy_step, greedy_range, greedy_tasks, greedy_loop,
}

-- A state is a time. An agent in state 0 is charged, and one that finishes a task is in state 1,
-- in which it can neither go on nor charge.
abbrev estimate : Description ℕ → ℕ → ℕ → Option (Estimate ℕ)
estimate charge_battery start s =
    if s == 1 then none else some (record { finish_state = 0; wait_until = 0 })
estimate (task d) start s =
    if s == 0 then some (record { finish_state = 1; wait_until = 0 }) else none

abbrev stuck_world : World ℕ ℕ ℕ
stuck_world = record {
  time = λ s. s;
  estimate_finish = estimate;
  invariant_duration = λ d t. 0;
  compute_cost = λ n t p. 0;
  less = ltb;
  zero_cost = 0;
  has_recharge_soc = λ s. true;
}

abbrev some_request : ℕ → Request ℕ
some_request d = record { description = task d; earliest_start_time = 0; priority = false }

abbrev pending : ℕ → PendingTask ℕ ℕ
pending d = record {
  request = some_request d;
  model_start = 0;
  candidates = record {
    value_map =
        record {
          key = 1;
          node = 0;
          entry = record {
            candidate = 0;
            state = 1;
            wait_until = 0;
            previous_state = 0;
            require_charge_battery = false;
          };
        }
        ∷ record {
          key = 7;
          node = 1;
          entry = record {
            candidate = 1;
            state = 7;
            wait_until = 0;
            previous_state = 0;
            require_charge_battery = false;
          };
        }
        ∷ [];
    candidate_map = some 0 ∷ some 1 ∷ [];
    next_node = 2;
  };
}

-- An agent has a task and then charges; two tasks are left.
abbrev charged : SearchNode ℕ ℕ ℕ
charged = record {
  assigned_tasks =
      (record {
        internal_id = 1;
        assignment = record { request = some_request 1; finish_state = 2; deployment_time = 0 };
      }
        ∷ record {
          internal_id = 0;
          assignment = record {
            request = record {
              description = charge_battery;
              earliest_start_time = 2;
              priority = false;
            };
            finish_state = 0;
            deployment_time = 0;
          };
        }
        ∷ [])
      ∷ []
      ∷ [];
  unassigned_tasks = (2, pending 5) ∷ (3, pending 6) ∷ [];
  cost_estimate = 0;
  latest_time = 0;
  unassigned_invariants =
      record { task_id = 2; earliest_start_time = 0; earliest_finish_time = 0 }
      ∷ record { task_id = 3; earliest_start_time = 0; earliest_finish_time = 0 }
      ∷ [];
  next_available_internal_id = 4;
}

-- What a round leaves assigned.
abbrev assigned_after :
    Result (Option (SearchNode ℕ ℕ ℕ)) → Option (List (List (AssignmentWrapper ℕ ℕ)))
assigned_after (ok (some n)) = some n.assigned_tasks
assigned_after (ok none) = none
assigned_after (err e) = none

-- A round takes the charging away and puts it back.
greedy_round_same :
    assigned_after (greedy_tasks stuck_world 0 false charged.unassigned_tasks charged none)
    ≡ some charged.assigned_tasks
unfolding put insert_node erase_node update_map construct update_candidate best_finish_time same_key
    best_range best_candidates is_charging make_charging_request ends_charging push_assigned
    copy_pending copy_unassigned erase_task latest_finish erase_invariant copy_node pop_unassigned
    estimate_charging update_unassigned charge_before add_charger finish_node expand_candidate
    expand_charger is_due finished_tasks finished drop_last drop_last_at backtrack greedy_step
    greedy_range greedy_tasks
greedy_round_same = refl

greedy_goes_on : greedy_loop stuck_world 0 false 9 charged ≡ err diverges
unfolding put insert_node erase_node update_map construct update_candidate best_finish_time same_key
    best_range best_candidates is_charging make_charging_request ends_charging push_assigned
    copy_pending copy_unassigned erase_task latest_finish erase_invariant copy_node pop_unassigned
    estimate_charging update_unassigned charge_before add_charger finish_node expand_candidate
    expand_charger is_due finished_tasks finished drop_last drop_last_at backtrack greedy_step
    greedy_range greedy_tasks greedy_loop
greedy_goes_on = refl

-- An agent has two tasks, after the second of which it can neither go on nor charge.
abbrev drained : SearchNode ℕ ℕ ℕ
drained = record charged {
  assigned_tasks =
      (record {
        internal_id = 1;
        assignment = record { request = some_request 1; finish_state = 2; deployment_time = 0 };
      }
        ∷ record {
          internal_id = 4;
          assignment = record { request = some_request 9; finish_state = 1; deployment_time = 0 };
        }
        ∷ [])
      ∷ []
      ∷ [];
}

-- The request of a task that is taken away is gone: the agent charges in its place, and the tasks
-- that are left are those of before.
request_lost :
    assigned_after (greedy_tasks stuck_world 0 false drained.unassigned_tasks drained none)
    ≡ some charged.assigned_tasks
unfolding put insert_node erase_node update_map construct update_candidate best_finish_time same_key
    best_range best_candidates is_charging make_charging_request ends_charging push_assigned
    copy_pending copy_unassigned erase_task latest_finish erase_invariant copy_node pop_unassigned
    estimate_charging update_unassigned charge_before add_charger finish_node expand_candidate
    expand_charger is_due finished_tasks finished drop_last drop_last_at backtrack greedy_step
    greedy_range greedy_tasks
request_lost = refl

-- The identifiers of the tasks that are left.
abbrev left_after : Result (Option (SearchNode ℕ ℕ ℕ)) → List ℕ
left_after (ok (some n)) = map (λ (e : ℕ × PendingTask ℕ ℕ). e.0) n.unassigned_tasks
left_after (ok none) = []
left_after (err e) = []

request_not_left :
    left_after (greedy_tasks stuck_world 0 false drained.unassigned_tasks drained none) ≡ 2 ∷ 3 ∷ []
unfolding put insert_node erase_node update_map construct update_candidate best_finish_time same_key
    best_range best_candidates is_charging make_charging_request ends_charging push_assigned
    copy_pending copy_unassigned erase_task latest_finish erase_invariant copy_node pop_unassigned
    estimate_charging update_unassigned charge_before add_charger finish_node expand_candidate
    expand_charger is_due finished_tasks finished drop_last drop_last_at backtrack greedy_step
    greedy_range greedy_tasks
request_not_left = refl
