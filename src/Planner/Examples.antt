-- ===== src/Planner/Examples.antt =====
-- Tests of the planner, and the theorems about it at concrete inputs.
use mathlib.Core.Path.{subst}
use rmf_task.Planner.Starting.{IsBounded}
use rmf_task.Planner.Finishing.{IsPlan}
use rmf_task.Planner.Planning.{complete_solve_ends}
use mathlib.Core.Logic.{◌↔◌}
use rmf_task.Planner.Filtering.{filter_after, Occurs, hash_filter_iff}
use rmf_task.Planner.Tries.{trie_filter_lem}
use rmf_task.Base.{
  List, if◌then◌else◌, ◌≤◌, arith, ℕ, ◌+◌, ◌≡◌, refl, All, max, true, false, [], ◌∷◌, Option, none,
  some, ltb, length, ok,
}
use rmf_task.Yields.{Yields, OnSome}
use rmf_task.Descent.{Settles}
use rmf_task.Candidates.{
  Entry, construct, put, insert_node, erase_node, update_map, update_candidate, best_finish_time,
  same_key, best_range, best_candidates,
}
use rmf_task.Planner.{
  Description, charge_battery, task, Request, Estimate, Assignment, SearchNode, World, is_charging,
  make_charging_request, ends_charging, push_assigned, copy_pending, copy_unassigned, erase_task,
  latest_finish, erase_invariant, insert_invariant, copy_node, pop_unassigned,
}
use rmf_task.Planner.Filter.{
  hash, trie, make_filter, same_ids, same_assignments, seen, path_from, grow, walk, ignore_ids,
}
use rmf_task.Planner.Search.{
  expand, solve_loop, is_due, finished_tasks, apply_filter, finished, push_queue, push_all,
  expand_range, expand_tasks, expand_agents,
}
use rmf_task.Planner.Plan.{
  assignments, complete_solve, prune_agent, prune_complete, merge, next_states, left_requests,
  try_request, append_finishing, search_node, finish_plan, plan_loop, has_priority,
}
use rmf_task.Planner.Follow.{IsValid, Follows}
use rmf_task.Planner.Searching.{expand-Follows}
use rmf_task.Planner.Solving.{Found, solve_loop_ends}
use rmf_task.Planner.Expand.{
  estimate_charging, update_unassigned, charge_before, add_charger, finish_node, expand_candidate,
  expand_charger,
}
use rmf_task.Planner.Greedy.{
  drop_last, drop_last_at, backtrack, greedy_step, greedy_range, greedy_tasks, greedy_loop,
}
use rmf_task.Planner.Initial.{
  time_max, offer, all_offers, make_pending, pending_with, collect_offer, least_wait, has_id,
  insert_task, first_wait, make_unassigned, sort_invariants, latest_start, make_initial_node,
}

-- A time that can be held.
abbrev held : ℕ → ℕ
held t = if ltb t time_max then t else time_max

held-bound : (t : ℕ) → held t ≤ time_max
held-bound t = ground (arith)

-- A state is a time, and a task is how long it takes.
abbrev finish_at : ℕ → ℕ → ℕ → Option (Estimate ℕ)
finish_at start length s =
    some (record { finish_state = max s start + length; wait_until = held (max s start) })

abbrev estimate : Description ℕ → ℕ → ℕ → Option (Estimate ℕ)
estimate charge_battery start s = finish_at start 1 s
estimate (task d) start s = finish_at start d s

abbrev some_world : World ℕ ℕ ℕ
some_world = record {
  time = λ s. s;
  estimate_finish = estimate;
  invariant_duration = λ d t. 0;
  compute_cost = λ n t p. length n.unassigned_tasks;
  less = ltb;
  zero_cost = 0;
  has_recharge_soc = λ s. true;
}

finish_at-bound :
    (start length s : ℕ) (e : Estimate ℕ)
    → finish_at start length s ≡ some e
    → e.wait_until ≤ time_max
finish_at-bound start length s e h =
    subst (λ (x : Estimate ℕ). x.wait_until ≤ time_max) (same h) (held-bound (max s start))
  where
    same : {a : Estimate ℕ} → ◌≡◌ {A = Option (Estimate ℕ)} (some a) (some e) → a ≡ e
    same h = cc

some_world-IsBounded : IsBounded some_world
some_world-IsBounded charge_battery t s e h = finish_at-bound t 1 s e h
some_world-IsBounded (task d) t s e h = finish_at-bound t d s e h

abbrev some_request : ℕ → Request ℕ
some_request d = record { description = task d; earliest_start_time = 0; priority = false }

abbrev assigned : ℕ → ℕ → ℕ → Assignment ℕ ℕ
assigned d finish start = record {
  request = some_request d;
  finish_state = finish;
  deployment_time = start;
}

two_tasks :
    complete_solve some_world 0 false false none 3 9
      (λ i j. false)
      (0 ∷ 5 ∷ [])
      (some_request 3 ∷ some_request 10 ∷ [])
    ≡ ok (assignments ((assigned 3 3 0 ∷ assigned 10 13 3 ∷ []) ∷ [] ∷ []))
unfolding put insert_node erase_node update_map construct update_candidate best_finish_time same_key
    best_range best_candidates is_charging make_charging_request ends_charging push_assigned
    copy_pending copy_unassigned erase_task latest_finish erase_invariant insert_invariant copy_node
    pop_unassigned estimate_charging update_unassigned charge_before add_charger finish_node
    expand_candidate expand_charger same_ids same_assignments seen path_from grow walk ignore_ids
    is_due finished_tasks apply_filter finished push_queue push_all expand_range expand_tasks
    expand_agents expand solve_loop drop_last drop_last_at backtrack greedy_step greedy_range
    greedy_tasks greedy_loop offer collect_offer all_offers pending_with make_pending least_wait
    has_id insert_task first_wait make_unassigned sort_invariants latest_start make_initial_node
    prune_agent prune_complete merge next_states left_requests try_request append_finishing
    search_node finish_plan plan_loop has_priority complete_solve
two_tasks = refl

abbrev entry_of : ℕ → ℕ → Entry ℕ
entry_of candidate state = record {
  candidate = candidate;
  state = state;
  wait_until = 0;
  previous_state = 0;
  require_charge_battery = false;
}

abbrev one_task : SearchNode ℕ ℕ ℕ
one_task = record {
  assigned_tasks = [] ∷ [] ∷ [];
  unassigned_tasks =
      (
        1,
        record {
          request = some_request 3;
          model_start = 0;
          candidates = record {
            value_map =
                record { key = 3; node = 0; entry = entry_of 0 3 }
                ∷ record { key = 8; node = 1; entry = entry_of 1 8 }
                ∷ [];
            candidate_map = some 0 ∷ some 1 ∷ [];
            next_node = 2;
          };
        },
      )
      ∷ [];
  cost_estimate = 1;
  latest_time = 5;
  unassigned_invariants =
      record { task_id = 1; earliest_start_time = 0; earliest_finish_time = 0 } ∷ [];
  next_available_internal_id = 2;
}

one_task-IsValid : IsValid one_task
unfolding is_charging
one_task-IsValid = record { distinct = (tt, tt); plain = (refl, tt) }

expand-Follows_example :
    Yields (λ r. All (Follows one_task) r.0) (expand some_world 0 false one_task (make_filter hash))
expand-Follows_example =
    expand-Follows some_world 0 false one_task (make_filter hash) one_task-IsValid

solve_loop_ends_example :
    Settles (OnSome (Found some_world 0 false one_task)) (λ rounds.
      solve_loop some_world 0 false rounds (one_task ∷ []) (make_filter hash) (λ i. false))
solve_loop_ends_example =
    solve_loop_ends some_world 0 false one_task (make_filter hash) (λ i. false) one_task-IsValid

complete_solve_ends_example :
    Settles
      (IsPlan (some (λ s. some_request 1)) 2 (some_request 3 ∷ some_request 10 ∷ []))
      (λ rounds.
        complete_solve some_world 0 false false
          (some (λ s. some_request 1))
          3
          rounds
          (λ i j. false)
          (0 ∷ 5 ∷ [])
          (some_request 3 ∷ some_request 10 ∷ []))
unfolding is_charging
complete_solve_ends_example =
    complete_solve_ends some_world 0 false (some (λ s. some_request 1)) (λ i j. false) (0 ∷ 5 ∷ [])
      (some_request 3 ∷ some_request 10 ∷ []) some_world-IsBounded (refl, (refl, tt)) (omega arith)

abbrev shorter_ids : List (List ℕ)
shorter_ids = (1 ∷ []) ∷ [] ∷ []

abbrev longer_ids : List (List ℕ)
longer_ids = (1 ∷ 2 ∷ []) ∷ [] ∷ []

hash_filter_iff_example :
    ((ignore_ids shorter_ids (filter_after (longer_ids ∷ shorter_ids ∷ []) (make_filter hash))).0
      ≡ true)
    ↔ Occurs shorter_ids (longer_ids ∷ shorter_ids ∷ [])
hash_filter_iff_example = hash_filter_iff (longer_ids ∷ shorter_ids ∷ []) shorter_ids

-- The shorter assignments were not asked about before.
trie_filter_lem_example :
    (ignore_ids shorter_ids (filter_after (longer_ids ∷ []) (make_filter trie))).0 ≡ true
unfolding path_from
trie_filter_lem_example = trie_filter_lem (longer_ids ∷ []) shorter_ids
