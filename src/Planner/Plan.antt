-- ===== src/Planner/Plan.antt =====
-- TaskPlanner.cpp: a plan for all requests, by one search after another.
use rmf_task.Base.{
  ℕ, zero, suc, Bool, false, ◌||◌, List, [], ◌∷◌, ◌++◌, map, Option, none, some, if◌then◌else◌,
  null, Result, ok, err, diverges, ◌>>=◌, maybe,
}
use rmf_task.Planner.{
  Request, Assignment, AssignmentWrapper, PendingTask, SearchNode, World, is_charging,
  make_charging_request, ends_charging, last_of,
}
use rmf_task.Planner.Filter.{hash, make_filter}
use rmf_task.Planner.Search.{solve_loop}
use rmf_task.Planner.Greedy.{drop_last, greedy_loop}
use rmf_task.Planner.Initial.{TaskPlannerError, make_initial_node}

-- `TaskPlanner::Result`; the error is `none` if it was never set.
pub data Answer (S D : Type 0) : Type 0 where
  assignments : List (List (Assignment S D)) → Answer S D
  failed : Option TaskPlannerError → Answer S D

module _ {S D : Type 0} where
  -- `prune_assignments` of a node: charging at the end of an agent's assignments is taken away.
  unfoldable pub prune_agent : List (AssignmentWrapper S D) → List (AssignmentWrapper S D)
  prune_agent agent = if ends_charging agent then drop_last agent else agent

  abbrev pub prune : List (List (AssignmentWrapper S D)) → List (List (AssignmentWrapper S D))
  prune = map prune_agent

  -- `prune_assignments` of a plan.
  unfoldable pub prune_complete : List (Assignment S D) → List (Assignment S D)
  prune_complete agent =
      maybe (last_of agent) agent
        λ a. if is_charging a.request.description then drop_last agent else agent

  -- The loop that appends the assignments of a node to the plan.
  unfoldable pub merge :
      List (List (Assignment S D))
      → List (List (AssignmentWrapper S D))
      → List (List (Assignment S D))
  merge complete [] = complete
  merge [] (agent ∷ agents) = []
  merge (all ∷ complete) (agent ∷ agents) =
      (all ++ map (λ a. a.assignment) agent) ∷ merge complete agents

  -- The states in which the agents begin the next search.
  unfoldable pub next_states : List (List (AssignmentWrapper S D)) → List S → List S
  next_states [] states = []
  next_states (agent ∷ agents) [] = []
  next_states (agent ∷ agents) (s ∷ states) =
      maybe (last_of agent) s (λ a. a.assignment.finish_state) ∷ next_states agents states

  unfoldable pub left_requests : List (ℕ × PendingTask S D) → List (Request D)
  left_requests [] = []
  left_requests ((id, u) ∷ rest) = u.request ∷ left_requests rest

module _ {S D C : Type 0} (w : World S D C) where
  -- The assignment of a request to an agent in a state, if the agent can finish it.
  unfoldable pub try_request : Request D → ℕ → S → Option (Assignment S D)
  try_request request start state =
      maybe (w.estimate_finish request.description start state) none λ e. some (record {
        request = request;
        finish_state = e.finish_state;
        deployment_time = e.wait_until;
      })

  -- The body of the loop in `append_finishing_request`, for a factory of requests.
  unfoldable pub append_finishing : (S → Request D) → List (Assignment S D) → List (Assignment S D)
  unfolding try_request
  append_finishing factory agent = maybe (last_of agent) agent λ last.
      let state = last.finish_state in
      let request = factory state in
      let charge : Request D = make_charging_request (w.time state) in
      maybe (try_request request (w.time state) state)
        (maybe (try_request charge (w.time state) state) agent λ charged.
          maybe (try_request request (w.time charged.finish_state) charged.finish_state) agent
            λ final. agent ++ charged ∷ final ∷ [])
        (λ final. agent ++ final ∷ [])

module _ {S D C : Type 0} (w : World S D C) (time_now : ℕ) (check_priority greedy : Bool)
    (finishing : Option (S → Request D)) where
  -- A search from a node, for some rounds.
  unfoldable pub search_node :
      ℕ → (ℕ → Bool) → SearchNode S D C → Result (Option (SearchNode S D C))
  search_node rounds interrupter node =
      if greedy
      then greedy_loop w time_now check_priority rounds node >>= (λ n. ok (some n))
      else solve_loop w time_now check_priority rounds (node ∷ []) (make_filter hash) interrupter

  -- The end of a plan: pruning, and the finishing request of each agent.
  unfoldable pub finish_plan : List (List (Assignment S D)) → Answer S D
  unfolding prune_complete append_finishing
  finish_plan complete =
      let pruned = map prune_complete complete in
      maybe finishing (assignments pruned)
        (λ factory. assignments (map (append_finishing w factory) pruned))

  -- The loop of `complete_solve`: `outer` searches of `rounds` rounds each. If a search finds
  -- nothing the plan is empty.
  unfoldable pub plan_loop :
      ℕ
      → ℕ
      → (ℕ → ℕ → Bool)
      → SearchNode S D C
      → List (List (Assignment S D))
      → List S
      → Option TaskPlannerError
      → Result (Answer S D)
  plan_loop zero rounds interrupter node complete states error = err diverges
  plan_loop (suc outer) rounds interrupter node complete states error = do
    found ← search_node rounds (interrupter outer) node
    maybe found (ok (assignments [])) (λ n. (do
      let assigned = prune n.assigned_tasks
      let complete' = merge complete assigned
      let states' = next_states assigned states
      if null n.unassigned_tasks then ok (finish_plan complete') else (do
        made ←
            make_initial_node w time_now check_priority states' (left_requests n.unassigned_tasks)
              error
        maybe made.0 (ok (failed made.1))
            (λ next. plan_loop outer rounds interrupter next complete' states' made.1))))

unfoldable pub has_priority : {D : Type 0} → List (Request D) → Bool
has_priority [] = false
has_priority (r ∷ requests) = r.priority || has_priority requests

-- `complete_solve`, for `outer` searches of `rounds` rounds each. The flag for priorities stays set
-- from an earlier plan.
unfoldable pub complete_solve :
    {S D C : Type 0}
    → World S D C
    → ℕ
    → Bool
    → Bool
    → Option (S → Request D)
    → ℕ
    → ℕ
    → (ℕ → ℕ → Bool)
    → List S
    → List (Request D)
    → Result (Answer S D)
unfolding has_priority
complete_solve w time_now was_set greedy finishing outer rounds interrupter states requests = do
  let check_priority = was_set || has_priority requests
  made ← make_initial_node w time_now check_priority states requests none
  maybe made.0 (ok (failed made.1)) (λ node.
      plan_loop w time_now check_priority greedy finishing outer rounds interrupter node
        (map (λ _. []) states) states made.1)
