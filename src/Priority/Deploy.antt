-- ===== src/Priority/Deploy.antt =====
-- The heuristic cost of a node is that of a schedule.
use mathlib.Core.Path.{subst}
use rmf_task.Base.{
  ℕ, suc, ◌-◌, ◌≡◌, refl, sym, ◌∙◌, ap, Option, none, some, maybe, maybe-some, List, [], ◌∷◌, ◌++◌,
  map, Result, ok, ok_inj, ◌>>=◌, >>=-ok, length,
}
use rmf_task.Candidates.{Node, best_finish_time, best_candidates}
use rmf_task.Planner.{Description, AssignmentWrapper, PendingTask, Invariant, SearchNode, last_of}
use rmf_task.InvariantHeuristicQueue.{make_queue, compute_cost, add_invariants}
use rmf_task.InvariantHeuristicQueue.Schedule.{Schedules, compute_cost-Schedules}
use rmf_task.Priority.Costs.{
  lower_value, lower_values, deployment_values, clear_infinity, compute_h,
}
use rmf_task.Priority.Earliest.{
  earliest, better, merge, AreAgents, lower_pairs, lower_pairs_lem, lower_pairs-append, bind_cong,
  bind_cong2, bind_inv,
}

-- The best candidates of a task, each with a time.
abbrev with_time : {S : Type 0} → ℕ → List (Node S) → List (ℕ × ℕ)
with_time value = map (λ n. (n.entry.candidate, value))

lower_values-lower_pairs :
    {S : Type 0} (value : ℕ) (nodes : List (Node S)) (values : List (Option ℕ))
    → lower_values value nodes values ≡ lower_pairs (with_time value nodes) values
unfolding lower_values
lower_values-lower_pairs value [] values = refl
lower_values-lower_pairs value (n ∷ nodes) values =
    bind_cong (lower_value n.entry.candidate value values) _ _
      (lower_values-lower_pairs value nodes)

module _ {S D : Type 0} (time : S → ℕ) (invariant_duration : Description D → ℕ → ℕ) where
  -- Every best candidate of the tasks, with the time at which it would be deployed.
  abbrev pub deployments : List (ℕ × PendingTask S D) → Result (List (ℕ × ℕ))
  deployments [] = ok []
  deployments ((id, u) ∷ rest) = do
    finish ← best_finish_time u.candidates
    best ← best_candidates u.candidates
    more ← deployments rest
    ok (with_time (finish - invariant_duration u.request.description u.model_start) best ++ more)

  deployment_values_lem :
      (tasks : List (ℕ × PendingTask S D)) (pairs : List (ℕ × ℕ)) (values : List (Option ℕ))
      → deployments tasks ≡ ok pairs
      → deployment_values time invariant_duration tasks values ≡ lower_pairs pairs values
  unfolding deployment_values
  deployment_values_lem [] pairs values e = ap (λ ps. lower_pairs ps values) (ok_inj e)
  deployment_values_lem ((id, u) ∷ rest) pairs values e =
      let at : ℕ → ℕ = λ finish. finish - invariant_duration u.request.description u.model_start in
      let (finish, is_finish, e1) =
        bind_inv (best_finish_time u.candidates)
          (λ finish. best_candidates u.candidates >>= λ best.
            deployments rest >>= λ more. ok (with_time (at finish) best ++ more))
          pairs e in
      let (best, is_best, e2) =
        bind_inv (best_candidates u.candidates)
          (λ best. deployments rest >>= λ more. ok (with_time (at finish) best ++ more)) pairs e1 in
      let (more, is_more, e3) =
        bind_inv (deployments rest) (λ more. ok (with_time (at finish) best ++ more)) pairs e2 in
      >>=-ok (best_finish_time u.candidates) _ is_finish
      ∙ >>=-ok (best_candidates u.candidates) _ is_best
      ∙ bind_cong2 (lower_values-lower_pairs (at finish) best values)
          (λ values'. deployment_values_lem rest more values' is_more)
      ∙ sym (lower_pairs-append (with_time (at finish) best) more values)
      ∙ ap (λ ps. lower_pairs ps values) (ok_inj e3)

  -- When the agents, from the one numbered k on, are free: from the earliest of the times that are
  -- listed with the agent, or else from the end of its last assignment, or from now on.
  abbrev pub free_times : ℕ → List (ℕ × ℕ) → ℕ → List (List (AssignmentWrapper S D)) → List ℕ
  free_times k pairs time_now [] = []
  free_times k pairs time_now (agent ∷ agents) =
      maybe (earliest k pairs)
        (maybe (last_of agent) time_now (λ a. time a.assignment.finish_state)) (λ v. v)
      ∷ free_times (suc k) pairs time_now agents

  abbrev infinite : List (List (AssignmentWrapper S D)) → List (Option ℕ)
  infinite = map (λ (a : List (AssignmentWrapper S D)). none)

  better-none : (o : Option ℕ) → better o none ≡ o
  better-none none = refl
  better-none (some v) = refl

  clear_infinity-merge :
      (k : ℕ) (pairs : List (ℕ × ℕ)) (time_now : ℕ) (agents : List (List (AssignmentWrapper S D)))
      → clear_infinity time invariant_duration time_now (merge k pairs (infinite agents)) agents
        ≡ free_times k pairs time_now agents
  unfolding clear_infinity
  clear_infinity-merge k pairs time_now [] = refl
  clear_infinity-merge k pairs time_now (agent ∷ agents) =
      let last = maybe (last_of agent) time_now (λ a. time a.assignment.finish_state) in
      ap
        (λ o.
          maybe o last (λ v. v)
          ∷ clear_infinity time invariant_duration time_now (merge (suc k) pairs (infinite agents))
              agents)
        (better-none (earliest k pairs))
      ∙ ap (λ l. maybe (earliest k pairs) last (λ v. v) ∷ l)
          (clear_infinity-merge (suc k) pairs time_now agents)

  length-infinite :
      (agents : List (List (AssignmentWrapper S D))) → length (infinite agents) ≡ length agents
  length-infinite [] = refl
  length-infinite (agent ∷ agents) = ap suc (length-infinite agents)

  abbrev pub invariant_times : List Invariant → List (ℕ × ℕ)
  invariant_times = map (λ (i : Invariant). (i.earliest_start_time, i.earliest_finish_time))

  queue_values :
      (tasks : List (ℕ × PendingTask S D)) (pairs : List (ℕ × ℕ))
      (agents : List (List (AssignmentWrapper S D)))
      → deployments tasks ≡ ok pairs
      → AreAgents (length agents) pairs
      → deployment_values time invariant_duration tasks (infinite agents)
        ≡ ok (merge 0 pairs (infinite agents))
  queue_values tasks pairs agents e h =
      deployment_values_lem tasks pairs (infinite agents) e
      ∙ lower_pairs_lem pairs (infinite agents)
          (subst (λ n. AreAgents n pairs) (sym (length-infinite agents)) h)

  -- Of a node with an agent at least, the heuristic cost is that of a schedule of the invariants in
  -- which each goes to an agent that is free first, if the best candidates of the tasks that are left
  -- can be read and are agents. An agent is free from the earliest deployment of a task that it is a
  -- best candidate for, or else from the end of its last assignment, or from now on, where a task is
  -- deployed at its best finish less its invariant duration. Times are in nanoseconds and exact.
  pub compute_h-Schedules :
      {C : Type 0} (n : SearchNode S D C) (time_now : ℕ) (agent : List (AssignmentWrapper S D))
      (agents : List (List (AssignmentWrapper S D))) (pairs : List (ℕ × ℕ))
      → n.assigned_tasks ≡ agent ∷ agents
      → deployments n.unassigned_tasks ≡ ok pairs
      → AreAgents (length n.assigned_tasks) pairs
      → (cost : ℕ) × (compute_h time invariant_duration n time_now ≡ ok cost)
        × Schedules
            (invariant_times n.unassigned_invariants)
            (free_times 0 pairs time_now n.assigned_tasks)
            cost
  unfolding compute_h
  compute_h-Schedules n time_now agent agents pairs has e h =
      let tasks = invariant_times n.unassigned_invariants in
      let f = ap (free_times 0 pairs time_now) has in
      let (q, added, s) = compute_cost-Schedules _ _ tasks in
      (
        compute_cost q,
        >>=-ok _ _ (queue_values n.unassigned_tasks pairs n.assigned_tasks e h)
            ∙ maybe-some _ _ _ (
                ap (λ l. add_invariants tasks (make_queue l))
                  (clear_infinity-merge 0 pairs time_now n.assigned_tasks ∙ f)
                ∙ added),
        subst (λ l. Schedules tasks l (compute_cost q)) (sym f) s,
      )
