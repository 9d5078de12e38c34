-- ===== src/Planner/Planning.antt =====
-- A plan: the searches of the planner come to an end, and have each request in the plan once.
use mathlib.Core.List.Perm
use mathlib.Core.List.{Perm}
use mathlib.Core.Path.{subst}
use rmf_task.Base.{
  true-ne-false, ℕ, zero, suc, ◌+◌, ◌<◌, ◌≡◌, refl, sym, ◌∙◌, ap, inl, inr, Bool, true, false, ◌||◌,
  List, [], ◌++◌, map, append_assoc, append-nil, Option, none, arith, length, null, ok,
}
use rmf_task.Yields.{yields}
use rmf_task.Descent.{Settles, Settles-const, Settles-bind, Settles-OnSome, Settles-if}
use rmf_task.Planner.{Request, Assignment, PendingTask, SearchNode, World}
use rmf_task.Planner.Filter.{hash, make_filter}
use rmf_task.Planner.Search.{finished}
use rmf_task.Planner.Initial.{TaskPlannerError}
use rmf_task.Planner.Plan.{
  prune, merge, next_states, left_requests, search_node, plan_loop, has_priority, complete_solve,
}
use rmf_task.Planner.Tasks.{keys, requests, assigned_requests}
use rmf_task.Planner.Follow.{tasks}
use rmf_task.Planner.Solving.{Found, solve_loop_ends}
use rmf_task.Planner.Reaching.{Reaches-tasks, Reaches-fewer, idle_requests, idle_HasWork}
use rmf_task.Planner.Starting.{Plain, IsBounded}
use rmf_task.Planner.Beginning.{Begins, make_initial_node-Begins}
use rmf_task.Planner.Merging.{
  planned, planned_none, merge-prune, length-merge, length-next_states, length-map,
  left_requests_lem, null-keys, length-requests, requests-Plain,
}
use rmf_task.Planner.Finishing.{IsPlan, nothing, refused, finish_plan-IsPlan}

module _ {S D C : Type 0} where
  -- The requests of a node that a search begins with.
  Begins-tasks :
      {states : List S} {rs : List (Request D)} {n : SearchNode S D C}
      → Begins states rs n
      → tasks n ≡ rs
  Begins-tasks {states} {rs} {n} b =
      ap (λ (l : List (Request D)). l ++ requests (keys n.unassigned_tasks))
        (ap assigned_requests b.idle ∙ idle_requests S states)
      ∙ b.same

  Begins-agents :
      {states : List S} {rs : List (Request D)} {n : SearchNode S D C}
      → Begins states rs n
      → length n.assigned_tasks ≡ length states
  Begins-agents {states} b = ap length b.idle ∙ length-map _ states

module _ {S D C : Type 0} (w : World S D C) (time_now : ℕ) (check_priority : Bool)
    (finishing : Option (S → Request D)) (bounded : IsBounded w) where
  -- The requests of the plan after a search, with those that are left.
  merged :
      {states : List S} {rs all : List (Request D)} (n m : SearchNode S D C)
      (done : List (List (Assignment S D)))
      → Begins states rs n
      → Found w time_now check_priority n m
      → length done ≡ length states
      → Perm (planned done ++ rs) all
      → Perm
          (planned (merge done (prune m.assigned_tasks)) ++ requests (keys m.unassigned_tasks))
          all
  merged {rs} n m done b f e p =
      let t = Reaches-tasks f.0 in
      Perm.trans
        (Perm.append_right (requests (keys m.unassigned_tasks))
          (merge-prune done m.assigned_tasks (e ∙ sym (Begins-agents b) ∙ sym t.1)))
        (Perm.trans
          (subst (λ (l : List (Request D)). Perm l (planned done ++ rs))
            (sym (
              append_assoc (planned done) (assigned_requests m.assigned_tasks)
                (requests (keys m.unassigned_tasks))))
            (Perm.append_left (planned done) (subst (Perm (tasks m)) (Begins-tasks b) t.0)))
          p)

  -- After a search, fewer requests are left than it began with.
  fewer_left :
      {states : List S} {rs : List (Request D)} (n m : SearchNode S D C)
      → Begins states rs n
      → Found w time_now check_priority n m
      → null m.unassigned_tasks ≡ false
      → length (left_requests m.unassigned_tasks) < length rs
  fewer_left {states} {rs} n m b f h = elim (Reaches-fewer f.0 (idle_HasWork n states b.idle)) [
    | inl same ↦ absurd (some_left same)
    | inr less ↦ omega (
      arith,
      less,
      ap length (left_requests_lem m.unassigned_tasks),
      length-requests (keys m.unassigned_tasks),
      length-requests (keys n.unassigned_tasks),
      ap length b.same,
    )
  ]
    where
      none_left : m ≡ n → m.unassigned_tasks ≡ []
      none_left same =
          ap (λ (x : SearchNode S D C). x.unassigned_tasks) same
          ∙ b.due (subst (λ (x : SearchNode S D C). finished x ≡ ok true) same f.2)

      some_left : m ≡ n → ⊥
      some_left same =
          true-ne-false
            (sym (ap (λ (us : List (ℕ × PendingTask S D)). null us) (none_left same)) ∙ h)

  -- The plan after the searches that follow one another.
  plan_loop_ends :
      (outer agents : ℕ) (interrupter : ℕ → ℕ → Bool) (node : SearchNode S D C)
      (done : List (List (Assignment S D))) (states : List S) (rs all : List (Request D))
      (error : Option TaskPlannerError)
      → Begins states rs node
      → length rs < outer
      → 1 + length rs < 18446744073709551616
      → length states ≡ agents
      → length done ≡ agents
      → Perm (planned done ++ rs) all
      → Settles (IsPlan finishing agents all) (λ rounds.
        plan_loop w time_now check_priority false finishing outer rounds interrupter node done
          states error)
  unfolding plan_loop search_node
  plan_loop_ends zero agents interrupter node done states rs all error b o l a e p =
      absurd (omega (arith, o))
  plan_loop_ends (suc outer) agents interrupter node done states rs all error b o l a e p =
      Settles-bind _
        (solve_loop_ends w time_now check_priority node (make_filter hash) (interrupter outer)
          b.valid)
        λ found h. Settles-OnSome _ h (yields nothing) λ n f.
          let same = merged node n done b f (e ∙ sym a) p in
          let assigned = prune n.assigned_tasks in
          let left = left_requests n.unassigned_tasks in
          let states' = next_states assigned states in
          let count : length assigned ≡ agents =
            length-map _ n.assigned_tasks ∙ (Reaches-tasks f.0).1 ∙ Begins-agents b ∙ a in
          Settles-if (null n.unassigned_tasks)
            (λ all_done. yields (
              finish_plan-IsPlan w time_now check_priority false finishing (merge done assigned)
                agents all (length-merge done assigned (e ∙ sym count) ∙ count)
                (subst (λ (l : List (Request D)). Perm l all)
                  (ap (λ (l : List (Request D)). planned (merge done assigned) ++ l)
                      (null-keys n.unassigned_tasks all_done)
                    ∙ append-nil (planned (merge done assigned)))
                  same)))
            (λ some_left.
              Settles-bind _
                (Settles-const (
                  make_initial_node-Begins w time_now check_priority states' left error bounded
                    (subst Plain (sym (left_requests_lem n.unassigned_tasks))
                      (requests-Plain (keys n.unassigned_tasks) f.1.plain))
                    (omega (arith, fewer_left node n b f some_left, l))))
                λ made g. Settles-OnSome _ g (yields refused) λ next c.
                  plan_loop_ends outer agents interrupter next (merge done assigned) states' left
                    all made.1 c (omega (arith, fewer_left node n b f some_left, o))
                    (omega (arith, fewer_left node n b f some_left, l))
                    (length-next_states assigned states (a ∙ sym count) ∙ count)
                    (length-merge done assigned (e ∙ sym count) ∙ count)
                    (subst (λ (r : List (Request D)). Perm (planned (merge done assigned) ++ r) all)
                      (sym (left_requests_lem n.unassigned_tasks)) same))

-- The planner, not set to be greedy, comes to an end when none of the requests is to charge, there
-- are fewer than 2^64 - 1 of them, and the estimates do not wait past the last time: for one search
-- more than there are requests, any greater number of rounds gives the same result. A fault aside,
-- it finds no plan, refuses, or gives each agent a part of a plan; leaving charging aside, the
-- requests of this plan are those that it was given, each once, and those of the factory of
-- finishing requests, if there is one.
pub complete_solve_ends :
    {S D C : Type 0} (w : World S D C) (time_now : ℕ) (was_set : Bool)
    (finishing : Option (S → Request D)) (interrupter : ℕ → ℕ → Bool) (states : List S)
    (requests : List (Request D))
    → IsBounded w
    → Plain requests
    → 1 + length requests < 18446744073709551616
    → Settles (IsPlan finishing (length states) requests) (λ rounds.
      complete_solve w time_now was_set false finishing
        (suc (length requests))
        rounds
        interrupter
        states
        requests)
unfolding complete_solve
complete_solve_ends {S} w time_now was_set finishing interrupter states requests bounded plain
      small =
    let priority = was_set || has_priority requests in
    Settles-bind _
      (Settles-const
        (make_initial_node-Begins w time_now priority states requests none bounded plain small))
      λ made g. Settles-OnSome _ g (yields refused) λ node b.
        plan_loop_ends w time_now priority finishing bounded (suc (length requests)) (length states)
          interrupter node (map (λ _. []) states) states requests requests made.1 b (omega arith)
          small refl (length-map _ states)
          (subst (λ (l : List (Request _)). Perm (l ++ requests) requests)
            (sym (planned_none S states)) (Perm.refl requests))
