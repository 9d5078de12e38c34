-- ===== src/Planner/Beginning.antt =====
-- The node that a search begins with: it is valid, holds the requests, and has a task that is due.
use mathlib.Core.Path.{subst}
use rmf_task.Base.{
  ℕ, ◌+◌, ◌≤◌, ◌<◌, ◌≡◌, refl, sym, inl, inr, max, Bool, true, List, [], ◌∷◌, map, Option,
  Option-cases, All, arith, length, ok, maybe-none, maybe-some,
}
use rmf_task.Yields.{Yields, yields, OnSome, OnSome-some, absent, present, Yields-bind, Yields-self}
use rmf_task.Planner.{Request, PendingTask, SearchNode, World, segmentation_threshold}
use rmf_task.Planner.Search.{finished_tasks, finished}
use rmf_task.Planner.Initial.{
  TaskPlannerError, time_max, first_wait, least_wait, make_unassigned, latest_start,
  make_initial_node,
}
use rmf_task.Planner.Tasks.{keys, requests}
use rmf_task.Planner.Follow.{IsValid}
use rmf_task.Planner.Searching.{best_candidates-ends}
use rmf_task.Planner.Due.{some_due}
use rmf_task.Planner.Starting.{Plain, IsBounded, AllInTime, Prepared, make_unassigned-Prepared}

-- A node holds the requests, none of which is assigned, and if it has any, one of them is due.
pub record Begins {S D C : Type 0} (states : List S) (rs : List (Request D)) (n : SearchNode S D C)
    : Type 0 where
  pub valid : IsValid n
  pub same : requests (keys n.unassigned_tasks) ≡ rs
  pub idle : n.assigned_tasks ≡ map (λ _. []) states
  pub due : finished n ≡ ok true → n.unassigned_tasks ≡ []

module _ {S D : Type 0} where
  first_wait-ends : (m : ℕ) (us : List (ℕ × PendingTask S D)) → Yields (λ _. Unit) (first_wait m us)
  unfolding first_wait
  first_wait-ends m [] = yields tt
  first_wait-ends m ((id, u) ∷ rest) =
      Yields-bind (best_candidates-ends u.candidates)
        λ range h. first_wait-ends (least_wait m range) rest

  none_due :
      (t v : ℕ) (us : List (ℕ × PendingTask S D))
      → All (λ (e : ℕ × PendingTask S D). AllInTime e.1) us
      → first_wait time_max us ≡ ok v
      → v ≤ t
      → finished_tasks t us ≡ ok true
      → us ≡ []
  none_due t v [] l f h g = refl
  none_due t v ((id, u) ∷ rest) l f h g = absurd (some_due t v id u rest l.0 f h g)

-- The node that `make_initial_node` makes for requests that are not to charge begins a search for
-- them.
pub make_initial_node-Begins :
    {S D C : Type 0} (w : World S D C) (time_now : ℕ) (check_priority : Bool) (states : List S)
    (rs : List (Request D)) (error : Option TaskPlannerError)
    → IsBounded w
    → Plain rs
    → 1 + length rs < 18446744073709551616
    → Yields
        (λ r. OnSome (Begins states rs) r.0)
        (make_initial_node w time_now check_priority states rs error)
unfolding make_initial_node finished
make_initial_node-Begins {S} {D} {C} w time_now check_priority states rs error bounded plain small =
    let made = make_unassigned w time_now states rs 1 [] error in
    elim (Option-cases made.0) [
      | inl h ↦
          subst
            (Yields (λ (r : Option (SearchNode S D C) × Option TaskPlannerError).
              OnSome (Begins states rs) r.0))
            (sym (maybe-none made.0 _ _ h)) (yields absent)
      | inr (us, h) ↦
          let p : Prepared us.1 rs us.0 =
            OnSome-some
              (make_unassigned-Prepared w bounded time_now states rs [] 1 [] error
                (record { below = tt; distinct = tt; plain = tt; same = refl; in_time = tt }) plain
                small)
              h in
          subst
            (Yields (λ (r : Option (SearchNode S D C) × Option TaskPlannerError).
              OnSome (Begins states rs) r.0))
            (sym (maybe-some made.0 _ _ h))
            (Yields-bind (Yields-self (first_wait-ends time_max us.0)) λ v f. yields (
              present (record {
                valid = record { distinct = p.distinct; plain = p.plain };
                same = p.same;
                idle = refl;
                due = λ g.
                    none_due (max (latest_start w states) v + segmentation_threshold) v us.0
                      p.in_time f (omega arith) g;
              })))
    ]
