-- ===== src/Planner/Search.antt =====
-- TaskPlanner.cpp: the search for a node in which all tasks that are due are assigned.
use rmf_task.Base.{
  ℕ, zero, suc, ◌+◌, Bool, true, false, List, [], ◌∷◌, ◌++◌, Option, none, some, if◌then◌else◌, leb,
  length, Result, ok, err, diverges, ◌>>=◌, maybe,
}
use rmf_task.Candidates.{Node, best_candidates}
use rmf_task.Planner.{PendingTask, SearchNode, World, segmentation_threshold}
use rmf_task.Planner.Expand.{expand_candidate, expand_charger}
use rmf_task.Planner.Filter.{Filter, ignore}

-- The tasks of which a best candidate may start by a time.
unfoldable pub is_due : {S : Type 0} → ℕ → List (Node S) → Bool
is_due time [] = false
is_due time (c ∷ range) =
    let later = is_due time range in if leb c.entry.wait_until time then true else later

unfoldable pub finished_tasks : {S D : Type 0} → ℕ → List (ℕ × PendingTask S D) → Result Bool
unfolding is_due
finished_tasks time [] = ok true
finished_tasks time ((id, u) ∷ rest) =
    let later = finished_tasks time rest in
    (do range ← best_candidates u.candidates; if is_due time range then ok false else later)

module _ {S D C : Type 0} where
  -- The node unless the filter has seen it.
  unfoldable pub apply_filter :
      Option (SearchNode S D C) → Filter → List (SearchNode S D C) × Filter
  apply_filter none f = ([], f)
  apply_filter (some n) f = let (old, f') = ignore n f in if old then ([], f') else (n ∷ [], f')

  unfoldable pub finished : SearchNode S D C → Result Bool
  finished n = finished_tasks (n.latest_time + segmentation_threshold) n.unassigned_tasks

module _ {S D C : Type 0} (w : World S D C) where
  -- `std::priority_queue`: `LowestCostEstimate` puts a node with a least cost on top. Which one of
  -- those with the same cost comes first is not specified; here it is the one pushed first.
  unfoldable pub push_queue : SearchNode S D C → List (SearchNode S D C) → List (SearchNode S D C)
  push_queue n [] = n ∷ []
  push_queue n (m ∷ queue) =
      let later = push_queue n queue in
      if w.less n.cost_estimate m.cost_estimate then n ∷ m ∷ queue else m ∷ later

  unfoldable pub push_all :
      List (SearchNode S D C) → List (SearchNode S D C) → List (SearchNode S D C)
  unfolding push_queue
  push_all [] queue = queue
  push_all (n ∷ nodes) queue = push_all nodes (push_queue n queue)

module _ {S D C : Type 0} (w : World S D C) (time_now : ℕ) (check_priority : Bool) where
  -- The loops of `expand`: over the best candidates of a task, over the tasks, over the agents.
  unfoldable pub expand_range :
      List (Node S)
      → ℕ
      → PendingTask S D
      → SearchNode S D C
      → Filter
      → Result (List (SearchNode S D C) × Filter)
  expand_range [] id u parent f = ok ([], f)
  expand_range (c ∷ range) id u parent f = do
    made ← expand_candidate w time_now check_priority c.entry id u parent
    let kept = apply_filter made f
    later ← expand_range range id u parent kept.1
    ok (kept.0 ++ later.0, later.1)

  unfoldable pub expand_tasks :
      List (ℕ × PendingTask S D)
      → SearchNode S D C
      → Filter
      → Result (List (SearchNode S D C) × Filter)
  expand_tasks [] parent f = ok ([], f)
  expand_tasks ((id, u) ∷ rest) parent f = do
    range ← best_candidates u.candidates
    new ← expand_range range id u parent f
    later ← expand_tasks rest parent new.1
    ok (new.0 ++ later.0, later.1)

  -- The agents from a number on, as many as given.
  unfoldable pub expand_agents : ℕ → ℕ → SearchNode S D C → Result (List (SearchNode S D C))
  expand_agents zero agent parent = ok []
  expand_agents (suc count) agent parent = do
    charged ← expand_charger w time_now check_priority parent agent
    later ← expand_agents count (suc agent) parent
    ok (maybe charged later (λ n. n ∷ later))

  unfoldable pub expand : SearchNode S D C → Filter → Result (List (SearchNode S D C) × Filter)
  expand parent f = do
    new ← expand_tasks parent.unassigned_tasks parent f
    charged ← expand_agents (length parent.assigned_tasks) 0 parent
    ok (new.0 ++ charged, new.1)

  -- The loop of `solve`, for some rounds. The interrupter answers for each round.
  unfoldable pub solve_loop :
      ℕ → List (SearchNode S D C) → Filter → (ℕ → Bool) → Result (Option (SearchNode S D C))
  solve_loop rounds [] f interrupter = ok none
  solve_loop zero (top ∷ queue) f interrupter = err diverges
  solve_loop (suc rounds) (top ∷ queue) f interrupter = if interrupter 0 then ok none else (do
    done ← finished top
    elim done [
      | true ↦ ok (some top)
      | false ↦ do
        new ← expand top f
        solve_loop rounds (push_all w new.0 queue) new.1 (λ i. interrupter (suc i))
    ])
