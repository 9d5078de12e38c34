-- ===== src/Planner/Greedy.antt =====
-- TaskPlanner.cpp: the greedy search.
use rmf_task.Base.{
  ℕ, zero, suc, ◌+◌, Bool, true, false, List, [], ◌∷◌, Option, none, some, if◌then◌else◌, ltb,
  length, get_elem?, Result, ok, err, past_end, diverges, ◌>>=◌, deref, maybe,
}
use rmf_task.Candidates.{Node, best_candidates}
use rmf_task.Planner.{PendingTask, SearchNode, World, segmentation_threshold, copy_node}
use rmf_task.Planner.Expand.{expand_candidate, expand_charger}
use rmf_task.Planner.Search.{finished}

module _ {A : Type 0} where
  -- `pop_back` of a vector that is not empty.
  unfoldable pub drop_last : List A → List A
  drop_last [] = []
  drop_last (x ∷ []) = []
  drop_last (x ∷ y ∷ xs) = x ∷ drop_last (y ∷ xs)

  unfoldable pub drop_last_at : ℕ → List (List A) → List (List A)
  unfolding drop_last
  drop_last_at agent [] = []
  drop_last_at zero (x ∷ agents) = drop_last x ∷ agents
  drop_last_at (suc agent) (x ∷ agents) = x ∷ drop_last_at agent agents

module _ {S D C : Type 0} (w : World S D C) (time_now : ℕ) (check_priority : Bool) where
  -- The loop that goes back: assignments of an agent are taken away from the end, until it can
  -- charge there; `count` is how many there are. The tasks that are taken away are not put back
  -- among the unassigned ones.
  unfoldable pub backtrack : ℕ → ℕ → SearchNode S D C → Result (Option (SearchNode S D C))
  backtrack zero agent parent = ok none
  backtrack (suc count) agent parent = do
    let shorter = record parent { assigned_tasks = drop_last_at agent parent.assigned_tasks }
    charged ← expand_charger w time_now check_priority shorter agent
    let more = backtrack count agent shorter
    maybe charged more (λ n. ok (some n))

  -- What an expansion of a candidate leaves as the next node.
  unfoldable pub greedy_step :
      Node S
      → SearchNode S D C
      → Option (SearchNode S D C)
      → Option (SearchNode S D C)
      → Result (Option (SearchNode S D C))
  greedy_step c node next (some n) =
      ok (
        maybe next (some n)
          (λ m. if w.less n.cost_estimate m.cost_estimate then some n else some m))
  greedy_step c node next none =
      if ltb c.entry.wait_until (node.latest_time + segmentation_threshold)
      then maybe (get_elem? node.assigned_tasks c.entry.candidate) (err past_end) (λ agent. do
        charged ← backtrack (length agent) c.entry.candidate (copy_node node)
        ok (maybe charged next (λ n. some n)))
      else ok next

  unfoldable pub greedy_range :
      List (Node S)
      → ℕ
      → PendingTask S D
      → SearchNode S D C
      → Option (SearchNode S D C)
      → Result (Option (SearchNode S D C))
  greedy_range [] id u node next = ok next
  greedy_range (c ∷ range) id u node next = do
    made ← expand_candidate w time_now check_priority c.entry id u node
    next' ← greedy_step c node next made
    greedy_range range id u node next'

  unfoldable pub greedy_tasks :
      List (ℕ × PendingTask S D)
      → SearchNode S D C
      → Option (SearchNode S D C)
      → Result (Option (SearchNode S D C))
  greedy_tasks [] node next = ok next
  greedy_tasks ((id, u) ∷ rest) node next = do
    range ← best_candidates u.candidates
    next' ← greedy_range range id u node next
    greedy_tasks rest node next'

  -- The loop of `greedy_solve`, for some rounds. A round that makes no node ends with a null
  -- pointer, which the next test reads.
  unfoldable pub greedy_loop : ℕ → SearchNode S D C → Result (SearchNode S D C)
  greedy_loop zero node = err diverges
  greedy_loop (suc rounds) node = do
    done ← finished node
    elim done [
      | true ↦ ok node
      | false ↦ do
        next ← greedy_tasks node.unassigned_tasks node none
        n ← deref next
        greedy_loop rounds n
    ]
