-- ===== src/Planner/Searching.antt =====
-- What the nodes that an expansion makes keep.

use rmf_task.Base.{
  ℕ, zero, suc, ◌≡◌, Bool, true, false, List, [], ◌∷◌, Option, none, some, if◌then◌else◌, All, ◌==◌,
  length, maybe, All-append,
}
use rmf_task.Yields.{Yields, yields, stopped, OnSome, present, Yields-bind, Yields-if}
use rmf_task.Candidates.{Node, Candidates, best_candidates, best_range, same_key}
use rmf_task.Planner.{Request, PendingTask, SearchNode, World}
use rmf_task.Planner.Filter.{Filter, ignore}
use rmf_task.Planner.Search.{
  is_due, apply_filter, finished_tasks, expand_range, expand_tasks, expand_agents, expand,
}
use rmf_task.Planner.Tasks.{keys, find_key, find_key-All}
use rmf_task.Planner.Follow.{IsValid, Follows}
use rmf_task.Planner.Expanding.{expand_candidate-Follows, expand_charger-Follows}

module _ {S : Type 0} where
  same_key-ends : (key : ℕ) (nodes : List (Node S)) → Yields (λ _. Unit) (same_key key nodes)
  unfolding same_key
  same_key-ends key [] = stopped (λ e. absurd (cc))
  same_key-ends key (n ∷ nodes) =
      Yields-if (n.key == key) (λ h. Yields-bind (same_key-ends key nodes) (λ l h. yields tt))
        (λ h. yields tt)

  pub best_candidates-ends : (cs : Candidates S) → Yields (λ _. Unit) (best_candidates cs)
  unfolding best_candidates best_range
  best_candidates-ends cs = range cs.value_map
    where
      range : (nodes : List (Node S)) → Yields (λ _. Unit) (best_range nodes)
      range [] = stopped (λ e. absurd (cc))
      range (n ∷ nodes) = same_key-ends n.key (n ∷ nodes)

pub finished_tasks-ends :
    {S D : Type 0} (time : ℕ) (us : List (ℕ × PendingTask S D))
    → Yields (λ _. Unit) (finished_tasks time us)
unfolding finished_tasks
finished_tasks-ends time [] = yields tt
finished_tasks-ends time ((id, u) ∷ rest) =
    Yields-bind (best_candidates-ends u.candidates) λ range h.
      Yields-if (is_due time range) (λ due. yields tt) (λ later. finished_tasks-ends time rest)

module _ {S D C : Type 0} where
  apply_filter-All :
      {P : SearchNode S D C → Type 0} (o : Option (SearchNode S D C)) (f : Filter)
      → OnSome P o
      → All P (apply_filter o f).0
  unfolding apply_filter
  apply_filter-All none f h = tt
  apply_filter-All {P} (some n) f (present h) = choose (ignore n f).0 (ignore n f).1
    where
      choose :
          (old : Bool) (g : Filter)
          → All P (if◌then◌else◌ {A = List (SearchNode S D C) × Filter} old ([], g) (n ∷ [], g)).0
      choose true g = tt
      choose false g = (h, tt)

module _ {S D C : Type 0} (w : World S D C) (time_now : ℕ) (check_priority : Bool) where
  expand_range-Follows :
      (range : List (Node S)) (id : ℕ) (u : PendingTask S D) (n : SearchNode S D C) (f : Filter)
      → IsValid n
      → find_key id (keys n.unassigned_tasks) ≡ some u.request
      → Yields (λ r. All (Follows n) r.0) (expand_range w time_now check_priority range id u n f)
  unfolding expand_range
  expand_range-Follows [] id u n f v e = yields tt
  expand_range-Follows (c ∷ range) id u n f v e =
      Yields-bind (expand_candidate-Follows w time_now check_priority c.entry id u n v e) λ made h.
        Yields-bind (expand_range-Follows range id u n (apply_filter made f).1 v e) λ later g.
          yields (All-append _ (apply_filter made f).0 later.0 (apply_filter-All made f h) g)

  expand_tasks-Follows :
      (us : List (ℕ × PendingTask S D)) (n : SearchNode S D C) (f : Filter)
      → IsValid n
      → All (λ (e : ℕ × Request D). find_key e.0 (keys n.unassigned_tasks) ≡ some e.1) (keys us)
      → Yields (λ r. All (Follows n) r.0) (expand_tasks w time_now check_priority us n f)
  unfolding expand_tasks
  expand_tasks-Follows [] n f v l = yields tt
  expand_tasks-Follows ((id, u) ∷ rest) n f v l =
      Yields-bind (best_candidates-ends u.candidates) λ range t.
        Yields-bind (expand_range-Follows range id u n f v l.0) λ new h.
          Yields-bind (expand_tasks-Follows rest n new.1 v l.1)
            λ later g. yields (All-append _ new.0 later.0 h g)

  expand_agents-Follows :
      (count agent : ℕ) (n : SearchNode S D C)
      → IsValid n
      → Yields (All (Follows n)) (expand_agents w time_now check_priority count agent n)
  unfolding expand_agents
  expand_agents-Follows zero agent n v = yields tt
  expand_agents-Follows (suc count) agent n v =
      Yields-bind (expand_charger-Follows w time_now check_priority n agent v) λ charged h.
        Yields-bind (expand_agents-Follows count (suc agent) n v)
          λ later g. yields (join charged later h g)
    where
      join :
          (o : Option (SearchNode S D C)) (later : List (SearchNode S D C))
          → OnSome (Follows n) o
          → All (Follows n) later
          → All (Follows n) (maybe o later (λ m. m ∷ later))
      join none later h g = g
      join (some m) later (present h) g = (h, g)

  -- Each node that an expansion of a valid node makes follows it: it has the same agents and the
  -- same requests, is valid, and is one step further.
  pub expand-Follows :
      (n : SearchNode S D C) (f : Filter)
      → IsValid n
      → Yields (λ r. All (Follows n) r.0) (expand w time_now check_priority n f)
  unfolding expand
  expand-Follows n f v =
      Yields-bind (expand_tasks-Follows n.unassigned_tasks n f v (find_key-All _ v.distinct))
        λ new h.
          Yields-bind (expand_agents-Follows (length n.assigned_tasks) 0 n v)
            λ charged g. yields (All-append _ new.0 charged h g)
