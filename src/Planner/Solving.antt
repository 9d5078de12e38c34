-- ===== src/Planner/Solving.antt =====
-- The search of the planner comes to an end, and what it finds.

use mathlib.Core.Path.{subst}
use mathlib.Core.WellFounded.{Acc}
use rmf_task.Base.{
  ℕ, zero, suc, ◌+◌, ◌≤◌, ◌<◌, ◌≡◌, refl, sym, ◌∙◌, ap, inl, inr, Bool, true, false, List, [], ◌∷◌,
  none, some, if◌then◌else◌, All, arith, ◌==◌, Bool-cases, if_true, if_false, length, ok, err,
  >>=-ok, >>=-err,
}
use rmf_task.Yields.{yields, stopped, OnSome, absent, present, Yields-cases}
use rmf_task.Descent.{Lower, Lower-Acc, Settles, Settles-now, Settles-later}
use rmf_task.Planner.{SearchNode, World, segmentation_threshold}
use rmf_task.Planner.Filter.{Filter}
use rmf_task.Planner.Search.{finished, push_queue, push_all, solve_loop}
use rmf_task.Planner.Follow.{measure, IsValid, Follows}
use rmf_task.Planner.Searching.{finished_tasks-ends, expand-Follows}

module _ {S D C : Type 0} where
  -- The nodes that some expansions lead to.
  pub data Reaches (n : SearchNode S D C) : SearchNode S D C → Type 0 where
    here : Reaches n n
    step : {m k : SearchNode S D C} → Reaches n m → Follows m k → Reaches n k

  -- How many nodes of a queue have a measure.
  abbrev count : ℕ → List (SearchNode S D C) → ℕ
  count m [] = 0
  count m (n ∷ queue) = (if measure n == m then 1 else 0) + count m queue

  -- The counts of the measures below a bound, the greatest one first.
  abbrev counts : ℕ → List (SearchNode S D C) → List ℕ
  counts zero queue = []
  counts (suc m) queue = count m queue ∷ counts m queue

  length-counts : (m : ℕ) (queue : List (SearchNode S D C)) → length (counts m queue) ≡ m
  length-counts zero queue = refl
  length-counts (suc m) queue = ap suc (length-counts m queue)

  count_above :
      (k m : ℕ) (nodes : List (SearchNode S D C))
      → k ≤ m
      → All (λ n. measure n < k) nodes
      → count m nodes ≡ 0
  count_above k m [] h l = refl
  count_above k m (n ∷ nodes) h l = omega (
    arith,
    if_false {A = ℕ} (measure n == m) 1 0 (ground (arith, l.0)),
    count_above k m nodes h l.1,
  )

  -- A node of the queue is replaced by some with smaller measures.
  replace-Lower :
      (bound : ℕ) (top : SearchNode S D C) (new queue queue' : List (SearchNode S D C))
      → measure top < bound
      → All (λ n. measure n < measure top) new
      → ((m : ℕ) → count m queue' ≡ count m new + count m queue)
      → Lower (counts bound queue') (counts bound (top ∷ queue))
  replace-Lower zero top new queue queue' h l c = absurd (omega (arith, h))
  replace-Lower (suc bound) top new queue queue' h l c = elim (Bool-cases (measure top == bound)) [
    | inl is_top ↦
        Lower.here
          (omega (
            arith,
            if_true {A = ℕ} (measure top == bound) 1 0 is_top,
            c bound,
            count_above (measure top) bound new (ground (arith, is_top)) l,
          ))
          (length-counts bound queue' ∙ sym (length-counts bound (top ∷ queue)))
    | inr below ↦
        subst (λ (x : ℕ). Lower (x ∷ counts bound queue') (counts (suc bound) (top ∷ queue)))
          (omega (
            arith,
            if_false {A = ℕ} (measure top == bound) 1 0 below,
            c bound,
            count_above (measure top) bound new (omega (arith, h)) l,
          ))
          (Lower.there (replace-Lower bound top new queue queue' (ground (arith, h, below)) l c))
  ]

module _ {S D C : Type 0} (w : World S D C) where
  push_queue-All {ℓ} :
      (P : SearchNode S D C → Type ℓ) (n : SearchNode S D C) (queue : List (SearchNode S D C))
      → P n
      → All P queue
      → All P (push_queue w n queue)
  unfolding push_queue
  push_queue-All P n [] h l = (h, tt)
  push_queue-All P n (m ∷ queue) h l = elim (Bool-cases (w.less n.cost_estimate m.cost_estimate)) [
    | inl first ↦
        subst (All P) (sym (if_true (w.less n.cost_estimate m.cost_estimate) _ _ first)) (h, l)
    | inr later ↦
        subst (All P) (sym (if_false (w.less n.cost_estimate m.cost_estimate) _ _ later))
          (l.0, push_queue-All P n queue h l.1)
  ]

  push_all-All {ℓ} :
      (P : SearchNode S D C → Type ℓ) (nodes queue : List (SearchNode S D C))
      → All P nodes
      → All P queue
      → All P (push_all w nodes queue)
  unfolding push_all
  push_all-All P [] queue h l = l
  push_all-All P (n ∷ nodes) queue h l =
      push_all-All P nodes (push_queue w n queue) h.1 (push_queue-All P n queue h.0 l)

  count-push_queue :
      (m : ℕ) (n : SearchNode S D C) (queue : List (SearchNode S D C))
      → count m (push_queue w n queue) ≡ count m (n ∷ queue)
  unfolding push_queue
  count-push_queue m n [] = refl
  count-push_queue m n (k ∷ queue) = elim (Bool-cases (w.less n.cost_estimate k.cost_estimate)) [
    | inl first ↦ ap (count m) (if_true (w.less n.cost_estimate k.cost_estimate) _ _ first)
    | inr later ↦
        ap (count m) (if_false (w.less n.cost_estimate k.cost_estimate) _ _ later)
        ∙ omega (arith, count-push_queue m n queue)
  ]

  count-push_all :
      (m : ℕ) (nodes queue : List (SearchNode S D C))
      → count m (push_all w nodes queue) ≡ count m nodes + count m queue
  unfolding push_all
  count-push_all m [] queue = omega arith
  count-push_all m (n ∷ nodes) queue =
      omega (arith, count-push_all m nodes (push_queue w n queue), count-push_queue m n queue)

module _ {S D C : Type 0} (w : World S D C) (time_now : ℕ) (check_priority : Bool) where
  -- The search finds a node that is finished, if it finds one, and that expansions lead to.
  abbrev pub Found : SearchNode S D C → SearchNode S D C → Type 0
  Found root n = Reaches root n × IsValid n × (finished n ≡ ok true)

  -- What holds of the nodes in a queue.
  abbrev Queued : SearchNode S D C → ℕ → SearchNode S D C → Type 0
  Queued root bound n = Reaches root n × IsValid n × (measure n < bound)

  Queued-Follows :
      (root : SearchNode S D C) (bound : ℕ) (n : SearchNode S D C) (nodes : List (SearchNode S D C))
      → Queued root bound n
      → All (Follows n) nodes
      → All (Queued root bound) nodes
  Queued-Follows root bound n [] q l = tt
  Queued-Follows root bound n (m ∷ nodes) q l = (
    (step q.0 l.0, l.0.valid, omega (arith, q.2, l.0.smaller)),
    Queued-Follows root bound n nodes q l.1,
  )

  smaller-Follows :
      (n : SearchNode S D C) (nodes : List (SearchNode S D C))
      → All (Follows n) nodes
      → All (λ m. measure m < measure n) nodes
  smaller-Follows n [] l = tt
  smaller-Follows n (m ∷ nodes) l = (l.0.smaller, smaller-Follows n nodes l.1)

  -- The loop of `solve` on a queue of nodes that expansions of a node lead to.
  solve_loop-Settles :
      (root : SearchNode S D C) (bound : ℕ) (queue : List (SearchNode S D C)) (v : List ℕ)
      → Acc Lower v
      → counts bound queue ≡ v
      → All (Queued root bound) queue
      → (f : Filter) (interrupter : ℕ → Bool)
      → Settles
          (OnSome (Found root))
          (λ rounds. solve_loop w time_now check_priority rounds queue f interrupter)
  unfolding solve_loop finished
  solve_loop-Settles root bound [] v acc e l f interrupter = record {
    rounds = 0;
    result = ok none;
    returns = none_left;
    right = yields absent;
  }
    where
      none_left :
          (r : ℕ) → 0 ≤ r → solve_loop w time_now check_priority r [] f interrupter ≡ ok none
      none_left zero h = refl
      none_left (suc r) h = refl
  solve_loop-Settles root bound (top ∷ queue) v (Acc.intro _ lower) c l f interrupter =
      elim (Bool-cases (interrupter 0)) [
        | inl stops ↦ Settles-now (ok none) (yields absent) (λ r. if_true (interrupter 0) _ _ stops)
        | inr goes ↦
            elim (Yields-cases (
              finished_tasks-ends (top.latest_time + segmentation_threshold)
                top.unassigned_tasks)) [
                  | inr (e, h, n) ↦
                      Settles-now (err e) (stopped n)
                        (λ r. if_false (interrupter 0) _ _ goes ∙ >>=-err _ _ h)
                  | inl (true, h, t) ↦
                      Settles-now (ok (some top)) (yields (present (l.0.0, l.0.1, h)))
                        (λ r. if_false (interrupter 0) _ _ goes ∙ >>=-ok (finished top) _ h)
                  | inl (false, h, t) ↦
                      elim (Yields-cases (expand-Follows w time_now check_priority top f l.0.1)) [
                        | inr (e, g, n) ↦ Settles-now (err e) (stopped n) (λ r.
                            if_false (interrupter 0) _ _ goes
                            ∙ >>=-ok (finished top) _ h
                            ∙ >>=-err _ _ g)
                        | inl (new, g, q) ↦
                            Settles-later
                              (solve_loop-Settles root bound (push_all w new.0 queue)
                                (counts bound (push_all w new.0 queue))
                                (lower _ (
                                  subst (Lower (counts bound (push_all w new.0 queue))) c (
                                    replace-Lower bound top new.0 queue (push_all w new.0 queue)
                                      l.0.2 (smaller-Follows top new.0 q)
                                      (λ m. count-push_all w m new.0 queue))))
                                refl
                                (push_all-All w (Queued root bound) new.0 queue
                                  (Queued-Follows root bound top new.0 l.0 q) l.1)
                                new.1 (λ i. interrupter (suc i)))
                              (λ r.
                                if_false (interrupter 0) _ _ goes
                                ∙ >>=-ok (finished top) _ h
                                ∙ >>=-ok _ _ g)
                      ]
                ]
      ]

  -- The search from a valid node ends after some number of rounds, whatever the filter has seen and
  -- the interrupter answers, with the same result for any greater number of them. A fault aside,
  -- it finds nothing, or a valid node that expansions of the first one lead to and that has no task
  -- left that is due.
  pub solve_loop_ends :
      (n : SearchNode S D C) (f : Filter) (interrupter : ℕ → Bool)
      → IsValid n
      → Settles
          (OnSome (Found n))
          (λ rounds. solve_loop w time_now check_priority rounds (n ∷ []) f interrupter)
  solve_loop_ends n f interrupter v =
      solve_loop-Settles n (suc (measure n)) (n ∷ []) _
        (Lower-Acc (suc (measure n)) _ (length-counts (suc (measure n)) (n ∷ []))) refl
        ((here, v, omega arith), tt) f interrupter
