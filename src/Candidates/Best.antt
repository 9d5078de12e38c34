-- ===== src/Candidates/Best.antt =====
-- The best finish time, and the candidates that reach it.
use mathlib.Core.Path.{subst}
use rmf_task.Base.{
  ℕ, ◌≤◌, ◌<◌, ◌≡◌, refl, ◌∙◌, ap, ◌⊎◌, inl, inr, List, [], ◌∷◌, ◌++◌, All, arith, ◌==◌, Bool-cases,
  if_true, if_false, Result, ok, err, past_end, >>=-ok, >>=-err,
}
use rmf_task.Candidates.{Node, Candidates, same_key, best_range, best_candidates, best_finish_time}

-- The keys do not fall along the list.
abbrev pub IsSorted : {S : Type 0} → List (Node S) → Type 0
IsSorted [] = Unit
IsSorted (n ∷ nodes) = All (λ m. n.key ≤ m.key) nodes × IsSorted nodes

-- Either every node has the key and the search has read past the end, or it has returned the nodes
-- with the key, which stand in front, and all others have a later one.
abbrev pub BestOf : {S : Type 0} → ℕ → List (Node S) → Result (List (Node S)) → Type 0
BestOf {S} key nodes result =
    ((result ≡ err past_end) × All (λ m. m.key ≡ key) nodes)
    ⊎ ((found : List (Node S)) × (m : Node S) × (rest : List (Node S)) × (result ≡ ok found)
        × (nodes ≡ found ++ m ∷ rest)
        × All (λ x. x.key ≡ key) found
        × All (λ x. key < x.key) (m ∷ rest))

module _ {S : Type 0} where
  All-above :
      (k m : ℕ) (nodes : List (Node S))
      → k < m
      → All (λ x. m ≤ x.key) nodes
      → All (λ x. k < x.key) nodes
  All-above k m [] h l = tt
  All-above k m (n ∷ nodes) h l = (omega (arith, l.0), All-above k m nodes h l.1)

  All-self :
      (n : Node S) (nodes : List (Node S))
      → IsSorted (n ∷ nodes)
      → All (λ m. n.key ≤ m.key) (n ∷ nodes)
  All-self n nodes s = (omega arith, s.0)

  same_key-cases :
      (key : ℕ) (nodes : List (Node S))
      → All (λ m. key ≤ m.key) nodes
      → IsSorted nodes
      → BestOf key nodes (same_key key nodes)
  unfolding same_key
  same_key-cases key [] l s = inl (refl, tt)
  same_key-cases key (n ∷ nodes) l s = elim (Bool-cases (n.key == key)) [
    | inl same ↦ elim (same_key-cases key nodes l.1 s.1) [
      | inl (all, e) ↦ inl (if_true (n.key == key) _ _ same ∙ >>=-err _ _ all, (ground arith, e))
      | inr (found, m, rest, runs, e, f, g) ↦ inr (
        n ∷ found,
        m,
        rest,
        if_true (n.key == key) _ _ same ∙ >>=-ok _ _ runs,
        ap (λ (l : List (Node S)). n ∷ l) e,
        (ground arith, f),
        g,
      )
    ]
    | inr other ↦ inr (
      [],
      n,
      nodes,
      if_false (n.key == key) _ _ other,
      refl,
      tt,
      (ground (arith, l.0), All-above key n.key nodes (ground (arith, l.0)) s.0),
    )
  ]

  best_range-cases :
      (nodes : List (Node S)) (n : Node S) (more : List (Node S))
      → nodes ≡ n ∷ more
      → IsSorted nodes
      → BestOf n.key nodes (best_range nodes)
  unfolding best_range
  best_range-cases [] n more e s = absurd (cc)
  best_range-cases (x ∷ xs) n more e s =
      subst (λ key. BestOf key (x ∷ xs) (best_range (x ∷ xs))) (same x n xs more e)
        (same_key-cases x.key (x ∷ xs) (All-self x xs s) s)
    where
      same : (x n : Node S) (xs more : List (Node S)) → (x ∷ xs) ≡ (n ∷ more) → x.key ≡ n.key
      same x n xs more e = cc

  -- Where the candidates are sorted by finish time, the search for the best ones returns exactly
  -- those with the best finish time if another candidate finishes later. If all of them finish at
  -- the same time, as a single candidate does, it reads past the end of the map.
  pub best_candidates-cases :
      (cs : Candidates S) (n : Node S) (more : List (Node S))
      → cs.value_map ≡ n ∷ more
      → IsSorted cs.value_map
      → (best_finish_time cs ≡ ok n.key) × BestOf n.key cs.value_map (best_candidates cs)
  unfolding best_candidates best_finish_time
  best_candidates-cases cs n more e s = (ground arith, best_range-cases cs.value_map n more e s)
