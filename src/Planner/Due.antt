-- ===== src/Planner/Due.antt =====
-- A task of the node that a search begins with is due.
use rmf_task.Base.{
  true-ne-false, Result-cases, ok_inj, err-ne-ok, lt_of_leb, ℕ, ◌≤◌, ◌<◌, ◌≡◌, refl, sym, ◌∙◌, ap,
  ◌⊎◌, inl, inr, true, false, List, [], ◌∷◌, All, arith, ◌==◌, ltb, leb, Bool-cases, if_true,
  beq_self, if_false, ok, >>=-ok, >>=-err,
}
use rmf_task.Candidates.{Entry, Node, Candidates, best_candidates, best_range, same_key}
use rmf_task.Planner.{PendingTask}
use rmf_task.Planner.Search.{is_due, finished_tasks}
use rmf_task.Planner.Initial.{time_max, least_wait, first_wait}

module _ {S : Type 0} where
  -- The entries wait until a time that `rmf_traffic::Time` can hold.
  abbrev pub InTime : Entry S → Type 0
  InTime e = e.wait_until ≤ time_max

  least_wait-cases :
      (t m : ℕ) (range : List (Node S))
      → is_due t range ≡ false
      → (least_wait m range ≡ m) ⊎ (t < least_wait m range)
  unfolding is_due least_wait
  least_wait-cases t m [] h = inl refl
  least_wait-cases t m (c ∷ range) h = elim (Bool-cases (leb c.entry.wait_until t)) [
    | inl due ↦ absurd (true-ne-false (sym (if_true (leb c.entry.wait_until t) _ _ due) ∙ h))
    | inr late ↦ elim (Bool-cases (ltb c.entry.wait_until m)) [
      | inl less ↦ elim (least_wait-cases t c.entry.wait_until range (rest late)) [
        | inl same ↦ inr (omega (arith, start less ∙ same, lt_of_leb c.entry.wait_until t late))
        | inr over ↦ inr (omega (arith, start less, over))
      ]
      | inr more ↦ elim (least_wait-cases t m range (rest late)) [
        | inl same ↦ inl (stay more ∙ same)
        | inr over ↦ inr (omega (arith, stay more, over))
      ]
    ]
  ]
    where
      rest : leb c.entry.wait_until t ≡ false → is_due t range ≡ false
      rest late = sym (if_false (leb c.entry.wait_until t) _ _ late) ∙ h

      start :
          ltb c.entry.wait_until m ≡ true
          → least_wait m (c ∷ range) ≡ least_wait c.entry.wait_until range
      start less = ap (λ (x : ℕ). least_wait x range) (if_true (ltb c.entry.wait_until m) _ _ less)

      stay : ltb c.entry.wait_until m ≡ false → least_wait m (c ∷ range) ≡ least_wait m range
      stay more = ap (λ (x : ℕ). least_wait x range) (if_false (ltb c.entry.wait_until m) _ _ more)

  best_range-first :
      (nodes range : List (Node S))
      → best_range nodes ≡ ok range
      → All (λ n. InTime n.entry) nodes
      → (c : Node S) × (more : List (Node S)) × (range ≡ c ∷ more) × InTime c.entry
  unfolding best_range same_key
  best_range-first [] range e l = absurd (err-ne-ok e)
  best_range-first (n ∷ nodes) range e l = elim (Result-cases (same_key n.key nodes)) [
    | inl (more, q) ↦ (
      n,
      more,
      ok_inj (sym e ∙ if_true (n.key == n.key) _ _ (beq_self n.key) ∙ >>=-ok _ _ q),
      l.0,
    )
    | inr (f, q) ↦
        absurd (err-ne-ok (sym (if_true (n.key == n.key) _ _ (beq_self n.key) ∙ >>=-err _ _ q) ∙ e))
  ]

  -- The best candidates begin with the first node.
  best_candidates-first :
      (cs : Candidates S) (range : List (Node S))
      → best_candidates cs ≡ ok range
      → All (λ n. InTime n.entry) cs.value_map
      → (c : Node S) × (more : List (Node S)) × (range ≡ c ∷ more) × InTime c.entry
  unfolding best_candidates
  best_candidates-first cs range e l = best_range-first cs.value_map range e l

module _ {S D : Type 0} where
  first_wait-unmoved :
      (t m v : ℕ) (us : List (ℕ × PendingTask S D))
      → first_wait m us ≡ ok v
      → finished_tasks t us ≡ ok true
      → v ≤ t
      → v ≡ m
  unfolding first_wait finished_tasks
  first_wait-unmoved t m v [] f g h = sym (ok_inj f)
  first_wait-unmoved t m v ((id, u) ∷ rest) f g h =
      elim (Result-cases (best_candidates u.candidates)) [
        | inr (e, q) ↦ absurd (err-ne-ok (sym (>>=-err _ _ q) ∙ f))
        | inl (range, q) ↦ elim (Bool-cases (is_due t range)) [
          | inl due ↦
              absurd
                (true-ne-false (ok_inj (sym g ∙ >>=-ok _ _ q ∙ if_true (is_due t range) _ _ due)))
          | inr late ↦
              let later =
                first_wait-unmoved t (least_wait m range) v rest (sym (>>=-ok _ _ q) ∙ f)
                  (sym (>>=-ok _ _ q ∙ if_false (is_due t range) _ _ late) ∙ g) h in
              elim (least_wait-cases t m range late) [
                | inl same ↦ later ∙ same
                | inr over ↦ absurd (omega (arith, later, over, h))
              ]
        ]
      ]

  -- Where the time is at least the earliest time until which a best candidate waits, a task is due.
  pub some_due :
      (t v id : ℕ) (u : PendingTask S D) (rest : List (ℕ × PendingTask S D))
      → All (λ n. InTime n.entry) u.candidates.value_map
      → first_wait time_max ((id, u) ∷ rest) ≡ ok v
      → v ≤ t
      → finished_tasks t ((id, u) ∷ rest) ≡ ok true
      → ⊥
  unfolding finished_tasks is_due
  some_due t v id u rest l f h g = elim (Result-cases (best_candidates u.candidates)) [
    | inr (e, q) ↦ err-ne-ok (sym (>>=-err _ _ q) ∙ g)
    | inl (range, q) ↦
        let (c, more, r, b) = best_candidates-first u.candidates range q l in
        elim (Bool-cases (leb c.entry.wait_until t)) [
          | inl due ↦ true-ne-false (
              ok_inj (
                sym g
                ∙ >>=-ok _ _ q
                ∙ if_true (is_due t range) _ _
                    (ap (is_due t) r ∙ if_true (leb c.entry.wait_until t) _ _ due)))
          | inr late ↦ omega (
            arith,
            first_wait-unmoved t time_max v ((id, u) ∷ rest) f g h,
            h,
            b,
            lt_of_leb c.entry.wait_until t late,
          )
        ]
  ]
