-- ===== src/Priority/Valid.antt =====
-- What the check of priorities decides.
use rmf_task.Base.{
  zero, suc, ℕ, ◌≡◌, refl, sym, ◌∙◌, ap, ◌⊎◌, inl, inr, Bool, true, false, not, ◌&&◌, ◌||◌, List,
  [], ◌∷◌, none, some, if◌then◌else◌, ltb, arith, Bool-cases, if_true, if_false, maybe-none,
  maybe-some, >>=-ok, ok, max,
}
use rmf_task.Priority.{
  Assignment, priority_counts, max_priority_count, has_zero, skip_charging, ordered, agents_ordered,
  valid_assignment_priority, priority_count,
}

-- The priorities of the assignments that are not for charging, in order.
abbrev pub priorities : List Assignment → List Bool
priorities [] = []
priorities (a ∷ rest) = if a.charging then priorities rest else a.priority ∷ priorities rest

abbrev pub any : List Bool → Bool
any [] = false
any (b ∷ bs) = b || any bs

-- Nothing with a priority comes after something without one.
abbrev pub none_late : List Bool → Bool
none_late [] = true
none_late (true ∷ bs) = none_late bs
none_late (false ∷ bs) = not (any bs)

-- The agent has assignments, and all are for charging.
abbrev pub only_charging : List Assignment → Bool
only_charging [] = false
only_charging (a ∷ []) = a.charging
only_charging (a ∷ b ∷ rest) = a.charging && only_charging (b ∷ rest)

-- No agent up to the first one that only charges has an assignment with a priority after one
-- without.
abbrev pub none_late_before_charging : List (List Assignment) → Bool
none_late_before_charging [] = true
none_late_before_charging (agent ∷ agents) =
    if only_charging agent
    then true
    else none_late (priorities agent) && none_late_before_charging agents

abbrev greatest : List ℕ → ℕ
greatest [] = 0
greatest (c ∷ counts) = max c (greatest counts)

ordered-none_late :
    (prev : Bool) (rest : List Assignment) → ordered prev rest ≡ none_late (prev ∷ priorities rest)
unfolding ordered
ordered-none_late true [] = refl
ordered-none_late false [] = refl
ordered-none_late true (a ∷ rest) =
    ground (arith, ordered-none_late true rest, ordered-none_late a.priority rest)
ordered-none_late false (a ∷ rest) =
    ground (arith, ordered-none_late false rest, ordered-none_late a.priority rest)

-- What the loop to the first assignment finds.
skip_charging-cases :
    (a : Assignment) (rest : List Assignment)
    → ((skip_charging (a ∷ rest) ≡ none) × (only_charging (a ∷ rest) ≡ true))
      ⊎ ((first : Assignment) × (later : List Assignment) × (skip_charging (a ∷ rest)
            ≡ some (first, later))
          × (only_charging (a ∷ rest) ≡ false)
          × (priorities (a ∷ rest) ≡ first.priority ∷ priorities later))
unfolding skip_charging
skip_charging-cases a [] = elim (Bool-cases a.charging) [
  | inl c ↦ inl (if_true a.charging _ _ c, c)
  | inr n ↦ inr (a, [], if_false a.charging _ _ n, n, if_false a.charging _ _ n)
]
skip_charging-cases a (b ∷ rest) = elim (Bool-cases a.charging) [
  | inl c ↦ elim (skip_charging-cases b rest) [
    | inl (s, o) ↦ inl (if_true a.charging _ _ c ∙ s, ground (arith, c, o))
    | inr (first, later, s, o, p) ↦ inr (
      first,
      later,
      if_true a.charging _ _ c ∙ s,
      ground (arith, c, o),
      if_true a.charging _ _ c ∙ p,
    )
  ]
  | inr n ↦
      inr (a, b ∷ rest, if_false a.charging _ _ n, ground (arith, n), if_false a.charging _ _ n)
]

agents_ordered-none_late :
    (agents : List (List Assignment)) → agents_ordered agents ≡ none_late_before_charging agents
unfolding agents_ordered
agents_ordered-none_late [] = refl
agents_ordered-none_late ([] ∷ agents) = agents_ordered-none_late agents
agents_ordered-none_late ((a ∷ rest) ∷ agents) = elim (skip_charging-cases a rest) [
  | inl (s, o) ↦
      maybe-none (skip_charging (a ∷ rest)) _ _ s ∙ sym (if_true (only_charging (a ∷ rest)) _ _ o)
  | inr (first, later, s, o, p) ↦
      maybe-some (skip_charging (a ∷ rest)) _ _ s
      ∙ ground (arith, ordered-none_late first.priority later, agents_ordered-none_late agents)
      ∙ ap (λ ps. none_late ps && none_late_before_charging agents) (sym p)
      ∙ sym (if_false (only_charging (a ∷ rest)) _ _ o)
]

max_priority_count-greatest :
    (c : ℕ) (counts : List ℕ) → max_priority_count (c ∷ counts) ≡ ok (greatest (c ∷ counts))
unfolding max_priority_count
max_priority_count-greatest c [] = ap ok (omega arith)
max_priority_count-greatest c (d ∷ counts) =
    >>=-ok (max_priority_count (d ∷ counts)) _ (max_priority_count-greatest d counts)

-- An agent has an assignment with a priority, or two of them.
abbrev pub has_priority : List Assignment → Bool
has_priority [] = false
has_priority (a ∷ rest) = a.priority || has_priority rest

abbrev pub has_two_priorities : List Assignment → Bool
has_two_priorities [] = false
has_two_priorities (a ∷ rest) = (a.priority && has_priority rest) || has_two_priorities rest

-- Some agent has two, and some agent has none.
abbrev pub some_two : List (List Assignment) → Bool
some_two [] = false
some_two (agent ∷ agents) = has_two_priorities agent || some_two agents

abbrev pub some_none : List (List Assignment) → Bool
some_none [] = false
some_none (agent ∷ agents) = not (has_priority agent) || some_none agents

priority_count-has_priority : (l : List Assignment) → ltb 0 (priority_count l) ≡ has_priority l
unfolding priority_count
priority_count-has_priority [] = refl
priority_count-has_priority (a ∷ rest) = ground (arith, priority_count-has_priority rest)

priority_count-has_two : (l : List Assignment) → ltb 1 (priority_count l) ≡ has_two_priorities l
unfolding priority_count
priority_count-has_two [] = refl
priority_count-has_two (a ∷ rest) =
    ground (arith, priority_count-has_priority rest, priority_count-has_two rest)

greatest-some_two :
    (agents : List (List Assignment)) → ltb 1 (greatest (priority_counts agents)) ≡ some_two agents
unfolding priority_counts
greatest-some_two [] = refl
greatest-some_two (agent ∷ agents) =
    ground (arith, priority_count-has_two agent, greatest-some_two agents)

has_zero-cons :
    (c : ℕ) (counts : List ℕ) → has_zero (c ∷ counts) ≡ (not (ltb 0 c) || has_zero counts)
unfolding has_zero
has_zero-cons zero counts = refl
has_zero-cons (suc c) counts = ground arith

has_zero-some_none :
    (agents : List (List Assignment)) → has_zero (priority_counts agents) ≡ some_none agents
unfolding priority_counts has_zero
has_zero-some_none [] = refl
has_zero-some_none (agent ∷ agents) =
    has_zero-cons (priority_count agent) (priority_counts agents)
    ∙ ground (arith, priority_count-has_priority agent, has_zero-some_none agents)

-- For at least one agent the check answers. The answer is no if an agent has no task with a
-- priority while another one has two, or if an agent has a task with a priority behind one without
-- (tasks for charging aside); but it does not look at the agents behind the first one that only
-- charges.
pub valid_assignment_priority_lem :
    (agent : List Assignment) (agents : List (List Assignment))
    → valid_assignment_priority (agent ∷ agents)
      ≡ ok (
          not (some_two (agent ∷ agents) && some_none (agent ∷ agents))
          && none_late_before_charging (agent ∷ agents))
unfolding valid_assignment_priority priority_counts
valid_assignment_priority_lem agent agents =
    >>=-ok (max_priority_count (priority_counts (agent ∷ agents))) _
      (max_priority_count-greatest (priority_count agent) (priority_counts agents))
    ∙ ap ok (
        choose
          (ltb 1 (greatest (priority_counts (agent ∷ agents)))
            && has_zero (priority_counts (agent ∷ agents)))
          _
        ∙ together (greatest-some_two (agent ∷ agents)) (has_zero-some_none (agent ∷ agents))
            (agents_ordered-none_late (agent ∷ agents)))
  where
    choose : (b c : Bool) → (if b then false else c) ≡ (not b && c)
    choose true c = refl
    choose false c = refl

    together :
        {a b c a' b' c' : Bool}
        → a ≡ a'
        → b ≡ b'
        → c ≡ c'
        → (not (a && b) && c) ≡ (not (a' && b') && c')
    together p q r = rw (p, q, r)
