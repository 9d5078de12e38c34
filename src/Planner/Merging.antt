-- ===== src/Planner/Merging.antt =====
-- The requests of a plan, and those that a searched node adds to it.
use mathlib.Core.List.Perm
use mathlib.Core.List.{Perm, perm_append_comm}
use mathlib.Core.Path.{subst}
use rmf_task.Base.{
  ℕ, suc, ◌≡◌, refl, sym, ◌∙◌, ap, inl, inr, true, List, [], ◌∷◌, ◌++◌, map, append_assoc,
  append-nil, Option, Option-cases, some, if◌then◌else◌, arith, Bool-cases, if_true, if_false,
  length, null, maybe-none, maybe-some,
}
use rmf_task.Planner.{
  Request, Assignment, AssignmentWrapper, PendingTask, is_charging, charges, ends_charging, last_of,
}
use rmf_task.Planner.Greedy.{drop_last}
use rmf_task.Planner.Plan.{prune_agent, prune, prune_complete, merge, next_states, left_requests}
use rmf_task.Planner.Tasks.{keys, requests, agent_requests, assigned_requests, NoCharging}
use rmf_task.Planner.Starting.{Plain}

pub length-map : {A B : Type 0} (f : A → B) (xs : List A) → length (map f xs) ≡ length xs
length-map f [] = refl
length-map f (x ∷ xs) = ap suc (length-map f xs)

append-cong : {A : Type 0} {a b c d : List A} → a ≡ b → c ≡ d → a ++ c ≡ b ++ d
append-cong h g = cc

-- The middle ones of four lists change places.
pub exchange : {A : Type 0} (a b c d : List A) → Perm ((a ++ b) ++ (c ++ d)) ((a ++ c) ++ (b ++ d))
exchange {A} a b c d =
    subst (λ (l : List A). Perm l ((a ++ c) ++ (b ++ d))) (sym (regroup b c))
      (subst (Perm (a ++ ((b ++ c) ++ d))) (sym (regroup c b))
        (Perm.append_left a (Perm.append_right d (perm_append_comm b c))))
  where
    regroup : (x y : List A) → (a ++ x) ++ (y ++ d) ≡ a ++ ((x ++ y) ++ d)
    regroup x y = append_assoc a x (y ++ d) ∙ ap (λ (l : List A). a ++ l) (sym (append_assoc x y d))

module _ {S D : Type 0} where
  -- The requests of an agent's part of a plan, without the charging that the planner adds.
  abbrev pub plan_requests : List (Assignment S D) → List (Request D)
  plan_requests [] = []
  plan_requests (a ∷ rest) =
      if is_charging a.request.description
      then plan_requests rest
      else a.request ∷ plan_requests rest

  -- The requests of a plan.
  abbrev pub planned : List (List (Assignment S D)) → List (Request D)
  planned [] = []
  planned (agent ∷ agents) = plan_requests agent ++ planned agents

  pub plan_requests-append :
      (xs ys : List (Assignment S D))
      → plan_requests (xs ++ ys) ≡ plan_requests xs ++ plan_requests ys
  plan_requests-append [] ys = refl
  plan_requests-append (x ∷ xs) ys = ground (arith, plan_requests-append xs ys)

  plan_requests-map :
      (xs : List (AssignmentWrapper S D))
      → plan_requests (map (λ a. a.assignment) xs) ≡ agent_requests xs
  plan_requests-map [] = refl
  plan_requests-map (x ∷ xs) = ground (arith, plan_requests-map xs)

  -- Pruning takes away charging only.
  drop_charging :
      (xs : List (AssignmentWrapper S D))
      → ends_charging xs ≡ true
      → agent_requests (drop_last xs) ≡ agent_requests xs
  unfolding ends_charging drop_last
  drop_charging [] h = refl
  drop_charging (a ∷ []) h = sym (if_true (charges a) _ _ h)
  drop_charging (a ∷ b ∷ rest) h = ground (arith, drop_charging (b ∷ rest) h)

  prune_agent-requests :
      (xs : List (AssignmentWrapper S D)) → agent_requests (prune_agent xs) ≡ agent_requests xs
  unfolding prune_agent
  prune_agent-requests xs = elim (Bool-cases (ends_charging xs)) [
    | inl h ↦ ap agent_requests (if_true (ends_charging xs) _ _ h) ∙ drop_charging xs h
    | inr h ↦ ap agent_requests (if_false (ends_charging xs) _ _ h)
  ]

  prune-requests :
      (agents : List (List (AssignmentWrapper S D)))
      → assigned_requests (prune agents) ≡ assigned_requests agents
  prune-requests [] = refl
  prune-requests (x ∷ agents) = append-cong (prune_agent-requests x) (prune-requests agents)

  drop_last-charging :
      (xs : List (Assignment S D)) (l : Assignment S D)
      → last_of xs ≡ some l
      → is_charging l.request.description ≡ true
      → plan_requests (drop_last xs) ≡ plan_requests xs
  unfolding drop_last
  drop_last-charging [] l e h = refl
  drop_last-charging (a ∷ []) l e h = sym (
      if_true (is_charging a.request.description) _ _
        (subst (λ (x : Assignment S D). is_charging x.request.description ≡ true) (sym (same e)) h))
    where
      same : ◌≡◌ {A = Option (Assignment S D)} (some a) (some l) → a ≡ l
      same e = cc
  drop_last-charging (a ∷ b ∷ rest) l e h = ground (arith, drop_last-charging (b ∷ rest) l e h)

  prune_complete-requests :
      (xs : List (Assignment S D)) → plan_requests (prune_complete xs) ≡ plan_requests xs
  unfolding prune_complete
  prune_complete-requests xs = elim (Option-cases (last_of xs)) [
    | inl h ↦ ap plan_requests (maybe-none (last_of xs) _ _ h)
    | inr (l, h) ↦ elim (Bool-cases (is_charging l.request.description)) [
      | inl c ↦
          ap plan_requests
            (maybe-some (last_of xs) _ _ h ∙ if_true (is_charging l.request.description) _ _ c)
          ∙ drop_last-charging xs l h c
      | inr c ↦
          ap plan_requests
            (maybe-some (last_of xs) _ _ h ∙ if_false (is_charging l.request.description) _ _ c)
    ]
  ]

  pub planned_pruned :
      (complete : List (List (Assignment S D)))
      → planned (map prune_complete complete) ≡ planned complete
  planned_pruned [] = refl
  planned_pruned (x ∷ complete) = append-cong (prune_complete-requests x) (planned_pruned complete)

  merge-planned :
      (complete : List (List (Assignment S D))) (agents : List (List (AssignmentWrapper S D)))
      → length complete ≡ length agents
      → Perm (planned (merge complete agents)) (planned complete ++ assigned_requests agents)
  unfolding merge
  merge-planned [] [] e = Perm.nil
  merge-planned (x ∷ complete) [] e =
      subst (λ (l : List (Request D)). Perm (planned (x ∷ complete)) l)
        (sym (append-nil (planned (x ∷ complete)))) (Perm.refl _)
  merge-planned [] (y ∷ agents) e = absurd (omega (arith, e))
  merge-planned (x ∷ complete) (y ∷ agents) e =
      subst
        (λ (l : List (Request D)).
          Perm (l ++ planned (merge complete agents)) (
            (plan_requests x ++ planned complete)
            ++ (agent_requests y ++ assigned_requests agents)))
        (sym (
          plan_requests-append x (map (λ a. a.assignment) y)
          ∙ ap (λ (l : List (Request D)). plan_requests x ++ l) (plan_requests-map y)))
        (Perm.trans (Perm.append_left _ (merge-planned complete agents (omega (arith, e)))) (
          exchange (plan_requests x) (agent_requests y) (planned complete)
            (assigned_requests agents)))

  -- The requests of the plan with a node are those of both.
  pub merge-prune :
      (complete : List (List (Assignment S D))) (agents : List (List (AssignmentWrapper S D)))
      → length complete ≡ length agents
      → Perm
          (planned (merge complete (prune agents)))
          (planned complete ++ assigned_requests agents)
  merge-prune complete agents e =
      subst
        (λ (l : List (Request D)).
          Perm (planned (merge complete (prune agents))) (planned complete ++ l))
        (prune-requests agents)
        (merge-planned complete (prune agents) (e ∙ sym (length-map prune_agent agents)))

  pub length-merge :
      (complete : List (List (Assignment S D))) (agents : List (List (AssignmentWrapper S D)))
      → length complete ≡ length agents
      → length (merge complete agents) ≡ length agents
  unfolding merge
  length-merge [] [] e = refl
  length-merge (x ∷ complete) [] e = e
  length-merge [] (y ∷ agents) e = e
  length-merge (x ∷ complete) (y ∷ agents) e =
      ap suc (length-merge complete agents (omega (arith, e)))

  pub length-next_states :
      (agents : List (List (AssignmentWrapper S D))) (states : List S)
      → length states ≡ length agents
      → length (next_states agents states) ≡ length agents
  unfolding next_states
  length-next_states [] states e = refl
  length-next_states (x ∷ agents) [] e = e
  length-next_states (x ∷ agents) (s ∷ states) e =
      ap suc (length-next_states agents states (omega (arith, e)))

  pub left_requests_lem : (us : List (ℕ × PendingTask S D)) → left_requests us ≡ requests (keys us)
  unfolding left_requests
  left_requests_lem [] = refl
  left_requests_lem ((id, u) ∷ us) =
      ap (λ (l : List (Request D)). u.request ∷ l) (left_requests_lem us)

  pub null-keys : (us : List (ℕ × PendingTask S D)) → null us ≡ true → requests (keys us) ≡ []
  null-keys [] h = refl
  null-keys (u ∷ us) h = absurd (cc)

pub length-requests : {D : Type 0} (K : List (ℕ × Request D)) → length (requests K) ≡ length K
length-requests [] = refl
length-requests ((id, r) ∷ K) = ap suc (length-requests K)

pub requests-Plain : {D : Type 0} (K : List (ℕ × Request D)) → NoCharging K → Plain (requests K)
requests-Plain [] l = tt
requests-Plain ((id, r) ∷ K) l = (l.0, requests-Plain K l.1)

pub planned_none :
    (S : Type 0) {D A : Type 0} (xs : List A) → planned {S = S} {D = D} (map (λ _. []) xs) ≡ []
planned_none S [] = refl
planned_none S (x ∷ xs) = planned_none S xs
