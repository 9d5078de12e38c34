-- ===== src/Planner/Reaching.antt =====
-- What the nodes that a search reaches have in common with the one it begins with.
use mathlib.Core.List.Perm
use mathlib.Core.List.{Perm}
use mathlib.Core.Path.{subst}
use rmf_task.Base.{
  ℕ, zero, suc, ◌<◌, ◌≡◌, refl, sym, ◌∙◌, ap, ◌⊎◌, inl, inr, List, [], ◌∷◌, map, Option, none, some,
  arith, length, get_elem?,
}
use rmf_task.Planner.{Request, AssignmentWrapper, SearchNode, last_of}
use rmf_task.Planner.Tasks.{keys, assigned_requests}
use rmf_task.Planner.Follow.{tasks, HasWork}
use rmf_task.Planner.Solving.{Reaches, here, step}

module _ {S D C : Type 0} where
  -- A search loses no request and makes up none: a node that it reaches has the same agents, and
  -- the requests that it holds, assigned or not, are those of the first node in some order.
  pub Reaches-tasks :
      {n m : SearchNode S D C}
      → Reaches n m
      → Perm (tasks m) (tasks n) × (length m.assigned_tasks ≡ length n.assigned_tasks)
  Reaches-tasks here = (Perm.refl _, refl)
  Reaches-tasks (step r f) = let p = Reaches-tasks r in (Perm.trans f.conserved p.0, f.agents ∙ p.1)

  pub Reaches-fewer :
      {n m : SearchNode S D C}
      → Reaches n m
      → (HasWork n → ⊥)
      → (m ≡ n) ⊎ (length (keys m.unassigned_tasks) < length (keys n.unassigned_tasks))
  Reaches-fewer here idle = inl refl
  Reaches-fewer (step r f) idle = elim (Reaches-fewer r idle) [
    | inl same ↦ elim f.started [
      | inl fewer ↦ inr (
          omega
            (arith, fewer, ap (λ (x : SearchNode S D C). length (keys x.unassigned_tasks)) same))
      | inr charged ↦ absurd (idle (subst HasWork same charged.1))
    ]
    | inr less ↦ elim f.started [
      | inl fewer ↦ inr (omega (arith, fewer, less))
      | inr charged ↦
          inr (omega (arith, less, ap (λ (K : List (ℕ × Request D)). length K) charged.0))
    ]
  ]

-- Agents without assignments.
idle_agents :
    {S D A : Type 0} (xs : List A) (agent : ℕ) (x : List (AssignmentWrapper S D))
    (l : AssignmentWrapper S D)
    → get_elem? (map (λ _. []) xs) agent ≡ some x
    → last_of x ≡ some l
    → ⊥
idle_agents [] agent x l g h = cc
idle_agents (y ∷ xs) zero x l g h = none_last (ap last_of (same g) ∙ h)
  where
    same : ◌≡◌ {A = Option (List (AssignmentWrapper _ _))} (some []) (some x) → [] ≡ x
    same e = cc

    none_last : ◌≡◌ {A = Option (AssignmentWrapper _ _)} none (some l) → ⊥
    none_last e = cc
idle_agents (y ∷ xs) (suc agent) x l g h = idle_agents xs agent x l g h

pub idle_requests :
    (S : Type 0) {D A : Type 0} (xs : List A)
    → assigned_requests {S = S} {D = D} (map (λ _. []) xs) ≡ []
idle_requests S [] = refl
idle_requests S (x ∷ xs) = idle_requests S xs

pub idle_HasWork :
    {S D C A : Type 0} (n : SearchNode S D C) (xs : List A)
    → n.assigned_tasks ≡ map (λ _. []) xs
    → HasWork n
    → ⊥
idle_HasWork n xs e (agent, x, l, g, h) =
    idle_agents xs agent x l
      (ap (λ (agents : List (List (AssignmentWrapper _ _))). get_elem? agents agent) (sym e) ∙ g) h
