-- ===== src/Planner/Tasks.antt =====
-- The requests that a node holds, assigned or not.
use mathlib.Core.List.Perm
use mathlib.Core.List.{Perm}
use mathlib.Core.Path.{subst}
use rmf_task.Base.{
  ℕ, suc, ◌+◌, ◌≤◌, ◌≡◌, refl, sym, ◌∙◌, inl, inr, false, List, [], ◌∷◌, ◌++◌, Option, none, some,
  if◌then◌else◌, All, arith, ◌==◌, Bool-cases, beq_self, if_true, if_false, length,
}
use rmf_task.Planner.{Request, AssignmentWrapper, PendingTask, is_charging, charges, ends_charging}

module _ {S D : Type 0} where
  -- What an unassigned task is, without its candidates.
  abbrev pub keys : List (ℕ × PendingTask S D) → List (ℕ × Request D)
  keys [] = []
  keys ((id, u) ∷ rest) = (id, u.request) ∷ keys rest

  -- The requests assigned to an agent, without the charging that the planner adds.
  abbrev pub agent_requests : List (AssignmentWrapper S D) → List (Request D)
  agent_requests [] = []
  agent_requests (a ∷ rest) =
      if charges a then agent_requests rest else a.assignment.request ∷ agent_requests rest

  abbrev pub assigned_requests : List (List (AssignmentWrapper S D)) → List (Request D)
  assigned_requests [] = []
  assigned_requests (agent ∷ agents) = agent_requests agent ++ assigned_requests agents

  -- The agents that have assignments of which the last one does not charge.
  abbrev pub open_agents : List (List (AssignmentWrapper S D)) → ℕ
  open_agents [] = 0
  open_agents ([] ∷ agents) = open_agents agents
  open_agents ((a ∷ rest) ∷ agents) =
      (if ends_charging (a ∷ rest) then 0 else 1) + open_agents agents

  pub open_agents_bound :
      (agents : List (List (AssignmentWrapper S D))) → open_agents agents ≤ length agents
  open_agents_bound [] = omega arith
  open_agents_bound ([] ∷ agents) = omega (arith, open_agents_bound agents)
  open_agents_bound ((a ∷ rest) ∷ agents) = ground (arith, open_agents_bound agents)

  pub agent_requests-append :
      (xs ys : List (AssignmentWrapper S D))
      → agent_requests (xs ++ ys) ≡ agent_requests xs ++ agent_requests ys
  agent_requests-append [] ys = refl
  agent_requests-append (x ∷ xs) ys = ground (arith, agent_requests-append xs ys)

  pub ends_charging-append :
      (xs : List (AssignmentWrapper S D)) (a : AssignmentWrapper S D)
      → ends_charging (xs ++ a ∷ []) ≡ charges a
  unfolding ends_charging
  ends_charging-append [] a = refl
  ends_charging-append (x ∷ []) a = refl
  ends_charging-append (x ∷ y ∷ xs) a = ends_charging-append (y ∷ xs) a

module _ {D : Type 0} where
  abbrev pub requests : List (ℕ × Request D) → List (Request D)
  requests [] = []
  requests ((id, r) ∷ rest) = r ∷ requests rest

  abbrev pub find_key : ℕ → List (ℕ × Request D) → Option (Request D)
  find_key id [] = none
  find_key id ((i, r) ∷ rest) = if i == id then some r else find_key id rest

  abbrev pub erase_key : ℕ → List (ℕ × Request D) → List (ℕ × Request D)
  erase_key id [] = []
  erase_key id ((i, r) ∷ rest) = if i == id then rest else (i, r) ∷ erase_key id rest

  abbrev pub DistinctIds : List (ℕ × Request D) → Type 0
  DistinctIds [] = Unit
  DistinctIds ((i, r) ∷ rest) =
      All (λ (e : ℕ × Request D). (i == e.0) ≡ false) rest × DistinctIds rest

  abbrev pub NoCharging : List (ℕ × Request D) → Type 0
  NoCharging = All (λ (e : ℕ × Request D). is_charging e.1.description ≡ false)

  pub All-erase_key {ℓ} :
      (P : ℕ × Request D → Type ℓ) (id : ℕ) (K : List (ℕ × Request D))
      → All P K
      → All P (erase_key id K)
  All-erase_key P id [] l = tt
  All-erase_key P id ((i, r) ∷ rest) l = elim (Bool-cases (i == id)) [
    | inl hit ↦ subst (All P) (sym (if_true (i == id) _ _ hit)) l.1
    | inr miss ↦
        subst (All P) (sym (if_false (i == id) _ _ miss)) (l.0, All-erase_key P id rest l.1)
  ]

  pub erase_key-DistinctIds :
      (id : ℕ) (K : List (ℕ × Request D)) → DistinctIds K → DistinctIds (erase_key id K)
  erase_key-DistinctIds id [] d = tt
  erase_key-DistinctIds id ((i, r) ∷ rest) d = elim (Bool-cases (i == id)) [
    | inl hit ↦ subst DistinctIds (sym (if_true (i == id) _ _ hit)) d.1
    | inr miss ↦ subst DistinctIds (sym (if_false (i == id) _ _ miss)) (
      All-erase_key (λ (e : ℕ × Request D). (i == e.0) ≡ false) id rest d.0,
      erase_key-DistinctIds id rest d.1,
    )
  ]

  -- Erasing a task that is there takes away its request, and no other.
  pub erase_key-Perm :
      (id : ℕ) (K : List (ℕ × Request D)) (r : Request D)
      → find_key id K ≡ some r
      → Perm (r ∷ requests (erase_key id K)) (requests K)
  erase_key-Perm id [] r e = absurd (cc)
  erase_key-Perm id ((i, s) ∷ rest) r e = elim (Bool-cases (i == id)) [
    | inl hit ↦
        subst (λ (l : List (ℕ × Request D)). Perm (r ∷ requests l) (s ∷ requests rest))
          (sym (if_true (i == id) _ _ hit))
          (Perm.cons' (same (sym e ∙ if_true (i == id) _ _ hit)) (Perm.refl (requests rest)))
    | inr miss ↦
        subst (λ (l : List (ℕ × Request D)). Perm (r ∷ requests l) (s ∷ requests rest))
          (sym (if_false (i == id) _ _ miss))
          (Perm.trans (Perm.swap s r (requests (erase_key id rest)))
            (Perm.cons s (erase_key-Perm id rest r (sym (if_false (i == id) _ _ miss) ∙ e))))
  ]
    where
      same : {a b : Request D} → ◌≡◌ {A = Option (Request D)} (some a) (some b) → a ≡ b
      same h = cc

  pub erase_key-length :
      (id : ℕ) (K : List (ℕ × Request D)) (r : Request D)
      → find_key id K ≡ some r
      → suc (length (erase_key id K)) ≡ length K
  erase_key-length id [] r e = absurd (cc)
  erase_key-length id ((i, s) ∷ rest) r e = ground (arith, erase_key-length id rest r)

  pub find_key-All :
      (K : List (ℕ × Request D))
      → DistinctIds K
      → All (λ (e : ℕ × Request D). find_key e.0 K ≡ some e.1) K
  find_key-All [] d = tt
  find_key-All ((i, r) ∷ rest) d =
      (if_true (i == i) _ _ (beq_self i), later rest d.0 (find_key-All rest d.1))
    where
      later :
          (l : List (ℕ × Request D))
          → All (λ (e : ℕ × Request D). (i == e.0) ≡ false) l
          → All (λ (e : ℕ × Request D). find_key e.0 rest ≡ some e.1) l
          → All (λ (e : ℕ × Request D). find_key e.0 ((i, r) ∷ rest) ≡ some e.1) l
      later [] a f = tt
      later (e ∷ l) a f = (if_false (i == e.0) _ _ a.0 ∙ f.0, later l a.1 f.1)
