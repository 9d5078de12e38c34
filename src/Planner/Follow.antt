-- ===== src/Planner/Follow.antt =====
-- What a node that follows another one in the search has in common with it.
use mathlib.Core.List.Perm
use mathlib.Core.List.{Perm, perm_middle}
use mathlib.Core.Path.{subst}
use rmf_task.Base.{
  ℕ, suc, ◌+◌, ◌<◌, ◌≡◌, sym, ◌∙◌, ap, ◌⊎◌, inl, inr, false, List, [], ◌∷◌, ◌++◌, Option, some,
  arith, ◌==◌, Bool-cases, if_true, if_false, length, get_elem?,
}
use rmf_task.Planner.{Request, AssignmentWrapper, SearchNode, is_charging, last_of}
use rmf_task.Planner.Tasks.{
  keys, assigned_requests, open_agents, open_agents_bound, requests, find_key, erase_key,
  DistinctIds, NoCharging, All-erase_key, erase_key-DistinctIds, erase_key-Perm, erase_key-length,
}

-- The tasks that are left count for one more than there are agents.
abbrev pub budget : {D : Type 0} → ℕ → List (ℕ × Request D) → ℕ
budget agents [] = 0
budget agents (_ ∷ rest) = suc agents + budget agents rest

module _ {S D C : Type 0} where
  -- All requests of a node.
  abbrev pub tasks : SearchNode S D C → List (Request D)
  tasks n = assigned_requests n.assigned_tasks ++ requests (keys n.unassigned_tasks)

  -- A number that falls along the search.
  abbrev pub measure : SearchNode S D C → ℕ
  measure n =
      budget (length n.assigned_tasks) (keys n.unassigned_tasks) + open_agents n.assigned_tasks

  -- The identifiers of the unassigned tasks differ, and none of these tasks is to charge.
  pub record IsValid (n : SearchNode S D C) : Type 0 where
    pub distinct : DistinctIds (keys n.unassigned_tasks)
    pub plain : NoCharging (keys n.unassigned_tasks)

  -- Some agent has an assignment.
  abbrev pub HasWork : SearchNode S D C → Type 0
  HasWork n =
      (agent : ℕ) × (x : List (AssignmentWrapper S D)) × (l : AssignmentWrapper S D) × (get_elem?
          n.assigned_tasks agent
        ≡ some x)
      × (last_of x ≡ some l)

  -- A node that is one step further: it has the same agents and requests, and either one more task
  -- is assigned or an agent with assignments charges.
  pub record Follows (n n' : SearchNode S D C) : Type 0 where
    pub agents : length n'.assigned_tasks ≡ length n.assigned_tasks
    pub conserved : Perm (tasks n') (tasks n)
    pub valid : IsValid n'
    pub smaller : measure n' < measure n
    pub started :
        (suc (length (keys n'.unassigned_tasks)) ≡ length (keys n.unassigned_tasks))
        ⊎ ((keys n'.unassigned_tasks ≡ keys n.unassigned_tasks) × HasWork n)

  -- The agents and the requests stay when only charging is added.
  abbrev pub Charged : SearchNode S D C → SearchNode S D C → Type 0
  Charged n n' =
      (length n'.assigned_tasks ≡ length n.assigned_tasks)
      × Perm (assigned_requests n'.assigned_tasks) (assigned_requests n.assigned_tasks)
      × (keys n'.unassigned_tasks ≡ keys n.unassigned_tasks)

budget-erase_key :
    {D : Type 0} (agents id : ℕ) (K : List (ℕ × Request D)) (r : Request D)
    → find_key id K ≡ some r
    → budget agents K ≡ suc agents + budget agents (erase_key id K)
budget-erase_key agents id [] r e = absurd (cc)
budget-erase_key agents id ((i, s) ∷ rest) r e = ground (arith, budget-erase_key agents id rest r)

pub find_key-plain :
    {D : Type 0} (id : ℕ) (K : List (ℕ × Request D)) (r : Request D)
    → find_key id K ≡ some r
    → NoCharging K
    → is_charging r.description ≡ false
find_key-plain id [] r e p = absurd (cc)
find_key-plain id ((i, s) ∷ rest) r e p = elim (Bool-cases (i == id)) [
  | inl hit ↦ same (sym (if_true (i == id) _ _ hit) ∙ e)
  | inr miss ↦ find_key-plain id rest r (sym (if_false (i == id) _ _ miss) ∙ e) p.1
]
  where
    same : ◌≡◌ {A = Option (Request _)} (some s) (some r) → is_charging r.description ≡ false
    same h = subst (λ (q : Request _). is_charging q.description ≡ false) (inj h) p.0
      where
        inj : ◌≡◌ {A = Option (Request _)} (some s) (some r) → s ≡ r
        inj h = cc

module _ {S D C : Type 0} where
  -- An expansion that assigns a task.
  pub assigned-Follows :
      (n n' : SearchNode S D C) (id : ℕ) (r : Request D)
      → IsValid n
      → find_key id (keys n.unassigned_tasks) ≡ some r
      → length n'.assigned_tasks ≡ length n.assigned_tasks
      → Perm (assigned_requests n'.assigned_tasks) (r ∷ assigned_requests n.assigned_tasks)
      → keys n'.unassigned_tasks ≡ erase_key id (keys n.unassigned_tasks)
      → Follows n n'
  assigned-Follows n n' id r v f a p k = record {
    agents = a;
    conserved =
        subst
          (λ (K : List (ℕ × Request D)).
            Perm (assigned_requests n'.assigned_tasks ++ requests K) (tasks n))
          (sym k)
          (Perm.trans (Perm.append_right (requests (erase_key id K)) p) (
            Perm.trans
              (Perm.symm
                (perm_middle (assigned_requests n.assigned_tasks) (requests (erase_key id K))))
              (Perm.append_left (assigned_requests n.assigned_tasks) (erase_key-Perm id K r f))));
    valid = record {
      distinct = subst DistinctIds (sym k) (erase_key-DistinctIds id K v.distinct);
      plain = subst NoCharging (sym k) (All-erase_key _ id K v.plain);
    };
    smaller = omega (arith, open_agents_bound n'.assigned_tasks, before, after, a);
    started = inl (ap (λ (K : List (ℕ × Request D)). suc (length K)) k ∙ erase_key-length id K r f);
  }
    where
      K : List (ℕ × Request D)
      K = keys n.unassigned_tasks

      before :
          budget (length n.assigned_tasks) (keys n.unassigned_tasks)
          ≡ suc (length n.assigned_tasks)
            + budget (length n.assigned_tasks) (erase_key id (keys n.unassigned_tasks))
      before = budget-erase_key (length n.assigned_tasks) id (keys n.unassigned_tasks) r f

      after :
          budget (length n'.assigned_tasks) (keys n'.unassigned_tasks)
          ≡ budget (length n.assigned_tasks) (erase_key id (keys n.unassigned_tasks))
      after =
          ap (λ (l : ℕ). budget l (keys n'.unassigned_tasks)) a
          ∙ ap (λ (K : List (ℕ × Request D)). budget (length n.assigned_tasks) K) k

  -- An expansion in which an agent charges that did not charge last.
  pub charged-Follows :
      (n n' : SearchNode S D C)
      → IsValid n
      → length n'.assigned_tasks ≡ length n.assigned_tasks
      → Perm (assigned_requests n'.assigned_tasks) (assigned_requests n.assigned_tasks)
      → keys n'.unassigned_tasks ≡ keys n.unassigned_tasks
      → suc (open_agents n'.assigned_tasks) ≡ open_agents n.assigned_tasks
      → HasWork n
      → Follows n n'
  charged-Follows n n' v a p k o h = record {
    agents = a;
    conserved =
        subst
          (λ (K : List (ℕ × Request D)).
            Perm (assigned_requests n'.assigned_tasks ++ requests K) (tasks n))
          (sym k) (Perm.append_right (requests (keys n.unassigned_tasks)) p);
    valid = record {
      distinct = subst DistinctIds (sym k) v.distinct;
      plain = subst NoCharging (sym k) v.plain;
    };
    smaller = omega (arith, same, o);
    started = inr (k, h);
  }
    where
      same :
          budget (length n'.assigned_tasks) (keys n'.unassigned_tasks)
          ≡ budget (length n.assigned_tasks) (keys n.unassigned_tasks)
      same =
          ap (λ (l : ℕ). budget l (keys n'.unassigned_tasks)) a
          ∙ ap (λ (K : List (ℕ × Request D)). budget (length n.assigned_tasks) K) k
