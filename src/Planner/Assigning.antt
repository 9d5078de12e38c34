-- ===== src/Planner/Assigning.antt =====
-- What an assignment, an erasure and an update do to the requests of a node.
use mathlib.Core.List.Perm
use mathlib.Core.List.{Perm, perm_middle}
use mathlib.Core.Path.{subst}
use rmf_task.Base.{
  ℕ, zero, suc, ◌≡◌, refl, sym, ◌∙◌, ap, inl, inr, Bool, true, false, List, [], ◌∷◌, ◌++◌,
  append_assoc, Option, none, some, if◌then◌else◌, arith, ◌==◌, Bool-cases, if_true, if_false,
  length, get_elem?,
}
use rmf_task.Yields.{Yields, yields, stopped, Yields-bind, Yields-maybe, Yields-deref}
use rmf_task.Candidates.{Candidates, slot, update_candidate}
use rmf_task.Planner.{
  Request, AssignmentWrapper, PendingTask, World, charges, ends_charging, push_assigned,
  copy_pending, copy_unassigned, erase_task, last_of,
}
use rmf_task.Planner.Expand.{update_unassigned}
use rmf_task.Planner.Tasks.{
  keys, agent_requests, assigned_requests, open_agents, agent_requests-append, ends_charging-append,
  erase_key,
}

module _ {S D : Type 0} where
  pub keys-copy_unassigned : (us : List (ℕ × PendingTask S D)) → keys (copy_unassigned us) ≡ keys us
  unfolding copy_unassigned copy_pending
  keys-copy_unassigned [] = refl
  keys-copy_unassigned ((id, u) ∷ rest) =
      ap (λ (K : List (ℕ × Request D)). (id, u.request) ∷ K) (keys-copy_unassigned rest)

  pub keys-erase_task :
      (id : ℕ) (us : List (ℕ × PendingTask S D)) → keys (erase_task id us) ≡ erase_key id (keys us)
  unfolding erase_task
  keys-erase_task id [] = refl
  keys-erase_task id ((i, u) ∷ rest) = elim (Bool-cases (i == id)) [
    | inl hit ↦ ap keys (if_true (i == id) _ _ hit) ∙ sym (if_true (i == id) _ _ hit)
    | inr miss ↦
        ap keys (if_false (i == id) _ _ miss)
        ∙ ap (λ (K : List (ℕ × Request D)). (i, u.request) ∷ K) (keys-erase_task id rest)
        ∙ sym (if_false (i == id) _ _ miss)
  ]

  -- What an assignment adds to the requests.
  abbrev pub with_assigned : AssignmentWrapper S D → List (Request D) → List (Request D)
  with_assigned a rs = if charges a then rs else a.assignment.request ∷ rs

  with_assigned-Perm :
      (a : AssignmentWrapper S D) (xs rs : List (Request D))
      → Perm (xs ++ with_assigned a rs) (with_assigned a (xs ++ rs))
  with_assigned-Perm a xs rs = elim (Bool-cases (charges a)) [
    | inl c ↦
        subst (λ (l : List (Request D)). Perm (xs ++ l) (with_assigned a (xs ++ rs)))
          (sym (if_true (charges a) _ _ c))
          (subst (λ (l : List (Request D)). Perm (xs ++ rs) l) (sym (if_true (charges a) _ _ c))
            (Perm.refl (xs ++ rs)))
    | inr n ↦
        subst (λ (l : List (Request D)). Perm (xs ++ l) (with_assigned a (xs ++ rs)))
          (sym (if_false (charges a) _ _ n))
          (subst (λ (l : List (Request D)). Perm (xs ++ a.assignment.request ∷ rs) l)
            (sym (if_false (charges a) _ _ n)) (perm_middle xs rs))
  ]

  -- An assignment behind the others of an agent.
  abbrev pub Pushed :
      AssignmentWrapper S D
      → List (List (AssignmentWrapper S D))
      → List (List (AssignmentWrapper S D))
      → Type 0
  Pushed a before after =
      (length after ≡ length before)
      × Perm (assigned_requests after) (with_assigned a (assigned_requests before))

  push_head-Pushed :
      (a : AssignmentWrapper S D) (x : List (AssignmentWrapper S D))
      (agents : List (List (AssignmentWrapper S D)))
      → Perm
          (agent_requests (x ++ a ∷ []) ++ assigned_requests agents)
          (with_assigned a (agent_requests x ++ assigned_requests agents))
  push_head-Pushed a x agents =
      subst
        (λ (l : List (Request D)).
          Perm l (with_assigned a (agent_requests x ++ assigned_requests agents)))
        (sym (
          ap (λ (l : List (Request D)). l ++ assigned_requests agents)
            (agent_requests-append x (a ∷ []))
          ∙ append_assoc (agent_requests x) (agent_requests (a ∷ [])) (assigned_requests agents)
          ∙ ap (λ (l : List (Request D)). agent_requests x ++ l) single))
        (with_assigned-Perm a (agent_requests x) (assigned_requests agents))
    where
      single :
          (agent_requests (a ∷ []) ++ assigned_requests agents)
          ≡ with_assigned a (assigned_requests agents)
      single = elim (Bool-cases (charges a)) [
        | inl c ↦ ground (arith, c)
        | inr n ↦ ground (arith, n)
      ]

  pub push_assigned-Pushed :
      (agent : ℕ) (a : AssignmentWrapper S D) (agents : List (List (AssignmentWrapper S D)))
      → Yields (Pushed a agents) (push_assigned agent a agents)
  unfolding push_assigned
  push_assigned-Pushed agent a [] = stopped (λ e. absurd (cc))
  push_assigned-Pushed zero a (x ∷ agents) = yields (refl, push_head-Pushed a x agents)
  push_assigned-Pushed (suc agent) a (x ∷ agents) =
      Yields-bind (push_assigned-Pushed agent a agents) λ rest p. yields (
        ap suc p.0,
        Perm.trans (Perm.append_left (agent_requests x) p.1)
            (with_assigned-Perm a (agent_requests x) (assigned_requests agents)),
      )

  -- An agent that has assignments of which the last one does not charge, before it charges.
  pub push_assigned-open :
      (agent : ℕ) (a : AssignmentWrapper S D) (agents : List (List (AssignmentWrapper S D)))
      (x : List (AssignmentWrapper S D)) (l : AssignmentWrapper S D)
      → get_elem? agents agent ≡ some x
      → last_of x ≡ some l
      → ends_charging x ≡ false
      → charges a ≡ true
      → Yields
          (λ after. suc (open_agents after) ≡ open_agents agents)
          (push_assigned agent a agents)
  unfolding push_assigned
  push_assigned-open agent a [] x l g h n c = stopped (λ e. absurd (cc))
  push_assigned-open zero a ([] ∷ agents) x l g h n c = absurd (clash (ap last_of (same g) ∙ h))
    where
      same : ◌≡◌ {A = Option (List (AssignmentWrapper S D))} (some []) (some x) → [] ≡ x
      same e = cc

      clash : ◌≡◌ {A = Option (AssignmentWrapper S D)} none (some l) → ⊥
      clash e = cc
  push_assigned-open zero a ((y ∷ ys) ∷ agents) x l g h n c = yields (one)
    where
      same : ◌≡◌ {A = Option (List (AssignmentWrapper S D))} (some (y ∷ ys)) (some x) → (y ∷ ys) ≡ x
      same e = cc

      one : suc (open_agents ((y ∷ ys ++ a ∷ []) ∷ agents)) ≡ open_agents ((y ∷ ys) ∷ agents)
      one = ground (arith, ends_charging-append (y ∷ ys) a ∙ c, ap ends_charging (same g) ∙ n)
  push_assigned-open (suc agent) a ([] ∷ agents) x l g h n c =
      Yields-bind (push_assigned-open agent a agents x l g h n c) λ rest p. yields p
  push_assigned-open (suc agent) a ((y ∷ ys) ∷ agents) x l g h n c =
      Yields-bind (push_assigned-open agent a agents x l g h n c)
        λ rest p. yields (omega (arith, p))

update_candidate-ends :
    {S : Type 0} (time : S → ℕ) (c : ℕ) (state : S) (wait_until : ℕ) (previous : S) (charge : Bool)
    (cs : Candidates S)
    → Yields (λ _. Unit) (update_candidate time c state wait_until previous charge cs)
unfolding update_candidate
update_candidate-ends time c state wait_until previous charge cs =
    Yields-bind (Yields-deref (slot c cs.candidate_map)) λ old e. yields tt

module _ {S D C : Type 0} (w : World S D C) where
  pub keys-update_unassigned :
      (agent : ℕ) (state previous : S) (us : List (ℕ × PendingTask S D))
      → Yields
          (λ (r : Bool × List (ℕ × PendingTask S D)). keys r.1 ≡ keys us)
          (update_unassigned w agent state previous us)
  unfolding update_unassigned
  keys-update_unassigned agent state previous [] = yields refl
  keys-update_unassigned agent state previous ((id, u) ∷ rest) =
      Yields-maybe (w.estimate_finish u.request.description u.model_start state) (yields refl)
        λ f e. Yields-bind (update_candidate-ends _ _ _ _ _ _ _) λ cs h.
          Yields-bind (keys-update_unassigned agent state previous rest)
            λ r q. yields (ap (λ (K : List (ℕ × Request D)). (id, u.request) ∷ K) q)
