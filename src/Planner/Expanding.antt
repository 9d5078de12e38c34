-- ===== src/Planner/Expanding.antt =====
-- What the expansions of a node keep.
use mathlib.Core.List.Perm
use mathlib.Core.List.{Perm}
use mathlib.Core.Path.{subst}
use rmf_task.Base.{
  ℕ, ◌+◌, ◌≡◌, refl, sym, ◌∙◌, ap, inl, inr, Bool, true, false, not, ◌&&◌, List, [], ◌∷◌, Option,
  Option-cases, none, some, if◌then◌else◌, ◌==◌, ltb, if_true, if_false, length, get_elem?, ok,
  maybe-none, maybe-some,
}
use rmf_task.Yields.{
  Yields, yields, stopped, OnSome, absent, present, OnSome-map, OnSome-mono, Yields-both,
  Yields-bind, Yields-maybe, Yields-if, Yields-mono,
}
use rmf_task.Candidates.{Entry}
use rmf_task.Planner.{
  AssignmentWrapper, PendingTask, SearchNode, World, Invariant, segmentation_threshold,
  charge_battery, is_charging, charges, make_charging_request, ends_charging, last_of,
  push_assigned, copy_node, pop_unassigned, erase_invariant,
}
use rmf_task.Planner.Expand.{
  estimate_charging, charge_before, add_charger, finish_node, expand_candidate, expand_charger,
}
use rmf_task.Planner.Tasks.{keys, assigned_requests, find_key, erase_key}
use rmf_task.Planner.Assigning.{
  keys-copy_unassigned, keys-erase_task, push_assigned-Pushed, push_assigned-open,
  keys-update_unassigned,
}
use rmf_task.Planner.Follow.{
  IsValid, Follows, Charged, find_key-plain, assigned-Follows, charged-Follows,
}

erase_invariant-ends : (id : ℕ) (l : List Invariant) → Yields (λ _. Unit) (erase_invariant id l)
unfolding erase_invariant
erase_invariant-ends id [] = stopped (λ e. absurd (cc))
erase_invariant-ends id (i ∷ rest) =
    Yields-if (i.task_id == id) (λ h. yields tt)
      (λ h. Yields-bind (erase_invariant-ends id rest) (λ l h. yields tt))

module _ {S D : Type 0} where
  charge-Kept :
      (agent : ℕ) (a : AssignmentWrapper S D) (agents : List (List (AssignmentWrapper S D)))
      → charges a ≡ true
      → Yields
          (λ after.
            (length after ≡ length agents)
            × Perm (assigned_requests after) (assigned_requests agents))
          (push_assigned agent a agents)
  charge-Kept agent a agents c =
      Yields-mono (push_assigned-Pushed agent a agents)
        λ after p. (p.0, subst (Perm (assigned_requests after)) (if_true (charges a) _ _ c) p.1)

module _ {S D C : Type 0} (w : World S D C) where
  estimate_charging-charges :
      (id : ℕ) (state : S) (a : AssignmentWrapper S D)
      → estimate_charging w id state ≡ some a
      → charges a ≡ true
  unfolding estimate_charging make_charging_request is_charging
  estimate_charging-charges id state a e =
      elim (Option-cases (w.estimate_finish charge_battery (w.time state) state)) [
        | inl h ↦ absurd (
            clash
              (sym (maybe-none (w.estimate_finish charge_battery (w.time state) state) _ _ h) ∙ e))
        | inr (f, h) ↦
            found _
              (sym (maybe-some (w.estimate_finish charge_battery (w.time state) state) _ _ h) ∙ e)
              refl
      ]
    where
      clash : ◌≡◌ {A = Option (AssignmentWrapper S D)} none (some a) → ⊥
      clash h = cc

      found :
          (b : AssignmentWrapper S D)
          → ◌≡◌ {A = Option (AssignmentWrapper S D)} (some b) (some a)
          → charges b ≡ true
          → charges a ≡ true
      found b h c = cc

  -- Charging at the end of an agent's assignments keeps what an assignment to charge keeps.
  add_charger-keeps :
      (P : List (List (AssignmentWrapper S D)) → Type 0) (agent : ℕ) (state previous : S)
      (n : SearchNode S D C)
      → ((a : AssignmentWrapper S D)
          → charges a ≡ true
          → Yields P (push_assigned agent a n.assigned_tasks))
      → Yields
          (OnSome
            (λ n'. P n'.assigned_tasks × (keys n'.unassigned_tasks ≡ keys n.unassigned_tasks)))
          (add_charger w agent state previous n)
  unfolding add_charger
  add_charger-keeps P agent state previous n h =
      Yields-maybe (estimate_charging w 0 state) (yields absent) λ a e.
        Yields-bind (h a (estimate_charging-charges 0 state a e)) λ assigned p.
          Yields-bind
            (keys-update_unassigned w agent a.assignment.finish_state previous n.unassigned_tasks)
            λ r k. yields (choose r.0 _ (p, k))
    where
      Q : SearchNode S D C → Type 0
      Q n' = P n'.assigned_tasks × (keys n'.unassigned_tasks ≡ keys n.unassigned_tasks)

      choose :
          (stopped : Bool) (m : SearchNode S D C)
          → Q m
          → OnSome Q (if stopped then none else some m)
      choose true m h = absent
      choose false m h = present h

  charge_before-Kept :
      (id : ℕ) (entry : Entry S) (agents : List (List (AssignmentWrapper S D)))
      → Yields
          (λ after.
            (length after ≡ length agents)
            × Perm (assigned_requests after) (assigned_requests agents))
          (charge_before w id entry agents)
  unfolding charge_before
  charge_before-Kept id entry agents =
      Yields-maybe (get_elem? agents entry.candidate) (stopped (λ e. absurd (cc))) λ agent e.
        Yields-if (entry.require_charge_battery && not (ends_charging agent))
          (λ needs.
            Yields-maybe (estimate_charging w id entry.previous_state) (yields (refl, Perm.refl _))
              λ a e.
                charge-Kept entry.candidate a agents
                  (estimate_charging-charges id entry.previous_state a e))
          (λ fine. yields (refl, Perm.refl _))

  -- The agent charges, if it has to.
  charge_after-Charged :
      (needs : Bool) (agent : ℕ) (state previous : S) (n : SearchNode S D C)
      → Yields
          (OnSome (Charged n))
          (if needs then add_charger w agent state previous n else ok (some n))
  charge_after-Charged needs agent state previous n =
      Yields-if needs
        (λ h.
          Yields-mono
            (add_charger-keeps _ agent state previous n
              (λ a c. charge-Kept agent a n.assigned_tasks c))
            (λ o q. OnSome-mono q (λ m r. (r.0.0, r.0.1, r.1))))
        (λ h. yields (present (refl, Perm.refl _, refl)))

module _ {S D C : Type 0} where
  pop_unassigned-keys :
      (id : ℕ) (n : SearchNode S D C)
      → Yields
          (λ n'.
            (n'.assigned_tasks ≡ n.assigned_tasks)
            × (keys n'.unassigned_tasks ≡ erase_key id (keys n.unassigned_tasks)))
          (pop_unassigned id n)
  unfolding pop_unassigned
  pop_unassigned-keys id n =
      Yields-bind (erase_invariant-ends id n.unassigned_invariants)
        λ l h. yields (refl, keys-erase_task id n.unassigned_tasks)

module _ {S D C : Type 0} (w : World S D C) (time_now : ℕ) (check_priority : Bool) where
  -- A node that assigns a task of its parent follows it.
  pub expand_candidate-Follows :
      (entry : Entry S) (id : ℕ) (u : PendingTask S D) (n : SearchNode S D C)
      → IsValid n
      → find_key id (keys n.unassigned_tasks) ≡ some u.request
      → Yields (OnSome (Follows n)) (expand_candidate w time_now check_priority entry id u n)
  unfolding expand_candidate copy_node pop_unassigned finish_node
  expand_candidate-Follows entry id u n v f =
      Yields-if (ltb (n.latest_time + segmentation_threshold) entry.wait_until)
        (λ late. yields absent)
        λ due. Yields-bind (charge_before-Kept w id entry n.assigned_tasks) λ before p.
          Yields-bind (push_assigned-Pushed entry.candidate _ before) λ assigned q.
            Yields-bind (pop_unassigned-keys id _) λ popped t.
              Yields-bind
                (keys-update_unassigned w entry.candidate entry.state entry.state
                  popped.unassigned_tasks)
                λ r k.
                  Yields-bind
                    (charge_after-Charged w r.0 entry.candidate entry.state entry.state
                      (record popped { unassigned_tasks = r.1 }))
                    λ o c. yields (
                      OnSome-map _ c λ m s.
                        assigned-Follows n (finish_node w time_now check_priority m) id u.request v
                          f (s.0 ∙ ap length t.0 ∙ q.0 ∙ p.0)
                          (Perm.trans s.1 (
                            subst
                              (λ (l : List (List (AssignmentWrapper S D))).
                                Perm (assigned_requests l)
                                  (u.request ∷ assigned_requests n.assigned_tasks))
                              (sym t.0)
                              (Perm.trans (one_more before assigned q.1)
                                (Perm.cons u.request p.1))))
                          (s.2
                            ∙ k
                            ∙ t.1
                            ∙ ap (erase_key id) (keys-copy_unassigned n.unassigned_tasks)))
    where
      one_more :
          (before assigned : List (List (AssignmentWrapper S D)))
          → Perm (assigned_requests assigned) (
              if is_charging u.request.description
              then assigned_requests before
              else u.request ∷ assigned_requests before)
          → Perm (assigned_requests assigned) (u.request ∷ assigned_requests before)
      one_more before assigned p =
          subst (Perm (assigned_requests assigned))
            (if_false (is_charging u.request.description) _ _
              (find_key-plain id (keys n.unassigned_tasks) u.request f v.plain))
            p

  -- A node in which an agent charges follows its parent.
  pub expand_charger-Follows :
      (n : SearchNode S D C) (agent : ℕ)
      → IsValid n
      → Yields (OnSome (Follows n)) (expand_charger w time_now check_priority n agent)
  unfolding expand_charger copy_node finish_node
  expand_charger-Follows n agent v =
      Yields-maybe (get_elem? n.assigned_tasks agent) (stopped (λ e. absurd (cc))) λ x g.
        Yields-maybe (last_of x) (yields absent) λ l h.
          Yields-if (ends_charging x) (λ c. yields absent)
            λ c.
              Yields-bind
                (add_charger-keeps w _ agent l.assignment.finish_state l.assignment.finish_state
                  (copy_node n)
                  (λ a b.
                    Yields-both (charge-Kept agent a n.assigned_tasks b)
                      (push_assigned-open agent a n.assigned_tasks x l g h c b)))
                λ o p. yields (
                  OnSome-map _ p λ m q.
                    charged-Follows n (finish_node w time_now check_priority m) v q.0.0.0 q.0.0.1
                      (q.1 ∙ keys-copy_unassigned n.unassigned_tasks) q.0.1 (agent, x, l, g, h))
