-- ===== src/Planner/Finishing.antt =====
-- The end of a plan: what the finishing requests add to it.
use mathlib.Core.List.Perm
use mathlib.Core.List.{Perm}
use mathlib.Core.Path.{subst}
use rmf_task.Base.{
  ℕ, ◌≡◌, refl, sym, ◌∙◌, ap, inl, inr, Bool, true, List, [], ◌∷◌, ◌++◌, map, append-nil,
  All-append, Option, Option-cases, none, some, All, Bool-cases, if_true, if_false, length, maybe,
  maybe-none, maybe-some,
}
use rmf_task.Yields.{OnSome, OnSome-some, absent, present}
use rmf_task.Planner.{Request, Assignment, World, is_charging, make_charging_request, last_of}
use rmf_task.Planner.Plan.{
  Answer, assignments, failed, try_request, append_finishing, finish_plan, prune_complete,
}
use rmf_task.Planner.Merging.{
  plan_requests, planned, plan_requests-append, planned_pruned, exchange, length-map,
}

-- A request is made by the factory of finishing requests.
abbrev pub IsFinishing : {S D : Type 0} → Option (S → Request D) → Request D → Type 0
IsFinishing {S} {D} finishing r = (f : S → Request D) × (s : S) × (finishing ≡ some f) × (r ≡ f s)

-- The planner finds nothing, or refuses, or gives each agent its part of a plan; the requests of
-- the plan, charging aside, are the given ones in some order and those of the factory.
pub data IsPlan {S D : Type 0} (finishing : Option (S → Request D)) (agents : ℕ)
    (rs : List (Request D)) : Answer S D → Type 0 where
  nothing : IsPlan finishing agents rs (assignments [])
  refused : {e : _} → IsPlan finishing agents rs (failed e)
  complete :
      {plan : List (List (Assignment S D))} (extra : List (Request D))
      → length plan ≡ agents
      → Perm (planned plan) (rs ++ extra)
      → All (IsFinishing finishing) extra
      → IsPlan finishing agents rs (assignments plan)

module _ {S D C : Type 0} (w : World S D C) where
  try_request-request :
      (r : Request D) (start : ℕ) (state : S)
      → OnSome (λ (a : Assignment S D). a.request ≡ r) (try_request w r start state)
  unfolding try_request
  try_request-request r start state =
      elim (Option-cases (w.estimate_finish r.description start state)) [
        | inl h ↦
            subst (OnSome (λ (a : Assignment S D). a.request ≡ r))
              (sym (maybe-none (w.estimate_finish r.description start state) _ _ h)) absent
        | inr (e, h) ↦
            subst (OnSome (λ (a : Assignment S D). a.request ≡ r))
              (sym (maybe-some (w.estimate_finish r.description start state) _ _ h)) (present refl)
      ]

  -- What is appended to an agent's part of a plan.
  abbrev pub Appended : (S → Request D) → List (Assignment S D) → List (Assignment S D) → Type 0
  Appended factory agent agent' =
      (extra : List (Request D)) × (plan_requests agent' ≡ plan_requests agent ++ extra)
      × All (IsFinishing (some factory)) extra

  same_agent :
      (factory : S → Request D) (agent : List (Assignment S D)) → Appended factory agent agent
  same_agent factory agent = ([], sym (append-nil (plan_requests agent)), tt)

  final_requests :
      (factory : S → Request D) (state : S) (a : Assignment S D)
      → a.request ≡ factory state
      → All (IsFinishing (some factory)) (plan_requests (a ∷ []))
  final_requests factory state a e = elim (Bool-cases (is_charging a.request.description)) [
    | inl h ↦
        subst (All (IsFinishing (some factory)))
          (sym (if_true (is_charging a.request.description) _ _ h)) tt
    | inr h ↦
        subst (All (IsFinishing (some factory)))
          (sym (if_false (is_charging a.request.description) _ _ h)) ((factory, state, refl, e), tt)
  ]

  charged_requests :
      (charge : Request D) (charged final : Assignment S D)
      → is_charging charge.description ≡ true
      → charged.request ≡ charge
      → plan_requests (charged ∷ final ∷ []) ≡ plan_requests (final ∷ [])
  charged_requests charge charged final h e =
      if_true (is_charging charged.request.description) _ _
        (ap (λ (r : Request D). is_charging r.description) e ∙ h)

  part_end :
      (factory : S → Request D) (agent : List (Assignment S D)) (state : S) (charge : Request D)
      → is_charging charge.description ≡ true
      → (now charged : Option (Assignment S D)) (later : Assignment S D → Option (Assignment S D))
      → OnSome (λ a. a.request ≡ factory state) now
      → OnSome (λ a. a.request ≡ charge) charged
      → ((c : Assignment S D) → OnSome (λ a. a.request ≡ factory state) (later c))
      → Appended factory agent (
          maybe now
            (maybe charged agent λ c. maybe (later c) agent λ final. agent ++ c ∷ final ∷ [])
            (λ final. agent ++ final ∷ []))
  part_end factory agent state charge h (some final) charged later (present e) _ _ = (
    plan_requests (final ∷ []),
    plan_requests-append agent (final ∷ []),
    final_requests factory state final e,
  )
  part_end factory agent state charge h none none later _ _ _ = same_agent factory agent
  part_end factory agent state charge h none (some c) later _ (present e) l =
      elim (Option-cases (later c)) [
        | inl g ↦
            subst (Appended factory agent) (sym (maybe-none (later c) _ _ g))
              (same_agent factory agent)
        | inr (final, g) ↦ subst (Appended factory agent) (sym (maybe-some (later c) _ _ g)) (
          plan_requests (final ∷ []),
          plan_requests-append agent (c ∷ final ∷ [])
              ∙ ap (λ (l : List (Request D)). plan_requests agent ++ l)
                  (charged_requests charge c final h e),
          final_requests factory state final (OnSome-some (l c) g),
        )
      ]

  pub append_finishing-Appended :
      (factory : S → Request D) (agent : List (Assignment S D))
      → Appended factory agent (append_finishing w factory agent)
  unfolding append_finishing make_charging_request is_charging
  append_finishing-Appended factory agent = elim (Option-cases (last_of agent)) [
    | inl h ↦
        subst (Appended factory agent) (sym (maybe-none (last_of agent) _ _ h))
          (same_agent factory agent)
    | inr (last, h) ↦
        let state = last.finish_state in
        let charge : Request D = make_charging_request (w.time state) in
        subst (Appended factory agent) (sym (maybe-some (last_of agent) _ _ h)) (
          part_end factory agent state charge refl
            (try_request w (factory state) (w.time state) state)
            (try_request w charge (w.time state) state)
            (λ c. try_request w (factory state) (w.time c.finish_state) c.finish_state)
            (try_request-request (factory state) (w.time state) state)
            (try_request-request charge (w.time state) state)
            (λ c. try_request-request (factory state) (w.time c.finish_state) c.finish_state))
  ]

  -- What is appended to all parts of a plan.
  parts_of_plan :
      (factory : S → Request D) (plan : List (List (Assignment S D)))
      → (extra : List (Request D)) × Perm
          (planned (map (append_finishing w factory) plan))
          (planned plan ++ extra)
        × All (IsFinishing (some factory)) extra
  parts_of_plan factory [] = ([], Perm.nil, tt)
  parts_of_plan factory (agent ∷ plan) =
      let (one, e, l) = append_finishing-Appended factory agent in
      let (more, p, k) = parts_of_plan factory plan in
      (
        one ++ more,
        subst
            (λ (l : List (Request D)).
              Perm (l ++ planned (map (append_finishing w factory) plan))
                ((plan_requests agent ++ planned plan) ++ (one ++ more)))
            (sym e)
            (Perm.trans (Perm.append_left (plan_requests agent ++ one) p)
              (exchange (plan_requests agent) one (planned plan) more)),
        All-append _ one more l k,
      )

  -- The end of a plan for some requests, which are all in it.
  pub finish_plan-IsPlan :
      (time_now : ℕ) (check_priority greedy : Bool) (finishing : Option (S → Request D))
      (plan : List (List (Assignment S D))) (agents : ℕ) (rs : List (Request D))
      → length plan ≡ agents
      → Perm (planned plan) rs
      → IsPlan finishing agents rs (finish_plan w time_now check_priority greedy finishing plan)
  unfolding finish_plan
  finish_plan-IsPlan time_now check_priority greedy none plan agents rs e p =
      complete [] (length-map prune_complete plan ∙ e)
        (subst (Perm (planned (map prune_complete plan))) (sym (append-nil rs))
          (subst (λ (l : List (Request D)). Perm l rs) (sym (planned_pruned plan)) p))
        tt
  finish_plan-IsPlan time_now check_priority greedy (some factory) plan agents rs e p =
      let (extra, q, l) = parts_of_plan factory (map prune_complete plan) in
      complete extra
        (length-map (append_finishing w factory) (map prune_complete plan)
          ∙ length-map prune_complete plan
          ∙ e)
        (Perm.trans q (
          Perm.append_right extra
            (subst (λ (l : List (Request D)). Perm l rs) (sym (planned_pruned plan)) p)))
        l
