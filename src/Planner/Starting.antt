-- ===== src/Planner/Starting.antt =====
-- The unassigned tasks of the node that a search begins with.
use mathlib.Core.Path.{subst}
use rmf_task.Base.{
  ℕ, suc, ◌+◌, ◌≤◌, ◌<◌, ◌≡◌, refl, sym, ◌∙◌, ap, inl, inr, max, true, false, List, [], ◌∷◌, ◌++◌,
  Option, Option-cases, none, some, if◌then◌else◌, All, arith, if_false, length, append-nil,
  append_assoc, u64, maybe, maybe-none, maybe-some,
}
use rmf_task.Yields.{OnSome, OnSome-some, absent, present}
use rmf_task.Candidates.{Entry}
use rmf_task.Planner.{
  Description, charge_battery, Request, Estimate, PendingTask, World, is_charging,
}
use rmf_task.Planner.Initial.{
  Offer, offers, refuses, offer, all_offers, TaskPlannerError, limited_capacity, low_battery,
  time_max, pending_with, make_pending, has_id, insert_task, collect_offer, make_unassigned,
}
use rmf_task.Planner.Tasks.{keys, requests, DistinctIds, NoCharging}
use rmf_task.Planner.Due.{InTime}
use rmf_task.Candidates.Construct.{construct-All}
use rmf_task.Planner.Numbering.{
  IdsBelow, has_id-below, keys-append, requests-append, IdsBelow-append, DistinctIds-append,
  NoCharging-append,
}

abbrev pub Plain : {D : Type 0} → List (Request D) → Type 0
Plain = All (λ r. is_charging r.description ≡ false)

-- The candidates of a task wait until times that can be held.
abbrev pub AllInTime : {S D : Type 0} → PendingTask S D → Type 0
AllInTime u = All (λ n. InTime n.entry) u.candidates.value_map

-- The estimates of a world wait until times that `rmf_traffic::Time` can hold.
abbrev pub IsBounded : {S D C : Type 0} → World S D C → Type 0
IsBounded {S} {D} w =
    (d : Description D) (t : ℕ) (s : S) (e : Estimate S)
    → w.estimate_finish d t s ≡ some e
    → e.wait_until ≤ time_max

pending_with-request :
    {S D : Type 0} (r : Request D) (model_start : ℕ) (entries : List (ℕ × Entry S))
    → All (λ (e : ℕ × Entry S). InTime e.1) entries
    → OnSome
        (λ (u : PendingTask S D). (u.request ≡ r) × AllInTime u)
        (pending_with r model_start entries)
unfolding pending_with
pending_with-request r model_start [] l = absent
pending_with-request r model_start (e ∷ entries) l =
    present (refl, construct-All InTime (e ∷ entries) l)

-- The unassigned tasks that have been made so far.
pub record Prepared {S D : Type 0} (next : ℕ) (made : List (Request D))
    (us : List (ℕ × PendingTask S D)) : Type 0 where
  pub below : IdsBelow next (keys us)
  pub distinct : DistinctIds (keys us)
  pub plain : NoCharging (keys us)
  pub same : requests (keys us) ≡ made
  pub in_time : All (λ (e : ℕ × PendingTask S D). AllInTime e.1) us

All-last :
    {S D : Type 0} (us : List (ℕ × PendingTask S D)) (e : ℕ × PendingTask S D)
    → All (λ (e : ℕ × PendingTask S D). AllInTime e.1) us
    → AllInTime e.1
    → All (λ (e : ℕ × PendingTask S D). AllInTime e.1) (us ++ e ∷ [])
All-last [] e l h = (h, tt)
All-last (x ∷ us) e l h = (l.0, All-last us e l.1 h)

module _ {S D : Type 0} where
  insert_task-Prepared :
      (next : ℕ) (made : List (Request D)) (us : List (ℕ × PendingTask S D)) (u : PendingTask S D)
      (r : Request D)
      → Prepared next made us
      → is_charging r.description ≡ false
      → u.request ≡ r
      → AllInTime u
      → suc next < 18446744073709551616
      → Prepared (u64 (next + 1)) (made ++ r ∷ []) (insert_task next u us)
  unfolding insert_task
  insert_task-Prepared next made us u r p plain e i b =
      subst (λ (n : ℕ). Prepared n (made ++ r ∷ []) (insert_task next u us)) (omega arith)
        (subst (λ (l : List (ℕ × PendingTask S D)). Prepared (suc next) (made ++ r ∷ []) l)
          (sym (if_false (has_id next us) _ _ (has_id-below next us p.below)))
          (record {
            below =
                subst (IdsBelow (suc next)) (sym added) (IdsBelow-append next r (keys us) p.below);
            distinct =
                subst DistinctIds (sym added)
                  (DistinctIds-append next r (keys us) p.below p.distinct);
            plain = subst NoCharging (sym added) (NoCharging-append next r (keys us) p.plain plain);
            same =
                ap requests added
                ∙ requests-append (keys us) ((next, r) ∷ [])
                ∙ ap (λ (l : List (Request D)). l ++ r ∷ []) p.same;
            in_time = All-last us (next, u) p.in_time i;
          }))
    where
      added : keys (us ++ (next, u) ∷ []) ≡ keys us ++ (next, r) ∷ []
      added = keys-append us ((next, u) ∷ []) ∙ ap (λ (q : Request D). keys us ++ (next, q) ∷ []) e

-- What is offered is in time.
abbrev OfferInTime : {S : Type 0} → Offer S → Type 0
OfferInTime (offers key e) = InTime e
OfferInTime (refuses error) = Unit

collect_offer-InTime :
    {S : Type 0} (o : Offer S)
    → OfferInTime o
    → (go : Option TaskPlannerError → List (ℕ × Entry S) × Option TaskPlannerError)
    → ((e : Option TaskPlannerError) → All (λ (x : ℕ × Entry S). InTime x.1) (go e).0)
    → (error : Option TaskPlannerError)
    → All (λ (x : ℕ × Entry S). InTime x.1) (collect_offer o go error).0
unfolding collect_offer
collect_offer-InTime (offers key e) h go l error = (h, l error)
collect_offer-InTime (refuses e) h go l error = l (some e)

module _ {S D C : Type 0} (w : World S D C) (bounded : IsBounded w) where
  offer-InTime :
      (d : Description D) (model_start start_time i : ℕ) (state : S)
      → OfferInTime (offer w d model_start start_time i state)
  unfolding offer
  offer-InTime d model_start start_time i state =
      elim (Option-cases (w.estimate_finish d model_start state)) [
        | inr (e, h) ↦
            subst OfferInTime (sym (maybe-some (w.estimate_finish d model_start state) _ _ h))
              (bounded d model_start state e h)
        | inl h ↦
            subst OfferInTime (sym (maybe-none (w.estimate_finish d model_start state) _ _ h))
              (recharged (w.estimate_finish charge_battery start_time state))
      ]
    where
      finished_late :
          (charged : Estimate S) (o : Option (Estimate S))
          → w.estimate_finish d model_start charged.finish_state ≡ o
          → OfferInTime (
              maybe o (refuses limited_capacity) (λ finish.
                offers (w.time finish.finish_state) (record {
                  candidate = i;
                  state = finish.finish_state;
                  wait_until = finish.wait_until;
                  previous_state = state;
                  require_charge_battery = true;
                })))
      finished_late charged none h = tt
      finished_late charged (some e) h = bounded d model_start charged.finish_state e h

      recharged :
          (o : Option (Estimate S))
          → OfferInTime (
              maybe o
                (refuses (if w.has_recharge_soc state then limited_capacity else low_battery))
                (λ charged.
                  maybe
                    (w.estimate_finish d model_start charged.finish_state)
                    (refuses limited_capacity)
                    (λ finish. offers (w.time finish.finish_state) (record {
                      candidate = i;
                      state = finish.finish_state;
                      wait_until = finish.wait_until;
                      previous_state = state;
                      require_charge_battery = true;
                    }))))
      recharged none = tt
      recharged (some charged) =
          finished_late charged (w.estimate_finish d model_start charged.finish_state) refl

  all_offers-InTime :
      (d : Description D) (model_start start_time i : ℕ) (states : List S)
      (error : Option TaskPlannerError)
      → All
          (λ (e : ℕ × Entry S). InTime e.1)
          (all_offers w d model_start start_time i states error).0
  unfolding all_offers collect_offer
  all_offers-InTime d model_start start_time i [] error = tt
  all_offers-InTime d model_start start_time i (state ∷ states) error =
      collect_offer-InTime (offer w d model_start start_time i state)
        (offer-InTime d model_start start_time i state)
        (λ last. all_offers w d model_start start_time (suc i) states last)
        (λ last. all_offers-InTime d model_start start_time (suc i) states last) error

  make_pending-request :
      (start_time : ℕ) (states : List S) (r : Request D) (error : Option TaskPlannerError)
      → OnSome
          (λ (u : PendingTask S D). (u.request ≡ r) × AllInTime u)
          (make_pending w start_time states r error).0
  unfolding make_pending
  make_pending-request start_time states r error =
      pending_with-request r (max start_time r.earliest_start_time) _ (
        all_offers-InTime r.description (max start_time r.earliest_start_time) start_time 0 states
          error)

  pub make_unassigned-Prepared :
      (time_now : ℕ) (states : List S) (rs made : List (Request D)) (next : ℕ)
      (us : List (ℕ × PendingTask S D)) (error : Option TaskPlannerError)
      → Prepared next made us
      → Plain rs
      → next + length rs < 18446744073709551616
      → OnSome
          (λ (r : List (ℕ × PendingTask S D) × ℕ). Prepared r.1 (made ++ rs) r.0)
          (make_unassigned w time_now states rs next us error).0
  unfolding make_unassigned
  make_unassigned-Prepared time_now states [] made next us error p l b =
      present (subst (λ (l : List (Request D)). Prepared next l us) (sym (append-nil made)) p)
  make_unassigned-Prepared time_now states (r ∷ rs) made next us error p l b =
      let o = (make_pending w time_now states r error).0 in
      elim (Option-cases o) [
        | inl h ↦
            subst
              (OnSome (λ (x : List (ℕ × PendingTask S D) × ℕ). Prepared x.1 (made ++ r ∷ rs) x.0))
              (sym (ap fst (maybe-none o _ _ h))) absent
        | inr (u, h) ↦
            subst
              (OnSome (λ (x : List (ℕ × PendingTask S D) × ℕ). Prepared x.1 (made ++ r ∷ rs) x.0))
              (sym (ap fst (maybe-some o _ _ h)))
              (subst
                (λ (l : List (Request D)).
                  OnSome (λ (x : List (ℕ × PendingTask S D) × ℕ). Prepared x.1 l x.0)
                    (make_unassigned w time_now states rs (u64 (next + 1)) (insert_task next u us)
                      (make_pending w time_now states r error).1).0)
                (append_assoc made (r ∷ []) rs)
                (make_unassigned-Prepared time_now states rs (made ++ r ∷ []) (u64 (next + 1))
                  (insert_task next u us) (make_pending w time_now states r error).1
                  (insert_task-Prepared next made us u r p l.0
                    (OnSome-some (make_pending-request time_now states r error) h).0
                    (OnSome-some (make_pending-request time_now states r error) h).1 (omega arith))
                  l.1 (omega arith)))
      ]
    where
      fst :
          Option (List (ℕ × PendingTask S D) × ℕ) × Option TaskPlannerError
          → Option (List (ℕ × PendingTask S D) × ℕ)
      fst x = x.0
