-- ===== src/Activities/Singles.antt =====
-- The estimates of ways, waits and actions.
use mathlib.Core.Path.{subst}
use rmf_task.Base.{
  ℕ, ◌+◌, ◌-◌, max, ◌≡◌, refl, sym, ◌∙◌, inl, inr, Bool, true, false, Option, Option-cases, none,
  some, maybe, maybe-some, maybe-none, arith, is_some→some,
}
use rmf_task.Attempt.{Ensures-bind, or_refuse-Ensures}
use rmf_task.Requests.{Doubles, Goal, Travels, State, Constraints, Finish}
use rmf_task.Activities.{
  Services, estimate_go, estimate_wait, estimate_action, wait_battery_drain, action_battery_drain,
}
use rmf_task.Activities.Spec.{Answers, Agrees, IsReady, ready, Reliable, Finishes}
use rmf_task.Activities.Parts.{
  known, extract_known, spend-Answers, spend_at_most-Answers, Later-from, after_spending,
}

module _ {O B : Type 0} (d : Doubles B) (v : Services O B) (c : Constraints B)
    (travels : Travels O B) (ok : Reliable d v travels) where
  pub estimate_go-Answers :
      (goal : Goal O) (invariant s : State O B) (earliest : ℕ)
      → IsReady d s
      → invariant.waypoint ≡ some goal.waypoint
      → Answers
          (λ (e : Finish O B). Finishes d c 0 true s invariant e.finish_state)
          (estimate_go d c travels goal s earliest)
  unfolding estimate_go
  estimate_go-Answers goal invariant s earliest (ready t w o soc ht hw ho hb hr) at =
      Ensures-bind (extract_known d s (ready t w o soc ht hw ho hb hr)) λ start _.
        Ensures-bind (or_refuse-Ensures (travels start goal) (λ _. tt)) λ travel e.
          Ensures-bind (known s.time t ht) λ time et.
            let wait_until = max (time + travel.duration) earliest - travel.duration in
            let there : State O B = record s {
              waypoint = some goal.waypoint;
              time = some (wait_until + travel.duration);
            } in
            after_spending d c 0 s invariant there _ wait_until
              (spend-Answers d c ok.sub_below travel.change_in_charge there
                (ready (wait_until + travel.duration) goal.waypoint o soc refl refl ho hb hr)
                (ok.travel_nonneg start goal travel e))
              (λ u h. sym at ∙ h)
              (Later-from d c 0 time (wait_until + travel.duration) s there et refl (omega arith))

  pub estimate_wait-Answers :
      (drain : B) (duration : ℕ) (invariant s : State O B) (earliest : ℕ)
      → IsReady d s
      → Agrees s invariant
      → d.lt drain d.zero ≡ false
      → Answers
          (λ (e : Finish O B). Finishes d c duration true s invariant e.finish_state)
          (estimate_wait d c drain duration s earliest)
  unfolding estimate_wait
  estimate_wait-Answers drain duration invariant s earliest (ready t w o soc ht hw ho hb hr) at
        nonneg =
      Ensures-bind (known s.time t ht) λ time et.
        let there : State O B = record s { time = some (time + duration) } in
        after_spending d c duration s invariant there _ earliest
          (spend-Answers d c ok.sub_below drain there
            (ready (time + duration) w o soc refl hw ho hb hr) nonneg)
          at (Later-from d c duration time (time + duration) s there et refl (omega arith))

  pub estimate_action-Answers :
      (drain : B) (duration : ℕ) (invariant s : State O B) (earliest : ℕ)
      → IsReady d s
      → d.lt drain d.zero ≡ false
      → Answers
          (λ (e : Finish O B). Finishes d c duration true s invariant e.finish_state)
          (estimate_action d c invariant drain duration s earliest)
  unfolding estimate_action
  estimate_action-Answers drain duration invariant s earliest (ready t w o soc ht hw ho hb hr)
        nonneg =
      Ensures-bind (known s.time t ht) λ time et.
        let waypoint = maybe invariant.waypoint s.waypoint (λ u. some u) in
        let orientation = maybe invariant.orientation s.orientation (λ u. some u) in
        let there : State O B = record s {
          time = some (time + duration);
          waypoint = waypoint;
          orientation = orientation;
        } in
        let w' = maybe invariant.waypoint w (λ u. u) in
        let o' = maybe invariant.orientation o (λ u. u) in
        after_spending d c duration s invariant there _ earliest
          (spend_at_most-Answers d c ok.sub_below drain there ok.zero_in_range ok.lt_asym
            (ready (time + duration) w' o' soc refl (kept invariant.waypoint s.waypoint w hw)
              (kept invariant.orientation s.orientation o ho) hb hr)
            nonneg)
          (λ u h. maybe-some invariant.waypoint _ _ h)
          (Later-from d c duration time (time + duration) s there et refl (omega arith))
    where
      kept :
          {A : Type 0} (x y : Option A) (a : A)
          → y ≡ some a
          → maybe x y (λ u. some u) ≡ some (maybe x a (λ u. u))
      kept none y a h = h
      kept (some b) y a h = refl

  ambient_known :
      (absent : B) (duration : ℕ)
      → d.lt (maybe v.ambient_sink absent (λ sink. sink (d.to_seconds duration))) d.zero ≡ false
  ambient_known absent duration =
      let (sink, e) = is_some→some v.ambient_sink ok.has_ambient_sink in
      subst (λ x. d.lt x d.zero ≡ false) (sym (maybe-some v.ambient_sink _ _ e))
        (ok.ambient_nonneg sink (d.to_seconds duration) e)

  pub wait_battery_drain-nonneg :
      (duration : ℕ) → d.lt (wait_battery_drain d v duration) d.zero ≡ false
  unfolding wait_battery_drain
  wait_battery_drain-nonneg duration = ambient_known d.zero duration

  pub action_battery_drain-nonneg :
      (duration : ℕ) (use_tool_sink : Bool)
      → d.lt (action_battery_drain d v duration use_tool_sink) d.zero ≡ false
  unfolding action_battery_drain
  action_battery_drain-nonneg duration false = ambient_known v.uninitialized duration
  action_battery_drain-nonneg duration true = elim (Option-cases v.tool_sink) [
    | inl e ↦
        subst (λ x. d.lt x d.zero ≡ false) (sym (maybe-none v.tool_sink _ _ e))
          (ambient_known v.uninitialized duration)
    | inr with_tool ↦
        let (sink, e) = with_tool in
        subst (λ x. d.lt x d.zero ≡ false) (sym (maybe-some v.tool_sink _ _ e))
          (ok.add_nonneg _ (sink (d.to_seconds duration)) (ambient_known v.uninitialized duration)
            (ok.tool_nonneg sink (d.to_seconds duration) e))
  ]
