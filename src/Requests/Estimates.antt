-- ===== src/Requests/Estimates.antt =====
-- The estimates of deliveries, cleanings and loops, against their description.
use mathlib.Core.Path.{subst}
use native.Mathlib.Nat.{add-zero}
use rmf_task.Base.{
  ℕ, ◌+◌, ◌≡◌, sym, ◌∙◌, ap, ◌⊎◌, inl, inr, true, false, Option, none, some, if_true, if_false,
  true-ne-false,
}
use rmf_task.Attempt.{
  Attempt, value, Ensures, given, Ensures-bind, Ensures-if, Ensures-mono, value-Ensures,
  require-Ensures,
}
use rmf_task.Requests.{
  Doubles, Travels, State, Constraints, Parameters, Finish, Model, extract_plan_start, travel_to,
  way_back, wait_from, wait_drain,
}
use rmf_task.Requests.Delivery.{deliver}
use rmf_task.Requests.Clean.{clean}
use rmf_task.Requests.Loop.{loop}
use rmf_task.Requests.Spec.{
  is_complete, High, Arrives, arrives, Waited, waited, Done, done, back, Broken, incomplete,
  no_charge, out_of_range, Refused, no_route, low_there, low_waited, low_done, no_way_back,
  low_back, CanReturn, undrained, parked, returns, IsEstimate, is_estimate,
}
use rmf_task.Requests.Parts.{
  not-true, not-false, wait_from-max, time-is_complete, orientation-is_complete,
  charging-is_complete, battery-is_complete, travel_to-Drives, wait_drain-Waits, way_back-Ensures,
  load_basic-Ensures, set_battery_soc-Ensures, Drives-undrained, Waits-undrained,
}

-- The requests with a start and a finish.
pub data Errand : Type 0 where
  delivery cleaning looping : Errand

module _ {O B J : Type 0} (d : Doubles B) (p : Parameters O B J) (travels : Travels O B)
    (c : Constraints B) where
  -- `Task::Model::estimate_finish` of the model of such a request.
  unfoldable pub estimate_finish : Errand → Model B → State O B → Attempt (Finish O B)
  estimate_finish delivery m s = deliver d p travels c m s
  estimate_finish cleaning m s = clean d p travels c m s
  estimate_finish looping m s = loop d p travels c m s

  module _ (m : Model B) (s : State O B) where
    abbrev Estimates : {A : Type 0} → (A → Type 0) → Attempt A → Type 0
    Estimates = Ensures (Broken d p travels c s m) (Refused d p travels c s m)

    -- A robot that has spent what its way and its wait cost.
    got :
        {A : Type 0} (o : Option A)
        → (o ≡ none → is_complete s ≡ false)
        → Estimates (λ a. o ≡ some a) (value o)
    got o h = value-Ensures o (λ e. incomplete (h e))

    to_start :
        (soc : B)
        → s.battery_soc ≡ some soc
        → Estimates (Arrives d p travels c s m) (travel_to d travels c s m.start_waypoint soc)
    to_start soc b =
        Ensures-mono
          (travel_to-Drives d p travels c s m.start_waypoint soc incomplete no_route
            (λ r way low. low_there r.0 r.1 (arrives b way) low))
          λ r way. arrives b way

    after_wait :
        (time : ℕ) (r : ℕ × B)
        → s.time ≡ some time
        → Arrives d p travels c s m r
        → Estimates
            (Waited d p travels c s m r.0 (wait_from time m.earliest_start_time r.0))
            (wait_drain d p c s time (wait_from time m.earliest_start_time r.0) r.1)
    after_wait time r t way =
        let w = wait_from time m.earliest_start_time r.0 in
        let is = wait_from-max time m.earliest_start_time r.0 in
        Ensures-mono
          (wait_drain-Waits d p travels c s time w r.1 incomplete
            (λ left wt low. low_waited r.0 w left (waited time r.1 t is way wt) low))
          λ left wt. waited time r.1 t is way wt

    -- The state in which the request is finished.
    abbrev finished_state : ℕ → ℕ → B → State O B
    finished_state v w left = record s {
      time = some (w + v + m.invariant_duration);
      waypoint = some m.finish_waypoint;
      battery_soc = some left;
    }

    undrained_left :
        (v w : ℕ) (left : B)
        → c.drain_battery ≡ false
        → Waited d p travels c s m v w left
        → s.battery_soc ≡ some left
    undrained_left v w left off (waited time there t is (arrives {soc} b way) wt) =
        b
        ∙ ap (λ (x : B). some x)
            (sym (
              Waits-undrained d p travels c s time w there left off wt
              ∙ Drives-undrained d p travels c s m.start_waypoint soc (v, there) off way))

    -- The request is finished in a state.
    data Finished (v w : ℕ) (state : State O B) : Type 0 where
      finished :
          (left : B)
          → Done d p travels c s m v w left
          → state ≡ finished_state v w left
          → CanReturn d p travels c s m v w left
          → Finished v w state

    -- The state at the finish, made of what the estimate has read.
    abbrev loaded : ℕ → O → ℕ → B → State O B
    loaded time o charger soc = record {
      time = some time;
      waypoint = some m.finish_waypoint;
      orientation = some o;
      charging_waypoint = some charger;
      battery_soc = some soc;
    }

    loaded-finished :
        (v w : ℕ) (o : O) (charger : ℕ) (left : B)
        → s.orientation ≡ some o
        → s.charging_waypoint ≡ some charger
        → loaded (w + v + m.invariant_duration) o charger left ≡ finished_state v w left
    loaded-finished v w o charger left ho hc = cc

    can_return :
        (v w : ℕ) (o : O) (charger : ℕ) (left : B) (state : State O B)
        → s.orientation ≡ some o
        → s.charging_waypoint ≡ some charger
        → Done d p travels c s m v w left
        → High d p travels c left
        → extract_plan_start state
          ≡ some (record {
            time = w + v + m.invariant_duration;
            waypoint = m.finish_waypoint;
            orientation = o;
          })
        → Estimates
            (λ (_ : Unit {0}). CanReturn d p travels c s m v w left)
            (way_back d travels c state m.finish_waypoint charger left)
    can_return v w o charger left state ho hc dn high e =
        Ensures-mono
          (way_back-Ensures d p travels c state _ m.finish_waypoint charger left e
            (λ none_back. no_way_back v w left dn (back o charger ho hc none_back))
            (λ t found low. low_back v w left t dn (back o charger ho hc found) low))
          λ _ home. elim home [
            | inl at ↦ parked high (hc ∙ ap (λ (x : ℕ). some x) (sym at))
            | inr (t, found, enough) ↦ returns t high (back o charger ho hc found) enough
          ]

    spent-Done :
        (v w : ℕ) (soc : B)
        → Waited d p travels c s m v w soc
        → c.drain_battery ≡ true
        → Done d p travels c s m v w (d.sub soc m.invariant_battery_drain)
    spent-Done v w soc wt on = done soc wt (sym (if_true c.drain_battery _ _ on))

    kept-Done :
        (v w : ℕ) (soc : B)
        → Waited d p travels c s m v w soc
        → c.drain_battery ≡ false
        → Done d p travels c s m v w soc
    kept-Done v w soc wt off = done soc wt (sym (if_false c.drain_battery _ _ off))

    finished-IsEstimate :
        (v w : ℕ) (state : State O B)
        → Finished v w state
        → IsEstimate d p travels c s m (record { finish_state = state; wait_until = w })
    finished-IsEstimate v w state (finished left dn e home) = is_estimate v left dn e home

    deliver-Estimates : Estimates (IsEstimate d p travels c s m) (deliver d p travels c m s)
    unfolding deliver extract_plan_start
    deliver-Estimates = Ensures-bind (got s.time (time-is_complete s)) λ time t.
        Ensures-bind (got s.orientation (orientation-is_complete s)) λ o ho.
          Ensures-bind (got s.charging_waypoint (charging-is_complete s)) λ charger hc.
            Ensures-bind (got s.battery_soc (battery-is_complete s)) λ soc b.
              Ensures-bind (load_basic-Ensures d p travels c _ charger soc (no_charge soc b))
                λ state e. Ensures-bind (to_start soc b) λ r way.
                  Ensures-bind (after_wait time r t way) λ soc' wt.
                    let v = r.0 in
                    let w = wait_from time m.earliest_start_time v in
                    let left = d.sub soc' m.invariant_battery_drain in
                    let at_end =
                      λ (x : State O B). record x { time = some (w + v + m.invariant_duration) } in
                    Ensures-bind
                      (Ensures-if c.drain_battery
                        (λ on.
                          let dn = spent-Done v w soc' wt on in
                          Ensures-bind
                            (require-Ensures _ (λ low. low_done v w left dn (not-false _ low)))
                            λ _ high.
                              Ensures-bind
                                (can_return v w o charger left (at_end state) ho hc dn
                                  (not-true _ high)
                                  (ap (λ (x : State O B). extract_plan_start (at_end x)) e))
                                λ _ home.
                                  Ensures-mono
                                    (set_battery_soc-Ensures d p travels c left (at_end state)
                                      (out_of_range v w left dn))
                                    λ state' f.
                                      finished left dn
                                        (f
                                          ∙ ap
                                              (λ (x : State O B). record (at_end x) {
                                                battery_soc = some left;
                                              })
                                              e
                                          ∙ loaded-finished v w o charger left ho hc)
                                        home)
                        (λ off. given (
                          finished soc' (kept-Done v w soc' wt off)
                            (ap at_end e
                              ∙ ap (loaded (w + v + m.invariant_duration) o charger)
                                  (same soc soc' (sym b ∙ undrained_left v w soc' off wt))
                              ∙ loaded-finished v w o charger soc' ho hc)
                            (undrained off))))
                      λ state' f. given (finished-IsEstimate v w state' f)
      where
        same : (x y : B) → ◌≡◌ {A = Option B} (some x) (some y) → x ≡ y
        same x y h = cc

    clean-deliver : clean d p travels c m s ≡ deliver d p travels c m s
    unfolding clean deliver
    clean-deliver = simp (add-zero)

    loop-Estimates : Estimates (IsEstimate d p travels c s m) (loop d p travels c m s)
    unfolding loop extract_plan_start
    loop-Estimates = Ensures-bind (got s.battery_soc (battery-is_complete s)) λ soc b.
        Ensures-bind (to_start soc b) λ r way.
          Ensures-bind (got s.time (time-is_complete s)) λ time t.
            Ensures-bind (after_wait time r t way) λ soc' wt.
              let v = r.0 in
              let w = wait_from time m.earliest_start_time v in
              Ensures-bind
                {P = λ left.
                  Done d p travels c s m v w left
                  × ((c.drain_battery ≡ false) ⊎ High d p travels c left)}
                (Ensures-if c.drain_battery
                  (λ on.
                    let dn = spent-Done v w soc' wt on in
                    Ensures-bind (require-Ensures _ (λ low. low_done v w _ dn (not-false _ low)))
                      λ _ high. given (dn, inr (not-true _ high)))
                  (λ off. given (kept-Done v w soc' wt off, inl off)))
                λ left dn. Ensures-bind (got s.orientation (orientation-is_complete s)) λ o ho.
                  Ensures-bind (got s.charging_waypoint (charging-is_complete s)) λ charger hc.
                    Ensures-bind
                      (load_basic-Ensures d p travels c _ charger left (out_of_range v w left dn.0))
                      λ state e.
                        Ensures-bind {P = λ _. CanReturn d p travels c s m v w left}
                          (Ensures-if c.drain_battery
                            (λ on.
                              can_return v w o charger left state ho hc dn.0 (high_when on dn.1)
                                (ap extract_plan_start e))
                            (λ off. given (undrained off)))
                          λ _ home. given (
                            finished-IsEstimate v w state (
                              finished left dn.0 (e ∙ loaded-finished v w o charger left ho hc)
                                home))
      where
        high_when :
            {left : B}
            → c.drain_battery ≡ true
            → ((c.drain_battery ≡ false) ⊎ High d p travels c left)
            → High d p travels c left
        high_when on (inl off) = absurd (true-ne-false (sym on ∙ off))
        high_when on (inr high) = high

  -- The estimate of a delivery, a cleaning or a loop throws only if the state of the robot lacks
  -- something, or its charge or the one that is left is no state of charge; it is refused only if
  -- there is no way to the start or back to the charger, or the charge would be at the threshold or
  -- below it at the start, after the wait, at the end or at the charger. Any estimate sets out at the
  -- time of the state, or so much later that it reaches the start at the earliest start time, ends at
  -- the finish waypoint after the way and the invariant duration, and leaves a charge above the
  -- threshold, also at the charger, if the battery drains.
  pub estimate_finish_lem :
      (kind : Errand) (m : Model B) (s : State O B)
      → Ensures
          (Broken d p travels c s m)
          (Refused d p travels c s m)
          (IsEstimate d p travels c s m)
          (estimate_finish kind m s)
  unfolding estimate_finish
  estimate_finish_lem delivery m s = deliver-Estimates m s
  estimate_finish_lem cleaning m s =
      subst
        (Ensures (Broken d p travels c s m) (Refused d p travels c s m)
          (IsEstimate d p travels c s m))
        (sym (clean-deliver m s)) (deliver-Estimates m s)
  estimate_finish_lem looping m s = loop-Estimates m s
