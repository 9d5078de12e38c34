-- ===== src/Requests/Delivery.antt =====
-- rmf_task/src/rmf_task/requests/Delivery.cpp: the model of a delivery.
use rmf_task.Base.{ℕ, ◌+◌, ◌-◌, not, some, if◌then◌else◌, ◌==◌, List, [], ◌∷◌}
use rmf_task.Attempt.{Attempt, gives, ◌>>=◌, ◌>>◌, value, require}
use rmf_task.Requests.{
  Doubles, to_waypoint, State, Constraints, Itinerary, Parameters, Finish, Model, Travels,
  set_battery_soc, load_basic, travel_to, way_back, wait_from, wait_drain,
}

pub record Delivery : Type 0 where
  pub pickup_waypoint : ℕ
  pub pickup_wait : ℕ
  pub dropoff_waypoint : ℕ
  pub dropoff_wait : ℕ

module _ {O B J : Type 0} (d : Doubles B) (p : Parameters O B J) where
  -- The loop over the itineraries of a plan: the duration and the battery drain, added to those that
  -- are given.
  unfoldable pub walk_itineraries : ℕ → List (Itinerary J) → ℕ → B → ℕ × B
  walk_itineraries start_time [] duration drain = (duration, drain)
  walk_itineraries start_time (i ∷ rest) duration drain =
      let itinerary_duration = i.finish_time - start_time in
      walk_itineraries i.finish_time rest (duration + itinerary_duration) (
        d.add drain
          (d.add (p.motion_sink i.trajectory) (p.ambient_sink (d.to_seconds itinerary_duration))))

  -- The constructor of the model. The code reads the plan to the dropoff as if there always was one:
  -- where there is none it `throws` here.
  unfoldable pub make_delivery : ℕ → Delivery → Attempt (Model B)
  unfolding walk_itineraries
  make_delivery earliest_start_time r = do
    let wait = r.pickup_wait + r.dropoff_wait
    let drain = p.ambient_sink (d.to_seconds wait)
    totals ←
        (if r.pickup_waypoint == r.dropoff_waypoint then gives (wait, drain) else (do
          itineraries ← value (
              p.plan
                (record {
                  time = earliest_start_time;
                  waypoint = r.pickup_waypoint;
                  orientation = p.orientation_zero;
                })
                (to_waypoint r.dropoff_waypoint))
          gives (walk_itineraries earliest_start_time itineraries wait drain)))
    gives (record {
      earliest_start_time = earliest_start_time;
      start_waypoint = r.pickup_waypoint;
      finish_waypoint = r.dropoff_waypoint;
      invariant_duration = totals.0;
      invariant_battery_drain = totals.1;
    })

module _ {O B J : Type 0} (d : Doubles B) (p : Parameters O B J) (travels : Travels O B)
    (c : Constraints B) where
  -- `estimate_finish`.
  unfoldable pub deliver : Model B → State O B → Attempt (Finish O B)
  deliver m s = do
    time ← value s.time
    orientation ← value s.orientation
    charging_waypoint ← value s.charging_waypoint
    soc ← value s.battery_soc
    state ←
        load_basic d
          (record { time = time; waypoint = m.finish_waypoint; orientation = orientation })
          charging_waypoint soc
    (variant_duration, soc_there) ← travel_to d travels c s m.start_waypoint soc
    let wait_until = wait_from time m.earliest_start_time variant_duration
    soc_waited ← wait_drain d p c s time wait_until soc_there
    let there : State O B = record state {
      time = some (wait_until + variant_duration + m.invariant_duration);
    }
    finished ←
        (if c.drain_battery
          then (do
            let left = d.sub soc_waited m.invariant_battery_drain
            require (not (d.le left c.threshold_soc))
            way_back d travels c there m.finish_waypoint charging_waypoint left
            set_battery_soc d left there)
          else gives there)
    gives (record { finish_state = finished; wait_until = wait_until })
