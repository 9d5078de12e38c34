-- ===== src/Requests/Loop.antt =====
-- rmf_task/src/rmf_task/requests/Loop.cpp: the model of a loop.
use rmf_task.Base.{ℕ, ◌+◌, ◌*◌, not, if◌then◌else◌, ◌==◌, u64}
use rmf_task.Attempt.{Attempt, gives, ◌>>=◌, ◌>>◌, value, require}
use rmf_task.Requests.{
  Doubles, to_waypoint, State, Constraints, Parameters, Finish, Model, Travels, load_basic,
  travel_to, way_back, wait_from, wait_drain,
}
use rmf_task.Requests.Delivery.{walk_itineraries}

pub record Loop : Type 0 where
  pub start_waypoint : ℕ
  pub finish_waypoint : ℕ
  pub num_loops : ℕ

-- How often the way is gone, a number of 64 bits.
unfoldable pub ways : ℕ → ℕ
ways num_loops = u64 (2 * num_loops + 18446744073709551615)

module _ {O B J : Type 0} (d : Doubles B) (p : Parameters O B J) where
  -- The duration and the battery drain; the duration is a product of 64 bits. Where there is no plan
  -- it `throws` here, as for a delivery.
  unfoldable pub loop_totals : ℕ → Loop → Attempt (ℕ × B)
  unfolding walk_itineraries ways
  loop_totals earliest_start_time r =
      if r.start_waypoint == r.finish_waypoint then gives (0, d.zero) else (do
        itineraries ← value (
            p.plan
              (record {
                time = earliest_start_time;
                waypoint = r.start_waypoint;
                orientation = p.orientation_zero;
              })
              (to_waypoint r.finish_waypoint))
        let forward = walk_itineraries d p earliest_start_time itineraries 0 d.zero
        gives (u64 (ways r.num_loops * forward.0), d.mul (d.of_size (ways r.num_loops)) forward.1))

  -- The constructor of the model.
  unfoldable pub make_loop : ℕ → Loop → Attempt (Model B)
  unfolding loop_totals
  make_loop earliest_start_time r = do
    totals ← loop_totals earliest_start_time r
    gives (record {
      earliest_start_time = earliest_start_time;
      start_waypoint = r.start_waypoint;
      finish_waypoint = r.finish_waypoint;
      invariant_duration = totals.0;
      invariant_battery_drain = totals.1;
    })

module _ {O B J : Type 0} (d : Doubles B) (p : Parameters O B J) (travels : Travels O B)
    (c : Constraints B) where
  -- `estimate_finish`.
  unfoldable pub loop : Model B → State O B → Attempt (Finish O B)
  loop m s = do
    soc ← value s.battery_soc
    (variant_duration, soc_there) ← travel_to d travels c s m.start_waypoint soc
    time ← value s.time
    let wait_until = wait_from time m.earliest_start_time variant_duration
    soc_waited ← wait_drain d p c s time wait_until soc_there
    left ←
        (if c.drain_battery
          then (do
            let left = d.sub soc_waited m.invariant_battery_drain
            require (not (d.le left c.threshold_soc))
            gives left)
          else gives soc_waited)
    orientation ← value s.orientation
    charging_waypoint ← value s.charging_waypoint
    finished ←
        load_basic d
          (record {
            time = wait_until + variant_duration + m.invariant_duration;
            waypoint = m.finish_waypoint;
            orientation = orientation;
          })
          charging_waypoint left
    (if c.drain_battery
        then way_back d travels c finished m.finish_waypoint charging_waypoint left
        else gives tt)
    gives (record { finish_state = finished; wait_until = wait_until })
