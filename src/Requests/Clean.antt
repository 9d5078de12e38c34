-- ===== src/Requests/Clean.antt =====
-- rmf_task/src/rmf_task/requests/Clean.cpp: the model of a cleaning.
use rmf_task.Base.{ℕ, ◌+◌, ◌-◌, not, some, if◌then◌else◌}
use rmf_task.Attempt.{Attempt, gives, ◌>>=◌, ◌>>◌, value, require}
use rmf_task.Requests.{
  Doubles, State, Constraints, Parameters, Finish, Model, Travels, set_battery_soc, load_basic,
  travel_to, way_back, wait_from, wait_drain,
}

-- `J` stands for trajectories; the times are those of its begin and end.
pub record Cleaning (J : Type 0) : Type 0 where
  pub start_waypoint : ℕ
  pub end_waypoint : ℕ
  pub cleaning_path : J
  pub begin_time : ℕ
  pub finish_time : ℕ

module _ {O B J : Type 0} (d : Doubles B) (p : Parameters O B J) where
  -- `make_model` with the constructor of the model.
  unfoldable pub make_cleaning : ℕ → Cleaning J → Attempt (Model B)
  make_cleaning earliest_start_time r = do
    tool_sink ← value p.tool_sink
    let duration = r.finish_time - r.begin_time
    gives (record {
      earliest_start_time = earliest_start_time;
      start_waypoint = r.start_waypoint;
      finish_waypoint = r.end_waypoint;
      invariant_duration = duration;
      invariant_battery_drain =
          d.add (d.add (p.motion_sink r.cleaning_path) (p.ambient_sink (d.to_seconds duration)))
            (tool_sink (d.to_seconds duration));
    })

module _ {O B J : Type 0} (d : Doubles B) (p : Parameters O B J) (travels : Travels O B)
    (c : Constraints B) where
  -- `estimate_finish`.
  unfoldable pub clean : Model B → State O B → Attempt (Finish O B)
  clean m s = do
    time ← value s.time
    orientation ← value s.orientation
    charging_waypoint ← value s.charging_waypoint
    soc ← value s.battery_soc
    state ←
        load_basic d
          (record { time = time; waypoint = m.finish_waypoint; orientation = orientation })
          charging_waypoint soc
    (variant_duration, soc_there) ← travel_to d travels c s m.start_waypoint soc
    let end_duration : ℕ = 0
    let wait_until = wait_from time m.earliest_start_time variant_duration
    soc_waited ← wait_drain d p c s time wait_until soc_there
    let there : State O B = record state {
      time = some (wait_until + variant_duration + m.invariant_duration + end_duration);
    }
    finished ←
        (if c.drain_battery
          then (do
            let left = d.sub soc_waited m.invariant_battery_drain
            require (not (d.le left c.threshold_soc))
            way_back d travels c there m.finish_waypoint charging_waypoint left
            set_battery_soc d left there)
          else gives there)
    gives (record { finish_state = finished; wait_until = wait_until })
