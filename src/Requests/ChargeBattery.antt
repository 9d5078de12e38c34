-- ===== src/Requests/ChargeBattery.antt =====
-- rmf_task/src/rmf_task/requests/ChargeBattery.cpp: the model of charging.
use rmf_task.Base.{◌+◌, false, not, some, if◌then◌else◌, ◌==◌, maybe}
use rmf_task.Attempt.{Attempt, gives, ◌>>=◌, ◌>>◌, value, require}
use rmf_task.Requests.{
  Doubles, State, Constraints, Parameters, Finish, Travels, set_battery_soc, load_basic, travel_to,
}

module _ {O B J : Type 0} (d : Doubles B) (p : Parameters O B J) (travels : Travels O B)
    (c : Constraints B) where
  -- `estimate_finish`. A state of charge that is missing is less than any other.
  unfoldable pub charge_battery : State O B → Attempt (Finish O B)
  charge_battery s = do
    charged ←
        (if maybe s.battery_soc false (d.le (d.sub c.recharge_soc d.milli))
          then (do
            waypoint ← value s.waypoint
            charging_waypoint ← value s.charging_waypoint
            gives (waypoint == charging_waypoint))
          else gives false)
    require (not charged)
    time ← value s.time
    charging_waypoint ← value s.charging_waypoint
    orientation ← value s.orientation
    soc ← value s.battery_soc
    state ←
        load_basic d
          (record { time = time; waypoint = charging_waypoint; orientation = orientation })
          charging_waypoint soc
    (variant_duration, soc_there) ← travel_to d travels c s charging_waypoint soc
    let delta_soc = d.sub c.recharge_soc soc_there
    require (not (d.le delta_soc d.milli))
    let time_to_charge = d.div (d.mul (d.mul d.hour delta_soc) p.capacity) p.charging_current
    finished ←
        set_battery_soc d c.recharge_soc
          (record state { time = some (time + variant_duration + d.from_seconds time_to_charge) })
    gives (record { finish_state = finished; wait_until = time })
