-- ===== src/Requests.antt =====
-- rmf_task/src/rmf_task/requests/: how the models of requests estimate when a robot finishes them,
-- and rmf_task/src/rmf_task/State.cpp: the states of robots.
pub mod Delivery
pub mod Clean
pub mod Loop
pub mod ChargeBattery
pub mod Settings
pub mod Spec
pub mod Parts
pub mod Estimates
mod Examples
use rmf_task.Base.{
  ℕ, ◌+◌, ◌-◌, Bool, true, false, not, ◌&&◌, Option, none, some, if◌then◌else◌, ltb, ◌==◌, maybe,
  is_some, List, [], ◌∷◌,
}
use rmf_task.Attempt.{
  Attempt, throws, gives, refuses, ◌>>=◌, ◌>>◌, value, or_refuse, require, check,
}

-- The doubles of the code, with the constants 0.0, 1.0, 1e-3 and 3600, and the conversions of
-- rmf_traffic between durations and seconds.
pub record Doubles (B : Type 0) : Type 0 where
  pub zero : B
  pub one : B
  pub milli : B
  pub hour : B
  pub add : B → B → B
  pub sub : B → B → B
  pub mul : B → B → B
  pub div : B → B → B
  pub le : B → B → Bool
  pub lt : B → B → Bool
  pub of_size : ℕ → B
  pub to_seconds : ℕ → B
  pub from_seconds : B → ℕ

-- `Plan::Start`; `O` stands for orientations.
pub record Start (O : Type 0) : Type 0 where
  pub time : ℕ
  pub waypoint : ℕ
  pub orientation : O

-- `Plan::Goal`.
pub record Goal (O : Type 0) : Type 0 where
  pub waypoint : ℕ
  pub orientation : Option O

abbrev pub to_waypoint : {O : Type 0} → ℕ → Goal O
to_waypoint waypoint = record { waypoint = waypoint; orientation = none }

-- `TravelEstimator::Result`.
pub record Travel (B : Type 0) : Type 0 where
  pub duration : ℕ
  pub change_in_charge : B

-- `State`, with the components that the library gives it.
pub record State (O B : Type 0) : Type 0 where
  pub time : Option ℕ
  pub waypoint : Option ℕ
  pub orientation : Option O
  pub charging_waypoint : Option ℕ
  pub battery_soc : Option B

pub record Constraints (B : Type 0) : Type 0 where
  pub threshold_soc : B
  pub recharge_soc : B
  pub drain_battery : Bool

-- An itinerary of a plan; `J` stands for trajectories.
pub record Itinerary (J : Type 0) : Type 0 where
  pub trajectory : J
  pub finish_time : ℕ

-- `Parameters`: the planner, the power sinks (the one of tools may be missing) and the battery.
pub record Parameters (O B J : Type 0) : Type 0 where
  pub plan : Start O → Goal O → Option (List (Itinerary J))
  pub motion_sink : J → B
  pub ambient_sink : B → B
  pub tool_sink : Option (B → B)
  pub capacity : B
  pub charging_current : B
  pub orientation_zero : O

-- `Estimate`.
pub record Finish (O B : Type 0) : Type 0 where
  pub finish_state : State O B
  pub wait_until : ℕ

-- The fields that the models of these requests share: a robot goes to the start waypoint, begins no
-- earlier than the earliest start time, and is at the finish waypoint after the invariant duration.
-- A delivery has its pickup and dropoff waypoints for them.
pub record Model (B : Type 0) : Type 0 where
  pub earliest_start_time : ℕ
  pub start_waypoint : ℕ
  pub finish_waypoint : ℕ
  pub invariant_duration : ℕ
  pub invariant_battery_drain : B

-- The comparison of an optional waypoint with a waypoint.
unfoldable pub is_at : Option ℕ → ℕ → Bool
is_at none w = false
is_at (some v) w = v == w

module _ {O B : Type 0} where
  unfoldable pub extract_plan_start : State O B → Option (Start O)
  extract_plan_start s = maybe s.waypoint none λ w.
      maybe s.orientation none
        λ o. maybe s.time none λ t. some (record { time = t; waypoint = w; orientation = o })

-- What `TravelEstimator::estimate` answers.
abbrev pub Travels : Type 0 → Type 0 → Type 0
Travels O B = Start O → Goal O → Option (Travel B)

-- The later one of the time of the state and the ideal start. A time that would precede all times
-- is the first one here, which the time of the state does not precede.
unfoldable pub wait_from : ℕ → ℕ → ℕ → ℕ
wait_from time earliest_start_time variant_duration =
    let ideal_start = earliest_start_time - variant_duration in
    if ltb ideal_start time then time else ideal_start

module _ {B : Type 0} (d : Doubles B) where
  -- The range in which a state of charge may be set.
  unfoldable pub in_range : B → Bool
  in_range soc = not (d.lt soc d.zero) && not (d.lt d.one soc)

  -- The charge that is left, of a robot whose battery drains or does not.
  unfoldable pub charge_left : Constraints B → B → B → B
  charge_left c soc change = if c.drain_battery then d.sub soc change else soc

module _ {O B : Type 0} (d : Doubles B) where
  unfoldable pub set_battery_soc : B → State O B → Attempt (State O B)
  unfolding in_range
  set_battery_soc soc s = do check (in_range d soc); gives (record s { battery_soc = some soc })

  -- `State().load_basic`.
  unfoldable pub load_basic : Start O → ℕ → B → Attempt (State O B)
  unfolding set_battery_soc
  load_basic start charging_waypoint soc = set_battery_soc soc (record {
    time = some start.time;
    waypoint = some start.waypoint;
    orientation = some start.orientation;
    charging_waypoint = some charging_waypoint;
    battery_soc = none;
  })

  module _ (travels : Travels O B) (c : Constraints B) where
    -- The way to the start waypoint: how long it takes, and the charge that is left.
    unfoldable pub travel_to : State O B → ℕ → B → Attempt (ℕ × B)
    unfolding is_at extract_plan_start charge_left
    travel_to s goal soc = if is_at s.waypoint goal then gives (0, soc) else (do
      start ← value (extract_plan_start s)
      travel ← or_refuse (travels start (to_waypoint goal))
      let left = charge_left d c soc travel.change_in_charge
      require (not (d.le left c.threshold_soc))
      gives (travel.duration, left))

    -- The way from the finish to the charger, which the charge has to be enough for.
    unfoldable pub way_back : State O B → ℕ → ℕ → B → Attempt (Unit {0})
    unfolding extract_plan_start
    way_back s finish charging_waypoint soc = if finish == charging_waypoint then gives tt else (do
      start ← value (extract_plan_start s)
      travel ← or_refuse (travels start (to_waypoint charging_waypoint))
      require (not (d.le (d.sub soc travel.change_in_charge) c.threshold_soc)))

  -- What the robot spends while it waits, unless it is at its charger.
  unfoldable pub wait_drain :
      {J : Type 0} → Parameters O B J → Constraints B → State O B → ℕ → ℕ → B → Attempt B
  unfolding is_at
  wait_drain p c s time wait_until soc =
      if c.drain_battery && ltb time wait_until
      then (do
        charging_waypoint ← value s.charging_waypoint
        if is_at s.waypoint charging_waypoint then gives soc else (do
          let left = d.sub soc (p.ambient_sink (d.to_seconds (wait_until - time)))
          require (not (d.le left c.threshold_soc))
          gives left))
      else gives soc
