-- ===== src/Requests/Spec.antt =====
-- What an estimate of a request's finish is, and why there may be none: a description that is
-- independent of the code.
use rmf_task.Base.{
  ℕ, ◌+◌, ◌-◌, max, ◌≡◌, ◌⊎◌, Bool, true, false, ◌&&◌, Option, none, some, is_some, if◌then◌else◌,
  ltb,
}
use rmf_task.Requests.{
  Doubles, Start, to_waypoint, Travel, Travels, State, Constraints, Parameters, Finish, Model,
  is_at, extract_plan_start, in_range,
}

-- The state has all that the estimates need.
abbrev pub is_complete : {O B : Type 0} → State O B → Bool
is_complete s =
    is_some s.time
    && (is_some s.waypoint
        && (is_some s.orientation && (is_some s.charging_waypoint && is_some s.battery_soc)))

module _ {O B J : Type 0} (d : Doubles B) (p : Parameters O B J) (travels : Travels O B)
    (c : Constraints B) where
  -- The state of charge is at the threshold or below it.
  abbrev pub Low : B → Type 0
  Low soc = d.le soc c.threshold_soc ≡ true

  abbrev pub High : B → Type 0
  High soc = d.le soc c.threshold_soc ≡ false

  -- The way to a waypoint: how long it takes, and the charge that is left.
  pub data Drives (s : State O B) (w : ℕ) (soc : B) : ℕ × B → Type 0 where
    at_start : is_at s.waypoint w ≡ true → Drives s w soc (0, soc)
    drives :
        (start : Start O) (t : Travel B)
        → extract_plan_start s ≡ some start
        → travels start (to_waypoint w) ≡ some t
        → Drives s w soc
            (t.duration, (if c.drain_battery then d.sub soc t.change_in_charge else soc))

  -- The wait from a time to another: the charge that is left.
  pub data Waits (s : State O B) (time wait_until : ℕ) (soc : B) : B → Type 0 where
    charged :
        (c.drain_battery && ltb time wait_until ≡ false)
          ⊎ ((w : ℕ) × (s.charging_waypoint ≡ some w) × (is_at s.waypoint w ≡ true))
        → Waits s time wait_until soc soc
    waits :
        c.drain_battery ≡ true
        → Waits s time wait_until soc
            (d.sub soc (p.ambient_sink (d.to_seconds (wait_until - time))))

  module _ (s : State O B) (m : Model B) where
    -- How long the way to the start takes, and the charge there.
    pub data Arrives : ℕ × B → Type 0 where
      arrives :
          {soc : B} {r : ℕ × B}
          → s.battery_soc ≡ some soc
          → Drives s m.start_waypoint soc r
          → Arrives r

    -- The duration of the way, when the robot sets out, and the charge after the wait.
    pub data Waited (v w : ℕ) (soc : B) : Type 0 where
      waited :
          (time : ℕ) (there : B)
          → s.time ≡ some time
          → w ≡ max time (m.earliest_start_time - v)
          → Arrives (v, there)
          → Waits s time w there soc
          → Waited v w soc

    -- The charge after the invariant part.
    pub data Done (v w : ℕ) (left : B) : Type 0 where
      done :
          (soc : B)
          → Waited v w soc
          → left ≡ (if c.drain_battery then d.sub soc m.invariant_battery_drain else soc)
          → Done v w left

    -- The way back to the charger begins at the finish waypoint, when the request is finished.
    pub data Back (v w : ℕ) (left : B) : Option (Travel B) → Type 0 where
      back :
          (o : O) (charging_waypoint : ℕ) {t : Option (Travel B)}
          → s.orientation ≡ some o
          → s.charging_waypoint ≡ some charging_waypoint
          → travels
              (record {
                time = w + v + m.invariant_duration;
                waypoint = m.finish_waypoint;
                orientation = o;
              })
              (to_waypoint charging_waypoint)
            ≡ t
          → Back v w left t

    -- Why an estimate throws: the state lacks something, or its charge or the one that is left is
    -- no state of charge.
    pub data Broken : Type 0 where
      incomplete : is_complete s ≡ false → Broken
      no_charge : (soc : B) → s.battery_soc ≡ some soc → in_range d soc ≡ false → Broken
      out_of_range : (v w : ℕ) (left : B) → Done v w left → in_range d left ≡ false → Broken

    -- Why there is no estimate: there is no way to the start, or back to the charger, or the charge
    -- is at the threshold at the start, after the wait, at the end, or at the charger.
    pub data Refused : Type 0 where
      no_route :
          (start : Start O)
          → extract_plan_start s ≡ some start
          → travels start (to_waypoint m.start_waypoint) ≡ none
          → Refused
      low_there : (v : ℕ) (soc : B) → Arrives (v, soc) → Low soc → Refused
      low_waited : (v w : ℕ) (soc : B) → Waited v w soc → Low soc → Refused
      low_done : (v w : ℕ) (left : B) → Done v w left → Low left → Refused
      no_way_back : (v w : ℕ) (left : B) → Done v w left → Back v w left none → Refused
      low_back :
          (v w : ℕ) (left : B) (t : Travel B)
          → Done v w left
          → Back v w left (some t)
          → Low (d.sub left t.change_in_charge)
          → Refused

    -- The charge at the end is above the threshold, and so is the one at the charger.
    pub data CanReturn (v w : ℕ) (left : B) : Type 0 where
      undrained : c.drain_battery ≡ false → CanReturn v w left
      parked : High left → s.charging_waypoint ≡ some m.finish_waypoint → CanReturn v w left
      returns :
          (t : Travel B)
          → High left
          → Back v w left (some t)
          → High (d.sub left t.change_in_charge)
          → CanReturn v w left

    -- An estimate: the robot sets out at its time or so as to arrive at the earliest start, and finishes
    -- after the way and the invariant duration at the finish waypoint, with the charge that is left.
    pub data IsEstimate (e : Finish O B) : Type 0 where
      is_estimate :
          (v : ℕ) (left : B)
          → Done v e.wait_until left
          → e.finish_state ≡ record s {
            time = some (e.wait_until + v + m.invariant_duration);
            waypoint = some m.finish_waypoint;
            battery_soc = some left;
          }
          → CanReturn v e.wait_until left
          → IsEstimate e
