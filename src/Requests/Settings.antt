-- ===== src/Requests/Settings.antt =====
-- rmf_task/src/rmf_task/Constraints.cpp and State.cpp: how constraints and states are set.
use rmf_task.Base.{ℕ, Bool, Option, none, some, maybe}
use rmf_task.Attempt.{Attempt, gives, ◌>>◌, check}
use rmf_task.Requests.{Doubles, Start, State, Constraints, in_range}

module _ {B : Type 0} (d : Doubles B) where
  unfoldable pub make_constraints : B → B → Bool → Attempt (Constraints B)
  unfolding in_range
  make_constraints threshold_soc recharge_soc drain_battery = do
    check (in_range d threshold_soc)
    check (in_range d recharge_soc)
    gives (record {
      threshold_soc = threshold_soc;
      recharge_soc = recharge_soc;
      drain_battery = drain_battery;
    })

  unfoldable pub set_threshold_soc : B → Constraints B → Attempt (Constraints B)
  unfolding in_range
  set_threshold_soc threshold_soc c = do
    check (in_range d threshold_soc)
    gives (record c { threshold_soc = threshold_soc })

  unfoldable pub set_recharge_soc : B → Constraints B → Attempt (Constraints B)
  unfolding in_range
  set_recharge_soc recharge_soc c = do
    check (in_range d recharge_soc)
    gives (record c { recharge_soc = recharge_soc })

module _ {O B : Type 0} where
  -- Of a state without a waypoint there is no plan start; an orientation or a time that it lacks is
  -- the given one.
  unfoldable pub project_plan_start : O → ℕ → State O B → Option (Start O)
  project_plan_start orientation time s = maybe s.waypoint none λ w. some (record {
    time = maybe s.time time (λ t. t);
    waypoint = w;
    orientation = maybe s.orientation orientation (λ o. o);
  })

  unfoldable pub load : Start O → State O B → State O B
  load location s = record s {
    time = some location.time;
    waypoint = some location.waypoint;
    orientation = some location.orientation;
  }
