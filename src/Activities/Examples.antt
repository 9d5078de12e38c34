-- ===== src/Activities/Examples.antt =====
-- Activities of a concrete robot, and the witness.
use Prim.Native.Nat.{◌/◌}
use rmf_task.Base.{
  ℕ, ◌+◌, ◌-◌, ◌*◌, ◌≡◌, refl, true, false, none, some, ltb, leb, ◌==◌, if◌then◌else◌, [], ◌∷◌,
  arith,
}
use rmf_task.Attempt.{throws, gives}
use rmf_task.Requests.{
  Doubles, to_waypoint, Travels, State, Constraints, Finish, set_battery_soc, in_range,
  extract_plan_start,
}
use rmf_task.Requests.Settings.{project_plan_start}
use rmf_task.Activities.{
  Services, Activity, go_to_place, perform_action, placeholder, sequence, no_more, first,
  payload_transfer, ActivityModel, go_model, wait_model, action_model, idle_model, sequence_model,
  no_models, model, invariant_finish_state, invariant_duration, estimate_duration, compare_goal,
  select_goal, make_go_model, go_to_goal, goals_on_map, wait_battery_drain, action_battery_drain,
  expected_finish_state, spend, require_charge, estimate_go, estimate_wait,
}
use rmf_task.Activities.Estimates.{make_model, estimate_activity}
use rmf_task.Activities.Spec.{Answers, takes, is_checked, Reliable, IsReady, ready, Finishes}
use rmf_task.Activities.Chain.{estimate_activity_lem}

-- Charges in thousandths.
abbrev thousandths : Doubles ℕ
thousandths = record {
  zero = 0;
  one = 1000;
  milli = 1;
  hour = 3600;
  add = λ a b. a + b;
  sub = λ a b. a - b;
  mul = λ a b. a * b;
  div = λ a b. a / b;
  le = leb;
  lt = ltb;
  of_size = λ n. n;
  to_seconds = λ n. n;
  from_seconds = λ n. n;
}

-- There is no way to waypoint 9.
abbrev services : Services ℕ ℕ
services = record {
  setup = λ s g. record { disconnected = g.waypoint == 9; ideal_cost = some (10 * g.waypoint) };
  same_map = λ v w. true;
  ambient_sink = some (λ seconds. seconds);
  tool_sink = some (λ seconds. 2 * seconds);
  uninitialized = 77;
  orientation_zero = 0;
}

abbrev travels : Travels ℕ ℕ
travels s g =
    if g.waypoint == 9 then none else some (record { duration = 7; change_in_charge = 100 })

abbrev constraints : Constraints ℕ
constraints = record { threshold_soc = 200; recharge_soc = 1000; drain_battery = true }

abbrev robot : State ℕ ℕ
robot = record {
  time = some 20;
  waypoint = some 1;
  orientation = some 0;
  charging_waypoint = some 5;
  battery_soc = some 900;
}

reliable : Reliable thousandths services travels
unfolding in_range
reliable = record {
  zero_in_range = refl;
  lt_asym = λ a b h. ground (arith, h);
  sub_below = λ a b h h'. ground (arith, h);
  add_nonneg = λ a b h h'. ground arith;
  has_ambient_sink = refl;
  ambient_nonneg = λ sink x e. ground arith;
  tool_nonneg = λ sink x e. ground arith;
  travel_nonneg = λ start goal t e. ground arith;
}

robot-IsReady : IsReady thousandths robot
unfolding in_range
robot-IsReady = ready 20 1 0 900 refl refl refl refl refl

-- The goal with the shortest travel time.
near_goal :
    make_model thousandths services
      (go_to_place (to_waypoint 4 ∷ to_waypoint 2 ∷ to_waypoint 3 ∷ []) true)
      robot
    ≡ gives (go_model (record robot { waypoint = some 2; orientation = none }) 20 (to_waypoint 2))
unfolding make_model make_go_model select_goal estimate_duration compare_goal project_plan_start
    goals_on_map go_to_goal
near_goal = refl

-- A goal that cannot be reached comes after one that can.
far_goal_throws :
    make_model thousandths services (go_to_place (to_waypoint 4 ∷ to_waypoint 9 ∷ []) false) robot
    ≡ throws
unfolding make_model make_go_model select_goal estimate_duration compare_goal project_plan_start
    goals_on_map go_to_goal
far_goal_throws = refl

-- The other way around, the goal that cannot be reached is passed over.
far_goal_first :
    make_model thousandths services (go_to_place (to_waypoint 9 ∷ to_waypoint 4 ∷ []) false) robot
    ≡ gives (go_model (record robot { waypoint = some 4; orientation = none }) 40 (to_waypoint 4))
unfolding make_model make_go_model select_goal estimate_duration compare_goal project_plan_start
    goals_on_map go_to_goal
far_goal_first = refl

-- The robot turns to the goal's orientation, which the estimate does not say.
turned_goal :
    estimate_activity thousandths constraints travels
      (go_model
        (record robot { waypoint = some 2; orientation = some 180 })
        20
        (record { waypoint = 2; orientation = some 180 }))
      robot
      0
    ≡ gives (record {
      finish_state = record robot { time = some 27; waypoint = some 2; battery_soc = some 800 };
      wait_until = 20;
    })
unfolding estimate_activity estimate_go spend require_charge set_battery_soc in_range
    extract_plan_start
turned_goal = refl

-- A wait that begins at 50 at the earliest and takes 5 ends at 25.
early_wait :
    estimate_activity thousandths constraints travels (wait_model robot 5 5) robot 50
    ≡ gives (record {
      finish_state = record robot { time = some 25; battery_soc = some 895 };
      wait_until = 50;
    })
unfolding estimate_activity estimate_wait spend require_charge set_battery_soc in_range
early_wait = refl

-- The drain of an action without an ambient sink has no value.
action_drain_unset :
    action_battery_drain thousandths (record services { ambient_sink = none }) 10 true ≡ 97
unfolding action_battery_drain
action_drain_unset = refl

abbrev errand : Activity ℕ
errand = sequence (
    first (payload_transfer (to_waypoint 2) 30)
      (first placeholder (first (perform_action 10 true none) no_more)))

abbrev there : State ℕ ℕ
there = record robot { waypoint = some 2; orientation = none }

abbrev errand_model : ActivityModel ℕ ℕ
errand_model =
    sequence_model there
      (model
        (sequence_model there
          (model (go_model there 20 (to_waypoint 2)) (model (wait_model there 30 30) no_models)) 50)
        (model (idle_model there) (model (action_model there 30 10) no_models)))
      60

errand_made : make_model thousandths services errand robot ≡ gives errand_model
unfolding make_model make_go_model select_goal estimate_duration compare_goal project_plan_start
    goals_on_map go_to_goal wait_battery_drain action_battery_drain expected_finish_state
    invariant_finish_state invariant_duration
errand_made = refl

estimate_activity_lem_example :
    Answers
      (λ (e : Finish ℕ ℕ).
        Finishes thousandths constraints
          (takes errand)
          (is_checked errand)
          robot
          (invariant_finish_state errand_model)
          e.finish_state)
      (estimate_activity thousandths constraints travels errand_model robot 0)
estimate_activity_lem_example =
    estimate_activity_lem thousandths services constraints travels reliable errand robot
      errand_model robot 0 errand_made robot-IsReady (λ w h. h)
