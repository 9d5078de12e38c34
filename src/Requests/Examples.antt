-- ===== src/Requests/Examples.antt =====
-- Requests of a concrete robot, and the witnesses.
use Prim.Native.Nat.{◌/◌}
use rmf_task.Base.{
  ℕ, ◌+◌, ◌-◌, ◌*◌, ◌≡◌, refl, true, Option, none, some, ltb, leb, ◌==◌, if◌then◌else◌, List, [],
  ◌∷◌,
}
use rmf_task.Attempt.{throws, refuses, gives, Ensures}
use rmf_task.Requests.{
  Doubles, Start, Goal, Travels, State, Constraints, Itinerary, Parameters, Model, set_battery_soc,
  in_range, load_basic, extract_plan_start, is_at, wait_from, charge_left, travel_to, way_back,
  wait_drain,
}
use rmf_task.Requests.Delivery.{deliver, make_delivery, walk_itineraries}
use rmf_task.Requests.Loop.{loop, make_loop, loop_totals, ways}
use rmf_task.Requests.Clean.{clean, make_cleaning}
use rmf_task.Requests.ChargeBattery.{charge_battery}
use rmf_task.Requests.Spec.{Broken, Refused, IsEstimate}
use rmf_task.Requests.Estimates.{delivery, estimate_finish, estimate_finish_lem}

-- Charges in thousandths; an hour has sixty seconds here.
abbrev thousandths : Doubles ℕ
thousandths = record {
  zero = 0;
  one = 1000;
  milli = 1;
  hour = 60;
  add = λ a b. a + b;
  sub = λ a b. a - b;
  mul = λ a b. a * b;
  div = λ a b. a / b;
  le = leb;
  lt = ltb;
  of_size = λ n. n;
  to_seconds = λ n. n;
  from_seconds = λ n. n;
}

-- A way of one edge takes as long as the waypoints are apart.
abbrev plan : Start ℕ → Goal ℕ → Option (List (Itinerary ℕ))
plan s g = some (record { trajectory = 10; finish_time = s.time + g.waypoint } ∷ [])

abbrev parameters : Parameters ℕ ℕ ℕ
parameters = record {
  plan = plan;
  motion_sink = λ j. j;
  ambient_sink = λ seconds. seconds;
  tool_sink = some (λ seconds. 2 * seconds);
  capacity = 2;
  charging_current = 1;
  orientation_zero = 0;
}

abbrev travels : Travels ℕ ℕ
travels s g =
    if g.waypoint == 9 then none else some (record { duration = 7; change_in_charge = 100 })

abbrev constraints : Constraints ℕ
constraints = record { threshold_soc = 200; recharge_soc = 1000; drain_battery = true }

abbrev robot : ℕ → State ℕ ℕ
robot soc = record {
  time = some 20;
  waypoint = some 1;
  orientation = some 0;
  charging_waypoint = some 5;
  battery_soc = some soc;
}

abbrev job : Model ℕ
job = record {
  earliest_start_time = 40;
  start_waypoint = 2;
  finish_waypoint = 3;
  invariant_duration = 6;
  invariant_battery_drain = 50;
}

-- The robot sets out at 33, 13 after its time.
deliver_full :
    deliver thousandths parameters travels constraints job (robot 900)
    ≡ gives (record {
      finish_state = record (robot 900) {
        time = some 46;
        waypoint = some 3;
        battery_soc = some 737;
      };
      wait_until = 33;
    })
unfolding deliver load_basic set_battery_soc in_range travel_to is_at extract_plan_start charge_left
    wait_from wait_drain way_back
deliver_full = refl

-- It would not come back to its charger.
loop_low : loop thousandths parameters travels constraints job (robot 450) ≡ refuses
unfolding loop load_basic set_battery_soc in_range travel_to is_at extract_plan_start charge_left
    wait_from wait_drain way_back
loop_low = refl

clean_lost :
    clean thousandths parameters travels constraints job (record (robot 900) { waypoint = none })
    ≡ throws
unfolding clean load_basic set_battery_soc in_range travel_to is_at extract_plan_start charge_left
    wait_from wait_drain way_back
clean_lost = refl

charge_far :
    charge_battery thousandths parameters travels constraints (robot 400)
    ≡ gives (record {
      finish_state = record (robot 900) {
        time = some 84027;
        waypoint = some 5;
        battery_soc = some 1000;
      };
      wait_until = 20;
    })
unfolding charge_battery load_basic set_battery_soc in_range travel_to is_at extract_plan_start
    charge_left
charge_far = refl

charge_full :
    charge_battery thousandths parameters travels constraints
      (record (robot 999) { waypoint = some 5 })
    ≡ refuses
unfolding charge_battery load_basic set_battery_soc in_range travel_to is_at extract_plan_start
    charge_left
charge_full = refl

-- No loop at all counts as very many.
ways_none : ways 0 ≡ 18446744073709551615
unfolding ways
ways_none = refl

make_loop_two :
    make_loop thousandths parameters 40
      (record { start_waypoint = 2; finish_waypoint = 3; num_loops = 2 })
    ≡ gives (record {
      earliest_start_time = 40;
      start_waypoint = 2;
      finish_waypoint = 3;
      invariant_duration = 9;
      invariant_battery_drain = 39;
    })
unfolding make_loop loop_totals ways walk_itineraries
make_loop_two = refl

make_delivery_there :
    make_delivery thousandths parameters 40
      (record { pickup_waypoint = 2; pickup_wait = 5; dropoff_waypoint = 3; dropoff_wait = 4 })
    ≡ gives (record {
      earliest_start_time = 40;
      start_waypoint = 2;
      finish_waypoint = 3;
      invariant_duration = 12;
      invariant_battery_drain = 22;
    })
unfolding make_delivery walk_itineraries
make_delivery_there = refl

make_cleaning_untooled :
    make_cleaning thousandths
      (record parameters { tool_sink = none })
      40
      (record {
        start_waypoint = 2;
        end_waypoint = 3;
        cleaning_path = 10;
        begin_time = 0;
        finish_time = 5;
      })
    ≡ throws
unfolding make_cleaning
make_cleaning_untooled = refl

estimate_finish_lem_example :
    Ensures
      (Broken thousandths parameters travels constraints (robot 900) job)
      (Refused thousandths parameters travels constraints (robot 900) job)
      (IsEstimate thousandths parameters travels constraints (robot 900) job)
      (estimate_finish thousandths parameters travels constraints delivery job (robot 900))
estimate_finish_lem_example =
    estimate_finish_lem thousandths parameters travels constraints delivery job (robot 900)
