-- ===== src/TravelEstimator/Examples.antt =====
-- Calls of an estimator, and the witness.
use rmf_task.Base.{ℕ, ◌+◌, ◌-◌, ◌*◌, ◌≡◌, refl, none, some, ltb, leb, [], ◌∷◌}
use Prim.Native.Nat.{◌/◌}
use rmf_task.Requests.{Doubles, Start, Goal, to_waypoint, Parameters}
use rmf_task.TravelEstimator.{
  equal_keys, returned, fresh_estimator, assign_value, set_phase, travel_drain, travel_duration,
  calculate_result, estimate_phase, estimate_run,
}
use rmf_task.TravelEstimator.Owner.{Owned, estimate_run-Owned}

abbrev thousandths : Doubles ℕ
thousandths = record {
  zero = 0;
  one = 1000;
  milli = 1;
  hour = 3600;
  add = λ a b. a + b;
  sub = λ a b. a - b;
  mul = λ a b. a * b;
  div = λ a b. a / b;
  le = leb;
  lt = ltb;
  of_size = λ n. n;
  to_seconds = λ n. n;
  from_seconds = λ n. n;
}

-- Every plan has two itineraries, of ten seconds each.
abbrev parameters : Parameters ℕ ℕ ℕ
parameters = record {
  plan = λ s g. some (
      record { trajectory = 1; finish_time = s.time + 10 }
      ∷ record { trajectory = 2; finish_time = s.time + 20 }
      ∷ []);
  motion_sink = λ j. j;
  ambient_sink = λ seconds. seconds;
  tool_sink = none;
  capacity = 2;
  charging_current = 1;
  orientation_zero = 0;
}

abbrev calls : ℕ → Start ℕ × Goal ℕ
calls i = (record { time = 100; waypoint = 1; orientation = 0 }, to_waypoint 2)

-- Twenty seconds, in which the ambient sink counts as over thirty.
result_two :
    calculate_result thousandths parameters (calls 0).0 (calls 0).1
    ≡ some (record { duration = 20; change_in_charge = 33 })
unfolding calculate_result travel_drain travel_duration
result_two = refl

-- The call that comes second answers that there is no way, while the first computes it.
second_none :
    (estimate_run thousandths parameters calls (0 ∷ 1 ∷ 1 ∷ []) fresh_estimator).phase 1
    ≡ returned none
unfolding estimate_run estimate_phase set_phase assign_value equal_keys calculate_result
    travel_drain travel_duration
second_none = refl

second_late :
    (estimate_run thousandths parameters calls (0 ∷ 0 ∷ 0 ∷ 1 ∷ 1 ∷ []) fresh_estimator).phase 1
    ≡ returned (some (record { duration = 20; change_in_charge = 33 }))
unfolding estimate_run estimate_phase set_phase assign_value equal_keys calculate_result
    travel_drain travel_duration
second_late = refl

estimate_run-Owned_example :
    Owned thousandths parameters calls
      (1, 2)
      (estimate_run thousandths parameters calls (0 ∷ 1 ∷ 1 ∷ 0 ∷ 0 ∷ []) fresh_estimator)
estimate_run-Owned_example =
    estimate_run-Owned thousandths parameters calls (0 ∷ 1 ∷ 1 ∷ 0 ∷ 0 ∷ []) (1, 2)
