-- ===== src/TravelEstimator.antt =====
-- rmf_task/src/rmf_task/Estimate.cpp: the estimates of travel, and their cache.
pub mod Apart
pub mod Owner
mod Examples
use rmf_task.Base.{
  ℕ, ◌+◌, ◌-◌, Bool, true, false, ◌&&◌, Option, none, some, if◌then◌else◌, ◌==◌, maybe, List, [],
  ◌∷◌,
}
use rmf_task.Requests.{Doubles, Start, Goal, Travel, Itinerary, Parameters}

-- A start waypoint and a goal waypoint.
abbrev pub Key : Type 0
Key = ℕ × ℕ

unfoldable pub equal_keys : Key → Key → Bool
equal_keys a b = (a.0 == b.0) && (a.1 == b.1)

abbrev pub key_of : {O : Type 0} → Start O × Goal O → Key
key_of call = (call.0.waypoint, call.1.waypoint)

-- The point at which a call of `estimate` is: it has not begun, it has found its key, it has
-- inserted its key, it has a result to write, or it has returned.
pub data Phase (R : Type 0) : Type 0 where
  calling reading computing : Phase R
  computed returned : Option R → Phase R

-- The cache, and the calls by their numbers.
pub record Estimator (R : Type 0) : Type 0 where
  pub cache : Key → Option (Option R)
  pub phase : ℕ → Phase R

module _ {R : Type 0} where
  unfoldable pub assign_value : Key → Option R → (Key → Option (Option R)) → Key → Option (Option R)
  unfolding equal_keys
  assign_value k v cache x = if equal_keys x k then some v else cache x

  unfoldable pub set_phase : ℕ → Phase R → (ℕ → Phase R) → ℕ → Phase R
  set_phase i p phase j = if j == i then p else phase j

  -- An estimator that has not been called.
  abbrev pub fresh_estimator : Estimator R
  fresh_estimator = record { cache = λ k. none; phase = λ i. calling }

module _ {O B J : Type 0} (d : Doubles B) (p : Parameters O B J) where
  -- The loop over the itineraries. The start time stays that of the whole plan.
  unfoldable pub travel_drain : ℕ → List (Itinerary J) → B → B
  travel_drain start_time [] drain = drain
  travel_drain start_time (i ∷ rest) drain = travel_drain start_time rest (
      d.add drain (
        d.add (p.motion_sink i.trajectory)
          (p.ambient_sink (d.to_seconds (i.finish_time - start_time)))))

  -- The time from the start to the end of the last itinerary.
  unfoldable pub travel_duration : ℕ → List (Itinerary J) → ℕ
  travel_duration start_time [] = 0
  travel_duration start_time (i ∷ []) = i.finish_time - start_time
  travel_duration start_time (i ∷ j ∷ rest) = travel_duration start_time (j ∷ rest)

  unfoldable pub calculate_result : Start O → Goal O → Option (Travel B)
  unfolding travel_drain travel_duration
  calculate_result start goal = maybe (p.plan start goal) none λ itineraries. some (record {
    duration = travel_duration start.time itineraries;
    change_in_charge = travel_drain start.time itineraries d.zero;
  })

  -- A call goes on to the next point at which another thread may run: the insertion and the writing
  -- hold the lock, the reading does not.
  unfoldable pub estimate_phase :
      Start O × Goal O → ℕ → Phase (Travel B) → Estimator (Travel B) → Estimator (Travel B)
  unfolding assign_value set_phase calculate_result
  estimate_phase call i calling e =
      maybe (e.cache (key_of call))
        (record {
          cache = assign_value (key_of call) none e.cache;
          phase = set_phase i computing e.phase;
        })
        (λ v. record e { phase = set_phase i reading e.phase })
  estimate_phase call i reading e = record e {
    phase = set_phase i (returned (maybe (e.cache (key_of call)) none (λ v. v))) e.phase;
  }
  estimate_phase call i computing e = record e {
    phase = set_phase i (computed (calculate_result call.0 call.1)) e.phase;
  }
  estimate_phase call i (computed r) e = record {
    cache = assign_value (key_of call) r e.cache;
    phase = set_phase i (returned r) e.phase;
  }
  estimate_phase call i (returned r) e = e

  -- The calls go on in the order of a schedule.
  unfoldable pub estimate_run :
      (ℕ → Start O × Goal O) → List ℕ → Estimator (Travel B) → Estimator (Travel B)
  unfolding estimate_phase
  estimate_run calls [] e = e
  estimate_run calls (i ∷ schedule) e =
      estimate_run calls schedule (estimate_phase (calls i) i (e.phase i) e)
