-- ===== src/Activities.antt =====
-- rmf_task_sequence/src/rmf_task_sequence/events/: the models of what robots do, GoToPlace, WaitFor,
-- PerformAction and Placeholder, and rmf_task_sequence/src/rmf_task_sequence/Activity.cpp: their
-- sequences.
pub mod Estimates
pub mod Spec
pub mod Parts
pub mod Singles
pub mod Chain
mod Examples
use rmf_task.Base.{
  ℕ, ◌+◌, ◌-◌, max, ltb, Bool, true, false, not, Option, none, some, is_some, maybe, if◌then◌else◌,
  List, [], ◌∷◌,
}
use rmf_task.Attempt.{Attempt, throws, refuses, gives, ◌>>=◌, ◌>>◌, value, or_refuse, require}
use rmf_task.Requests.{
  Doubles, Start, Goal, Travel, Travels, State, Constraints, Finish, extract_plan_start,
  set_battery_soc,
}
use rmf_task.Requests.Settings.{project_plan_start}

-- What `Planner::setup` answers.
pub record Setup (B : Type 0) : Type 0 where
  pub disconnected : Bool
  pub ideal_cost : Option B

-- `Parameters`: the planner with its graph, and the power sinks, each of which may be missing here.
-- `uninitialized` is the value that a double has before it is assigned.
pub record Services (O B : Type 0) : Type 0 where
  pub setup : Start O → Goal O → Setup B
  pub same_map : ℕ → ℕ → Bool
  pub ambient_sink : Option (B → B)
  pub tool_sink : Option (B → B)
  pub uninitialized : B
  pub orientation_zero : O

-- The descriptions of activities.
mutual
  pub data Activity (O : Type 0) : Type 0 where
    go_to_place : List (Goal O) → Bool → Activity O
    wait_for : ℕ → Activity O
    perform_action : ℕ → Bool → Option (Goal O) → Activity O
    placeholder : Activity O
    sequence : Activities O → Activity O

  pub data Activities (O : Type 0) : Type 0 where
    no_more : Activities O
    first : Activity O → Activities O → Activities O

-- A pickup and a dropoff go to a place and wait.
abbrev pub payload_transfer : {O : Type 0} → Goal O → ℕ → Activity O
payload_transfer location duration =
    sequence (first (go_to_place (location ∷ []) false) (first (wait_for duration) no_more))

mutual
  -- The models, each with its invariant finish state; then come the battery drain of a wait or an
  -- action, the invariant duration, and the goal of a way.
  pub data ActivityModel (O B : Type 0) : Type 0 where
    go_model : State O B → ℕ → Goal O → ActivityModel O B
    wait_model : State O B → B → ℕ → ActivityModel O B
    action_model : State O B → B → ℕ → ActivityModel O B
    idle_model : State O B → ActivityModel O B
    sequence_model : State O B → Models O B → ℕ → ActivityModel O B

  pub data Models (O B : Type 0) : Type 0 where
    no_models : Models O B
    model : ActivityModel O B → Models O B → Models O B

module _ {O B : Type 0} where
  unfoldable pub invariant_finish_state : ActivityModel O B → State O B
  invariant_finish_state (go_model s duration goal) = s
  invariant_finish_state (wait_model s drain duration) = s
  invariant_finish_state (action_model s drain duration) = s
  invariant_finish_state (idle_model s) = s
  invariant_finish_state (sequence_model s ms duration) = s

  unfoldable pub invariant_duration : ActivityModel O B → ℕ
  invariant_duration (go_model s duration goal) = duration
  invariant_duration (wait_model s drain duration) = duration
  invariant_duration (action_model s drain duration) = duration
  invariant_duration (idle_model s) = 0
  invariant_duration (sequence_model s ms duration) = duration

-- The goal that has been selected so far, with its travel time.
pub record Choice (O : Type 0) : Type 0 where
  pub shortest_travel_time : Option ℕ
  pub selected_goal : Goal O

module _ {O B : Type 0} (d : Doubles B) (v : Services O B) where
  -- Of a state that has a waypoint.
  unfoldable pub estimate_duration : State O B → Goal O → Attempt (Option ℕ)
  unfolding project_plan_start
  estimate_duration s goal = do
    start ← value (project_plan_start v.orientation_zero 0 s)
    let result = v.setup start goal
    gives (
        if result.disconnected
        then none
        else maybe result.ideal_cost none λ cost. some (d.from_seconds cost))

  unfoldable pub compare_goal : Choice O → Goal O → Option ℕ → Attempt (Choice O)
  compare_goal c goal duration = elim c.shortest_travel_time [
    | none ↦ gives (record { shortest_travel_time = duration; selected_goal = goal })
    | some shortest ↦ value duration >>= λ t. gives (
        if ltb t shortest
        then record { shortest_travel_time = some t; selected_goal = goal }
        else c)
  ]

  -- The loop over the goals.
  unfoldable pub select_goal : State O B → List (Goal O) → Choice O → Attempt (Choice O)
  unfolding estimate_duration compare_goal
  select_goal s [] c = gives c
  select_goal s (goal ∷ goals) c = do
    duration ← estimate_duration s goal
    c' ← compare_goal c goal duration
    select_goal s goals c'

  -- The model that goes to the selected goal.
  unfoldable pub go_to_goal : State O B → Choice O → ActivityModel O B
  go_to_goal s c =
      go_model
        (record s {
          waypoint = some c.selected_goal.waypoint;
          orientation = c.selected_goal.orientation;
        })
        (maybe c.shortest_travel_time 0 (λ t. t)) c.selected_goal

  -- `GoToPlace::Model::make`.
  unfoldable pub make_go_model : State O B → List (Goal O) → Attempt (ActivityModel O B)
  unfolding select_goal go_to_goal
  make_go_model s [] = refuses
  make_go_model s (goal ∷ goals) = do
    let unselected : Choice O = record { shortest_travel_time = none; selected_goal = goal }
    c ←
        (if is_some s.waypoint
          then (do
            selected ← select_goal s (goal ∷ goals) unselected
            require (is_some selected.shortest_travel_time)
            gives selected)
          else gives unselected)
    gives (go_to_goal s c)

  -- The goals on the map of a waypoint.
  unfoldable pub goals_on_map : ℕ → List (Goal O) → List (Goal O)
  goals_on_map w [] = []
  goals_on_map w (goal ∷ goals) =
      let rest = goals_on_map w goals in if v.same_map goal.waypoint w then goal ∷ rest else rest

  -- The drain of a wait.
  unfoldable pub wait_battery_drain : ℕ → B
  wait_battery_drain duration = maybe v.ambient_sink d.zero λ sink. sink (d.to_seconds duration)

  -- The drain of an action.
  unfoldable pub action_battery_drain : ℕ → Bool → B
  action_battery_drain duration use_tool_sink =
      let drain = maybe v.ambient_sink v.uninitialized (λ sink. sink (d.to_seconds duration)) in
      if use_tool_sink
      then maybe v.tool_sink drain (λ sink. d.add drain (sink (d.to_seconds duration)))
      else drain

  -- The finish state of an action.
  unfoldable pub expected_finish_state : Option (Goal O) → State O B → State O B
  expected_finish_state none s = s
  expected_finish_state (some goal) s = record s {
    waypoint = some goal.waypoint;
    orientation = maybe goal.orientation s.orientation (λ o. some o);
  }

module _ {O B : Type 0} (d : Doubles B) (c : Constraints B) where
  -- What takes charge of a robot, down to nothing left.
  unfoldable pub spend : B → State O B → Attempt (State O B)
  unfolding set_battery_soc
  spend drain s =
      if c.drain_battery
      then (do
        soc ← value s.battery_soc
        let new_battery_soc = d.sub soc drain
        require (not (d.lt new_battery_soc d.zero))
        set_battery_soc d new_battery_soc s)
      else gives s

  unfoldable pub spend_at_most : B → State O B → Attempt (State O B)
  unfolding set_battery_soc
  spend_at_most drain s =
      if c.drain_battery
      then (do
        soc ← value s.battery_soc
        let left = d.sub soc drain
        set_battery_soc d (if d.lt d.zero left then left else d.zero) s)
      else gives s

  unfoldable pub require_charge : State O B → Attempt (Unit {0})
  require_charge s = do soc ← value s.battery_soc; require (not (d.le soc c.threshold_soc))

  -- `GoToPlace::Model::estimate_finish`.
  unfoldable pub estimate_go : Travels O B → Goal O → State O B → ℕ → Attempt (Finish O B)
  unfolding extract_plan_start spend require_charge
  estimate_go travels goal s earliest_arrival_time = do
    start ← value (extract_plan_start s)
    travel ← or_refuse (travels start goal)
    time ← value s.time
    let arrival_time = max (time + travel.duration) earliest_arrival_time
    let wait_until_time = arrival_time - travel.duration
    finish ← spend travel.change_in_charge (record s {
      waypoint = some goal.waypoint;
      time = some (wait_until_time + travel.duration);
    })
    require_charge finish
    gives (record { finish_state = finish; wait_until = wait_until_time })

  -- `WaitFor::Model::estimate_finish`.
  unfoldable pub estimate_wait : B → ℕ → State O B → ℕ → Attempt (Finish O B)
  unfolding spend require_charge
  estimate_wait drain duration s earliest_arrival_time = do
    time ← value s.time
    finish ← spend drain (record s { time = some (time + duration) })
    require_charge finish
    gives (record { finish_state = finish; wait_until = earliest_arrival_time })

  -- `PerformAction::Model::estimate_finish`.
  unfoldable pub estimate_action : State O B → B → ℕ → State O B → ℕ → Attempt (Finish O B)
  unfolding spend_at_most require_charge
  estimate_action invariant drain duration s earliest_arrival_time = do
    time ← value s.time
    finish ← spend_at_most drain (record s {
      time = some (time + duration);
      waypoint = maybe invariant.waypoint s.waypoint (λ w. some w);
      orientation = maybe invariant.orientation s.orientation (λ o. some o);
    })
    require_charge finish
    gives (record { finish_state = finish; wait_until = earliest_arrival_time })
