-- ===== src/Activities/Estimates.antt =====
-- The models of activities and their estimates, with those of sequences.
use rmf_task.Base.{ℕ, ◌+◌, Option, none, some, maybe, if◌then◌else◌}
use rmf_task.Attempt.{Attempt, gives, ◌>>=◌, or_else}
use rmf_task.Requests.{Doubles, Travels, State, Constraints, Finish}
use rmf_task.Activities.{
  Services, Activity, Activities, go_to_place, wait_for, perform_action, placeholder, sequence,
  no_more, first, ActivityModel, Models, go_model, wait_model, action_model, idle_model,
  sequence_model, no_models, model, invariant_finish_state, invariant_duration, make_go_model,
  goals_on_map, wait_battery_drain, action_battery_drain, expected_finish_state, estimate_go,
  estimate_wait, estimate_action,
}

-- The models of a sequence, with its finish state and duration.
pub record Made (O B : Type 0) : Type 0 where
  pub models : Models O B
  pub finish_state : State O B
  pub duration : ℕ

module _ {O B : Type 0} (d : Doubles B) (v : Services O B) where
  -- `Activity::Description::make_model`; the null pointer is a refusal.
  unfoldable mutual
    unfolding make_go_model goals_on_map wait_battery_drain action_battery_drain
        expected_finish_state invariant_finish_state invariant_duration

    pub make_model : Activity O → State O B → Attempt (ActivityModel O B)
    make_model (go_to_place one_of prefer_same_map) s =
        let any = make_go_model d v s one_of in
        if prefer_same_map
        then maybe s.waypoint any
            (λ w. or_else (make_go_model d v s (goals_on_map d v w one_of)) any)
        else any
    make_model (wait_for duration) s =
        gives (wait_model s (wait_battery_drain d v duration) duration)
    make_model (perform_action duration use_tool_sink location) s = gives (
        action_model (expected_finish_state d v location s)
          (action_battery_drain d v duration use_tool_sink) duration)
    make_model placeholder s = gives (idle_model s)
    make_model (sequence activities) s = do
      made ← make_models activities s 0
      gives (sequence_model made.finish_state made.models made.duration)

    -- The loop of `SequenceModel::make`.
    pub make_models : Activities O → State O B → ℕ → Attempt (Made O B)
    make_models no_more s duration =
        gives (record { models = no_models; finish_state = s; duration = duration })
    make_models (first a rest) s duration = do
      m ← make_model a s
      made ← make_models rest (invariant_finish_state m) (duration + invariant_duration m)
      gives (record made { models = model m made.models })

module _ {O B : Type 0} (d : Doubles B) (c : Constraints B) (travels : Travels O B) where
  -- `Activity::Model::estimate_finish`.
  unfoldable mutual
    unfolding estimate_go estimate_wait estimate_action

    pub estimate_activity : ActivityModel O B → State O B → ℕ → Attempt (Finish O B)
    estimate_activity (go_model invariant duration goal) s earliest =
        estimate_go d c travels goal s earliest
    estimate_activity (wait_model invariant drain duration) s earliest =
        estimate_wait d c drain duration s earliest
    estimate_activity (action_model invariant drain duration) s earliest =
        estimate_action d c invariant drain duration s earliest
    estimate_activity (idle_model invariant) s earliest =
        gives (record { finish_state = s; wait_until = earliest })
    estimate_activity (sequence_model invariant ms duration) s earliest =
        estimate_models ms s earliest none

    -- The loop of `SequenceModel::estimate_finish`.
    pub estimate_models : Models O B → State O B → ℕ → Option ℕ → Attempt (Finish O B)
    estimate_models no_models s earliest wait_until =
        gives (record { finish_state = s; wait_until = maybe wait_until earliest (λ w. w) })
    estimate_models (model m ms) s earliest wait_until = do
      e ← estimate_activity m s earliest
      estimate_models ms e.finish_state earliest (some (maybe wait_until e.wait_until (λ w. w)))
