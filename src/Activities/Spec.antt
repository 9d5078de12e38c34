-- ===== src/Activities/Spec.antt =====
-- What the estimate of an activity promises.
use rmf_task.Base.{ℕ, ◌+◌, ◌≤◌, ◌≡◌, ◌⊎◌, Bool, true, false, ◌||◌, some, is_some}
use rmf_task.Attempt.{Attempt, Ensures}
use rmf_task.Requests.{Doubles, Start, Goal, Travel, Travels, State, Constraints, in_range}
use rmf_task.Activities.{
  Services, Activity, Activities, go_to_place, wait_for, perform_action, placeholder, sequence,
  no_more, first,
}

-- How long an activity takes at least: its waits and actions.
unfoldable mutual
  pub takes : {O : Type 0} → Activity O → ℕ
  takes (go_to_place goals prefer_same_map) = 0
  takes (wait_for duration) = duration
  takes (perform_action duration use_tool_sink location) = duration
  takes placeholder = 0
  takes (sequence activities) = takes_all activities

  pub takes_all : {O : Type 0} → Activities O → ℕ
  takes_all no_more = 0
  takes_all (first a rest) = takes a + takes_all rest

-- It is not made of placeholders only.
unfoldable mutual
  pub is_checked : {O : Type 0} → Activity O → Bool
  is_checked (go_to_place goals prefer_same_map) = true
  is_checked (wait_for duration) = true
  is_checked (perform_action duration use_tool_sink location) = true
  is_checked placeholder = false
  is_checked (sequence activities) = any_checked activities

  pub any_checked : {O : Type 0} → Activities O → Bool
  any_checked no_more = false
  any_checked (first a rest) = is_checked a || any_checked rest

-- It does not throw.
abbrev pub Answers : {A : Type 0} → (A → Type 0) → Attempt A → Type 0
Answers = Ensures ⊥ (Unit {0})

-- A state is where another one says, if that says where.
abbrev pub Agrees : {O B : Type 0} → State O B → State O B → Type 0
Agrees s invariant = (w : ℕ) → invariant.waypoint ≡ some w → s.waypoint ≡ some w

-- A state comes some time after another one.
abbrev pub Later : {O B : Type 0} → ℕ → State O B → State O B → Type 0
Later n s s' = (t t' : ℕ) → s.time ≡ some t → s'.time ≡ some t' → t + n ≤ t'

module _ {O B : Type 0} (d : Doubles B) where
  -- A state from which an activity can be estimated.
  pub data IsReady (s : State O B) : Type 0 where
    ready :
        (t w : ℕ) (o : O) (soc : B)
        → s.time ≡ some t
        → s.waypoint ≡ some w
        → s.orientation ≡ some o
        → s.battery_soc ≡ some soc
        → in_range d soc ≡ true
        → IsReady s

  -- What the code relies on: how doubles are compared, added and subtracted, no change in charge is
  -- negative, and there is an ambient sink.
  pub record Reliable (v : Services O B) (travels : Travels O B) : Type 0 where
    pub zero_in_range : in_range d d.zero ≡ true
    pub lt_asym : (a b : B) → d.lt a b ≡ true → d.lt b a ≡ false
    pub sub_below :
        (a b : B) → d.lt d.one a ≡ false → d.lt b d.zero ≡ false → d.lt d.one (d.sub a b) ≡ false
    pub add_nonneg :
        (a b : B) → d.lt a d.zero ≡ false → d.lt b d.zero ≡ false → d.lt (d.add a b) d.zero ≡ false
    pub has_ambient_sink : is_some v.ambient_sink ≡ true
    pub ambient_nonneg :
        (sink : B → B) (x : B) → v.ambient_sink ≡ some sink → d.lt (sink x) d.zero ≡ false
    pub tool_nonneg :
        (sink : B → B) (x : B) → v.tool_sink ≡ some sink → d.lt (sink x) d.zero ≡ false
    pub travel_nonneg :
        (start : Start O) (goal : Goal O) (t : Travel B)
        → travels start goal ≡ some t
        → d.lt t.change_in_charge d.zero ≡ false

  -- The charge of a state is above the threshold.
  abbrev pub IsCharged : Constraints B → State O B → Type 0
  IsCharged c s = (soc : B) → s.battery_soc ≡ some soc → d.le soc c.threshold_soc ≡ false

  -- What a finish state is to the state before: it is ready, it is where the invariant finish state
  -- says, it is late enough, and its charge is above the threshold if it has been checked, or was.
  pub data Finishes (c : Constraints B) (n : ℕ) (checked : Bool) (s invariant s' : State O B)
      : Type 0 where
    finishes :
        IsReady s'
        → Agrees s' invariant
        → Later n s s'
        → ((checked ≡ true) ⊎ IsCharged c s → IsCharged c s')
        → Finishes c n checked s invariant s'
