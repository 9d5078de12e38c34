-- ===== src/Activities/Chain.antt =====
-- The estimates of all activities, sequences of sequences included.
use rmf_task.Base.{
  ℕ, ◌+◌, ◌≤◌, ◌≡◌, refl, sym, ◌∙◌, ◌⊎◌, inl, inr, Bool, true, false, ◌||◌, Option, none, some,
  maybe, List, [], ◌∷◌, arith, Bool-cases, true-ne-false,
}
use rmf_task.Attempt.{
  Attempt, throws, refuses, gives, or_else, Ensures, thrown, refused, given, Ensures-bind,
  Ensures-mono, Ensures-if, Ensures-or_else, Ensures-gives,
}
use rmf_task.Requests.{Doubles, Goal, Travels, State, Constraints, Finish}
use rmf_task.Activities.{
  Services, Choice, Activity, Activities, go_to_place, wait_for, perform_action, placeholder,
  sequence, no_more, first, ActivityModel, invariant_finish_state, invariant_duration,
  make_go_model, go_to_goal, goals_on_map,
}
use rmf_task.Activities.Estimates.{
  Made, make_model, make_models, estimate_activity, estimate_models,
}
use rmf_task.Activities.Spec.{
  Answers, takes, takes_all, is_checked, any_checked, Agrees, IsReady, ready, Reliable, IsCharged,
  Finishes, finishes,
}
use rmf_task.Activities.Singles.{
  estimate_go-Answers, estimate_wait-Answers, estimate_action-Answers, wait_battery_drain-nonneg,
  action_battery_drain-nonneg,
}

-- It may throw and refuse.
abbrev Makes : {A : Type 0} → (A → Type 0) → Attempt A → Type 0
Makes = Ensures (Unit {0}) (Unit {0})

anything : {A : Type 0} (m : Attempt A) → Makes (λ (_ : A). Unit {0}) m
anything throws = thrown tt
anything refuses = refused tt
anything (gives a) = given tt

module _ {O B : Type 0} (d : Doubles B) (c : Constraints B) where
  Finishes-none :
      (s invariant : State O B)
      → IsReady d s
      → Agrees s invariant
      → Finishes d c 0 false s invariant s
  Finishes-none s invariant r at =
      finishes r at (λ t t' e e'. same t t' (sym e ∙ e'))
        λ h. elim h [ inl never ↦ absurd (true-ne-false (sym never)) | inr charged ↦ charged ]
    where
      same : (a b : ℕ) → ◌≡◌ {A = Option ℕ} (some a) (some b) → a + 0 ≤ b
      same a b h = ground (arith, h)

  Finishes-then :
      (n n' : ℕ) (b b' : Bool) (s invariant s1 invariant' s' : State O B)
      → Finishes d c n b s invariant s1
      → Finishes d c n' b' s1 invariant' s'
      → Finishes d c (n + n') (b || b') s invariant' s'
  Finishes-then n n' b b' s invariant s1 invariant' s'
        (finishes (ready t1 w o soc ht hw ho hb hr) at late high) (finishes r' at' late' high') =
      finishes r' at' (λ t t' e e'. sum t t' (late t t1 e ht) (late' t1 t' ht e'))
        λ h. high' (after h)
    where
      sum : (t t' : ℕ) → t + n ≤ t1 → t1 + n' ≤ t' → t + (n + n') ≤ t'
      sum t t' h h' = omega (arith, h, h')

      after : ((b || b') ≡ true) ⊎ IsCharged d c s → (b' ≡ true) ⊎ IsCharged d c s1
      after (inr charged) = inr (high (inr charged))
      after (inl some_checked) = elim (Bool-cases b) [
        | inl is ↦ inr (high (inl is))
        | inr not_first ↦ inl (ground (arith, some_checked, not_first))
      ]

module _ {O B : Type 0} (d : Doubles B) (v : Services O B) (c : Constraints B)
    (travels : Travels O B) where
  -- The estimates of a model keep what is promised of the activity.
  abbrev Keeps : ℕ → Bool → State O B → ActivityModel O B → Type 0
  Keeps n b i m =
      (s : State O B) (earliest : ℕ)
      → IsReady d s
      → Agrees s i
      → Answers (λ (e : Finish O B). Finishes d c n b s (invariant_finish_state m) e.finish_state)
          (estimate_activity d c travels m s earliest)

  abbrev KeepsAll : ℕ → Bool → State O B → Made O B → Type 0
  KeepsAll n b i made =
      (s : State O B) (earliest : ℕ) (wait_until : Option ℕ)
      → IsReady d s
      → Agrees s i
      → Answers (λ (e : Finish O B). Finishes d c n b s made.finish_state e.finish_state)
          (estimate_models d c travels made.models s earliest wait_until)

  module _ (ok : Reliable d v travels) where
    go-Keeps :
        (i : State O B) (goals : List (Goal O)) → Makes (Keeps 0 true i) (make_go_model d v i goals)
    unfolding make_go_model estimate_activity invariant_finish_state go_to_goal
    go-Keeps i [] = refused tt
    go-Keeps i (goal ∷ goals) =
        Ensures-bind {f = λ x. gives (go_to_goal d v i x)} (anything _) λ (selected : Choice O) _.
          given λ s earliest r at.
            estimate_go-Answers d v c travels ok selected.selected_goal
              (invariant_finish_state (go_to_goal d v i selected)) s earliest r refl

    mutual
      unfolding make_model estimate_activity invariant_finish_state takes is_checked

      model-Keeps :
          (a : Activity O) (i : State O B)
          → Makes (Keeps (takes a) (is_checked a) i) (make_model d v a i)
      model-Keeps (go_to_place goals prefer_same_map) i =
          Ensures-if prefer_same_map
            (λ _.
              elim i.waypoint
                as (λ w. Makes (Keeps 0 true i) (
                  maybe w (make_go_model d v i goals) (λ u.
                    or_else (make_go_model d v i (goals_on_map d v u goals))
                      (make_go_model d v i goals)))) [
                        | none ↦ go-Keeps i goals
                        | some w ↦
                            Ensures-or_else (go-Keeps i (goals_on_map d v w goals))
                              (go-Keeps i goals)
                      ])
            (λ _. go-Keeps i goals)
      model-Keeps (wait_for duration) i = given λ s earliest r at.
          estimate_wait-Answers d v c travels ok _ duration i s earliest r at
            (wait_battery_drain-nonneg d v c travels ok duration)
      model-Keeps (perform_action duration use_tool_sink location) i = given λ s earliest r at.
          estimate_action-Answers d v c travels ok _ duration _ s earliest r
            (action_battery_drain-nonneg d v c travels ok duration use_tool_sink)
      model-Keeps placeholder i = given λ s earliest r at. given (Finishes-none d c s i r at)
      model-Keeps (sequence activities) i =
          Ensures-bind (models-KeepsAll activities i 0)
            λ made keeps. given λ s earliest r at. keeps s earliest none r at

      models-KeepsAll :
          (l : Activities O) (i : State O B) (duration : ℕ)
          → Makes (KeepsAll (takes_all l) (any_checked l) i) (make_models d v l i duration)
      models-KeepsAll no_more i duration =
          given λ s earliest wait_until r at. given (Finishes-none d c s i r at)
      models-KeepsAll (first a rest) i duration = Ensures-bind (model-Keeps a i) λ m keeps.
          Ensures-bind
            (models-KeepsAll rest (invariant_finish_state m) (duration + invariant_duration m))
            λ made keeps_all. given λ s earliest wait_until r at.
              Ensures-bind (keeps s earliest r at) λ e fin. elim fin [
                | finishes r' at' late high ↦
                    Ensures-mono (keeps_all e.finish_state earliest _ r' at') λ e' fin'.
                      Finishes-then d c _ _ _ _ s (invariant_finish_state m) e.finish_state
                        made.finish_state e'.finish_state (finishes r' at' late high) fin'
              ]

    -- A model that was made of an activity answers every estimate from a state that is ready, where
    -- the state that the model was made for says, if doubles, power sinks and travels are reliable:
    -- the estimate does not throw. If it is not refused, the finish state is ready again and where
    -- the invariant finish state says, it is later by the waits and actions at least, and its charge
    -- is above the threshold, unless the activity is made of placeholders only and the charge before
    -- was not.
    pub estimate_activity_lem :
        (a : Activity O) (i : State O B) (m : ActivityModel O B) (s : State O B) (earliest : ℕ)
        → make_model d v a i ≡ gives m
        → IsReady d s
        → Agrees s i
        → Answers
            (λ (e : Finish O B).
              Finishes d c (takes a) (is_checked a) s (invariant_finish_state m) e.finish_state)
            (estimate_activity d c travels m s earliest)
    estimate_activity_lem a i m s earliest made r at =
        Ensures-gives m (model-Keeps a i) made s earliest r at
