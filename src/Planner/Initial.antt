-- ===== src/Planner/Initial.antt =====
-- internal_task_planning.cpp and TaskPlanner.cpp: the node that a search begins with.
use rmf_task.Base.{
  ℕ, suc, ◌+◌, max, Bool, true, false, List, [], ◌∷◌, ◌++◌, map, Option, none, some, if◌then◌else◌,
  ◌==◌, ltb, u64, Result, ok, ◌>>=◌, maybe,
}
use rmf_task.Candidates.{Entry, Node, construct, best_candidates}
use rmf_task.Planner.{
  Description, charge_battery, Request, PendingTask, Invariant, SearchNode, World, insert_invariant,
}

pub data TaskPlannerError : Type 0 where
  low_battery limited_capacity : TaskPlannerError

-- `Time::max()`, counted from `Time::min()`.
abbrev pub time_max : ℕ
time_max = 18446744073709551615

-- What `Candidates::make` finds for an agent: an entry under its finish time, or an error.
pub data Offer (S : Type 0) : Type 0 where
  offers : ℕ → Entry S → Offer S
  refuses : TaskPlannerError → Offer S

-- An offer before those of a loop that goes on from the last error.
unfoldable pub collect_offer :
    {S : Type 0}
    → Offer S
    → (Option TaskPlannerError → List (ℕ × Entry S) × Option TaskPlannerError)
    → Option TaskPlannerError
    → List (ℕ × Entry S) × Option TaskPlannerError
collect_offer (offers key entry) go error =
    let later = go error in ((key, entry) ∷ later.0, later.1)
collect_offer (refuses e) go error = go (some e)

module _ {S D : Type 0} where
  -- A pending task with its candidates; none if no agent is a candidate. A copy of new candidates
  -- is the same as they are.
  unfoldable pub pending_with : Request D → ℕ → List (ℕ × Entry S) → Option (PendingTask S D)
  pending_with request model_start [] = none
  pending_with request model_start (e ∷ entries) = some (record {
    request = request;
    model_start = model_start;
    candidates = construct (e ∷ entries);
  })

module _ {S D C : Type 0} (w : World S D C) where
  -- The body of the loop in `Candidates::make`, for a model from a time on.
  unfoldable pub offer : Description D → ℕ → ℕ → ℕ → S → Offer S
  offer description model_start start_time i state =
      maybe (w.estimate_finish description model_start state)
        (maybe (w.estimate_finish charge_battery start_time state)
          (refuses (if w.has_recharge_soc state then limited_capacity else low_battery))
          (λ charged.
            maybe (w.estimate_finish description model_start charged.finish_state)
              (refuses limited_capacity)
              (λ finish. offers (w.time finish.finish_state) (record {
                candidate = i;
                state = finish.finish_state;
                wait_until = finish.wait_until;
                previous_state = state;
                require_charge_battery = true;
              }))))
        (λ finish. offers (w.time finish.finish_state) (record {
          candidate = i;
          state = finish.finish_state;
          wait_until = finish.wait_until;
          previous_state = state;
          require_charge_battery = false;
        }))

  -- The loop: the entries in order, and the last error, `none` while none was set.
  unfoldable pub all_offers :
      Description D
      → ℕ
      → ℕ
      → ℕ
      → List S
      → Option TaskPlannerError
      → List (ℕ × Entry S) × Option TaskPlannerError
  unfolding collect_offer offer
  all_offers description model_start start_time i [] error = ([], error)
  all_offers description model_start start_time i (state ∷ states) error =
      collect_offer (offer description model_start start_time i state)
        (λ last. all_offers description model_start start_time (suc i) states last) error

  -- `PendingTask::make`.
  unfoldable pub make_pending :
      ℕ
      → List S
      → Request D
      → Option TaskPlannerError
      → Option (PendingTask S D) × Option TaskPlannerError
  unfolding all_offers
  make_pending start_time states request error =
      let model_start = max start_time request.earliest_start_time in
      let found = all_offers request.description model_start start_time 0 states error in
      (pending_with request model_start found.0, found.1)

-- The earliest time until which a best candidate of some task waits.
unfoldable pub least_wait : {S : Type 0} → ℕ → List (Node S) → ℕ
least_wait wait_until [] = wait_until
least_wait wait_until (c ∷ range) =
    least_wait (if ltb c.entry.wait_until wait_until then c.entry.wait_until else wait_until) range

module _ {S D : Type 0} where
  unfoldable pub has_id : ℕ → List (ℕ × PendingTask S D) → Bool
  has_id id [] = false
  has_id id ((i, u) ∷ rest) = if i == id then true else has_id id rest

  -- `unordered_map::insert`: nothing happens if the key is there.
  unfoldable pub insert_task :
      ℕ → PendingTask S D → List (ℕ × PendingTask S D) → List (ℕ × PendingTask S D)
  insert_task id u us = if has_id id us then us else us ++ (id, u) ∷ []

  unfoldable pub first_wait : ℕ → List (ℕ × PendingTask S D) → Result ℕ
  first_wait wait_until [] = ok wait_until
  first_wait wait_until ((id, u) ∷ rest) = do
    range ← best_candidates u.candidates
    first_wait (least_wait wait_until range) rest

module _ {S D C : Type 0} (w : World S D C) where
  -- The loop over the requests: the unassigned tasks and the next identifier, or an error.
  unfoldable pub make_unassigned :
      ℕ
      → List S
      → List (Request D)
      → ℕ
      → List (ℕ × PendingTask S D)
      → Option TaskPlannerError
      → Option (List (ℕ × PendingTask S D) × ℕ) × Option TaskPlannerError
  make_unassigned time_now states [] next us error = (some (us, next), error)
  make_unassigned time_now states (r ∷ requests) next us error =
      let made = make_pending w time_now states r error in
      maybe made.0 (none, made.1)
        (λ u.
          make_unassigned time_now states requests (u64 (next + 1)) (insert_task next u us) made.1)

  -- `sort_invariants`.
  unfoldable pub sort_invariants : List (ℕ × PendingTask S D) → List Invariant → List Invariant
  sort_invariants [] invariants = invariants
  sort_invariants ((id, u) ∷ rest) invariants = sort_invariants rest (
      insert_invariant
        (record {
          task_id = id;
          earliest_start_time = u.request.earliest_start_time;
          earliest_finish_time =
              u.request.earliest_start_time
              + w.invariant_duration u.request.description u.model_start;
        })
        invariants)

  unfoldable pub latest_start : List S → ℕ
  latest_start [] = 0
  latest_start (s ∷ states) = max (w.time s) (latest_start states)

module _ {S D C : Type 0} (w : World S D C) (time_now : ℕ) (check_priority : Bool) where
  -- `make_initial_node`: the node, or none with the error.
  unfoldable pub make_initial_node :
      List S
      → List (Request D)
      → Option TaskPlannerError
      → Result (Option (SearchNode S D C) × Option TaskPlannerError)
  make_initial_node states requests error =
      let made = make_unassigned w time_now states requests 1 [] error in
      maybe made.0 (ok (none, made.1)) (λ us. do
        let start : SearchNode S D C = record {
          assigned_tasks = map (λ _. []) states;
          unassigned_tasks = us.0;
          cost_estimate = w.zero_cost;
          latest_time = 0;
          unassigned_invariants = [];
          next_available_internal_id = us.1;
        }
        wait_until ← first_wait time_max us.0
        ok (
          some (record start {
            cost_estimate = w.compute_cost start time_now check_priority;
            unassigned_invariants = sort_invariants w us.0 [];
            latest_time = max (latest_start w states) wait_until;
          }),
          made.1,
        ))
