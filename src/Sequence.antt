-- ===== src/Sequence.antt =====
-- rmf_task_sequence/src/rmf_task_sequence/events/Sequence.cpp: an event that is a sequence of
-- events.
pub mod Next
pub mod Restore
pub mod Stop
mod Examples
use rmf_task.Base.{
  ℕ, zero, suc, ◌+◌, ◌-◌, Bool, true, false, ◌||◌, List, [], ◌∷◌, Option, none, some, if◌then◌else◌,
  ◌==◌, leb, length, u64, map, Result, ok, err, mismatch, ◌>>=◌, deref,
}
use rmf_task.Event.{Status, error, standby, skipped, canceled, killed, completed, is, finished}
use rmf_task.Event.Fold.{fold_status}

-- What the sequence uses of `SimpleEventState`: its status, and the statuses of its dependencies.
pub record EventState : Type 0 where
  pub status : Status
  pub dependencies : List Status

-- A call that the sequence makes: to one of its events, or to a function that it was given.
pub data SequenceEffect (E : Type 0) : Type 0 where
  begins cancels kills interrupts : E → SequenceEffect E
  sequence_finished parent_update checkpoint : SequenceEffect E

-- What an event of type `E` answers: its status when it stands by and when it has begun, and its
-- estimates of durations.
pub record Events (E : Type 0) : Type 0 where
  pub standby_status : E → Status
  pub begun_status : E → Status
  pub duration_estimate : E → ℕ
  pub remaining_time_estimate : E → ℕ
  pub backup_state : E → ℕ

-- `Sequence::Active`. The vectors of the code in reverse order have their last element first here;
-- `attached` tells whether the functions of its owner were given; the last call comes first in
-- `effects`.
pub record Active (E : Type 0) : Type 0 where
  pub current : Option E
  pub current_event_index_plus_one : ℕ
  pub reverse_remaining : List E
  pub state : EventState
  pub attached : Bool
  pub inside_next : Bool
  pub next_backup_sequence_number : ℕ
  pub effects : List (SequenceEffect E)

pub record SequenceBackup : Type 0 where
  pub sequence : ℕ
  pub index : ℕ
  pub state : ℕ

-- `Standby::update_status`.
unfoldable pub update_status : EventState → EventState
update_status s =
    if is s.status canceled || is s.status killed || is s.status skipped
    then s
    else record s { status = fold_status completed s.dependencies }

-- A dependency has another status.
unfoldable pub set_status : ℕ → Status → List Status → List Status
set_status i status [] = []
set_status zero status (s ∷ statuses) = status ∷ statuses
set_status (suc i) status (s ∷ statuses) = s ∷ set_status i status statuses

module _ {E : Type 0} where
  abbrev pub call : SequenceEffect E → Active E → Active E
  call e a = record a { effects = e ∷ a.effects }

  abbrev pub refresh : Active E → Active E
  refresh a = record a { state = update_status a.state }

  -- The first constructor of `Active`.
  unfoldable pub make_active : List E → EventState → Bool → Active E
  make_active dependencies state attached = record {
    current = none;
    current_event_index_plus_one = 0;
    reverse_remaining = dependencies;
    state = state;
    attached = attached;
    inside_next = false;
    next_backup_sequence_number = 0;
    effects = [];
  }

  unfoldable pub cancel : Active E → Result (Active E)
  cancel a = do
    event ← deref a.current
    ok (
        call (cancels event)
          (record a { reverse_remaining = []; state = record a.state { status = canceled } }))

  unfoldable pub kill : Active E → Result (Active E)
  kill a = do
    event ← deref a.current
    ok (
        call (kills event)
          (record a { reverse_remaining = []; state = record a.state { status = killed } }))

  unfoldable pub interrupt : Active E → Result (Active E)
  interrupt a = do event ← deref a.current; ok (call (interrupts event) a)

module _ {E : Type 0} (events : Events E) where
  -- `begin` of an event: it reports its status.
  unfoldable pub begin_event : E → List E → Active E → Active E
  begin_event e rest a = call (begins e) (record a {
    current = some e;
    current_event_index_plus_one = u64 (a.current_event_index_plus_one + 1);
    reverse_remaining = rest;
    state = record a.state {
      dependencies =
          set_status (u64 (a.current_event_index_plus_one + 1) - 1) (events.begun_status e)
            a.state.dependencies;
    };
  })

  -- The loop of `next`.
  unfoldable pub next_loop : List E → Active E → Result (Active E)
  unfolding begin_event
  next_loop [] a = if a.attached then ok (call sequence_finished (refresh a)) else err mismatch
  next_loop (e ∷ rest) a =
      let a' = begin_event e rest a in
      let more = next_loop rest a' in
      if finished (events.begun_status e)
      then more
      else if a.attached
      then ok (call checkpoint (call parent_update (refresh a')))
      else err mismatch

  -- While the loop runs, `_inside_next` is set, and what events call back is ignored.
  unfoldable pub next : Active E → Result (Active E)
  next a = if a.inside_next then ok a else next_loop a.reverse_remaining a

  -- The function that an event is given to say that it has finished, by the number of the event.
  unfoldable pub event_finished : ℕ → Active E → Result (Active E)
  event_finished event_index_plus_one a =
      if event_index_plus_one == a.current_event_index_plus_one then next a else ok a

  -- `Standby::Standby` with `Standby::begin`, the first time that it is called.
  unfoldable pub begin : List E → Result (Active E)
  unfolding make_active
  begin dependencies = next (
      make_active dependencies
        (update_status
          (record { status = standby; dependencies = map events.standby_status dependencies }))
        true)

  sum_estimates : ℕ → List E → ℕ
  sum_estimates estimate [] = estimate
  sum_estimates estimate (e ∷ rest) = sum_estimates (estimate + events.duration_estimate e) rest

  unfoldable pub remaining_time : Active E → ℕ
  unfolding sum_estimates
  remaining_time a = elim a.current [
    | none ↦ sum_estimates 0 a.reverse_remaining
    | some e ↦ sum_estimates (events.remaining_time_estimate e) a.reverse_remaining
  ]

  unfoldable pub backup : Active E → Result (Active E × SequenceBackup)
  backup a = do
    event ← deref a.current
    ok (
      record a { next_backup_sequence_number = u64 (a.next_backup_sequence_number + 1) },
      record {
        sequence = a.next_backup_sequence_number;
        index = u64 (a.current_event_index_plus_one + 18446744073709551615);
        state = events.backup_state event;
      },
    )
