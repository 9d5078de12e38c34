-- ===== src/Sequence/Examples.antt =====
-- Tests of the sequence of events, and the theorems about it at concrete inputs.
use rmf_task.Base.{ℕ, zero, suc, ◌≡◌, refl, List, [], ◌∷◌, none, some, true, false, arith, ok, ◌||◌}
use rmf_task.Event.{
  Status, standby, underway, canceled, killed, completed, finished, sequence_status, is, skipped,
}
use rmf_task.Event.Fold.{fold_status, all_finished}
use rmf_task.Sequence.{
  begins, cancels, kills, sequence_finished, parent_update, checkpoint, Events, Active, next,
  event_finished, cancel, kill, begin, remaining_time, make_active, update_status, next_loop,
  begin_event, set_status,
}
use rmf_task.Sequence.Next.{begun, finishes, run, next-begins, run_lem}
use rmf_task.Sequence.Stop.{cancel_ends, kill_ends_sequence, finished-update_status}

-- Event 0 has finished as soon as it is begun, the others run.
abbrev at_once : ℕ → Status
at_once zero = completed
at_once (suc _) = underway

abbrev some_events : Events ℕ
some_events = record {
  standby_status = λ _. standby;
  begun_status = at_once;
  duration_estimate = λ e. e;
  remaining_time_estimate = λ e. e;
  backup_state = λ e. e;
}

abbrev waiting : Active ℕ
waiting = record {
  current = none;
  current_event_index_plus_one = 0;
  reverse_remaining = 0 ∷ 5 ∷ 6 ∷ [];
  state = record { status = standby; dependencies = standby ∷ standby ∷ standby ∷ [] };
  attached = true;
  inside_next = false;
  next_backup_sequence_number = 0;
  effects = [];
}

abbrev running : Active ℕ
running = record waiting { current = some 5; reverse_remaining = 6 ∷ [] }

next-begins_example :
    (a' : Active ℕ) × (next some_events waiting ≡ ok a')
    × (a'.current ≡ some 5)
    × (a'.reverse_remaining ≡ 6 ∷ [])
    × (a'.current_event_index_plus_one ≡ 2)
    × (a'.effects ≡ checkpoint ∷ parent_update ∷ begins 5 ∷ begins 0 ∷ [])
unfolding finished
next-begins_example =
    next-begins some_events (0 ∷ []) 5 (6 ∷ []) waiting refl refl refl (refl, tt) refl

run_lem_example :
    (a' : Active ℕ) × (run some_events 4 waiting ≡ ok a')
    × (a'.reverse_remaining ≡ [])
    × (begun a'.effects ≡ 6 ∷ 5 ∷ 0 ∷ [])
    × (finishes a'.effects ≡ 1)
run_lem_example = run_lem some_events 4 waiting refl refl (omega arith)

cancel_ends_example :
    (a' : Active ℕ) × (a'' : Active ℕ) × (cancel running ≡ ok a')
    × (event_finished some_events a'.current_event_index_plus_one a' ≡ ok a'')
    × (a''.effects ≡ sequence_finished ∷ cancels 5 ∷ [])
    × (a''.state.status ≡ canceled)
cancel_ends_example = cancel_ends some_events running 5 refl refl refl refl

kill_ends_sequence_example :
    (a' : Active ℕ) × (a'' : Active ℕ) × (kill running ≡ ok a')
    × (event_finished some_events a'.current_event_index_plus_one a' ≡ ok a'')
    × (a''.effects ≡ sequence_finished ∷ kills 5 ∷ [])
    × (a''.state.status ≡ killed)
kill_ends_sequence_example = kill_ends_sequence some_events running 5 refl refl refl

abbrev two_events : List ℕ
two_events = 4 ∷ 5 ∷ []

finished-update_status_example :
    finished (update_status (record { status = killed; dependencies = underway ∷ [] })).status ≡ (
      (is killed canceled || is killed killed || is killed skipped) || all_finished (underway ∷ []))
finished-update_status_example =
    finished-update_status (record { status = killed; dependencies = underway ∷ [] })

-- A sequence that was killed becomes canceled when it is cancelled.
cancel_after_kill :
    cancel (record running { state = record { status = killed; dependencies = [] } })
    ≡ ok (record running {
      reverse_remaining = [];
      state = record { status = canceled; dependencies = [] };
      effects = cancels 5 ∷ [];
    })
unfolding cancel
cancel_after_kill = refl

begin_three :
    begin some_events (0 ∷ 5 ∷ 6 ∷ [])
    ≡ ok (record waiting {
      current = some 5;
      current_event_index_plus_one = 2;
      reverse_remaining = 6 ∷ [];
      state = record { status = underway; dependencies = completed ∷ underway ∷ standby ∷ [] };
      effects = checkpoint ∷ parent_update ∷ begins 5 ∷ begins 0 ∷ [];
    })
unfolding begin make_active update_status fold_status sequence_status next next_loop begin_event
    set_status finished
begin_three = refl

remaining_of_running : remaining_time some_events running ≡ 11
unfolding remaining_time
remaining_of_running = refl
