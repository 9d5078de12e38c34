-- ===== src/Task/Restore.antt =====
-- Task.cpp: a task is made from its stages, or restored from a backup.
use Prim.Native.String.{String}
use rmf_task.Base.{
  ℕ, suc, true, false, List, [], ◌∷◌, ◌++◌, Option, none, some, if◌then◌else◌, ◌==◌, ltb, leb, null,
  Result, ok, err, mismatch, past_end, Bool, ◌>>=◌,
}
use rmf_task.Event.{Status}
use rmf_task.Task.{
  Pending, Stage, Snapshot, Root, progress, current_phase, Value, missing, boolean, number, array,
  BackupText, no_json, no_fit, fits, phase_finished, task_finished, Host, Task, construct, emit,
}
use rmf_task.Task.Stages.{
  finish_task, generate_pending_phases, begin_next_stage, prepare_cancellation_sequence,
}

-- The `RestoreBackup` phase after `parsing_failed`
-- (rmf_task/src/rmf_task/phases/RestoreBackup.cpp).
abbrev pub failed_restore_phase : Snapshot
failed_restore_phase = record {
  tag = record { id = 0; original_duration_estimate = 0 };
  status = Status.error;
  remaining = 0;
}

-- The iterator over the pending phases moves to the first one that is not below the identifier.
unfoldable pub seek_pending : ℕ → List Pending → List Pending → List Pending × List Pending
seek_pending id before [] = (before, [])
seek_pending id before (p ∷ phases) =
    let rest = seek_pending id (before ++ p ∷ []) phases in
    if ltb p.tag.id id then rest else (before, p ∷ phases)

-- The loop over `skip_phases`: the phases before the iterator, and those from it on.
unfoldable pub mark_skips : List ℕ → List Pending → List Pending → List Pending
unfolding seek_pending
mark_skips [] before phases = before ++ phases
mark_skips (id ∷ ids) before phases =
    let (before', phases') = seek_pending id before phases in
    let unmarked = mark_skips ids before' phases' in
    if id == 0 then mark_skips ids before phases else elim phases' [
      | [] ↦ unmarked
      | p ∷ rest ↦
          if ltb id p.tag.id
          then unmarked
          else mark_skips ids before' (record p { will_be_skipped = true } ∷ rest)
    ]

-- A JSON value as a condition: a conversion to `bool`, which throws where it is another value. A
-- missing key of a constant object is read past its end.
unfoldable pub truth : Value → Result Bool
truth missing = err past_end
truth (boolean b) = ok b
truth (number n) = err mismatch
truth (array ids) = err mismatch

-- The conversions to a number and to a list of numbers.
unfoldable pub get_number : Value → Result ℕ
get_number missing = err past_end
get_number (boolean b) = err mismatch
get_number (number n) = ok n
get_number (array ids) = err mismatch

unfoldable pub get_array : Value → Result (List ℕ)
get_array missing = err past_end
get_array (boolean b) = err mismatch
get_array (number n) = err mismatch
get_array (array ids) = ok ids

module _ {D : Type 0} where
  -- The stages from the one with the identifier on.
  unfoldable pub drop_until : ℕ → List (Stage D) → List (Stage D)
  drop_until id [] = []
  drop_until id (s ∷ stages) =
      let rest = drop_until id stages in if s.id == id then s ∷ stages else rest

  unfoldable pub find_stage : ℕ → List (Stage D) → Option (Stage D)
  find_stage id [] = none
  find_stage id (s ∷ stages) = if s.id == id then some s else find_stage id stages

module _ {S D : Type 0} (host : Host S D) where
  -- `start` is what the clock said when the restoration began.
  unfoldable pub failed_to_restore : ℕ → Task D → Task D
  unfolding finish_task
  failed_to_restore start t = finish_task (
      emit
        (phase_finished
          (record { snapshot = failed_restore_phase; start = start; finish = host.clock t.reads }))
        (record t { pending_stages = []; reads = suc t.reads }))

  unfoldable pub restore_cancellation : ℕ → Task D → Task D
  restore_cancellation from t = elim (find_stage from t.pending_stages) [
    | none ↦ t
    | some stage ↦ prepare_cancellation_sequence host stage.cancellation_sequence t
  ]

  -- From the current phase of the backup on, once the cancellation sequence has been put in place.
  unfoldable pub restore_phase : ℕ → ℕ → String → Value → Task D → Result (Task D)
  unfolding failed_to_restore truth get_array
  restore_phase start id state skips t =
      let t' = record t { pending_stages = drop_until id t.pending_stages } in
      if null t'.pending_stages then ok (failed_to_restore start t') else (do
        has_skips ← truth skips
        marked ←
            (if has_skips
              then (do
                ids ← get_array skips
                ok (record t' { pending_phases = mark_skips ids [] t'.pending_phases }))
              else ok t')
        begin_next_stage host (some state) (generate_pending_phases host marked))

  unfoldable pub restore_root : ℕ → Root → Task D → Result (Task D)
  unfolding restore_cancellation restore_phase truth get_number
  restore_root start (progress true) t = ok (emit task_finished t)
  restore_root start (progress false) t =
      begin_next_stage host none (generate_pending_phases host t)
  restore_root start (current_phase id cancelled_from state skips) t = do
    cancelled ← truth cancelled_from
    (if cancelled
        then (do
          from ← get_number cancelled_from
          (if leb t.cancel_sequence_initial_id from
              then ok (failed_to_restore start t)
              else restore_phase start id state skips (restore_cancellation from t)))
        else restore_phase start id state skips t)

  -- `_load_backup`.
  unfoldable pub load_backup : BackupText → Task D → Result (Task D)
  unfolding failed_to_restore restore_root
  load_backup backup t =
      let start = host.clock t.reads in
      let t' = record t { reads = suc t.reads } in
      elim backup [
        | no_json ↦ err mismatch
        | no_fit ↦ ok (failed_to_restore start t')
        | fits root ↦ restore_root start root t'
      ]

  -- `Task::Active::make`. Making the header of the task reads the robot's state once.
  unfoldable pub make : List (Stage D) → Option BackupText → Result (Task D)
  unfolding construct
  make stages backup_state =
      let t = record (construct stages) { reads = 1 } in
      elim backup_state [
        | some backup ↦ load_backup backup t
        | none ↦ begin_next_stage host none (generate_pending_phases host t)
      ]
