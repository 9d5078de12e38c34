-- ===== src/Task/Stages.antt =====
-- Task.cpp: how the task moves from one stage to the next.
use Prim.Native.String.{String}
use rmf_task.Base.{
  ℕ, suc, ◌+◌, Bool, true, false, not, List, [], ◌∷◌, ◌++◌, Option, none, some, if◌then◌else◌,
  maybe, ◌==◌, length, is_some, null, u64, Result, ok, err, mismatch, past_end, ◌>>=◌, deref,
}
use rmf_task.Resume.{Resume, destroy}
use rmf_task.Task.{
  Tag, Pending, Stage, PhaseBackup, ActivePhase, Completed, progress, current_phase, missing,
  number, array, TaskBackup, Effect, update, checkpoint, phase_finished, task_finished,
  task_is_interrupted, Host, Task, emit, take_snapshot,
}

unfoldable pub skipped_ids : List Pending → List ℕ
skipped_ids [] = []
skipped_ids (p ∷ phases) =
    let rest = skipped_ids phases in if p.will_be_skipped then p.tag.id ∷ rest else rest

-- The calls are made after those that are listed; the callbacks resume phases.
unfoldable pub run_resumes : List ℕ → List Effect → List Effect
run_resumes [] effects = effects
run_resumes (id ∷ ids) effects = run_resumes ids (Effect.resume_phase id ∷ effects)

unfoldable pub destroyed : Option (Resume ℕ) → List Effect → List Effect
unfolding run_resumes destroy
destroyed none effects = effects
destroyed (some r) effects = run_resumes (destroy r) effects

module _ {D : Type 0} where
  -- The body of the loop that is meant to compare the identifiers; it reads at both iterators.
  compare_ids : List (Stage D) → List Pending → Result Bool
  compare_ids [] phases = err past_end
  compare_ids (s ∷ stages) [] = err past_end
  compare_ids (s ∷ stages) (p ∷ phases) =
      if not (s.id == p.tag.id)
      then ok false
      else (if null stages then compare_ids stages phases else ok true)

  -- The loop: its condition is `stage_it == end`, so its body is entered only at the end.
  ids_match : List (Stage D) → List Pending → Result Bool
  unfolding compare_ids
  ids_match stages phases = if null stages then compare_ids stages phases else ok true

  -- The sizes are compared first.
  unfoldable pub consistency : List (Stage D) → List Pending → Result Bool
  unfolding ids_match
  consistency stages phases =
      if not (length stages == length phases) then ok false else ids_match stages phases

  unfoldable pub finish_task : Task D → Task D
  finish_task t = emit task_finished (record t { finished = true })

  unfoldable pub generate_backup : ℕ → PhaseBackup → Task D → Task D × TaskBackup
  unfolding skipped_ids
  generate_backup id backup t = (
    record t { next_task_backup_sequence_number = u64 (t.next_task_backup_sequence_number + 1) },
    record {
      sequence = t.next_task_backup_sequence_number;
      root =
          current_phase id (maybe t.cancelled_on_phase missing (λ from. number from)) backup.state
            (array (skipped_ids t.pending_phases));
    },
  )

  unfoldable pub empty_backup : Task D → Task D × TaskBackup
  empty_backup t = (
    record t { next_task_backup_sequence_number = u64 (t.next_task_backup_sequence_number + 1) },
    record { sequence = t.next_task_backup_sequence_number; root = progress t.finished },
  )

  -- Assigning `std::nullopt` to `_resume_phase` destroys the `Resume` that it holds.
  unfoldable pub clear_resume : Task D → Task D
  unfolding destroyed
  clear_resume t = record t { resume_phase = none; effects = destroyed t.resume_phase t.effects }

module _ {S D : Type 0} (host : Host S D) where
  unfoldable pub next_state : Option S → S → S
  next_state none state = state
  next_state (some finish_state) state = finish_state

  unfoldable pub pending_of : S → List (Stage D) → List Pending
  unfolding next_state
  pending_of state [] = []
  pending_of state (s ∷ stages) =
      record {
        tag = record {
          id = s.id;
          original_duration_estimate = host.generate_header s.description state;
        };
        will_be_skipped = false;
      }
      ∷ pending_of (next_state (host.make_model s.description state) state) stages

  unfoldable pub generate_pending_phases : Task D → Task D
  unfolding pending_of
  generate_pending_phases t = record t {
    pending_phases = pending_of (host.get_state t.reads) t.pending_stages;
    reads = suc t.reads;
  }

  unfoldable pub pass_backup : ℕ → PhaseBackup → Task D → Task D
  unfolding generate_backup
  pass_backup source backup t =
      let (t', b) =
        generate_backup source backup
          (record t { last_phase_backup_sequence_number = some backup.sequence }) in
      emit (checkpoint b) t'

  unfoldable pub issue_backup : ℕ → PhaseBackup → Task D → Result (Task D)
  unfolding pass_backup
  issue_backup source backup t = do
    phase ← deref t.active_phase
    if not (source == phase.tag.id) then ok t else elim t.last_phase_backup_sequence_number [
      | none ↦ ok (pass_backup source backup t)
      | some cutoff ↦
          if host.less_than_or_equal backup.sequence cutoff
          then ok t
          else ok (pass_backup source backup t)
    ]

  -- The end of the loop in `_begin_next_stage`: the phase of the stage is activated.
  unfoldable pub activate_phase : Option String → Stage D → Tag → Task D → Result (Task D)
  unfolding take_snapshot
  activate_phase restore stage tag t =
      deref (host.activate (suc t.reads) tag stage.description restore) >>= λ activated.
      let phase : ActivePhase = record {
        tag = tag;
        cancellation = is_some t.cancelled_on_phase;
        phase = activated;
      } in
      let t' = record t {
        current_phase_start_time = some (host.clock t.reads);
        active_phase = some phase;
        reads = suc (suc t.reads);
      } in
      issue_backup tag.id phase.phase.backup (emit (update (take_snapshot phase)) t')

  -- The loop of `_begin_next_stage` over the pending stages and phases.
  unfoldable pub advance : Option String → List (Stage D) → List Pending → Task D → Result (Task D)
  unfolding consistency finish_task
  advance restore [] phases t = ok (finish_task t)
  advance restore (s ∷ stages) [] t = err mismatch
  advance restore (s ∷ stages) (p ∷ phases) t =
      let t' = record t {
        active_stage = some s;
        pending_stages = stages;
        pending_phases = phases;
        last_phase_backup_sequence_number = none;
      } in
      let rest = advance restore stages phases t' in
      consistency (s ∷ stages) (p ∷ phases) >>= λ consistent.
      if not consistent
      then err mismatch
      else if p.will_be_skipped
      then rest
      else activate_phase restore s p.tag t'

  unfoldable pub begin_next_stage : Option String → Task D → Result (Task D)
  unfolding clear_resume finish_task
  begin_next_stage restore t =
      if t.interrupted
      then ok (emit task_is_interrupted t)
      else (let t' = clear_resume t in
          if t'.killed
          then ok (finish_task t')
          else advance restore t'.pending_stages t'.pending_phases t')

  unfoldable pub finish_phase : ℕ → Task D → Result (Task D)
  unfolding take_snapshot
  finish_phase id t = maybe t.active_stage (ok t) λ stage.
      if not (stage.id == id) then ok t else (do
        phase ← deref t.active_phase
        start ← deref t.current_phase_start_time
        let completed : Completed = record {
          snapshot = take_snapshot phase;
          start = start;
          finish = host.clock t.reads;
        }
        begin_next_stage none (
            emit (phase_finished completed) (record t {
              completed_stages = t.completed_stages ++ stage ∷ [];
              completed_phases = t.completed_phases ++ completed ∷ [];
              reads = suc t.reads;
            })))

  unfoldable pub next_cancel_stages : ℕ → List D → List (Stage D)
  next_cancel_stages next [] = []
  next_cancel_stages next (d ∷ sequence) =
      record { id = next; description = d; cancellation_sequence = [] }
      ∷ next_cancel_stages (u64 (next + 1)) sequence

  unfoldable pub prepare_cancellation_sequence : List D → Task D → Task D
  unfolding next_cancel_stages
  prepare_cancellation_sequence sequence t = generate_pending_phases (record t {
    pending_phases = [];
    pending_stages = next_cancel_stages t.cancel_sequence_initial_id sequence;
  })
