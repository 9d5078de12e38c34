-- ===== src/Task/Examples.antt =====
-- Tests of the task model, and the theorems about it at concrete inputs.
use rmf_task.Base.{
  ℕ, ◌≡◌, refl, ◌⊎◌, true, false, [], ◌∷◌, none, some, arith, leb, ok, err, diverges, past_end,
  ◌>>=◌,
}
use rmf_task.Event.{Status}
use rmf_task.Task.{
  Stage, phase_finished, progress, PhaseState, ActivePhase, PhaseBackup, Completed, Task, Host,
  Effect, task_is_interrupted, interrupt_phase, take_snapshot, fits, construct, task_finished,
  cancel_phase, add_phase,
}
use rmf_task.Task.Stages.{
  issue_backup, begin_next_stage, finish_phase, clear_resume, destroyed,
  prepare_cancellation_sequence, generate_pending_phases,
}
use rmf_task.Task.Control.{cancel, kill, interrupt, resume, rewind, backup}
use rmf_task.Task.Restore.{make, load_backup, restore_root}
use rmf_task.Task.Advance.{Advanced, begin_next_stage-Advanced}
use rmf_task.Task.Machine.{cancels, rewinds, run, step}
use rmf_task.Task.Invariant.{IsValid, IsSound, stage_ids}
use rmf_task.Task.Sound.{step-IsSound}
use rmf_task.Task.Progress.{finish_each}
use rmf_task.Task.Restoring.{make-run}
use rmf_task.Task.Commands.{
  descriptions, cancel_lem, kill_ends, interrupted_finish_stuck, rewind_diverges, rewind_first,
}
use rmf_task.Task.Backups.{issue_backup_twice, make-backup}

-- Descriptions are numbers, and a phase's duration is its description.
abbrev phase_state : PhaseState
phase_state = record {
  status = Status.underway;
  remaining = 5;
  backup = record { sequence = 0; state = "at the start" };
}

abbrev host : Host ℕ ℕ
host = record {
  clock = λ n. n;
  get_state = λ n. n;
  generate_header = λ d s. d;
  make_model = λ d s. none;
  activate = λ n tag d restore. some phase_state;
  is_registered = λ n tag d restore. (phase_state, refl);
  less_than_or_equal = leb;
}

abbrev go : Stage ℕ
go = record { id = 1; description = 10; cancellation_sequence = [] }

abbrev pick_up : Stage ℕ
pick_up = record { id = 2; description = 20; cancellation_sequence = 91 ∷ 92 ∷ [] }

abbrev drop_off : Stage ℕ
drop_off = record { id = 3; description = 30; cancellation_sequence = [] }

abbrev active : ActivePhase
active = record {
  tag = record { id = 2; original_duration_estimate = 20 };
  cancellation = false;
  phase = phase_state;
}

abbrev done : Completed
done = record {
  snapshot = record {
    tag = record { id = 1; original_duration_estimate = 10 };
    status = Status.completed;
    remaining = 0;
  };
  start = 1;
  finish = 4;
}

-- The second of three stages runs.
abbrev running : Task ℕ
running = record {
  interrupted = false;
  resume_phase = none;
  pending_stages = drop_off ∷ [];
  pending_phases =
      record { tag = record { id = 3; original_duration_estimate = 30 }; will_be_skipped = false }
      ∷ [];
  active_stage = some pick_up;
  active_phase = some active;
  current_phase_start_time = some 5;
  completed_stages = go ∷ [];
  completed_phases = done ∷ [];
  cancelled_on_phase = none;
  killed = false;
  finished = false;
  last_phase_backup_sequence_number = some 0;
  next_task_backup_sequence_number = 2;
  cancel_sequence_initial_id = 4;
  reads = 9;
  effects = [];
}

running-IsValid : IsValid running
running-IsValid = record {
  aligned = refl;
  counted = refl;
  busy = λ _. record {
    stage = pick_up;
    phase = active;
    active = refl;
    running = refl;
    same_id = refl;
    timed = refl;
  };
  ready = (refl, refl, refl);
}

built : stage_ids {D = ℕ} (add_phase (add_phase [] 10 []) 20 (91 ∷ 92 ∷ [])) ≡ 1 ∷ 2 ∷ []
unfolding add_phase
built = refl

step-IsSound_example :
    IsSound (step host cancels running)
    ⊎ ((rounds : ℕ) × (id : ℕ) × (cancels ≡ rewinds rounds id)
        × (step host cancels running ≡ err diverges))
step-IsSound_example = step-IsSound host cancels running running-IsValid

make-run_example :
    (t' : Task ℕ) × ((make host (go ∷ pick_up ∷ drop_off ∷ []) none
        >>= run host (finish_each (go ∷ pick_up ∷ drop_off ∷ [])))
      ≡ ok t')
    × (t'.finished ≡ true)
    × (t'.completed_stages ≡ go ∷ pick_up ∷ drop_off ∷ [])
make-run_example = make-run host go (pick_up ∷ drop_off ∷ [])

begin_next_stage-Advanced_example :
    (t' : Task ℕ) × (begin_next_stage host none running ≡ ok t')
    × Advanced (clear_resume running) t' running.pending_stages running.pending_phases
begin_next_stage-Advanced_example = begin_next_stage-Advanced host none running refl refl refl

cancel_lem_example :
    (t' : Task ℕ) × (cancel host running ≡ ok t')
    × (stage_ids t'.pending_stages ≡ 4 ∷ 5 ∷ [])
    × (descriptions t'.pending_stages ≡ 91 ∷ 92 ∷ [])
    × (t'.cancelled_on_phase ≡ some 2)
    × (t'.effects ≡ cancel_phase 2 ∷ [])
    × (cancel host t' ≡ ok t')
cancel_lem_example = cancel_lem host running pick_up active refl refl refl refl refl

kill_ends_example :
    (t' : Task ℕ) × ((kill running >>= finish_phase host 2) ≡ ok t')
    × (t'.finished ≡ true)
    × (t'.active_phase ≡ some active)
    × (t'.pending_stages ≡ drop_off ∷ [])
    × (t'.completed_stages ≡ go ∷ pick_up ∷ [])
kill_ends_example = kill_ends host running pick_up running-IsValid refl refl

interrupted_finish_stuck_example :
    (t' : Task ℕ) × ((interrupt running >>= λ t₁. finish_phase host 2 t₁ >>= resume host) ≡ ok t')
    × (t'.effects
        ≡ Effect.resume_phase 2
          ∷ task_is_interrupted
          ∷ phase_finished (record { snapshot = take_snapshot active; start = 5; finish = 9 })
          ∷ interrupt_phase 2
          ∷ [])
    × (t'.completed_stages ≡ go ∷ pick_up ∷ [])
    × (t'.interrupted ≡ false)
    × (t'.active_stage ≡ some pick_up)
    × (t'.active_phase ≡ some active)
    × (t'.pending_stages ≡ drop_off ∷ [])
    × (t'.finished ≡ false)
unfolding destroyed
interrupted_finish_stuck_example =
    interrupted_finish_stuck host running pick_up active 5 refl refl refl

rewind_diverges_example : rewind host 1000 2 running ≡ err diverges
rewind_diverges_example = rewind_diverges host 1000 2 running go [] refl (omega arith)

rewind_first_example :
    (t' : Task ℕ) × (rewind host 1 1 running ≡ ok t')
    × (t'.pending_stages ≡ drop_off ∷ pick_up ∷ [])
    × (t'.effects ≡ cancel_phase 2 ∷ [])
rewind_first_example = rewind_first host 0 running go pick_up active [] refl refl refl

abbrev newer : PhaseBackup
newer = record { sequence = 1; state = "later" }

issue_backup_twice_example :
    (t' : Task ℕ) × (issue_backup host 2 newer running ≡ ok t')
    × (issue_backup host 2 newer t' ≡ ok t')
issue_backup_twice_example = issue_backup_twice host 2 newer running active refl refl

make-backup_example :
    make host (go ∷ pick_up ∷ drop_off ∷ []) (some (fits (backup running).1.root)) ≡ err past_end
make-backup_example = make-backup host running active (go ∷ pick_up ∷ drop_off ∷ []) refl refl

-- A task that was finished does not count as finished when it is restored.
finished_is_not_restored :
    make host (go ∷ []) (some (fits (progress true)))
    ≡ ok (record (construct (go ∷ [])) { reads = 2; effects = task_finished ∷ [] })
unfolding make load_backup restore_root
finished_is_not_restored = refl

-- After a kill, a cancellation still replaces what is pending.
cancel_after_kill :
    (cancel host (record running { killed = true }))
    ≡ cancel host running >>= λ t. ok (record t { killed = true })
unfolding cancel prepare_cancellation_sequence generate_pending_phases
cancel_after_kill = refl
