-- ===== src/Task/Machine.antt =====
-- A task and what happens to it: the commands of its owner, and the calls that its phases make.
-- A phase calls the task from outside the calls that the task makes to it, one call after another.
use rmf_task.Base.{ℕ, Bool, List, [], ◌∷◌, some, if◌then◌else◌, maybe, Result, ok, ◌>>=◌}
use rmf_task.Task.{PhaseBackup, PhaseState, Snapshot, Host, Task, emit, update, take_snapshot}
use rmf_task.Task.Stages.{issue_backup, finish_phase}
use rmf_task.Task.Control.{interrupt, resume, cancel, kill, skip, rewind}

-- `finishes` to `observes` come from a phase; `rewinds` carries the rounds of its search.
pub data Command : Type 0 where
  finishes : ℕ → Command
  checkpoints : ℕ → PhaseBackup → Command
  updates : Bool → Snapshot → Command
  observes : PhaseState → Command
  interrupts resumes cancels kills : Command
  skips : ℕ → Bool → Command
  rewinds : ℕ → ℕ → Command

module _ {D : Type 0} where
  -- The state of the active phase changes.
  unfoldable pub observe : PhaseState → Task D → Task D
  observe state t =
      maybe t.active_phase t
        λ phase. record t { active_phase = some (record phase { phase = state }) }

  -- The function for updates that a phase is given; one that was activated for a cancellation
  -- reports the phase around it.
  unfoldable pub phase_update : Bool → Snapshot → Task D → Task D
  phase_update cancellation snapshot t =
      if cancellation
      then maybe t.active_phase t (λ phase. emit (update (take_snapshot phase)) t)
      else emit (update snapshot) t

module _ {S D : Type 0} (host : Host S D) where
  unfoldable pub step : Command → Task D → Result (Task D)
  step (finishes id) t = finish_phase host id t
  step (checkpoints id backup) t = issue_backup host id backup t
  step (updates cancellation snapshot) t = ok (phase_update cancellation snapshot t)
  step (observes state) t = ok (observe state t)
  step interrupts t = interrupt t
  step resumes t = resume host t
  step cancels t = cancel host t
  step kills t = kill t
  step (skips id value) t = skip id value t
  step (rewinds rounds id) t = rewind host rounds id t

  unfoldable pub run : List Command → Task D → Result (Task D)
  run [] t = ok t
  run (c ∷ cs) t = step c t >>= run cs
