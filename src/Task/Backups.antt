-- ===== src/Task/Backups.antt =====
-- Which backups a task passes on, and that no task is restored from one.
use rmf_task.Base.{
  ℕ, ◌+◌, ◌≡◌, refl, ◌∙◌, ap, inl, inr, Bool, true, false, not, Option, none, some, arith, ◌==◌,
  if_true, if_false, u64, ok, deref-some, maybe-some, ◌&&◌, Bool-cases, maybe, if◌then◌else◌, err,
  mismatch, past_end, is_some, List,
}
use rmf_task.Task.{
  Stage, PhaseBackup, ActivePhase, TaskBackup, checkpoint, current_phase, missing, number, array,
  fits, Host, Task, emit,
}
use rmf_task.Task.Stages.{issue_backup, pass_backup, generate_backup, skipped_ids}
use rmf_task.Task.Control.{backup}
use rmf_task.Task.Restore.{make, load_backup, restore_root, truth}

module _ {S D : Type 0} (host : Host S D) where
  -- There was no backup of the active phase before, or only older ones.
  abbrev is_newer : PhaseBackup → Option ℕ → Bool
  is_newer b none = true
  is_newer b (some n) = not (host.less_than_or_equal b.sequence n)

  -- The task after it has passed on a backup of the phase.
  abbrev passed_on : ℕ → PhaseBackup → Task D → Task D
  passed_on id b t =
      emit
        (checkpoint (record {
          sequence = t.next_task_backup_sequence_number;
          root =
              current_phase id (maybe t.cancelled_on_phase missing (λ from. number from)) b.state
                (array (skipped_ids t.pending_phases));
        }))
        (record t {
          last_phase_backup_sequence_number = some b.sequence;
          next_task_backup_sequence_number = u64 (t.next_task_backup_sequence_number + 1);
        })

  -- The operation in one conjunction.
  issue_backup_lem :
      (id : ℕ) (b : PhaseBackup) (t : Task D) (a : ActivePhase)
      → t.active_phase ≡ some a
      → issue_backup host id b t
        ≡ ok (
            if id == a.tag.id && is_newer b t.last_phase_backup_sequence_number
            then passed_on id b t
            else t)
  unfolding issue_backup pass_backup
  issue_backup_lem id b t a e =
      deref-some t.active_phase _ e ∙ dispatch (id == a.tag.id) t.last_phase_backup_sequence_number
    where
      dispatch :
          (mine : Bool) (last : Option ℕ)
          → (if not mine
              then ok t
              else maybe last (ok (passed_on id b t)) λ cutoff.
                if host.less_than_or_equal b.sequence cutoff then ok t else ok (passed_on id b t))
            ≡ ok (if mine && is_newer b last then passed_on id b t else t)
      dispatch false last = refl
      dispatch true none = refl
      dispatch true (some cutoff) = newest (host.less_than_or_equal b.sequence cutoff)
        where
          newest :
              (old : Bool)
              → (if old then ok t else ok (passed_on id b t))
                ≡ ok (if not old then passed_on id b t else t)
          newest true = refl
          newest false = refl

  -- A backup that a phase repeats is passed on once.
  pub issue_backup_twice :
      (id : ℕ) (b : PhaseBackup) (t : Task D) (a : ActivePhase)
      → host.less_than_or_equal b.sequence b.sequence ≡ true
      → t.active_phase ≡ some a
      → (t' : Task D) × (issue_backup host id b t ≡ ok t') × (issue_backup host id b t' ≡ ok t')
  issue_backup_twice id b t a again e =
      elim (Bool-cases (id == a.tag.id && is_newer b t.last_phase_backup_sequence_number)) [
        | inl new ↦ (
          passed_on id b t,
          issue_backup_lem id b t a e ∙ ap ok (if_true _ _ _ new),
          issue_backup_lem id b (passed_on id b t) a e
              ∙ ap ok (
                  if_false (id == a.tag.id && is_newer b (some b.sequence)) _ _
                    (ground (arith, again))),
        )
        | inr old ↦
            let same = issue_backup_lem id b t a e ∙ ap ok (if_false _ _ _ old) in (t, same, same)
      ]

  -- No task, whatever its stages, can be restored from the backup that a task made while it ran a
  -- phase: if that task was cancelled, an exception is thrown, and if not, a key that the backup does
  -- not have is read.
  pub make-backup :
      (t : Task D) (a : ActivePhase) (stages : List (Stage D))
      → t.active_phase ≡ some a
      → t.finished ≡ false
      → make host stages (some (fits (backup t).1.root))
        ≡ err (if is_some t.cancelled_on_phase then mismatch else past_end)
  unfolding backup generate_backup make load_backup restore_root truth
  make-backup t a stages f o =
      ap (λ root. make host stages (some (fits root)))
        (ap (λ (x : Task D × TaskBackup). x.1.root) (maybe-some t.active_phase _ _ f)
          ∙ ap (λ (x : Task D × TaskBackup). x.1.root) (if_false t.finished _ _ o))
      ∙ stopped t.cancelled_on_phase
    where
      stopped :
          (from : Option ℕ)
          → make host stages (
              some (
                fits (
                  current_phase a.tag.id
                    (maybe from missing (λ n. number n))
                    a.phase.backup.state
                    (array (skipped_ids t.pending_phases)))))
            ≡ err (if is_some from then mismatch else past_end)
      stopped none = refl
      stopped (some n) = refl
