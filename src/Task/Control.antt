-- ===== src/Task/Control.antt =====
-- Task.cpp: the commands and the queries that the owner of a task calls.
use rmf_task.Base.{
  ℕ, zero, suc, ◌+◌, Bool, true, false, List, [], ◌∷◌, ◌++◌, none, some, ◌||◌, if◌then◌else◌, maybe,
  ◌==◌, length, null, is_some, Result, ok, err, past_end, diverges, ◌>>=◌, deref,
}
use rmf_task.Event.{Status}
use rmf_task.Resume
use rmf_task.Resume.{Resume}
use rmf_task.Task.{
  Pending, Stage, Completed, TaskBackup, interrupt_phase, cancel_phase, kill_phase, Host, Task,
  emit,
}
use rmf_task.Task.Stages.{
  generate_backup, empty_backup, destroyed, run_resumes, generate_pending_phases, begin_next_stage,
  prepare_cancellation_sequence,
}

abbrev last_status : List Completed → Status
last_status [] = Status.completed
last_status (c ∷ []) = c.snapshot.status
last_status (c ∷ d ∷ rest) = last_status (d ∷ rest)

abbrev sum_pending : ℕ → List Pending → ℕ
sum_pending remaining [] = remaining
sum_pending remaining (p ∷ phases) =
    sum_pending (remaining + p.tag.original_duration_estimate) phases

-- The loop of `skip`: the first pending phase with the identifier is marked.
unfoldable pub mark_skip : ℕ → Bool → List Pending → List Pending
mark_skip id value [] = []
mark_skip id value (p ∷ phases) =
    let rest = mark_skip id value phases in
    if id == p.tag.id then record p { will_be_skipped = value } ∷ phases else p ∷ rest

module _ {D : Type 0} where
  unfoldable pub status_overview : Task D → Status
  status_overview t = elim t.active_phase [
    | some phase ↦ phase.phase.status
    | none ↦ if null t.pending_phases then last_status t.completed_phases else Status.underway
  ]

  unfoldable pub estimate_remaining_time : Task D → ℕ
  estimate_remaining_time t =
      if t.finished
      then 0
      else sum_pending (elim t.active_phase [ none ↦ 0 | some phase ↦ phase.phase.remaining ])
          t.pending_phases

  unfoldable pub backup : Task D → Task D × TaskBackup
  unfolding generate_backup empty_backup
  backup t = maybe t.active_phase (empty_backup t) λ phase.
      if t.finished then empty_backup t else generate_backup phase.tag.id phase.phase.backup t

  -- The callback that is given is not empty.
  unfoldable pub interrupt : Task D → Result (Task D)
  unfolding destroyed Resume.make
  interrupt t = do
    phase ← deref t.active_phase
    ok (record t {
      interrupted = true;
      resume_phase = some (Resume.make phase.tag.id);
      effects = destroyed t.resume_phase (interrupt_phase phase.tag.id ∷ t.effects);
    })

  unfoldable pub kill : Task D → Result (Task D)
  kill t = do
    phase ← deref t.active_phase
    ok (emit (kill_phase phase.tag.id) (record t { killed = true }))

  skip_pending : ℕ → Bool → Task D → Task D
  skip_pending id value t = record t { pending_phases = mark_skip id value t.pending_phases }

  unfoldable pub skip : ℕ → Bool → Task D → Result (Task D)
  unfolding skip_pending mark_skip
  skip id false t = ok (skip_pending id false t)
  skip id true t = do
    phase ← deref t.active_phase
    if phase.tag.id == id then ok (emit (cancel_phase id) t) else ok (skip_pending id true t)

  -- The search of `rewind`. The iterator is not advanced in the loop, so a first stage with another
  -- identifier is looked at again and again: `diverges` when the given rounds are used up.
  unfoldable pub seek : ℕ → ℕ → List (Stage D) → Result (List (Stage D))
  seek zero id stages = err diverges
  seek (suc rounds) id [] = ok []
  seek (suc rounds) id (s ∷ stages) =
      let again = seek rounds id (s ∷ stages) in if s.id == id then ok (s ∷ stages) else again

  -- The elements in the range from the first iterator up to the second, both into one list, given
  -- by what stands behind them.
  unfoldable pub range : List (Stage D) → List (Stage D) → Result (List (Stage D))
  range from to = if length from == length to then ok [] else err past_end

module _ {S D : Type 0} (host : Host S D) where
  -- The function that the `Resume` returned by `interrupt` runs.
  unfoldable pub resume : Task D → Result (Task D)
  unfolding run_resumes Resume.trigger
  resume t =
      let t' = record t { interrupted = false } in
      maybe t.resume_phase (begin_next_stage host none t') λ r. ok (record t' {
        resume_phase = some (Resume.trigger r).0;
        effects = run_resumes (Resume.trigger r).1 t.effects;
      })

  unfoldable pub cancel : Task D → Result (Task D)
  cancel t = if is_some t.cancelled_on_phase || t.finished then ok t else (do
    phase ← deref t.active_phase
    stage ← deref t.active_stage
    ok (
        emit (cancel_phase phase.tag.id) (
          prepare_cancellation_sequence host stage.cancellation_sequence
            (record t { cancelled_on_phase = some phase.tag.id }))))

  unfoldable pub rewind_from : ℕ → List (Stage D) → Task D → Result (Task D)
  unfolding range
  rewind_from id [] t = ok t
  rewind_from id (s ∷ stages) t = do
    again ← range (s ∷ stages) t.completed_stages
    active ← deref t.active_stage
    let t' =
        generate_pending_phases host
          (record t { pending_stages = (again ++ t.pending_stages) ++ active ∷ [] })
    phase ← deref t'.active_phase
    ok (emit (cancel_phase phase.tag.id) t')

  unfoldable pub rewind : ℕ → ℕ → Task D → Result (Task D)
  rewind rounds id t = do found ← seek rounds id t.completed_stages; rewind_from id found t
