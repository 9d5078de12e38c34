-- ===== src/Task/Commands.antt =====
-- What cancelling, killing, interrupting and rewinding a task leads to.
use rmf_task.Base.{
  ℕ, zero, suc, ◌+◌, ◌≡◌, ◌≢◌, refl, sym, ◌∙◌, ap, ◌||◌, true, false, List, [], ◌∷◌, ◌++◌, none,
  some, arith, ◌==◌, is_some, is_some→some, beq_self, if_true, if_false, u64, ok, err, diverges,
  >>=-ok, >>=-err, ◌>>=◌, deref-some,
}
use rmf_task.Resume
use rmf_task.Task.{
  Stage, ActivePhase, Effect, interrupt_phase, cancel_phase, phase_finished, task_is_interrupted,
  take_snapshot, Host, Task, emit,
}
use rmf_task.Task.Stages.{
  begin_next_stage, finish_phase, generate_pending_phases, next_cancel_stages,
  prepare_cancellation_sequence, destroyed,
}
use rmf_task.Task.Control.{cancel, kill, interrupt, resume, rewind, rewind_from, seek, range}
use rmf_task.Task.Invariant.{stage_ids, IsValid}
use rmf_task.Task.Sound.{range-whole}
use rmf_task.Task.Progress.{finish_phase-recorded}

abbrev pub descriptions : {D : Type 0} → List (Stage D) → List D
descriptions [] = []
descriptions (s ∷ stages) = s.description ∷ descriptions stages

-- The identifiers from one on, as many as there are elements.
abbrev pub ids_from : {D : Type 0} → ℕ → List D → List ℕ
ids_from next [] = []
ids_from next (d ∷ sequence) = next ∷ ids_from (u64 (next + 1)) sequence

module _ {D : Type 0} where
  seek_diverges :
      (rounds id : ℕ) (s : Stage D) (stages : List (Stage D))
      → (s.id == id) ≡ false
      → seek rounds id (s ∷ stages) ≡ err diverges
  unfolding seek
  seek_diverges zero id s stages other = refl
  seek_diverges (suc rounds) id s stages other =
      if_false (s.id == id) _ _ other ∙ seek_diverges rounds id s stages other

  seek_first :
      (rounds : ℕ) (s : Stage D) (stages : List (Stage D))
      → seek (suc rounds) s.id (s ∷ stages) ≡ ok (s ∷ stages)
  unfolding seek
  seek_first rounds s stages = if_true (s.id == s.id) _ _ (beq_self s.id)

module _ {S D : Type 0} (host : Host S D) where
  next_cancel_stages-ids :
      (next : ℕ) (sequence : List D)
      → stage_ids (next_cancel_stages host next sequence) ≡ ids_from next sequence
  unfolding next_cancel_stages
  next_cancel_stages-ids next [] = refl
  next_cancel_stages-ids next (d ∷ sequence) =
      ap (λ (l : List ℕ). next ∷ l) (next_cancel_stages-ids (u64 (next + 1)) sequence)

  next_cancel_stages-descriptions :
      (next : ℕ) (sequence : List D)
      → descriptions (next_cancel_stages host next sequence) ≡ sequence
  unfolding next_cancel_stages
  next_cancel_stages-descriptions next [] = refl
  next_cancel_stages-descriptions next (d ∷ sequence) =
      ap (λ (l : List D). d ∷ l) (next_cancel_stages-descriptions (u64 (next + 1)) sequence)

  -- Cancelling a task that runs and was neither cancelled nor killed before replaces what is pending
  -- by the cancellation sequence of its active stage, under the identifiers from the initial one on,
  -- tells the active phase to cancel, and remembers the phase. Cancelling it again does nothing.
  pub cancel_lem :
      (t : Task D) (s : Stage D) (a : ActivePhase)
      → t.active_stage ≡ some s
      → t.active_phase ≡ some a
      → t.cancelled_on_phase ≡ none
      → t.killed ≡ false
      → t.finished ≡ false
      → (t' : Task D) × (cancel host t ≡ ok t')
        × (stage_ids t'.pending_stages
            ≡ ids_from t.cancel_sequence_initial_id s.cancellation_sequence)
        × (descriptions t'.pending_stages ≡ s.cancellation_sequence)
        × (t'.cancelled_on_phase ≡ some a.tag.id)
        × (t'.effects ≡ cancel_phase a.tag.id ∷ t.effects)
        × (cancel host t' ≡ ok t')
  unfolding cancel prepare_cancellation_sequence generate_pending_phases
  cancel_lem t s a e f c alive o = (
    _,
    if_false (is_some t.cancelled_on_phase || t.finished) _ _ (ground arith)
        ∙ deref-some t.active_phase _ f
        ∙ deref-some t.active_stage _ e,
    next_cancel_stages-ids t.cancel_sequence_initial_id s.cancellation_sequence,
    next_cancel_stages-descriptions t.cancel_sequence_initial_id s.cancellation_sequence,
    refl,
    refl,
    refl,
  )

  -- Once a task is killed, it ends when its active phase ends: nothing that is pending is started.
  pub kill_ends :
      (t : Task D) (s : Stage D)
      → IsValid t
      → t.active_stage ≡ some s
      → t.interrupted ≡ false
      → (t' : Task D) × ((kill t >>= finish_phase host s.id) ≡ ok t')
        × (t'.finished ≡ true)
        × (t'.active_phase ≡ t.active_phase)
        × (t'.pending_stages ≡ t.pending_stages)
        × (t'.completed_stages ≡ t.completed_stages ++ s ∷ [])
  unfolding kill begin_next_stage
  kill_ends t s v e free =
      let (a, f) = is_some→some t.active_phase v.ready.0 in
      let (n, g) = is_some→some t.current_phase_start_time v.ready.1 in
      let t₁ : Task D = emit (Effect.kill_phase a.tag.id) (record t { killed = true }) in
      (
        _,
        >>=-ok (kill t) _ (deref-some t.active_phase _ f)
            ∙ finish_phase-recorded host t₁ s a n e f g
            ∙ if_false t.interrupted _ _ free,
        refl,
        refl,
        refl,
        refl,
      )

  -- A phase that ends although it was interrupted: its end is reported, then that the task is
  -- interrupted, and no stage is begun. Resuming the task calls the ended phase to resume and does no
  -- more: its stage and phase stay the active ones, as many stages are pending, and the task is not
  -- interrupted any more.
  pub interrupted_finish_stuck :
      (t : Task D) (s : Stage D) (a : ActivePhase) (start : ℕ)
      → t.active_stage ≡ some s
      → t.active_phase ≡ some a
      → t.current_phase_start_time ≡ some start
      → (t' : Task D) × ((interrupt t >>= λ t₁. finish_phase host s.id t₁ >>= resume host) ≡ ok t')
        × (t'.effects
            ≡ Effect.resume_phase a.tag.id
              ∷ task_is_interrupted
              ∷ phase_finished (record {
                snapshot = take_snapshot a;
                start = start;
                finish = host.clock t.reads;
              })
              ∷ destroyed t.resume_phase (interrupt_phase a.tag.id ∷ t.effects))
        × (t'.completed_stages ≡ t.completed_stages ++ s ∷ [])
        × (t'.interrupted ≡ false)
        × (t'.active_stage ≡ some s)
        × (t'.active_phase ≡ some a)
        × (t'.pending_stages ≡ t.pending_stages)
        × (t'.finished ≡ t.finished)
  unfolding interrupt resume begin_next_stage
  interrupted_finish_stuck t s a n e f g =
      let t₁ : Task D = record t {
        interrupted = true;
        resume_phase = some (Resume.make a.tag.id);
        effects = destroyed t.resume_phase (interrupt_phase a.tag.id ∷ t.effects);
      } in
      (
        _,
        >>=-ok (interrupt t) _ (deref-some t.active_phase _ f)
            ∙ >>=-ok (finish_phase host s.id t₁) _ (finish_phase-recorded host t₁ s a n e f g),
        refl,
        refl,
        refl,
        e,
        f,
        refl,
        refl,
      )

  -- The search of a rewind never gets past the first completed stage: with another one asked for,
  -- it does not end in any number of rounds.
  pub rewind_diverges :
      (rounds id : ℕ) (t : Task D) (s : Stage D) (stages : List (Stage D))
      → t.completed_stages ≡ s ∷ stages
      → s.id ≢ id
      → rewind host rounds id t ≡ err diverges
  unfolding rewind
  rewind_diverges rounds id t s stages e other =
      >>=-err (seek rounds id t.completed_stages) _
        (ap (seek rounds id) e ∙ seek_diverges rounds id s stages (ground arith))

  -- A rewind to the first completed stage ends the active phase and puts its stage behind what is
  -- pending; no completed stage becomes pending again.
  pub rewind_first :
      (rounds : ℕ) (t : Task D) (s active : Stage D) (a : ActivePhase) (stages : List (Stage D))
      → t.completed_stages ≡ s ∷ stages
      → t.active_stage ≡ some active
      → t.active_phase ≡ some a
      → (t' : Task D) × (rewind host (suc rounds) s.id t ≡ ok t')
        × (t'.pending_stages ≡ t.pending_stages ++ active ∷ [])
        × (t'.effects ≡ cancel_phase a.tag.id ∷ t.effects)
  unfolding rewind rewind_from generate_pending_phases
  rewind_first rounds t s active a stages e d f = (
    _,
    >>=-ok (seek (suc rounds) s.id t.completed_stages) _
          (ap (seek (suc rounds) s.id) e ∙ seek_first rounds s stages)
        ∙ >>=-ok (range (s ∷ stages) t.completed_stages) _
            (range-whole host (s ∷ stages) t.completed_stages (sym e))
        ∙ deref-some t.active_stage _ d
        ∙ deref-some t.active_phase _ f,
    refl,
    refl,
  )
