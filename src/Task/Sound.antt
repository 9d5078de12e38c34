-- ===== src/Task/Sound.antt =====
-- The commands against the validity of a task.
use rmf_task.Base.{
  ℕ, suc, ◌≡◌, refl, ◌∙◌, ap, ◌⊎◌, inl, inr, false, not, List, [], ◌∷◌, ◌++◌, ◌||◌, none, arith,
  ◌==◌, length, length-append, is_some, Bool-cases, Option-cases, if_true, if_false, ok, err,
  diverges, deref-some, >>=-ok, >>=-err, maybe-none, maybe-some,
}
use rmf_task.Task.{
  Stage, PhaseBackup, Completed, ActivePhase, Host, Task, emit, phase_finished, take_snapshot,
}
use rmf_task.Task.Stages.{
  finish_phase, issue_backup, pass_backup, generate_pending_phases, prepare_cancellation_sequence,
  next_cancel_stages,
}
use rmf_task.Task.Control.{resume, cancel, rewind, range, rewind_from}
use rmf_task.Task.Machine.{
  Command, finishes, checkpoints, updates, observes, interrupts, resumes, cancels, kills, skips,
  rewinds, step,
}
use rmf_task.Task.Invariant.{stage_ids, phase_ids, IsValid, IsSound, begin_next_stage-IsValid}
use rmf_task.Task.Steps.{
  IsValid-cong, IsValid-phase, IsValid-time, IsValid-stage, seek-cases, kill-IsSound,
  interrupt-IsSound, skip-IsSound, phase_update-IsValid, observe-IsValid, pending_of-ids,
}

module _ {S D : Type 0} (host : Host S D) where
  pub generate_pending_phases-aligned :
      (t : Task D)
      → let t' = generate_pending_phases host t in
        stage_ids t'.pending_stages ≡ phase_ids t'.pending_phases
  unfolding generate_pending_phases
  generate_pending_phases-aligned t = pending_of-ids host (host.get_state t.reads) t.pending_stages

  issue_backup-IsSound :
      (id : ℕ) (backup : PhaseBackup) (t : Task D)
      → IsValid t
      → IsSound (issue_backup host id backup t)
  unfolding issue_backup pass_backup
  issue_backup-IsSound id backup t v =
      let (a, e) = IsValid-phase t v in
      elim (Bool-cases (not (id == a.tag.id))) [
        | inl other ↦
            (_, deref-some t.active_phase _ e ∙ if_true (not (id == a.tag.id)) _ _ other, v)
        | inr same ↦ elim (Option-cases t.last_phase_backup_sequence_number) [
          | inl first ↦ (
            _,
            deref-some t.active_phase _ e
                ∙ if_false (not (id == a.tag.id)) _ _ same
                ∙ maybe-none t.last_phase_backup_sequence_number _ _ first,
            passed v,
          )
          | inr (cutoff, later) ↦
              elim (Bool-cases (host.less_than_or_equal backup.sequence cutoff)) [
                | inl old ↦ (
                  t,
                  deref-some t.active_phase _ e
                      ∙ if_false (not (id == a.tag.id)) _ _ same
                      ∙ maybe-some t.last_phase_backup_sequence_number _ _ later
                      ∙ if_true _ _ _ old,
                  v,
                )
                | inr fresh ↦ (
                  pass_backup host id backup t,
                  deref-some t.active_phase _ e
                      ∙ if_false (not (id == a.tag.id)) _ _ same
                      ∙ maybe-some t.last_phase_backup_sequence_number _ _ later
                      ∙ if_false _ _ _ fresh,
                  passed v,
                )
              ]
        ]
      ]
    where
      passed : IsValid t → IsValid (pass_backup host id backup t)
      passed v = IsValid-cong t _ v.aligned refl refl refl refl refl refl v

  resume-IsSound : (t : Task D) → IsValid t → IsSound (resume host t)
  unfolding resume
  resume-IsSound t v = elim (Option-cases t.resume_phase) [
    | inl forgotten ↦
        let (t', runs, w) =
          begin_next_stage-IsValid host none (record t { interrupted = false }) v.aligned v.counted
            v.ready (λ h. absurd (cc)) in
        (t', maybe-none t.resume_phase _ _ forgotten ∙ runs, w)
    | inr (r, kept) ↦ (
      _,
      maybe-some t.resume_phase _ _ kept,
      IsValid-cong t _ v.aligned refl refl refl refl refl refl v,
    )
  ]

  cancel-IsSound : (t : Task D) → IsValid t → IsSound (cancel host t)
  unfolding cancel prepare_cancellation_sequence generate_pending_phases
  cancel-IsSound t v = elim (Bool-cases (is_some t.cancelled_on_phase || t.finished)) [
    | inl over ↦ (t, if_true _ _ _ over, v)
    | inr open_still ↦
        let b = v.busy (ground arith) in
        (
          _,
          if_false _ _ _ open_still
              ∙ deref-some t.active_phase _ b.running
              ∙ deref-some t.active_stage _ b.active,
          IsValid-cong t _
              (pending_of-ids host (host.get_state t.reads) (
                next_cancel_stages host t.cancel_sequence_initial_id b.stage.cancellation_sequence))
              refl refl refl refl refl refl v,
        )
  ]

  finish_phase-IsSound : (id : ℕ) (t : Task D) → IsValid t → IsSound (finish_phase host id t)
  unfolding finish_phase
  finish_phase-IsSound id t v = elim (Option-cases t.active_stage) [
    | inl idle ↦ (t, maybe-none t.active_stage _ _ idle, v)
    | inr (stage, active) ↦ elim (Bool-cases (not (stage.id == id))) [
      | inl other ↦ (t, maybe-some t.active_stage _ _ active ∙ if_true _ _ _ other, v)
      | inr same ↦
          let (a, e) = IsValid-phase t v in
          let (n, d) = IsValid-time t v in
          let (t', runs, w) =
            begin_next_stage-IsValid host none (closed stage a n) v.aligned
              (counted stage (completed a n)) v.ready (λ _. v.busy) in
          (
            t',
            maybe-some t.active_stage _ _ active
                ∙ if_false _ _ _ same
                ∙ deref-some t.active_phase _ e
                ∙ deref-some t.current_phase_start_time _ d
                ∙ runs,
            w,
          )
    ]
  ]
    where
      completed : ActivePhase → ℕ → Completed
      completed a n = record { snapshot = take_snapshot a; start = n; finish = host.clock t.reads }

      closed : Stage D → ActivePhase → ℕ → Task D
      closed stage a n = emit (phase_finished (completed a n)) (record t {
        completed_stages = t.completed_stages ++ stage ∷ [];
        completed_phases = t.completed_phases ++ completed a n ∷ [];
        reads = suc t.reads;
      })

      counted :
          (stage : Stage D) (c : Completed)
          → length (t.completed_stages ++ stage ∷ []) ≡ length (t.completed_phases ++ c ∷ [])
      counted stage c = omega (
        arith,
        v.counted,
        length-append t.completed_stages (stage ∷ []),
        length-append t.completed_phases (c ∷ []),
      )

  pub range-whole : (found stages : List (Stage D)) → found ≡ stages → range found stages ≡ ok []
  unfolding range
  range-whole found stages e =
      if_true (length found == length stages) _ _ (ground (arith, ap length e))

  rewind_from-IsSound :
      (id : ℕ) (found : List (Stage D)) (t : Task D)
      → found ≡ t.completed_stages
      → IsValid t
      → IsSound (rewind_from host id found t)
  unfolding rewind_from generate_pending_phases
  rewind_from-IsSound id [] t e v = (t, refl, v)
  rewind_from-IsSound id (s ∷ stages) t e v =
      let (a, running) = IsValid-phase t v in
      let (active, d) = IsValid-stage t v in
      (
        _,
        >>=-ok (range (s ∷ stages) t.completed_stages) _ (range-whole (s ∷ stages) _ e)
            ∙ deref-some t.active_stage _ d
            ∙ deref-some t.active_phase _ running,
        IsValid-cong t _
            (pending_of-ids host (host.get_state t.reads) (t.pending_stages ++ active ∷ [])) refl
            refl refl refl refl refl v,
      )

  rewind-IsSound :
      (rounds id : ℕ) (t : Task D)
      → IsValid t
      → (IsSound (rewind host rounds id t)) ⊎ (rewind host rounds id t ≡ err diverges)
  unfolding rewind rewind_from
  rewind-IsSound rounds id t v = elim (seek-cases rounds id t.completed_stages) [
    | inl lost ↦ inr (>>=-err _ _ lost)
    | inr (inl none_done) ↦ inl (t, >>=-ok _ _ none_done, v)
    | inr (inr (s, stages, whole, found)) ↦
        let (t', runs, w) = rewind_from-IsSound id t.completed_stages t refl v in
        inl (t', >>=-ok _ _ found ∙ runs, w)
  ]

  -- If the descriptions of the stages are registered with the activator (a law of the host) and no
  -- header of a stage throws (which the host takes for granted), a command leaves a valid task valid
  -- and returns, unless it is a rewind whose search never ends.
  pub step-IsSound :
      (c : Command) (t : Task D)
      → IsValid t
      → IsSound (step host c t)
        ⊎ ((rounds : ℕ) × (id : ℕ) × (c ≡ rewinds rounds id) × (step host c t ≡ err diverges))
  unfolding step
  step-IsSound (finishes id) t v = inl (finish_phase-IsSound id t v)
  step-IsSound (checkpoints id backup) t v = inl (issue_backup-IsSound id backup t v)
  step-IsSound (updates cancellation snapshot) t v =
      inl (_, refl, phase_update-IsValid cancellation snapshot t v)
  step-IsSound (observes state) t v = inl (_, refl, observe-IsValid state t v)
  step-IsSound interrupts t v = inl (interrupt-IsSound t v)
  step-IsSound resumes t v = inl (resume-IsSound t v)
  step-IsSound cancels t v = inl (cancel-IsSound t v)
  step-IsSound kills t v = inl (kill-IsSound t v)
  step-IsSound (skips id value) t v = inl (skip-IsSound id value t v)
  step-IsSound (rewinds rounds id) t v = elim (rewind-IsSound rounds id t v) [
    | inl sound ↦ inl sound
    | inr lost ↦ inr (rounds, id, refl, lost)
  ]
