-- ===== src/Task/Invariant.antt =====
-- What holds of a task between two events.
use Prim.Native.String.{String}
use rmf_task.Base.{
  ℕ, suc, ◌≡◌, refl, sym, ◌∙◌, ap, inl, inr, true, false, List, [], ◌∷◌, Option, some, arith,
  length, is_some, Bool-cases, if_true, if_false, Result, ok,
}
use rmf_task.Task.{Tag, Pending, Stage, ActivePhase, Host, Task, emit, task_is_interrupted}
use rmf_task.Task.Stages.{clear_resume, begin_next_stage, finish_task}
use rmf_task.Task.Advance.{
  Skips, here, skip, Started, Advanced, starts, ends, begin_next_stage-Advanced,
}

abbrev pub stage_ids : {D : Type 0} → List (Stage D) → List ℕ
stage_ids [] = []
stage_ids (s ∷ stages) = s.id ∷ stage_ids stages

abbrev pub phase_ids : List Pending → List ℕ
phase_ids [] = []
phase_ids (p ∷ phases) = p.tag.id ∷ phase_ids phases

-- The active phase belongs to the active stage, and its start time is known.
pub record BusyWith {D : Type 0} (active_stage : Option (Stage D))
    (active_phase : Option ActivePhase) (start : Option ℕ) : Type 0 where
  pub stage : Stage D
  pub phase : ActivePhase
  pub active : active_stage ≡ some stage
  pub running : active_phase ≡ some phase
  pub same_id : stage.id ≡ phase.tag.id
  pub timed : is_some start ≡ true

abbrev pub IsBusy : {D : Type 0} → Task D → Type 0
IsBusy t = BusyWith t.active_stage t.active_phase t.current_phase_start_time

-- A phase was activated at some time.
abbrev pub IsReady : {D : Type 0} → Task D → Type 0
IsReady t =
    (is_some t.active_phase ≡ true)
    × (is_some t.current_phase_start_time ≡ true)
    × (is_some t.active_stage ≡ true)

pub record IsValid {D : Type 0} (t : Task D) : Type 0 where
  pub aligned : stage_ids t.pending_stages ≡ phase_ids t.pending_phases
  pub counted : length t.completed_stages ≡ length t.completed_phases
  pub busy : t.finished ≡ false → IsBusy t
  pub ready : IsReady t

length-phase_ids : (phases : List Pending) → length (phase_ids phases) ≡ length phases
length-phase_ids [] = refl
length-phase_ids (p ∷ phases) = ap suc (length-phase_ids phases)

module _ {D : Type 0} where
  length-stage_ids : (stages : List (Stage D)) → length (stage_ids stages) ≡ length stages
  length-stage_ids [] = refl
  length-stage_ids (s ∷ stages) = ap suc (length-stage_ids stages)

  pub same_length :
      (stages : List (Stage D)) (phases : List Pending)
      → stage_ids stages ≡ phase_ids phases
      → length stages ≡ length phases
  same_length stages phases e =
      sym (length-stage_ids stages) ∙ ap length e ∙ length-phase_ids phases

  pub Skips-aligned :
      {stages stages' : List (Stage D)} {phases phases' : List Pending}
      → Skips stages phases stages' phases'
      → stage_ids stages ≡ phase_ids phases
      → stage_ids stages' ≡ phase_ids phases'
  Skips-aligned here e = e
  Skips-aligned (skip h left) e = Skips-aligned left (cc)

  pub Started-IsBusy :
      (t t' : Task D) (s : Stage D) (p : Pending) → s.id ≡ p.tag.id → Started t t' s p → IsBusy t'
  Started-IsBusy t t' s p e w = record {
    stage = s;
    phase = w.phase;
    active = w.active;
    running = w.running;
    same_id = e ∙ ap (λ (x : Tag). x.id) (sym w.tagged);
    timed = w.timed;
  }

  pub IsBusy-IsReady : (t : Task D) → IsBusy t → IsReady t
  IsBusy-IsReady t b = (ground (arith, b.running), b.timed, ground (arith, b.active))

  pub Advanced-IsValid :
      (t t' : Task D)
      → stage_ids t.pending_stages ≡ phase_ids t.pending_phases
      → length t.completed_stages ≡ length t.completed_phases
      → IsReady t
      → Advanced t t' t.pending_stages t.pending_phases
      → IsValid t'
  Advanced-IsValid t t' e c r (starts s p left kept w) =
      let same = Skips-aligned left e in
      let b = Started-IsBusy t t' s p (cc) w in
      record {
        aligned = cc;
        counted = rw (w.completed_kept, w.completed_phases_kept) c;
        busy = λ _. b;
        ready = IsBusy-IsReady t' b;
      }
  Advanced-IsValid t t' e c r (ends left no_stages no_phases w) = record {
    aligned = rw (no_stages, no_phases);
    counted = rw (w.completed_kept, w.completed_phases_kept) c;
    busy = λ h. absurd (cc);
    ready = (rw w.phase_kept r.0, rw w.timed_kept r.1, w.stage_kept r.2);
  }

-- An operation returns, and leaves a valid task.
abbrev pub IsSound : {D : Type 0} → Result (Task D) → Type 0
IsSound {D} r = (t' : Task D) × (r ≡ ok t') × IsValid t'

module _ {S D : Type 0} (host : Host S D) where
  -- Whatever is pending, the next stage is begun without an exception, and the task stays valid.
  pub begin_next_stage-IsValid :
      (restore : Option String) (t : Task D)
      → stage_ids t.pending_stages ≡ phase_ids t.pending_phases
      → length t.completed_stages ≡ length t.completed_phases
      → IsReady t
      → (t.interrupted ≡ true → t.finished ≡ false → IsBusy t)
      → (t' : Task D) × (begin_next_stage host restore t ≡ ok t') × IsValid t'
  unfolding begin_next_stage
  begin_next_stage-IsValid restore t e c r b = elim (Bool-cases t.interrupted) [
    | inl stopped ↦ (
      emit task_is_interrupted t,
      if_true t.interrupted _ _ stopped,
      record { aligned = e; counted = c; busy = b stopped; ready = r },
    )
    | inr free ↦ elim (Bool-cases t.killed) [
      | inl dead ↦ (
        finish_task (clear_resume t),
        if_false t.interrupted _ _ free ∙ if_true t.killed _ _ dead,
        record { aligned = e; counted = c; busy = λ h. absurd (cc); ready = r },
      )
      | inr alive ↦
          let (t', runs, way) =
            begin_next_stage-Advanced host restore t free alive (same_length _ _ e) in
          (t', runs, Advanced-IsValid (clear_resume t) t' e c r way)
    ]
  ]
