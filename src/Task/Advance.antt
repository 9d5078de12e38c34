-- ===== src/Task/Advance.antt =====
-- What `_begin_next_stage` does to a task whose pending stages and phases have the same length.
use Prim.Native.String.{String}
use rmf_task.Base.{
  if_false, not, suc, ◌≡◌, refl, ◌∙◌, inl, inr, true, false, List, [], ◌∷◌, Option, none, some,
  arith, ◌==◌, length, is_some, Bool-cases, if_false_twice, ok, beq_self,
}
use rmf_task.Task.{
  Tag, Pending, Stage, ActivePhase, update, task_finished, Host, Task, emit, take_snapshot,
}
use rmf_task.Task.Stages.{
  consistency, finish_task, activate_phase, advance, begin_next_stage, clear_resume, pass_backup,
  issue_backup,
}

-- The stages and phases that are left when some at the front, marked to be skipped, are dropped.
pub data Skips {D : Type 0}
    : List (Stage D) → List Pending → List (Stage D) → List Pending → Type 0 where
  here : {stages : List (Stage D)} {phases : List Pending} → Skips stages phases stages phases
  skip :
      {s : Stage D} {p : Pending} {stages stages' : List (Stage D)} {phases phases' : List Pending}
      → p.will_be_skipped ≡ true
      → Skips stages phases stages' phases'
      → Skips (s ∷ stages) (p ∷ phases) stages' phases'

-- What an activation has done: the phase of the stage is active under its tag, inside a
-- cancellation phase if the task was cancelled, and nothing that was completed has changed.
pub record Started {D : Type 0} (t t' : Task D) (s : Stage D) (p : Pending) : Type 0 where
  pub active : t'.active_stage ≡ some s
  pub phase : ActivePhase
  pub running : t'.active_phase ≡ some phase
  pub tagged : phase.tag ≡ p.tag
  pub wrapped : phase.cancellation ≡ is_some t.cancelled_on_phase
  pub open_still : t'.finished ≡ t.finished
  pub completed_kept : t'.completed_stages ≡ t.completed_stages
  pub completed_phases_kept : t'.completed_phases ≡ t.completed_phases
  pub cancelled_kept : t'.cancelled_on_phase ≡ t.cancelled_on_phase
  pub killed_kept : t'.killed ≡ t.killed
  pub interrupted_kept : t'.interrupted ≡ t.interrupted
  pub initial_kept : t'.cancel_sequence_initial_id ≡ t.cancel_sequence_initial_id
  pub timed : is_some t'.current_phase_start_time ≡ true

-- Every pending stage was skipped, and the task is finished.
pub record Ended {D : Type 0} (t t' : Task D) : Type 0 where
  pub closed : t'.finished ≡ true
  pub told : t'.effects ≡ task_finished ∷ t.effects
  pub phase_kept : t'.active_phase ≡ t.active_phase
  pub stage_kept : is_some t.active_stage ≡ true → is_some t'.active_stage ≡ true
  pub completed_kept : t'.completed_stages ≡ t.completed_stages
  pub completed_phases_kept : t'.completed_phases ≡ t.completed_phases
  pub cancelled_kept : t'.cancelled_on_phase ≡ t.cancelled_on_phase
  pub killed_kept : t'.killed ≡ t.killed
  pub interrupted_kept : t'.interrupted ≡ t.interrupted
  pub initial_kept : t'.cancel_sequence_initial_id ≡ t.cancel_sequence_initial_id
  pub timed_kept : t'.current_phase_start_time ≡ t.current_phase_start_time

-- The two ways in which the loop ends: the first pending phase that is not to be skipped is
-- started, or there is none and the task is finished.
pub data Advanced {D : Type 0} (t t' : Task D) (stages : List (Stage D)) (phases : List Pending)
    : Type 0 where
  starts :
      (s : Stage D) (p : Pending)
      → Skips stages phases (s ∷ t'.pending_stages) (p ∷ t'.pending_phases)
      → p.will_be_skipped ≡ false
      → Started t t' s p
      → Advanced t t' stages phases
  ends :
      Skips stages phases [] []
      → t'.pending_stages ≡ []
      → t'.pending_phases ≡ []
      → Ended t t'
      → Advanced t t' stages phases

module _ {D : Type 0} where
  -- The check passes where there are as many phases as stages.
  same_sizes :
      (s : Stage D) (stages : List (Stage D)) (phases : List Pending)
      → length (s ∷ stages) ≡ length phases
      → consistency (s ∷ stages) phases ≡ ok true
  unfolding consistency
  same_sizes s stages phases h =
      if_false (not (length (s ∷ stages) == length phases)) _ _ (ground (arith, h))

  finish_task-Ended : (t : Task D) → Ended t (finish_task t)
  unfolding finish_task
  finish_task-Ended t = ground arith

  -- The task as the loop leaves it when it has taken a stage from the front.
  abbrev taken : Stage D → List (Stage D) → List Pending → Task D → Task D
  taken s stages phases t = record t {
    active_stage = some s;
    pending_stages = stages;
    pending_phases = phases;
    last_phase_backup_sequence_number = none;
  }

  Started-taken :
      (s₁ : Stage D) (stages₁ : List (Stage D)) (phases₁ : List Pending) (t t' : Task D)
      (s : Stage D) (p : Pending)
      → Started (taken s₁ stages₁ phases₁ t) t' s p
      → Started t t' s p
  Started-taken s₁ stages₁ phases₁ t t' s p w = record {
    active = w.active;
    phase = w.phase;
    running = w.running;
    tagged = w.tagged;
    wrapped = w.wrapped;
    open_still = w.open_still;
    completed_kept = w.completed_kept;
    completed_phases_kept = w.completed_phases_kept;
    cancelled_kept = w.cancelled_kept;
    killed_kept = w.killed_kept;
    interrupted_kept = w.interrupted_kept;
    initial_kept = w.initial_kept;
    timed = w.timed;
  }

  Ended-taken :
      (s₁ : Stage D) (stages₁ : List (Stage D)) (phases₁ : List Pending) (t t' : Task D)
      → Ended (taken s₁ stages₁ phases₁ t) t'
      → Ended t t'
  Ended-taken s₁ stages₁ phases₁ t t' w = record {
    closed = w.closed;
    told = w.told;
    phase_kept = w.phase_kept;
    stage_kept = λ _. w.stage_kept refl;
    completed_kept = w.completed_kept;
    completed_phases_kept = w.completed_phases_kept;
    cancelled_kept = w.cancelled_kept;
    killed_kept = w.killed_kept;
    interrupted_kept = w.interrupted_kept;
    initial_kept = w.initial_kept;
    timed_kept = w.timed_kept;
  }

  Advanced-skip :
      (s : Stage D) (p : Pending) (stages : List (Stage D)) (phases : List Pending) (t t' : Task D)
      → p.will_be_skipped ≡ true
      → Advanced (taken s stages phases t) t' stages phases
      → Advanced t t' (s ∷ stages) (p ∷ phases)
  Advanced-skip s p stages phases t t' h (starts s' p' left kept w) =
      starts s' p' (skip h left) kept (Started-taken s stages phases t t' s' p' w)
  Advanced-skip s p stages phases t t' h (ends left e f w) =
      ends (skip h left) e f (Ended-taken s stages phases t t' w)

module _ {S D : Type 0} (host : Host S D) where
  abbrev started : Option String → Stage D → Tag → Task D → Task D
  started restore s tag t =
      let phase : ActivePhase = record {
        tag = tag;
        cancellation = is_some t.cancelled_on_phase;
        phase = (host.is_registered (suc t.reads) tag s.description restore).0;
      } in
      pass_backup host tag.id phase.phase.backup (
        emit (update (take_snapshot phase)) (record t {
          current_phase_start_time = some (host.clock t.reads);
          active_phase = some phase;
          reads = suc (suc t.reads);
        }))

  -- The first backup of a phase is always passed on.
  activate_phase-eq-ok :
      (restore : Option String) (s : Stage D) (tag : Tag) (t : Task D)
      → t.last_phase_backup_sequence_number ≡ none
      → activate_phase host restore s tag t ≡ ok (started restore s tag t)
  unfolding activate_phase issue_backup
  activate_phase-eq-ok restore s tag t l =
      simp ((host.is_registered (suc t.reads) tag s.description restore).1, beq_self tag.id, l)

  started-Started :
      (restore : Option String) (s : Stage D) (p : Pending) (t : Task D)
      → t.active_stage ≡ some s
      → Started t (started restore s p.tag t) s p
  unfolding pass_backup
  started-Started restore s p t a = record {
    active = a;
    phase = record {
      tag = p.tag;
      cancellation = is_some t.cancelled_on_phase;
      phase = (host.is_registered (suc t.reads) p.tag s.description restore).0;
    };
    running = refl;
    tagged = refl;
    wrapped = refl;
    open_still = refl;
    completed_kept = refl;
    completed_phases_kept = refl;
    cancelled_kept = refl;
    killed_kept = refl;
    interrupted_kept = refl;
    initial_kept = refl;
    timed = refl;
  }

  pub advance-Advanced :
      (restore : Option String) (stages : List (Stage D)) (phases : List Pending) (t : Task D)
      → length stages ≡ length phases
      → t.pending_stages ≡ stages
      → t.pending_phases ≡ phases
      → (t' : Task D) × (advance host restore stages phases t ≡ ok t') × Advanced t t' stages phases
  unfolding advance pass_backup
  advance-Advanced restore [] [] t h e f =
      (finish_task t, refl, ends here e f (finish_task-Ended t))
  advance-Advanced restore [] (p ∷ phases) t h e f = absurd (omega arith)
  advance-Advanced restore (s ∷ stages) [] t h e f = absurd (omega arith)
  advance-Advanced restore (s ∷ stages) (p ∷ phases) t h e f =
      let same : consistency (s ∷ stages) (p ∷ phases) ≡ ok true =
        same_sizes s stages (p ∷ phases) h in
      let t₁ = taken s stages phases t in
      elim (Bool-cases p.will_be_skipped) [
        | inl skipped ↦
            let (t', runs, way) =
              advance-Advanced restore stages phases t₁ (omega arith) refl refl in
            (t', rw (same, skipped) runs, Advanced-skip s p stages phases t t' skipped way)
        | inr kept ↦ (
          started restore s p.tag t₁,
          rw (same, kept) (activate_phase-eq-ok restore s p.tag t₁ refl),
          starts s p here kept
              (Started-taken s stages phases t _ s p (started-Started restore s p t₁ refl)),
        )
      ]

  -- A task that is neither interrupted nor killed moves on to its first pending phase that is not
  -- marked to be skipped, or is finished if there is none.
  pub begin_next_stage-Advanced :
      (restore : Option String) (t : Task D)
      → t.interrupted ≡ false
      → t.killed ≡ false
      → length t.pending_stages ≡ length t.pending_phases
      → (t' : Task D) × (begin_next_stage host restore t ≡ ok t')
        × Advanced (clear_resume t) t' t.pending_stages t.pending_phases
  unfolding begin_next_stage
  begin_next_stage-Advanced restore t free alive h =
      let (t', runs, way) =
        advance-Advanced restore t.pending_stages t.pending_phases (clear_resume t) h refl refl in
      (t', if_false_twice t.interrupted t.killed _ _ _ free alive ∙ runs, way)
