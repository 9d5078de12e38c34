-- ===== src/Task/Progress.antt =====
-- A task whose phases finish one after the other.
use mathlib.Core.Path.{subst}
use rmf_task.Base.{
  ℕ, suc, ◌≡◌, refl, ◌∙◌, ap, true, false, not, List, [], ◌∷◌, ◌++◌, append_assoc, none, some,
  arith, ◌==◌, All, length, length-append, if_false, ok, deref-some, is_some→some, maybe-some,
  >>=-ok,
}
use rmf_task.Task.{
  Pending, Stage, Completed, ActivePhase, Host, Task, emit, phase_finished, take_snapshot,
}
use rmf_task.Task.Stages.{clear_resume, begin_next_stage, finish_phase}
use rmf_task.Task.Advance.{Skips, here, skip, Advanced, starts, ends, begin_next_stage-Advanced}
use rmf_task.Task.Machine.{Command, finishes, step, run}
use rmf_task.Task.Invariant.{IsValid, same_length, Advanced-IsValid}

module _ {S D : Type 0} (host : Host S D) where
  abbrev pub completed_phase : Task D → ActivePhase → ℕ → Completed
  completed_phase t a n = record {
    snapshot = take_snapshot a;
    start = n;
    finish = host.clock t.reads;
  }

  -- The task when the active phase has been recorded as completed, before the next stage begins.
  abbrev pub recorded : Task D → Stage D → ActivePhase → ℕ → Task D
  recorded t s a n = emit (phase_finished (completed_phase t a n)) (record t {
    completed_stages = t.completed_stages ++ s ∷ [];
    completed_phases = t.completed_phases ++ completed_phase t a n ∷ [];
    reads = suc t.reads;
  })

  -- The active phase finishes: it is recorded, its owner is told, and the next stage begins.
  pub finish_phase-recorded :
      (t : Task D) (s : Stage D) (a : ActivePhase) (n : ℕ)
      → t.active_stage ≡ some s
      → t.active_phase ≡ some a
      → t.current_phase_start_time ≡ some n
      → finish_phase host s.id t ≡ begin_next_stage host none (recorded t s a n)
  unfolding finish_phase
  finish_phase-recorded t s a n e f g =
      maybe-some t.active_stage _ _ e
      ∙ if_false (not (s.id == s.id)) _ _ (ground arith)
      ∙ deref-some t.active_phase _ f
      ∙ deref-some t.current_phase_start_time _ g

  finish_phase-Advanced :
      (t : Task D) (s : Stage D)
      → IsValid t
      → t.active_stage ≡ some s
      → t.interrupted ≡ false
      → t.killed ≡ false
      → (a : ActivePhase) × (n : ℕ) × (t' : Task D) × (finish_phase host s.id t ≡ ok t')
        × Advanced (clear_resume (recorded t s a n)) t' t.pending_stages t.pending_phases
        × IsValid t'
  unfolding clear_resume
  finish_phase-Advanced t s v e free alive =
      let (a, f) = is_some→some t.active_phase v.ready.0 in
      let (n, g) = is_some→some t.current_phase_start_time v.ready.1 in
      let (t', runs, way) =
        begin_next_stage-Advanced host none (recorded t s a n) free alive
          (same_length t.pending_stages t.pending_phases v.aligned) in
      (
        a,
        n,
        t',
        finish_phase-recorded t s a n e f g ∙ runs,
        way,
        Advanced-IsValid (clear_resume (recorded t s a n)) t' v.aligned (counted a n)
            (v.ready.0, v.ready.1, v.ready.2) way,
      )
    where
      counted :
          (a : ActivePhase) (n : ℕ)
          → length (t.completed_stages ++ s ∷ [])
            ≡ length (t.completed_phases ++ completed_phase t a n ∷ [])
      counted a n = omega (
        arith,
        v.counted,
        length-append t.completed_stages (s ∷ []),
        length-append t.completed_phases (completed_phase t a n ∷ []),
      )

-- No pending phase is marked to be skipped.
abbrev pub Unskipped : List Pending → Type 0
Unskipped = All (λ p. p.will_be_skipped ≡ false)

module _ {D : Type 0} where
  pub Skips-none :
      {stages stages' : List (Stage D)} {phases phases' : List Pending}
      → Skips stages phases stages' phases'
      → Unskipped phases
      → (stages ≡ stages') × (phases ≡ phases')
  Skips-none here u = (refl, refl)
  Skips-none (skip h left) u = absurd (cc)

-- What a task needs to run through its stages: it is valid, the stage is active, and nobody
-- interrupted it, killed it or asked to skip a phase.
pub record OnTrack {D : Type 0} (t : Task D) (s : Stage D) (stages : List (Stage D)) : Type 0 where
  pub valid : IsValid t
  pub active : t.active_stage ≡ some s
  pub pending : t.pending_stages ≡ stages
  pub unskipped : Unskipped t.pending_phases
  pub free : t.interrupted ≡ false
  pub alive : t.killed ≡ false

module _ {S D : Type 0} (host : Host S D) where
  finish_last :
      (t : Task D) (s : Stage D)
      → OnTrack t s []
      → (t' : Task D) × (finish_phase host s.id t ≡ ok t')
        × (t'.finished ≡ true)
        × (t'.completed_stages ≡ t.completed_stages ++ s ∷ [])
  unfolding clear_resume
  finish_last t s o =
      let (a, n, t', runs, way, v) =
        finish_phase-Advanced host t s o.valid o.active o.free o.alive in
      let (closed, recorded_last) = over a n t' way in (t', runs, closed, recorded_last)
    where
      over :
          (a : ActivePhase) (n : ℕ) (t' : Task D)
          → Advanced (clear_resume (recorded host t s a n)) t' t.pending_stages t.pending_phases
          → (t'.finished ≡ true) × (t'.completed_stages ≡ t.completed_stages ++ s ∷ [])
      over a n t' (starts s' p' left kept w) =
          let e = Skips-none left o.unskipped in absurd (cc (o.pending, e.0))
      over a n t' (ends left no_stages no_phases w) = (w.closed, w.completed_kept)

  finish_next :
      (t : Task D) (s s' : Stage D) (stages : List (Stage D))
      → OnTrack t s (s' ∷ stages)
      → (t' : Task D) × (finish_phase host s.id t ≡ ok t')
        × OnTrack t' s' stages
        × (t'.completed_stages ≡ t.completed_stages ++ s ∷ [])
  unfolding clear_resume
  finish_next t s s' stages o =
      let (a, n, t', runs, way, v) =
        finish_phase-Advanced host t s o.valid o.active o.free o.alive in
      let (track, recorded_next) = onward a n t' way v in (t', runs, track, recorded_next)
    where
      onward :
          (a : ActivePhase) (n : ℕ) (t' : Task D)
          → Advanced (clear_resume (recorded host t s a n)) t' t.pending_stages t.pending_phases
          → IsValid t'
          → OnTrack t' s' stages × (t'.completed_stages ≡ t.completed_stages ++ s ∷ [])
      onward a n t' (starts s₁ p₁ left kept w) v =
          let e = Skips-none left o.unskipped in
          (
            record {
              valid = v;
              active = w.active ∙ cc (o.pending, e.0);
              pending = cc (o.pending, e.0);
              unskipped = (subst Unskipped e.1 o.unskipped).1;
              free = w.interrupted_kept ∙ o.free;
              alive = w.killed_kept ∙ o.alive;
            },
            w.completed_kept,
          )
      onward a n t' (ends left no_stages no_phases w) v =
          let e = Skips-none left o.unskipped in absurd (cc (o.pending, e.0))

-- Each of these stages finishes, in their order.
abbrev pub finish_each : {D : Type 0} → List (Stage D) → List Command
finish_each [] = []
finish_each (s ∷ stages) = finishes s.id ∷ finish_each stages

module _ {S D : Type 0} (host : Host S D) where
  -- When the active phase and then each pending one finishes, in their order, the task is finished
  -- and has completed exactly these stages, in that order.
  pub run-finish_each :
      (stages : List (Stage D)) (s : Stage D) (t : Task D)
      → OnTrack t s stages
      → (t' : Task D) × (run host (finish_each (s ∷ stages)) t ≡ ok t')
        × (t'.finished ≡ true)
        × (t'.completed_stages ≡ t.completed_stages ++ s ∷ stages)
  unfolding run step
  run-finish_each [] s t o =
      let (t', runs, closed, done) = finish_last host t s o in (t', >>=-ok _ _ runs, closed, done)
  run-finish_each (s' ∷ stages) s t o =
      let (t₁, first, track, done) = finish_next host t s s' stages o in
      let (t', rest, closed, all_done) = run-finish_each stages s' t₁ track in
      (
        t',
        >>=-ok _ _ first ∙ rest,
        closed,
        all_done
            ∙ ap (λ (l : List (Stage D)). l ++ s' ∷ stages) done
            ∙ append_assoc t.completed_stages (s ∷ []) (s' ∷ stages),
      )
