-- ===== src/Task/Restoring.antt =====
-- How a task starts anew.
use mathlib.Core.Path.{subst}
use Prim.Native.String.{String}
use rmf_task.Base.{
  ◌≡◌, refl, ◌∙◌, ap, true, false, List, [], ◌∷◌, ◌++◌, Option, none, ok, >>=-ok, ◌>>=◌,
}
use rmf_task.Task.{Stage, Host, Task, construct}
use rmf_task.Task.Stages.{
  clear_resume, begin_next_stage, generate_pending_phases, pending_of, next_state,
}
use rmf_task.Task.Restore.{make}
use rmf_task.Task.Advance.{Advanced, starts, ends, begin_next_stage-Advanced}
use rmf_task.Task.Machine.{run}
use rmf_task.Task.Invariant.{
  stage_ids, phase_ids, same_length, Skips-aligned, Started-IsBusy, IsBusy-IsReady,
}
use rmf_task.Task.Sound.{generate_pending_phases-aligned}
use rmf_task.Task.Progress.{Unskipped, Skips-none, OnTrack, finish_each, run-finish_each}

module _ {S D : Type 0} (host : Host S D) where
  pending_of-Unskipped :
      (state : S) (stages : List (Stage D)) → Unskipped (pending_of host state stages)
  unfolding pending_of
  pending_of-Unskipped state [] = tt
  pending_of-Unskipped state (s ∷ stages) = (
    refl,
    pending_of-Unskipped (next_state host (host.make_model s.description state) state) stages,
  )

  -- A task with pending stages and nothing behind it begins with the first of them.
  begin_first :
      (restore : Option String) (s : Stage D) (stages : List (Stage D)) (t : Task D)
      → t.pending_stages ≡ s ∷ stages
      → t.completed_stages ≡ []
      → t.completed_phases ≡ []
      → t.interrupted ≡ false
      → t.killed ≡ false
      → (t' : Task D) × (begin_next_stage host restore (generate_pending_phases host t) ≡ ok t')
        × OnTrack t' s stages
        × (t'.completed_stages ≡ [])
  unfolding clear_resume generate_pending_phases
  begin_first restore s stages t p c₁ c₂ free alive =
      let t₁ = generate_pending_phases host t in
      let aligned = generate_pending_phases-aligned host t in
      let (t', runs, way) =
        begin_next_stage-Advanced host restore t₁ free alive
          (same_length t.pending_stages t₁.pending_phases aligned) in
      let (track, nothing) = first t' aligned way in (t', runs, track, nothing)
    where
      unskipped : Unskipped (generate_pending_phases host t).pending_phases
      unskipped = pending_of-Unskipped (host.get_state t.reads) t.pending_stages

      first :
          (t' : Task D)
          → let t₁ = generate_pending_phases host t in
            stage_ids t₁.pending_stages ≡ phase_ids t₁.pending_phases
            → Advanced (clear_resume t₁) t' t₁.pending_stages t₁.pending_phases
            → OnTrack t' s stages × (t'.completed_stages ≡ [])
      first t' aligned (starts s' p' left kept w) =
          let e = Skips-none left unskipped in
          let same = Skips-aligned left aligned in
          let b = Started-IsBusy (clear_resume (generate_pending_phases host t)) t' s' p' (cc) w in
          (
            record {
              valid = record {
                aligned = cc;
                counted = cc (w.completed_kept, w.completed_phases_kept);
                busy = λ _. b;
                ready = IsBusy-IsReady t' b;
              };
              active = w.active ∙ cc (p, e.0);
              pending = cc (p, e.0);
              unskipped = (subst Unskipped e.1 unskipped).1;
              free = w.interrupted_kept ∙ free;
              alive = w.killed_kept ∙ alive;
            },
            w.completed_kept ∙ c₁,
          )
      first t' aligned (ends left no_stages no_phases w) =
          let e = Skips-none left unskipped in absurd (cc (p, e.0))

  -- A new task begins with its first stage.
  make-OnTrack :
      (s : Stage D) (stages : List (Stage D))
      → (t' : Task D) × (make host (s ∷ stages) none ≡ ok t')
        × OnTrack t' s stages
        × (t'.completed_stages ≡ [])
  unfolding make
  make-OnTrack s stages =
      begin_first none s stages (record (construct (s ∷ stages)) { reads = 1 }) refl refl refl refl
        refl

  -- A task that is made from some stages, and whose phases then finish in turn, is finished and has
  -- completed all of its stages, in their order.
  pub make-run :
      (s : Stage D) (stages : List (Stage D))
      → (t' : Task D) × ((make host (s ∷ stages) none >>= run host (finish_each (s ∷ stages)))
          ≡ ok t')
        × (t'.finished ≡ true)
        × (t'.completed_stages ≡ s ∷ stages)
  make-run s stages =
      let (t, made, track, nothing) = make-OnTrack s stages in
      let (t', runs, closed, done) = run-finish_each host stages s t track in
      (
        t',
        >>=-ok _ _ made ∙ runs,
        closed,
        done ∙ ap (λ (l : List (Stage D)). l ++ s ∷ stages) nothing,
      )
