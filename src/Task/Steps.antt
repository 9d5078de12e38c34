-- ===== src/Task/Steps.antt =====
-- What the operations on a task need to be seen to keep it valid.
use rmf_task.Base.{
  ℕ, zero, suc, ◌≡◌, refl, sym, ◌∙◌, ap, ◌⊎◌, inl, inr, Bool, true, false, List, [], ◌∷◌, some,
  arith, ◌==◌, Bool-cases, if_true, if_false, ok, err, diverges, deref-some, is_some→some,
  maybe-some,
}
use mathlib.Core.Path.{subst}
use rmf_task.Task.{Pending, Stage, PhaseState, Snapshot, ActivePhase, Host, Task}
use rmf_task.Task.Stages.{pending_of, next_state}
use rmf_task.Task.Control.{interrupt, kill, skip, mark_skip, seek}
use rmf_task.Task.Machine.{observe, phase_update}
use rmf_task.Task.Invariant.{stage_ids, phase_ids, BusyWith, IsBusy, IsValid, IsSound}

mark_skip-ids :
    (id : ℕ) (value : Bool) (phases : List Pending)
    → phase_ids (mark_skip id value phases) ≡ phase_ids phases
unfolding mark_skip
mark_skip-ids id value [] = refl
mark_skip-ids id value (p ∷ phases) = ground (arith, mark_skip-ids id value phases)

module _ {D : Type 0} where
  -- The parts of a task that its validity speaks of.
  pub IsValid-cong :
      (t t' : Task D)
      → stage_ids t'.pending_stages ≡ phase_ids t'.pending_phases
      → t'.completed_stages ≡ t.completed_stages
      → t'.completed_phases ≡ t.completed_phases
      → t'.finished ≡ t.finished
      → t'.active_stage ≡ t.active_stage
      → t'.active_phase ≡ t.active_phase
      → t'.current_phase_start_time ≡ t.current_phase_start_time
      → IsValid t
      → IsValid t'
  IsValid-cong t t' e c₁ c₂ f a b d v = record {
    aligned = e;
    counted = rw (c₁, c₂) v.counted;
    busy = λ h. rw (a, b, d) (v.busy (sym f ∙ h));
    ready = rw (a, b, d) v.ready;
  }

  -- A valid task has an active phase.
  pub IsValid-phase : (t : Task D) → IsValid t → (a : ActivePhase) × (t.active_phase ≡ some a)
  IsValid-phase t v = ground (arith, v.ready.0)

  pub IsValid-time : (t : Task D) → IsValid t → (n : ℕ) × (t.current_phase_start_time ≡ some n)
  IsValid-time t v = ground (arith, v.ready.1)

  pub IsValid-stage : (t : Task D) → IsValid t → (s : Stage D) × (t.active_stage ≡ some s)
  IsValid-stage t v = is_some→some t.active_stage v.ready.2

  -- The search of a rewind ends at once or never.
  pub seek-cases :
      (rounds id : ℕ) (stages : List (Stage D))
      → (seek rounds id stages ≡ err diverges)
        ⊎ ((seek rounds id stages ≡ ok [])
            ⊎ ((s : Stage D) × (rest : List (Stage D)) × (stages ≡ s ∷ rest)
                × (seek rounds id stages ≡ ok stages)))
  unfolding seek
  seek-cases zero id stages = inl refl
  seek-cases (suc rounds) id [] = inr (inl refl)
  seek-cases (suc rounds) id (s ∷ stages) = elim (Bool-cases (s.id == id)) [
    | inl here ↦ inr (inr (s, stages, refl, if_true _ _ _ here))
    | inr past ↦ elim (seek-cases rounds id (s ∷ stages)) [
      | inl lost ↦ inl (if_false _ _ _ past ∙ lost)
      | inr (inl odd) ↦ inr (inl (if_false _ _ _ past ∙ odd))
      | inr (inr (s', rest, e, found)) ↦ inr (inr (s', rest, e, if_false _ _ _ past ∙ found))
    ]
  ]

  pub kill-IsSound : (t : Task D) → IsValid t → IsSound (kill t)
  unfolding kill
  kill-IsSound t v =
      let (a, e) = IsValid-phase t v in
      (_, deref-some t.active_phase _ e, IsValid-cong t _ v.aligned refl refl refl refl refl refl v)

  pub interrupt-IsSound : (t : Task D) → IsValid t → IsSound (interrupt t)
  unfolding interrupt
  interrupt-IsSound t v =
      let (a, e) = IsValid-phase t v in
      (_, deref-some t.active_phase _ e, IsValid-cong t _ v.aligned refl refl refl refl refl refl v)

  pub skip-IsSound : (id : ℕ) (value : Bool) (t : Task D) → IsValid t → IsSound (skip id value t)
  unfolding skip
  skip-IsSound id false t v = (
    _,
    refl,
    IsValid-cong t _ (v.aligned ∙ sym (mark_skip-ids id false t.pending_phases)) refl refl refl refl
        refl refl v,
  )
  skip-IsSound id true t v =
      let (a, e) = IsValid-phase t v in
      elim (Bool-cases (a.tag.id == id)) [
        | inl current ↦ (
          _,
          deref-some t.active_phase _ e ∙ if_true (a.tag.id == id) _ _ current,
          IsValid-cong t _ v.aligned refl refl refl refl refl refl v,
        )
        | inr pending ↦ (
          _,
          deref-some t.active_phase _ e ∙ if_false (a.tag.id == id) _ _ pending,
          IsValid-cong t _ (v.aligned ∙ sym (mark_skip-ids id true t.pending_phases)) refl refl refl
              refl refl refl v,
        )
      ]

  pub phase_update-IsValid :
      (cancellation : Bool) (snapshot : Snapshot) (t : Task D)
      → IsValid t
      → IsValid (phase_update cancellation snapshot t)
  unfolding phase_update
  phase_update-IsValid false snapshot t v =
      IsValid-cong t _ v.aligned refl refl refl refl refl refl v
  phase_update-IsValid true snapshot t v =
      let (a, e) = IsValid-phase t v in
      subst IsValid (sym (maybe-some t.active_phase _ _ e))
        (IsValid-cong t _ v.aligned refl refl refl refl refl refl v)

  pub observe-IsValid : (state : PhaseState) (t : Task D) → IsValid t → IsValid (observe state t)
  unfolding observe
  observe-IsValid state t v =
      let (a, e) = IsValid-phase t v in
      subst IsValid (sym (maybe-some t.active_phase _ _ e)) (record {
        aligned = v.aligned;
        counted = v.counted;
        busy = λ h. observed a e (v.busy h);
        ready = (refl, v.ready.1, v.ready.2);
      })
    where
      same :
          {a : ActivePhase} (b : ActivePhase)
          → t.active_phase ≡ some b
          → t.active_phase ≡ some a
          → b ≡ a
      same b p q = cc

      observed :
          (a : ActivePhase)
          → t.active_phase ≡ some a
          → IsBusy t
          → BusyWith t.active_stage (some (record a { phase = state })) t.current_phase_start_time
      observed a e b = record {
        stage = b.stage;
        phase = record a { phase = state };
        active = b.active;
        running = refl;
        same_id = b.same_id ∙ ap (λ (x : ActivePhase). x.tag.id) (same b.phase b.running e);
        timed = b.timed;
      }

module _ {S D : Type 0} (host : Host S D) where
  pub pending_of-ids :
      (state : S) (stages : List (Stage D))
      → stage_ids stages ≡ phase_ids (pending_of host state stages)
  unfolding pending_of
  pending_of-ids state [] = refl
  pending_of-ids state (s ∷ stages) =
      ap (λ (ids : List ℕ). s.id ∷ ids)
        (pending_of-ids (next_state host (host.make_model s.description state) state) stages)
