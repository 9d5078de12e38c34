-- ===== src/Sequence/Next.antt =====
-- How far `next` goes, and the run of a sequence.
use rmf_task.Base.{
  ℕ, zero, suc, ◌+◌, ◌<◌, ◌≡◌, refl, sym, ◌∙◌, ap, ◌⊎◌, inl, inr, Bool, true, false, List, [], ◌∷◌,
  ◌++◌, some, if◌then◌else◌, All, arith, ◌==◌, length, u64, Bool-cases, beq_self, if_true, if_false,
  Result, ok, err, diverges, ◌>>=◌, >>=-ok,
}
use rmf_task.Event.{finished}
use rmf_task.Sequence.{
  SequenceEffect, begins, sequence_finished, parent_update, checkpoint, Events, Active, refresh,
  call, begin_event, next_loop, next, event_finished,
}

module _ {E : Type 0} where
  -- The events begun, the last one first, in front of others.
  abbrev pub rev_onto : List E → List E → List E
  rev_onto [] acc = acc
  rev_onto (e ∷ es) acc = rev_onto es (e ∷ acc)

  abbrev pub begun_calls : List E → List (SequenceEffect E) → List (SequenceEffect E)
  begun_calls [] effects = effects
  begun_calls (e ∷ es) effects = begun_calls es (begins e ∷ effects)

  -- The events that the calls begin.
  abbrev pub begun : List (SequenceEffect E) → List E
  begun [] = []
  begun (begins e ∷ effects) = e ∷ begun effects
  begun (_ ∷ effects) = begun effects

  -- How often the owner was told that the sequence has finished.
  abbrev pub finishes : List (SequenceEffect E) → ℕ
  finishes [] = 0
  finishes (sequence_finished ∷ effects) = suc (finishes effects)
  finishes (_ ∷ effects) = finishes effects

  -- The last call said that the sequence has finished.
  abbrev pub ended : List (SequenceEffect E) → Bool
  ended (sequence_finished ∷ _) = true
  ended _ = false

module _ {E : Type 0} (events : Events E) where
  next_loop-begins :
      (done : List E) (e : E) (rest : List E) (a : Active E)
      → a.attached ≡ true
      → All (λ d. finished (events.begun_status d) ≡ true) done
      → finished (events.begun_status e) ≡ false
      → (a' : Active E) × (next_loop events (done ++ e ∷ rest) a ≡ ok a')
        × (a'.current ≡ some e)
        × (a'.reverse_remaining ≡ rest)
        × (a'.current_event_index_plus_one
            ≡ u64 (a.current_event_index_plus_one + suc (length done)))
        × (a'.effects ≡ checkpoint ∷ parent_update ∷ begun_calls (done ++ e ∷ []) a.effects)
  unfolding next_loop begin_event
  next_loop-begins [] e rest a t l f = (
    call checkpoint (call parent_update (refresh (begin_event events e rest a))),
    if_false (finished (events.begun_status e)) _ _ f ∙ if_true a.attached _ _ t,
    refl,
    refl,
    refl,
    refl,
  )
  next_loop-begins (d ∷ done) e rest a t l f =
      let b = begin_event events d (done ++ e ∷ rest) a in
      let r = next_loop-begins done e rest b t l.1 f in
      let count : u64 (u64 (a.current_event_index_plus_one + 1) + suc (length done))
          ≡ u64 (a.current_event_index_plus_one + suc (suc (length done))) =
        omega arith in
      (r.0, if_true (finished (events.begun_status d)) _ _ l.0 ∙ r.1, r.2, r.3, r.4 ∙ count, r.5)

  -- The next event: those that have finished as soon as they are begun are passed, each begun once
  -- and in order, until one has not. It is the current event, the later ones remain, the number
  -- counts all that were begun, and the owner is told of the update and the checkpoint, in this
  -- order. (The call does not come from within another one.)
  pub next-begins :
      (done : List E) (e : E) (rest : List E) (a : Active E)
      → a.attached ≡ true
      → a.inside_next ≡ false
      → a.reverse_remaining ≡ done ++ e ∷ rest
      → All (λ d. finished (events.begun_status d) ≡ true) done
      → finished (events.begun_status e) ≡ false
      → (a' : Active E) × (next events a ≡ ok a')
        × (a'.current ≡ some e)
        × (a'.reverse_remaining ≡ rest)
        × (a'.current_event_index_plus_one
            ≡ u64 (a.current_event_index_plus_one + suc (length done)))
        × (a'.effects ≡ checkpoint ∷ parent_update ∷ begun_calls (done ++ e ∷ []) a.effects)
  unfolding next
  next-begins done e rest a t i q l f =
      let r = next_loop-begins done e rest a t l f in
      (
        r.0,
        if_false a.inside_next _ _ i ∙ ap (λ es. next_loop events es a) q ∙ r.1,
        r.2,
        r.3,
        r.4,
        r.5,
      )

  -- What one call of `next` does to a sequence whose remaining events are `l`: the events begun
  -- and those that remain are the same in all; either it has ended, or fewer events remain.
  abbrev Stepped : List E → Active E → Active E → Type 0
  Stepped l a a' =
      (a'.attached ≡ true)
      × (a'.inside_next ≡ a.inside_next)
      × (rev_onto a'.reverse_remaining (begun a'.effects) ≡ rev_onto l (begun a.effects))
      × (((ended a'.effects ≡ true)
            × (a'.reverse_remaining ≡ [])
            × (finishes a'.effects ≡ suc (finishes a.effects)))
          ⊎ ((ended a'.effects ≡ false)
              × (length a'.reverse_remaining < length l)
              × (finishes a'.effects ≡ finishes a.effects)))

  next_loop-Stepped :
      (l : List E) (a : Active E)
      → a.attached ≡ true
      → a.reverse_remaining ≡ l
      → (a' : Active E) × (next_loop events l a ≡ ok a') × Stepped l a a'
  unfolding next_loop begin_event
  next_loop-Stepped [] a t q = (
    call sequence_finished (refresh a),
    if_true a.attached _ _ t,
    (t, refl, ap (λ es. rev_onto es (begun a.effects)) q, inl (refl, q, refl)),
  )
  next_loop-Stepped (e ∷ rest) a t q = elim (Bool-cases (finished (events.begun_status e))) [
    | inl over ↦
        let r = next_loop-Stepped rest (begin_event events e rest a) t refl in
        (
          r.0,
          if_true (finished (events.begun_status e)) _ _ over ∙ r.1,
          (
            r.2.0,
            r.2.1,
            r.2.2,
            elim r.2.3 [ inl x ↦ inl x | inr x ↦ inr (x.0, omega (arith, x.1), x.2) ],
          ),
        )
    | inr runs ↦ (
      call checkpoint (call parent_update (refresh (begin_event events e rest a))),
      if_false (finished (events.begun_status e)) _ _ runs ∙ if_true a.attached _ _ t,
      (t, refl, refl, inr (refl, omega arith, refl)),
    )
  ]

  -- The current event finishes, again and again, until the sequence has ended.
  unfoldable pub run : ℕ → Active E → Result (Active E)
  run zero a = err diverges
  run (suc rounds) a = do
    a' ← event_finished events a.current_event_index_plus_one a
    let more = run rounds a'
    if ended a'.effects then ok a' else more

  -- A sequence whose current event finishes, and so on for the next ones, begins each of the
  -- remaining events once, in order, and then tells its owner once that it has finished. This takes
  -- no more rounds than one for each remaining event and one more.
  pub run_lem :
      (rounds : ℕ) (a : Active E)
      → a.attached ≡ true
      → a.inside_next ≡ false
      → length a.reverse_remaining < rounds
      → (a' : Active E) × (run rounds a ≡ ok a')
        × (a'.reverse_remaining ≡ [])
        × (begun a'.effects ≡ rev_onto a.reverse_remaining (begun a.effects))
        × (finishes a'.effects ≡ suc (finishes a.effects))
  unfolding run next event_finished
  run_lem zero a t i h = absurd (omega (arith, h))
  run_lem (suc rounds) a t i h =
      let r = next_loop-Stepped a.reverse_remaining a t refl in
      let first =
        >>=-ok (event_finished events a.current_event_index_plus_one a)
          (λ x. let more = run rounds x in if ended x.effects then ok x else more)
          (if_true (a.current_event_index_plus_one == a.current_event_index_plus_one) _ _
              (beq_self a.current_event_index_plus_one)
            ∙ if_false a.inside_next _ _ i
            ∙ r.1) in
      elim r.2.3 [
        | inl over ↦ (
          r.0,
          first ∙ if_true (ended r.0.effects) _ _ over.0,
          over.1,
          sym (ap (λ es. rev_onto es (begun r.0.effects)) over.1) ∙ r.2.2,
          over.2,
        )
        | inr more ↦
            let s = run_lem rounds r.0 r.2.0 (r.2.1 ∙ i) (omega (arith, more.1)) in
            (
              s.0,
              first ∙ if_false (ended r.0.effects) _ _ more.0 ∙ s.1,
              s.2,
              s.3 ∙ r.2.2,
              s.4 ∙ ap suc more.2,
            )
      ]
