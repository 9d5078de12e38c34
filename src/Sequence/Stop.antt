-- ===== src/Sequence/Stop.antt =====
-- A sequence that is cancelled or killed, and when a sequence counts as finished.
use rmf_task.Base.{
  inl, inr, arith, Bool-cases, ◌||◌, ◌≡◌, refl, ◌∙◌, ap, true, false, [], ◌∷◌, some, ◌==◌, beq_self,
  if_true, if_false, ok, deref-some,
}
use rmf_task.Event.{Status, canceled, killed, skipped, finished, is}
use rmf_task.Event.Fold.{all_finished, finished-fold_status}
use rmf_task.Sequence.{
  cancels, kills, sequence_finished, EventState, Events, Active, call, refresh, update_status,
  cancel, kill, next_loop, next, event_finished,
}

-- After its status has been updated, a sequence counts as finished exactly if it is canceled, killed
-- or skipped, or all of its events count as finished.
pub finished-update_status :
    (s : EventState)
    → finished (update_status s).status ≡ (
        (is s.status canceled || is s.status killed || is s.status skipped)
        || all_finished s.dependencies)
unfolding update_status finished
finished-update_status s =
    elim (Bool-cases (is s.status canceled || is s.status killed || is s.status skipped)) [
      | inl stopped ↦
          ap (λ (x : EventState). finished x.status) (if_true _ _ _ stopped) ∙ over s.status stopped
      | inr open_still ↦
          ap (λ (x : EventState). finished x.status) (if_false _ _ _ open_still)
          ∙ finished-fold_status s.dependencies
          ∙ ground (arith, open_still)
    ]
  where
    over :
        (r : Status)
        → (is r canceled || is r killed || is r skipped) ≡ true
        → finished r
          ≡ ((is r canceled || is r killed || is r skipped) || all_finished s.dependencies)
    over r h = ground (arith, h)

module _ {E : Type 0} (events : Events E) where
  -- A sequence with no event left ends when its current event finishes.
  finish_last :
      (a : Active E)
      → a.attached ≡ true
      → a.inside_next ≡ false
      → a.reverse_remaining ≡ []
      → event_finished events a.current_event_index_plus_one a
        ≡ ok (call sequence_finished (refresh a))
  unfolding event_finished next next_loop
  finish_last a t i q =
      if_true (a.current_event_index_plus_one == a.current_event_index_plus_one) _ _
        (beq_self a.current_event_index_plus_one)
      ∙ if_false a.inside_next _ _ i
      ∙ ap (λ l. next_loop events l a) q
      ∙ if_true a.attached _ _ t

  -- Cancelling a sequence that was not killed before cancels its current event. When that event says
  -- that it has finished, the sequence begins no other one, tells its owner that it has finished, and
  -- stays canceled whatever the statuses of its events are.
  pub cancel_ends :
      (a : Active E) (e : E)
      → a.current ≡ some e
      → a.attached ≡ true
      → a.inside_next ≡ false
      → is a.state.status killed ≡ false
      → (a' : Active E) × (a'' : Active E) × (cancel a ≡ ok a')
        × (event_finished events a'.current_event_index_plus_one a' ≡ ok a'')
        × (a''.effects ≡ sequence_finished ∷ cancels e ∷ a.effects)
        × (a''.state.status ≡ canceled)
  unfolding cancel update_status
  cancel_ends a e c t i alive =
      let a' =
        call (cancels e)
          (record a { reverse_remaining = []; state = record a.state { status = canceled } }) in
      (
        a',
        call sequence_finished (refresh a'),
        deref-some a.current _ c,
        finish_last a' t i refl,
        refl,
        refl,
      )

  -- Killing a sequence kills its current event. When that event says that it has finished, the
  -- sequence begins no other one, tells its owner that it has finished, and stays killed whatever the
  -- statuses of its events are.
  pub kill_ends_sequence :
      (a : Active E) (e : E)
      → a.current ≡ some e
      → a.attached ≡ true
      → a.inside_next ≡ false
      → (a' : Active E) × (a'' : Active E) × (kill a ≡ ok a')
        × (event_finished events a'.current_event_index_plus_one a' ≡ ok a'')
        × (a''.effects ≡ sequence_finished ∷ kills e ∷ a.effects)
        × (a''.state.status ≡ killed)
  unfolding kill update_status
  kill_ends_sequence a e c t i =
      let a' =
        call (kills e)
          (record a { reverse_remaining = []; state = record a.state { status = killed } }) in
      (
        a',
        call sequence_finished (refresh a'),
        deref-some a.current _ c,
        finish_last a' t i refl,
        refl,
        refl,
      )
