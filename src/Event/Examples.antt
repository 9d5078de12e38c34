-- ===== src/Event/Examples.antt =====
-- Tests of the statuses, and the theorems about them at concrete inputs.
use rmf_task.Base.{◌++◌, ◌≡◌, refl, ◌∷◌, []}
use rmf_task.Event.{error, standby, underway, canceled, completed, finished, sequence_status}
use rmf_task.Event.Fold.{fold_status, fold_status-overall, fold_status_nested}

trouble_first : sequence_status underway error ≡ error
unfolding sequence_status
trouble_first = refl

fold_status-overall_example : fold_status completed (canceled ∷ underway ∷ standby ∷ []) ≡ underway
unfolding finished
fold_status-overall_example = fold_status-overall completed (canceled ∷ underway ∷ standby ∷ [])

fold_status_nested_example :
    fold_status completed
      ((completed ∷ []) ++ fold_status completed (underway ∷ standby ∷ []) ∷ standby ∷ [])
    ≡ fold_status completed ((completed ∷ []) ++ ((underway ∷ standby ∷ []) ++ standby ∷ []))
fold_status_nested_example =
    fold_status_nested completed underway (completed ∷ []) (standby ∷ []) (standby ∷ [])

-- A sequence without events counts as completed.
fold_status_empty : fold_status completed (canceled ∷ fold_status completed [] ∷ []) ≡ completed
unfolding fold_status sequence_status
fold_status_empty = refl
