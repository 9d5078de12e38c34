-- ===== src/Sequence/Restore.antt =====
-- Sequence.cpp: restoring a sequence of events from a backup.
use rmf_task.Base.{
  mismatch, maybe, ℕ, ◌+◌, ◌≡◌, true, false, List, [], ◌∷◌, ◌++◌, Option, none, some, get_elem?,
  u64, Result, ok, err, null_pointer, ◌>>=◌, deref,
}
use rmf_task.Event.{error, standby}
use rmf_task.Sequence.{EventState, Active, make_active, cancel, kill, interrupt}

-- What `std::move` leaves in the shared pointer to the state, once a constructor has taken it: the
-- language says that it is null.
unfoldable moved_from : Option EventState → Option EventState
moved_from _ = none

module _ {E : Type 0} where
  -- `active->state()` is the state of the sequence, whose own status it adds to the dependencies.
  -- The code behind it begins the later events; it is not modelled, since the pointer is null here.
  unfoldable add_dependency : Active E → Option EventState → Result (Active E)
  add_dependency a state = do
    s ← deref state
    ok (record a { state = record s { dependencies = s.dependencies ++ s.status ∷ [] } })

  -- The result when the backup cannot be used: no functions are given.
  unfoldable failed_to_restore_sequence : Active E
  unfolding make_active
  failed_to_restore_sequence = make_active [] (record { status = error; dependencies = [] }) false

  unfoldable restore_at : ℕ → E → Result (Active E)
  unfolding add_dependency moved_from make_active
  restore_at index e =
      let state : EventState = record { status = standby; dependencies = [] } in
      let active = record (make_active [] state true) {
        current_event_index_plus_one = u64 (index + 1);
      } in
      add_dependency (record active { current = some e }) (moved_from (some state))

  -- What the text of the backup is: `none` if it is no JSON, which is an exception, and otherwise the
  -- index that it has, if it fits the schema.
  unfoldable pub restore : Option (Option ℕ) → List E → Result (Active E)
  unfolding restore_at failed_to_restore_sequence
  restore text elements = maybe text (err mismatch) λ parsed.
      maybe parsed (ok failed_to_restore_sequence) λ index.
        maybe (get_elem? elements index) (ok failed_to_restore_sequence) λ e. restore_at index e

  -- Without a running sequence: what a restoration leaves behind.
  abbrev pub IsUnusable : Active E → Type 0
  IsUnusable a =
      (a.state.status ≡ error)
      × (cancel a ≡ err null_pointer)
      × (kill a ≡ err null_pointer)
      × (interrupt a ≡ err null_pointer)
