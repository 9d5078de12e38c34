-- ===== src/Event/Fold.antt =====
-- What the status of a sequence of events is.
use rmf_task.Base.{
  sym, ap, ◌++◌, ◌≡◌, refl, Bool, true, false, ◌||◌, ◌&&◌, List, [], ◌∷◌, ◌∙◌, if◌then◌else◌, arith,
}
use rmf_task.Event.{
  Status, uninitialized, blocked, error, failed, completed, finished, is, sequence_status,
}

sequence_status_assoc :
    (a b c : Status)
    → sequence_status (sequence_status a b) c ≡ sequence_status a (sequence_status b c)
unfolding sequence_status
sequence_status_assoc a b c = ground arith

sequence_status_completed : (a : Status) → sequence_status completed a ≡ a
unfolding sequence_status
sequence_status_completed a = ground arith

-- The loop of `Sequence::Standby::update_status` over the dependencies' statuses.
unfoldable pub fold_status : Status → List Status → Status
fold_status status [] = status
fold_status status (d ∷ deps) = fold_status (sequence_status status d) deps

-- Some status of the list is `s`.
abbrev pub has : Status → List Status → Bool
has s [] = false
has s (d ∷ deps) = is d s || has s deps

-- The first status that is not over, or else the last one.
abbrev pub frontier : Status → List Status → Status
frontier s [] = s
frontier s (d ∷ deps) = if finished s then frontier d deps else s

-- What a reader expects of a sequence: trouble first, then where the sequence has got to.
abbrev pub overall : Status → List Status → Status
overall s deps =
    if has failed (s ∷ deps)
    then failed
    else if has error (s ∷ deps)
    then error
    else if has blocked (s ∷ deps)
    then blocked
    else if has uninitialized (s ∷ deps)
    then uninitialized
    else frontier s deps

frontier_live : (s : Status) (deps : List Status) → finished s ≡ false → frontier s deps ≡ s
frontier_live s [] h = refl
frontier_live s (d ∷ deps) h = rw h

overall_step :
    (s d : Status) (deps : List Status) → overall (sequence_status s d) deps ≡ overall s (d ∷ deps)
unfolding sequence_status finished
overall_step s failed deps = ground arith
overall_step failed d deps = refl
overall_step s d deps = ground (arith, frontier_live s deps, frontier_live d deps)

-- The folded status of a sequence is the most critical trouble among its events, if there is any,
-- and otherwise the status of the first event that is not over, or of the last one if all are.
pub fold_status-overall : (s : Status) (deps : List Status) → fold_status s deps ≡ overall s deps
unfolding fold_status finished
fold_status-overall s [] = ground arith
fold_status-overall s (d ∷ deps) =
    fold_status-overall (sequence_status s d) deps ∙ overall_step s d deps

abbrev pub all_finished : List Status → Bool
all_finished [] = true
all_finished (d ∷ deps) = finished d && all_finished deps

finished-sequence_status :
    (s d : Status) → finished (sequence_status s d) ≡ (finished s && finished d)
unfolding sequence_status finished
finished-sequence_status s d = ground arith

finished-fold :
    (s : Status) (deps : List Status)
    → finished (fold_status s deps) ≡ (finished s && all_finished deps)
unfolding fold_status
finished-fold s [] = ground arith
finished-fold s (d ∷ deps) =
    ground (arith, finished-fold (sequence_status s d) deps, finished-sequence_status s d)

pub finished-fold_status :
    (deps : List Status) → finished (fold_status completed deps) ≡ all_finished deps
unfolding finished
finished-fold_status deps = ground (arith, finished-fold completed deps)

fold_status-append :
    (s : Status) (xs ys : List Status)
    → fold_status s (xs ++ ys) ≡ fold_status (fold_status s xs) ys
unfolding fold_status
fold_status-append s [] ys = refl
fold_status-append s (x ∷ xs) ys = fold_status-append (sequence_status s x) xs ys

sequence_status-fold_status :
    (s x : Status) (xs : List Status)
    → sequence_status s (fold_status x xs) ≡ fold_status (sequence_status s x) xs
unfolding fold_status
sequence_status-fold_status s x [] = refl
sequence_status-fold_status s x (d ∷ xs) =
    sequence_status-fold_status s (sequence_status x d) xs
    ∙ ap (λ r. fold_status r xs) (sym (sequence_status_assoc s x d))

-- Among the statuses that are folded, that of a sequence with one event at least may stand for those
-- of its events, as long as it is their folded status, without changing the result.
pub fold_status_nested :
    (s x : Status) (before xs after : List Status)
    → fold_status s (before ++ fold_status completed (x ∷ xs) ∷ after)
      ≡ fold_status s (before ++ ((x ∷ xs) ++ after))
unfolding fold_status
fold_status_nested s x before xs after =
    fold_status-append s before (fold_status completed (x ∷ xs) ∷ after)
    ∙ ap (λ r. fold_status r after)
        (ap (λ r. sequence_status (fold_status s before) (fold_status r xs))
            (sequence_status_completed x)
          ∙ sequence_status-fold_status (fold_status s before) x xs)
    ∙ sym (fold_status-append (sequence_status (fold_status s before) x) xs after)
    ∙ sym (fold_status-append s before ((x ∷ xs) ++ after))
