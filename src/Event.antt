-- ===== src/Event.antt =====
-- rmf_task/include/rmf_task/Event.hpp and rmf_task/src/rmf_task/Event.cpp: the status of an event,
-- the status of events in sequence, and the assignment of event identifiers.
pub mod Fold
mod Examples
use rmf_task.Base.{
  ℕ, ◌+◌, Bool, true, false, ◌||◌, List, [], ◌∷◌, Option, none, some, if◌then◌else◌, ◌==◌, u64,
}

pub data Status : Type 0 where
  uninitialized blocked error failed standby underway delayed skipped canceled killed completed :
      Status

pub Status-discrete : Discrete Status
Status-discrete = hlevel

-- `Event::State::finished`.
unfoldable pub finished : Status → Bool
finished skipped = true
finished canceled = true
finished killed = true
finished completed = true
finished _ = false

-- The number of a status in the declaration of the enumeration.
abbrev pub code : Status → ℕ
code uninitialized = 0
code blocked = 1
code error = 2
code failed = 3
code standby = 4
code underway = 5
code delayed = 6
code skipped = 7
code canceled = 8
code killed = 9
code completed = 10

-- Two statuses are the same one.
abbrev pub is : Status → Status → Bool
is a b = code a == code b

-- The first loop of `sequence_status`: a status that needs attention, the most critical first.
elevated : List Status → Status → Status → Option Status
elevated [] earlier later = none
elevated (s ∷ rest) earlier later =
    if is earlier s || is later s then some s else elevated rest earlier later

-- The second loop: whether the earlier status is one of those that are over.
is_one_of : List Status → Status → Bool
is_one_of [] earlier = false
is_one_of (s ∷ rest) earlier = if is earlier s then true else is_one_of rest earlier

-- `Event::sequence_status`.
unfoldable pub sequence_status : Status → Status → Status
unfolding elevated is_one_of
sequence_status earlier later =
    elim (elevated (failed ∷ error ∷ blocked ∷ uninitialized ∷ []) earlier later) [
      | some s ↦ s
      | none ↦
          if is_one_of (completed ∷ killed ∷ canceled ∷ skipped ∷ []) earlier
          then later
          else earlier
    ]

-- `Event::AssignID`: the next identifier to hand out.
pub record AssignId : Type 0 where
  pub next_id : ℕ

unfoldable pub make_assign_id : AssignId
make_assign_id = record { next_id = 0 }

unfoldable pub assign : AssignId → AssignId × ℕ
assign a = (record a { next_id = u64 (a.next_id + 1) }, a.next_id)
