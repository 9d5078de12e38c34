-- ===== src/Versioned.antt =====
-- rmf_task/src/rmf_task/VersionedString.cpp: a string with versions, its views, and a reader that
-- remembers the last version it has given out.
pub mod Read
mod Examples
use rmf_task.Base.{ℕ, Bool, false, ◌&&◌, List, [], ◌∷◌, Option, none, some, if◌then◌else◌, ◌==◌}

-- `A` stands for the texts. An allocated value has a number of its own; the token has an address,
-- which comes back after the token has expired, and a number of its own.
pub record VersionedString (A : Type 0) : Type 0 where
  pub value : ℕ
  pub text : A
  pub token_address : ℕ
  pub token : ℕ

pub record StringView (A : Type 0) : Type 0 where
  pub value : ℕ
  pub text : A
  pub token_address : ℕ
  pub token : ℕ

-- `Reader::Memory`: weak pointers to the token and to the last value.
pub record StringMemory : Type 0 where
  pub token : Option ℕ
  pub last_value : Option ℕ

abbrev pub StringMemories : Type 0
StringMemories = List (ℕ × StringMemory)

-- A weak pointer is locked, and points to an object that is alive.
abbrev pub points_to : Option ℕ → ℕ → Bool
points_to none object = false
points_to (some o) object = o == object

unfoldable pub recall_string : ℕ → StringMemories → StringMemory
recall_string address [] = record { token = none; last_value = none }
recall_string address ((a, m) ∷ memories) =
    if a == address then m else recall_string address memories

module _ {A : Type 0} where
  -- The value that is allocated has the number `fresh`.
  unfoldable pub update_string : ℕ → A → VersionedString A → VersionedString A
  update_string fresh text s = record s { value = fresh; text = text }

  unfoldable pub view_string : VersionedString A → StringView A
  view_string s = record {
    value = s.value;
    text = s.text;
    token_address = s.token_address;
    token = s.token;
  }

  -- `Reader::read`. The token and the value of the view are alive, so a memory of something else
  -- at the token's address has expired.
  unfoldable pub read_string : StringView A → StringMemories → Option A × StringMemories
  read_string v memories =
      let memory = recall_string v.token_address memories in
      if points_to memory.token v.token && points_to memory.last_value v.value
      then (none, (v.token_address, memory) ∷ memories)
      else (
        some v.text,
        (v.token_address, record { token = some v.token; last_value = some v.value }) ∷ memories,
      )
