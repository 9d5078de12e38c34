-- ===== src/Task.antt =====
-- rmf_task_sequence/src/rmf_task_sequence/Task.cpp: the data of a task that runs its phases in
-- sequence. The operations are in the children, which use this module.
pub mod Stages
pub mod Control
pub mod Restore
pub mod Advance
pub mod Machine
pub mod Invariant
pub mod Steps
pub mod Sound
pub mod Progress
pub mod Restoring
pub mod Commands
pub mod Backups
mod Examples
use Prim.Native.String.{String}
use rmf_task.Base.{◌≡◌, ℕ, ◌+◌, Bool, false, List, [], ◌∷◌, ◌++◌, Option, none, some, length, u64}
use rmf_task.Event.{Status}
use rmf_task.Resume.{Resume}

-- `Phase::Tag`; of its header only the duration estimate is kept.
pub record Tag : Type 0 where
  pub id : ℕ
  pub original_duration_estimate : ℕ

-- `Phase::Pending`.
pub record Pending : Type 0 where
  pub tag : Tag
  pub will_be_skipped : Bool

-- `Stage`; `D` stands for a pointer to a phase description.
pub record Stage (D : Type 0) : Type 0 where
  pub id : ℕ
  pub description : D
  pub cancellation_sequence : List D

-- `Backup` of a phase (rmf_task/src/rmf_task/detail/Backup.cpp).
pub record PhaseBackup : Type 0 where
  pub sequence : ℕ
  pub state : String

-- What an active phase says of itself when it is asked.
pub record PhaseState : Type 0 where
  pub status : Status
  pub remaining : ℕ
  pub backup : PhaseBackup

-- The active phase; `cancellation` tells whether it stands inside a `CancellationPhase`.
pub record ActivePhase : Type 0 where
  pub tag : Tag
  pub cancellation : Bool
  pub phase : PhaseState

-- `Phase::Snapshot`.
pub record Snapshot : Type 0 where
  pub tag : Tag
  pub status : Status
  pub remaining : ℕ

-- `Phase::Completed`.
pub record Completed : Type 0 where
  pub snapshot : Snapshot
  pub start : ℕ
  pub finish : ℕ

-- A JSON value under a key of a backup; the key may be missing.
pub data Value : Type 0 where
  missing : Value
  boolean : Bool → Value
  number : ℕ → Value
  array : List ℕ → Value

-- The JSON value of a backup: the two forms that the schema allows. A current phase has an
-- identifier, the value of `cancelled_from` and a state; the value of `skip_phases` comes last.
pub data Root : Type 0 where
  progress : Bool → Root
  current_phase : ℕ → Value → String → Value → Root

-- The text of a backup: it may be no JSON, or not fit the schema.
pub data BackupText : Type 0 where
  no_json no_fit : BackupText
  fits : Root → BackupText

pub record TaskBackup : Type 0 where
  pub sequence : ℕ
  pub root : Root

-- A call that the task makes to its owner, or to a phase with the identifier.
pub data Effect : Type 0 where
  update : Snapshot → Effect
  checkpoint : TaskBackup → Effect
  phase_finished : Completed → Effect
  task_finished : Effect
  task_is_interrupted : Effect
  interrupt_phase : ℕ → Effect
  resume_phase : ℕ → Effect
  cancel_phase : ℕ → Effect
  kill_phase : ℕ → Effect

-- What the task calls and does not implement. The number that some functions take is how many
-- such calls were made before, so that each call may have another result. Phase::Activator::activate
-- gives no phase where the description is not registered; `is_registered` is the assumption that the
-- stages of the task are. Headers are taken to be made without an exception.
pub record Host (S D : Type 0) : Type 0 where
  pub clock : ℕ → ℕ
  pub get_state : ℕ → S
  pub generate_header : D → S → ℕ
  pub make_model : D → S → Option S
  pub activate : ℕ → Tag → D → Option String → Option PhaseState
  pub is_registered :
      (reads : ℕ) (tag : Tag) (description : D) (restore : Option String)
      → (phase : PhaseState) × (activate reads tag description restore ≡ some phase)
  pub less_than_or_equal : ℕ → ℕ → Bool

-- `Task::Active`. `interrupted` tells whether `_task_is_interrupted` holds a function; the calls
-- made so far are in `effects`, the last one first; `reads` counts the calls of the host.
pub record Task (D : Type 0) : Type 0 where
  pub interrupted : Bool
  pub resume_phase : Option (Resume ℕ)
  pub pending_stages : List (Stage D)
  pub pending_phases : List Pending
  pub active_stage : Option (Stage D)
  pub active_phase : Option ActivePhase
  pub current_phase_start_time : Option ℕ
  pub completed_stages : List (Stage D)
  pub completed_phases : List Completed
  pub cancelled_on_phase : Option ℕ
  pub killed : Bool
  pub finished : Bool
  pub last_phase_backup_sequence_number : Option ℕ
  pub next_task_backup_sequence_number : ℕ
  pub cancel_sequence_initial_id : ℕ
  pub reads : ℕ
  pub effects : List Effect

module _ {D : Type 0} where
  -- The constructor of `Task::Active`.
  unfoldable pub construct : List (Stage D) → Task D
  construct stages = record {
    interrupted = false;
    resume_phase = none;
    pending_stages = stages;
    pending_phases = [];
    active_stage = none;
    active_phase = none;
    current_phase_start_time = none;
    completed_stages = [];
    completed_phases = [];
    cancelled_on_phase = none;
    killed = false;
    finished = false;
    last_phase_backup_sequence_number = none;
    next_task_backup_sequence_number = 0;
    cancel_sequence_initial_id = u64 (length stages + 1);
    reads = 0;
    effects = [];
  }

  -- `Task::Builder::add_phase`: identifiers count from 1.
  unfoldable pub add_phase : List (Stage D) → D → List D → List (Stage D)
  add_phase stages description cancellation_sequence =
      stages
      ++ record {
        id = u64 (length stages + 1);
        description = description;
        cancellation_sequence = cancellation_sequence;
      }
        ∷ []

  abbrev pub emit : Effect → Task D → Task D
  emit e t = record t { effects = e ∷ t.effects }

-- `Phase::Snapshot::make`.
unfoldable pub take_snapshot : ActivePhase → Snapshot
take_snapshot p = record { tag = p.tag; status = p.phase.status; remaining = p.phase.remaining }
