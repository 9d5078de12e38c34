-- ===== src/Lib.antt =====
-- The execution of tasks in rmf_task and rmf_task_sequence, the estimates of requests and activities,
-- and the task planner.
--
-- A task of rmf_task_sequence is a sequence of stages. `Task::Active` runs the phase of one stage
-- after another: its owner gives it commands (interrupt, cancel, kill, skip, rewind, backup), the
-- phases call it when they change, when they have a backup and when they end, and it calls the
-- owner back. A task reports what it did through logs, which readers follow, and through the
-- statuses of its events. The planner assigns tasks to robots by the finish times of candidates.
--
-- Base is the vocabulary: tests on native numbers, lists, and `Result` with the faults that stop
-- the code (a null pointer or an iterator past the end is read, an exception, a loop that does not
-- end).
--
-- Event models rmf_task/src/rmf_task/Event.cpp and include/rmf_task/Event.hpp: `Status`,
-- `sequence_status`, `finished` and `AssignID`. Event/Fold has the fold of the statuses of a
-- sequence, as update_status in rmf_task_sequence/src/rmf_task_sequence/events/Sequence.cpp makes.
--
-- Resume models rmf_task/src/rmf_task/detail/Resume.cpp: the object whose callback runs once, when
-- it is called or, at the latest, when it is destroyed.
--
-- Task models rmf_task_sequence/src/rmf_task_sequence/Task.cpp, with the data of
-- rmf_task/src/rmf_task/Phase.cpp and of detail/Backup.cpp of both libraries. The record `Task`
-- has the fields of `Task::Active`, without the leading underscore. Each operation takes the task
-- and returns it with the calls it made added to `effects`, the last one first.
--   Task/Stages: _generate_pending_phases, _issue_backup, _generate_backup, _begin_next_stage
--     (begin_next_stage, whose loop is advance, and activate_phase), _finish_phase, _finish_task
--     and _prepare_cancellation_sequence.
--   Task/Control: status_overview, estimate_remaining_time, backup, interrupt and the function that
--     it returns (resume), cancel, kill, skip and rewind.
--   Task/Restore: Active::make, _load_backup, _failed_to_restore, and the phase of
--     rmf_task/src/rmf_task/phases/RestoreBackup.cpp. A backup is a `BackupText`, whether it is JSON
--     and fits the schema; a JSON value that the code converts is a `Value`, or `missing`.
--   Task/Machine: `Command`, what can happen to a task, and `step`.
--   Task/Advance, Invariant, Steps, Sound, Progress, Restoring, Backups and Commands have the
--     proofs: which stage is begun; the invariant `IsValid`; each operation against it; runs of a
--     task from its start on; backups, and what restoring them leads to; and cancel, kill,
--     interrupt and rewind.
--
-- Candidates models the class Candidates of rmf_task/src/rmf_task/internal_task_planning.cpp: a
-- multimap by finish time, as a sorted list of named nodes, with an iterator for each candidate.
-- Candidates/Update and Candidates/Best have the proofs.
--
-- Log models rmf_task/src/rmf_task/Log.cpp: the log, its views, and the reader that remembers the
-- last entry it gave out of each list. Log/Deliver and Log/Read have the proofs.
--
-- Sequence models rmf_task_sequence/src/rmf_task_sequence/events/Sequence.cpp: `Sequence::Active`,
-- an event that begins its events one after another. Its record `Active` has the fields of the
-- class, and its operations return it with the calls it made. Sequence/Restore has its restore
-- from a backup; Sequence/Next and Sequence/Stop have the proofs. What an event answers is the
-- parameter `Events`; an event reports its status as it is begun and does not call back in the
-- meantime, where the code ignores that it has finished.
--
-- Priority models valid_assignment_priority of
-- rmf_task/src/rmf_task/BinaryPriorityCostCalculator.cpp, and Priority/Valid describes what it
-- decides. Priority/Costs has the costs of the nodes of the planner, Priority/Earliest when each
-- agent is deployed first, and Priority/Deploy what the heuristic cost is.
--
-- Versioned models rmf_task/src/rmf_task/VersionedString.cpp, with a number for each object that a
-- pointer can point to. Versioned/Read has the proofs.
--
-- Planner models rmf_task/src/rmf_task/TaskPlanner.cpp with the nodes of
-- rmf_task/src/rmf_task/internal_task_planning.hpp. `SearchNode` is the struct Node.
--   Planner: the data, and what copies, pops and pushes on a node.
--   Planner/Expand: expand_candidate (up to the filter) and expand_charger.
--   Planner/Filter: the class Filter. The hash only chooses a bucket and has no counterpart.
--   Planner/Search: finished, expand and solve, with the queue as a list in the order of costs.
--   Planner/Greedy: greedy_solve.
--   Planner/Initial: Candidates::make, PendingTask::make and make_initial_node.
--   Planner/Plan: prune_assignments, append_finishing_request and complete_solve.
--   Planner/Tasks, Assigning, Follow, Expanding, Searching, Solving, Reaching, Due, Numbering,
--     Starting, Beginning, Merging, Finishing and Planning have the proofs: the tasks of a node; what an
--     assignment changes; the relation `Follows` between a node and one that an expansion makes;
--     the search; the first node; and the plan that the searches make.
--
-- BackupFileManager models rmf_task/src/rmf_task/BackupFileManager.cpp: the directory of a robot as
-- the files in it, a write as steps after each of which it may be interrupted, and the groups and
-- robots with numbers for the objects that pointers point to. Names are numbers.
-- BackupFileManager/Crash and BackupFileManager/Robots have the proofs. Planner/Filtering and
-- Planner/Tries have those on the filters of the planner.
--
-- Requests models the requests of rmf_task/src/rmf_task/requests/ with State.cpp and
-- Constraints.cpp. `State` is a robot's state, `Model` what the models of these requests share.
--   Requests: the parts that the estimates have in common: the way to the start, the wait, and the
--     way back to the charger.
--   Requests/Delivery, Clean, Loop and ChargeBattery: the constructors of the models and their
--     estimate_finish. Requests/Settings: the setters of constraints and states.
--   Requests/Spec describes an estimate and the reasons why there is none; Requests/Parts and
--     Requests/Estimates have the proofs.
--
-- TravelEstimator models rmf_task/src/rmf_task/Estimate.cpp. A call of `estimate` is a sequence of
-- steps, after each of which another call may go on; a schedule says which does.
-- TravelEstimator/Apart and TravelEstimator/Owner have the proofs.
--
-- Activities models the activities of rmf_task_sequence/src/rmf_task_sequence/events/ (GoToPlace,
-- PerformAction, WaitFor, Placeholder, and PayloadTransfer as a sequence) and `SequenceModel` of
-- rmf_task_sequence/src/rmf_task_sequence/Activity.cpp. `Activity` has a constructor for each class of
-- descriptions, `ActivityModel` one for each class of models.
--   Activities: the data, and each model's constructor and estimate_finish.
--   Activities/Estimates: make_model and estimate_finish of all of them, with the loops of a
--     sequence.
--   Activities/Spec says what an estimate promises; Activities/Parts, Singles and Chain have the
--     proofs. `Reliable` there is what is assumed of doubles and of the power sinks.
--
-- InvariantHeuristicQueue models rmf_task/src/rmf_task/InvariantHeuristicQueue.cpp, with its numbers
-- as nanoseconds; InvariantHeuristicQueue/Schedule says what its cost is.
--
-- Attempt is what an operation yields that may throw an exception or return nullopt.
--
-- Yields says that an operation has a result with a property or ends in a fault, and Descent that
-- a loop returns after some number of rounds.
--
-- Numbers. Sequence numbers and identifiers wrap where the code has them as uint64_t (`u64`) or
-- uint32_t (`u32`). Times and durations are natural numbers, counted in nanoseconds from an origin
-- that no value precedes; they are only stored, compared and added. The invariants of a node are
-- nanoseconds where the code has doubles of seconds.
--
-- What stands outside. `Host` is what a task calls and does not implement: the clock, the state of
-- the robot, and the headers, models and phases that the activities make. The results may differ
-- from call to call, since each call takes the number of the calls before it. `Host` also has the
-- comparison `rmf_utils::modular(a).less_than_or_equal(b)` of a third-party library; a theorem
-- that needs more of it than a Boolean result says so. Phase::Activator::activate gives no phase
-- for a description that is not registered, and the task follows the null pointer
-- (activate_phase); that the descriptions are registered is the law is_registered of `Host`. The
-- headers of some activities throw where they have no estimate, which is assumed not to happen.
-- Texts, descriptions and robot states are types given as parameters. `World` is what the planner
-- calls: the estimates of the task models, the calculator and the order of costs, and the times
-- and charges of states. The estimates are functions of a description, a start time and a state,
-- as the models are rebuilt from them. The unordered map of a node is a list in some order, and
-- nodes of equal cost leave the queue in the order in which they came, where the code leaves both
-- open.
--
-- `Doubles` is the arithmetic of doubles, of which the estimates assume nothing; `Parameters` has the
-- traffic planner, the power sinks and the battery, which are functions and constants.
-- A plan whose itinerary is read though there is none throws here. An itinerary is taken to finish
-- no earlier than the one before it, and the times of states not to precede the origin of times.
--
-- Bounds. The loops of the code are recursions on the lists that they walk. The search of `rewind`
-- may never end, so `seek` takes a number of rounds and returns `diverges` when they are used up;
-- the rounds come with the command, and the theorems hold for any number of them. The range loop
-- over the entries that a reader returns is `collect`, whose fuel is the length of the list: that
-- is enough, since each round moves one entry on. The loops of the planner take rounds and return
-- `diverges` when they are used up. In `solve` the number `measure` of Planner/Follow is smaller for
-- each node that an expansion makes, and complete_solve has fewer requests left after each search.
--
-- Assumptions. A phase calls its task after the call of the task to it has returned, never within
-- it, and the commands come one at a time, as the code has no lock. Two lists that are alive have
-- different addresses, so that an address that a reader remembers belongs to the list of the view
-- or to one that has expired.
--
-- Where a theorem says so, the estimates wait until times that rmf_traffic::Time can hold.
-- The code is taken as it is compiled for a release, where its assertions do nothing.
--
-- Not modelled: the headers and setters of descriptions, the JSON schemas, the activators, and
-- classes that only hold data.
mod Base
mod Yields
mod Descent
mod Attempt
pub mod Event
pub mod Resume
pub mod Task
pub mod Candidates
pub mod Log
pub mod Sequence
pub mod Priority
pub mod Versioned
pub mod Planner
pub mod BackupFileManager
pub mod Requests
pub mod TravelEstimator
pub mod Activities
pub mod InvariantHeuristicQueue
