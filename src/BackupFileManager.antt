-- ===== src/BackupFileManager.antt =====
-- rmf_task/src/rmf_task/BackupFileManager.cpp: the files in which robots keep their last backup.
pub mod Crash
pub mod Robots
mod Examples
use rmf_task.Base.{
  ℕ, zero, suc, get_elem?, ◌+◌, Bool, true, false, ◌&&◌, List, [], ◌∷◌, ◌++◌, map, Option, none,
  some, if◌then◌else◌, null, ◌==◌, length, maybe,
}

-- The directory of a robot: the files "backup" and ".backup", with the characters in them, and the
-- names of other files.
pub record Directory : Type 0 where
  pub backup : Option (List ℕ)
  pub pre_backup : Option (List ℕ)
  pub foreign : List ℕ

abbrev pub empty_directory : Directory
empty_directory = record { backup = none; pre_backup = none; foreign = [] }

-- The directories of robots, by the names of the group and the robot.
abbrev pub Files : Type 0
Files = ℕ → ℕ → Option Directory

unfoldable pub set_directory : ℕ → ℕ → Directory → Files → Files
set_directory group robot d files g r = if (g == group) && (r == robot) then some d else files g r

-- What `write` does to the directory, one after another: it opens ".backup", puts characters into
-- it, and renames it.
pub data WriteStep : Type 0 where
  open_pre_backup : WriteStep
  put_character : ℕ → WriteStep
  rename : WriteStep

unfoldable pub write_step : WriteStep → Directory → Directory
write_step open_pre_backup d = record d { pre_backup = some [] }
write_step (put_character c) d = record d {
  pre_backup = maybe d.pre_backup none (λ t. some (t ++ c ∷ []));
}
write_step rename d = maybe d.pre_backup d (λ t. record d { backup = some t; pre_backup = none })

unfoldable pub write_steps : List ℕ → List WriteStep
write_steps state = open_pre_backup ∷ map put_character state ++ rename ∷ []

unfoldable pub run_steps : List WriteStep → Directory → Directory
unfolding write_step
run_steps [] d = d
run_steps (s ∷ steps) d = run_steps steps (write_step s d)

-- `write`, of a directory that is there.
unfoldable pub write : List ℕ → Directory → Directory
unfolding run_steps write_steps
write state d = run_steps (write_steps state) d

-- What `Robot::read` returns or throws.
pub data Read : Type 0 where
  no_backup : Read
  restored : List ℕ → Read
  missing_directory foreign_file : Read

-- `Robot::read`, with the directory afterwards.
unfoldable pub read_directory : Directory → Read × Directory
read_directory d =
    if null d.foreign
    then maybe d.backup (no_backup, record d { pre_backup = none })
        (λ t. (restored t, record d { pre_backup = none }))
    else (foreign_file, d)

unfoldable pub clear_backup : Directory → Directory
clear_backup d = record d { backup = none; pre_backup = none }

pub record Settings : Type 0 where
  pub clear_on_startup : Bool
  pub clear_on_shutdown : Bool

-- `Robot`, with its directory as the names of the group and the robot; `alive` tells that a shared
-- pointer owns it.
pub record Robot : Type 0 where
  pub group_name : ℕ
  pub robot_name : ℕ
  pub alive : Bool
  pub last_seq : Option ℕ

-- `Group`: its table has the number of the robot that a weak pointer refers to, by name.
pub record Group : Type 0 where
  pub name : ℕ
  pub alive : Bool
  pub robots : List (ℕ × ℕ)

-- `BackupFileManager`, with all groups and robots that were made, the first one first. A pointer to
-- one of them is its number.
pub record Manager : Type 0 where
  pub settings : Settings
  pub groups : List (ℕ × ℕ)
  pub all_groups : List Group
  pub all_robots : List Robot
  pub files : Files

unfoldable pub find_entry : ℕ → List (ℕ × ℕ) → Option ℕ
find_entry name [] = none
find_entry name ((n, i) ∷ table) = if name == n then some i else find_entry name table

-- The entry of a name is set, and made if it is missing.
unfoldable pub set_entry : ℕ → ℕ → List (ℕ × ℕ) → List (ℕ × ℕ)
set_entry name i [] = (name, i) ∷ []
set_entry name i ((n, j) ∷ table) =
    let rest = set_entry name i table in if name == n then (n, i) ∷ table else (n, j) ∷ rest

module _ {A : Type 0} where
  unfoldable pub set_at : ℕ → A → List A → List A
  set_at i a [] = []
  set_at zero a (x ∷ xs) = a ∷ xs
  set_at (suc i) a (x ∷ xs) = x ∷ set_at i a xs

-- `weak_ptr::lock`.
unfoldable pub lock_robot : List Robot → ℕ → Option ℕ
lock_robot robots i = maybe (get_elem? robots i) none λ r. if r.alive then some i else none

unfoldable pub lock_group : List Group → ℕ → Option ℕ
lock_group groups i = maybe (get_elem? groups i) none λ g. if g.alive then some i else none

-- The directory of a robot that is made: cleared if the settings say so, and there.
unfoldable pub startup : Bool → Option Directory → Directory
unfolding clear_backup
startup clear none = empty_directory
startup clear (some d) = if clear then clear_backup d else d

-- `make_group`.
unfoldable pub make_group : ℕ → Manager → ℕ × Manager
unfolding find_entry set_entry lock_group
make_group name m =
    let fresh : ℕ × Manager = (
      length m.all_groups,
      record m {
        groups = set_entry name (length m.all_groups) m.groups;
        all_groups = m.all_groups ++ record { name = name; alive = true; robots = [] } ∷ [];
      },
    ) in
    maybe (find_entry name m.groups) fresh λ i. maybe (lock_group m.all_groups i) fresh λ j. (j, m)

-- The part of `make_robot` that makes a robot.
unfoldable pub fresh_robot : ℕ → ℕ → Group → Manager → ℕ × Manager
unfolding set_entry startup set_directory set_at
fresh_robot group name g m = (
  length m.all_robots,
  record m {
    all_groups =
        set_at group (record g { robots = set_entry name (length m.all_robots) g.robots })
          m.all_groups;
    all_robots =
        m.all_robots
        ++ record { group_name = g.name; robot_name = name; alive = true; last_seq = none } ∷ [];
    files =
        set_directory g.name name (startup m.settings.clear_on_startup (m.files g.name name))
          m.files;
  },
)

-- `Group::make_robot`; none if there is no such group.
unfoldable pub make_robot : ℕ → ℕ → Manager → Option (ℕ × Manager)
unfolding find_entry lock_robot fresh_robot
make_robot group name m = maybe (get_elem? m.all_groups group) none λ g. some (
    maybe (find_entry name g.robots) (fresh_robot group name g m)
      λ i. maybe (lock_robot m.all_robots i) (fresh_robot group name g m) λ j. (j, m))

-- The last shared pointer to a robot is gone.
unfoldable pub drop_robot : ℕ → Manager → Manager
unfolding set_at set_directory clear_backup
drop_robot i m = maybe (get_elem? m.all_robots i) m λ r.
    let m' = record m { all_robots = set_at i (record r { alive = false }) m.all_robots } in
    if m.settings.clear_on_shutdown
    then maybe (m.files r.group_name r.robot_name) m' (λ d. record m' {
      files = set_directory r.group_name r.robot_name (clear_backup d) m.files;
    })
    else m'

-- The last shared pointer to a group is gone.
unfoldable pub drop_group : ℕ → Manager → Manager
unfolding set_at
drop_group i m =
    maybe (get_elem? m.all_groups i) m
      λ g. record m { all_groups = set_at i (record g { alive = false }) m.all_groups }

-- `Task::Active::Backup`.
pub record TaskBackup : Type 0 where
  pub sequence : ℕ
  pub state : List ℕ

-- What `Robot::write` tells: nothing new, written, or that it throws as the file cannot be opened.
pub data Written : Type 0 where
  not_new : Written
  written : Written
  cannot_open : Written

-- `write_if_new`, for the comparison `rmf_utils::modular(a).less_than_or_equal(b)`, of a robot with
-- the directory that is there or not. The sequence number is set before the file is opened.
unfoldable pub write_if_new :
    (ℕ → ℕ → Bool) → TaskBackup → Robot → Option Directory → Written × Robot × Option Directory
unfolding write
write_if_new less_than_or_equal backup robot directory =
    let robot' = record robot { last_seq = some backup.sequence } in
    if maybe robot.last_seq false (less_than_or_equal backup.sequence)
    then (not_new, robot, directory)
    else maybe directory (cannot_open, robot', none)
        (λ d. (written, robot', some (write backup.state d)))

-- `Robot::read` of a directory that is there or not.
unfoldable pub read_backup : Option Directory → Read × Option Directory
unfolding read_directory
read_backup directory =
    maybe directory (missing_directory, none) (λ d. let r = read_directory d in (r.0, some r.1))
