-- ===== src/BackupFileManager/Examples.antt =====
-- Tests of the backup files, and the theorems about them at concrete inputs.
use rmf_task.Base.{
  ℕ, ◌≡◌, refl, true, false, leb, List, [], ◌∷◌, Option, none, some, if◌then◌else◌, null, maybe,
}
use rmf_task.BackupFileManager.{
  Directory, empty_directory, Robot, Manager, TaskBackup, not_new, restored, write_steps,
  write_step, run_steps, write, write_if_new, read_directory, set_directory, find_entry, set_entry,
  set_at, lock_group, startup, make_group, fresh_robot, make_robot, drop_group,
}
use rmf_task.BackupFileManager.Crash.{take, drop, write_steps-read}
use rmf_task.BackupFileManager.Robots.{make_robot_again}

abbrev old_backup : Directory
old_backup = record { backup = some (4 ∷ []); pre_backup = some (9 ∷ []); foreign = [] }

-- The rename does not happen.
write_steps-read_example :
    (read_directory (run_steps (take 3 (write_steps (1 ∷ 2 ∷ []))) old_backup)).0 ≡ (
      if null (drop 3 (write_steps (1 ∷ 2 ∷ []))) then restored (1 ∷ 2 ∷ []) else restored (4 ∷ []))
write_steps-read_example = write_steps-read (1 ∷ 2 ∷ []) 3 old_backup refl

written_backup : (read_directory (write (1 ∷ 2 ∷ []) old_backup)).0 ≡ restored (1 ∷ 2 ∷ [])
unfolding read_directory write run_steps write_steps write_step
written_backup = refl

abbrev some_backup : TaskBackup
some_backup = record { sequence = 3; state = 5 ∷ [] }

abbrev new_robot : Robot
new_robot = record { group_name = 7; robot_name = 1; alive = true; last_seq = none }

-- After a write that throws, the same backup is not written again.
write_lost :
    (write_if_new leb some_backup
      (write_if_new leb some_backup new_robot none).1
      (some empty_directory)).0
    ≡ not_new
unfolding write_if_new
write_lost = refl

abbrev no_robots : Manager
no_robots = record {
  settings = record { clear_on_startup = false; clear_on_shutdown = true };
  groups = [];
  all_groups = [];
  all_robots = [];
  files = λ g r. none;
}

abbrev one_group : Manager
one_group = record no_robots {
  groups = (7, 0) ∷ [];
  all_groups = record { name = 7; alive = true; robots = [] } ∷ [];
}

make_group_first : make_group 7 no_robots ≡ (0, one_group)
unfolding make_group find_entry set_entry
make_group_first = refl

abbrev one_robot : Manager
one_robot = record one_group {
  all_groups = record { name = 7; alive = true; robots = (1, 0) ∷ [] } ∷ [];
  all_robots = new_robot ∷ [];
  files = set_directory 7 1 empty_directory (λ g r. none);
}

make_robot_first : make_robot 0 1 one_group ≡ some (0, one_robot)
unfolding make_robot fresh_robot find_entry set_entry set_at startup
make_robot_first = refl

make_robot_again_example : make_robot 0 1 one_robot ≡ some (0, one_robot)
make_robot_again_example = make_robot_again 0 1 0 one_group one_robot make_robot_first

-- A group is dropped while its robot is in use, and made again: then there are two robots with one
-- directory.
abbrev robots_after : Option (ℕ × Manager) → List Robot
robots_after r = maybe r [] (λ x. x.1.all_robots)

directory_shared :
    robots_after (
      make_robot
        (make_group 7 (drop_group 0 one_robot)).0
        1
        (make_group 7 (drop_group 0 one_robot)).1)
    ≡ new_robot ∷ new_robot ∷ []
unfolding make_robot fresh_robot find_entry set_entry set_at startup make_group drop_group
    lock_group
directory_shared = refl
