-- ===== src/Locks.antt =====
-- The file locks of pkg/services/scheduler.go: `FileLockRegistry`. The mutex makes each method one
-- step, and the methods here are those steps.
use noctifab.Prelude.{Bool, true, false, not, List, [], ◌∷◌, Option, none, some, if◌then◌else◌, any}
use noctifab.Prelude.Text.{Text, text_eq}
use noctifab.Prelude.Maps.{Map, insert, empty_map}
pub mod Exclusion

pub record FileLockRegistry : Type 0 where
  pub locks : Map Text

unfoldable pub new_file_lock_registry : FileLockRegistry
new_file_lock_registry = record { locks = empty_map }

-- The file is locked by another task.
abbrev pub held_by_other : Text → Option Text → Bool
held_by_other task_id none = false
held_by_other task_id (some holder) = not (text_eq holder task_id)

unfoldable pub acquire : Text → List Text → Map Text → Map Text
acquire task_id [] locks = locks
acquire task_id (file ∷ files) locks = acquire task_id files (insert file (some task_id) locks)

unfoldable pub try_acquire_locks : Text → List Text → FileLockRegistry → Bool × FileLockRegistry
unfolding any acquire
try_acquire_locks task_id files r =
    if any (λ file. held_by_other task_id (r.locks file)) files
    then (false, r)
    else (true, record r { locks = acquire task_id files r.locks })

abbrev pub drop_own : Text → Option Text → Option Text
drop_own task_id none = none
drop_own task_id (some holder) = if text_eq holder task_id then none else some holder

unfoldable pub release_locks : Text → FileLockRegistry → FileLockRegistry
release_locks task_id r = record r { locks = λ file. drop_own task_id (r.locks file) }
