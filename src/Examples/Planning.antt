-- ===== src/Examples/Planning.antt =====
-- Planned tasks before they are sorted: two tasks of one ID, and a dependency on a story.
use noctifab.Prelude.{◌≡◌, ◌≢◌, refl, false, List, [], ◌∷◌, some, arith, length, All}
use noctifab.Prelude.Text.{codes, elem, IsUnique}
use noctifab.Prelude.Results.{err}
use noctifab.Domain.Task.{Task, blank_task}
use noctifab.Dag.Edges.{ids}
use noctifab.Dag.Graph.{unresolved}
use noctifab.Dag.Walk.{resolve_and_sort_tasks}
use noctifab.Planning.Normalizer.{normalize_and_deduplicate_tasks, existing_ids}
use noctifab.Planning.Normalizer.Distinct.{normalize_and_deduplicate_tasks-distinct}
use noctifab.Planning.Dependencies.{Disk, resolve_task_dependencies}
use noctifab.Planning.Dependencies.Resolvable.{resolve_task_dependencies-ne-unresolved}

abbrev planned : List Task
planned =
    record (blank_task (codes "1") (codes "Read")) { target_files = codes "go.mod" ∷ [] }
    ∷ record (blank_task (codes "1") (codes "Write")) {
      depends_on = codes "Read" ∷ codes "US-7" ∷ codes "nothing" ∷ [];
      target_files = codes "./Go.mod" ∷ [];
    }
    ∷ []

abbrev existing : List Task
existing = blank_task (codes "US-003-TASK-001") (codes "Old") ∷ []

-- The second task takes the next number that is free.
renamed_ids :
    (normalize_and_deduplicate_tasks planned (codes "US-3") existing)
    ≡ some (
        record (blank_task (codes "1") (codes "Read")) {
          target_files = codes "go.mod" ∷ [];
          story_id = codes "US-003";
        }
        ∷ record (blank_task (codes "US-003-TASK-002") (codes "Write")) {
          depends_on = codes "Read" ∷ codes "US-7" ∷ codes "nothing" ∷ [];
          target_files = codes "./Go.mod" ∷ [];
          story_id = codes "US-003";
        }
        ∷ [])
unfolding normalize_and_deduplicate_tasks
renamed_ids = refl

normalize_and_deduplicate_tasks-distinct_example :
    (result : List Task) × (normalize_and_deduplicate_tasks planned (codes "US-3") existing
      ≡ some result)
    × IsUnique (ids result)
    × All (λ id. elem id (existing_ids existing) ≡ false) (ids result)
    × (length result ≡ length planned)
normalize_and_deduplicate_tasks-distinct_example =
    normalize_and_deduplicate_tasks-distinct planned (codes "US-3") existing (omega arith)

abbrev empty_disk : Disk
empty_disk = record { is_file = λ path. false; glob = λ pattern. [] }

-- Unknown names are left out, and the shared file puts the second task behind the first.
resolved_deps :
    resolve_task_dependencies empty_disk (codes ".") (
      blank_task (codes "A") (codes "Read")
      ∷ record (blank_task (codes "B") (codes "Write")) {
        depends_on = codes "US-7" ∷ codes "nothing" ∷ [];
      }
      ∷ [])
    ≡ blank_task (codes "A") (codes "Read") ∷ blank_task (codes "B") (codes "Write") ∷ []
unfolding resolve_task_dependencies
resolved_deps = refl

resolve_task_dependencies-ne-unresolved_example :
    resolve_and_sort_tasks (resolve_task_dependencies empty_disk (codes ".") planned)
    ≢ err (unresolved (codes "Write") (codes "nothing"))
resolve_task_dependencies-ne-unresolved_example =
    resolve_task_dependencies-ne-unresolved empty_disk (codes ".") planned (codes "Write")
      (codes "nothing")
