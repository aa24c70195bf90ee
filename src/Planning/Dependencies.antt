-- ===== src/Planning/Dependencies.antt =====
-- `ResolveTaskDependencies` of pkg/services/task_dependencies.go, with its tests of the files on disk. Its
-- error is always nil, and the warnings that it prints are not modelled.
pub mod Resolvable
use noctifab.Prelude.{
  Bool, true, false, not, ◌&&◌, ◌||◌, List, [], ◌∷◌, ◌++◌, Option, none, some, if◌then◌else◌, any,
  map, take, length, ◌-◌,
}
use noctifab.Prelude.Text.{
  Text, codes, text_eq, is_empty, to_lower, has_prefix, has_suffix, contains, trim_space, elem,
}
use noctifab.Prelude.Maps.{Map, insert, empty_map}
use noctifab.Domain.Task.{Task}
use noctifab.Story.Ids.{base_name, extract_story_id, is_task_reference, to_upper}
use noctifab.Guards.Breaker.{clean_path}
use noctifab.Planning.Files.{path_join, is_abs, is_shared_root_build_file}

-- The disk: which paths are files (`os.Stat` has no error and is no directory), and the matches of a pattern,
-- none for a bad one.
pub record Disk : Type 0 where
  pub is_file : Text → Bool
  pub glob : Text → List Text

abbrev pub is_none : List Text → Bool
is_none [] = true
is_none (x ∷ xs) = false

-- `strings.TrimSuffix(s, ".md")`.
unfoldable trim_md : Text → Text
unfolding has_suffix
trim_md s = if has_suffix s (codes ".md") then take (length s - 3) s else s

unfoldable pub story_exists : Disk → Text → Text → Bool
unfolding path_join is_abs trim_space any base_name trim_md
story_exists disk project dep =
    let clean = trim_space dep in
    let candidates =
      clean
      ∷ (clean ++ codes ".md")
      ∷ path_join (codes "roadmap" ∷ codes "user-stories" ∷ clean ∷ [])
      ∷ path_join (codes "roadmap" ∷ codes "user-stories" ∷ (clean ++ codes ".md") ∷ [])
      ∷ [] in
    let absolute = λ (cand : Text). if is_abs cand then cand else path_join (project ∷ cand ∷ []) in
    let pattern = path_join (
      project
      ∷ codes "roadmap"
      ∷ codes "user-stories"
      ∷ (trim_md (base_name clean) ++ codes "*.md")
      ∷ []) in
    any (λ cand. disk.is_file (absolute cand)) candidates || not (is_none (disk.glob pattern))

unfoldable pub is_story_reference : Text → Bool
unfolding is_task_reference has_prefix contains
is_story_reference dep =
    if is_task_reference dep
    then false
    else has_prefix (to_upper dep) (codes "US-")
      || contains (to_upper dep) (codes "US-")
      || has_prefix (to_lower dep) (codes "roadmap/")

-- The IDs and titles of the tasks.
unfoldable pub task_names : List Task → List Text
task_names [] = []
task_names (t ∷ ts) =
    let rest = task_names ts in
    let titled = if is_empty t.title then rest else t.title ∷ rest in
    if is_empty t.id then titled else t.id ∷ titled

-- What is said of a dependency: the first two keep it, the others leave it out.
pub data DepVerdict : Type 0 where
  in_dag cross_story missing_task existing_story missing_story unknown : DepVerdict

abbrev pub is_kept : DepVerdict → Bool
is_kept in_dag = true
is_kept cross_story = true
is_kept _ = false

-- The task files of the story exist, and none has the name.
unfoldable task_is_missing : Disk → Text → Text → Text → Bool
unfolding path_join contains base_name any
task_is_missing disk project story dep =
    let files = disk.glob (
      path_join
        (project ∷ codes "roadmap" ∷ codes "tasks" ∷ (codes "*" ++ story ++ codes "*.md") ∷ [])) in
    not (is_none files) && not (any (λ f. contains (to_upper (base_name f)) (to_upper dep)) files)

unfoldable pub dep_verdict : Disk → Text → List Text → Text → DepVerdict
unfolding elem is_task_reference extract_story_id story_exists task_is_missing is_story_reference
dep_verdict disk project names dep =
    let story = extract_story_id dep in
    if elem dep names
    then in_dag
    else if is_task_reference dep && (not (is_empty story) && story_exists disk project story)
    then (if task_is_missing disk project story dep then missing_task else cross_story)
    else if is_story_reference dep
    then (if story_exists disk project dep then existing_story else missing_story)
    else unknown

unfoldable pub resolve_deps_of : Disk → Text → List Text → List Text → List Text
unfolding trim_space dep_verdict
resolve_deps_of disk project names [] = []
resolve_deps_of disk project names (dep ∷ deps) =
    let clean = trim_space dep in
    let rest = resolve_deps_of disk project names deps in
    if is_empty clean
    then rest
    else if is_kept (dep_verdict disk project names clean)
    then clean ∷ rest
    else rest

abbrev pub with_resolved_deps : Disk → Text → List Text → Task → Task
with_resolved_deps disk project names t = record t {
  depends_on = resolve_deps_of disk project names t.depends_on;
}

-- The dependencies of a task, and the last task of each shared file.
pub record Serializing : Type 0 where
  pub last : Map Text
  pub deps : List Text

abbrev pub add_previous : Option Text → Text → List Text → List Text
add_previous none id deps = deps
add_previous (some prev) id deps =
    if not (text_eq prev id) && not (elem prev deps) then deps ++ prev ∷ [] else deps

unfoldable pub serialize_files : Text → List Text → Serializing → Serializing
unfolding trim_space clean_path is_shared_root_build_file text_eq elem
serialize_files id [] s = s
serialize_files id (file ∷ files) s =
    let clean = to_lower (clean_path (trim_space file)) in
    let s' : Serializing = record {
      last = insert clean (some id) s.last;
      deps = add_previous (s.last clean) id s.deps;
    } in
    serialize_files id files (if is_shared_root_build_file clean then s' else s)

unfoldable pub serialize_tasks : Map Text → List Task → List Task
unfolding serialize_files
serialize_tasks last [] = []
serialize_tasks last (t ∷ ts) =
    let s = serialize_files t.id t.target_files (record { last = last; deps = t.depends_on }) in
    record t { depends_on = s.deps } ∷ serialize_tasks s.last ts

unfoldable pub resolve_task_dependencies : Disk → Text → List Task → List Task
unfolding task_names resolve_deps_of serialize_tasks
resolve_task_dependencies disk project tasks =
    serialize_tasks empty_map (map (with_resolved_deps disk project (task_names tasks)) tasks)
