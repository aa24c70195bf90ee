-- ===== src/Planning/Dependencies/Resolvable.antt =====
-- The tasks that `ResolveTaskDependencies` (pkg/services/task_dependencies.go) gives to
-- `ResolveAndSortTasks` (pkg/services/dag.go).
use mathlib.Core.Path.{fun_ext}
use noctifab.Prelude.{
  Bool, true, false, not, ◌&&◌, ◌≡◌, ◌≢◌, ◌⊎◌, refl, List, [], ◌∷◌, ◌++◌, Option, none, some,
  if◌then◌else◌, map, arith, subst, inl, inr, All, Bool-cases,
}
use noctifab.Prelude.Text.{Text, text_eq, is_empty, to_lower, trim_space, elem}
use noctifab.Prelude.Maps.{Map, empty_map}
use noctifab.Prelude.Results.{err}
use noctifab.Domain.Task.{Task}
use noctifab.Story.Ids.{extract_story_id, is_task_reference}
use noctifab.Guards.Breaker.{clean_path}
use noctifab.Dag.Graph.{unresolved, is_external}
use noctifab.Dag.Walk.{resolve_and_sort_tasks}
use noctifab.Dag.Edges.{ids, dep_target, last_named}
use noctifab.Dag.Order.{All-self}
use noctifab.Dag.Success.{IsResolvable}
use noctifab.Dag.Resolved.{resolve_and_sort_tasks-ne-unresolved}
use noctifab.Planning.Files.{is_shared_root_build_file}
use noctifab.Planning.Dependencies.{
  Disk, task_names, existing_story, missing_story, unknown, is_kept, dep_verdict, story_exists,
  resolve_deps_of, with_resolved_deps, Serializing, add_previous, serialize_files, serialize_tasks,
  resolve_task_dependencies, is_story_reference,
}

-- A dependency stands for one of the tasks, or refers to a task of another story.
abbrev Resolves : List Task → Text → Type 0
Resolves tasks dep = (dep_target tasks dep ≢ none) ⊎ (is_external dep ≡ true)

is_found : Option Text → Bool
is_found none = false
is_found (some id) = true

found-ne-none : (o : Option Text) → is_found o ≡ true → o ≢ none
unfolding is_found
found-ne-none none h e = cc
found-ne-none (some id) h e = cc

dep_target-names :
    (dep : Text) (ts : List Task)
    → elem dep (task_names ts) ≡ true
    → is_found (dep_target ts dep) ≡ true
unfolding is_found dep_target last_named task_names elem
dep_target-names dep [] m = cc
dep_target-names dep (t ∷ ts) m = ground (arith, dep_target-names dep ts)

dep_target-ids :
    (dep : Text) (ts : List Task) → elem dep (ids ts) ≡ true → is_found (dep_target ts dep) ≡ true
unfolding is_found dep_target last_named elem
dep_target-ids dep [] m = cc
dep_target-ids dep (t ∷ ts) m = ground (arith, dep_target-ids dep ts)

story-pruned :
    (is_story exists : Bool)
    → is_kept (if is_story then (if exists then existing_story else missing_story) else unknown)
      ≡ false
story-pruned is_story exists = ground arith

outer_two : (a b c : Bool) → (a && (b && c)) ≡ true → (a && b) ≡ true
outer_two a b c h = ground arith

dep_verdict-Resolves :
    (disk : Disk) (project : Text) (tasks : List Task) (dep : Text)
    → is_kept (dep_verdict disk project (task_names tasks) dep) ≡ true
    → Resolves tasks dep
unfolding dep_verdict
dep_verdict-Resolves disk project tasks dep kept = elim (Bool-cases (elem dep (task_names tasks))) [
  | inl named ↦ inl (found-ne-none (dep_target tasks dep) (dep_target-names dep tasks named))
  | inr other ↦
      let story = extract_story_id dep in
      elim (Bool-cases
        (is_task_reference dep && (not (is_empty story) && story_exists disk project story))) [
          | inl foreign ↦ inr (
              outer_two (is_task_reference dep) (not (is_empty story))
                (story_exists disk project story) foreign)
          | inr local ↦
              let h = rw (other, local) at kept in
              cc (story-pruned (is_story_reference dep) (story_exists disk project dep))
        ]
]

resolve_deps_of-Resolves :
    (disk : Disk) (project : Text) (tasks : List Task) (deps : List Text)
    → All (Resolves tasks) (resolve_deps_of disk project (task_names tasks) deps)
unfolding resolve_deps_of
resolve_deps_of-Resolves disk project tasks [] = tt
resolve_deps_of-Resolves disk project tasks (dep ∷ deps) =
    let rest = resolve_deps_of-Resolves disk project tasks deps in
    elim (Bool-cases (is_empty (trim_space dep))) [
      | inl blank ↦ rw blank rest
      | inr named ↦
          elim (Bool-cases
            (is_kept (dep_verdict disk project (task_names tasks) (trim_space dep)))) [
              | inl kept ↦
                  rw (named, kept)
                    (dep_verdict-Resolves disk project tasks (trim_space dep) kept, rest)
              | inr pruned ↦ rw (named, pruned) rest
            ]
    ]

All-snoc : (P : Text → Type 0) (xs : List Text) (x : Text) → All P xs → P x → All P (xs ++ x ∷ [])
All-snoc P [] x h p = (p, tt)
All-snoc P (y ∷ ys) x h p = (h.0, All-snoc P ys x h.1 p)

-- Every entry of the map is the ID of a task.
abbrev Given : List Task → Map Text → Type 0
Given tasks last = (k id : Text) → last k ≡ some id → elem id (ids tasks) ≡ true

add_previous-Resolves :
    (tasks : List Task) (prev : Option Text) (id : Text) (deps : List Text)
    → ((p : Text) → prev ≡ some p → elem p (ids tasks) ≡ true)
    → All (Resolves tasks) deps
    → All (Resolves tasks) (add_previous prev id deps)
add_previous-Resolves tasks none id deps given h = h
add_previous-Resolves tasks (some prev) id deps given h =
    elim (Bool-cases (not (text_eq prev id) && not (elem prev deps))) [
      | inl adds ↦ rw adds (
          All-snoc (Resolves tasks) deps prev h (
            inl (
              found-ne-none (dep_target tasks prev) (dep_target-ids prev tasks (given prev refl)))))
      | inr skips ↦ rw skips h
    ]

serialize_files-Resolves :
    (tasks : List Task) (id : Text) (files : List Text) (s : Serializing)
    → elem id (ids tasks) ≡ true
    → Given tasks s.last
    → All (Resolves tasks) s.deps
    → let s' = serialize_files id files s in Given tasks s'.last × All (Resolves tasks) s'.deps
unfolding serialize_files
serialize_files-Resolves tasks id [] s own given h = (given, h)
serialize_files-Resolves tasks id (file ∷ files) s own given h =
    let clean = to_lower (clean_path (trim_space file)) in
    elim (Bool-cases (is_shared_root_build_file clean)) [
      | inr other ↦
          rw (other, serialize_files) (serialize_files-Resolves tasks id files s own given h)
      | inl shared ↦
          rw (shared, serialize_files)
            (serialize_files-Resolves tasks id files _ own
              (λ k i e. elim (Bool-cases (text_eq clean k)) [
                | inl here ↦
                    let same : some id ≡ some i = rw here at e in
                    let equal : id ≡ i = cc in rw (← equal) own
                | inr there ↦ given k i (rw there at e)
              ])
              (add_previous-Resolves tasks (s.last clean) id s.deps (given clean) h))
    ]

-- Two lists of tasks with the same titles and IDs, whatever else has changed.
abbrev AreNamesakes : List Task → List Task → Type 0
AreNamesakes [] [] = Unit
AreNamesakes [] (u ∷ us) = ⊥
AreNamesakes (t ∷ ts) [] = ⊥
AreNamesakes (t ∷ ts) (u ∷ us) = (t.title ≡ u.title) × (t.id ≡ u.id) × AreNamesakes ts us

last_named-namesakes :
    (dep : Text) (ts us : List Task)
    → AreNamesakes ts us
    → (last_named (λ t. t.title) dep ts ≡ last_named (λ t. t.title) dep us)
      × (last_named (λ t. t.id) dep ts ≡ last_named (λ t. t.id) dep us)
unfolding last_named
last_named-namesakes dep [] [] h = (refl, refl)
last_named-namesakes dep [] (u ∷ us) h = elim h [ ]
last_named-namesakes dep (t ∷ ts) [] h = elim h [ ]
last_named-namesakes dep (t ∷ ts) (u ∷ us) h =
    let (titles, own) = last_named-namesakes dep ts us h.2 in
    (ground (arith, h.0, h.1, titles), ground (arith, h.1, own))

dep_target-namesakes :
    (dep : Text) (ts us : List Task) → AreNamesakes ts us → dep_target ts dep ≡ dep_target us dep
unfolding dep_target
dep_target-namesakes dep ts us h =
    let (titles, own) = last_named-namesakes dep ts us h in rw (titles, own)

serialize_tasks-namesakes :
    (f : List Text → List Text) (ts : List Task) (last : Map Text)
    → AreNamesakes ts
        (serialize_tasks last (map {A = Task} (λ t. record t { depends_on = f t.depends_on }) ts))
unfolding serialize_tasks
serialize_tasks-namesakes f [] last = tt
serialize_tasks-namesakes f (t ∷ ts) last = (refl, refl, serialize_tasks-namesakes f ts _)

serialize_tasks-Resolves :
    (tasks ts : List Task) (last : Map Text)
    → Given tasks last
    → All (λ t. elem t.id (ids tasks) ≡ true) ts
    → All (λ t. All (Resolves tasks) t.depends_on) ts
    → All (λ t. All (Resolves tasks) t.depends_on) (serialize_tasks last ts)
unfolding serialize_tasks
serialize_tasks-Resolves tasks [] last given own h = tt
serialize_tasks-Resolves tasks (t ∷ ts) last given own h =
    let (given', deps) =
      serialize_files-Resolves tasks t.id t.target_files
        (record { last = last; deps = t.depends_on }) own.0 given h.0 in
    (deps, serialize_tasks-Resolves tasks ts _ given' own.1 h.1)

All-resolved :
    (disk : Disk) (project : Text) (tasks ts : List Task)
    → All
        (λ t. All (Resolves tasks) t.depends_on)
        (map (with_resolved_deps disk project (task_names tasks)) ts)
All-resolved disk project tasks [] = tt
All-resolved disk project tasks (t ∷ ts) =
    (resolve_deps_of-Resolves disk project tasks t.depends_on, All-resolved disk project tasks ts)

All-given :
    (disk : Disk) (project : Text) (names : List Text) (tasks ts : List Task)
    → All (λ t. elem t.id (ids tasks) ≡ true) ts
    → All (λ t. elem t.id (ids tasks) ≡ true) (map (with_resolved_deps disk project names) ts)
All-given disk project names tasks [] h = tt
All-given disk project names tasks (t ∷ ts) h = (h.0, All-given disk project names tasks ts h.1)

-- Whatever the disk holds, every dependency of the resolved tasks stands for one of them, or refers to a task of
-- another story.
resolve_task_dependencies-IsResolvable :
    (disk : Disk) (project : Text) (tasks : List Task)
    → let resolved = resolve_task_dependencies disk project tasks in IsResolvable resolved resolved
unfolding resolve_task_dependencies
resolve_task_dependencies-IsResolvable disk project tasks =
    let names = task_names tasks in
    let resolved = serialize_tasks empty_map (map (with_resolved_deps disk project names) tasks) in
    let namesakes =
      serialize_tasks-namesakes (resolve_deps_of disk project names) tasks empty_map in
    let same : dep_target tasks ≡ dep_target resolved =
      fun_ext (λ dep. dep_target-namesakes dep tasks resolved namesakes) in
    subst
      (λ (target : Text → Option Text).
        All (λ t. All (λ dep. (target dep ≢ none) ⊎ (is_external dep ≡ true)) t.depends_on)
          resolved)
      same
      (serialize_tasks-Resolves tasks (map (with_resolved_deps disk project names) tasks) empty_map
        (λ k id e. cc) (All-given disk project names tasks tasks (All-self tasks))
        (All-resolved disk project tasks tasks))

-- Whatever the disk holds, sorting the tasks that the resolution returns never fails on an unknown dependency.
pub resolve_task_dependencies-ne-unresolved :
    (disk : Disk) (project : Text) (tasks : List Task) (title dep : Text)
    → resolve_and_sort_tasks (resolve_task_dependencies disk project tasks)
      ≢ err (unresolved title dep)
resolve_task_dependencies-ne-unresolved disk project tasks title dep =
    resolve_and_sort_tasks-ne-unresolved (resolve_task_dependencies disk project tasks) title dep
      (resolve_task_dependencies-IsResolvable disk project tasks)
