-- ===== src/Scheduler/Ready/Checks.antt =====
-- What the checks of `GetReadyTasks` (pkg/services/scheduler.go) mean for a selected task.
use mathlib.Core.List.{Memᴰ}
use noctifab.Prelude.{
  ℕ, ◌<◌, ◌≡◌, ◌≢◌, refl, ◌⊎◌, inl, inr, true, false, not, ◌&&◌, ◌||◌, List, [], ◌∷◌, none, some,
  arith, All, Mem-All, Bool-cases, Option-cases, ap, ◌∙◌, any, all, any-Mem, all-Mem,
}
use noctifab.Prelude.Text.{Text, text_eq, text_eq_iff, is_empty}
use noctifab.Prelude.Maps.{Map, insert, empty_map}
use noctifab.Domain.Task.{Task, TaskStatus, pending, success, failed, is_success}
use noctifab.Domain.State.{State}
use noctifab.Story.Ids.{extract_story_id, parse_story_index, int_pos, int_lt}
use noctifab.Locks.{FileLockRegistry}
use noctifab.Scheduler.Index.{DependencyIndex, new_dependency_index, dep_id}
use noctifab.Scheduler.Blocked.{TextSet, blocked_tasks}
use noctifab.Scheduler.Blocked.Meaning.{IsBlocked, blocked_tasks_iff}
use noctifab.Scheduler.Ready.{
  status_map, of_story, earlier_story_done, dep_met, of_earlier_story, has_cross_story_dep,
  barrier_passed, is_eligible, get_ready_tasks,
}
use noctifab.Scheduler.Ready.Loop.{select_ind}
use noctifab.Scheduler.Ready.Selected.{none_ready, slots_of, All-snoc, get_ready_tasks-cases}

-- A task of the ID has succeeded; or no task has the ID, and it names a story of a positive number that
-- has tasks, all of which succeeded, and is earlier if the number of the task's own story is not 0.
pub data IsDone (tasks : List Task) (t : Task) (id : Text) : Type 0 where
  succeeded : {u : Task} → Memᴰ u tasks → u.id ≡ id → u.status ≡ success → IsDone tasks t id
  story_done :
      {v : Task}
      → ((u : Task) → Memᴰ u tasks → u.id ≢ id)
      → Memᴰ v tasks
      → v.story_id ≡ extract_story_id id
      → is_empty (extract_story_id id) ≡ false
      → int_pos (parse_story_index (extract_story_id id)) ≡ true
      → (parse_story_index t.story_id ≡ 0)
        ⊎ (int_lt (parse_story_index (extract_story_id id)) (parse_story_index t.story_id) ≡ true)
      → ((u : Task) → Memᴰ u tasks → u.story_id ≡ extract_story_id id → u.status ≡ success)
      → IsDone tasks t id

-- A dependency of the task stands for a task of an earlier story.
pub record CrossStoryDep (tasks : List Task) (idx : DependencyIndex) (t : Task) : Type 0 where
  pub dep : Text
  pub listed : Memᴰ dep t.depends_on
  pub upstream : Task
  pub given : Memᴰ upstream tasks
  pub stands_for : upstream.id ≡ dep_id idx dep
  pub earlier : of_earlier_story (parse_story_index t.story_id) upstream ≡ true

-- What the scheduler promises of a task that it selects.
pub record IsReady (state : State) (t : Task) : Type 0 where
  pub listed : Memᴰ t state.tasks
  pub runnable : (t.status ≡ pending) ⊎ ((t.status ≡ failed) × (t.retries < t.max_retries))
  pub unblocked :
      ¬ IsBlocked (new_dependency_index state.tasks) state.tasks state.clarifications t.id
  pub deps_done :
      All (λ dep. IsDone state.tasks t (dep_id (new_dependency_index state.tasks) dep)) t.depends_on
  pub barrier :
      int_pos (parse_story_index t.story_id) ≡ true
      → is_empty t.story_id ≡ false
      → (u : Task) → Memᴰ u state.tasks
      → u.id ≢ t.id
      → of_earlier_story (parse_story_index t.story_id) u ≡ true
      → (u.status ≡ success) ⊎ CrossStoryDep state.tasks (new_dependency_index state.tasks) t

success_of : (s : TaskStatus) → is_success s ≡ true → s ≡ success
success_of s h = ground arith

status_map-some :
    (ts : List Task) (m : Map TaskStatus) (id : Text) (s : TaskStatus)
    → status_map ts m id ≡ some s
    → ((u : Task) × Memᴰ u ts × (u.id ≡ id) × (u.status ≡ s)) ⊎ (m id ≡ some s)
unfolding status_map
status_map-some [] m id s e = inr e
status_map-some (t ∷ ts) m id s e =
    elim (status_map-some ts (insert t.id (some t.status) m) id s e) [
      | inl (u, listed, same, st) ↦ inl (u, Memᴰ.tail listed, same, st)
      | inr here ↦ elim (Bool-cases (text_eq t.id id)) [
        | inl own ↦
            let found : some t.status ≡ some s = rw own at here in
            inl (t, Memᴰ.head refl, (text_eq_iff t.id id).0 own, cc)
        | inr other ↦ inr (rw other at here)
      ]
    ]

status_map-none :
    (ts : List Task) (m : Map TaskStatus) (id : Text)
    → status_map ts m id ≡ none
    → (m id ≡ none) × ((u : Task) → Memᴰ u ts → u.id ≢ id)
unfolding status_map
status_map-none [] m id e = (e, λ u listed. elim listed [ ])
status_map-none (t ∷ ts) m id e =
    let (fresh, absent) = status_map-none ts (insert t.id (some t.status) m) id e in
    (ground (arith, fresh), λ u listed same. first u listed same fresh absent)
  where
    first :
        (u : Task)
        → Memᴰ u (t ∷ ts)
        → u.id ≡ id
        → insert t.id (some t.status) m id ≡ none
        → ((v : Task) → Memᴰ v ts → v.id ≢ id)
        → ⊥
    first u (Memᴰ.head e') same fresh absent =
        ground (arith, text_eq_iff t.id id, ap (λ (v : Task). v.id) e')
    first u (Memᴰ.tail listed) same fresh absent = absent u listed same

earlier_story_done-parts :
    (tasks : List Task) (t : Task) (id : Text)
    → earlier_story_done tasks t id ≡ true
    → (is_empty (extract_story_id id) ≡ false)
      × (int_pos (parse_story_index (extract_story_id id)) ≡ true)
      × ((parse_story_index t.story_id ≡ 0)
          ⊎ (int_lt (parse_story_index (extract_story_id id)) (parse_story_index t.story_id)
              ≡ true))
      × (any (of_story (extract_story_id id)) tasks ≡ true)
      × (all (λ other. not (of_story (extract_story_id id) other) || is_success other.status) tasks
          ≡ true)
unfolding earlier_story_done
earlier_story_done-parts tasks t id h =
    (ground arith, ground arith, ground arith, ground arith, ground arith)

dep_met-IsDone :
    (tasks : List Task) (idx : DependencyIndex) (t : Task) (dep : Text)
    → dep_met tasks idx t dep ≡ true
    → IsDone tasks t (dep_id idx dep)
unfolding dep_met
dep_met-IsDone tasks idx t dep h =
    elim (Option-cases (status_map tasks empty_map (dep_id idx dep))) [
      | inr (s, found) ↦ elim (status_map-some tasks empty_map (dep_id idx dep) s found) [
        | inl (u, listed, same, st) ↦
            succeeded listed same (st ∙ success_of s (rw (found, dep_met) at h))
        | inr no_start ↦ cc
      ]
      | inl missing ↦
          let (_, absent) = status_map-none tasks empty_map (dep_id idx dep) missing in
          let (named, positive, earlier, some_task, all_tasks) =
            earlier_story_done-parts tasks t (dep_id idx dep) (rw (missing, dep_met) at h) in
          let (v, listed, story) =
            any-Mem (of_story (extract_story_id (dep_id idx dep))) tasks some_task in
          story_done absent listed ((text_eq_iff v.story_id _).0 story) named positive earlier
            (λ u m same. success_of u.status (
              finished u same (
                all-Mem
                  (λ other.
                    not (of_story (extract_story_id (dep_id idx dep)) other)
                    || is_success other.status)
                  tasks all_tasks m)))
    ]
  where
    finished :
        (u : Task)
        → u.story_id ≡ extract_story_id (dep_id idx dep)
        → (not (of_story (extract_story_id (dep_id idx dep)) u) || is_success u.status) ≡ true
        → is_success u.status ≡ true
    finished u same e = ground (arith, text_eq_iff u.story_id (extract_story_id (dep_id idx dep)))

has_cross_story_dep-found :
    (tasks : List Task) (idx : DependencyIndex) (t : Task)
    → has_cross_story_dep tasks idx t ≡ true
    → CrossStoryDep tasks idx t
unfolding has_cross_story_dep
has_cross_story_dep-found tasks idx t h =
    let (dep, listed, some_task) = any-Mem _ t.depends_on h in
    let (u, given, both) = any-Mem _ tasks some_task in
    record {
      dep = dep;
      listed = listed;
      upstream = u;
      given = given;
      stands_for = (text_eq_iff u.id (dep_id idx dep)).0 (ground arith);
      earlier = ground arith;
    }

barrier_passed_lem :
    (tasks : List Task) (idx : DependencyIndex) (t u : Task)
    → barrier_passed tasks idx t ≡ true
    → int_pos (parse_story_index t.story_id) ≡ true
    → is_empty t.story_id ≡ false
    → Memᴰ u tasks
    → u.id ≢ t.id
    → of_earlier_story (parse_story_index t.story_id) u ≡ true
    → (u.status ≡ success) ⊎ CrossStoryDep tasks idx t
unfolding barrier_passed
barrier_passed_lem tasks idx t u h pos named m other earlier =
    elim (Bool-cases (has_cross_story_dep tasks idx t)) [
      | inl cross ↦ inr (has_cross_story_dep-found tasks idx t cross)
      | inr plain ↦
          let every : all
                (λ v.
                  not (of_earlier_story (parse_story_index t.story_id) v && not (text_eq v.id t.id))
                  || is_success v.status)
                tasks
              ≡ true =
            rw (named, pos, plain, barrier_passed) at h in
          inl (success_of u.status (ground (arith, all-Mem _ tasks every m, text_eq_iff u.id t.id)))
    ]

module _ (state : State) (blocked : TextSet)
    (local : blocked_tasks (new_dependency_index state.tasks) state.tasks state.clarifications
      ≡ some blocked) where
  all_deps :
      (t : Task) (deps : List Text)
      → all (dep_met state.tasks (new_dependency_index state.tasks) t) deps ≡ true
      → All (λ dep. IsDone state.tasks t (dep_id (new_dependency_index state.tasks) dep)) deps
  unfolding all
  all_deps t [] h = tt
  all_deps t (d ∷ ds) h = (
    dep_met-IsDone state.tasks (new_dependency_index state.tasks) t d (ground arith),
    all_deps t ds (ground arith),
  )

  eligible-IsReady :
      (t : Task)
      → Memᴰ t state.tasks
      → is_eligible state.tasks (new_dependency_index state.tasks) blocked t ≡ true
      → IsReady state t
  unfolding is_eligible
  eligible-IsReady t m h =
      let idx = new_dependency_index state.tasks in
      let free : blocked t.id ≡ false = ground arith in
      let through : barrier_passed state.tasks idx t ≡ true = ground arith in
      record {
        listed = m;
        runnable = ground arith;
        unblocked = λ b. ground (
          arith,
          (blocked_tasks_iff idx state.tasks state.clarifications blocked t.id local).1 b,
        );
        deps_done = all_deps t t.depends_on (ground arith);
        barrier = λ pos named u listed other earlier.
            barrier_passed_lem state.tasks idx t u through pos named listed other earlier;
      }

-- Every selected task is one of the state's tasks, is pending or failed with retries left, is not
-- blocked by a clarification, and has each of its dependencies done: a task of that ID has succeeded; or
-- no task has the ID, which names a story of a positive number, before the selected task's if that has a
-- number other than 0, and the story has tasks, all of which succeeded. If the selected task names a story of a positive
-- number, then each other task of an earlier story has succeeded or a dependency of the selected task
-- stands for a task of an earlier story.
pub get_ready_tasks-IsReady :
    (state : State) (limit : ℕ) (registry : FileLockRegistry)
    → All (IsReady state) (get_ready_tasks state limit registry).ready
get_ready_tasks-IsReady state limit registry = elim (get_ready_tasks-cases state limit registry) [
  | inl same ↦ rw same tt
  | inr (blocked, local, _, same) ↦
      let eligible = is_eligible state.tasks (new_dependency_index state.tasks) blocked in
      rw same (
        select_ind eligible state.tasks (λ s. All (IsReady state) s.ready)
          (λ t s r m fits granted h.
            All-snoc (IsReady state) s.ready t h (eligible-IsReady state blocked local t m fits))
          (slots_of state limit) state.tasks (none_ready registry) (Mem-All state.tasks) tt)
]
