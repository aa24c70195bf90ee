-- ===== src/Examples/Selections.antt =====
-- `GetReadyTasks` and the file locks (pkg/services/scheduler.go) on a state with two tasks.
use mathlib.Core.List.{Memᴰ}
use noctifab.Prelude.{
  ◌<◌, ◌≤◌, ◌+◌, ◌≡◌, ◌≢◌, ◌↔◌, ◌⊎◌, refl, Bool, Option, ap, sym, true, false, [], ◌∷◌, none, some,
  arith, All, if◌then◌else◌, length, any, all, not, ◌&&◌,
}
use noctifab.Prelude.Text.{Text, codes, text_eq, is_empty, elem}
use noctifab.Domain.State.{State, Clarification, unknown, idle}
use noctifab.Locks.{
  FileLockRegistry, new_file_lock_registry, acquire, try_acquire_locks, release_locks,
}
use noctifab.Locks.Exclusion.{
  try_acquire_locks-granted, release_locks_lem, release_locks-try_acquire_locks,
}
use noctifab.Scheduler.Index.{
  new_dependency_index, resolve, dep_id, index_from, index_task, insert_first, insert_nonempty,
}
use noctifab.Scheduler.Blocked.{TextSet, blocked_tasks, blocked_by, propagate, spread}
use noctifab.Scheduler.Blocked.Meaning.{IsBlocked, blocked_tasks_iff, blocked_tasks-none}
use noctifab.Scheduler.Ready.{
  active_count, is_eligible, get_ready_tasks, select, consider, dep_met, status_map, barrier_passed,
}
use noctifab.Scheduler.Ready.Selected.{
  length-get_ready_tasks, get_ready_tasks-exclusive, get_ready_tasks-nonempty,
}
use noctifab.Scheduler.Ready.Checks.{IsReady, get_ready_tasks-IsReady}
use noctifab.Examples.Plans.{setup_task, plan}

abbrev pub state : State
state = record {
  id = [];
  project_path = [];
  version = 1;
  clarifications = [];
  tasks = plan;
  active_agents = [];
  build_status = unknown;
  last_actions = [];
  metadata = record {
    input_source = [];
    input_path = [];
    integration_branch = [];
    feature_name = [];
    base_branch = [];
    project_version = [];
    total_input_tokens = 0;
    total_output_tokens = 0;
    total_tokens_used = 0;
  };
  stories = [];
  story_status = idle;
  story_error = [];
}

abbrev question : Text → Clarification
question task_id = record {
  id = codes "q";
  question = [];
  answer = [];
  resolved = false;
  asked_at = 0;
  task_id = task_id;
}

abbrev main_file : Text
main_file = codes "main.go"

abbrev registry : FileLockRegistry
registry = record { locks = λ f. if text_eq f main_file then some (codes "b") else none }

a_ne_b : codes "a" ≢ codes "b"
unfolding text_eq
a_ne_b e = let clash : true ≡ false = ap (λ k. text_eq k (codes "a")) e in cc

b_only : some (codes "b") ≢ some (codes "a")
b_only e = a_ne_b (sym (ap name e))
  where
    name : Option Text → Text
    name none = []
    name (some t) = t

-- The task without dependencies is the one that is selected.
setup_is_selected : (get_ready_tasks state 2 new_file_lock_registry).ready ≡ setup_task ∷ []
unfolding get_ready_tasks blocked_tasks blocked_by active_count select consider is_eligible
    propagate spread any all dep_met status_map text_eq dep_id resolve new_dependency_index acquire
    try_acquire_locks index_from index_task insert_first insert_nonempty barrier_passed
    new_file_lock_registry
setup_is_selected = refl

setup_listed : Memᴰ setup_task (get_ready_tasks state 2 new_file_lock_registry).ready
setup_listed = rw setup_is_selected (Memᴰ.head refl)

get_ready_tasks-IsReady_example :
    All (IsReady state) (get_ready_tasks state 2 new_file_lock_registry).ready
get_ready_tasks-IsReady_example = get_ready_tasks-IsReady state 2 new_file_lock_registry

get_ready_tasks-exclusive_example :
    (setup_task.id ≡ setup_task.id)
    × ((get_ready_tasks state 2 new_file_lock_registry).registry.locks (codes "go.mod")
        ≡ some setup_task.id)
    × ((new_file_lock_registry.locks (codes "go.mod") ≡ none)
        ⊎ (new_file_lock_registry.locks (codes "go.mod") ≡ some setup_task.id))
unfolding elem text_eq
get_ready_tasks-exclusive_example =
    get_ready_tasks-exclusive state 2 new_file_lock_registry setup_task setup_task (codes "go.mod")
      setup_listed setup_listed go_mod go_mod
  where
    go_mod : elem (codes "go.mod") setup_task.target_files ≡ true
    go_mod = refl

length-get_ready_tasks_example :
    (active_count state.active_agents
        + length (get_ready_tasks state 2 new_file_lock_registry).ready
      ≤ 2)
    ⊎ ((2 < active_count state.active_agents)
        × (length (get_ready_tasks state 2 new_file_lock_registry).ready ≡ 0))
length-get_ready_tasks_example = length-get_ready_tasks state 2 new_file_lock_registry

nothing_blocked : blocked_tasks (new_dependency_index plan) plan [] ≡ some (λ k. false)
unfolding blocked_tasks blocked_by propagate spread any
nothing_blocked = refl

get_ready_tasks-nonempty_example : (get_ready_tasks state 2 new_file_lock_registry).ready ≢ []
unfolding is_eligible all barrier_passed try_acquire_locks new_file_lock_registry
get_ready_tasks-nonempty_example =
    get_ready_tasks-nonempty state 2 new_file_lock_registry (λ k. false) setup_task nothing_blocked
      room (Memᴰ.tail (Memᴰ.head refl)) fits free
  where
    room : active_count state.active_agents < 2
    room = unfold active_count in omega arith

    fits : is_eligible plan (new_dependency_index plan) (λ k. false) setup_task ≡ true
    fits = refl

    free : (try_acquire_locks setup_task.id setup_task.target_files new_file_lock_registry).0 ≡ true
    free = refl

-- A question about the first task blocks the second one too.
both_blocked :
    (blocked : TextSet) × (blocked_tasks
        (new_dependency_index plan)
        plan
        (question (codes "a") ∷ [])
      ≡ some blocked)
    × (blocked (codes "b") ≡ true)
unfolding blocked_tasks blocked_by propagate spread any resolve new_dependency_index index_from
    index_task text_eq dep_id
both_blocked = (_, refl, refl)

blocked_tasks_iff_example :
    (both_blocked.0 (codes "b") ≡ true)
    ↔ IsBlocked (new_dependency_index plan) plan (question (codes "a") ∷ []) (codes "b")
blocked_tasks_iff_example =
    blocked_tasks_iff (new_dependency_index plan) plan (question (codes "a") ∷ []) both_blocked.0
      (codes "b") both_blocked.1

blocked_tasks-none_example :
    (blocked_tasks (new_dependency_index plan) plan (question [] ∷ []) ≡ none)
    ↔ (any (λ (c : Clarification). not c.resolved && is_empty c.task_id) (question [] ∷ []) ≡ true)
blocked_tasks-none_example = blocked_tasks-none (new_dependency_index plan) plan (question [] ∷ [])

try_acquire_locks-granted_example :
    ((try_acquire_locks (codes "b") (main_file ∷ []) registry).1.locks main_file
      ≡ (if elem main_file (main_file ∷ []) then some (codes "b") else registry.locks main_file))
    × ((elem main_file (main_file ∷ []) ≡ false)
        ⊎ ((registry.locks main_file ≡ none) ⊎ (registry.locks main_file ≡ some (codes "b"))))
unfolding try_acquire_locks text_eq
try_acquire_locks-granted_example =
    try_acquire_locks-granted (codes "b") (main_file ∷ []) registry _ main_file granted
  where
    granted :
        try_acquire_locks (codes "b") (main_file ∷ []) registry
        ≡ (true, (try_acquire_locks (codes "b") (main_file ∷ []) registry).1)
    granted = refl

release_locks_lem_example :
    ((release_locks (codes "b") registry).locks main_file ≢ some (codes "b"))
    × ((registry.locks main_file ≡ some (codes "a"))
        ↔ ((release_locks (codes "b") registry).locks main_file ≡ some (codes "a")))
release_locks_lem_example = release_locks_lem (codes "b") (codes "a") registry main_file a_ne_b

release_locks-try_acquire_locks_example :
    release_locks (codes "a") (try_acquire_locks (codes "a") (codes "go.mod" ∷ []) registry).1
    ≡ registry
release_locks-try_acquire_locks_example =
    release_locks-try_acquire_locks (codes "a") (codes "go.mod" ∷ []) registry fresh
  where
    by_test : (f : Text) (b : Bool) → (if b then some (codes "b") else none) ≢ some (codes "a")
    by_test f true e = b_only e
    by_test f false e = cc

    fresh : (f : Text) → registry.locks f ≢ some (codes "a")
    fresh f e = by_test f (text_eq f main_file) e
