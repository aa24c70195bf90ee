-- ===== src/Scheduler/Ready.antt =====
-- The selection of ready tasks: the last part of `GetReadyTasks` in pkg/services/scheduler.go. A
-- concurrency limit below 0, which selects nothing, is the limit 0.
use noctifab.Prelude.{
  ℕ, ◌-◌, ◌+◌, Bool, true, false, not, ◌&&◌, ◌||◌, List, [], ◌∷◌, ◌++◌, none, some, ltb, leb, ◌==◌,
  if◌then◌else◌, any, all, length,
}
use noctifab.Prelude.Text.{Text, text_eq, is_empty}
use noctifab.Prelude.Maps.{Map, insert, empty_map}
use noctifab.Domain.Task.{Task, TaskStatus, is_success, is_failed, is_pending}
use noctifab.Domain.State.{State, Agent, is_working}
use noctifab.Story.Ids.{extract_story_id, parse_story_index, int_pos, int_lt}
use noctifab.Locks.{FileLockRegistry, try_acquire_locks}
use noctifab.Scheduler.Index.{DependencyIndex, new_dependency_index, dep_id}
use noctifab.Scheduler.Blocked.{TextSet, blocked_tasks}
pub mod Loop
pub mod Selected
pub mod Checks

unfoldable pub status_map : List Task → Map TaskStatus → Map TaskStatus
status_map [] m = m
status_map (t ∷ ts) m = status_map ts (insert t.id (some t.status) m)

unfoldable pub active_count : List Agent → ℕ
active_count [] = 0
active_count (a ∷ agents) =
    if is_working a.status then active_count agents + 1 else active_count agents

abbrev pub may_run : Task → Bool
may_run t = is_pending t.status || is_failed t.status && ltb t.retries t.max_retries

abbrev pub of_story : Text → Task → Bool
of_story story other = text_eq other.story_id story

-- The dependency is a missing task of an earlier story, and all tasks of that story succeeded.
unfoldable pub earlier_story_done : List Task → Task → Text → Bool
earlier_story_done tasks t id =
    let story = extract_story_id id in
    let dep_index = parse_story_index story in
    let own_index = parse_story_index t.story_id in
    not (is_empty story)
    && (int_pos dep_index && (own_index == 0 || int_lt dep_index own_index))
    && (any (of_story story) tasks
        && all (λ other. not (of_story story other) || is_success other.status) tasks)

unfoldable pub dep_met : List Task → DependencyIndex → Task → Text → Bool
dep_met tasks idx t dep =
    let id = dep_id idx dep in
    elim (status_map tasks empty_map id) [
      | some status ↦ is_success status
      | none ↦ earlier_story_done tasks t id
    ]

-- The task belongs to a story before the one of the given index.
abbrev pub of_earlier_story : ℕ → Task → Bool
of_earlier_story own_index other =
    not (is_empty other.story_id)
    && (int_pos (parse_story_index other.story_id)
        && int_lt (parse_story_index other.story_id) own_index)

unfoldable pub has_cross_story_dep : List Task → DependencyIndex → Task → Bool
has_cross_story_dep tasks idx t =
    any
      (λ dep.
        any
          (λ other.
            text_eq other.id (dep_id idx dep)
            && of_earlier_story (parse_story_index t.story_id) other)
          tasks)
      t.depends_on

-- The milestone barrier: without a dependency on an earlier story, all earlier stories are done.
unfoldable pub barrier_passed : List Task → DependencyIndex → Task → Bool
barrier_passed tasks idx t =
    let own_index = parse_story_index t.story_id in
    if not (is_empty t.story_id) && int_pos own_index && not (has_cross_story_dep tasks idx t)
    then all
        (λ other.
          not (of_earlier_story own_index other && not (text_eq other.id t.id))
          || is_success other.status)
        tasks
    else true

-- The checks of one task that come before its locks.
unfoldable pub is_eligible : List Task → DependencyIndex → TextSet → Task → Bool
is_eligible tasks idx blocked t =
    may_run t
    && (not (blocked t.id)
        && (all (dep_met tasks idx t) t.depends_on && barrier_passed tasks idx t))

pub record Selection : Type 0 where
  pub ready : List Task
  pub registry : FileLockRegistry

-- The locks are granted, and the task joins the ready tasks.
abbrev pub join : Task → Selection → Bool × FileLockRegistry → Selection × Bool
join t s (true, r) = (record { ready = s.ready ++ t ∷ []; registry = r }, true)
join t s (false, r) = (record s { registry = r }, false)

-- One round of the loop; the flag says that the task joined.
unfoldable pub consider : (Task → Bool) → Task → Selection → Selection × Bool
consider eligible t s =
    if eligible t then join t s (try_acquire_locks t.id t.target_files s.registry) else (s, false)

unfoldable pub select : (Task → Bool) → ℕ → List Task → Selection → Selection
select eligible slots [] s = s
select eligible slots (t ∷ ts) s =
    let round = consider eligible t s in
    elim (round.1 && leb slots (length round.0.ready)) [
      | true ↦ round.0
      | false ↦ select eligible slots ts round.0
    ]

unfoldable pub get_ready_tasks : State → ℕ → FileLockRegistry → Selection
get_ready_tasks state concurrency_limit registry =
    let idx = new_dependency_index state.tasks in
    let slots = concurrency_limit - active_count state.active_agents in
    let nothing : Selection = record { ready = []; registry = registry } in
    elim (blocked_tasks idx state.tasks state.clarifications) [
      | none ↦ nothing
      | some blocked ↦
          if slots == 0
          then nothing
          else select (is_eligible state.tasks idx blocked) slots state.tasks nothing
    ]
