-- ===== src/Stalls/Detect.antt =====
-- Which tasks are stalled: `detectStalledTasks` of pkg/services/fallback_detect.go, with the reasons of
-- pkg/services/unblocker_prompt.go. The time of a call is an argument. The logs of a stall, and its texts for
-- the reason and the time, have no field.
use noctifab.Prelude.{
  ℕ, ◌-◌, ◌*◌, ◌/◌, Bool, true, false, not, ◌&&◌, List, [], ◌∷◌, ◌++◌, Option, none, some, ltb,
  ◌==◌, if◌then◌else◌,
}
use noctifab.Prelude.Text.{Text, text_eq, is_empty}
use noctifab.Prelude.Maps.{Map, insert, empty_map}
use noctifab.Domain.Task.{Task, TaskStatus, in_progress, conflict_blocked, blank_task}
use noctifab.Domain.State.{State, Agent, is_working}

pub data StallReason : Type 0 where
  frozen_progress orphaned_task agent_inconsistency : StallReason
  stuck_in_conflict pipeline_deadlock : StallReason

pub record StalledTask : Type 0 where
  pub task : Task
  pub agent : Option Agent
  pub reason : StallReason
  pub stalled_for : ℕ

pub record FallbackAgent : Type 0 where
  pub stall_threshold : ℕ
  pub conflict_threshold : ℕ
  pub inconsistency_grace_period : ℕ
  pub llm_cooldown : ℕ
  pub llm_assessed_at : Map ℕ
  pub max_retries : ℕ

unfoldable pub get_log_window_lines : ℕ → ℕ
get_log_window_lines stall_count =
    if stall_count == 0 then 50 else if stall_count == 1 then 500 else 5000

-- `agentByTaskID`: the last agent of a task.
unfoldable pub agent_by_task_id : List Agent → Map Agent → Map Agent
unfolding text_eq
agent_by_task_id [] m = m
agent_by_task_id (ag ∷ ags) m =
    agent_by_task_id ags (if is_empty ag.task_id then m else insert ag.task_id (some ag) m)

unfoldable pub status_by_id : List Task → Map TaskStatus → Map TaskStatus
unfolding text_eq
status_by_id [] m = m
status_by_id (t ∷ ts) m = status_by_id ts (insert t.id (some t.status) m)

abbrev is_in_progress : TaskStatus → Bool
is_in_progress in_progress = true
is_in_progress _ = false

abbrev is_conflict_blocked : TaskStatus → Bool
is_conflict_blocked conflict_blocked = true
is_conflict_blocked _ = false

abbrev has_working : Option Agent → Bool
has_working none = false
has_working (some ag) = is_working ag.status

-- The reason why a task is stalled, if it is; a task that was never updated is not.
unfoldable pub task_stall_reason : FallbackAgent → ℕ → Option Agent → Task → Option StallReason
task_stall_reason u now agent t =
    let stalled_for = now - t.updated_at in
    if t.updated_at == 0
    then none
    else if is_in_progress t.status
    then (if ltb u.stall_threshold stalled_for
        then some frozen_progress
        else if ltb (u.stall_threshold / 2) stalled_for && not (has_working agent)
        then some orphaned_task
        else none)
    else if is_conflict_blocked t.status && ltb u.conflict_threshold stalled_for
    then some stuck_in_conflict
    else none

abbrev add_stall :
    Task → Option Agent → ℕ → Option StallReason → List StalledTask → List StalledTask
add_stall t agent stalled_for none rest = rest
add_stall t agent stalled_for (some reason) rest =
    record { task = t; agent = agent; reason = reason; stalled_for = stalled_for } ∷ rest

unfoldable pub stalled_tasks : FallbackAgent → ℕ → Map Agent → List Task → List StalledTask
unfolding task_stall_reason
stalled_tasks u now agents [] = []
stalled_tasks u now agents (t ∷ ts) =
    add_stall t (agents t.id) (now - t.updated_at) (task_stall_reason u now (agents t.id) t)
      (stalled_tasks u now agents ts)

unfoldable pub find_task : Text → List Task → Task
unfolding text_eq
find_task id [] = blank_task [] []
find_task id (t ∷ ts) = let rest = find_task id ts in if text_eq t.id id then t else rest

abbrev pub second : ℕ
second = 1000000000

abbrev grace_period : FallbackAgent → ℕ
grace_period u =
    if u.inconsistency_grace_period == 0 then 60 * second else u.inconsistency_grace_period

abbrev is_running_task : Option TaskStatus → Bool
is_running_task none = false
is_running_task (some st) = is_in_progress st

abbrev within_grace : FallbackAgent → ℕ → ℕ → Bool
within_grace u now time = not (time == 0) && ltb (now - time) (grace_period u)

-- A working agent whose task is not in progress, behind the grace period.
unfoldable pub is_inconsistent : FallbackAgent → ℕ → Map TaskStatus → List Task → Agent → Bool
unfolding find_task
is_inconsistent u now statuses tasks ag =
    is_working ag.status
    && not (is_empty ag.task_id)
    && not (is_running_task (statuses ag.task_id))
    && not (within_grace u now ag.started_at)
    && not (within_grace u now (find_task ag.task_id tasks).updated_at)

unfoldable pub inconsistent_agents :
    FallbackAgent → ℕ → Map TaskStatus → List Task → List Agent → List StalledTask
unfolding is_inconsistent find_task
inconsistent_agents u now statuses tasks [] = []
inconsistent_agents u now statuses tasks (ag ∷ ags) =
    let rest = inconsistent_agents u now statuses tasks ags in
    if is_inconsistent u now statuses tasks ag
    then record {
      task = find_task ag.task_id tasks;
      agent = some ag;
      reason = agent_inconsistency;
      stalled_for = if ag.started_at == 0 then 60 * second else now - ag.started_at;
    }
      ∷ rest
    else rest

unfoldable pub detect_stalled_tasks : FallbackAgent → ℕ → State → List StalledTask
unfolding agent_by_task_id status_by_id stalled_tasks inconsistent_agents
detect_stalled_tasks u now state =
    stalled_tasks u now (agent_by_task_id state.active_agents empty_map) state.tasks
    ++ inconsistent_agents u now (status_by_id state.tasks empty_map) state.tasks
        state.active_agents
