-- ===== src/Stalls/Assess.antt =====
-- What is done about stalled tasks: `filterStallsForLLMAssessment` of pkg/services/fallback_detect.go and
-- `assessHeuristic` of pkg/services/fallback_agent.go, with the commands of pkg/services/unblocker_commands.go
-- that they send. Reasons and messages have no field.
use noctifab.Prelude.{
  ℕ, ◌-◌, ◌*◌, Bool, false, ◌&&◌, ◌||◌, List, [], ◌∷◌, ◌++◌, Option, none, some, ltb, leb, ◌==◌,
  if◌then◌else◌, map,
}
use noctifab.Prelude.Text.{Text, codes, elem, text_eq}
use noctifab.Prelude.Maps.{Map, insert}
use noctifab.Domain.Task.{
  Task, TaskStatus, pending, in_progress, success, failed, conflict_blocked, conflict_failed,
  interrupted, deferred, skipped,
}
use noctifab.Domain.State.{State, Agent}
use noctifab.Stalls.Detect.{
  StalledTask, FallbackAgent, StallReason, frozen_progress, orphaned_task, agent_inconsistency,
  stuck_in_conflict, pipeline_deadlock, second,
}

abbrev pub status_text : TaskStatus → Text
status_text pending = codes "PENDING"
status_text in_progress = codes "IN_PROGRESS"
status_text success = codes "SUCCESS"
status_text failed = codes "FAILED"
status_text conflict_blocked = codes "CONFLICT_BLOCKED"
status_text conflict_failed = codes "CONFLICT_FAILED"
status_text interrupted = codes "INTERRUPTED"
status_text deferred = codes "DEFERRED"
status_text skipped = codes "SKIPPED"

abbrev pub stall_cooldown_key : Task → Text
stall_cooldown_key t = t.id ++ codes "|" ++ status_text t.status

abbrev pub current_keys : List Task → List Text
current_keys = map stall_cooldown_key

abbrev pub assessment_cooldown : FallbackAgent → ℕ
assessment_cooldown u = if u.llm_cooldown == 0 then 300 * second else u.llm_cooldown

-- The entries whose task still has the status of the key.
abbrev pub prune_assessed : List Text → Map ℕ → Map ℕ
prune_assessed current assessed k = if elem k current then assessed k else none

abbrev pub is_recent : ℕ → ℕ → Option ℕ → Bool
is_recent now cooldown none = false
is_recent now cooldown (some assessed_at) = ltb (now - assessed_at) cooldown

pub record Assessed : Type 0 where
  pub fresh : List StalledTask
  pub assessed_at : Map ℕ

unfoldable pub fresh_stalls : ℕ → ℕ → Map ℕ → List StalledTask → Assessed
unfolding text_eq
fresh_stalls now cooldown assessed [] = record { fresh = []; assessed_at = assessed }
fresh_stalls now cooldown assessed (s ∷ stalls) =
    let key = stall_cooldown_key s.task in
    let skip = is_recent now cooldown (assessed key) in
    let rest =
      fresh_stalls now cooldown (if skip then assessed else insert key (some now) assessed)
        stalls in
    if skip then rest else record rest { fresh = s ∷ rest.fresh }

pub record Filtered : Type 0 where
  pub stalls : List StalledTask
  pub agent : FallbackAgent

unfoldable pub filter_stalls_for_llm_assessment :
    ℕ → State → List StalledTask → FallbackAgent → Filtered
unfolding elem fresh_stalls
filter_stalls_for_llm_assessment now state stalls u =
    let r =
      fresh_stalls now (assessment_cooldown u)
        (prune_assessed (current_keys state.tasks) u.llm_assessed_at) stalls in
    record { stalls = r.fresh; agent = record u { llm_assessed_at = r.assessed_at } }

pub data FallbackCommand : Type 0 where
  reset_task : Text → FallbackCommand
  fail_task : Text → FallbackCommand
  clear_inconsistent_agent : Text → FallbackCommand
  log_deadlock : FallbackCommand

abbrev max_allowed : FallbackAgent → Task → ℕ
max_allowed u t =
    if ltb 0 u.max_retries && (t.max_retries == 0 || ltb u.max_retries t.max_retries)
    then u.max_retries
    else t.max_retries

abbrev retry_command : FallbackAgent → Task → FallbackCommand
retry_command u t =
    if ltb 0 (max_allowed u t) && leb (max_allowed u t) t.retries
    then fail_task t.id
    else reset_task t.id

abbrev clear_command : Option Agent → List FallbackCommand
clear_command none = []
clear_command (some ag) = clear_inconsistent_agent ag.id ∷ []

abbrev command_for : FallbackAgent → StallReason → StalledTask → List FallbackCommand
command_for u frozen_progress s = retry_command u s.task ∷ []
command_for u orphaned_task s = retry_command u s.task ∷ []
command_for u stuck_in_conflict s = reset_task s.task.id ∷ []
command_for u agent_inconsistency s = clear_command s.agent
command_for u pipeline_deadlock s = log_deadlock ∷ []

-- The commands in the order in which they are sent.
unfoldable pub assess_heuristic : FallbackAgent → List StalledTask → List FallbackCommand
assess_heuristic u [] = []
assess_heuristic u (s ∷ stalls) = command_for u s.reason s ++ assess_heuristic u stalls
