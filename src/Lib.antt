-- ===== src/Lib.antt =====
-- Verification of noctifab, which plans software tasks, runs agents on them in parallel and guards
-- the repair of failed ones. What is modelled is its core logic, with native numbers, texts as lists
-- of character codes (bytes where the source measures bytes), Go maps as functions from keys to
-- options, errors as values, and clocks, digests and fresh identifiers as arguments.
--
-- The parts, with the files of the repository:
--
-- - Prelude: tests on numbers, lists, texts, maps and results that the other modules share.
-- - Domain/Task and Domain/State: the records of pkg/domain/task.go, state.go, action.go and
--   clarification.go. Domain/Actions: `TruncateActionResult` and `AppendAction` of
--   pkg/domain/action_log.go. Domain/Session: `SpecSession` of pkg/domain/spec_session.go.
-- - Story/Ids: the identifiers of stories and tasks in dependency texts, from
--   pkg/services/story_dag_scheduler.go, scheduler.go and task_dependencies.go.
-- - Story/Parse, Story/Graph and Story/Execute: the story scheduler of
--   pkg/services/story_dag_scheduler.go. Story/Parse reads the dependencies of a story's text, with the
--   YAML reader as a parameter; Story/Sort is Go's `sort.SliceStable`, whose fuel is more than the number of its
--   rounds; Story/Graph has the nodes and the operations that change them; and
--   Story/Execute has `Execute` as a relation of steps. Each section of the source that holds the
--   lock is one step, and the steps interleave in any order that the source allows.
-- - Planning: the planned tasks before Dag orders them. Planning/Normalizer is
--   pkg/services/task_normalizer.go; its search for a free ID takes fuel, two more than the number of
--   taken IDs, and the IDs that it tries are all different. Planning/Dependencies and Planning/Files are
--   `ResolveTaskDependencies` of pkg/services/task_dependencies.go, with the disk as a parameter.
-- - Edits: the edits of files by an agent's tool, pkg/services/edit_file_helper.go.
-- - Stalls: the detection of stalled tasks, pkg/services/fallback_detect.go, and what the fallback agent of
--   pkg/services/fallback_agent.go does about them without a model; Stalls/Commands and Stalls/Triage are
--   the commands of pkg/services/unblocker_commands.go.
-- - Tokens: the token accounts of pkg/services/token_accounting.go.
-- - Dag: `ResolveAndSortTasks` of pkg/services/dag.go. Dag/Graph has the loops that build the tables,
--   Dag/Walk the depth-first search. The search takes fuel, one more than the number of tasks: each
--   nested call marks one more task as visited, so that it never runs out.
-- - Locks: `FileLockRegistry` of pkg/services/scheduler.go. Its methods hold a mutex, so each is one
--   step of the model.
-- - Scheduler: `GetReadyTasks` of pkg/services/scheduler.go, which a plan's tasks go through after
--   Dag has ordered them, and which takes the locks of Locks. Scheduler/Index is the lookup of
--   dependencies, Scheduler/Blocked the tasks that clarifications block, and Scheduler/Ready the
--   selection. The loop of Scheduler/Blocked takes fuel, one more than the number of tasks: each round
--   that changes anything blocks one more task.
-- - Guards: Guards/Buffer is the bounded output buffer of pkg/services/bounded_buffer.go,
--   Guards/Oscillation the breaker of pkg/services/oscillation_circuit_breaker.go, whose fingerprint of
--   a log is an argument, and Guards/Breaker `TaskCircuitBreaker` of pkg/services/circuit_breaker.go.
--   Guards/Diffs is pkg/services/diff_oscillation_guard.go, with the digest as an argument.
--   Guards/Regression is pkg/services/regression_barrier_guard.go.
--   Guards/Turns has pkg/services/adaptive_turn_manager.go and zero_mutation_guard.go.
-- - Steering: `SteeringService` of pkg/services/steering_service.go; the mutex makes each method one
--   step, and a channel of capacity 1 is a flag.
-- - Escalation: `EvaluateEscalation` and `SplitTask` of pkg/services/task_escalator.go, with the
--   configuration of pkg/infrastructure/config/escalation_types.go.
--   Escalation/Attempts is what `executeTask` of pkg/services/orchestrator_execute.go makes of a decision; it
--   does not save the count of upgrades, so Escalation/Ladder has the count as the caller keeps it.
-- - Router: Router/Latency is `LatencyTracker` of pkg/infrastructure/llm/router_latency_tracker.go, and
--   Router/Cooldown the cooldowns of pkg/infrastructure/llm/router_ratelimit.go.
-- - Examples: runs and theorems at concrete inputs.
--
-- Not modelled: the command line, the clients of language models, storage, configuration, version
-- control, telemetry, the web interface and reports, which are input and output or calls of other
-- software; characters outside ASCII in identifiers; the
-- router around the trackers; and the messages of errors and decisions.
pub mod Prelude
pub mod Domain
pub mod Story
pub mod Dag
pub mod Planning
pub mod Tokens
pub mod Edits
pub mod Steering
pub mod Stalls
pub mod Locks
pub mod Scheduler
pub mod Guards
pub mod Router
pub mod Escalation
mod Examples
