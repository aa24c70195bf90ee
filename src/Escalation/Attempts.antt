-- ===== src/Escalation/Attempts.antt =====
-- What `executeTask` of pkg/services/orchestrator_execute.go makes of a decision of the escalator before it runs an
-- attempt on a task. The overrides of the context are arguments of the attempt, and the calls of git that
-- clean the worktree are a flag. The task that an attempt runs on is the copy that `executeTask` has loaded: it
-- does not save the count of upgrades.
use mathlib.Core.Option
use noctifab.Prelude.{
  ℕ, suc, Bool, not, ◌&&◌, List, [], ◌∷◌, ◌++◌, Option, none, some, ◌==◌, if◌then◌else◌, length,
}
use noctifab.Prelude.Text.{Text, codes, is_empty, text_eq}
use noctifab.Domain.Task.{Task, TaskStatus}
use noctifab.Domain.State.{State}
use noctifab.Escalation.{
  EscalationDecision, ProgressiveTaskEscalator, evaluate_escalation, split_task,
}

-- The task is split; or an attempt is run on it, with a model in place of the usual one or none.
pub data Rung : Type 0 where
  split_into : List Task → Rung
  runs : (cleans thinking : Bool) → (model_override : Option Text) → Task → Rung

abbrev pub follow_decision : Task → EscalationDecision → Rung
follow_decision task d =
    if d.should_split && not (length (split_task task) == 0)
    then split_into (split_task task)
    else if d.upgrade_model && not (is_empty d.target_model)
    then runs d.clean_worktree d.enable_thinking (some d.target_model)
        (record task { model_upgrades = suc task.model_upgrades })
    else runs d.clean_worktree d.enable_thinking none task

-- `none` is a panic of the escalator.
unfoldable pub escalate : ProgressiveTaskEscalator → Task → Option Rung
escalate e task = Option.map (follow_decision task) (evaluate_escalation e task 0)

-- The first task of the ID is skipped.
unfoldable pub skip_first : ℕ → Text → List Task → List Task
unfolding text_eq
skip_first now id [] = []
skip_first now id (t ∷ ts) =
    let rest = skip_first now id ts in
    if text_eq t.id id
    then record t {
      status = TaskStatus.skipped;
      failure_log = codes "Decomposed into smaller subtasks due to complexity escalation";
      updated_at = now;
    }
      ∷ ts
    else t ∷ rest

-- The state after a task has been split.
unfoldable pub split_state : ℕ → Text → List Task → State → State
unfolding skip_first
split_state now id subtasks state = record state {
  tasks = skip_first now id state.tasks ++ subtasks;
}
