-- ===== src/Escalation/Ladder.antt =====
-- The attempts on a task that keeps failing climb the models, and end with a split (pkg/services/task_escalator.go
-- and orchestrator_execute.go), if the task keeps its count of upgrades.
use noctifab.Prelude.{ℕ, zero, suc, List, [], ◌∷◌, Option, none, some}
use noctifab.Prelude.Text.{Text}
use noctifab.Domain.Task.{Task}
use noctifab.Escalation.{ProgressiveTaskEscalator}
use noctifab.Escalation.Attempts.{split_into, runs, escalate}

-- The model at a place, or the last one where the list is shorter.
unfoldable pub model_at : List Text → ℕ → Text
model_at [] i = []
model_at (m ∷ []) i = m
model_at (m ∷ n ∷ ms) zero = m
model_at (m ∷ n ∷ ms) (suc i) = model_at (n ∷ ms) i

-- What became of an attempt: it was run with a model of the escalator, or with the usual one; or the task
-- was split; or the program stopped.
pub data Outcome : Type 0 where
  with_model : Text → Outcome
  with_usual_model was_split panicked : Outcome

abbrev outcome_of_run : Option Text → Outcome
outcome_of_run none = with_usual_model
outcome_of_run (some m) = with_model m

-- The attempts on a task with the numbers of failures given, up to a split. Each gets the task with the count of
-- upgrades that the one before it left.
unfoldable pub attempts : ProgressiveTaskEscalator → List ℕ → Task → List Outcome
unfolding escalate
attempts e [] task = []
attempts e (fails ∷ later) task = elim (escalate e (record task { retries = fails })) [
  | none ↦ panicked ∷ []
  | some (split_into subtasks) ↦ was_split ∷ []
  | some (runs cleans thinking model_override task') ↦
      outcome_of_run model_override ∷ attempts e later task'
]

-- The models that `n` upgrades use, from a place on.
abbrev pub next_models : List Text → ℕ → ℕ → List Outcome
next_models models i zero = []
next_models models i (suc n) = with_model (model_at models i) ∷ next_models models (suc i) n
