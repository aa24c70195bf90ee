-- ===== src/Domain/Task.antt =====
-- Tasks: pkg/domain/task.go. Counters and token totals are natural numbers, a time is a number of
-- nanoseconds with 0 for the zero time, and a pointer to a time is an `Option`.
use noctifab.Prelude.{ℕ, Bool, true, false, List, [], Option, none}
use noctifab.Prelude.Text.{Text}

pub data TaskStatus : Type 0 where
  pending in_progress success failed conflict_blocked conflict_failed interrupted : TaskStatus
  deferred skipped : TaskStatus

pub data ChangeType : Type 0 where
  feature fix breaking : ChangeType

pub data FailureStage : Type 0 where
  anti_stub linter unit_test e2e git_commit qa : FailureStage

pub record TaskFailureEnvelope : Type 0 where
  pub stage : FailureStage
  pub command : Text
  pub exit_code : ℕ
  pub stdout : Text
  pub stderr : Text
  pub failing_files : List Text
  pub worktree_diff : Text
  pub timestamp : ℕ

pub record Task : Type 0 where
  pub id : Text
  pub title : Text
  pub description : Text
  pub status : TaskStatus
  pub change_type : ChangeType
  pub assigned_to : Text
  pub progress : ℕ
  pub depends_on : List Text
  pub target_files : List Text
  pub partial_changelog : List Text
  pub failure_log : Text
  pub failure_envelope : Option TaskFailureEnvelope
  pub recovery_directive : Text
  pub user_directives : List Text
  pub stall_count : ℕ
  pub last_resort_used : Bool
  pub fallback_used : Bool
  pub retries : ℕ
  pub max_retries : ℕ
  pub story_id : Text
  pub complexity : Text
  pub model_upgrades : ℕ
  pub parent_task_id : Text
  pub input_tokens : ℕ
  pub output_tokens : ℕ
  pub tokens_used : ℕ
  pub started_at : Option ℕ
  pub completed_at : Option ℕ
  pub created_at : ℕ
  pub updated_at : ℕ

-- `t.Status == domain.TaskSuccess`, and so for the others.
abbrev pub is_success : TaskStatus → Bool
is_success success = true
is_success _ = false

abbrev pub is_failed : TaskStatus → Bool
is_failed failed = true
is_failed _ = false

abbrev pub is_pending : TaskStatus → Bool
is_pending pending = true
is_pending _ = false

-- A task with the given identity and empty fields elsewhere, for the zero value and for tests.
abbrev pub blank_task : Text → Text → Task
blank_task id title = record {
  id = id;
  title = title;
  description = [];
  status = pending;
  change_type = feature;
  assigned_to = [];
  progress = 0;
  depends_on = [];
  target_files = [];
  partial_changelog = [];
  failure_log = [];
  failure_envelope = none;
  recovery_directive = [];
  user_directives = [];
  stall_count = 0;
  last_resort_used = false;
  fallback_used = false;
  retries = 0;
  max_retries = 0;
  story_id = [];
  complexity = [];
  model_upgrades = 0;
  parent_task_id = [];
  input_tokens = 0;
  output_tokens = 0;
  tokens_used = 0;
  started_at = none;
  completed_at = none;
  created_at = 0;
  updated_at = 0;
}
