-- ===== src/Domain/State.antt =====
-- The persisted state: pkg/domain/state.go, action.go and clarification.go. The criteria,
-- files, contracts, reviews and orders of a state are not read by the modelled operations and have
-- no field here; the arguments of an action are kept as its text.
use noctifab.Prelude.{ℕ, Bool, true, false, List, Option}
use noctifab.Prelude.Text.{Text}
use noctifab.Domain.Task.{Task}

pub data AgentRole : Type 0 where
  planner generator tester qa resolver unblocker last_resort fallback auditor : AgentRole

pub data AgentStatus : Type 0 where
  idle working completed : AgentStatus

pub record Agent : Type 0 where
  pub id : Text
  pub name : Text
  pub role : AgentRole
  pub status : AgentStatus
  pub task_id : Text
  pub started_at : ℕ
  pub completed_at : ℕ
  pub input_tokens : ℕ
  pub output_tokens : ℕ
  pub tokens_used : ℕ
  pub last_error : Text

pub data BuildStatus : Type 0 where
  passing failing unknown : BuildStatus

pub record StateMetadata : Type 0 where
  pub input_source : Text
  pub input_path : Text
  pub integration_branch : Text
  pub feature_name : Text
  pub base_branch : Text
  pub project_version : Text
  pub total_input_tokens : ℕ
  pub total_output_tokens : ℕ
  pub total_tokens_used : ℕ

pub data StoryStatus : Type 0 where
  idle pending running success failed paused cancelled deferred : StoryStatus

pub record Story : Type 0 where
  pub id : Text
  pub state_id : Text
  pub title : Text
  pub file_path : Text
  pub status : StoryStatus
  pub started_at : Option ℕ
  pub completed_at : Option ℕ
  pub input_tokens : ℕ
  pub output_tokens : ℕ
  pub tokens_used : ℕ
  pub created_at : ℕ
  pub updated_at : ℕ

pub record Clarification : Type 0 where
  pub id : Text
  pub question : Text
  pub answer : Text
  pub resolved : Bool
  pub asked_at : ℕ
  pub task_id : Text

pub record Action : Type 0 where
  pub id : Text
  pub timestamp : ℕ
  pub tool : Text
  pub args : Text
  pub reasoning : Text
  pub result : Text
  pub success : Bool

pub record State : Type 0 where
  pub id : Text
  pub project_path : Text
  pub version : ℕ
  pub clarifications : List Clarification
  pub stories : List Story
  pub tasks : List Task
  pub active_agents : List Agent
  pub build_status : BuildStatus
  pub last_actions : List Action
  pub metadata : StateMetadata
  pub story_status : StoryStatus
  pub story_error : Text

-- `agent.Status == domain.AgentWorking`.
abbrev pub is_working : AgentStatus → Bool
is_working working = true
is_working _ = false
