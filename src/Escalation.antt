-- ===== src/Escalation.antt =====
-- The escalation of failing tasks: pkg/services/task_escalator.go, with its configuration from
-- pkg/infrastructure/config/escalation_types.go and `IsThinkingOnlyModel` of
-- pkg/infrastructure/llm/model_capabilities.go. The task is not nil, a number of the configuration that is
-- not positive is 0, and the reason of a decision, a formatted text, has no field. `Split` proves how a task
-- is divided, and `Ladder` which models are used. `Attempts` is the
-- part of an attempt that follows a decision.
use mathlib.Core.Option
use noctifab.Prelude.{
  ℕ, zero, suc, ◌+◌, ◌-◌, ◌*◌, ◌/◌, Bool, true, false, not, ◌&&◌, ◌||◌, List, [], ◌∷◌, ◌++◌, Option,
  none, some, leb, ltb, ◌==◌, if◌then◌else◌, length, take, drop, get_elem?,
}
use noctifab.Prelude.Text.{
  Text, codes, text_eq, is_empty, to_lower, has_prefix, contains, trim_space,
}
use noctifab.Story.Ids.{to_upper}
use noctifab.Domain.Task.{Task, pending, blank_task}
pub mod Split
pub mod Attempts
pub mod Ladder

pub record TaskEscalationConfig : Type 0 where
  pub enabled : Bool
  pub thinking_threshold_turns : ℕ
  pub model_upgrade_threshold_turns : ℕ
  pub max_model_upgrades : ℕ
  pub split_on_max_upgrades : Option Bool
  pub clean_worktree_on_escalate : Option Bool
  pub upgraded_models : List Text

abbrev pub get_thinking_threshold_turns : TaskEscalationConfig → ℕ
get_thinking_threshold_turns c =
    if ltb 0 c.thinking_threshold_turns then c.thinking_threshold_turns else 2

abbrev pub get_model_upgrade_threshold_turns : TaskEscalationConfig → ℕ
get_model_upgrade_threshold_turns c =
    if ltb 0 c.model_upgrade_threshold_turns then c.model_upgrade_threshold_turns else 2

abbrev pub get_max_model_upgrades : TaskEscalationConfig → ℕ
get_max_model_upgrades c = if ltb 0 c.max_model_upgrades then c.max_model_upgrades else 2

abbrev pub true_unless_set : Option Bool → Bool
true_unless_set none = true
true_unless_set (some b) = b

abbrev pub is_split_on_max_upgrades_enabled : TaskEscalationConfig → Bool
is_split_on_max_upgrades_enabled c = true_unless_set c.split_on_max_upgrades

abbrev pub is_clean_worktree_on_escalate_enabled : TaskEscalationConfig → Bool
is_clean_worktree_on_escalate_enabled c = true_unless_set c.clean_worktree_on_escalate

pub record EscalationDecision : Type 0 where
  pub enable_thinking : Bool
  pub upgrade_model : Bool
  pub target_model : Text
  pub should_split : Bool
  pub clean_worktree : Bool

pub record ProgressiveTaskEscalator : Type 0 where
  pub cfg : TaskEscalationConfig
  pub available_upgraded_models : List Text

abbrev pub models_or : List Text → List Text → List Text
models_or [] available = available
models_or (m ∷ ms) available = m ∷ ms

abbrev pub new_progressive_task_escalator :
    TaskEscalationConfig → List Text → ProgressiveTaskEscalator
new_progressive_task_escalator cfg available = record {
  cfg = cfg;
  available_upgraded_models = models_or cfg.upgraded_models available;
}

unfoldable pub is_thinking_only_model : Text → Bool
is_thinking_only_model model =
    let m = to_lower (trim_space model) in
    let short = if has_prefix m (codes "models/") then drop (length (codes "models/")) m else m in
    contains short (codes "3.1-pro")
    || (contains short (codes "3.6-pro")
        || (contains short (codes "2.5-pro")
            || (contains short (codes "o1")
                || (contains short (codes "o3-mini")
                    || (contains short (codes "thinking-only")
                        || contains short (codes "reasoning-only"))))))

-- The model for the next upgrade: the last one when the list has run out. An index out of range is a panic, which
-- is `none`.
unfoldable pub select_upgraded_model : List Text → ℕ → Option Text
select_upgraded_model models current_upgrades =
    let idx =
      if leb (length models) current_upgrades then length models - 1 else current_upgrades in
    if length models == 0 then some [] else get_elem? models idx

abbrev pub no_escalation : EscalationDecision
no_escalation = record {
  enable_thinking = false;
  upgrade_model = false;
  target_model = [];
  should_split = false;
  clean_worktree = false;
}

abbrev pub is_high : Task → Bool
is_high task = text_eq (to_upper (trim_space task.complexity)) (codes "HIGH")

-- The threshold for thinking: 1 for a task of high complexity.
unfoldable pub thinking_threshold : TaskEscalationConfig → Task → ℕ
thinking_threshold cfg task =
    if is_high task && ltb 1 (get_thinking_threshold_turns cfg)
    then 1
    else get_thinking_threshold_turns cfg

-- A task that has failed often enough: `upgrading` is the number of failures from which on its model changes.
abbrev pub upgrade_decision : TaskEscalationConfig → ℕ → Task → Text → EscalationDecision
upgrade_decision cfg upgrading task target = record no_escalation {
  enable_thinking =
      if leb (upgrading + 1) task.retries then true else is_thinking_only_model target;
  upgrade_model = not (is_empty target);
  target_model = target;
  clean_worktree = is_clean_worktree_on_escalate_enabled cfg;
}

-- `none` is a panic.
unfoldable pub evaluate_escalation : ProgressiveTaskEscalator → Task → ℕ → Option EscalationDecision
evaluate_escalation e task turn =
    let thinking = thinking_threshold e.cfg task in
    let upgrading = thinking + get_model_upgrade_threshold_turns e.cfg in
    if not e.cfg.enabled
    then some no_escalation
    else if leb (get_max_model_upgrades e.cfg) task.model_upgrades
        && is_split_on_max_upgrades_enabled e.cfg
    then some (record no_escalation {
      enable_thinking = true;
      should_split = true;
      clean_worktree = true;
    })
    else if leb upgrading task.retries
    then Option.map (upgrade_decision e.cfg upgrading task)
        (select_upgraded_model e.available_upgraded_models task.model_upgrades)
    else if leb thinking task.retries || leb thinking turn
    then some (record no_escalation { enable_thinking = true })
    else some no_escalation

-- The suffix, the number and the phase of a subtask.
pub record Part : Type 0 where
  pub suffix : Text
  pub number : Text
  pub phase : Text

abbrev pub parts : List Part
parts =
    record { suffix = codes "-A"; number = codes "1"; phase = codes "Core Models & Interfaces" }
    ∷ record {
      suffix = codes "-B";
      number = codes "2";
      phase = codes "Business Logic Implementation";
    }
    ∷ record {
      suffix = codes "-C";
      number = codes "3";
      phase = codes "Integrations & Verification";
    }
    ∷ []

-- An index, cut off at the length.
abbrev pub cut : List Text → ℕ → ℕ
cut files k = if ltb (length files) k then length files else k

-- `files[start:end]`, with both ends cut off at the length.
abbrev pub slice : ℕ → ℕ → List Text → List Text
slice from to files = take (cut files to - cut files from) (drop (cut files from) files)

unfoldable pub subtask : Task → ℕ → ℕ → List Text → Part → Task
subtask task files_per_subtask i deps part =
    record (blank_task (task.id ++ part.suffix)
      (task.title ++ codes " (Part " ++ part.number ++ codes ": " ++ part.phase ++ codes ")")) {
        description =
            codes "Decomposed subtask from high-complexity parent "
            ++ task.id
            ++ codes ".\nPhase: "
            ++ part.phase
            ++ codes ".\nOriginal objective: "
            ++ task.description;
        status = pending;
        change_type = task.change_type;
        depends_on = deps;
        target_files =
            slice (i * files_per_subtask) (i * files_per_subtask + files_per_subtask)
              task.target_files;
        story_id = task.story_id;
        complexity = codes "MEDIUM";
        parent_task_id = task.id;
        retries = 0;
        max_retries = task.max_retries;
      }

unfoldable pub split_parts : Task → ℕ → ℕ → List Text → List Part → List Task
split_parts task files_per_subtask i deps [] = []
split_parts task files_per_subtask i deps (part ∷ ps) =
    subtask task files_per_subtask i deps part
    ∷ split_parts task files_per_subtask (i + 1) ((task.id ++ part.suffix) ∷ []) ps

abbrev pub split_count : Task → ℕ
split_count task = if leb 4 (length task.target_files) then 3 else 2

-- Rounded up, and at least 1.
abbrev pub files_per_subtask : ℕ → ℕ → ℕ
files_per_subtask files count =
    if (files + count - 1) / count == 0 then 1 else (files + count - 1) / count

unfoldable pub split_task : Task → List Task
split_task task =
    split_parts task (files_per_subtask (length task.target_files) (split_count task)) 0
      task.depends_on (take (split_count task) parts)
