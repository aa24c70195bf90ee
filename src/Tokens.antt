-- ===== src/Tokens.antt =====
-- The token accounts: `memoryTokenAccountingService` of pkg/services/token_accounting.go. A count is the bit
-- pattern of an `int64`. The lock makes each operation one step.
use Prim.Native.Nat.{◌^◌}
use noctifab.Prelude.{
  ℕ, ◌+◌, ◌%◌, Bool, true, false, List, [], ◌∷◌, ◌++◌, Option, none, some, if◌then◌else◌, map,
}
use noctifab.Prelude.Text.{Text, is_empty, text_eq}
use noctifab.Prelude.Maps.{Map, insert, empty_map}
use noctifab.Domain.Task.{Task}
use noctifab.Domain.State.{State, Story, Agent, StateMetadata}
use noctifab.Story.Graph.{text_lt}
pub mod Sums

pub record TokenUsage : Type 0 where
  pub input_tokens : ℕ
  pub output_tokens : ℕ
  pub reasoning_tokens : ℕ
  pub cached_tokens : ℕ
  pub total_tokens : ℕ

pub record StoryTokenBreakdown : Type 0 where
  pub story_id : Text
  pub input_tokens : ℕ
  pub output_tokens : ℕ
  pub total_tokens : ℕ

-- `story_keys` has the keys of `story_tokens` in the order of their first record.
pub record TokenAccountingService : Type 0 where
  pub story_tokens : Map StoryTokenBreakdown
  pub story_keys : List Text
  pub task_tokens : Map TokenUsage
  pub agent_tokens : Map TokenUsage
  pub total_input : ℕ
  pub total_output : ℕ

unfoldable pub new_token_accounting_service : TokenAccountingService
new_token_accounting_service = record {
  story_tokens = empty_map;
  story_keys = [];
  task_tokens = empty_map;
  agent_tokens = empty_map;
  total_input = 0;
  total_output = 0;
}

-- `a + b` on `int64`.
abbrev pub add64 : ℕ → ℕ → ℕ
add64 a b = (a + b) % 2 ^ 64

abbrev pub zero_usage : TokenUsage
zero_usage = record {
  input_tokens = 0;
  output_tokens = 0;
  reasoning_tokens = 0;
  cached_tokens = 0;
  total_tokens = 0;
}

abbrev pub usage_or_zero : Option TokenUsage → TokenUsage
usage_or_zero none = zero_usage
usage_or_zero (some u) = u

abbrev pub breakdown_or_zero : Text → Option StoryTokenBreakdown → StoryTokenBreakdown
breakdown_or_zero id none = record {
  story_id = id;
  input_tokens = 0;
  output_tokens = 0;
  total_tokens = 0;
}
breakdown_or_zero id (some b) = b

-- The usage added to an account of a task or an agent.
abbrev pub add_usage : TokenUsage → TokenUsage → TokenUsage
add_usage u account = record account {
  input_tokens = add64 account.input_tokens u.input_tokens;
  output_tokens = add64 account.output_tokens u.output_tokens;
  total_tokens = add64 account.total_tokens u.total_tokens;
}

abbrev pub add_to_story : TokenUsage → StoryTokenBreakdown → StoryTokenBreakdown
add_to_story u account = record account {
  input_tokens = add64 account.input_tokens u.input_tokens;
  output_tokens = add64 account.output_tokens u.output_tokens;
  total_tokens = add64 account.total_tokens u.total_tokens;
}

abbrev pub credit : TokenUsage → Text → Map TokenUsage → Map TokenUsage
credit u id accounts =
    if is_empty id
    then accounts
    else insert id (some (add_usage u (usage_or_zero (accounts id)))) accounts

abbrev pub credit_story : TokenUsage → Text → Map StoryTokenBreakdown → Map StoryTokenBreakdown
credit_story u id accounts =
    if is_empty id
    then accounts
    else insert id (some (add_to_story u (breakdown_or_zero id (accounts id)))) accounts

abbrev new_key : Text → Option StoryTokenBreakdown → List Text → List Text
new_key id none keys = if is_empty id then keys else keys ++ id ∷ []
new_key id (some b) keys = keys

unfoldable pub record_llm_usage :
    (story_id task_id agent_id : Text)
    → TokenUsage
    → TokenAccountingService
    → TokenAccountingService
unfolding text_eq
record_llm_usage story_id task_id agent_id usage s = record {
  story_tokens = credit_story usage story_id s.story_tokens;
  story_keys = new_key story_id (s.story_tokens story_id) s.story_keys;
  task_tokens = credit usage task_id s.task_tokens;
  agent_tokens = credit usage agent_id s.agent_tokens;
  total_input = add64 s.total_input usage.input_tokens;
  total_output = add64 s.total_output usage.output_tokens;
}

unfoldable pub get_story_breakdown : TokenAccountingService → Text → StoryTokenBreakdown
get_story_breakdown s id = breakdown_or_zero id (s.story_tokens id)

unfoldable pub insert_breakdown :
    StoryTokenBreakdown → List StoryTokenBreakdown → List StoryTokenBreakdown
unfolding text_lt
insert_breakdown b [] = b ∷ []
insert_breakdown b (c ∷ cs) =
    let rest = insert_breakdown b cs in
    if text_lt c.story_id b.story_id then c ∷ rest else b ∷ c ∷ cs

unfoldable pub sorted_breakdowns : TokenAccountingService → List Text → List StoryTokenBreakdown
unfolding get_story_breakdown insert_breakdown
sorted_breakdowns s [] = []
sorted_breakdowns s (k ∷ ks) = insert_breakdown (get_story_breakdown s k) (sorted_breakdowns s ks)

-- The accounts in the order of their story IDs, which are all different.
unfoldable pub get_all_story_breakdowns : TokenAccountingService → List StoryTokenBreakdown
unfolding sorted_breakdowns
get_all_story_breakdowns s = sorted_breakdowns s s.story_keys

pub record TotalBreakdown : Type 0 where
  pub input_tokens : ℕ
  pub output_tokens : ℕ
  pub total_tokens : ℕ

unfoldable pub get_total_breakdown : TokenAccountingService → TotalBreakdown
get_total_breakdown s = record {
  input_tokens = s.total_input;
  output_tokens = s.total_output;
  total_tokens = add64 s.total_input s.total_output;
}

abbrev pub apply_story : Option StoryTokenBreakdown → Story → Story
apply_story none story = story
apply_story (some b) story = record story {
  input_tokens = b.input_tokens;
  output_tokens = b.output_tokens;
  tokens_used = b.total_tokens;
}

abbrev pub apply_task : Option TokenUsage → Task → Task
apply_task none task = task
apply_task (some u) task = record task {
  input_tokens = u.input_tokens;
  output_tokens = u.output_tokens;
  tokens_used = u.total_tokens;
}

abbrev pub apply_agent : Option TokenUsage → Agent → Agent
apply_agent none agent = agent
apply_agent (some u) agent = record agent {
  input_tokens = u.input_tokens;
  output_tokens = u.output_tokens;
  tokens_used = u.total_tokens;
}

-- `ApplyToState` on a state that is not nil.
unfoldable pub apply_to_state : TokenAccountingService → State → State
apply_to_state s state = record state {
  metadata = record state.metadata {
    total_input_tokens = s.total_input;
    total_output_tokens = s.total_output;
    total_tokens_used = add64 s.total_input s.total_output;
  };
  stories = map (λ story. apply_story (s.story_tokens story.id) story) state.stories;
  tasks = map (λ task. apply_task (s.task_tokens task.id) task) state.tasks;
  active_agents = map (λ agent. apply_agent (s.agent_tokens agent.id) agent) state.active_agents;
}
