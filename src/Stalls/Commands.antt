-- ===== src/Stalls/Commands.antt =====
-- The commands of pkg/services/unblocker_commands.go on a state that was loaded. The time and the fresh
-- identifier of a call are arguments; what fails while loading or saving is not modelled.
use noctifab.Prelude.{
  ℕ, suc, Bool, true, false, ◌&&◌, ◌||◌, List, [], ◌∷◌, ◌++◌, Option, none, some, leb, ◌==◌,
  if◌then◌else◌, map,
}
use noctifab.Prelude.Text.{Text, codes, text_eq, is_empty}
use noctifab.Domain.Task.{Task, TaskStatus, is_success, is_failed, pending, failed}
use noctifab.Domain.State.{State, Agent, Action, completed, is_working, failing}
use noctifab.Domain.Actions.{append_action}
use noctifab.Planning.Numbers.{digits}
use noctifab.Story.Ids.{int_pos}
use noctifab.Tokens.{add64}

pub data UnblockerCommand : Type 0 where
  reset_task_cmd : (task_id reason directive : Text) → UnblockerCommand
  fail_task_cmd : (task_id reason : Text) → UnblockerCommand
  log_fallback_action_cmd : (message : Text) → (tokens_used : ℕ) → UnblockerCommand
  clear_inconsistent_agent_cmd : (agent_id reason : Text) → UnblockerCommand
  bypass_to_fallback_cmd : (task_id reason directive : Text) → UnblockerCommand
  scope_triage_cmd : (reason : Text) → (keep_stories : ℕ) → UnblockerCommand

-- The task is not in the state, or nothing is to be saved, or a state is saved.
pub data Executed : Type 0 where
  task_not_found : Text → Executed
  skipped : Executed
  saves : State → Executed

-- What a command reads from outside.
pub record Call : Type 0 where
  pub now : ℕ
  pub fresh_id : Text

unfoldable pub find_first : Text → List Task → Option Task
unfolding text_eq
find_first id [] = none
find_first id (t ∷ ts) = let rest = find_first id ts in if text_eq t.id id then some t else rest

unfoldable pub update_first : Text → (Task → Task) → List Task → List Task
unfolding text_eq
update_first id f [] = []
update_first id f (t ∷ ts) =
    let rest = update_first id f ts in if text_eq t.id id then f t ∷ ts else t ∷ rest

abbrev pub is_terminal : TaskStatus → Bool
is_terminal st = is_success st || is_failed st

abbrev or_text : Text → Text → Text
or_text s other = if is_empty s then other else s

abbrev pub number : ℕ → Text
number n = digits 20 n

abbrev close_agent : ℕ → Text → (Agent → Bool) → Agent → Agent
close_agent now error p ag =
    if p ag && is_working ag.status
    then record ag { status = completed; completed_at = now; last_error = error }
    else ag

abbrev of_task : Text → Agent → Bool
of_task id ag = text_eq ag.task_id id

abbrev pub entry : ℕ → Text → Bool → Text → Action
entry now tool success result = record {
  id = [];
  timestamp = now;
  tool = tool;
  args = [];
  reasoning = [];
  result = result;
  success = success;
}

abbrev pub reset_limit : Task → ℕ
reset_limit t = if t.max_retries == 0 then 10 else t.max_retries

-- The task has been reset too often, this time counted.
abbrev pub gives_up : Task → Bool
gives_up t = leb (reset_limit t) (suc t.retries) || leb 5 (suc t.stall_count)

abbrev pub counted : Text → Task → Task
counted directive t = record t {
  stall_count = suc t.stall_count;
  retries = suc t.retries;
  recovery_directive = or_text directive t.recovery_directive;
}

abbrev reset_log : Text → Task → Text
reset_log reason t =
    codes "[Unblocker] task reset limit reached ("
    ++ number (suc t.retries)
    ++ codes "/"
    ++ number (reset_limit t)
    ++ codes ", stalls: "
    ++ number (suc t.stall_count)
    ++ codes "): "
    ++ reason

abbrev pub reset_one : ℕ → Text → Text → Task → Task
reset_one now reason directive t =
    if gives_up t
    then record (counted directive t) {
      status = failed;
      failure_log = reset_log reason t;
      updated_at = now;
    }
    else record (counted directive t) { status = pending; progress = 0; updated_at = now }

abbrev pub after_reset : Call → Text → Text → Text → Task → State → State
after_reset call id reason directive t state =
    append_action call.fresh_id
      (record state {
        tasks = update_first id (reset_one call.now reason directive) state.tasks;
        build_status = if gives_up t then failing else state.build_status;
        active_agents =
            map (close_agent call.now (codes "reset by unblocker: " ++ reason) (of_task id))
              state.active_agents;
      })
      (entry call.now (codes "unblocker_reset") true
        (codes "task " ++ id ++ codes " reset to PENDING by unblocker: " ++ reason))

abbrev pub execute_reset : Call → Text → Text → Text → Option Task → State → Executed
execute_reset call id reason directive none state = task_not_found id
execute_reset call id reason directive (some t) state =
    if is_terminal t.status then skipped else saves (after_reset call id reason directive t state)

abbrev pub fail_one : ℕ → Text → Task → Task
fail_one now reason t = record t {
  status = failed;
  failure_log = codes "[Unblocker] " ++ reason;
  progress = 0;
  updated_at = now;
}

abbrev pub execute_fail : Call → Text → Text → Option Task → State → Executed
execute_fail call id reason none state = task_not_found id
execute_fail call id reason (some t) state =
    if is_success t.status
    then skipped
    else saves (
        append_action call.fresh_id
          (record state {
            tasks = update_first id (fail_one call.now reason) state.tasks;
            build_status = failing;
            active_agents =
                map (close_agent call.now (codes "failed by unblocker: " ++ reason) (of_task id))
                  state.active_agents;
          })
          (entry call.now (codes "unblocker_fail") false
            (codes "task " ++ id ++ codes " permanently failed by unblocker: " ++ reason)))

abbrev pub bypass_one : ℕ → Text → Text → Task → Task
bypass_one now reason directive t = record t {
  stall_count = 2;
  last_resort_used = true;
  fallback_used = true;
  status = pending;
  progress = 0;
  recovery_directive =
      or_text directive (codes "SOVEREIGN REPAIR DIRECTIVE: bypass to FallbackAgent: " ++ reason);
  updated_at = now;
}

abbrev pub execute_bypass : Call → Text → Text → Text → Option Task → State → Executed
execute_bypass call id reason directive none state = task_not_found id
execute_bypass call id reason directive (some t) state =
    if is_terminal t.status
    then skipped
    else saves (
        append_action call.fresh_id
          (record state {
            tasks = update_first id (bypass_one call.now reason directive) state.tasks;
            active_agents =
                map (close_agent call.now (codes "bypassed to fallback: " ++ reason) (of_task id))
                  state.active_agents;
          })
          (entry call.now (codes "fallback_bypass") true
            (codes "task " ++ id ++ codes " bypassed to FallbackAgent: " ++ reason)))

abbrev pub execute_log : Call → Text → ℕ → State → Executed
execute_log call message tokens_used state = saves (
    append_action call.fresh_id
      (record state {
        metadata = record state.metadata {
          total_tokens_used =
              if int_pos tokens_used
              then add64 state.metadata.total_tokens_used tokens_used
              else state.metadata.total_tokens_used;
        };
      })
      (entry call.now (codes "fallback_log") true message))

abbrev pub execute_clear : Call → Text → Text → State → Executed
execute_clear call agent_id reason state = saves (
    append_action call.fresh_id
      (record state {
        active_agents =
            map
              (close_agent call.now (codes "cleared by unblocker: " ++ reason)
                (λ ag. text_eq ag.id agent_id))
              state.active_agents;
      })
      (entry call.now (codes "unblocker_clear_agent") true
        (codes "agent " ++ agent_id ++ codes " cleared by unblocker: " ++ reason)))
