-- ===== src/Stalls/Triage.antt =====
-- `ScopeTriageCmd` of pkg/services/unblocker_commands.go, and the commands as one function. A number of stories to
-- keep that is not positive is 0.
use noctifab.Prelude.{
  ℕ, suc, ◌+◌, Bool, true, false, not, ◌&&◌, List, [], ◌∷◌, ◌++◌, leb, ◌==◌, if◌then◌else◌, length,
  map,
}
use noctifab.Prelude.Text.{Text, codes, elem}
use noctifab.Domain.Task.{Task, TaskStatus, deferred}
use noctifab.Domain.State.{State, Story, StoryStatus}
use noctifab.Domain.Actions.{append_action}
use noctifab.Stalls.Commands.{
  UnblockerCommand, reset_task_cmd, fail_task_cmd, log_fallback_action_cmd,
  clear_inconsistent_agent_cmd, bypass_to_fallback_cmd, scope_triage_cmd, Executed, saves, Call,
  find_first, number, entry, execute_reset, execute_fail, execute_bypass, execute_log,
  execute_clear,
}
pub mod Terminal
pub mod Resets

abbrev is_open_story : StoryStatus → Bool
is_open_story StoryStatus.success = false
is_open_story StoryStatus.deferred = false
is_open_story _ = true

abbrev pub is_open_task : TaskStatus → Bool
is_open_task TaskStatus.success = false
is_open_task TaskStatus.deferred = false
is_open_task _ = true

-- The stories from place `i` on that are put off.
unfoldable pub triaged_stories : ℕ → ℕ → List Story → List Text
triaged_stories keep i [] = []
triaged_stories keep i (s ∷ stories) =
    let rest = triaged_stories keep (suc i) stories in
    if leb keep i && is_open_story s.status then s.id ∷ rest else rest

unfoldable pub triage_stories : ℕ → ℕ → ℕ → List Story → List Story
triage_stories now keep i [] = []
triage_stories now keep i (s ∷ stories) =
    let rest = triage_stories now keep (suc i) stories in
    if leb keep i && is_open_story s.status
    then record s { status = StoryStatus.deferred; updated_at = now } ∷ rest
    else s ∷ rest

unfoldable pub is_triaged : List Text → Task → Bool
unfolding elem
is_triaged triaged t = elem t.story_id triaged && is_open_task t.status

abbrev pub triage_task : ℕ → Text → List Text → Task → Task
triage_task now reason triaged t =
    if is_triaged triaged t
    then record t {
      status = deferred;
      failure_log = codes "[ScopeTriage] deferred to prioritize core deliverable: " ++ reason;
      updated_at = now;
    }
    else t

unfoldable pub count_triaged : List Text → List Task → ℕ
unfolding is_triaged
count_triaged triaged [] = 0
count_triaged triaged (t ∷ ts) =
    let rest = count_triaged triaged ts in if is_triaged triaged t then suc rest else rest

-- `%v` of a list of texts, behind its opening bracket.
unfoldable pub show_texts : List Text → Text
show_texts [] = codes "]"
show_texts (s ∷ []) = s ++ codes "]"
show_texts (s ∷ t ∷ ts) = s ++ codes " " ++ show_texts (t ∷ ts)

abbrev pub stories_kept : ℕ → ℕ
stories_kept keep_stories = if keep_stories == 0 then 2 else keep_stories

abbrev pub execute_triage : Call → Text → ℕ → State → Executed
execute_triage call reason keep_stories state =
    let keep = stories_kept keep_stories in
    let triaged = triaged_stories keep 0 state.stories in
    saves (
      append_action call.fresh_id
        (record state {
          stories = triage_stories call.now keep 0 state.stories;
          tasks = map (triage_task call.now reason triaged) state.tasks;
        })
        (entry call.now (codes "scope_triage") true (
          codes "scope triage executed: kept first "
          ++ number keep
          ++ codes " stories, deferred "
          ++ number (length triaged)
          ++ codes " downstream stories (["
          ++ show_texts triaged
          ++ codes ") and "
          ++ number (count_triaged triaged state.tasks)
          ++ codes " tasks: "
          ++ reason)))

-- `Execute` of a command.
unfoldable pub execute : Call → UnblockerCommand → State → Executed
unfolding find_first
execute call (reset_task_cmd id reason directive) state =
    execute_reset call id reason directive (find_first id state.tasks) state
execute call (fail_task_cmd id reason) state =
    execute_fail call id reason (find_first id state.tasks) state
execute call (log_fallback_action_cmd message tokens_used) state =
    execute_log call message tokens_used state
execute call (clear_inconsistent_agent_cmd agent_id reason) state =
    execute_clear call agent_id reason state
execute call (bypass_to_fallback_cmd id reason directive) state =
    execute_bypass call id reason directive (find_first id state.tasks) state
execute call (scope_triage_cmd reason keep_stories) state =
    execute_triage call reason keep_stories state

abbrev pub saved_or : State → Executed → State
saved_or state (saves state') = state'
saved_or state _ = state

-- One command behind another, the first of the list first.
unfoldable pub execute_all : List (Call × UnblockerCommand) → State → State
unfolding execute
execute_all [] state = state
execute_all ((call, cmd) ∷ cmds) state = execute_all cmds (saved_or state (execute call cmd state))
