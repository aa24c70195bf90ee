-- ===== src/Examples/Stalls.antt =====
-- A task in progress that was last updated long ago: it is stalled, and put to the model once.
use noctifab.Prelude.{
  ℕ, ◌-◌, ◌<◌, All, ◌≡◌, refl, true, false, List, [], ◌∷◌, none, some, arith, get_elem?,
}
use noctifab.Prelude.Text.{codes, elem, text_eq}
use noctifab.Prelude.Maps.{empty_map}
use noctifab.Domain.Task.{Task, in_progress, success, blank_task}
use noctifab.Domain.State.{State}
use noctifab.Stalls.Detect.{FallbackAgent, StalledTask, frozen_progress, detect_stalled_tasks}
use noctifab.Stalls.Assess.{
  stall_cooldown_key, reset_task, filter_stalls_for_llm_assessment, fresh_stalls, assess_heuristic,
}
use noctifab.Stalls.Throttle.{
  keys, filter_stalls_for_llm_assessment-throttled, FilterCall, IsSoon, returned,
}
use noctifab.Stalls.Commands.{
  UnblockerCommand, fail_task_cmd, reset_task_cmd, scope_triage_cmd, bypass_to_fallback_cmd, Call,
  find_first, is_terminal,
}
use noctifab.Stalls.Triage.{execute_all}
use noctifab.Stalls.Triage.Terminal.{execute_all-keeps_success}
use noctifab.Stalls.Triage.Resets.{execute_all-resets}
use noctifab.Examples.Selections.{state}

abbrev agent : FallbackAgent
agent = record {
  stall_threshold = 100;
  conflict_threshold = 100;
  inconsistency_grace_period = 0;
  llm_cooldown = 50;
  llm_assessed_at = empty_map;
  max_retries = 2;
}

abbrev slow_task : Task
slow_task = record (blank_task (codes "T") (codes "Slow")) { status = in_progress; updated_at = 10 }

abbrev slow_state : State
slow_state = record state { tasks = slow_task ∷ [] }

abbrev stall : StalledTask
stall = record { task = slow_task; agent = none; reason = frozen_progress; stalled_for = 190 }

stall_is_detected : detect_stalled_tasks agent 200 slow_state ≡ stall ∷ []
unfolding detect_stalled_tasks
stall_is_detected = refl

stall_is_reset : assess_heuristic agent (stall ∷ []) ≡ reset_task (codes "T") ∷ []
unfolding assess_heuristic
stall_is_reset = refl

stall_is_fresh :
    elem
      (stall_cooldown_key slow_task)
      (keys (filter_stalls_for_llm_assessment 200 slow_state (stall ∷ []) agent).stalls)
    ≡ true
unfolding filter_stalls_for_llm_assessment fresh_stalls
stall_is_fresh = refl

-- A call at the time given, with the same stall.
abbrev filter_at : ℕ → FilterCall
filter_at now = record { now = now; state = slow_state; stalls = stall ∷ [] }

abbrev soon_at :
    (now : ℕ) → now - 200 < 50 → IsSoon 50 200 (stall_cooldown_key slow_task) (filter_at now)
unfolding elem text_eq
soon_at now h = record { within = h; current = refl }

filter_stalls_for_llm_assessment-throttled_example :
    All
      (λ stalls. elem (stall_cooldown_key slow_task) (keys stalls) ≡ false)
      (returned
        (filter_at 220 ∷ filter_at 249 ∷ [])
        (filter_stalls_for_llm_assessment 200 slow_state (stall ∷ []) agent).agent)
unfolding elem text_eq
filter_stalls_for_llm_assessment-throttled_example =
    filter_stalls_for_llm_assessment-throttled (filter_at 200) (filter_at 220 ∷ filter_at 249 ∷ [])
      agent (stall_cooldown_key slow_task) stall_is_fresh
      (soon_at 220 (omega arith), (soon_at 249 (omega arith), tt))

abbrev call : Call
call = record { now = 300; fresh_id = codes "x" }

abbrev done_task : Task
done_task = record (blank_task (codes "D") (codes "Done")) { status = success }

abbrev two_tasks : State
two_tasks = record state { tasks = done_task ∷ slow_task ∷ [] }

abbrev commands : List (Call × UnblockerCommand)
commands =
    (call, fail_task_cmd (codes "D") (codes "frozen"))
    ∷ (call, reset_task_cmd (codes "T") (codes "frozen") [])
    ∷ (call, scope_triage_cmd (codes "budget") 1)
    ∷ []

execute_all-keeps_success_example :
    get_elem? (execute_all commands two_tasks).tasks 0 ≡ some done_task
execute_all-keeps_success_example =
    execute_all-keeps_success commands two_tasks done_task 0 refl refl

abbrev reset : Call × UnblockerCommand
reset = (call, reset_task_cmd (codes "T") (codes "frozen") [])

-- Five resets of the task, with a bypass of another one between.
abbrev five_resets : List (Call × UnblockerCommand)
five_resets =
    reset
    ∷ reset
    ∷ (call, bypass_to_fallback_cmd (codes "D") (codes "frozen") [])
    ∷ reset
    ∷ reset
    ∷ reset
    ∷ []

slow_task_is_found : find_first (codes "T") two_tasks.tasks ≡ some slow_task
unfolding find_first
slow_task_is_found = refl

execute_all-resets_example :
    (t' : Task) × (find_first (codes "T") (execute_all five_resets two_tasks).tasks ≡ some t')
    × (is_terminal t'.status ≡ true)
unfolding text_eq
execute_all-resets_example =
    execute_all-resets (codes "T") slow_task five_resets two_tasks slow_task_is_found refl
      (omega arith)
