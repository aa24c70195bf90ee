-- ===== src/Stalls/Triage/Terminal.antt =====
-- What the commands of pkg/services/unblocker_commands.go leave alone, and that resets come to an end.
use noctifab.Prelude.{
  ℕ, zero, suc, ◌≡◌, refl, true, false, ◌&&◌, List, [], ◌∷◌, Option, none, some, arith, map,
  get_elem?, inl, inr, Bool-cases,
}
use noctifab.Prelude.Text.{Text, elem, text_eq}
use noctifab.Domain.Task.{Task, TaskStatus, is_success}
use noctifab.Domain.State.{State}
use noctifab.Domain.Actions.{append_action}
use noctifab.Stalls.Commands.{
  UnblockerCommand, reset_task_cmd, fail_task_cmd, log_fallback_action_cmd,
  clear_inconsistent_agent_cmd, bypass_to_fallback_cmd, scope_triage_cmd, Executed, Call,
  find_first, update_first, is_terminal, reset_one, fail_one, bypass_one, execute_reset,
  execute_fail, execute_bypass,
}
use noctifab.Stalls.Triage.{
  is_open_task, is_triaged, triage_task, triaged_stories, stories_kept, execute, execute_all,
  saved_or,
}

success-terminal : (st : TaskStatus) → is_terminal st ≡ false → is_success st ≡ false
success-terminal st h = ground (arith, h)

update_first-keeps :
    (id : Text) (f : Task → Task) (u t : Task) (ts : List Task) (i : ℕ)
    → find_first id ts ≡ some u
    → is_success u.status ≡ false
    → is_success t.status ≡ true
    → get_elem? ts i ≡ some t
    → get_elem? (update_first id f ts) i ≡ some t
unfolding find_first update_first
update_first-keeps id f u t [] i found alive done at = cc
update_first-keeps id f u t (x ∷ xs) zero found alive done at =
    elim (Bool-cases (text_eq x.id id)) [
      | inl here ↦
          let e : some x ≡ some u = rw here at found in
          let same : x ≡ t = cc in
          let same' : x ≡ u = cc in
          absurd (ground (arith, rw (← same') at alive, rw (← same) at done))
      | inr there ↦ rw there at
    ]
update_first-keeps id f u t (x ∷ xs) (suc i) found alive done at =
    elim (Bool-cases (text_eq x.id id)) [
      | inl here ↦ rw here at
      | inr there ↦ rw there (update_first-keeps id f u t xs i (rw there at found) alive done at)
    ]

success-closed : (st : TaskStatus) → is_success st ≡ true → is_open_task st ≡ false
success-closed TaskStatus.success h = refl
success-closed TaskStatus.pending h = cc
success-closed TaskStatus.in_progress h = cc
success-closed TaskStatus.failed h = cc
success-closed TaskStatus.conflict_blocked h = cc
success-closed TaskStatus.conflict_failed h = cc
success-closed TaskStatus.interrupted h = cc
success-closed TaskStatus.deferred h = cc
success-closed TaskStatus.skipped h = cc

triage_task-keeps :
    (now : ℕ) (reason : Text) (triaged : List Text) (t : Task) (ts : List Task) (i : ℕ)
    → is_success t.status ≡ true
    → get_elem? ts i ≡ some t
    → get_elem? (map (triage_task now reason triaged) ts) i ≡ some t
unfolding is_triaged
triage_task-keeps now reason triaged t [] i done at = cc
triage_task-keeps now reason triaged t (x ∷ xs) zero done at =
    let same : x ≡ t = cc in
    let closed = success-closed t.status done in
    let out : (elem t.story_id triaged && is_open_task t.status) ≡ false = ground (arith, closed) in
    rw (same, out)
triage_task-keeps now reason triaged t (x ∷ xs) (suc i) done at =
    triage_task-keeps now reason triaged t xs i done at

module _ (call : Call) (state : State) (t : Task) (i : ℕ) (done : is_success t.status ≡ true)
    (at : get_elem? state.tasks i ≡ some t) where
  Keeps : Executed → Type 0
  Keeps e = get_elem? (saved_or state e).tasks i ≡ some t

  reset-Keeps :
      (id reason directive : Text) (o : Option Task)
      → find_first id state.tasks ≡ o
      → Keeps (execute_reset call id reason directive o state)
  unfolding Keeps append_action
  reset-Keeps id reason directive none found = at
  reset-Keeps id reason directive (some u) found = elim (Bool-cases (is_terminal u.status)) [
    | inl over ↦ rw over at
    | inr alive ↦ rw alive (
        update_first-keeps id (reset_one call.now reason directive) u t state.tasks i found
          (success-terminal u.status alive) done at)
  ]

  fail-Keeps :
      (id reason : Text) (o : Option Task)
      → find_first id state.tasks ≡ o
      → Keeps (execute_fail call id reason o state)
  unfolding Keeps append_action
  fail-Keeps id reason none found = at
  fail-Keeps id reason (some u) found = elim (Bool-cases (is_success u.status)) [
    | inl over ↦ rw over at
    | inr alive ↦
        rw alive
          (update_first-keeps id (fail_one call.now reason) u t state.tasks i found alive done at)
  ]

  bypass-Keeps :
      (id reason directive : Text) (o : Option Task)
      → find_first id state.tasks ≡ o
      → Keeps (execute_bypass call id reason directive o state)
  unfolding Keeps append_action
  bypass-Keeps id reason directive none found = at
  bypass-Keeps id reason directive (some u) found = elim (Bool-cases (is_terminal u.status)) [
    | inl over ↦ rw over at
    | inr alive ↦ rw alive (
        update_first-keeps id (bypass_one call.now reason directive) u t state.tasks i found
          (success-terminal u.status alive) done at)
  ]

  execute-Keeps : (cmd : UnblockerCommand) → Keeps (execute call cmd state)
  unfolding Keeps execute append_action
  execute-Keeps (reset_task_cmd id reason directive) =
      reset-Keeps id reason directive (find_first id state.tasks) refl
  execute-Keeps (fail_task_cmd id reason) = fail-Keeps id reason (find_first id state.tasks) refl
  execute-Keeps (log_fallback_action_cmd message tokens_used) = at
  execute-Keeps (clear_inconsistent_agent_cmd agent_id reason) = at
  execute-Keeps (bypass_to_fallback_cmd id reason directive) =
      bypass-Keeps id reason directive (find_first id state.tasks) refl
  execute-Keeps (scope_triage_cmd reason keep_stories) =
      triage_task-keeps call.now reason
        (triaged_stories (stories_kept keep_stories) 0 state.stories) t state.tasks i done at

-- No sequence of commands changes a task that has succeeded, in any of its fields, or its place.
pub execute_all-keeps_success :
    (cmds : List (Call × UnblockerCommand)) (state : State) (t : Task) (i : ℕ)
    → is_success t.status ≡ true
    → get_elem? state.tasks i ≡ some t
    → get_elem? (execute_all cmds state).tasks i ≡ some t
unfolding execute_all Keeps
execute_all-keeps_success [] state t i done at = at
execute_all-keeps_success ((call, cmd) ∷ cmds) state t i done at =
    execute_all-keeps_success cmds (saved_or state (execute call cmd state)) t i done
      (execute-Keeps call state t i done at cmd)
