-- ===== src/Stalls/Triage/Resets.antt =====
-- A task that is reset again and again is given up (pkg/services/unblocker_commands.go).
use noctifab.Prelude.{
  ℕ, suc, ◌+◌, ◌≤◌, ◌≡◌, ◌∙◌, Option, none, Bool, true, false, not, ◌&&◌, ◌||◌, List, [], ◌∷◌, some,
  arith, inl, inr, Bool-cases, leb, ltb, ◌==◌, refl,
}
use noctifab.Prelude.Text.{Text, text_eq, text_eq_iff}
use noctifab.Domain.Task.{Task, is_success}
use noctifab.Domain.State.{State}
use noctifab.Domain.Actions.{append_action}
use noctifab.Stalls.Commands.{
  UnblockerCommand, reset_task_cmd, fail_task_cmd, log_fallback_action_cmd,
  clear_inconsistent_agent_cmd, bypass_to_fallback_cmd, scope_triage_cmd, Call, find_first,
  update_first, is_terminal, reset_one, fail_one, bypass_one, execute_reset, execute_fail,
  execute_bypass,
}
use noctifab.Stalls.Triage.{saved_or, execute, execute_all}

-- The command is no bypass of the task, and no triage.
abbrev pub spares : Text → UnblockerCommand → Bool
spares id (reset_task_cmd other reason directive) = true
spares id (fail_task_cmd other reason) = true
spares id (log_fallback_action_cmd message tokens_used) = true
spares id (clear_inconsistent_agent_cmd agent_id reason) = true
spares id (bypass_to_fallback_cmd other reason directive) = not (text_eq other id)
spares id (scope_triage_cmd reason keep_stories) = false

abbrev pub is_reset : Text → UnblockerCommand → Bool
is_reset id (reset_task_cmd other reason directive) = text_eq other id
is_reset id (fail_task_cmd other reason) = false
is_reset id (log_fallback_action_cmd message tokens_used) = false
is_reset id (clear_inconsistent_agent_cmd agent_id reason) = false
is_reset id (bypass_to_fallback_cmd other reason directive) = false
is_reset id (scope_triage_cmd reason keep_stories) = false

abbrev pub all_spare : Text → List (Call × UnblockerCommand) → Bool
all_spare id [] = true
all_spare id ((call, cmd) ∷ cmds) = spares id cmd && all_spare id cmds

abbrev count_if : Bool → ℕ → ℕ
count_if true n = suc n
count_if false n = n

-- How many of the commands reset the task.
abbrev pub count_resets : Text → List (Call × UnblockerCommand) → ℕ
count_resets id [] = 0
count_resets id ((call, cmd) ∷ cmds) = count_if (is_reset id cmd) (count_resets id cmds)

-- The task is over, or has been reset `n` times and not given up by the last of them.
abbrev is_worn : ℕ → Task → Bool
is_worn n t = is_terminal t.status || leb n t.stall_count && (n == 0 || ltb t.stall_count 5)

find_first-update_first :
    (id : Text) (f : Task → Task) (t : Task) (ts : List Task)
    → (f t).id ≡ t.id
    → find_first id ts ≡ some t
    → find_first id (update_first id f ts) ≡ some (f t)
unfolding find_first update_first
find_first-update_first id f t [] same found = cc
find_first-update_first id f t (x ∷ xs) same found = elim (Bool-cases (text_eq x.id id)) [
  | inl here ↦
      let e : some x ≡ some t = rw here at found in
      let equal : x ≡ t = cc in
      let own : text_eq t.id id ≡ true = rw (← equal) here in rw (here, equal, same, own)
  | inr there ↦ rw (there, there) (find_first-update_first id f t xs same (rw there at found))
]

find_first-update_other :
    (id other : Text) (f : Task → Task) (ts : List Task)
    → text_eq other id ≡ false
    → ((t : Task) → (f t).id ≡ t.id)
    → find_first id (update_first other f ts) ≡ find_first id ts
unfolding find_first update_first
find_first-update_other id other f [] ne same = refl
find_first-update_other id other f (x ∷ xs) ne same = elim (Bool-cases (text_eq x.id other)) [
  | inl here ↦
      let e : x.id ≡ other = (text_eq_iff x.id other).0 here in
      let mine : text_eq x.id id ≡ false = rw e ne in rw (here, same x, mine) refl
  | inr there ↦ rw there (ground (arith, find_first-update_other id other f xs ne same))
]

reset_one-id :
    (now : ℕ) (reason directive : Text) (t : Task) → (reset_one now reason directive t).id ≡ t.id
reset_one-id now reason directive t = ground arith

-- A state in which the task is found, reset `n` times or over.
abbrev IsWorn : Text → ℕ → State → Type 0
IsWorn id n state = (t : Task) × (find_first id state.tasks ≡ some t) × (is_worn n t ≡ true)

module _ (call : Call) (state : State) (id : Text) (n : ℕ) (t : Task)
    (found : find_first id state.tasks ≡ some t) (worn : is_worn n t ≡ true) where
  -- A reset of the task counts.
  own_reset-IsWorn :
      (reason directive : Text)
      → IsWorn id (suc n) (saved_or state (execute_reset call id reason directive (some t) state))
  unfolding append_action
  own_reset-IsWorn reason directive =
      let f = reset_one call.now reason directive in
      elim (Bool-cases (is_terminal t.status)) [
        | inl over ↦ rw over (t, found, rw over refl)
        | inr alive ↦ rw alive (
          f t,
          find_first-update_first id f t state.tasks (reset_one-id call.now reason directive t)
              found,
          ground (arith, alive, worn),
        )
      ]

  reset-IsWorn :
      (other reason directive : Text) (o : Option Task)
      → text_eq other id ≡ false
      → IsWorn id n (saved_or state (execute_reset call other reason directive o state))
  unfolding append_action
  reset-IsWorn other reason directive none ne = (t, found, worn)
  reset-IsWorn other reason directive (some u) ne = elim (Bool-cases (is_terminal u.status)) [
    | inl over ↦ rw over (t, found, worn)
    | inr alive ↦ rw alive (
      t,
      find_first-update_other id other (reset_one call.now reason directive) state.tasks ne
            (reset_one-id call.now reason directive)
          ∙ found,
      worn,
    )
  ]

  -- A task that is failed is over.
  own_fail-IsWorn :
      (reason : Text) → IsWorn id n (saved_or state (execute_fail call id reason (some t) state))
  unfolding append_action
  own_fail-IsWorn reason = elim (Bool-cases (is_success t.status)) [
    | inl over ↦ rw over (t, found, worn)
    | inr alive ↦ rw alive (
      fail_one call.now reason t,
      find_first-update_first id (fail_one call.now reason) t state.tasks refl found,
      refl,
    )
  ]

  fail-IsWorn :
      (other reason : Text) (o : Option Task)
      → text_eq other id ≡ false
      → IsWorn id n (saved_or state (execute_fail call other reason o state))
  unfolding append_action
  fail-IsWorn other reason none ne = (t, found, worn)
  fail-IsWorn other reason (some u) ne = elim (Bool-cases (is_success u.status)) [
    | inl over ↦ rw over (t, found, worn)
    | inr alive ↦ rw alive (
      t,
      find_first-update_other id other (fail_one call.now reason) state.tasks ne (λ v. refl)
          ∙ found,
      worn,
    )
  ]

  bypass-IsWorn :
      (other reason directive : Text) (o : Option Task)
      → text_eq other id ≡ false
      → IsWorn id n (saved_or state (execute_bypass call other reason directive o state))
  unfolding append_action
  bypass-IsWorn other reason directive none ne = (t, found, worn)
  bypass-IsWorn other reason directive (some u) ne = elim (Bool-cases (is_terminal u.status)) [
    | inl over ↦ rw over (t, found, worn)
    | inr alive ↦ rw alive (
      t,
      find_first-update_other id other (bypass_one call.now reason directive) state.tasks ne
            (λ v. refl)
          ∙ found,
      worn,
    )
  ]

  execute-IsWorn :
      (cmd : UnblockerCommand)
      → spares id cmd ≡ true
      → IsWorn id (count_if (is_reset id cmd) n) (saved_or state (execute call cmd state))
  unfolding execute append_action
  execute-IsWorn (reset_task_cmd other reason directive) spared =
      elim (Bool-cases (text_eq other id)) [
        | inl same ↦
            let here : other ≡ id = (text_eq_iff other id).0 same in
            rw (same, here, found) (own_reset-IsWorn reason directive)
        | inr ne ↦ rw ne (reset-IsWorn other reason directive (find_first other state.tasks) ne)
      ]
  execute-IsWorn (fail_task_cmd other reason) spared = elim (Bool-cases (text_eq other id)) [
    | inl same ↦
        let here : other ≡ id = (text_eq_iff other id).0 same in
        rw (here, found) (own_fail-IsWorn reason)
    | inr ne ↦ fail-IsWorn other reason (find_first other state.tasks) ne
  ]
  execute-IsWorn (log_fallback_action_cmd message tokens_used) spared = (t, found, worn)
  execute-IsWorn (clear_inconsistent_agent_cmd agent_id reason) spared = (t, found, worn)
  execute-IsWorn (bypass_to_fallback_cmd other reason directive) spared =
      bypass-IsWorn other reason directive (find_first other state.tasks) (ground arith)
  execute-IsWorn (scope_triage_cmd reason keep_stories) spared = cc

execute_all-IsWorn :
    (id : Text) (cmds : List (Call × UnblockerCommand)) (state : State) (n : ℕ)
    → all_spare id cmds ≡ true
    → IsWorn id n state
    → (m : ℕ) × (m ≡ n + count_resets id cmds) × IsWorn id m (execute_all cmds state)
unfolding execute_all
execute_all-IsWorn id [] state n spared h = (n, omega arith, h)
execute_all-IsWorn id ((call, cmd) ∷ cmds) state n spared (t, found, worn) =
    let next = execute-IsWorn call state id n t found worn cmd (ground arith) in
    let (m, e, h) =
      execute_all-IsWorn id cmds (saved_or state (execute call cmd state))
        (count_if (is_reset id cmd) n) (ground arith) next in
    (m, ground (arith, e), h)

-- If a sequence of commands has five resets of a task of the state or more, among any others but bypasses of the
-- task and triages, then the task has succeeded or failed at its end.
pub execute_all-resets :
    (id : Text) (t : Task) (cmds : List (Call × UnblockerCommand)) (state : State)
    → find_first id state.tasks ≡ some t
    → all_spare id cmds ≡ true
    → 5 ≤ count_resets id cmds
    → (t' : Task) × (find_first id (execute_all cmds state).tasks ≡ some t')
      × (is_terminal t'.status ≡ true)
execute_all-resets id t cmds state found spared five =
    let (m, e, (t', found', worn)) =
      execute_all-IsWorn id cmds state 0 spared (t, found, ground arith) in
    (t', found', ground (arith, e, five, worn))
