-- ===== src/Scheduler/Blocked.antt =====
-- The tasks that unresolved clarifications block: the second part of `GetReadyTasks` in
-- pkg/services/scheduler.go. The loop `for changed` takes fuel, one more than the number of tasks.
use noctifab.Prelude.{
  ℕ, zero, suc, Bool, true, false, List, [], ◌∷◌, Option, none, some, if◌then◌else◌, any, length,
}
use noctifab.Prelude.Text.{Text, is_empty}
use noctifab.Prelude.Maps.{insert}
use noctifab.Domain.Task.{Task}
use noctifab.Domain.State.{Clarification}
use noctifab.Scheduler.Index.{DependencyIndex, resolve, dep_id}
pub mod Closure
pub mod Marks
pub mod Meaning

abbrev pub TextSet : Type 0
TextSet = Text → Bool

abbrev pub mark_resolved : Option Text → TextSet → TextSet
mark_resolved none blocked = blocked
mark_resolved (some id) blocked = insert id true blocked

-- The blocked tasks that clarifications name; `none` if one of them blocks everything.
unfoldable pub blocked_by : DependencyIndex → List Clarification → TextSet → Option TextSet
blocked_by idx [] blocked = some blocked
blocked_by idx (c ∷ cs) blocked =
    let rest = blocked_by idx cs (
      if c.resolved
      then blocked
      else mark_resolved (resolve idx c.task_id) (insert c.task_id true blocked)) in
    if c.resolved then rest else if is_empty c.task_id then none else rest

abbrev pub has_blocked_dep : DependencyIndex → TextSet → Task → Bool
has_blocked_dep idx blocked t = any (λ dep. blocked (dep_id idx dep)) t.depends_on

-- One round over the tasks, with the flag `changed`.
unfoldable pub spread : DependencyIndex → List Task → TextSet × Bool → TextSet × Bool
spread idx [] s = s
spread idx (t ∷ ts) (blocked, changed) = spread idx ts (
    if blocked t.id
    then (blocked, changed)
    else if has_blocked_dep idx blocked t
    then (insert t.id true blocked, true)
    else (blocked, changed))

unfoldable pub propagate : ℕ → DependencyIndex → List Task → TextSet → TextSet
propagate zero idx tasks blocked = blocked
propagate (suc fuel) idx tasks blocked =
    let round = spread idx tasks (blocked, false) in
    elim round.1 [ true ↦ propagate fuel idx tasks round.0 | false ↦ round.0 ]

unfoldable pub blocked_tasks : DependencyIndex → List Task → List Clarification → Option TextSet
blocked_tasks idx tasks cs = elim (blocked_by idx cs (λ k. false)) [
  | none ↦ none
  | some blocked ↦ some (propagate (suc (length tasks)) idx tasks blocked)
]
