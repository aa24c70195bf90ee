-- ===== src/Scheduler/Ready/Selected.antt =====
-- What `GetReadyTasks` (pkg/services/scheduler.go) selects.
use mathlib.Core.List.{Memᴰ}
use noctifab.Prelude.{
  ℕ, ◌≤◌, ◌<◌, ◌+◌, ◌-◌, ◌≡◌, ◌≢◌, ◌⊎◌, inl, inr, Bool, true, false, List, [], ◌∷◌, ◌++◌, none,
  some, arith, All, Mem-All, All-Mem, ltb, ltb→lt, ◌==◌, length, Bool-cases, if◌then◌else◌,
  Option-cases, subst, ap,
}
use noctifab.Prelude.Text.{Text, elem}
use noctifab.Domain.Task.{Task}
use noctifab.Domain.State.{State}
use noctifab.Locks.{FileLockRegistry, try_acquire_locks}
use noctifab.Locks.Exclusion.{try_acquire_locks_lem}
use noctifab.Scheduler.Index.{new_dependency_index}
use noctifab.Scheduler.Blocked.{TextSet, blocked_tasks}
use noctifab.Scheduler.Ready.{active_count, is_eligible, Selection, select, get_ready_tasks}
use noctifab.Scheduler.Ready.Loop.{joined, select_ind, length-select, select-nonempty}

abbrev pub slots_of : State → ℕ → ℕ
slots_of state limit = limit - active_count state.active_agents

abbrev pub none_ready : FileLockRegistry → Selection
none_ready registry = record { ready = []; registry = registry }

-- Nothing is selected, or the loop has run with at least one slot.
pub get_ready_tasks-cases :
    (state : State) (limit : ℕ) (registry : FileLockRegistry)
    → (get_ready_tasks state limit registry ≡ none_ready registry)
      ⊎ ((blocked : TextSet) × (blocked_tasks
              (new_dependency_index state.tasks)
              state.tasks
              state.clarifications
            ≡ some blocked)
          × (0 < slots_of state limit)
          × (get_ready_tasks state limit registry
              ≡ select
                  (is_eligible state.tasks (new_dependency_index state.tasks) blocked)
                  (slots_of state limit)
                  state.tasks
                  (none_ready registry)))
unfolding get_ready_tasks
get_ready_tasks-cases state limit registry =
    elim (Option-cases
      (blocked_tasks (new_dependency_index state.tasks) state.tasks state.clarifications)) [
        | inl global ↦ inl (rw (global, get_ready_tasks))
        | inr (blocked, local) ↦ elim (Bool-cases (slots_of state limit == 0)) [
          | inl busy ↦ inl (rw (local, busy, get_ready_tasks))
          | inr room ↦ inr (blocked, local, ground arith, rw (local, room, get_ready_tasks))
        ]
      ]

-- The working agents and the selected tasks together stay within the concurrency limit, or the
-- working agents alone exceed it and no task is selected.
pub length-get_ready_tasks :
    (state : State) (limit : ℕ) (registry : FileLockRegistry)
    → (active_count state.active_agents + length (get_ready_tasks state limit registry).ready
        ≤ limit)
      ⊎ ((limit < active_count state.active_agents)
          × (length (get_ready_tasks state limit registry).ready ≡ 0))
length-get_ready_tasks state limit registry =
    elim (Bool-cases (ltb limit (active_count state.active_agents))) [
      | inl over ↦ inr (ltb→lt _ _ over, ground (arith, bound))
      | inr within ↦ inl (ground (arith, bound))
    ]
  where
    bound : length (get_ready_tasks state limit registry).ready ≤ slots_of state limit
    bound = elim (get_ready_tasks-cases state limit registry) [
      | inl same ↦ rw same (omega arith)
      | inr (blocked, _, room, same) ↦ rw same (
          length-select (is_eligible state.tasks (new_dependency_index state.tasks) blocked)
            (slots_of state limit) state.tasks (none_ready registry) room)
    ]

-- The selected tasks hold their files, and the locks of others from before are untouched.
record Holds (before : FileLockRegistry) (s : Selection) : Type 0 where
  held :
      All (λ t. (f : Text) → elem f t.target_files ≡ true → s.registry.locks f ≡ some t.id) s.ready
  kept : (f h : Text) → before.locks f ≡ some h → s.registry.locks f ≡ some h

pub All-snoc :
    (P : Task → Type 0) (ts : List Task) (t : Task) → All P ts → P t → All P (ts ++ t ∷ [])
All-snoc P [] t h p = (p, tt)
All-snoc P (u ∷ us) t h p = (h.0, All-snoc P us t h.1 p)

All-imp : (P Q : Task → Type 0) (ts : List Task) → ((t : Task) → P t → Q t) → All P ts → All Q ts
All-imp P Q [] f h = tt
All-imp P Q (t ∷ ts) f h = (f t h.0, All-imp P Q ts f h.1)

joined-Holds :
    (before : FileLockRegistry) (eligible : Task → Bool) (t : Task) (s : Selection)
    (r : FileLockRegistry)
    → try_acquire_locks t.id t.target_files s.registry ≡ (true, r)
    → Holds before s
    → Holds before (joined eligible t s r)
joined-Holds before eligible t s r granted h = record {
  held =
      All-snoc _ s.ready t (All-imp _ _ s.ready (λ u own f m. still f u.id (own f m)) h.held)
        (λ f m. ground (arith, locked f));
  kept = λ f g e. still f g (h.kept f g e);
}
  where
    locked :
        (f : Text)
        → (r.locks f ≡ (if elem f t.target_files then some t.id else s.registry.locks f))
          × (elem f t.target_files ≡ true
              → (s.registry.locks f ≡ none) ⊎ (s.registry.locks f ≡ some t.id))
    locked f =
        let facts = try_acquire_locks_lem t.id t.target_files s.registry f in
        let own = facts.0 (ap (λ (p : Bool × FileLockRegistry). p.0) granted) in
        subst
          (λ (q : FileLockRegistry).
            (q.locks f ≡ (if elem f t.target_files then some t.id else s.registry.locks f))
            × (elem f t.target_files ≡ true
                → (s.registry.locks f ≡ none) ⊎ (s.registry.locks f ≡ some t.id)))
          (ap (λ (p : Bool × FileLockRegistry). p.1) granted) own

    still : (f g : Text) → s.registry.locks f ≡ some g → r.locks f ≡ some g
    still f g e = ground (arith, locked f)

get_ready_tasks-Holds :
    (state : State) (limit : ℕ) (registry : FileLockRegistry)
    → Holds registry (get_ready_tasks state limit registry)
get_ready_tasks-Holds state limit registry = elim (get_ready_tasks-cases state limit registry) [
  | inl same ↦ rw same (record { held = tt; kept = λ f h e. e })
  | inr (blocked, _, _, same) ↦
      let eligible = is_eligible state.tasks (new_dependency_index state.tasks) blocked in
      rw same (
        select_ind eligible state.tasks (Holds registry)
          (λ t s r m fits granted h. joined-Holds registry eligible t s r granted h)
          (slots_of state limit) state.tasks (none_ready registry) (Mem-All state.tasks)
          (record { held = tt; kept = λ f h e. e }))
]

-- Two selected tasks that target one file have one ID, each target file of a selected task is locked
-- for that task, and the file was free before or locked by that task already.
pub get_ready_tasks-exclusive :
    (state : State) (limit : ℕ) (registry : FileLockRegistry) (t u : Task) (f : Text)
    → Memᴰ t (get_ready_tasks state limit registry).ready
    → Memᴰ u (get_ready_tasks state limit registry).ready
    → elem f t.target_files ≡ true
    → elem f u.target_files ≡ true
    → (t.id ≡ u.id)
      × ((get_ready_tasks state limit registry).registry.locks f ≡ some t.id)
      × ((registry.locks f ≡ none) ⊎ (registry.locks f ≡ some t.id))
get_ready_tasks-exclusive state limit registry t u f mt mu ft fu =
    let s = get_ready_tasks state limit registry in
    let h = get_ready_tasks-Holds state limit registry in
    let own = All-Mem _ s.ready h.held mt f ft in
    let other = All-Mem _ s.ready h.held mu f fu in
    (
      cc,
      own,
      elim (Option-cases (registry.locks f)) [
        | inl free ↦ inl free
        | inr (g, e) ↦ let kept = h.kept f g e in let same : g ≡ t.id = cc in inr (rw (← same) e)
      ],
    )

-- If no clarification blocks everything and there is a slot, a task that passes the checks and whose
-- files no other task has locked makes the selection nonempty.
pub get_ready_tasks-nonempty :
    (state : State) (limit : ℕ) (registry : FileLockRegistry) (blocked : TextSet) (t : Task)
    → blocked_tasks (new_dependency_index state.tasks) state.tasks state.clarifications
      ≡ some blocked
    → active_count state.active_agents < limit
    → Memᴰ t state.tasks
    → is_eligible state.tasks (new_dependency_index state.tasks) blocked t ≡ true
    → (try_acquire_locks t.id t.target_files registry).0 ≡ true
    → (get_ready_tasks state limit registry).ready ≢ []
unfolding get_ready_tasks
get_ready_tasks-nonempty state limit registry blocked t local room m fits free =
    let open_slot : (slots_of state limit == 0) ≡ false = ground arith in
    rw (local, open_slot, get_ready_tasks)
      (select-nonempty (is_eligible state.tasks (new_dependency_index state.tasks) blocked)
        (slots_of state limit) state.tasks (none_ready registry) t m fits free)
