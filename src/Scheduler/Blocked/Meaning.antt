-- ===== src/Scheduler/Blocked/Meaning.antt =====
-- What the blocked tasks of pkg/services/scheduler.go are, without the loop that finds them.
use mathlib.Core.List.{Memᴰ}
use noctifab.Prelude.{
  suc, ◌≡◌, refl, ◌⊎◌, ◌↔◌, inl, inr, true, false, not, ◌&&◌, List, [], ◌∷◌, map, none, some, arith,
  All, All-Mem, Mem-All, ap, subst, any, any_of_Mem, Option-cases, length,
}
use noctifab.Prelude.Text.{Text, is_empty}
use noctifab.Domain.Task.{Task}
use noctifab.Domain.State.{Clarification}
use noctifab.Scheduler.Index.{DependencyIndex, resolve, dep_id}
use noctifab.Scheduler.Blocked.{TextSet, blocked_by, propagate, blocked_tasks}
use noctifab.Scheduler.Blocked.Marks.{
  mark, Names, blocked_by_lem, blocked_by-marks, propagate-Sound,
}
use noctifab.Scheduler.Blocked.Closure.{
  IsClosed, open_tasks-le-length, propagate-IsClosed, propagate-Extends,
}

-- An unresolved clarification names the task or a text that resolves to it, or a task that it
-- depends on is blocked.
pub data IsBlocked (idx : DependencyIndex) (tasks : List Task) (cs : List Clarification)
    : Text → Type 0 where
  named :
      {k : Text} {c : Clarification}
      → Memᴰ c cs
      → c.resolved ≡ false
      → c.task_id ≡ k
      → IsBlocked idx tasks cs k
  resolves :
      {k : Text} {c : Clarification}
      → Memᴰ c cs
      → c.resolved ≡ false
      → resolve idx c.task_id ≡ some k
      → IsBlocked idx tasks cs k
  follows :
      {k : Text} {t : Task} {dep : Text}
      → Memᴰ t tasks
      → t.id ≡ k
      → Memᴰ dep t.depends_on
      → IsBlocked idx tasks cs (dep_id idx dep)
      → IsBlocked idx tasks cs k

blocked_tasks-parts :
    (idx : DependencyIndex) (tasks : List Task) (cs : List Clarification) (blocked : TextSet)
    → blocked_tasks idx tasks cs ≡ some blocked
    → (seed : TextSet) × (blocked_by idx cs (λ k. false) ≡ some seed)
      × (blocked ≡ propagate (suc (length tasks)) idx tasks seed)
unfolding blocked_tasks
blocked_tasks-parts idx tasks cs blocked e = elim (Option-cases (blocked_by idx cs (λ k. false))) [
  | inl global ↦ cc (rw (global, blocked_tasks) at e)
  | inr (seed, local) ↦
      let same : some (propagate (suc (length tasks)) idx tasks seed) ≡ some blocked =
        rw (local, blocked_tasks) at e in
      (seed, local, cc)
]

ids_Mem : (ts : List Task) → All (λ t. Memᴰ t.id (map (λ u. u.id) ts)) ts
ids_Mem ts = go ts ts (Mem-All ts)
  where
    mapped : (us : List Task) {t : Task} → Memᴰ t us → Memᴰ t.id (map (λ u. u.id) us)
    mapped [] m = elim m [ ]
    mapped (u ∷ us) (Memᴰ.head e) = Memᴰ.head (ap (λ (v : Task). v.id) e)
    mapped (u ∷ us) (Memᴰ.tail m) = Memᴰ.tail (mapped us m)

    go :
        (us vs : List Task) → All (λ t. Memᴰ t us) vs → All (λ t. Memᴰ t.id (map (λ u. u.id) us)) vs
    go us [] h = tt
    go us (v ∷ vs) h = (mapped us h.0, go us vs h.1)

IsBlocked→true :
    (idx : DependencyIndex) (tasks : List Task) (cs : List Clarification) (blocked : TextSet)
    → blocked_tasks idx tasks cs ≡ some blocked
    → {k : Text} → IsBlocked idx tasks cs k
    → blocked k ≡ true
unfolding Names
IsBlocked→true idx tasks cs blocked e (named {k} {c} m waits same) =
    let (seed, local, eq) = blocked_tasks-parts idx tasks cs blocked e in
    rw eq (
      propagate-Extends idx (suc (length tasks)) tasks seed k
        (blocked_by-marks idx cs (λ j. false) seed c k local m (waits, inl same)))
IsBlocked→true idx tasks cs blocked e (resolves {k} {c} m waits same) =
    let (seed, local, eq) = blocked_tasks-parts idx tasks cs blocked e in
    rw eq (
      propagate-Extends idx (suc (length tasks)) tasks seed k
        (blocked_by-marks idx cs (λ j. false) seed c k local m (waits, inr same)))
IsBlocked→true idx tasks cs blocked e (follows {k} {t} {dep} m same listed up) =
    let (seed, local, eq) = blocked_tasks-parts idx tasks cs blocked e in
    let closed : IsClosed idx blocked tasks = rw eq (
      propagate-IsClosed idx (suc (length tasks)) tasks seed (ids_Mem tasks)
        (omega (arith, open_tasks-le-length seed tasks))) in
    subst (λ j. blocked j ≡ true) same
      (All-Mem _ tasks closed m (
        any_of_Mem (λ d. blocked (dep_id idx d)) t.depends_on listed
          (IsBlocked→true idx tasks cs blocked e up)))

-- Unless a clarification blocks everything, the blocked tasks are exactly those that an unresolved
-- clarification names or resolves to, and those that depend on a blocked one, at any distance.
pub blocked_tasks_iff :
    (idx : DependencyIndex) (tasks : List Task) (cs : List Clarification) (blocked : TextSet)
    (k : Text)
    → blocked_tasks idx tasks cs ≡ some blocked
    → (blocked k ≡ true) ↔ IsBlocked idx tasks cs k
unfolding Names
blocked_tasks_iff idx tasks cs blocked k e =
    let (seed, local, eq) = blocked_tasks-parts idx tasks cs blocked e in
    (
      λ h.
          propagate-Sound idx tasks (IsBlocked idx tasks cs)
            (λ t dep m listed up. follows m refl listed up) (suc (length tasks)) seed
            (λ j marked. from_seed j (blocked_by_lem idx cs (λ i. false) seed j local marked)) k
            (rw eq at h),
      λ b. IsBlocked→true idx tasks cs blocked e b,
    )
  where
    from_seed :
        (j : Text)
        → (false ≡ true) ⊎ ((c : Clarification) × Memᴰ c cs × Names idx c j)
        → IsBlocked idx tasks cs j
    from_seed j (inl no_start) = cc
    from_seed j (inr (c, m, n)) = elim (n.1) [
      | inl same ↦ named m n.0 same
      | inr known ↦ resolves m n.0 known
    ]

blocked_by-none :
    (idx : DependencyIndex) (cs : List Clarification) (b : TextSet)
    → (blocked_by idx cs b ≡ none)
      ↔ (any (λ (c : Clarification). not c.resolved && is_empty c.task_id) cs ≡ true)
unfolding blocked_by any
blocked_by-none idx [] b = (λ e. cc, λ e. cc)
blocked_by-none idx (c ∷ cs) b =
    let (to, from) = blocked_by-none idx cs (mark idx c b) in (λ e. ground arith, λ e. ground arith)

-- Everything is blocked exactly if an unresolved clarification names no task.
pub blocked_tasks-none :
    (idx : DependencyIndex) (tasks : List Task) (cs : List Clarification)
    → (blocked_tasks idx tasks cs ≡ none)
      ↔ (any (λ (c : Clarification). not c.resolved && is_empty c.task_id) cs ≡ true)
unfolding blocked_tasks
blocked_tasks-none idx tasks cs =
    let (to, from) = blocked_by-none idx cs (λ k. false) in
    (
      λ e. elim (Option-cases (blocked_by idx cs (λ k. false))) [
        | inl global ↦ to global
        | inr (seed, local) ↦ cc (rw (local, blocked_tasks) at e)
      ],
      λ h. rw (from h, blocked_tasks),
    )
