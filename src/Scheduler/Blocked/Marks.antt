-- ===== src/Scheduler/Blocked/Marks.antt =====
-- What the loops over clarifications and tasks in pkg/services/scheduler.go mark.
use mathlib.Core.List.{Memᴰ}
use noctifab.Prelude.{
  ℕ, zero, suc, ◌≡◌, refl, ◌⊎◌, inl, inr, Bool, true, false, List, [], ◌∷◌, some, arith, All,
  Mem-All, subst, if◌then◌else◌, any-Mem, Bool-cases, Option-cases,
}
use noctifab.Prelude.Text.{Text, text_eq, text_eq_iff, is_empty}
use noctifab.Prelude.Maps.{insert}
use noctifab.Domain.Task.{Task}
use noctifab.Domain.State.{Clarification}
use noctifab.Scheduler.Index.{DependencyIndex, resolve, dep_id}
use noctifab.Scheduler.Blocked.{
  TextSet, mark_resolved, blocked_by, has_blocked_dep, spread, propagate,
}
use noctifab.Scheduler.Blocked.Closure.{Extends}

module _ (idx : DependencyIndex) where
  abbrev pub mark : Clarification → TextSet → TextSet
  mark c b =
      if c.resolved then b else mark_resolved (resolve idx c.task_id) (insert c.task_id true b)

  -- A clarification marks what it names and what that resolves to.
  mark_lem :
      (c : Clarification) (b : TextSet) (k : Text)
      → mark c b k ≡ true
      → (b k ≡ true) ⊎ ((c.resolved ≡ false) × ((c.task_id ≡ k) ⊎ (resolve idx c.task_id ≡ some k)))
  mark_lem c b k h = elim (Bool-cases c.resolved) [
    | inl done ↦ inl (rw done at h)
    | inr waits ↦ elim (Option-cases (resolve idx c.task_id)) [
      | inl unknown ↦ ground (arith, text_eq_iff c.task_id k)
      | inr (id, known) ↦ ground (arith, text_eq_iff c.task_id k, text_eq_iff id k)
    ]
  ]

  mark_named :
      (c : Clarification) (b : TextSet) (k : Text)
      → c.resolved ≡ false
      → (c.task_id ≡ k) ⊎ (resolve idx c.task_id ≡ some k)
      → mark c b k ≡ true
  mark_named c b k waits h = elim (Option-cases (resolve idx c.task_id)) [
    | inl unknown ↦ ground (arith, text_eq_iff c.task_id k)
    | inr (id, known) ↦ ground (arith, text_eq_iff c.task_id k, text_eq_iff id k)
  ]

  mark-Extends : (c : Clarification) (b : TextSet) → Extends b (mark c b)
  mark-Extends c b k h = elim (Option-cases (resolve idx c.task_id)) [
    | inl unknown ↦ ground arith
    | inr (id, known) ↦ ground arith
  ]

  blocked_by-cons :
      (c : Clarification) (cs : List Clarification) (b b' : TextSet)
      → blocked_by idx (c ∷ cs) b ≡ some b'
      → blocked_by idx cs (mark c b) ≡ some b'
  unfolding blocked_by
  blocked_by-cons c cs b b' e = elim (Bool-cases c.resolved) [
    | inl done ↦ rw done (rw (done, blocked_by) at e)
    | inr waits ↦ elim (Bool-cases (is_empty c.task_id)) [
      | inl global ↦ cc (rw (waits, global, blocked_by) at e)
      | inr local ↦ rw waits (rw (waits, local, blocked_by) at e)
    ]
  ]

  unfoldable pub Names : Clarification → Text → Type 0
  Names c k = (c.resolved ≡ false) × ((c.task_id ≡ k) ⊎ (resolve idx c.task_id ≡ some k))

  -- What the loop over the clarifications marks.
  pub blocked_by_lem :
      (cs : List Clarification) (b b' : TextSet) (k : Text)
      → blocked_by idx cs b ≡ some b'
      → b' k ≡ true
      → (b k ≡ true) ⊎ ((c : Clarification) × Memᴰ c cs × Names c k)
  unfolding blocked_by Names
  blocked_by_lem [] b b' k e h = let same : b ≡ b' = cc in inl (rw same h)
  blocked_by_lem (c ∷ cs) b b' k e h =
      elim (blocked_by_lem cs (mark c b) b' k (blocked_by-cons c cs b b' e) h) [
        | inr (d, m, n) ↦ inr (d, Memᴰ.tail m, n)
        | inl marked ↦ elim (mark_lem c b k marked) [
          | inl old ↦ inl old
          | inr n ↦ inr (c, Memᴰ.head refl, n)
        ]
      ]

  blocked_by-Extends :
      (cs : List Clarification) (b b' : TextSet) → blocked_by idx cs b ≡ some b' → Extends b b'
  unfolding blocked_by
  blocked_by-Extends [] b b' e k h = let same : b ≡ b' = cc in rw (← same) h
  blocked_by-Extends (c ∷ cs) b b' e k h =
      blocked_by-Extends cs (mark c b) b' (blocked_by-cons c cs b b' e) k (mark-Extends c b k h)

  pub blocked_by-marks :
      (cs : List Clarification) (b b' : TextSet) (c : Clarification) (k : Text)
      → blocked_by idx cs b ≡ some b'
      → Memᴰ c cs
      → Names c k
      → b' k ≡ true
  unfolding Names
  blocked_by-marks [] b b' c k e m n = elim m [ ]
  blocked_by-marks (d ∷ cs) b b' c k e (Memᴰ.head same) n =
      blocked_by-Extends cs (mark d b) b' (blocked_by-cons d cs b b' e) k
        (mark_named d b k (rw same at n.0) (rw same at n.1))
  blocked_by-marks (d ∷ cs) b b' c k e (Memᴰ.tail m) n =
      blocked_by-marks cs (mark d b) b' c k (blocked_by-cons d cs b b' e) m n

  module _ (tasks : List Task) (P : Text → Type 0)
      (down : (t : Task) (dep : Text)
        → Memᴰ t tasks
        → Memᴰ dep t.depends_on
        → P (dep_id idx dep)
        → P t.id) where
    abbrev pub Sound : TextSet → Type 0
    Sound b = (k : Text) → b k ≡ true → P k

    insert-Sound :
        (b : TextSet) (t : Task)
        → Memᴰ t tasks
        → Sound b
        → has_blocked_dep idx b t ≡ true
        → Sound (insert t.id true b)
    insert-Sound b t m s h k e = elim (Bool-cases (text_eq t.id k)) [
      | inl own ↦
          let (dep, listed, blocked) = any-Mem (λ dep. b (dep_id idx dep)) t.depends_on h in
          subst P ((text_eq_iff t.id k).0 own) (down t dep m listed (s (dep_id idx dep) blocked))
      | inr other ↦ s k (rw other at e)
    ]

    spread-Sound :
        (ts : List Task) (b : TextSet) (c : Bool)
        → All (λ t. Memᴰ t tasks) ts
        → Sound b
        → Sound (spread idx ts (b, c)).0
    unfolding spread
    spread-Sound [] b c ms s = s
    spread-Sound (t ∷ ts) b c ms s = elim (Bool-cases (b t.id)) [
      | inl old ↦ rw (old, spread) (spread-Sound ts b c ms.1 s)
      | inr new ↦ elim (Bool-cases (has_blocked_dep idx b t)) [
        | inl dep ↦
            rw (new, dep, spread)
              (spread-Sound ts (insert t.id true b) true ms.1 (insert-Sound b t ms.0 s dep))
        | inr free ↦ rw (new, free, spread) (spread-Sound ts b c ms.1 s)
      ]
    ]

    pub propagate-Sound : (fuel : ℕ) (b : TextSet) → Sound b → Sound (propagate fuel idx tasks b)
    unfolding propagate
    propagate-Sound zero b s = s
    propagate-Sound (suc fuel) b s =
        let next : Sound (spread idx tasks (b, false)).0 =
          spread-Sound tasks b false (Mem-All tasks) s in
        elim (Bool-cases (spread idx tasks (b, false)).1) [
          | inl more ↦
              rw (more, propagate) (propagate-Sound fuel (spread idx tasks (b, false)).0 next)
          | inr still ↦ rw (still, propagate) next
        ]
