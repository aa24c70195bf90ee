-- ===== src/Scheduler/Blocked/Closure.antt =====
-- The blocked tasks of pkg/services/scheduler.go are the downstream closure of the clarifications.
use mathlib.Core.List.{Memᴰ}
use noctifab.Prelude.{
  ℕ, zero, suc, ◌+◌, ◌≤◌, ◌<◌, ◌≡◌, refl, ◌⊎◌, Bool, true, false, List, [], ◌∷◌, map, arith, All,
  ap, subst, ◌∙◌, if◌then◌else◌, Bool-cases, length, inl, inr,
}
use noctifab.Prelude.Text.{Text, text_eq_iff}
use noctifab.Prelude.Maps.{insert}
use noctifab.Domain.Task.{Task}
use noctifab.Scheduler.Index.{DependencyIndex}
use noctifab.Scheduler.Blocked.{TextSet, has_blocked_dep, spread, propagate}

-- How many tasks are not blocked.
pub open_tasks : TextSet → List Task → ℕ
open_tasks b [] = 0
open_tasks b (t ∷ ts) = open_tasks b ts + (if b t.id then 0 else 1)

pub open_tasks-le-length : (b : TextSet) (ts : List Task) → open_tasks b ts ≤ length ts
unfolding open_tasks
open_tasks-le-length b [] = omega arith
open_tasks-le-length b (t ∷ ts) = ground (arith, open_tasks-le-length b ts)

abbrev pub Extends : TextSet → TextSet → Type 0
Extends b b' = (k : Text) → b k ≡ true → b' k ≡ true

open_tasks-le :
    (b b' : TextSet) (ts : List Task) → Extends b b' → open_tasks b' ts ≤ open_tasks b ts
unfolding open_tasks
open_tasks-le b b' [] h = omega arith
open_tasks-le b b' (t ∷ ts) h = ground (arith, h t.id, open_tasks-le b b' ts h)

insert-Extends : (b : TextSet) (k : Text) → Extends b (insert k true b)
insert-Extends b k j h = ground arith

open_tasks-insert :
    (b : TextSet) (k : Text) (ts : List Task)
    → Memᴰ k (map (λ t. t.id) ts)
    → b k ≡ false
    → suc (open_tasks (insert k true b) ts) ≤ open_tasks b ts
unfolding open_tasks
open_tasks-insert b k [] m h = elim m [ ]
open_tasks-insert b k (t ∷ ts) (Memᴰ.head e) h =
    ground (arith, text_eq_iff k t.id, open_tasks-le b (insert k true b) ts (insert-Extends b k))
open_tasks-insert b k (t ∷ ts) (Memᴰ.tail m) h =
    ground (arith, open_tasks-insert b k ts m h, insert-Extends b k t.id)

module _ (idx : DependencyIndex) where
  abbrev visit : Task → TextSet × Bool → TextSet × Bool
  visit t (b, c) =
      if b t.id
      then (b, c)
      else if has_blocked_dep idx b t
      then (insert t.id true b, true)
      else (b, c)

  visit-Extends : (t : Task) (b : TextSet) (c : Bool) → Extends b (visit t (b, c)).0
  visit-Extends t b c k h = ground arith

  spread-Extends : (ts : List Task) (b : TextSet) (c : Bool) → Extends b (spread idx ts (b, c)).0
  unfolding spread
  spread-Extends [] b c k h = h
  spread-Extends (t ∷ ts) b c k h =
      let (b', c') = visit t (b, c) in spread-Extends ts b' c' k (visit-Extends t b c k h)

  -- A task in the list that has a blocked dependency is blocked.
  abbrev pub IsClosed : TextSet → List Task → Type 0
  IsClosed b = All (λ t. has_blocked_dep idx b t ≡ true → b t.id ≡ true)

  visit_still :
      (t : Task) (b : TextSet) (c : Bool)
      → (visit t (b, c)).1 ≡ false
      → (c ≡ false) × (visit t (b, c) ≡ (b, c)) × (has_blocked_dep idx b t ≡ true → b t.id ≡ true)
  visit_still t b c h = elim (Bool-cases (b t.id)) [
    | inl old ↦ (rw old at h, rw old, λ d. old)
    | inr new ↦ elim (Bool-cases (has_blocked_dep idx b t)) [
      | inl dep ↦ cc (rw (new, dep) at h)
      | inr free ↦ (rw (new, free) at h, rw (new, free), λ d. cc)
    ]
  ]

  -- A round that changes nothing finds the tasks closed.
  spread_still :
      (ts : List Task) (b : TextSet) (c : Bool)
      → (spread idx ts (b, c)).1 ≡ false
      → (c ≡ false) × ((spread idx ts (b, c)).0 ≡ b) × IsClosed b ts
  unfolding spread
  spread_still [] b c h = (h, refl, tt)
  spread_still (t ∷ ts) b c h =
      let (b', c') = visit t (b, c) in
      let (c'_false, after, rest) = spread_still ts b' c' h in
      let (c_false, same, now) = visit_still t b c c'_false in
      (
        c_false,
        after ∙ ap (λ (s : TextSet × Bool). s.0) same,
        (now, subst (λ (s : TextSet × Bool). IsClosed s.0 ts) same rest),
      )

  -- A round that changes something leaves fewer tasks open.
  spread_open :
      (all ts : List Task) (b : TextSet) (c : Bool)
      → All (λ t. Memᴰ t.id (map (λ u. u.id) all)) ts
      → (spread idx ts (b, c)).1 ≡ true
      → (c ≡ true) ⊎ (open_tasks (spread idx ts (b, c)).0 all < open_tasks b all)
  unfolding spread
  spread_open all [] b c ms h = inl h
  spread_open all (t ∷ ts) b c ms h = elim (Bool-cases (b t.id)) [
    | inl old ↦ rw (old, spread) (spread_open all ts b c ms.1 (rw (old, spread) at h))
    | inr new ↦ elim (Bool-cases (has_blocked_dep idx b t)) [
      | inl dep ↦ inr (
          rw (new, dep, spread)
            (omega (
              arith,
              open_tasks-insert b t.id all ms.0 new,
              open_tasks-le (insert t.id true b) _ all
                  (spread-Extends ts (insert t.id true b) true),
            )))
      | inr free ↦
          rw (new, free, spread) (spread_open all ts b c ms.1 (rw (new, free, spread) at h))
    ]
  ]

  pub propagate-IsClosed :
      (fuel : ℕ) (tasks : List Task) (b : TextSet)
      → All (λ t. Memᴰ t.id (map (λ u. u.id) tasks)) tasks
      → open_tasks b tasks < fuel
      → IsClosed (propagate fuel idx tasks b) tasks
  unfolding propagate
  propagate-IsClosed zero tasks b ms h = absurd (omega arith)
  propagate-IsClosed (suc fuel) tasks b ms h = elim (Bool-cases (spread idx tasks (b, false)).1) [
    | inl more ↦
        rw (more, propagate)
          (propagate-IsClosed fuel tasks (spread idx tasks (b, false)).0 ms
            (fewer (spread_open tasks tasks b false ms more)))
    | inr still ↦
        let (_, same, closed) = spread_still tasks b false still in
        rw (still, same, propagate) closed
  ]
    where
      fewer :
          (false ≡ true) ⊎ (open_tasks (spread idx tasks (b, false)).0 tasks < open_tasks b tasks)
          → open_tasks (spread idx tasks (b, false)).0 tasks < fuel
      fewer (inl e) = cc
      fewer (inr less) = omega arith

  pub propagate-Extends :
      (fuel : ℕ) (tasks : List Task) (b : TextSet) → Extends b (propagate fuel idx tasks b)
  unfolding propagate
  propagate-Extends zero tasks b k h = h
  propagate-Extends (suc fuel) tasks b k h = elim (Bool-cases (spread idx tasks (b, false)).1) [
    | inl more ↦
        rw (more, propagate)
          (propagate-Extends fuel tasks (spread idx tasks (b, false)).0 k
            (spread-Extends tasks b false k h))
    | inr still ↦ rw (still, propagate) (spread-Extends tasks b false k h)
  ]
