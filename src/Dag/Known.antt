-- ===== src/Dag/Known.antt =====
-- The depth-first search of pkg/services/dag.go lists IDs of tasks only.
use noctifab.Prelude.{
  ℕ, zero, suc, ◌≡◌, true, List, [], ◌∷◌, ◌++◌, arith, ◌==◌, All, if◌then◌else◌, Bool-cases, inl,
  inr,
}
use noctifab.Prelude.Text.{Text, elem}
use noctifab.Prelude.Results.{ok, >>=-eq-ok}
use noctifab.Domain.Task.{Task}
use noctifab.Dag.Walk.{Walk, enter, leave, Visitor, visit_deps, dfs, visit_tasks}

module _ (keys : List Text) where
  abbrev pub IsKnown : List Text → Type 0
  IsKnown = All (λ k. elem k keys ≡ true)

  IsKnown-snoc :
      (xs : List Text) (x : Text) → IsKnown xs → elem x keys ≡ true → IsKnown (xs ++ x ∷ [])
  IsKnown-snoc [] x h m = (m, tt)
  IsKnown-snoc (y ∷ xs) x h m = (h.0, IsKnown-snoc xs x h.1 m)

  abbrev Keeps : Visitor → Type 0
  Keeps visit =
      (node : Text) (w w' : Walk)
      → elem node keys ≡ true
      → IsKnown w.order
      → visit node w ≡ ok w'
      → IsKnown w'.order

  new-IsKnown :
      (visit : Visitor) (d : Text) (w w' : Walk)
      → Keeps visit
      → elem d keys ≡ true
      → IsKnown w.order
      → (if w.visited d == 0 then visit d w else ok w) ≡ ok w'
      → IsKnown w'.order
  new-IsKnown visit d w w' h m k e = elim (Bool-cases (w.visited d == 0)) [
    | inl new ↦ h d w w' m k (rw new at e)
    | inr old ↦ let same : w ≡ w' = ground (arith, e) in rw (← same) k
  ]

  visit_deps-IsKnown :
      (visit : Visitor) (node : Text) (ds : List Text) (w w' : Walk)
      → Keeps visit
      → IsKnown ds
      → IsKnown w.order
      → visit_deps visit node ds w ≡ ok w'
      → IsKnown w'.order
  unfolding visit_deps
  visit_deps-IsKnown visit node [] w w' h ms k e = let same : w ≡ w' = cc in rw (← same) k
  visit_deps-IsKnown visit node (d ∷ ds) w w' h ms k e = elim (Bool-cases (w.visited d == 1)) [
    | inl gray ↦ cc (rw gray at e)
    | inr free ↦
        let (u, first, rest) = >>=-eq-ok _ _ (rw free at e) in
        visit_deps-IsKnown visit node ds u w' h ms.1 (new-IsKnown visit d w u h ms.0 k first) rest
  ]

  module _ (adj : Text → List Text) (closed : (k : Text) → IsKnown (adj k)) where
    dfs-Keeps : (fuel : ℕ) → Keeps (dfs fuel adj)
    unfolding dfs
    dfs-Keeps zero node w w' m k e = cc
    dfs-Keeps (suc fuel) node w w' m k e =
        let (u, swept, last) =
          >>=-eq-ok (visit_deps (dfs fuel adj) node (adj node) (enter node w)) _ e in
        let same : leave node u ≡ w' = cc in
        rw (← same) (
          IsKnown-snoc u.order node
            (visit_deps-IsKnown (dfs fuel adj) node (adj node) (enter node w) u (dfs-Keeps fuel)
              (closed node) k swept)
            m)

    pub visit_tasks-IsKnown :
        (fuel : ℕ) (ts : List Task) (w w' : Walk)
        → All (λ t. elem t.id keys ≡ true) ts
        → IsKnown w.order
        → visit_tasks (dfs fuel adj) ts w ≡ ok w'
        → IsKnown w'.order
    unfolding visit_tasks
    visit_tasks-IsKnown fuel [] w w' ms k e = let same : w ≡ w' = cc in rw (← same) k
    visit_tasks-IsKnown fuel (t ∷ ts) w w' ms k e =
        let (u, first, rest) = >>=-eq-ok _ _ e in
        visit_tasks-IsKnown fuel ts u w' ms.1
          (new-IsKnown (dfs fuel adj) t.id w u (dfs-Keeps fuel) ms.0 k first) rest
