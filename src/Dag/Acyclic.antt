-- ===== src/Dag/Acyclic.antt =====
-- The depth-first search of pkg/services/dag.go reports a cycle only where there is one.
use noctifab.Prelude.{
  ℕ, zero, suc, subst, ◌≤◌, ◌<◌, ◌≡◌, ◌≢◌, List, [], ◌∷◌, arith, ◌==◌, All, if◌then◌else◌,
  Bool-cases, inl, inr,
}
use noctifab.Prelude.Text.{Text, text_eq_iff}
use noctifab.Prelude.Results.{Result, ok, err, >>=-eq-err}
use noctifab.Domain.Task.{Task}
use noctifab.Dag.Graph.{DagError, duplicate_title, unresolved, cycle, out_of_fuel}
use noctifab.Dag.Walk.{Walk, enter, Visitor, visit_deps, dfs, visit_tasks}
use noctifab.Dag.Search.{Inv, Visited, Visits, enter-Inv, visit_if_new, dfs-Visits}

-- The search itself has two errors.
abbrev pub IsSearchError : DagError → Type 0
IsSearchError (duplicate_title title) = ⊥
IsSearchError (unresolved title dep) = ⊥
IsSearchError (cycle node) = Unit
IsSearchError out_of_fuel = Unit

new-IsSearchError :
    (visit : Visitor) (d : Text) (w : Walk) (x : DagError)
    → ((node : Text) (u : Walk) → visit node u ≡ err x → IsSearchError x)
    → (if w.visited d == 0 then visit d w else ok w) ≡ err x
    → IsSearchError x
new-IsSearchError visit d w x h e = elim (Bool-cases (w.visited d == 0)) [
  | inl new ↦ h d w (rw new at e)
  | inr old ↦ cc (rw old at e)
]

visit_deps-IsSearchError :
    (visit : Visitor) (node : Text) (ds : List Text) (w : Walk) (x : DagError)
    → ((k : Text) (u : Walk) → visit k u ≡ err x → IsSearchError x)
    → visit_deps visit node ds w ≡ err x
    → IsSearchError x
unfolding visit_deps
visit_deps-IsSearchError visit node [] w x h e = cc
visit_deps-IsSearchError visit node (d ∷ ds) w x h e = elim (Bool-cases (w.visited d == 1)) [
  | inl gray ↦
      let gone : ◌≡◌ {A = Result DagError Walk} (err (cycle node)) (err x) = rw gray at e in
      let same : cycle node ≡ x = cc in subst IsSearchError same tt
  | inr free ↦ elim (>>=-eq-err _ _ (rw free at e)) [
    | inl now ↦ new-IsSearchError visit d w x h now
    | inr (u, _, rest) ↦ visit_deps-IsSearchError visit node ds u x h rest
  ]
]

dfs-IsSearchError :
    (n : ℕ) (adj : Text → List Text) (node : Text) (w : Walk) (x : DagError)
    → dfs n adj node w ≡ err x
    → IsSearchError x
unfolding dfs
dfs-IsSearchError zero adj node w x e =
    let same : out_of_fuel ≡ x = cc in subst IsSearchError same tt
dfs-IsSearchError (suc n) adj node w x e = elim (>>=-eq-err _ _ e) [
  | inl early ↦
      visit_deps-IsSearchError (dfs n adj) node (adj node) (enter node w) x
        (λ k u. dfs-IsSearchError n adj k u x) early
  | inr (u, _, last) ↦ cc
]

pub visit_tasks-IsSearchError :
    (n : ℕ) (adj : Text → List Text) (ts : List Task) (w : Walk) (x : DagError)
    → visit_tasks (dfs n adj) ts w ≡ err x
    → IsSearchError x
unfolding visit_tasks
visit_tasks-IsSearchError n adj [] w x e = cc
visit_tasks-IsSearchError n adj (t ∷ ts) w x e = elim (>>=-eq-err _ _ e) [
  | inl now ↦ new-IsSearchError (dfs n adj) t.id w x (λ k u. dfs-IsSearchError n adj k u x) now
  | inr (u, _, rest) ↦ visit_tasks-IsSearchError n adj ts u x rest
]

module _ (adj : Text → List Text) (rank : Text → ℕ)
    (ranked : (k : Text) → All (λ d. rank d < rank k) (adj k)) (culprit : Text) where
  -- Every node on the current path stands above the node.
  abbrev Above : Text → Walk → Type 0
  Above node w = (k : Text) → w.visited k ≡ 1 → rank node < rank k

  abbrev Safe : Visitor → Type 0
  Safe visit =
      (node : Text) (w : Walk)
      → Inv adj w
      → w.visited node ≡ 0
      → Above node w
      → visit node w ≢ err (cycle culprit)

  new-ne-cycle :
      (visit : Visitor) (d : Text) (w : Walk)
      → Safe visit
      → Inv adj w
      → Above d w
      → (if w.visited d == 0 then visit d w else ok w) ≢ err (cycle culprit)
  new-ne-cycle visit d w h v up e = elim (Bool-cases (w.visited d == 0)) [
    | inl new ↦ h d w v (ground arith) up (rw new at e)
    | inr old ↦ cc (rw old at e)
  ]

  visit_deps-ne-cycle :
      (visit : Visitor) (node : Text) (ds : List Text) (w : Walk)
      → Safe visit
      → Visits adj visit
      → Inv adj w
      → All (λ d. rank d < rank node) ds
      → ((k : Text) → w.visited k ≡ 1 → rank node ≤ rank k)
      → visit_deps visit node ds w ≢ err (cycle culprit)
  unfolding visit_deps
  visit_deps-ne-cycle visit node [] w h hv v below up e = cc
  visit_deps-ne-cycle visit node (d ∷ ds) w h hv v below up e =
      elim (Bool-cases (w.visited d == 1)) [
        | inl gray ↦ ground (arith, up d, below.0)
        | inr free ↦ elim (>>=-eq-err _ _ (rw free at e)) [
          | inl now ↦ new-ne-cycle visit d w h v (λ k g. omega (arith, up k g, below.0)) now
          | inr (u, first, rest) ↦
              let a : Visited adj d w u =
                visit_if_new adj visit d w u hv v (λ g. ground (arith, g)) first in
              visit_deps-ne-cycle visit node ds u h hv a.inv below.1
                (λ k g. ground (arith, a.grows.path_kept k, up k)) rest
        ]
      ]

  dfs-Safe : (n : ℕ) → Safe (dfs n adj)
  unfolding dfs
  dfs-Safe zero node w v new up e = cc
  dfs-Safe (suc n) node w v new up e = elim (>>=-eq-err _ _ e) [
    | inl early ↦
        visit_deps-ne-cycle (dfs n adj) node (adj node) (enter node w) (dfs-Safe n)
          (dfs-Visits adj n) (enter-Inv adj node w v new) (ranked node)
          (λ k g. ground (arith, up k, text_eq_iff node k)) early
    | inr (u, _, last) ↦ cc
  ]

  pub visit_tasks-ne-cycle :
      (n : ℕ) (ts : List Task) (w : Walk)
      → Inv adj w
      → ((k : Text) → w.visited k ≢ 1)
      → visit_tasks (dfs n adj) ts w ≢ err (cycle culprit)
  unfolding visit_tasks
  visit_tasks-ne-cycle n [] w v idle e = cc
  visit_tasks-ne-cycle n (t ∷ ts) w v idle e = elim (>>=-eq-err _ _ e) [
    | inl now ↦ new-ne-cycle (dfs n adj) t.id w (dfs-Safe n) v (λ k g. absurd (idle k g)) now
    | inr (u, first, rest) ↦
        let a : Visited adj t.id w u =
          visit_if_new adj (dfs n adj) t.id w u (dfs-Visits adj n) v (idle t.id) first in
        visit_tasks-ne-cycle n ts u a.inv (λ k g. ground (arith, a.grows.path_kept k, idle k)) rest
  ]
