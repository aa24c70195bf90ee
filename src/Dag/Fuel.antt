-- ===== src/Dag/Fuel.antt =====
-- The recursion of the depth-first search of pkg/services/dag.go is bounded by the unvisited IDs.
use noctifab.Prelude.{
  ℕ, zero, suc, ◌+◌, ◌≤◌, ◌≡◌, ◌≢◌, true, List, [], ◌∷◌, map, length, arith, ◌==◌, All,
  if◌then◌else◌, Bool-cases, inl, inr,
}
use noctifab.Prelude.Text.{Text, text_eq_iff, elem}
use noctifab.Prelude.Results.{ok, err, >>=-eq-err}
use noctifab.Domain.Task.{Task}
use noctifab.Dag.Graph.{out_of_fuel}
use noctifab.Dag.Walk.{Walk, enter, Visitor, visit_deps, dfs, visit_tasks}
use noctifab.Dag.Search.{Inv, Grows, Visited, Visits, enter-Inv, visit_if_new, dfs-Visits}

-- How many of the IDs are unvisited.
pub white : List Text → Walk → ℕ
white [] w = 0
white (k ∷ ks) w = white ks w + (if w.visited k == 0 then 1 else 0)

pub white-le-length : (ts : List Task) (w : Walk) → white (map (λ t. t.id) ts) w ≤ length ts
unfolding white
white-le-length [] w = omega arith
white-le-length (t ∷ ts) w = ground (arith, white-le-length ts w)

white-le :
    (ks : List Text) (w w' : Walk)
    → ((k : Text) → w'.visited k ≡ 0 → w.visited k ≡ 0)
    → white ks w' ≤ white ks w
unfolding white
white-le [] w w' h = omega arith
white-le (k ∷ ks) w w' h = ground (arith, h k, white-le ks w w' h)

white-enter :
    (ks : List Text) (node : Text) (w : Walk)
    → elem node ks ≡ true
    → w.visited node ≡ 0
    → suc (white ks (enter node w)) ≤ white ks w
unfolding white elem
white-enter [] node w m e = cc
white-enter (k ∷ ks) node w m e = ground (
  arith,
  text_eq_iff node k,
  text_eq_iff k node,
  white-enter ks node w,
  white-le ks w (enter node w) (λ j h. ground (arith, h)),
)

module _ (adj : Text → List Text) (keys : List Text)
    (closed : (k : Text) → All (λ d. elem d keys ≡ true) (adj k)) where
  abbrev Fueled : ℕ → Visitor → Type 0
  Fueled n visit =
      (node : Text) (w : Walk)
      → Inv adj w
      → w.visited node ≡ 0
      → elem node keys ≡ true
      → white keys w ≤ n
      → visit node w ≢ err out_of_fuel

  white-Grows : (w w' : Walk) → Inv adj w → Grows adj w w' → white keys w' ≤ white keys w
  white-Grows w w' v g =
      white-le keys w w' (λ k e. ground (arith, v.range k, g.path_kept k, g.done_kept k))

  new-ne-out_of_fuel :
      (n : ℕ) (visit : Visitor) (d : Text) (w : Walk)
      → Fueled n visit
      → Inv adj w
      → elem d keys ≡ true
      → white keys w ≤ n
      → (if w.visited d == 0 then visit d w else ok w) ≢ err out_of_fuel
  new-ne-out_of_fuel n visit d w h v m le e = elim (Bool-cases (w.visited d == 0)) [
    | inl new ↦ h d w v (ground arith) m le (rw new at e)
    | inr old ↦ cc (rw old at e)
  ]

  visit_deps-ne-out_of_fuel :
      (n : ℕ) (visit : Visitor) (node : Text) (ds : List Text) (w : Walk)
      → Fueled n visit
      → Visits adj visit
      → Inv adj w
      → All (λ d. elem d keys ≡ true) ds
      → white keys w ≤ n
      → visit_deps visit node ds w ≢ err out_of_fuel
  unfolding visit_deps
  visit_deps-ne-out_of_fuel n visit node [] w h hv v ms le e = cc
  visit_deps-ne-out_of_fuel n visit node (d ∷ ds) w h hv v ms le e =
      elim (Bool-cases (w.visited d == 1)) [
        | inl gray ↦ cc (rw gray at e)
        | inr free ↦ elim (>>=-eq-err _ _ (rw free at e)) [
          | inl now ↦ new-ne-out_of_fuel n visit d w h v ms.0 le now
          | inr (u, first, rest) ↦
              let a : Visited adj d w u =
                visit_if_new adj visit d w u hv v (λ g. ground (arith, g)) first in
              visit_deps-ne-out_of_fuel n visit node ds u h hv a.inv ms.1
                (omega (arith, white-Grows w u v a.grows)) rest
        ]
      ]

  dfs-Fueled : (n : ℕ) → Fueled n (dfs n adj)
  unfolding dfs
  dfs-Fueled zero node w v new m le e = omega (arith, white-enter keys node w m new)
  dfs-Fueled (suc n) node w v new m le e = elim (>>=-eq-err _ _ e) [
    | inl early ↦
        visit_deps-ne-out_of_fuel n (dfs n adj) node (adj node) (enter node w) (dfs-Fueled n)
          (dfs-Visits adj n) (enter-Inv adj node w v new) (closed node)
          (omega (arith, white-enter keys node w m new)) early
    | inr (u, _, last) ↦ cc
  ]

  pub visit_tasks-ne-out_of_fuel :
      (n : ℕ) (ts : List Task) (w : Walk)
      → Inv adj w
      → ((k : Text) → w.visited k ≢ 1)
      → All (λ t. elem t.id keys ≡ true) ts
      → white keys w ≤ n
      → visit_tasks (dfs n adj) ts w ≢ err out_of_fuel
  unfolding visit_tasks
  visit_tasks-ne-out_of_fuel n [] w v idle ms le e = cc
  visit_tasks-ne-out_of_fuel n (t ∷ ts) w v idle ms le e = elim (>>=-eq-err _ _ e) [
    | inl now ↦ new-ne-out_of_fuel n (dfs n adj) t.id w (dfs-Fueled n) v ms.0 le now
    | inr (u, first, rest) ↦
        let a : Visited adj t.id w u =
          visit_if_new adj (dfs n adj) t.id w u (dfs-Visits adj n) v (idle t.id) first in
        visit_tasks-ne-out_of_fuel n ts u a.inv (λ k g. ground (arith, a.grows.path_kept k, idle k))
          ms.1 (omega (arith, white-Grows w u v a.grows)) rest
  ]
