-- ===== src/Dag/Search.antt =====
-- The invariant of the depth-first search of pkg/services/dag.go.
use noctifab.Prelude.{
  ℕ, zero, suc, ◌≤◌, ◌≡◌, refl, ◌∙◌, ◌≢◌, true, false, ◌||◌, List, [], ◌∷◌, ◌++◌, arith, ◌==◌, All,
  if◌then◌else◌, Bool-cases, inl, inr,
}
use noctifab.Prelude.Text.{Text, text_eq_iff, elem, elem-append}
use noctifab.Prelude.Maps.{insert_self}
use noctifab.Prelude.Results.{ok, >>=-eq-ok}
use noctifab.Domain.Task.{Task}
use noctifab.Dag.Walk.{Walk, start, enter, leave, Visitor, visit_deps, dfs, visit_tasks}

-- Every ID stands behind its dependencies, and only once; `seen` comes before the list.
abbrev pub IsTopological : (Text → List Text) → List Text → List Text → Type 0
IsTopological adj seen [] = Unit
IsTopological adj seen (x ∷ xs) =
    (elem x seen ≡ false) × All (λ d. elem d seen ≡ true) (adj x) × IsTopological adj (x ∷ seen) xs

-- What is seen or listed, after the first entry of the list has been moved over.
seen_or_listed :
    (d x : Text) (seen xs : List Text)
    → (elem d (x ∷ seen) || elem d xs) ≡ (elem d seen || elem d (x ∷ xs))
unfolding elem
seen_or_listed d x seen xs = ground arith

All-moved :
    (x : Text) (seen xs ds : List Text)
    → All (λ d. (elem d seen || elem d (x ∷ xs)) ≡ true) ds
    → All (λ d. (elem d (x ∷ seen) || elem d xs) ≡ true) ds
All-moved x seen xs [] h = tt
All-moved x seen xs (d ∷ ds) h = (seen_or_listed d x seen xs ∙ h.0, All-moved x seen xs ds h.1)

All-seen :
    (seen ds : List Text)
    → All (λ d. (elem d seen || elem d []) ≡ true) ds
    → All (λ d. elem d seen ≡ true) ds
unfolding elem
All-seen seen [] h = tt
All-seen seen (d ∷ ds) h = (ground (arith, h.0), All-seen seen ds h.1)

pub IsTopological-snoc :
    (adj : Text → List Text) (seen xs : List Text) (x : Text)
    → IsTopological adj seen xs
    → (elem x seen || elem x xs) ≡ false
    → All (λ d. (elem d seen || elem d xs) ≡ true) (adj x)
    → IsTopological adj seen (xs ++ x ∷ [])
unfolding elem
IsTopological-snoc adj seen [] x h new deps = (ground arith, All-seen seen (adj x) deps, tt)
IsTopological-snoc adj seen (y ∷ ys) x h new deps = (
  h.0,
  h.1,
  IsTopological-snoc adj (y ∷ seen) ys x h.2 (seen_or_listed x y seen ys ∙ new)
      (All-moved y seen ys (adj x) deps),
)

module _ (adj : Text → List Text) where
  pub record Inv (w : Walk) : Type 0 where
    pub range : (k : Text) → w.visited k ≤ 2
    pub finished : (k : Text) → elem k w.order ≡ (w.visited k == 2)
    pub sorted : IsTopological adj [] w.order

  -- From `w` to `w'` only unvisited nodes change, and they become finished.
  pub record Grows (w w' : Walk) : Type 0 where
    pub path_kept : (k : Text) → (w'.visited k == 1) ≡ (w.visited k == 1)
    pub done_kept : (k : Text) → w.visited k ≡ 2 → w'.visited k ≡ 2

  pub Grows-refl : (w : Walk) → Grows w w
  Grows-refl w = record { path_kept = λ k. refl; done_kept = λ k e. e }

  pub Grows-trans : {u v w : Walk} → Grows u v → Grows v w → Grows u w
  Grows-trans g h = record {
    path_kept = λ k. h.path_kept k ∙ g.path_kept k;
    done_kept = λ k e. h.done_kept k (g.done_kept k e);
  }

  -- What a successful visit of an unvisited node gives.
  pub record Visited (node : Text) (w w' : Walk) : Type 0 where
    pub inv : Inv w'
    pub grows : Grows w w'
    pub done : w'.visited node ≡ 2

  abbrev pub Visits : Visitor → Type 0
  Visits visit =
      (node : Text) (w w' : Walk)
      → Inv w
      → w.visited node ≡ 0
      → visit node w ≡ ok w'
      → Visited node w w'

  pub start-Inv : Inv start
  unfolding elem
  start-Inv = record { range = λ k. omega arith; finished = λ k. refl; sorted = tt }

  pub enter-Inv : (node : Text) (w : Walk) → Inv w → w.visited node ≡ 0 → Inv (enter node w)
  enter-Inv node w v e = record {
    range = λ k. ground (arith, v.range k);
    finished = λ k. ground (arith, v.finished k, text_eq_iff node k);
    sorted = v.sorted;
  }

  -- A visit of the dependency if it is unvisited.
  pub visit_if_new :
      (visit : Visitor) (d : Text) (w w' : Walk)
      → Visits visit
      → Inv w
      → w.visited d ≢ 1
      → (if w.visited d == 0 then visit d w else ok w) ≡ ok w'
      → Visited d w w'
  visit_if_new visit d w w' h v gray e = elim (Bool-cases (w.visited d == 0)) [
    | inl new ↦ h d w w' v (ground arith) (rw new at e)
    | inr old ↦
        let same : w ≡ w' = ground (arith, e) in
        rw (← same) (record { inv = v; grows = Grows-refl w; done = ground (arith, v.range d) })
  ]

  record Swept (ds : List Text) (w w' : Walk) : Type 0 where
    inv : Inv w'
    grows : Grows w w'
    done : All (λ d. w'.visited d ≡ 2) ds

  visit_deps-Swept :
      (visit : Visitor) (node : Text) (ds : List Text) (w w' : Walk)
      → Visits visit
      → Inv w
      → visit_deps visit node ds w ≡ ok w'
      → Swept ds w w'
  unfolding visit_deps
  visit_deps-Swept visit node [] w w' h v e =
      let same : w ≡ w' = cc in rw (← same) (record { inv = v; grows = Grows-refl w; done = tt })
  visit_deps-Swept visit node (d ∷ ds) w w' h v e = elim (Bool-cases (w.visited d == 1)) [
    | inl gray ↦ cc (rw gray at e)
    | inr free ↦
        let (u, first, rest) = >>=-eq-ok _ _ (rw free at e) in
        let a : Visited d w u = visit_if_new visit d w u h v (λ g. ground (arith, g)) first in
        let b : Swept ds u w' = visit_deps-Swept visit node ds u w' h a.inv rest in
        record {
          inv = b.inv;
          grows = Grows-trans a.grows b.grows;
          done = (b.grows.done_kept d a.done, b.done);
        }
  ]

  All-done :
      (w : Walk) (ds : List Text)
      → Inv w
      → All (λ d. w.visited d ≡ 2) ds
      → All (λ d. (elem d [] || elem d w.order) ≡ true) ds
  unfolding elem
  All-done w [] v h = tt
  All-done w (d ∷ ds) v h = (ground (arith, v.finished d, h.0), All-done w ds v h.1)

  leave-Inv :
      (node : Text) (w : Walk)
      → Inv w
      → w.visited node ≡ 1
      → All (λ d. w.visited d ≡ 2) (adj node)
      → Inv (leave node w)
  unfolding elem
  leave-Inv node w v e deps = record {
    range = λ k. ground (arith, v.range k);
    finished =
        λ k. ground (arith, elem-append k w.order (node ∷ []), v.finished k, text_eq_iff node k);
    sorted =
        IsTopological-snoc adj [] w.order node v.sorted (ground (arith, v.finished node))
          (All-done w (adj node) v deps);
  }

  leave-Visited :
      (node : Text) (w u : Walk)
      → w.visited node ≡ 0
      → Swept (adj node) (enter node w) u
      → Visited node w (leave node u)
  leave-Visited node w u new s = record {
    inv = leave-Inv node u s.inv at_node s.done;
    grows = record {
      path_kept = λ k. ground (arith, s.grows.path_kept k, text_eq_iff node k);
      done_kept = λ k e. ground (arith, s.grows.done_kept k, text_eq_iff node k);
    };
    done = insert_self node 2 u.visited;
  }
    where
      at_node : u.visited node ≡ 1
      at_node = ground (arith, s.grows.path_kept node, insert_self node 1 w.visited)

  pub dfs-Visits : (fuel : ℕ) → Visits (dfs fuel adj)
  unfolding dfs
  dfs-Visits zero node w w' v new e = cc
  dfs-Visits (suc fuel) node w w' v new e =
      let (u, swept, last) =
        >>=-eq-ok (visit_deps (dfs fuel adj) node (adj node) (enter node w)) _ e in
      let same : leave node u ≡ w' = cc in
      rw (← same) (
        leave-Visited node w u new (
          visit_deps-Swept (dfs fuel adj) node (adj node) (enter node w) u (dfs-Visits fuel)
            (enter-Inv node w v new) swept))

  -- After the outer loop every task is finished, and no node is left on the path.
  pub record Complete (tasks : List Task) (w w' : Walk) : Type 0 where
    pub inv : Inv w'
    pub grows : Grows w w'
    pub done : All (λ t. w'.visited t.id ≡ 2) tasks

  pub visit_tasks-Complete :
      (visit : Visitor) (tasks : List Task) (w w' : Walk)
      → Visits visit
      → Inv w
      → ((k : Text) → w.visited k ≢ 1)
      → visit_tasks visit tasks w ≡ ok w'
      → Complete tasks w w'
  unfolding visit_tasks
  visit_tasks-Complete visit [] w w' h v idle e =
      let same : w ≡ w' = cc in rw (← same) (record { inv = v; grows = Grows-refl w; done = tt })
  visit_tasks-Complete visit (t ∷ ts) w w' h v idle e =
      let (u, first, rest) = >>=-eq-ok _ _ e in
      let a : Visited t.id w u = visit_if_new visit t.id w u h v (idle t.id) first in
      let b : Complete ts u w' =
        visit_tasks-Complete visit ts u w' h a.inv
          (λ k g. ground (arith, a.grows.path_kept k, idle k)) rest in
      record {
        inv = b.inv;
        grows = Grows-trans a.grows b.grows;
        done = (b.grows.done_kept t.id a.done, b.done);
      }
