-- ===== src/Dag/Links.antt =====
-- The graph that the second loop of `ResolveAndSortTasks` (pkg/services/dag.go) builds.
use mathlib.Core.List.{Memᴰ}
use noctifab.Prelude.{
  ◌≡◌, refl, ◌≢◌, ◌⊎◌, inl, inr, true, List, [], ◌∷◌, none, some, arith, Bool-cases,
}
use noctifab.Prelude.Text.{Text, text_eq, text_eq_iff, elem}
use noctifab.Prelude.Maps.{insert}
use noctifab.Prelude.Results.{ok, >>=-eq-ok}
use noctifab.Domain.Task.{Task}
use noctifab.Dag.Graph.{Index, resolve_deps, Graph, empty_graph, link_tasks}
use noctifab.Dag.Edges.{ids}

-- Each stored task stands under its own ID, with the edges of that task.
pub record Linked (idx : Index) (g : Graph) : Type 0 where
  pub own_id : (k : Text) (t : Task) → g.task_map k ≡ some t → t.id ≡ k
  pub edges :
      (k : Text) (t : Task)
      → g.task_map k ≡ some t
      → resolve_deps idx t.title t.depends_on ≡ ok (g.adj k)
  pub bare : (k : Text) → g.task_map k ≡ none → g.adj k ≡ []

pub empty-Linked : (idx : Index) → Linked idx empty_graph
empty-Linked idx = record { own_id = λ k t e. cc; edges = λ k t e. cc; bare = λ k e. refl }

abbrev add : Task → List Text → Graph → Graph
add t found g = record { adj = insert t.id found g.adj; task_map = insert t.id (some t) g.task_map }

add-Linked :
    (idx : Index) (t : Task) (found : List Text) (g : Graph)
    → Linked idx g
    → resolve_deps idx t.title t.depends_on ≡ ok found
    → Linked idx (add t found g)
add-Linked idx t found g l e = record {
  own_id = λ k u p. ground (arith, text_eq_iff t.id k, l.own_id k u);
  edges = λ k u p. ground (arith, text_eq_iff t.id k, l.edges k u, e);
  bare = λ k p. ground (arith, text_eq_iff t.id k, l.bare k);
}

pub link_tasks-Linked :
    (idx : Index) (ts : List Task) (g g' : Graph)
    → Linked idx g
    → link_tasks idx ts g ≡ ok g'
    → Linked idx g'
unfolding link_tasks
link_tasks-Linked idx [] g g' l e = let same : g ≡ g' = cc in rw (← same) l
link_tasks-Linked idx (t ∷ ts) g g' l e =
    let (found, deps, rest) = >>=-eq-ok (resolve_deps idx t.title t.depends_on) _ e in
    link_tasks-Linked idx ts (add t found g) g' (add-Linked idx t found g l deps) rest

-- Every task gets an entry, and entries stay.
pub link_tasks-stored :
    (idx : Index) (ts : List Task) (g g' : Graph) (k : Text)
    → link_tasks idx ts g ≡ ok g'
    → (elem k (ids ts) ≡ true) ⊎ (g.task_map k ≢ none)
    → g'.task_map k ≢ none
unfolding link_tasks elem
link_tasks-stored idx [] g g' k e h = let same : g ≡ g' = cc in rw (← same) (ground arith)
link_tasks-stored idx (t ∷ ts) g g' k e h =
    let (found, deps, rest) = >>=-eq-ok (resolve_deps idx t.title t.depends_on) _ e in
    link_tasks-stored idx ts (add t found g) g' k rest (ground arith)

-- A stored task is one of the given tasks.
pub link_tasks-given :
    (idx : Index) (ts : List Task) (g g' : Graph) (k : Text) (t : Task)
    → link_tasks idx ts g ≡ ok g'
    → g'.task_map k ≡ some t
    → Memᴰ t ts ⊎ (g.task_map k ≡ some t)
unfolding link_tasks
link_tasks-given idx [] g g' k t e p = let same : g ≡ g' = cc in inr (rw same p)
link_tasks-given idx (u ∷ ts) g g' k t e p =
    let (found, deps, rest) = >>=-eq-ok (resolve_deps idx u.title u.depends_on) _ e in
    elim (link_tasks-given idx ts (add u found g) g' k t rest p) [
      | inl m ↦ inl (Memᴰ.tail m)
      | inr q ↦ placed q
    ]
  where
    placed : insert u.id (some u) g.task_map k ≡ some t → Memᴰ t (u ∷ ts) ⊎ (g.task_map k ≡ some t)
    placed q = elim (Bool-cases (text_eq u.id k)) [
      | inl same ↦ let found' : some u ≡ some t = rw same at q in inl (Memᴰ.head (cc))
      | inr other ↦ inr (rw other at q)
    ]
