-- ===== src/Dag/Total.antt =====
-- When `ResolveAndSortTasks` (pkg/services/dag.go) fails, and when it cannot.
use noctifab.Prelude.{
  suc, ◌≢◌, inl, inr, Bool, true, false, List, [], ◌∷◌, Option, none, some, arith, Bool-cases,
  length,
}
use noctifab.Prelude.Text.{Text}
use noctifab.Prelude.Results.{Result, ok, err, >>=-eq-err}
use noctifab.Domain.Task.{Task}
use noctifab.Dag.Graph.{
  DagError, out_of_fuel, Index, empty_index, index_tasks, title_taken, lookup_dep, add_dep,
  is_external, resolve_deps, Graph, empty_graph, link_tasks,
}
use noctifab.Dag.Walk.{start, dfs, visit_tasks, resolve_and_sort_tasks}
use noctifab.Dag.Search.{start-Inv}
use noctifab.Dag.Fuel.{white-le-length, visit_tasks-ne-out_of_fuel}
use noctifab.Dag.Edges.{ids}
use noctifab.Dag.Built.{Built, closed}
use noctifab.Dag.Order.{All-self}

index_tasks-ne-out_of_fuel : (ts : List Task) (idx : Index) → index_tasks ts idx ≢ err out_of_fuel
unfolding index_tasks
index_tasks-ne-out_of_fuel [] idx e = cc
index_tasks-ne-out_of_fuel (t ∷ ts) idx e =
    elim (Bool-cases (title_taken (idx.title_map t.title) t.id)) [
      | inl taken ↦ cc (rw taken at e)
      | inr free ↦ index_tasks-ne-out_of_fuel ts _ (rw free at e)
    ]

add_dep-ne-out_of_fuel :
    (target : Option Text) (external : Bool) (title dep : Text) (rest : Result DagError (List Text))
    → rest ≢ err out_of_fuel
    → add_dep target external title dep rest ≢ err out_of_fuel
unfolding add_dep
add_dep-ne-out_of_fuel (some id) external title dep (ok found) h e = cc
add_dep-ne-out_of_fuel (some id) external title dep (err x) h e = h e
add_dep-ne-out_of_fuel none true title dep rest h e = h e
add_dep-ne-out_of_fuel none false title dep rest h e = cc

resolve_deps-ne-out_of_fuel :
    (idx : Index) (title : Text) (deps : List Text) → resolve_deps idx title deps ≢ err out_of_fuel
unfolding resolve_deps
resolve_deps-ne-out_of_fuel idx title [] e = cc
resolve_deps-ne-out_of_fuel idx title (d ∷ ds) e =
    add_dep-ne-out_of_fuel (lookup_dep idx d) (is_external d) title d _
      (resolve_deps-ne-out_of_fuel idx title ds) e

link_tasks-ne-out_of_fuel :
    (idx : Index) (ts : List Task) (g : Graph) → link_tasks idx ts g ≢ err out_of_fuel
unfolding link_tasks
link_tasks-ne-out_of_fuel idx [] g e = cc
link_tasks-ne-out_of_fuel idx (t ∷ ts) g e =
    elim (>>=-eq-err (resolve_deps idx t.title t.depends_on) _ e) [
      | inl now ↦ resolve_deps-ne-out_of_fuel idx t.title t.depends_on now
      | inr (found, _, rest) ↦ link_tasks-ne-out_of_fuel idx ts _ rest
    ]

module _ (tasks : List Task) (idx : Index) (g : Graph) (b : Built tasks idx g) where
  pub search-ne-out_of_fuel :
      visit_tasks (dfs (suc (length tasks)) g.adj) tasks start ≢ err out_of_fuel
  search-ne-out_of_fuel =
      visit_tasks-ne-out_of_fuel g.adj (ids tasks) (closed tasks idx g b) (suc (length tasks)) tasks
        start (start-Inv g.adj) (λ k. omega arith) (All-self tasks)
        (omega (arith, white-le-length tasks start))

-- The fuel of the model, one more than the number of tasks, is always enough for the recursion.
pub resolve_and_sort_tasks-ne-out_of_fuel :
    (tasks : List Task) → resolve_and_sort_tasks tasks ≢ err out_of_fuel
unfolding resolve_and_sort_tasks
resolve_and_sort_tasks-ne-out_of_fuel tasks e =
    elim (>>=-eq-err (index_tasks tasks empty_index) _ e) [
      | inl e₁ ↦ index_tasks-ne-out_of_fuel tasks empty_index e₁
      | inr (idx, indexed, e₁) ↦ elim (>>=-eq-err (link_tasks idx tasks empty_graph) _ e₁) [
        | inl e₂ ↦ link_tasks-ne-out_of_fuel idx tasks empty_graph e₂
        | inr (g, linked, e₂) ↦
            elim (>>=-eq-err (visit_tasks (dfs (suc (length tasks)) g.adj) tasks start) _ e₂) [
              | inl e₃ ↦
                  search-ne-out_of_fuel tasks idx g (record { indexed = indexed; linked = linked })
                    e₃
              | inr (w, _, last) ↦ cc
            ]
      ]
    ]
