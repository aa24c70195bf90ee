-- ===== src/Dag/Walk.antt =====
-- The depth-first search of `ResolveAndSortTasks` (pkg/services/dag.go). `visited` holds 0 for an
-- unvisited node, 1 for one on the current path and 2 for a finished one. The recursion takes fuel.
use noctifab.Prelude.{
  ℕ, zero, suc, List, [], ◌∷◌, ◌++◌, Option, none, some, if◌then◌else◌, ◌==◌, length,
}
use noctifab.Prelude.Text.{Text}
use noctifab.Prelude.Maps.{Map, insert}
use noctifab.Prelude.Results.{Result, ok, err, ◌>>=◌}
use noctifab.Domain.Task.{Task, blank_task}
use noctifab.Dag.Graph.{
  DagError, cycle, out_of_fuel, empty_graph, empty_index, index_tasks, link_tasks,
}

pub record Walk : Type 0 where
  pub visited : Text → ℕ
  pub order : List Text

abbrev pub start : Walk
start = record { visited = λ k. 0; order = [] }

abbrev pub enter : Text → Walk → Walk
enter node w = record w { visited = insert node 1 w.visited }

abbrev pub leave : Text → Walk → Walk
leave node w = record w { visited = insert node 2 w.visited; order = w.order ++ node ∷ [] }

abbrev pub Visitor : Type 0
Visitor = Text → Walk → Result DagError Walk

-- The loop over `adj[node]`; `visit` is the recursive call.
unfoldable pub visit_deps : Visitor → Text → List Text → Walk → Result DagError Walk
visit_deps visit node [] w = ok w
visit_deps visit node (dep ∷ deps) w =
    if w.visited dep == 1
    then err (cycle node)
    else (if w.visited dep == 0 then visit dep w else ok w) >>= visit_deps visit node deps

unfoldable pub dfs : ℕ → (Text → List Text) → Visitor
dfs zero adj node w = err out_of_fuel
dfs (suc fuel) adj node w =
    visit_deps (dfs fuel adj) node (adj node) (enter node w) >>= λ w'. ok (leave node w')

unfoldable pub visit_tasks : Visitor → List Task → Walk → Result DagError Walk
visit_tasks visit [] w = ok w
visit_tasks visit (t ∷ ts) w =
    (if w.visited t.id == 0 then visit t.id w else ok w) >>= visit_tasks visit ts

-- A missing key of a Go map reads as the zero value.
abbrev pub task_or_zero : Option Task → Task
task_or_zero none = blank_task [] []
task_or_zero (some t) = t

unfoldable pub collect : Map Task → List Text → List Task
collect task_map [] = []
collect task_map (id ∷ order) = task_or_zero (task_map id) ∷ collect task_map order

unfoldable pub resolve_and_sort_tasks : List Task → Result DagError (List Task)
resolve_and_sort_tasks tasks = index_tasks tasks empty_index >>= λ idx.
    link_tasks idx tasks empty_graph >>= λ g.
    visit_tasks (dfs (suc (length tasks)) g.adj) tasks start >>= λ w.
    ok (collect g.task_map w.order)
