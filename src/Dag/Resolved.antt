-- ===== src/Dag/Resolved.antt =====
-- Plans for which `ResolveAndSortTasks` (pkg/services/dag.go) does not report an unknown dependency.
use mathlib.Core.Path.{fun_ext}
use noctifab.Prelude.{suc, ◌≡◌, ◌≢◌, List, [], ◌∷◌, inl, inr, length, Bool-cases}
use noctifab.Prelude.Text.{Text}
use noctifab.Prelude.Results.{Result, err, >>=-eq-err}
use noctifab.Domain.Task.{Task}
use noctifab.Dag.Graph.{
  DagError, duplicate_title, unresolved, Index, empty_index, index_tasks, title_taken, empty_graph,
  link_tasks,
}
use noctifab.Dag.Walk.{start, dfs, visit_tasks, resolve_and_sort_tasks}
use noctifab.Dag.Acyclic.{visit_tasks-IsSearchError}
use noctifab.Dag.Edges.{lookup_dep-eq-dep_target}
use noctifab.Dag.Success.{IsResolvable, link_tasks-ok}

index_tasks-ne-unresolved :
    (ts : List Task) (idx : Index) (title dep : Text)
    → index_tasks ts idx ≢ err (unresolved title dep)
unfolding index_tasks
index_tasks-ne-unresolved [] idx title dep e = cc
index_tasks-ne-unresolved (t ∷ ts) idx title dep e =
    elim (Bool-cases (title_taken (idx.title_map t.title) t.id)) [
      | inl taken ↦
          let h : ◌≡◌ {A = Result DagError Index} (err (duplicate_title t.title))
              (err (unresolved title dep)) =
            rw taken at e in
          cc
      | inr free ↦ index_tasks-ne-unresolved ts _ title dep (rw free at e)
    ]

pub resolve_and_sort_tasks-ne-unresolved :
    (tasks : List Task) (title dep : Text)
    → IsResolvable tasks tasks
    → resolve_and_sort_tasks tasks ≢ err (unresolved title dep)
unfolding resolve_and_sort_tasks
resolve_and_sort_tasks-ne-unresolved tasks title dep resolvable e =
    elim (>>=-eq-err (index_tasks tasks empty_index) _ e) [
      | inl early ↦ index_tasks-ne-unresolved tasks empty_index title dep early
      | inr (idx, indexed, e₁) ↦
          let (g, linked) =
            link_tasks-ok tasks tasks idx empty_graph
              (fun_ext (λ k. lookup_dep-eq-dep_target tasks idx k indexed)) resolvable in
          elim (>>=-eq-err (link_tasks idx tasks empty_graph) _ e₁) [
            | inl early ↦ cc
            | inr (h, found, e₂) ↦
                elim (>>=-eq-err (visit_tasks (dfs (suc (length tasks)) h.adj) tasks start) _ e₂) [
                  | inl early ↦
                      elim (visit_tasks-IsSearchError (suc (length tasks)) h.adj tasks start
                        (unresolved title dep) early) [ ]
                  | inr (w, walked, e₃) ↦ cc
                ]
          ]
    ]
