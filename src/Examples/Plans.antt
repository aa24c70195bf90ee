-- ===== src/Examples/Plans.antt =====
-- `ResolveAndSortTasks` (pkg/services/dag.go) on a plan of two tasks, and on a plan with a cycle.
use mathlib.Core.List.{Memᴰ}
use noctifab.Prelude.{
  ℕ, ◌≡◌, refl, ◌≢◌, inl, false, inr, ◌<◌, ◌⊎◌, none, sym, ap, ◌∙◌, true, List, [], ◌∷◌, some,
  arith, All, if◌then◌else◌,
}
use noctifab.Prelude.Text.{Text, codes, text_eq, elem}
use noctifab.Prelude.Results.{ok, err}
use noctifab.Domain.Task.{Task, blank_task}
use noctifab.Dag.Graph.{
  cycle, out_of_fuel, index_tasks, lookup_dep, add_dep, resolve_deps, link_tasks,
}
use noctifab.Dag.Walk.{visit_deps, dfs, visit_tasks, collect, resolve_and_sort_tasks}
use noctifab.Dag.Edges.{ids, last_named, dep_target}
use noctifab.Dag.Built.{IsOrdered}
use noctifab.Dag.Order.{
  resolve_and_sort_tasks-IsOrdered, elem-resolve_and_sort_tasks, resolve_and_sort_tasks-given,
}
use noctifab.Dag.Success.{resolve_and_sort_tasks-ok}
use noctifab.Dag.Total.{resolve_and_sort_tasks-ne-out_of_fuel}

abbrev pub setup_task : Task
setup_task = record (blank_task (codes "a") (codes "Setup")) { target_files = codes "go.mod" ∷ [] }

abbrev pub build_task : Task
build_task = record (blank_task (codes "b") (codes "Build")) {
  depends_on = codes "Setup" ∷ [];
  target_files = codes "main.go" ∷ [];
}

abbrev pub plan : List Task
plan = build_task ∷ setup_task ∷ []

abbrev sorted_plan : List Task
sorted_plan = setup_task ∷ build_task ∷ []

plan_sorts : resolve_and_sort_tasks plan ≡ ok sorted_plan
unfolding resolve_and_sort_tasks index_tasks link_tasks resolve_deps lookup_dep add_dep visit_tasks
    dfs visit_deps collect text_eq
plan_sorts = refl

-- A task that depends on itself.
loop_is_found :
    resolve_and_sort_tasks (record setup_task { depends_on = codes "a" ∷ [] } ∷ [])
    ≡ err (cycle (codes "a"))
unfolding resolve_and_sort_tasks index_tasks link_tasks resolve_deps lookup_dep add_dep visit_tasks
    dfs visit_deps collect text_eq
loop_is_found = refl

resolve_and_sort_tasks-IsOrdered_example : IsOrdered (dep_target plan) [] sorted_plan
resolve_and_sort_tasks-IsOrdered_example =
    resolve_and_sort_tasks-IsOrdered plan sorted_plan plan_sorts

elem-resolve_and_sort_tasks_example :
    elem (codes "b") (ids sorted_plan) ≡ elem (codes "b") (ids plan)
elem-resolve_and_sort_tasks_example =
    elem-resolve_and_sort_tasks plan sorted_plan (codes "b") plan_sorts

resolve_and_sort_tasks-given_example : All (λ t. Memᴰ t plan) sorted_plan
resolve_and_sort_tasks-given_example = resolve_and_sort_tasks-given plan sorted_plan plan_sorts

abbrev rank : Text → ℕ
rank id = if text_eq id (codes "b") then 1 else 0

plan_titles : (t u : Task) → Memᴰ t plan → Memᴰ u plan → t.title ≡ u.title → t.id ≡ u.id
plan_titles t u mt mu e = elim (by_cases t mt) [
  | inl tb ↦ elim (by_cases u mu) [
    | inl ub ↦ ap (λ (x : Task). x.id) tb ∙ sym (ap (λ (x : Task). x.id) ub)
    | inr ua ↦ apart (rw (tb, ua) at e)
  ]
  | inr ta ↦ elim (by_cases u mu) [
    | inl ub ↦ apart (sym (rw (ta, ub) at e))
    | inr ua ↦ ap (λ (x : Task). x.id) ta ∙ sym (ap (λ (x : Task). x.id) ua)
  ]
]
  where
    by_cases : (t : Task) → Memᴰ t plan → (t ≡ build_task) ⊎ (t ≡ setup_task)
    by_cases t (Memᴰ.head e) = inl e
    by_cases t (Memᴰ.tail (Memᴰ.head e)) = inr e
    by_cases t (Memᴰ.tail (Memᴰ.tail m)) = elim m [ ]

    apart : {A : Type 0} → codes "Build" ≡ codes "Setup" → A
    apart e =
        let clash : false ≡ true = unfold text_eq in ap (λ k. text_eq k (codes "Setup")) e in cc

plan_ranked : (id : Text) → dep_target plan (codes "Setup") ≡ some id → rank id < rank (codes "b")
unfolding dep_target last_named text_eq
plan_ranked id e = let same : codes "a" ≡ id = cc in rw (← same) (omega arith)

resolve_and_sort_tasks-ok_example : (s : List Task) × (resolve_and_sort_tasks plan ≡ ok s)
resolve_and_sort_tasks-ok_example =
    resolve_and_sort_tasks-ok rank plan plan_titles ((inl plan_target, tt), (tt, tt))
      ((plan_ranked, tt), (tt, tt))
  where
    plan_target : dep_target plan (codes "Setup") ≢ none
    plan_target e = unfold dep_target last_named text_eq in cc

resolve_and_sort_tasks-ne-out_of_fuel_example : resolve_and_sort_tasks plan ≢ err out_of_fuel
resolve_and_sort_tasks-ne-out_of_fuel_example = resolve_and_sort_tasks-ne-out_of_fuel plan
