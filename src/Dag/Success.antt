-- ===== src/Dag/Success.antt =====
-- Plans that `ResolveAndSortTasks` (pkg/services/dag.go) accepts.
use mathlib.Core.List.{Memᴰ}
use mathlib.Core.Path.{fun_ext}
use noctifab.Prelude.{
  ℕ, suc, ◌<◌, ◌≡◌, refl, sym, ◌≢◌, ◌⊎◌, subst, inl, inr, true, false, List, [], ◌∷◌, Option, none,
  some, arith, All, All-Mem, Mem-All, Option-cases, Bool-cases, length,
}
use noctifab.Prelude.Text.{Text, text_eq, text_eq_iff}
use noctifab.Prelude.Maps.{insert}
use noctifab.Prelude.Results.{Result, ok, err, >>=-ok}
use noctifab.Domain.Task.{Task}
use noctifab.Dag.Graph.{
  DagError, cycle, out_of_fuel, duplicate_title, unresolved, Index, empty_index, index_tasks,
  title_taken, lookup_dep, add_dep, is_external, resolve_deps, Graph, empty_graph, link_tasks,
}
use noctifab.Dag.Walk.{Walk, start, dfs, visit_tasks, collect, resolve_and_sort_tasks}
use noctifab.Dag.Search.{start-Inv}
use noctifab.Dag.Acyclic.{visit_tasks-ne-cycle, visit_tasks-IsSearchError}
use noctifab.Dag.Edges.{dep_target, lookup_dep-eq-dep_target}
use noctifab.Dag.Links.{link_tasks-given}
use noctifab.Dag.Built.{Built, edges_All, links}
use noctifab.Dag.Total.{search-ne-out_of_fuel}

-- A ranking of IDs puts every task above the tasks that its dependencies stand for.
abbrev pub IsRanked : (Text → ℕ) → List Task → List Task → Type 0
IsRanked rank tasks ts =
    All
      (λ t.
        All (λ dep. (id : Text) → dep_target tasks dep ≡ some id → rank id < rank t.id)
          t.depends_on)
      ts

-- Every dependency stands for a task, or refers to a task of another story.
abbrev pub IsResolvable : List Task → List Task → Type 0
IsResolvable tasks ts =
    All (λ t. All (λ dep. (dep_target tasks dep ≢ none) ⊎ (is_external dep ≡ true)) t.depends_on) ts

-- Tasks of one title have one ID.
abbrev pub HasUniqueTitles : List Task → Type 0
HasUniqueTitles tasks = (t u : Task) → Memᴰ t tasks → Memᴰ u tasks → t.title ≡ u.title → t.id ≡ u.id

-- Each claimed title belongs to a given task of the ID that claimed it.
IsClaimed : List Task → Index → Type 0
IsClaimed tasks idx =
    (k i : Text) → idx.title_map k ≡ some i → (u : Task) × Memᴰ u tasks × (u.title ≡ k) × (u.id ≡ i)

title-free :
    (tasks : List Task) (idx : Index) (t : Task)
    → HasUniqueTitles tasks
    → IsClaimed tasks idx
    → Memᴰ t tasks
    → title_taken (idx.title_map t.title) t.id ≡ false
unfolding IsClaimed
title-free tasks idx t unique claimed m = elim (Option-cases (idx.title_map t.title)) [
  | inl none_yet ↦ rw none_yet
  | inr (i, taken) ↦
      let (u, listed, same_title, same_id) = claimed t.title i taken in
      rw taken (ground (arith, text_eq_iff i t.id, unique u t listed m same_title))
]

claim :
    (tasks : List Task) (idx : Index) (t : Task)
    → IsClaimed tasks idx
    → Memᴰ t tasks
    → IsClaimed tasks (record {
      title_map = insert t.title (some t.id) idx.title_map;
      id_map = insert t.id (some t.id) idx.id_map;
    })
unfolding IsClaimed
claim tasks idx t claimed m k i e = elim (Bool-cases (text_eq t.title k)) [
  | inl own ↦
      let same : some t.id ≡ some i = rw own at e in (t, m, (text_eq_iff t.title k).0 own, cc)
  | inr other ↦ claimed k i (rw other at e)
]

index_tasks-ok :
    (tasks ts : List Task) (idx : Index)
    → HasUniqueTitles tasks
    → IsClaimed tasks idx
    → All (λ t. Memᴰ t tasks) ts
    → (idx' : Index) × (index_tasks ts idx ≡ ok idx')
unfolding index_tasks
index_tasks-ok tasks [] idx unique claimed ms = (idx, refl)
index_tasks-ok tasks (t ∷ ts) idx unique claimed ms =
    rw (title-free tasks idx t unique claimed ms.0)
      (index_tasks-ok tasks ts _ unique (claim tasks idx t claimed ms.0) ms.1)

resolve_deps-ok :
    (idx : Index) (title : Text) (deps : List Text)
    → All (λ dep. (lookup_dep idx dep ≢ none) ⊎ (is_external dep ≡ true)) deps
    → (found : List Text) × (resolve_deps idx title deps ≡ ok found)
unfolding resolve_deps add_dep
resolve_deps-ok idx title [] h = ([], refl)
resolve_deps-ok idx title (d ∷ ds) h =
    let (found, e) = resolve_deps-ok idx title ds h.1 in
    elim (Option-cases (lookup_dep idx d)) [
      | inr (id, known) ↦ (id ∷ found, rw (known, e))
      | inl unknown ↦ (found, rw (unknown, external unknown h.0, e))
    ]
  where
    external :
        lookup_dep idx d ≡ none
        → (lookup_dep idx d ≢ none) ⊎ (is_external d ≡ true)
        → is_external d ≡ true
    external u (inl k) = absurd (k u)
    external u (inr x) = x

pub link_tasks-ok :
    (tasks ts : List Task) (idx : Index) (g : Graph)
    → lookup_dep idx ≡ dep_target tasks
    → IsResolvable tasks ts
    → (g' : Graph) × (link_tasks idx ts g ≡ ok g')
unfolding link_tasks
link_tasks-ok tasks [] idx g eq h = (g, refl)
link_tasks-ok tasks (t ∷ ts) idx g eq h =
    let (found, e) = resolve_deps-ok idx t.title t.depends_on (
      subst
        (λ (f : Text → Option Text).
          All (λ dep. (f dep ≢ none) ⊎ (is_external dep ≡ true)) t.depends_on)
        (sym eq) h.0) in
    rw e (link_tasks-ok tasks ts idx _ eq h.1)

module _ (rank : Text → ℕ) (tasks : List Task) (idx : Index) (g : Graph)
    (ranked : IsRanked rank tasks tasks) (b : Built tasks idx g) where
  adj-IsRanked : (k : Text) → All (λ d. rank d < rank k) (g.adj k)
  adj-IsRanked k = edges_All tasks idx g b (λ d. rank d < rank k) k below
    where
      below :
          (t : Task)
          → g.task_map k ≡ some t
          → All
              (λ dep. (id : Text) → dep_target tasks dep ≡ some id → rank id < rank k)
              t.depends_on
      below t found =
          let own : t.id ≡ k = (links tasks idx g b).own_id k t found in
          elim (link_tasks-given idx tasks empty_graph g k t b.linked found) [
            | inl m ↦
                subst
                  (λ (j : Text).
                    All (λ dep. (id : Text) → dep_target tasks dep ≡ some id → rank id < rank j)
                      t.depends_on)
                  own (All-Mem _ tasks ranked m)
            | inr no_entry ↦ cc
          ]

  walked-ok :
      (r : Result DagError Walk)
      → visit_tasks (dfs (suc (length tasks)) g.adj) tasks start ≡ r
      → (w : Walk) × (visit_tasks (dfs (suc (length tasks)) g.adj) tasks start ≡ ok w)
  walked-ok (ok w) e = (w, e)
  walked-ok (err (cycle k)) e = absurd (
      visit_tasks-ne-cycle g.adj rank adj-IsRanked k (suc (length tasks)) tasks start
        (start-Inv g.adj) (λ j. omega arith) e)
  walked-ok (err out_of_fuel) e = absurd (search-ne-out_of_fuel tasks idx g b e)
  walked-ok (err (duplicate_title title)) e =
      elim (visit_tasks-IsSearchError (suc (length tasks)) g.adj tasks start _ e) [ ]
  walked-ok (err (unresolved title dep)) e =
      elim (visit_tasks-IsSearchError (suc (length tasks)) g.adj tasks start _ e) [ ]

-- A plan is sorted if tasks of one title have one ID, every dependency stands for a task or refers
-- to a task of another story, and a ranking of IDs puts each task above its dependencies.
pub resolve_and_sort_tasks-ok :
    (rank : Text → ℕ) (tasks : List Task)
    → HasUniqueTitles tasks
    → IsResolvable tasks tasks
    → IsRanked rank tasks tasks
    → (sorted : List Task) × (resolve_and_sort_tasks tasks ≡ ok sorted)
unfolding resolve_and_sort_tasks IsClaimed
resolve_and_sort_tasks-ok rank tasks unique resolvable ranked =
    let (idx, indexed) =
      index_tasks-ok tasks tasks empty_index unique (λ k i e. cc) (Mem-All tasks) in
    let (g, linked) =
      link_tasks-ok tasks tasks idx empty_graph
        (fun_ext (λ dep. lookup_dep-eq-dep_target tasks idx dep indexed)) resolvable in
    let (w, walked) =
      walked-ok rank tasks idx g ranked (record { indexed = indexed; linked = linked }) _ refl in
    (
      collect g.task_map w.order,
      >>=-ok (index_tasks tasks empty_index) _ indexed (
          >>=-ok (link_tasks idx tasks empty_graph) _ linked
            (>>=-ok (visit_tasks (dfs (suc (length tasks)) g.adj) tasks start) _ walked refl)),
    )
