-- ===== src/Dag/Built.antt =====
-- The tables of `ResolveAndSortTasks` (pkg/services/dag.go) carry the order of IDs over to tasks.
use mathlib.Core.Path.{fun_ext}
use noctifab.Prelude.{
  ◌≡◌, refl, sym, subst, inl, inr, true, false, List, [], ◌∷◌, Option, some, arith, All,
  Option-cases,
}
use noctifab.Prelude.Text.{Text, elem, text_eq_iff}
use noctifab.Prelude.Results.{ok}
use noctifab.Domain.Task.{Task}
use noctifab.Dag.Graph.{Index, empty_index, index_tasks, lookup_dep, Graph, empty_graph, link_tasks}
use noctifab.Dag.Walk.{collect}
use noctifab.Dag.Search.{IsTopological}
use noctifab.Dag.Known.{IsKnown}
use noctifab.Dag.Edges.{
  ids, dep_target, Covers, lookup_dep-eq-dep_target, dep_target-elem, resolve_deps-Covers,
  resolve_deps-All,
}
use noctifab.Dag.Links.{Linked, empty-Linked, link_tasks-Linked, link_tasks-stored}

-- Each task stands behind the tasks that its dependencies stand for, and no ID stands twice.
abbrev pub IsOrdered : (Text → Option Text) → List Text → List Task → Type 0
IsOrdered target seen [] = Unit
IsOrdered target seen (t ∷ ts) =
    (elem t.id seen ≡ false) × Covers target seen t.depends_on × IsOrdered target (t.id ∷ seen) ts

All-elem :
    (seen xs : List Text) (x : Text)
    → All (λ d. elem d seen ≡ true) xs
    → elem x xs ≡ true
    → elem x seen ≡ true
unfolding elem
All-elem seen [] x h m = cc
All-elem seen (y ∷ ys) x h m = ground (arith, text_eq_iff y x, h.0, All-elem seen ys x h.1)

Covers-seen :
    (target : Text → Option Text) (found seen deps : List Text)
    → Covers target found deps
    → All (λ d. elem d seen ≡ true) found
    → Covers target seen deps
Covers-seen target found seen [] c h = tt
Covers-seen target found seen (d ∷ ds) c h =
    (λ id e. All-elem seen found id h (c.0 id e), Covers-seen target found seen ds c.1 h)

-- The two loops before the search went through.
pub record Built (tasks : List Task) (idx : Index) (g : Graph) : Type 0 where
  pub indexed : index_tasks tasks empty_index ≡ ok idx
  pub linked : link_tasks idx tasks empty_graph ≡ ok g

module _ (tasks : List Task) (idx : Index) (g : Graph) (b : Built tasks idx g) where
  pub links : Linked idx g
  links = link_tasks-Linked idx tasks empty_graph g (empty-Linked idx) b.linked

  target_eq : lookup_dep idx ≡ dep_target tasks
  target_eq = fun_ext (λ dep. lookup_dep-eq-dep_target tasks idx dep b.indexed)

  pub stored : (k : Text) → elem k (ids tasks) ≡ true → (t : Task) × (g.task_map k ≡ some t)
  stored k m = elim (Option-cases (g.task_map k)) [
    | inl gone ↦ absurd (link_tasks-stored idx tasks empty_graph g k b.linked (inl m) gone)
    | inr found ↦ found
  ]

  pub edges_All :
      (P : Text → Type 0) (k : Text)
      → ((t : Task)
          → g.task_map k ≡ some t
          → All (λ dep. (id : Text) → dep_target tasks dep ≡ some id → P id) t.depends_on)
      → All P (g.adj k)
  edges_All P k h = elim (Option-cases (g.task_map k)) [
    | inl gone ↦ rw (links.bare k gone) tt
    | inr (t, found) ↦
        resolve_deps-All P idx t.title t.depends_on (g.adj k)
          (subst
            (λ (f : Text → Option Text).
              All (λ dep. (id : Text) → f dep ≡ some id → P id) t.depends_on)
            (sym target_eq) (h t found))
          (links.edges k t found)
  ]

  closed_deps :
      (deps : List Text)
      → All (λ dep. (id : Text) → dep_target tasks dep ≡ some id → elem id (ids tasks) ≡ true) deps
  closed_deps [] = tt
  closed_deps (d ∷ ds) = (λ id e. dep_target-elem tasks d id e, closed_deps ds)

  pub closed : (k : Text) → IsKnown (ids tasks) (g.adj k)
  closed k = edges_All (λ d. elem d (ids tasks) ≡ true) k (λ t found. closed_deps t.depends_on)

  pub collect-IsOrdered :
      (seen order : List Text)
      → IsKnown (ids tasks) order
      → IsTopological g.adj seen order
      → IsOrdered (dep_target tasks) seen (collect g.task_map order)
  unfolding collect
  collect-IsOrdered seen [] known h = tt
  collect-IsOrdered seen (k ∷ ks) known h =
      let (t, found) = stored k known.0 in
      let own : t.id ≡ k = links.own_id k t found in
      let covers : Covers (lookup_dep idx) (g.adj k) t.depends_on =
        resolve_deps-Covers idx t.title t.depends_on (g.adj k) (links.edges k t found) in
      rw (found, own)
        (
          h.0,
          Covers-seen (dep_target tasks) (g.adj k) seen t.depends_on
              (subst (λ f. Covers f (g.adj k) t.depends_on) target_eq covers) h.1,
          collect-IsOrdered (k ∷ seen) ks known.1 h.2,
        )

  pub ids-collect :
      (order : List Text) → IsKnown (ids tasks) order → ids (collect g.task_map order) ≡ order
  unfolding collect
  ids-collect [] known = refl
  ids-collect (k ∷ ks) known =
      let (t, found) = stored k known.0 in
      cc (found, links.own_id k t found, ids-collect ks known.1)
