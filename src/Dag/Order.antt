-- ===== src/Dag/Order.antt =====
-- What `ResolveAndSortTasks` (pkg/services/dag.go) returns.
use mathlib.Core.List.{Memᴰ}
use noctifab.Prelude.{suc, ◌≡◌, inl, inr, true, List, [], ◌∷◌, arith, All, length}
use noctifab.Prelude.Text.{Text, elem, text_eq_iff, text_eq_self}
use noctifab.Prelude.Results.{ok, >>=-eq-ok}
use noctifab.Domain.Task.{Task}
use noctifab.Dag.Graph.{Index, empty_index, index_tasks, Graph, empty_graph, link_tasks}
use noctifab.Dag.Walk.{Walk, start, dfs, visit_tasks, collect, resolve_and_sort_tasks}
use noctifab.Dag.Search.{Inv, start-Inv, Complete, visit_tasks-Complete, dfs-Visits}
use noctifab.Dag.Known.{IsKnown, visit_tasks-IsKnown}
use noctifab.Dag.Edges.{ids, dep_target}
use noctifab.Dag.Links.{link_tasks-given}
use noctifab.Dag.Built.{IsOrdered, Built, closed, stored, collect-IsOrdered, ids-collect}

pub All-self : (ts : List Task) → All (λ t. elem t.id (ids ts) ≡ true) ts
unfolding elem
All-self [] = tt
All-self (t ∷ ts) = (ground (arith, text_eq_self t.id), widen t ts ts (All-self ts))
  where
    widen :
        (t : Task) (us vs : List Task)
        → All (λ u. elem u.id (ids us) ≡ true) vs
        → All (λ u. elem u.id (ids (t ∷ us)) ≡ true) vs
    widen t us [] h = tt
    widen t us (v ∷ vs) h = (ground (arith, h.0), widen t us vs h.1)

-- A sort that succeeds: the tables, the search that ran to its end, and the result.
record Run (tasks sorted : List Task) : Type 0 where
  idx : Index
  g : Graph
  w : Walk
  built : Built tasks idx g
  walked : visit_tasks (dfs (suc (length tasks)) g.adj) tasks start ≡ ok w
  collected : sorted ≡ collect g.task_map w.order
  complete : Complete g.adj tasks start w
  known : IsKnown (ids tasks) w.order

resolve_and_sort_tasks-Run :
    (tasks sorted : List Task) → resolve_and_sort_tasks tasks ≡ ok sorted → Run tasks sorted
unfolding resolve_and_sort_tasks
resolve_and_sort_tasks-Run tasks sorted e =
    let (idx, indexed, e₁) = >>=-eq-ok (index_tasks tasks empty_index) _ e in
    let (g, linked, e₂) = >>=-eq-ok (link_tasks idx tasks empty_graph) _ e₁ in
    let (w, walked, e₃) =
      >>=-eq-ok (visit_tasks (dfs (suc (length tasks)) g.adj) tasks start) _ e₂ in
    let b : Built tasks idx g = record { indexed = indexed; linked = linked } in
    record {
      idx = idx;
      g = g;
      w = w;
      built = b;
      walked = walked;
      collected = cc;
      complete =
          visit_tasks-Complete g.adj _ tasks start w (dfs-Visits g.adj (suc (length tasks)))
            (start-Inv g.adj) (λ k. omega arith) walked;
      known =
          visit_tasks-IsKnown (ids tasks) g.adj (closed tasks idx g b) (suc (length tasks)) tasks
            start w (All-self tasks) tt walked;
    }

-- If the sort succeeds, each task stands behind the tasks that its dependencies stand for, and no ID stands
-- twice. A dependency stands for the last task of that title, or else for the task of that ID.
pub resolve_and_sort_tasks-IsOrdered :
    (tasks sorted : List Task)
    → resolve_and_sort_tasks tasks ≡ ok sorted
    → IsOrdered (dep_target tasks) [] sorted
resolve_and_sort_tasks-IsOrdered tasks sorted e =
    let r = resolve_and_sort_tasks-Run tasks sorted e in
    rw r.collected
      (collect-IsOrdered tasks r.idx r.g r.built [] r.w.order r.known r.complete.inv.sorted)

elem_of_done :
    (adj : Text → List Text) (w : Walk) (id : Text) (ts : List Task)
    → Inv adj w
    → All (λ t. w.visited t.id ≡ 2) ts
    → elem id (ids ts) ≡ true
    → elem id w.order ≡ true
unfolding elem
elem_of_done adj w id [] v h m = cc
elem_of_done adj w id (t ∷ ts) v h m =
    ground (arith, v.finished id, text_eq_iff t.id id, h.0, elem_of_done adj w id ts v h.1)

elem_of_IsKnown :
    (keys xs : List Text) (id : Text) → IsKnown keys xs → elem id xs ≡ true → elem id keys ≡ true
unfolding elem
elem_of_IsKnown keys [] id h m = cc
elem_of_IsKnown keys (x ∷ xs) id h m =
    ground (arith, text_eq_iff x id, h.0, elem_of_IsKnown keys xs id h.1)

-- The sorted tasks have the IDs of the given tasks, no more and no fewer.
pub elem-resolve_and_sort_tasks :
    (tasks sorted : List Task) (id : Text)
    → resolve_and_sort_tasks tasks ≡ ok sorted
    → elem id (ids sorted) ≡ elem id (ids tasks)
elem-resolve_and_sort_tasks tasks sorted id e =
    let r = resolve_and_sort_tasks-Run tasks sorted e in
    rw (r.collected, ids-collect tasks r.idx r.g r.built r.w.order r.known)
      (ground (
        arith,
        elem_of_IsKnown (ids tasks) r.w.order id r.known,
        elem_of_done r.g.adj r.w id tasks r.complete.inv r.complete.done,
      ))

collect-given :
    (tasks : List Task) (idx : Index) (g : Graph) (b : Built tasks idx g) (order : List Text)
    → IsKnown (ids tasks) order
    → All (λ t. Memᴰ t tasks) (collect g.task_map order)
unfolding collect
collect-given tasks idx g b [] known = tt
collect-given tasks idx g b (k ∷ ks) known =
    let (t, found) = stored tasks idx g b k known.0 in
    let given : Memᴰ t tasks = elim (link_tasks-given idx tasks empty_graph g k t b.linked found) [
      | inl m ↦ m
      | inr no_entry ↦ cc
    ] in
    rw found (given, collect-given tasks idx g b ks known.1)

-- Every sorted task is one of the given tasks, unchanged.
pub resolve_and_sort_tasks-given :
    (tasks sorted : List Task)
    → resolve_and_sort_tasks tasks ≡ ok sorted
    → All (λ t. Memᴰ t tasks) sorted
resolve_and_sort_tasks-given tasks sorted e =
    let r = resolve_and_sort_tasks-Run tasks sorted e in
    rw r.collected (collect-given tasks r.idx r.g r.built r.w.order r.known)
