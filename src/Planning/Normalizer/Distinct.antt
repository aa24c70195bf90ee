-- ===== src/Planning/Normalizer/Distinct.antt =====
-- What `NormalizeAndDeduplicateTasks` of pkg/services/task_normalizer.go returns.
use Prim.Native.Nat.{◌^◌}
use noctifab.Prelude.{
  ℕ, suc, ◌+◌, ◌≤◌, ◌<◌, ◌≡◌, refl, false, List, [], ◌∷◌, some, arith, length, map, All,
}
use noctifab.Prelude.Text.{Text, text_eq_iff, elem, trim_space, IsUnique}
use noctifab.Prelude.Maps.{Map, empty_map}
use noctifab.Domain.Task.{Task}
use noctifab.Dag.Edges.{ids}
use noctifab.Planning.Normalizer.{
  desired_seq, candidate_id, Renaming, with_ids, note_id, rename_tasks, remap_task, existing_ids,
  canonical_story_id, normalize_and_deduplicate_tasks,
}
use noctifab.Planning.Normalizer.Fresh.{free_id-free, free_id-new}

-- No entry is one of the texts.
abbrev Avoids : List Text → List Text → Type 0
Avoids taken = All (λ k. elem k taken ≡ false)

Avoids-tail :
    (id : Text) (taken ks : List Text)
    → Avoids (id ∷ taken) ks
    → (elem id ks ≡ false) × Avoids taken ks
unfolding elem
Avoids-tail id taken [] h = (refl, tt)
Avoids-tail id taken (k ∷ ks) h =
    let (out, rest) = Avoids-tail id taken ks h.1 in
    (ground (arith, text_eq_iff id k, text_eq_iff k id, h.0, out), (ground (arith, h.0), rest))

rename_tasks-distinct :
    (canonical : Text) (taken : List Text) (place : ℕ) (id_map : Map Text) (ts : List Task)
    → length taken + length ts < 2 ^ 63
    → (r : Renaming) × (rename_tasks canonical taken place id_map ts ≡ some r)
      × IsUnique (ids r.tasks)
      × Avoids taken (ids r.tasks)
      × (length r.tasks ≡ length ts)
unfolding rename_tasks
rename_tasks-distinct canonical taken place id_map [] few =
    (record { tasks = []; id_map = id_map }, refl, tt, tt, refl)
rename_tasks-distinct canonical taken place id_map (t ∷ ts) few =
    let old = trim_space t.id in
    let seq = desired_seq place old in
    let (id, found) =
      free_id-free canonical taken seq (candidate_id canonical taken seq old) (omega arith) in
    let new =
      free_id-new canonical taken (length taken + 2) seq (candidate_id canonical taken seq old) id
        found in
    let (r, renamed, unique, avoids, counted) =
      rename_tasks-distinct canonical (id ∷ taken) (suc place) (note_id old id id_map) ts
        (omega arith) in
    let (out, rest) = Avoids-tail id taken (ids r.tasks) avoids in
    (
      record r { tasks = with_ids canonical id t ∷ r.tasks },
      rw (found, renamed),
      (out, unique),
      (new, rest),
      omega (arith, counted),
    )

ids-remap : (m : Map Text) (ts : List Task) → ids (map (remap_task m) ts) ≡ ids ts
ids-remap m [] = refl
ids-remap m (t ∷ ts) = rw (ids-remap m ts)

length-remap : (m : Map Text) (ts : List Task) → length (map (remap_task m) ts) ≡ length ts
length-remap m [] = refl
length-remap m (t ∷ ts) = omega (arith, length-remap m ts)

length-existing_ids : (ts : List Task) → length (existing_ids ts) ≤ length ts
unfolding existing_ids
length-existing_ids [] = omega arith
length-existing_ids (t ∷ ts) = ground (arith, length-existing_ids ts)

-- With fewer than 2 ^ 63 tasks, the normalization ends: it returns as many tasks as it was given, no two of them
-- with the same ID, and none with the ID of an existing task (an existing task with an empty ID counts for none).
pub normalize_and_deduplicate_tasks-distinct :
    (tasks : List Task) (target : Text) (existing : List Task)
    → length existing + length tasks < 2 ^ 63
    → (result : List Task) × (normalize_and_deduplicate_tasks tasks target existing ≡ some result)
      × IsUnique (ids result)
      × All (λ id. elem id (existing_ids existing) ≡ false) (ids result)
      × (length result ≡ length tasks)
unfolding normalize_and_deduplicate_tasks
normalize_and_deduplicate_tasks-distinct tasks target existing few =
    let fewer = length-existing_ids existing in
    let (r, renamed, unique, avoids, counted) =
      rename_tasks-distinct (canonical_story_id target) (existing_ids existing) 1 empty_map tasks
        (omega arith) in
    let same = ids-remap r.id_map r.tasks in
    (
      map (remap_task r.id_map) r.tasks,
      rw renamed,
      rw same unique,
      rw same avoids,
      omega (arith, length-remap r.id_map r.tasks, counted),
    )
