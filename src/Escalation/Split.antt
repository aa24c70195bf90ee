-- ===== src/Escalation/Split.antt =====
-- How `SplitTask` (pkg/services/task_escalator.go) divides a task.
use native.Mathlib.Nat.{add-mul}
use noctifab.Prelude.{
  ℕ, suc, ◌+◌, ◌-◌, ◌*◌, ◌≤◌, ◌≡◌, refl, sym, ap, ◌∙◌, List, [], ◌∷◌, ◌++◌, arith, leb,
  if◌then◌else◌, length, take, drop, take-append-drop, drop-drop, Bool-cases, inl, inr, All,
}
use noctifab.Prelude.Text.{Text}
use noctifab.Domain.Task.{Task, pending}
use noctifab.Escalation.{
  Part, parts, cut, slice, subtask, split_parts, split_count, files_per_subtask, split_task,
}

-- The target files of the tasks, one after another.
unfoldable pub all_files : List Task → List Text
all_files [] = []
all_files (t ∷ ts) = t.target_files ++ all_files ts

-- The first task has the dependencies, and each other depends on just the one before it.
unfoldable pub IsChained : List Text → List Task → Type 0
IsChained deps [] = Unit
IsChained deps (t ∷ ts) = (t.depends_on ≡ deps) × IsChained (t.id ∷ []) ts

split_parts-IsChained :
    (task : Task) (per i : ℕ) (deps : List Text) (ps : List Part)
    → IsChained deps (split_parts task per i deps ps)
unfolding IsChained split_parts subtask
split_parts-IsChained task per i deps [] = tt
split_parts-IsChained task per i deps (part ∷ ps) =
    (refl, split_parts-IsChained task per (i + 1) ((task.id ++ part.suffix) ∷ []) ps)

-- A subtask is pending, without retries, and names its parent and the parent's story.
abbrev pub IsChild : Task → Task → Type 0
IsChild task t =
    (t.status ≡ pending)
    × (t.retries ≡ 0)
    × (t.parent_task_id ≡ task.id)
    × (t.story_id ≡ task.story_id)

split_parts-IsChild :
    (task : Task) (per i : ℕ) (deps : List Text) (ps : List Part)
    → All (IsChild task) (split_parts task per i deps ps)
unfolding split_parts subtask
split_parts-IsChild task per i deps [] = tt
split_parts-IsChild task per i deps (part ∷ ps) = (
  (refl, refl, refl, refl),
  split_parts-IsChild task per (i + 1) ((task.id ++ part.suffix) ∷ []) ps,
)

drop-length : (xs : List Text) → drop (length xs) xs ≡ []
drop-length [] = refl
drop-length (x ∷ xs) = drop-length xs

-- A slice and what stands behind it are what stands behind its start.
slice-append-drop :
    (from to : ℕ) (files : List Text)
    → from ≤ to
    → slice from to files ++ drop (cut files to) files ≡ drop (cut files from) files
slice-append-drop from to files h =
    let s = cut files from in
    let e = cut files to in
    let gap : s + (e - s) ≡ e = ground arith in
    let behind : drop (e - s) (drop s files) ≡ drop e files =
      drop-drop (e - s) s files ∙ ap (λ (k : ℕ). drop k files) gap in
    ap (λ (ys : List Text). slice from to files ++ ys) (sym behind)
    ∙ take-append-drop (e - s) (drop s files)

-- The parts from the number `i` on take the files from its start on, if they reach the end.
all_files-split_parts :
    (task : Task) (per i : ℕ) (deps : List Text) (ps : List Part)
    → length task.target_files ≤ (i + length ps) * per
    → all_files (split_parts task per i deps ps)
      ≡ drop (cut task.target_files (i * per)) task.target_files
unfolding all_files split_parts subtask
all_files-split_parts task per i deps [] h =
    let end : cut task.target_files (i * per) ≡ length task.target_files =
      ground (arith, ap (λ (k : ℕ). k * per) (i_alone i)) in
    rw end (sym (drop-length task.target_files))
  where
    i_alone : (i : ℕ) → i + 0 ≡ i
    i_alone i = omega arith
all_files-split_parts task per i deps (part ∷ ps) h =
    let next : (i + 1) * per ≡ i * per + per = rw add-mul (omega arith) in
    let reach : (i + suc (length ps)) * per ≡ (i + 1 + length ps) * per =
      ap (λ (k : ℕ). k * per) (moved i (length ps)) in
    ap (λ (ys : List Text). slice (i * per) (i * per + per) task.target_files ++ ys)
      (all_files-split_parts task per (i + 1) ((task.id ++ part.suffix) ∷ []) ps
          (omega (arith, reach, h))
        ∙ ap (λ (k : ℕ). drop (cut task.target_files k) task.target_files) next)
    ∙ slice-append-drop (i * per) (i * per + per) task.target_files (omega arith)
  where
    moved : (i n : ℕ) → i + suc n ≡ i + 1 + n
    moved i n = omega arith

-- The parts have room for all files.
enough_files :
    (n : ℕ)
    → let count : ℕ = if leb 4 n then 3 else 2 in
      n ≤ (0 + length (take count parts)) * files_per_subtask n count
enough_files n = elim (Bool-cases (leb 4 n)) [
  | inl many ↦ rw many (ground arith)
  | inr few ↦ rw few (ground arith)
]

-- The subtasks share out the files of the task, in their order and without a gap or an overlap; the
-- first takes over the dependencies of the task, each other depends on just the one before it; and all are
-- pending children of the task.
pub split_task_lem :
    (task : Task)
    → (all_files (split_task task) ≡ task.target_files)
      × IsChained task.depends_on (split_task task)
      × All (IsChild task) (split_task task)
unfolding split_task
split_task_lem task = (
  shared,
  split_parts-IsChained task _ 0 task.depends_on _,
  split_parts-IsChild task _ 0 task.depends_on _,
)
  where
    shared : all_files (split_task task) ≡ task.target_files
    shared =
        let per = files_per_subtask (length task.target_files) (split_count task) in
        let none_before : cut task.target_files (0 * per) ≡ 0 = ground arith in
        all_files-split_parts task per 0 task.depends_on (take (split_count task) parts)
          (enough_files (length task.target_files))
        ∙ ap (λ (k : ℕ). drop k task.target_files) none_before
