-- ===== src/Planning/Normalizer.antt =====
-- `NormalizeAndDeduplicateTasks` of pkg/services/task_normalizer.go on ASCII texts. A sequence number is the
-- bit pattern of a 64-bit `int`.
pub mod Fresh
pub mod Distinct
use Prim.Native.Nat.{◌^◌}
use noctifab.Prelude.{
  ℕ, zero, suc, ◌+◌, ◌%◌, Bool, true, false, not, ◌&&◌, ◌||◌, List, [], ◌∷◌, ◌++◌, Option, none,
  some, ltb, ◌==◌, if◌then◌else◌, length, drop, all, map,
}
use noctifab.Prelude.Text.{Text, codes, is_empty, text_eq, to_lower, has_prefix, trim_space, elem}
use noctifab.Prelude.Maps.{Map, insert, empty_map}
use noctifab.Domain.Task.{Task}
use noctifab.Story.Ids.{is_digit, decimal, extract_story_id}
use noctifab.Planning.Numbers.{format_seq}

-- `^(\d+)$`.
unfoldable all_digits : Text → Bool
unfolding all
all_digits s = not (is_empty s) && all is_digit s

abbrev skip_dash : Text → Text
skip_dash [] = []
skip_dash (c ∷ s) = if c == b'-' then s else c ∷ s

-- The digits of `(?:TASK-?|T-?)(\d+)$` with the match at the head of the text, or the empty text.
unfoldable suffix_here : Text → Text
unfolding has_prefix all_digits
suffix_here s =
    let behind_task = skip_dash (drop 4 s) in
    let behind_t = skip_dash (drop 1 s) in
    if has_prefix (to_lower s) (codes "task") && all_digits behind_task
    then behind_task
    else if has_prefix (to_lower s) (codes "t") && all_digits behind_t
    then behind_t
    else []

unfoldable suffix_digits : Text → Text
unfolding suffix_here
suffix_digits [] = []
suffix_digits (c ∷ s) =
    let rest = suffix_digits s in
    if is_empty (suffix_here (c ∷ s)) then rest else suffix_here (c ∷ s)

-- `strconv.Atoi` gives a positive `int`, or the default stands.
abbrev positive_or : ℕ → ℕ → ℕ
positive_or default n = if ltb 0 n && ltb n (2 ^ 63) then n else default

-- The number that the ID ends in, or the place in the batch.
unfoldable pub desired_seq : ℕ → Text → ℕ
unfolding suffix_digits all_digits decimal
desired_seq place old =
    if not (is_empty (suffix_digits old))
    then positive_or place (decimal 0 (suffix_digits old))
    else if all_digits old
    then positive_or place (decimal 0 old)
    else place

abbrev pub task_base : Text → Text
task_base canonical = (if is_empty canonical then codes "TASK" else canonical) ++ codes "-TASK-"

unfoldable pub task_id_of : Text → ℕ → Text
unfolding format_seq
task_id_of canonical seq = task_base canonical ++ format_seq seq

-- The ID that the task would like to have.
unfoldable pub candidate_id : Text → List Text → ℕ → Text → Text
unfolding extract_story_id text_eq elem task_id_of
candidate_id canonical taken seq old =
    let story = extract_story_id old in
    let mismatched =
      not (is_empty story) && not (is_empty canonical) && not (text_eq story canonical) in
    if mismatched || is_empty old || elem old taken then task_id_of canonical seq else old

-- The loop for an ID that is not taken; `none` where the fuel runs out.
unfoldable pub free_id : Text → List Text → ℕ → ℕ → Text → Option Text
unfolding elem task_id_of
free_id canonical taken zero seq candidate = none
free_id canonical taken (suc fuel) seq candidate =
    let seq' = (seq + 1) % 2 ^ 64 in
    let rest = free_id canonical taken fuel seq' (task_id_of canonical seq') in
    if elem candidate taken then rest else some candidate

-- The tasks with their new IDs, and the new ID of each old one.
pub record Renaming : Type 0 where
  pub tasks : List Task
  pub id_map : Map Text

abbrev pub note_id : Text → Text → Map Text → Map Text
note_id old id m = if is_empty old then m else insert old (some id) m

abbrev pub with_ids : Text → Text → Task → Task
with_ids canonical id t = record t {
  id = id;
  story_id = if is_empty canonical then t.story_id else canonical;
}

abbrev pub put_task : Task → Option Renaming → Option Renaming
put_task t none = none
put_task t (some r) = some (record r { tasks = t ∷ r.tasks })

abbrev pub with_id : Option Text → (Text → Option Renaming) → Option Renaming
with_id none next = none
with_id (some id) next = next id

-- The first loop, from the place of its next task; `taken` has the IDs of the batch and the existing ones.
unfoldable pub rename_tasks : Text → List Text → ℕ → Map Text → List Task → Option Renaming
unfolding desired_seq candidate_id free_id text_eq trim_space
rename_tasks canonical taken place id_map [] = some (record { tasks = []; id_map = id_map })
rename_tasks canonical taken place id_map (t ∷ ts) =
    let old = trim_space t.id in
    let seq = desired_seq place old in
    with_id (free_id canonical taken (length taken + 2) seq (candidate_id canonical taken seq old))
      λ id.
        put_task (with_ids canonical id t)
          (rename_tasks canonical (id ∷ taken) (suc place) (note_id old id id_map) ts)

abbrev new_name : Option Text → Text → Text
new_name none dep = dep
new_name (some mapped) dep = if is_empty mapped then dep else mapped

abbrev is_mapped : Option Text → Bool
is_mapped none = false
is_mapped (some mapped) = not (is_empty mapped)

unfoldable pub remap_deps : Map Text → Text → List Text → List Text
unfolding trim_space text_eq
remap_deps id_map id [] = []
remap_deps id_map id (dep ∷ deps) =
    let name = trim_space dep in
    let rest = remap_deps id_map id deps in
    if is_mapped (id_map name) && text_eq (new_name (id_map name) name) id
    then rest
    else new_name (id_map name) name ∷ rest

abbrev pub remap_task : Map Text → Task → Task
remap_task id_map t = record t { depends_on = remap_deps id_map t.id t.depends_on }

unfoldable pub existing_ids : List Task → List Text
existing_ids [] = []
existing_ids (t ∷ ts) = let rest = existing_ids ts in if is_empty t.id then rest else t.id ∷ rest

abbrev or_text : Text → Text → Text
or_text id text = if is_empty id then text else id

unfoldable pub canonical_story_id : Text → Text
unfolding extract_story_id trim_space
canonical_story_id target = or_text (extract_story_id target) (trim_space target)

abbrev pub finish : Option Renaming → Option (List Task)
finish none = none
finish (some r) = some (map (remap_task r.id_map) r.tasks)

unfoldable pub normalize_and_deduplicate_tasks : List Task → Text → List Task → Option (List Task)
unfolding canonical_story_id existing_ids rename_tasks remap_deps
normalize_and_deduplicate_tasks tasks target existing =
    finish (rename_tasks (canonical_story_id target) (existing_ids existing) 1 empty_map tasks)
