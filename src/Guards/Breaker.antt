-- ===== src/Guards/Breaker.antt =====
-- The breaker of cosmetic edits: `TaskCircuitBreaker` of pkg/services/circuit_breaker.go and
-- `IsMutatingTool` of pkg/services/diagnostic_cache.go. The breaker is not nil, and the messages of the
-- source have no field. An argument map gives the text under "path", empty if there is none, and an entry
-- for each element of the list under "files", with its path if it has a text as one. Texts are ASCII.
-- `Edits` proves when the breaker trips.
use mathlib.Core.List.{reverse}
use noctifab.Prelude.{
  ℕ, zero, suc, ◌+◌, ◌-◌, Bool, true, false, not, ◌&&◌, ◌||◌, List, [], ◌∷◌, ◌++◌, Option, none,
  some, leb, ltb, ◌==◌, if◌then◌else◌, any,
}
use noctifab.Prelude.Text.{
  Text, codes, text_eq, is_empty, to_lower, has_prefix, has_suffix, contains, trim_space,
}
use noctifab.Story.Ids.{base_name}
pub mod Edits

pub record TaskCircuitBreaker : Type 0 where
  pub consecutive_test_passes : ℕ
  pub consecutive_test_only_turns : ℕ
  pub consecutive_duplicate_inspections : ℕ
  pub is_tripped : Bool

abbrev pub new_task_circuit_breaker : TaskCircuitBreaker
new_task_circuit_breaker = record {
  consecutive_test_passes = 0;
  consecutive_test_only_turns = 0;
  consecutive_duplicate_inspections = 0;
  is_tripped = false;
}

-- The elements of a path between its slashes; `part` is the current one, reversed.
unfoldable pub split_path : Text → Text → List Text
split_path part [] = reverse part ∷ []
split_path part (c ∷ s) =
    if c == b'/' then reverse part ∷ split_path [] s else split_path (c ∷ part) s

-- `..` behind the elements so far, the last one first.
unfoldable pub go_up : Bool → List Text → List Text
go_up true [] = []
go_up false [] = codes ".." ∷ []
go_up rooted (e ∷ es) = if text_eq e (codes "..") then codes ".." ∷ e ∷ es else es

unfoldable pub clean_parts : Bool → List Text → List Text → List Text
clean_parts rooted [] out = reverse out
clean_parts rooted (e ∷ es) out = clean_parts rooted es (
    if is_empty e || text_eq e (codes ".")
    then out
    else if text_eq e (codes "..")
    then go_up rooted out
    else e ∷ out)

unfoldable pub join_path : List Text → Text
join_path [] = []
join_path (e ∷ []) = e
join_path (e ∷ f ∷ es) = e ++ codes "/" ++ join_path (f ∷ es)

-- `filepath.Clean` on a Unix path.
unfoldable pub clean_path : Text → Text
clean_path path =
    let rooted = has_prefix path (codes "/") in
    let cleaned = join_path (clean_parts rooted (split_path [] path) []) in
    if rooted then codes "/" ++ cleaned else if is_empty cleaned then codes "." else cleaned

unfoldable pub is_production_file : Text → Bool
is_production_file path =
    let lower = to_lower (clean_path (trim_space path)) in
    let base = base_name lower in
    not (
      contains lower (codes "test")
      || (contains lower (codes "spec")
          || (has_prefix lower (codes "roadmap/")
              || (has_suffix lower (codes ".md")
                  || (has_suffix lower (codes ".txt")
                      || (has_prefix base (codes ".")
                          || (has_suffix lower (codes ".log")
                              || (has_suffix lower (codes ".lock")
                                  || (text_eq base (codes "readme")
                                      || text_eq base (codes "license"))))))))))

unfoldable pub is_mutating_tool : Text → Bool
is_mutating_tool tool = any (text_eq tool) (
    codes "write_file"
    ∷ codes "write_files"
    ∷ codes "edit_file"
    ∷ codes "multi_replace_file_content"
    ∷ codes "apply_patch"
    ∷ codes "delete_file"
    ∷ [])

pub record ToolArgs : Type 0 where
  pub path : Text
  pub files : List (Option Text)

unfoldable pub reset : TaskCircuitBreaker → TaskCircuitBreaker
reset cb = record cb {
  consecutive_test_passes = 0;
  consecutive_test_only_turns = 0;
  consecutive_duplicate_inspections = 0;
  is_tripped = false;
}

abbrev pub is_production_entry : Option Text → Bool
is_production_entry none = false
is_production_entry (some path) = is_production_file path

abbrev pub count_test_only : TaskCircuitBreaker → TaskCircuitBreaker
count_test_only cb = record cb { consecutive_test_only_turns = cb.consecutive_test_only_turns + 1 }

-- A mutating call, after its reset of the duplicate inspections.
unfoldable pub record_mutation : ToolArgs → TaskCircuitBreaker → TaskCircuitBreaker
record_mutation args cb =
    let by_path = if is_production_file args.path then reset cb else count_test_only cb in
    let by_files = if any is_production_entry args.files then reset cb else count_test_only cb in
    if is_empty args.path then elim args.files [ [] ↦ cb | file ∷ files ↦ by_files ] else by_path

unfoldable pub record_action : Text → ToolArgs → TaskCircuitBreaker → TaskCircuitBreaker
record_action tool args cb =
    if is_mutating_tool tool
    then record_mutation args (record cb { consecutive_duplicate_inspections = 0 })
    else cb

unfoldable pub record_test_result : Bool → TaskCircuitBreaker → TaskCircuitBreaker
record_test_result passed cb =
    if passed
    then record cb { consecutive_test_passes = cb.consecutive_test_passes + 1 }
    else record cb { consecutive_test_passes = 0; is_tripped = false }

unfoldable pub record_duplicate_inspection : TaskCircuitBreaker → TaskCircuitBreaker
record_duplicate_inspection cb = record cb {
  consecutive_duplicate_inspections = cb.consecutive_duplicate_inspections + 1;
}

unfoldable pub reset_turn : TaskCircuitBreaker → TaskCircuitBreaker
reset_turn cb = record cb { consecutive_duplicate_inspections = 0 }

-- Whether to warn, and whether to end the turn.
unfoldable pub should_break_read_loop : TaskCircuitBreaker → Bool × Bool
should_break_read_loop cb =
    if leb 5 cb.consecutive_duplicate_inspections
    then (true, true)
    else if leb 3 cb.consecutive_duplicate_inspections
    then (true, false)
    else (false, false)

unfoldable pub should_trip : ℕ → TaskCircuitBreaker → Bool × TaskCircuitBreaker
should_trip task_progress cb =
    if cb.is_tripped
    then (true, cb)
    else if leb 2 cb.consecutive_test_passes
        && (leb 2 cb.consecutive_test_only_turns && leb 70 task_progress)
    then (true, record cb { is_tripped = true })
    else (false, cb)
