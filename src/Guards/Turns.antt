-- ===== src/Guards/Turns.antt =====
-- The turn budget and the last checks of a repair: pkg/services/adaptive_turn_manager.go and
-- pkg/services/zero_mutation_guard.go. Turns, limits and counts of passed tests are natural numbers; a
-- number of failures that is negative is `none`. Messages have no field.
use noctifab.Prelude.{
  ℕ, ◌<◌, ◌≡◌, Bool, true, false, not, ◌&&◌, List, [], ◌∷◌, Option, none, some, arith, leb, ltb,
  ◌==◌, if◌then◌else◌, length,
}
use noctifab.Prelude.Text.{Text, is_empty, trim_space}
use noctifab.Prelude.Results.{Result, ok, err}

pub record AdaptiveTurnManager : Type 0 where
  pub min_turns : ℕ
  pub max_extensions : ℕ

abbrev pub limit_or_three : List ℕ → ℕ
limit_or_three [] = 3
limit_or_three (limit ∷ limits) = if ltb 0 limit then limit else 3

abbrev pub new_adaptive_turn_manager : List ℕ → AdaptiveTurnManager
new_adaptive_turn_manager max_extensions = record {
  min_turns = 2;
  max_extensions = limit_or_three max_extensions;
}

unfoldable pub enforce_min_turns : AdaptiveTurnManager → ℕ → ℕ
enforce_min_turns m configured_turns =
    if ltb configured_turns m.min_turns then m.min_turns else configured_turns

-- `prev > 0 && curr >= 0 && curr < prev`.
abbrev pub failures_decreased : Option ℕ → Option ℕ → Bool
failures_decreased none curr = false
failures_decreased (some prev) none = false
failures_decreased (some prev) (some curr) = ltb 0 prev && ltb curr prev

abbrev pub still_failing : Option ℕ → Bool
still_failing none = false
still_failing (some curr) = ltb 0 curr

unfoldable pub should_grant_extension : AdaptiveTurnManager → (prev curr : Option ℕ) → ℕ → Bool
should_grant_extension m prev_failures curr_failures extensions_used =
    if leb m.max_extensions extensions_used
    then false
    else failures_decreased prev_failures curr_failures

unfoldable pub should_grant_progress_extension :
    AdaptiveTurnManager → (prev curr : Option ℕ) → (prev_passed curr_passed : ℕ) → ℕ → Bool
should_grant_progress_extension m prev_failures curr_failures prev_passed curr_passed
      extensions_used =
    if leb m.max_extensions extensions_used
    then false
    else if failures_decreased prev_failures curr_failures
    then true
    else if ltb prev_passed curr_passed && still_failing curr_failures
    then true
    else false

pub data MutationError : Type 0 where
  zero_mutation no_tests tests_failed contracts_failed : MutationError

unfoldable pub validate_git_mutation :
    (working_tree committed : Text) → Result MutationError (Unit {0})
validate_git_mutation working_tree_diff committed_diff =
    let has_working_tree_changes = not (is_empty (trim_space working_tree_diff)) in
    let has_committed_changes = not (is_empty (trim_space committed_diff)) in
    if not has_working_tree_changes && not has_committed_changes then err zero_mutation else ok tt

-- A number of tests that is not positive is 0.
unfoldable pub validate_test_metrics : (total failing : ℕ) → Result MutationError (Unit {0})
validate_test_metrics total_tests failed_tests =
    if total_tests == 0
    then err no_tests
    else if ltb 0 failed_tests
    then err tests_failed
    else ok tt

unfoldable pub validate_acceptance_contracts : ℕ → List Text → Result MutationError (Unit {0})
validate_acceptance_contracts executed_contracts failures =
    if ltb 0 (length failures) then err contracts_failed else ok tt

-- An extension that fewer failures earn is granted by both rules, whatever the numbers of passed tests,
-- and only while fewer extensions than the limit are used.
pub should_grant_extension-progress :
    (m : AdaptiveTurnManager) (prev curr : Option ℕ) (prev_passed curr_passed used : ℕ)
    → should_grant_extension m prev curr used ≡ true
    → (should_grant_progress_extension m prev curr prev_passed curr_passed used ≡ true)
      × (used < m.max_extensions)
unfolding should_grant_extension should_grant_progress_extension
should_grant_extension-progress m prev curr prev_passed curr_passed used h =
    (ground arith, ground arith)
