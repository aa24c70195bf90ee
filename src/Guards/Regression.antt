-- ===== src/Guards/Regression.antt =====
-- The barrier against regressions: pkg/services/regression_barrier_guard.go. Sets of tests are lists without
-- repetitions, and turns are natural numbers.
use noctifab.Prelude.{
  ℕ, Bool, true, false, not, ◌&&◌, ◌||◌, List, [], ◌∷◌, ◌++◌, Option, none, some, if◌then◌else◌,
  length,
}
use noctifab.Prelude.Text.{Text, is_empty, trim_space, elem}
use noctifab.Story.Graph.{text_lt}
pub mod Watermark

pub record RegressionBarrierViolation : Type 0 where
  pub previous_turn : ℕ
  pub current_turn : ℕ
  pub regressed_tests : List Text
  pub total_baseline : ℕ
  pub total_current : ℕ

pub record RegressionBarrierGuard : Type 0 where
  pub last_turn : ℕ
  pub passing_tests : List Text

unfoldable pub new_regression_barrier_guard : RegressionBarrierGuard
new_regression_barrier_guard = record { last_turn = 0; passing_tests = [] }

-- The tests added to a set.
unfoldable pub add_tests : List Text → List Text → List Text
unfolding elem
add_tests set [] = set
add_tests set (k ∷ ks) = add_tests (if elem k set then set else k ∷ set) ks

-- The names without the white space around them, but for empty ones.
unfoldable pub clean_names : List Text → List Text
unfolding trim_space
clean_names [] = []
clean_names (t ∷ ts) =
    let rest = clean_names ts in if is_empty (trim_space t) then rest else trim_space t ∷ rest

unfoldable pub test_set : List Text → List Text
unfolding add_tests clean_names
test_set names = add_tests [] (clean_names names)

unfoldable pub set_baseline : ℕ → List Text → RegressionBarrierGuard → RegressionBarrierGuard
unfolding test_set
set_baseline turn passing g = record { last_turn = turn; passing_tests = test_set passing }

unfoldable pub insert_sorted : Text → List Text → List Text
unfolding text_lt
insert_sorted k [] = k ∷ []
insert_sorted k (x ∷ xs) =
    let rest = insert_sorted k xs in if text_lt x k then x ∷ rest else k ∷ x ∷ xs

-- The tests of the baseline that are not in the current set, in order.
unfoldable pub regressed : List Text → List Text → List Text
unfolding elem insert_sorted
regressed current [] = []
regressed current (k ∷ ks) =
    let rest = regressed current ks in if elem k current then rest else insert_sorted k rest

abbrev pub violation_of :
    ℕ → List Text → List Text → RegressionBarrierGuard → Option RegressionBarrierViolation
violation_of turn current [] g = none
violation_of turn current (k ∷ ks) g = some (record {
  previous_turn = g.last_turn;
  current_turn = turn;
  regressed_tests = k ∷ ks;
  total_baseline = length g.passing_tests;
  total_current = length current;
})

unfoldable pub check_regression :
    ℕ → List Text → RegressionBarrierGuard → Option RegressionBarrierViolation
unfolding test_set regressed
check_regression turn current_passing g =
    let current = test_set current_passing in
    violation_of turn current (regressed current g.passing_tests) g

abbrev pub advance : ℕ → List Text → List Text → RegressionBarrierGuard → RegressionBarrierGuard
advance turn current [] g = record {
  last_turn = turn;
  passing_tests = add_tests g.passing_tests current;
}
advance turn current (k ∷ ks) g = g

pub record BarrierChecked : Type 0 where
  pub violation : Option RegressionBarrierViolation
  pub guard : RegressionBarrierGuard

unfoldable pub update_and_check : ℕ → List Text → RegressionBarrierGuard → BarrierChecked
unfolding test_set regressed add_tests
update_and_check turn current_passing g =
    let current = test_set current_passing in
    let lost = regressed current g.passing_tests in
    record { violation = violation_of turn current lost g; guard = advance turn current lost g }

unfoldable pub baseline_size : RegressionBarrierGuard → ℕ
baseline_size g = length g.passing_tests

unfoldable pub reset : RegressionBarrierGuard → RegressionBarrierGuard
reset g = record { last_turn = 0; passing_tests = [] }
