-- ===== src/Guards/Regression/Watermark.antt =====
-- What the baseline of pkg/services/regression_barrier_guard.go has after the calls of a guard.
use noctifab.Prelude.{
  ℕ, ◌≡◌, ◌↔◌, refl, Bool, true, false, not, ◌&&◌, ◌||◌, List, [], ◌∷◌, Option, none, some, arith,
  inl, inr, Bool-cases,
}
use noctifab.Prelude.Text.{Text, text_eq, text_eq_iff, text_eq_self, elem}
use noctifab.Guards.Regression.{
  set_baseline, reset, RegressionBarrierViolation, RegressionBarrierGuard,
  new_regression_barrier_guard, add_tests, test_set, insert_sorted, regressed, violation_of,
  advance, update_and_check,
}

-- The calls that change a guard.
pub data BarrierCall : Type 0 where
  checked : (turn : ℕ) → (current_passing : List Text) → BarrierCall
  baseline_set : (turn : ℕ) → (passing : List Text) → BarrierCall
  cleared : BarrierCall

-- The guard after some calls, the latest one first.
unfoldable pub barrier_after : List BarrierCall → RegressionBarrierGuard
unfolding new_regression_barrier_guard update_and_check set_baseline reset
barrier_after [] = new_regression_barrier_guard
barrier_after (checked turn current_passing ∷ calls) =
    (update_and_check turn current_passing (barrier_after calls)).guard
barrier_after (baseline_set turn passing ∷ calls) = set_baseline turn passing (barrier_after calls)
barrier_after (cleared ∷ calls) = reset (barrier_after calls)

abbrev is_none : Option RegressionBarrierViolation → Bool
is_none none = true
is_none (some v) = false

-- The check was accepted: it found no regression.
abbrev pub is_accepted : ℕ → List Text → List BarrierCall → Bool
is_accepted turn current_passing calls =
    is_none (update_and_check turn current_passing (barrier_after calls)).violation

-- The test is in the baseline that was last set, or passed in a check that has been accepted since. A guard
-- that is cleared has an empty baseline.
unfoldable pub passed_before : Text → List BarrierCall → Bool
unfolding update_and_check barrier_after test_set elem
passed_before k [] = false
passed_before k (checked turn current_passing ∷ calls) =
    is_accepted turn current_passing calls && elem k (test_set current_passing)
    || passed_before k calls
passed_before k (baseline_set turn passing ∷ calls) = elem k (test_set passing)
passed_before k (cleared ∷ calls) = false

elem-add_tests :
    (k : Text) (set ks : List Text) → elem k (add_tests set ks) ≡ (elem k set || elem k ks)
unfolding add_tests elem
elem-add_tests k set [] = ground arith
elem-add_tests k set (x ∷ xs) = elim (Bool-cases (elem x set)) [
  | inl has ↦ rw has (ground (arith, elem-add_tests k set xs, known (text_eq_iff x k) has))
  | inr new ↦ rw new (ground (arith, elem-add_tests k (x ∷ set) xs))
]
  where
    known :
        (text_eq x k ≡ true) ↔ (x ≡ k)
        → elem x set ≡ true
        → (text_eq x k && not (elem k set)) ≡ false
    known same has = elim (Bool-cases (text_eq x k)) [
      | inl equal ↦ let here : x ≡ k = same.0 equal in ground (arith, rw here at has)
      | inr other ↦ rw other
    ]

elem-insert_sorted :
    (k x : Text) (xs : List Text) → elem k (insert_sorted x xs) ≡ (text_eq x k || elem k xs)
unfolding insert_sorted elem
elem-insert_sorted k x [] = refl
elem-insert_sorted k x (y ∷ ys) = ground (arith, elem-insert_sorted k x ys)

elem-regressed :
    (k : Text) (current ks : List Text)
    → elem k (regressed current ks) ≡ (elem k ks && not (elem k current))
unfolding regressed elem
elem-regressed k current [] = refl
elem-regressed k current (x ∷ xs) = elim (Bool-cases (text_eq x k)) [
  | inl same ↦
      let here : x ≡ k = (text_eq_iff x k).0 same in
      rw (same, here)
        (ground (
          arith,
          elem-regressed k current xs,
          elem-insert_sorted k k (regressed current xs),
          rw here at same,
        ))
  | inr other ↦
      ground
        (arith, other, elem-regressed k current xs, elem-insert_sorted k x (regressed current xs))
]

-- What a call makes of the baseline, for each outcome of the comparison.
elem-advance :
    (k : Text) (turn : ℕ) (current lost : List Text) (g : RegressionBarrierGuard)
    → elem k (advance turn current lost g).passing_tests
      ≡ (is_none (violation_of turn current lost g) && elem k current || elem k g.passing_tests)
elem-advance k turn current [] g = ground (arith, elem-add_tests k g.passing_tests current)
elem-advance k turn current (x ∷ xs) g = refl

elem-barrier_after :
    (k : Text) (calls : List BarrierCall)
    → elem k (barrier_after calls).passing_tests ≡ passed_before k calls
unfolding barrier_after new_regression_barrier_guard update_and_check set_baseline reset
    passed_before elem
elem-barrier_after k [] = refl
elem-barrier_after k (checked turn current_passing ∷ calls) =
    let g = barrier_after calls in
    let current = test_set current_passing in
    rw (
      elem-advance k turn current (regressed current g.passing_tests) g,
      elem-barrier_after k calls,
    )
elem-barrier_after k (baseline_set turn passing ∷ calls) = refl
elem-barrier_after k (cleared ∷ calls) = refl

none_lost :
    (turn : ℕ) (current lost : List Text) (g : RegressionBarrierGuard)
    → violation_of turn current lost g ≡ none
    → (k : Text) → elem k lost ≡ false
unfolding elem
none_lost turn current [] g e k = refl
none_lost turn current (x ∷ xs) g e k = cc

nothing_lost :
    (turn : ℕ) (current lost : List Text) (g : RegressionBarrierGuard)
    → ((k : Text) → elem k lost ≡ false)
    → violation_of turn current lost g ≡ none
unfolding elem
nothing_lost turn current [] g h = refl
nothing_lost turn current (x ∷ xs) g h = absurd (ground (arith, h x, text_eq_self x))

-- After any calls of `UpdateAndCheck`, `SetBaseline` and `Reset`, a check is accepted exactly if every test passes
-- now that is in the baseline last set, or passed in a check accepted since then.
pub update_and_check-watermark :
    (calls : List BarrierCall) (turn : ℕ) (current_passing : List Text)
    → ((update_and_check turn current_passing (barrier_after calls)).violation ≡ none)
      ↔ ((k : Text) → passed_before k calls ≡ true → elem k (test_set current_passing) ≡ true)
unfolding update_and_check
update_and_check-watermark calls turn current_passing =
    let g = barrier_after calls in
    let current = test_set current_passing in
    let lost = regressed current g.passing_tests in
    (
      λ accepted k before. ground (
        arith,
        none_lost turn current lost g accepted k,
        elem-regressed k current g.passing_tests,
        elem-barrier_after k calls,
        before,
      ),
      λ all_pass. nothing_lost turn current lost g (λ k. ground (
        arith,
        elem-regressed k current g.passing_tests,
        elem-barrier_after k calls,
        all_pass k,
      )),
    )
