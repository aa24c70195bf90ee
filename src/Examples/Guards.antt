-- ===== src/Examples/Guards.antt =====
-- The guards of the repair loop at concrete inputs: a small buffer, a failure that comes back, and a
-- breaker that trips.
use noctifab.Prelude.{
  ℕ, ◌+◌, ◌≤◌, ◌<◌, ◌≡◌, ◌<◌, ◌≢◌, ◌↔◌, ◌⊎◌, refl, true, false, List, [], ◌∷◌, arith, length, none,
  keep_last, any,
}
use noctifab.Prelude.Text.{Text, codes, elem, text_eq, has_prefix, has_suffix, contains, trim_space}
use noctifab.Story.Ids.{base_name}
use noctifab.Guards.Regression.{test_set, update_and_check}
use noctifab.Guards.Regression.Watermark.{
  BarrierCall, checked, baseline_set, barrier_after, passed_before, update_and_check-watermark,
}
use noctifab.Guards.Buffer.{new_bounded_buffer, write, write_all, write_all_lem}
use noctifab.Guards.Oscillation.{
  FailureState, OscillationCircuitBreaker, new_oscillation_circuit_breaker, continue, reconcile,
  record_failure, record_all, find_cycle, match_at, remember, decide,
}
use noctifab.Guards.Oscillation.Verdicts.{OscillatesAt, record_failure_iff}
use noctifab.Guards.Oscillation.Limits.{IsWithin, reconciles, record_all_lem}
use noctifab.Guards.Breaker.{
  record_test_result, record_action, record_mutation, reset, clean_path, join_path, clean_parts,
  split_path, new_task_circuit_breaker, ToolArgs, should_trip, is_mutating_tool, is_production_file,
}
use noctifab.Guards.Breaker.Edits.{
  step, Event, acted, tested, run, is_production_edit, test_passes, other_edits, should_trip-run,
}

-- The latest call comes first: test c is no more in the baseline, which is a, and a and b pass then.
abbrev barrier_calls : List BarrierCall
barrier_calls =
    checked 3 (codes "b" ∷ codes "a" ∷ [])
    ∷ baseline_set 2 (codes "a" ∷ [])
    ∷ checked 1 (codes "c" ∷ [])
    ∷ []

update_and_check-watermark_example :
    ((update_and_check 4 (codes "b" ∷ []) (barrier_after barrier_calls)).violation ≡ none) ↔ (
      (k : Text) → passed_before k barrier_calls ≡ true → elem k (test_set (codes "b" ∷ [])) ≡ true)
update_and_check-watermark_example = update_and_check-watermark barrier_calls 4 (codes "b" ∷ [])

write_all_lem_example :
    let b = write_all (codes "abc" ∷ codes "de" ∷ []) (new_bounded_buffer 4) in
    (b.buf ≡ keep_last b.max (codes "abcde"))
    × (length b.buf ≤ b.max)
    × ((b.truncated ≡ false) ⊎ (b.max < length (codes "abcde")))
write_all_lem_example = write_all_lem 4 (codes "abc" ∷ codes "de" ∷ [])

-- A chunk of just the maximum replaces the bytes before it, and the buffer is not marked.
full_chunk_is_unmarked :
    (write_all (codes "a" ∷ codes "xyz" ∷ []) (new_bounded_buffer 3)).truncated ≡ false
unfolding write_all write new_bounded_buffer
full_chunk_is_unmarked = refl

-- The hash of a log is the log.
abbrev same : Text → Text × Text
same log = (log, log)

abbrev failure : ℕ → Text → FailureState
failure turn log = record { turn = turn; hash = log; summary = log }

abbrev swinging : OscillationCircuitBreaker
swinging = record new_oscillation_circuit_breaker {
  history = failure 1 (codes "a") ∷ failure 2 (codes "b") ∷ [];
}

record_failure_iff_example :
    ((record_failure same 3 (codes "a") swinging).0.action ≢ continue)
    ↔ ((p : ℕ) × (2 ≤ p) × (p ≤ 4) × (p ≤ 2) × OscillatesAt swinging.history (codes "a") p)
record_failure_iff_example = record_failure_iff same 3 (codes "a") swinging

swing_is_reconciled : (record_failure same 3 (codes "a") swinging).0.action ≡ reconcile
unfolding record_failure find_cycle match_at remember decide any text_eq
swing_is_reconciled = refl

abbrev swings : List (ℕ × Text)
swings = (3, codes "a") ∷ (4, codes "b") ∷ []

record_all_lem_example :
    let (ds, cb') = record_all same swings swinging in
    IsWithin cb' × (cb'.reconciliations_count ≡ reconciles ds + 0) × (cb'.max_reconciliations ≡ 1)
record_all_lem_example =
    record_all_lem same swings swinging (record { window = omega arith; tries = omega arith })

abbrev edit_of : Text → ToolArgs
edit_of path = record { path = path; files = [] }

abbrev cosmetic : List Event
cosmetic =
    acted (codes "edit_file") (edit_of (codes "a_test.go"))
    ∷ tested true
    ∷ acted (codes "edit_file") (edit_of (codes "a_test.go"))
    ∷ tested true
    ∷ []

should_trip-run_example : (2 ≤ test_passes cosmetic) × (2 ≤ other_edits cosmetic)
unfolding is_production_edit is_mutating_tool any text_eq is_production_file contains clean_path
    trim_space join_path clean_parts split_path has_suffix base_name should_trip run step
    record_test_result record_action record_mutation reset has_prefix
should_trip-run_example =
    should_trip-run (tested false ∷ []) cosmetic (codes "edit_file") (edit_of (codes "a.go")) 80
      production trips
  where
    production : is_production_edit (codes "edit_file") (edit_of (codes "a.go")) ≡ true
    production = refl

    trips :
        (should_trip 80 (
          run
            (tested false ∷ acted (codes "edit_file") (edit_of (codes "a.go")) ∷ cosmetic)
            new_task_circuit_breaker)).0
        ≡ true
    trips = refl
