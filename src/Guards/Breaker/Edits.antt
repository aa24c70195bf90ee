-- ===== src/Guards/Breaker/Edits.antt =====
-- When `TaskCircuitBreaker` (pkg/services/circuit_breaker.go) trips, over any sequence of its calls.
use noctifab.Prelude.{
  ℕ, ◌+◌, ◌≤◌, ◌≡◌, refl, ap, Bool, true, false, not, ◌&&◌, List, [], ◌∷◌, ◌++◌, Option, arith,
  if◌then◌else◌, any, Bool-cases, ◌⊎◌, inl, inr,
}
use noctifab.Prelude.Text.{Text, is_empty}
use noctifab.Guards.Breaker.{
  TaskCircuitBreaker, new_task_circuit_breaker, is_production_file, is_mutating_tool, ToolArgs,
  reset, is_production_entry, record_mutation, count_test_only, record_action, record_test_result,
  record_duplicate_inspection, reset_turn, should_trip,
}

-- The calls that change a breaker.
pub data Event : Type 0 where
  acted : Text → ToolArgs → Event
  tested : Bool → Event
  inspected : Event
  turned : Event
  asked : ℕ → Event

unfoldable pub step : Event → TaskCircuitBreaker → TaskCircuitBreaker
step (acted tool args) cb = record_action tool args cb
step (tested passed) cb = record_test_result passed cb
step inspected cb = record_duplicate_inspection cb
step turned cb = reset_turn cb
step (asked task_progress) cb = (should_trip task_progress cb).1

unfoldable pub run : List Event → TaskCircuitBreaker → TaskCircuitBreaker
run [] cb = cb
run (e ∷ es) cb = run es (step e cb)

-- The call changes a production file.
unfoldable pub is_production_edit : Text → ToolArgs → Bool
is_production_edit tool args =
    is_mutating_tool tool
    && (if is_empty args.path
        then any is_production_entry args.files
        else is_production_file args.path)

unfoldable pub test_passes : List Event → ℕ
test_passes [] = 0
test_passes (tested true ∷ es) = test_passes es + 1
test_passes (_ ∷ es) = test_passes es

-- The mutating calls that change no production file.
unfoldable pub other_edits : List Event → ℕ
other_edits [] = 0
other_edits (acted tool args ∷ es) =
    if is_mutating_tool tool && not (is_production_edit tool args)
    then other_edits es + 1
    else other_edits es
other_edits (_ ∷ es) = other_edits es

run-append : (es fs : List Event) (cb : TaskCircuitBreaker) → run (es ++ fs) cb ≡ run fs (run es cb)
unfolding run
run-append [] fs cb = refl
run-append (e ∷ es) fs cb = run-append es fs (step e cb)

abbrev touches_production : ToolArgs → Bool
touches_production args =
    if is_empty args.path then any is_production_entry args.files else is_production_file args.path

-- A mutating call resets the breaker, counts an edit or does nothing.
record_mutation-cases :
    (args : ToolArgs) (cb : TaskCircuitBreaker)
    → ((touches_production args ≡ true) × (record_mutation args cb ≡ reset cb))
      ⊎ ((touches_production args ≡ false)
          × ((record_mutation args cb ≡ cb) ⊎ (record_mutation args cb ≡ count_test_only cb)))
unfolding record_mutation
record_mutation-cases args cb = elim (Bool-cases (is_empty args.path)) [
  | inl batch ↦ by_files args.files refl batch
  | inr single ↦ elim (Bool-cases (is_production_file args.path)) [
    | inl yes_prod ↦ inl (rw (single, yes_prod), rw (single, yes_prod))
    | inr no_prod ↦ inr (rw (single, no_prod), inr (rw (single, no_prod)))
  ]
]
  where
    by_files :
        (files : List (Option Text))
        → args.files ≡ files
        → is_empty args.path ≡ true
        → ((touches_production args ≡ true) × (record_mutation args cb ≡ reset cb))
          ⊎ ((touches_production args ≡ false)
              × ((record_mutation args cb ≡ cb) ⊎ (record_mutation args cb ≡ count_test_only cb)))
    by_files [] e batch = inr (rw (batch, e) (unfold any in refl), inl (rw (batch, e)))
    by_files (file ∷ files) e batch = elim (Bool-cases (any is_production_entry args.files)) [
      | inl some_prod ↦ inl (rw (batch, some_prod), rw (batch, e, some_prod))
      | inr no_prod ↦ inr (rw (batch, no_prod), inr (rw (batch, e, no_prod)))
    ]

-- A change of a production file closes the breaker.
step-production :
    (tool : Text) (args : ToolArgs) (cb : TaskCircuitBreaker)
    → is_production_edit tool args ≡ true
    → step (acted tool args) cb ≡ new_task_circuit_breaker
unfolding step record_action is_production_edit reset
step-production tool args cb h =
    let cleared : TaskCircuitBreaker = record cb { consecutive_duplicate_inspections = 0 } in
    elim (record_mutation-cases args cleared) [
      | inl (_, same) ↦
          let mutating : is_mutating_tool tool ≡ true = ground arith in rw mutating same
      | inr (no_prod, _) ↦ absurd (ground arith)
    ]

-- The counters are at most the passes and edits seen, and a tripped breaker has seen two of each.
record Seen (passes edits : ℕ) (cb : TaskCircuitBreaker) : Type 0 where
  passed : cb.consecutive_test_passes ≤ passes
  edited : cb.consecutive_test_only_turns ≤ edits
  tripped : (cb.is_tripped ≡ false) ⊎ ((2 ≤ passes) × (2 ≤ edits))

step-Seen :
    (e : Event) (m n : ℕ) (cb : TaskCircuitBreaker)
    → Seen m n cb
    → Seen (m + test_passes (e ∷ [])) (n + other_edits (e ∷ [])) (step e cb)
unfolding step test_passes other_edits record_action record_test_result record_duplicate_inspection
    reset_turn should_trip reset is_production_edit
step-Seen (acted tool args) m n cb h = elim (Bool-cases (is_mutating_tool tool)) [
  | inr reading ↦ rw reading (record {
    passed = ground (arith, h.passed);
    edited = ground (arith, h.edited);
    tripped = ground (arith, h.tripped);
  })
  | inl mutating ↦
      let cleared : TaskCircuitBreaker = record cb { consecutive_duplicate_inspections = 0 } in
      elim (record_mutation-cases args cleared) [
        | inl (prod, same) ↦
            let act : record_action tool args cb ≡ reset cleared = rw mutating same in
            rw act (record {
              passed = ground (arith, h.passed);
              edited = ground (arith, h.edited);
              tripped = ground (arith, h.tripped);
            })
        | inr (no_prod, inl same) ↦
            let act : record_action tool args cb ≡ cleared = rw mutating same in
            rw act (record {
              passed = ground (arith, h.passed);
              edited = ground (arith, h.edited);
              tripped = ground (arith, h.tripped);
            })
        | inr (no_prod, inr same) ↦
            let act : record_action tool args cb ≡ count_test_only cleared = rw mutating same in
            rw act (record {
              passed = ground (arith, h.passed);
              edited = ground (arith, h.edited);
              tripped = ground (arith, h.tripped);
            })
      ]
]
step-Seen (tested true) m n cb h = record {
  passed = ground (arith, h.passed);
  edited = ground (arith, h.edited);
  tripped = ground (arith, h.tripped);
}
step-Seen (tested false) m n cb h = record {
  passed = ground (arith, h.passed);
  edited = ground (arith, h.edited);
  tripped = ground (arith, h.tripped);
}
step-Seen inspected m n cb h = record {
  passed = ground (arith, h.passed);
  edited = ground (arith, h.edited);
  tripped = ground (arith, h.tripped);
}
step-Seen turned m n cb h = record {
  passed = ground (arith, h.passed);
  edited = ground (arith, h.edited);
  tripped = ground (arith, h.tripped);
}
step-Seen (asked p) m n cb h = record {
  passed = ground (arith, h.passed);
  edited = ground (arith, h.edited);
  tripped = ground (arith, h.tripped, h.passed, h.edited);
}

test_passes-cons :
    (e : Event) (es : List Event) → test_passes (e ∷ es) ≡ test_passes (e ∷ []) + test_passes es
unfolding test_passes
test_passes-cons (acted tool args) es = omega arith
test_passes-cons (tested true) es = omega arith
test_passes-cons (tested false) es = omega arith
test_passes-cons inspected es = omega arith
test_passes-cons turned es = omega arith
test_passes-cons (asked p) es = omega arith

other_edits-cons :
    (e : Event) (es : List Event) → other_edits (e ∷ es) ≡ other_edits (e ∷ []) + other_edits es
unfolding other_edits
other_edits-cons (acted tool args) es = ground arith
other_edits-cons (tested passed) es = omega arith
other_edits-cons inspected es = omega arith
other_edits-cons turned es = omega arith
other_edits-cons (asked p) es = omega arith

run-Seen :
    (es : List Event) (m n : ℕ) (cb : TaskCircuitBreaker)
    → Seen m n cb
    → Seen (m + test_passes es) (n + other_edits es) (run es cb)
unfolding run test_passes other_edits
run-Seen [] m n cb h = record {
  passed = omega (arith, h.passed);
  edited = omega (arith, h.edited);
  tripped = ground (arith, h.tripped);
}
run-Seen (e ∷ es) m n cb h =
    let seen =
      run-Seen es (m + test_passes (e ∷ [])) (n + other_edits (e ∷ [])) (step e cb)
        (step-Seen e m n cb h) in
    let passes = test_passes-cons e es in
    let edits = other_edits-cons e es in
    record {
      passed = omega (arith, seen.passed, passes);
      edited = omega (arith, seen.edited, edits);
      tripped = elim (seen.tripped) [
        | inl closed ↦ inl closed
        | inr both ↦ inr (omega (arith, both.0, passes), omega (arith, both.1, edits))
      ];
    }

trip-Seen :
    (m n task_progress : ℕ) (cb : TaskCircuitBreaker)
    → Seen m n cb
    → (should_trip task_progress cb).0 ≡ true
    → (2 ≤ m) × (2 ≤ n)
unfolding should_trip
trip-Seen m n task_progress cb h trips =
    (ground (arith, h.passed, h.tripped), ground (arith, h.edited, h.tripped))

-- Since the last change of a production file a breaker that trips has seen two passing test results
-- and two mutating calls that change no production file.
pub should_trip-run :
    (es fs : List Event) (tool : Text) (args : ToolArgs) (task_progress : ℕ)
    → is_production_edit tool args ≡ true
    → (should_trip task_progress (run (es ++ acted tool args ∷ fs) new_task_circuit_breaker)).0
      ≡ true
    → (2 ≤ test_passes fs) × (2 ≤ other_edits fs)
should_trip-run es fs tool args task_progress prod trips =
    let (passes, edits) =
      trip-Seen (0 + test_passes fs) (0 + other_edits fs) task_progress
        (run fs new_task_circuit_breaker)
        (run-Seen fs 0 0 new_task_circuit_breaker
          (record { passed = omega arith; edited = omega arith; tripped = inl refl }))
        (rw (run-append es (acted tool args ∷ fs) new_task_circuit_breaker, closed) at trips) in
    (omega (arith, passes), omega (arith, edits))
  where
    closed :
        run (acted tool args ∷ fs) (run es new_task_circuit_breaker)
        ≡ run fs new_task_circuit_breaker
    closed =
        unfold run in ap (run fs) (step-production tool args (run es new_task_circuit_breaker) prod)
