-- ===== src/Guards/Oscillation/Limits.antt =====
-- How far the breaker of pkg/services/oscillation_circuit_breaker.go goes over a whole repair loop.
use noctifab.Prelude.{
  ℕ, ◌+◌, ◌-◌, ◌≤◌, ◌≡◌, refl, ◌∙◌, List, [], ◌∷◌, ◌++◌, Option, none, some, arith, ltb, length,
  length-drop, Bool-cases, inl, inr,
}
use noctifab.Prelude.Text.{Text}
use noctifab.Guards.Oscillation.{
  continue, reconcile, trip, OscillationDecision, FailureState, OscillationCircuitBreaker, remember,
  decide, record_failure, record_all,
}

abbrev pub weight : OscillationDecision → ℕ
weight d = elim d.action [ continue ↦ 0 | reconcile ↦ 1 | trip ↦ 0 ]

-- How many of the decisions ask for a reconciliation.
unfoldable pub reconciles : List OscillationDecision → ℕ
reconciles [] = 0
reconciles (d ∷ ds) = weight d + reconciles ds

-- The limits that a breaker is created with, and what it holds within them.
pub record IsWithin (cb : OscillationCircuitBreaker) : Type 0 where
  pub window : length cb.history ≤ cb.max_window
  pub tries : cb.reconciliations_count ≤ cb.max_reconciliations

length-remember :
    (s : FailureState) (cb : OscillationCircuitBreaker)
    → length (remember s cb).history ≤ cb.max_window
unfolding remember
length-remember s cb =
    ground
      (arith, length-drop (length (cb.history ++ s ∷ []) - cb.max_window) (cb.history ++ s ∷ []))

-- One decision keeps the window, and counts a reconciliation exactly if it asks for one.
decide_lem :
    (n : ℕ) (found : Option (ℕ × FailureState)) (cb : OscillationCircuitBreaker)
    → IsWithin cb
    → let (d, cb') = decide n found cb in
      IsWithin cb'
      × (cb'.reconciliations_count ≡ weight d + cb.reconciliations_count)
      × (cb'.max_reconciliations ≡ cb.max_reconciliations)
unfolding decide
decide_lem n none cb h = (h, omega arith, refl)
decide_lem n (some (p, prev)) cb h =
    elim (Bool-cases (ltb cb.reconciliations_count cb.max_reconciliations)) [
      | inl first ↦ rw first (record { window = h.window; tries = ground arith }, omega arith, refl)
      | inr again ↦ rw again (h, omega arith, refl)
    ]

record_failure_lem :
    (fingerprint : Text → Text × Text) (turn : ℕ) (failure_log : Text)
    (cb : OscillationCircuitBreaker)
    → IsWithin cb
    → let (d, cb') = record_failure fingerprint turn failure_log cb in
      IsWithin cb'
      × (cb'.reconciliations_count ≡ weight d + cb.reconciliations_count)
      × (cb'.max_reconciliations ≡ cb.max_reconciliations)
unfolding record_failure remember
record_failure_lem fingerprint turn failure_log cb h =
    decide_lem (length cb.history) _ _
      (record { window = unfold remember in length-remember _ cb; tries = h.tries })

-- Over a repair loop the breaker stays within its window and its limit of reconciliations, and its
-- counter grows by the number of decisions that ask for one.
pub record_all_lem :
    (fingerprint : Text → Text × Text) (failures : List (ℕ × Text)) (cb : OscillationCircuitBreaker)
    → IsWithin cb
    → let (ds, cb') = record_all fingerprint failures cb in
      IsWithin cb'
      × (cb'.reconciliations_count ≡ reconciles ds + cb.reconciliations_count)
      × (cb'.max_reconciliations ≡ cb.max_reconciliations)
unfolding record_all reconciles
record_all_lem fingerprint [] cb h = (h, omega arith, refl)
record_all_lem fingerprint ((turn, failure_log) ∷ fs) cb h =
    let (within, count, limit) = record_failure_lem fingerprint turn failure_log cb h in
    let (within', count', limit') =
      record_all_lem fingerprint fs (record_failure fingerprint turn failure_log cb).1 within in
    (within', omega (arith, count, count'), limit' ∙ limit)
