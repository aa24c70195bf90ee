-- ===== src/Guards/Oscillation/Verdicts.antt =====
-- What the decisions of pkg/services/oscillation_circuit_breaker.go detect, and how many there are.
use mathlib.Core.List.{Memᴰ}
use noctifab.Prelude.{
  ℕ, zero, suc, ◌+◌, ◌-◌, ◌≤◌, ◌<◌, ◌≡◌, ◌≢◌, ◌↔◌, refl, true, List, Option, none, some, arith, leb,
  ltb, any-Mem, any_of_Mem, length, get_elem?, drop, Bool-cases, Option-cases, inl, inr, ◌==◌,
}
use noctifab.Prelude.Text.{Text, text_eq, text_eq_iff}
use noctifab.Guards.Oscillation.{
  continue, FailureState, OscillationCircuitBreaker, differs, is_cycle, match_at, find_cycle,
  remember, decide, record_failure,
}

-- The state `p` records back has the hash, and a state recorded after it has another one.
pub record OscillatesAt (history : List FailureState) (hash : Text) (p : ℕ) : Type 0 where
  pub earlier : FailureState
  pub found : get_elem? history (length history - p) ≡ some earlier
  pub returned : earlier.hash ≡ hash
  pub between : FailureState
  pub later : Memᴰ between (drop (length history - p + 1) history)
  pub different : between.hash ≢ hash

match_at→OscillatesAt :
    (history : List FailureState) (hash : Text) (p : ℕ) (prev : FailureState)
    → match_at history hash p ≡ some prev
    → OscillatesAt history hash p
unfolding match_at
match_at→OscillatesAt history hash p prev e =
    elim (Option-cases (get_elem? history (length history - p))) [
      | inl missing ↦ cc (rw (missing, match_at) at e)
      | inr (s, found) ↦ elim (Bool-cases (is_cycle history hash p s)) [
        | inl cycle ↦
            let (b, m, d) =
              any-Mem (differs hash) (drop (length history - p + 1) history) (ground arith) in
            record {
              earlier = s;
              found = found;
              returned = ground (arith, text_eq_iff s.hash hash);
              between = b;
              later = m;
              different = ground (arith, text_eq_iff b.hash hash);
            }
        | inr no_cycle ↦ cc (rw (found, no_cycle, match_at) at e)
      ]
    ]

OscillatesAt→match_at :
    (history : List FailureState) (hash : Text) (p : ℕ)
    → OscillatesAt history hash p
    → match_at history hash p ≢ none
unfolding match_at
OscillatesAt→match_at history hash p o none_found =
    let other : differs hash o.between ≡ true =
      ground (arith, text_eq_iff o.between.hash hash, o.different) in
    let changed = any_of_Mem (differs hash) (drop (length history - p + 1) history) o.later other in
    let back : text_eq o.earlier.hash hash ≡ true =
      (text_eq_iff o.earlier.hash hash).1 o.returned in
    cc (rw (o.found, back, changed, match_at) at none_found)

find_cycle-some :
    (steps p : ℕ) (history : List FailureState) (hash : Text) (q : ℕ) (prev : FailureState)
    → find_cycle steps p history hash ≡ some (q, prev)
    → (p ≤ q) × (q < p + steps) × (q ≤ length history) × (match_at history hash q ≡ some prev)
unfolding find_cycle
find_cycle-some zero p history hash q prev e = cc
find_cycle-some (suc steps) p history hash q prev e = elim (Bool-cases (leb p (length history))) [
  | inr over ↦ cc (rw (over, find_cycle) at e)
  | inl within ↦ elim (Option-cases (match_at history hash p)) [
    | inl miss ↦
        let ih =
          find_cycle-some steps (p + 1) history hash q prev (rw (within, miss, find_cycle) at e) in
        (omega (arith, ih.0), omega (arith, ih.1), ih.2, ih.3)
    | inr (s, hit) ↦
        let here : ◌≡◌ {A = Option (ℕ × FailureState)} (some (p, s)) (some (q, prev)) =
          rw (within, hit, find_cycle) at e in
        let pq : p ≡ q = cc in
        let sp : s ≡ prev = cc in
        (omega (arith, pq), omega (arith, pq), ground (arith, pq), rw (← pq, ← sp) hit)
  ]
]

find_cycle-none :
    (steps p : ℕ) (history : List FailureState) (hash : Text) (q : ℕ)
    → find_cycle steps p history hash ≡ none
    → p ≤ q
    → q < p + steps
    → q ≤ length history
    → match_at history hash q ≡ none
unfolding find_cycle
find_cycle-none zero p history hash q e low high len = absurd (omega arith)
find_cycle-none (suc steps) p history hash q e low high len =
    let within : leb p (length history) ≡ true = ground arith in
    elim (Option-cases (match_at history hash p)) [
      | inr (s, hit) ↦ cc (rw (within, hit, find_cycle) at e)
      | inl miss ↦ elim (Bool-cases (p == q)) [
        | inl same ↦ let eq : p ≡ q = ground arith in rw (← eq) miss
        | inr other ↦
            find_cycle-none steps (p + 1) history hash q (rw (within, miss, find_cycle) at e)
              (ground arith) (omega arith) len
      ]
    ]

decide-continue :
    (n : ℕ) (found : Option (ℕ × FailureState)) (cb : OscillationCircuitBreaker)
    → ((decide n found cb).0.action ≡ continue) ↔ (found ≡ none)
unfolding decide
decide-continue n none cb = (λ e. refl, λ e. refl)
decide-continue n (some (p, prev)) cb =
    elim (Bool-cases (ltb cb.reconciliations_count cb.max_reconciliations)) [
      | inl first ↦ (λ e. cc (rw (first, decide) at e), λ e. cc)
      | inr again ↦ (λ e. cc (rw (again, decide) at e), λ e. cc)
    ]

-- A failure is not simply passed over exactly if, for a period from 2 to the largest one, the failure
-- that many records back has its hash and a failure after that one has another hash.
pub record_failure_iff :
    (fingerprint : Text → Text × Text) (turn : ℕ) (failure_log : Text)
    (cb : OscillationCircuitBreaker)
    → ((record_failure fingerprint turn failure_log cb).0.action ≢ continue) ↔ (
        (p : ℕ) × (2 ≤ p)
        × (p ≤ cb.max_cycle_period)
        × (p ≤ length cb.history)
        × OscillatesAt cb.history (fingerprint failure_log).0 p)
unfolding record_failure
record_failure_iff fingerprint turn failure_log cb = (detected, not_passed_over)
  where
    cycle : Option (ℕ × FailureState)
    cycle = find_cycle (cb.max_cycle_period - 1) 2 cb.history (fingerprint failure_log).0

    after : OscillationCircuitBreaker
    after =
        remember
          (record {
            turn = turn;
            hash = (fingerprint failure_log).0;
            summary = (fingerprint failure_log).1;
          })
          cb

    detected :
        (decide (length cb.history) cycle after).0.action ≢ continue
        → (p : ℕ) × (2 ≤ p)
          × (p ≤ cb.max_cycle_period)
          × (p ≤ length cb.history)
          × OscillatesAt cb.history (fingerprint failure_log).0 p
    detected ne = elim (Option-cases cycle) [
      | inl no_cycle ↦ absurd (ne ((decide-continue (length cb.history) cycle after).1 no_cycle))
      | inr ((p, prev), e) ↦
          let (low, high, len, hit) =
            find_cycle-some (cb.max_cycle_period - 1) 2 cb.history (fingerprint failure_log).0 p
              prev e in
          (
            p,
            low,
            omega (arith, low, high),
            len,
            match_at→OscillatesAt cb.history (fingerprint failure_log).0 p prev hit,
          )
    ]

    not_passed_over :
        (p : ℕ) × (2 ≤ p)
          × (p ≤ cb.max_cycle_period)
          × (p ≤ length cb.history)
          × OscillatesAt cb.history (fingerprint failure_log).0 p
        → (decide (length cb.history) cycle after).0.action ≢ continue
    not_passed_over (p, low, high, len, o) e =
        OscillatesAt→match_at cb.history (fingerprint failure_log).0 p o (
          find_cycle-none (cb.max_cycle_period - 1) 2 cb.history (fingerprint failure_log).0 p
            ((decide-continue (length cb.history) cycle after).0 e) low (omega (arith, low, high))
            len)
