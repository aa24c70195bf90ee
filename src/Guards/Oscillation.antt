-- ===== src/Guards/Oscillation.antt =====
-- The breaker of repair loops that return to an earlier failure: `OscillationCircuitBreaker` of
-- pkg/services/oscillation_circuit_breaker.go. `fingerprint` gives the hash and the summary of a log;
-- the formatted reason and directive of a decision have no field. `Verdicts` proves what
-- is detected, and `Limits` how often it intervenes.
use noctifab.Prelude.{
  ℕ, zero, suc, ◌+◌, ◌-◌, Bool, true, false, not, ◌&&◌, List, [], ◌∷◌, ◌++◌, Option, none, some,
  leb, ltb, if◌then◌else◌, any, length, get_elem?, drop,
}
use noctifab.Prelude.Text.{Text, text_eq}
pub mod Verdicts
pub mod Limits

pub data OscillationAction : Type 0 where
  continue reconcile trip : OscillationAction

pub record OscillationDecision : Type 0 where
  pub action : OscillationAction
  pub period : ℕ
  pub state_a : Text
  pub state_b : Text

pub record FailureState : Type 0 where
  pub turn : ℕ
  pub hash : Text
  pub summary : Text

pub record OscillationCircuitBreaker : Type 0 where
  pub history : List FailureState
  pub max_window : ℕ
  pub reconciliations_count : ℕ
  pub max_reconciliations : ℕ
  pub max_cycle_period : ℕ

abbrev pub new_oscillation_circuit_breaker : OscillationCircuitBreaker
new_oscillation_circuit_breaker = record {
  history = [];
  max_window = 12;
  reconciliations_count = 0;
  max_reconciliations = 1;
  max_cycle_period = 4;
}

abbrev pub differs : Text → FailureState → Bool
differs hash s = not (text_eq s.hash hash)

-- The state `p` records back has the hash, and a state after it has another one.
abbrev pub is_cycle : List FailureState → Text → ℕ → FailureState → Bool
is_cycle history hash p prev =
    text_eq prev.hash hash && any (differs hash) (drop (length history - p + 1) history)

unfoldable pub match_at : List FailureState → Text → ℕ → Option FailureState
match_at history hash p = elim (get_elem? history (length history - p)) [
  | none ↦ none
  | some prev ↦ if is_cycle history hash p prev then some prev else none
]

-- The loop over the periods from `p`, of which `steps` are left.
unfoldable pub find_cycle : ℕ → ℕ → List FailureState → Text → Option (ℕ × FailureState)
find_cycle zero p history hash = none
find_cycle (suc steps) p history hash =
    let rest = find_cycle steps (p + 1) history hash in
    if leb p (length history)
    then elim (match_at history hash p) [ some prev ↦ some (p, prev) | none ↦ rest ]
    else none

abbrev pub summary_of : Option FailureState → Text
summary_of none = []
summary_of (some s) = s.summary

unfoldable pub remember : FailureState → OscillationCircuitBreaker → OscillationCircuitBreaker
remember s cb =
    let grown = cb.history ++ s ∷ [] in
    record cb {
      history =
          if ltb cb.max_window (length grown)
          then drop (length grown - cb.max_window) grown
          else grown;
    }

-- The decision on a detected cycle; `n` is the length of the history before the failure.
unfoldable pub decide :
    ℕ
    → Option (ℕ × FailureState)
    → OscillationCircuitBreaker
    → OscillationDecision × OscillationCircuitBreaker
decide n none cb = (record { action = continue; period = 0; state_a = []; state_b = [] }, cb)
decide n (some (p, prev)) cb =
    let state_b = summary_of (get_elem? cb.history (n - 1)) in
    if ltb cb.reconciliations_count cb.max_reconciliations
    then (
      record { action = reconcile; period = p; state_a = prev.summary; state_b = state_b },
      record cb { reconciliations_count = cb.reconciliations_count + 1 },
    )
    else (record { action = trip; period = p; state_a = prev.summary; state_b = state_b }, cb)

unfoldable pub record_failure :
    (Text → Text × Text)
    → ℕ
    → Text
    → OscillationCircuitBreaker
    → OscillationDecision × OscillationCircuitBreaker
record_failure fingerprint turn failure_log cb =
    let (hash, summary) = fingerprint failure_log in
    decide (length cb.history) (find_cycle (cb.max_cycle_period - 1) 2 cb.history hash)
      (remember (record { turn = turn; hash = hash; summary = summary }) cb)

-- A run of the repair loop: the decisions on its failures, each with its turn.
unfoldable pub record_all :
    (Text → Text × Text)
    → List (ℕ × Text)
    → OscillationCircuitBreaker
    → List OscillationDecision × OscillationCircuitBreaker
record_all fingerprint [] cb = ([], cb)
record_all fingerprint ((turn, failure_log) ∷ fs) cb =
    let (d, cb') = record_failure fingerprint turn failure_log cb in
    let (ds, last) = record_all fingerprint fs cb' in (d ∷ ds, last)
