-- ===== src/Guards/Diffs.antt =====
-- The guard against states that come back: pkg/services/diff_oscillation_guard.go. The SHA-256 digest of a text
-- is the argument `digest_of`; turns are natural numbers, and a window of 0 stands for every unbounded one.
use noctifab.Prelude.{
  ℕ, ◌+◌, Bool, false, not, ◌&&◌, List, [], ◌∷◌, ◌++◌, Option, none, some, leb, ltb, ◌==◌,
  if◌then◌else◌, length, drop,
}
use noctifab.Prelude.Text.{Text, text_eq}
use noctifab.Prelude.Maps.{Map, insert, empty_map}

pub record DiffOscillationViolation : Type 0 where
  pub current_turn : ℕ
  pub previous_turn : ℕ
  pub state_digest : Text

pub record DiffOscillationGuard : Type 0 where
  pub history : Map ℕ
  pub turn_history : List Text
  pub max_window : ℕ

unfoldable pub new_diff_oscillation_guard : ℕ → DiffOscillationGuard
new_diff_oscillation_guard max_window = record {
  history = empty_map;
  turn_history = [];
  max_window = max_window;
}

abbrev pub seen_at_other_turn : Option ℕ → ℕ → Bool
seen_at_other_turn none turn = false
seen_at_other_turn (some prev) turn = not (prev == turn)

abbrev turn_or_zero : Option ℕ → ℕ
turn_or_zero none = 0
turn_or_zero (some turn) = turn

abbrev first_or_empty : List Text → Text
first_or_empty [] = []
first_or_empty (d ∷ ds) = d

abbrev forget : Text → Map ℕ → Map ℕ
forget k m j = if text_eq k j then none else m j

-- The end of a call that records its state.
unfoldable pub prune_history : ℕ → DiffOscillationGuard → DiffOscillationGuard
unfolding text_eq
prune_history turn g =
    let oldest = first_or_empty g.turn_history in
    if ltb 0 g.max_window && ltb g.max_window (length g.turn_history)
    then record g {
      turn_history = drop 1 g.turn_history;
      history =
          if leb (turn_or_zero (g.history oldest) + g.max_window) turn
          then forget oldest g.history
          else g.history;
    }
    else g

pub record Checked : Type 0 where
  pub violation : Option DiffOscillationViolation
  pub guard : DiffOscillationGuard

unfoldable pub record_and_check : (Text → Text) → ℕ → Text → DiffOscillationGuard → Checked
unfolding text_eq prune_history
record_and_check digest_of turn diff_content g =
    let digest = digest_of diff_content in
    if seen_at_other_turn (g.history digest) turn
    then record {
      violation = some (record {
        current_turn = turn;
        previous_turn = turn_or_zero (g.history digest);
        state_digest = digest;
      });
      guard = g;
    }
    else record {
      violation = none;
      guard = prune_history turn (record g {
        history = insert digest (some turn) g.history;
        turn_history = g.turn_history ++ digest ∷ [];
      });
    }

unfoldable pub reset : DiffOscillationGuard → DiffOscillationGuard
reset g = record g { history = empty_map; turn_history = [] }

-- One call of `RecordAndCheck`.
pub record DiffCall : Type 0 where
  pub turn : ℕ
  pub diff_content : Text

-- The guard without a window after some calls, the latest one first.
unfoldable pub guard_after : (Text → Text) → List DiffCall → DiffOscillationGuard
unfolding new_diff_oscillation_guard record_and_check
guard_after digest_of [] = new_diff_oscillation_guard 0
guard_after digest_of (c ∷ calls) =
    (record_and_check digest_of c.turn c.diff_content (guard_after digest_of calls)).guard

abbrev or_turn : Option ℕ → Option ℕ → Option ℕ
or_turn none o = o
or_turn (some turn) o = some turn

-- The turn of the first call with the digest.
unfoldable pub first_turn : (Text → Text) → Text → List DiffCall → Option ℕ
unfolding text_eq
first_turn digest_of digest [] = none
first_turn digest_of digest (c ∷ calls) =
    or_turn (first_turn digest_of digest calls)
      (if text_eq (digest_of c.diff_content) digest then some c.turn else none)

abbrev pub expected_violation : Option ℕ → ℕ → Text → Option DiffOscillationViolation
expected_violation none turn digest = none
expected_violation (some first) turn digest =
    if first == turn
    then none
    else some (record { current_turn = turn; previous_turn = first; state_digest = digest })
