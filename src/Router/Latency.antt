-- ===== src/Router/Latency.antt =====
-- Candidates that time out lose their place: `LatencyTracker` of
-- pkg/infrastructure/llm/router_latency_tracker.go. Durations and times are numbers of nanoseconds, and a
-- threshold that is not positive is 0. The client of a candidate, which is only passed along, has no field.
-- Each method holds the mutex and is one step. `Demotion` proves what the methods keep.
use noctifab.Prelude.{
  ℕ, zero, suc, ◌+◌, ◌-◌, ◌*◌, Bool, true, false, not, ◌&&◌, ◌||◌, List, [], ◌∷◌, Option, none,
  some, leb, ltb, ◌==◌, if◌then◌else◌, length,
}
use noctifab.Prelude.Text.{Text, codes, is_empty, to_lower, contains}
use noctifab.Prelude.Maps.{Map, insert, empty_map}
pub mod Demotion

pub record RouterCandidate : Type 0 where
  pub name : Text
  pub provider : Text
  pub model : Text
  pub context_window : ℕ

pub record CandidateLatencyStats : Type 0 where
  pub consecutive_timeouts : ℕ
  pub total_timeouts : ℕ
  pub total_successes : ℕ
  pub last_duration : ℕ
  pub penalty_score : ℕ
  pub last_updated : ℕ

abbrev pub no_stats : CandidateLatencyStats
no_stats = record {
  consecutive_timeouts = 0;
  total_timeouts = 0;
  total_successes = 0;
  last_duration = 0;
  penalty_score = 0;
  last_updated = 0;
}

pub record LatencyTracker : Type 0 where
  pub stats : Map CandidateLatencyStats

abbrev pub new_latency_tracker : LatencyTracker
new_latency_tracker = record { stats = empty_map }

-- An error, with whether it wraps the deadline or the cancellation of a context.
pub record CallError : Type 0 where
  pub is_context_error : Bool
  pub message : Text

unfoldable pub is_timeout_or_canceled : Option CallError → Bool
is_timeout_or_canceled none = false
is_timeout_or_canceled (some e) =
    let msg = to_lower e.message in
    e.is_context_error
    || (contains msg (codes "context deadline exceeded")
        || (contains msg (codes "context canceled")
            || (contains msg (codes "timeout") || contains msg (codes "timed out"))))

abbrev pub second : ℕ
second = 1000000000

unfoldable pub penalize : CandidateLatencyStats → CandidateLatencyStats
penalize s = record s {
  consecutive_timeouts = s.consecutive_timeouts + 1;
  total_timeouts = s.total_timeouts + 1;
  penalty_score = if ltb 3 (s.penalty_score + 1) then 3 else s.penalty_score + 1;
}

unfoldable pub relieve : ℕ → CandidateLatencyStats → CandidateLatencyStats
relieve duration s = record s {
  total_successes = s.total_successes + 1;
  consecutive_timeouts = 0;
  penalty_score =
      if ltb (60 * second) duration
      then (if ltb s.penalty_score 1 then 1 else s.penalty_score)
      else if ltb duration (25 * second)
      then (if ltb 0 s.penalty_score then s.penalty_score - 1 else s.penalty_score)
      else s.penalty_score;
}

abbrev pub is_none : Option CallError → Bool
is_none none = true
is_none (some e) = false

abbrev pub stats_or_new : Option CandidateLatencyStats → CandidateLatencyStats
stats_or_new none = no_stats
stats_or_new (some s) = s

unfoldable pub update_stats :
    ℕ → Option CallError → ℕ → ℕ → CandidateLatencyStats → CandidateLatencyStats
update_stats duration failure timeout_threshold now s =
    let seen = record s { last_duration = duration; last_updated = now } in
    if is_timeout_or_canceled failure || (ltb 0 timeout_threshold && leb timeout_threshold duration)
    then penalize seen
    else if is_none failure
    then relieve duration seen
    else seen

unfoldable pub record_outcome :
    Text → ℕ → Option CallError → ℕ → ℕ → LatencyTracker → LatencyTracker
record_outcome name duration failure timeout_threshold now lt =
    if is_empty name then lt else record lt {
      stats =
          insert name
            (some
              (update_stats duration failure timeout_threshold now (stats_or_new (lt.stats name))))
            lt.stats;
    }

unfoldable pub get_penalty_score : Text → LatencyTracker → ℕ
get_penalty_score name lt = (stats_or_new (lt.stats name)).penalty_score

unfoldable pub get_consecutive_timeouts : Text → LatencyTracker → ℕ
get_consecutive_timeouts name lt = (stats_or_new (lt.stats name)).consecutive_timeouts

-- The first candidate, moved back by the number of places, or to the end.
unfoldable pub sink : ℕ → RouterCandidate → List RouterCandidate → List RouterCandidate
sink zero c cs = c ∷ cs
sink (suc n) c [] = c ∷ []
sink (suc n) c (d ∷ cs) = d ∷ sink n c cs

-- The place `i` is decided: the loop goes on behind it.
unfoldable pub keep_first :
    (List RouterCandidate → List RouterCandidate) → List RouterCandidate → List RouterCandidate
keep_first rest [] = []
keep_first rest (c ∷ cs) = c ∷ rest cs

-- The loop over the places, on the candidates that are not passed yet; `places` is their number.
unfoldable pub demote_from :
    LatencyTracker → ℕ → (Text → Bool) → List RouterCandidate → List RouterCandidate
demote_from lt zero processed cs = cs
demote_from lt (suc places) processed [] = []
demote_from lt (suc places) processed (c ∷ cs) =
    if processed c.name
    then c ∷ demote_from lt places processed cs
    else keep_first (demote_from lt places (insert c.name true processed))
        (sink (get_penalty_score c.name lt) c cs)

unfoldable pub apply_dynamic_demotion : LatencyTracker → List RouterCandidate → List RouterCandidate
apply_dynamic_demotion lt candidates =
    if leb (length candidates) 1
    then candidates
    else demote_from lt (length candidates) (λ name. false) candidates
