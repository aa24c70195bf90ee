-- ===== src/Examples/Routes.antt =====
-- The model router (pkg/infrastructure/llm) and the escalation of tasks (pkg/services/task_escalator.go) at
-- concrete inputs.
use mathlib.Core.List.{Memᴰ, Perm}
use noctifab.Prelude.{
  ℕ, ◌+◌, ◌-◌, ◌≤◌, ◌≡◌, ◌⊎◌, refl, true, List, [], ◌∷◌, none, some, arith, All, if◌then◌else◌,
}
use noctifab.Prelude.Text.{Text, codes, text_eq}
use noctifab.Prelude.Maps.{Map}
use noctifab.Domain.Task.{Task}
use noctifab.Router.Latency.{
  RouterCandidate, LatencyTracker, new_latency_tracker, no_stats, get_penalty_score, record_outcome,
  sink, keep_first, demote_from, apply_dynamic_demotion,
}
use noctifab.Router.Latency.Demotion.{apply_dynamic_demotion-Perm, record_outcome_lem}
use noctifab.Router.Cooldown.{time_or_zero, get_shortest_cooldown_candidate}
use noctifab.Router.Cooldown.Shortest.{get_shortest_cooldown_candidate-least}
use noctifab.Escalation.{ProgressiveTaskEscalator, split_task}
use noctifab.Escalation.Split.{all_files, IsChained, IsChild, split_task_lem}
use noctifab.Examples.Plans.{setup_task}

abbrev candidate : Text → RouterCandidate
candidate name = record { name = name; provider = []; model = []; context_window = 0 }

abbrev pair : List RouterCandidate
pair = candidate (codes "fast") ∷ candidate (codes "slow") ∷ []

abbrev slow_first : LatencyTracker
slow_first = record {
  stats = λ name.
      if text_eq name (codes "fast") then some (record no_stats { penalty_score = 1 }) else none;
}

apply_dynamic_demotion-Perm_example : Perm (apply_dynamic_demotion slow_first pair) pair
apply_dynamic_demotion-Perm_example = apply_dynamic_demotion-Perm slow_first pair

penalized_goes_second :
    apply_dynamic_demotion slow_first pair
    ≡ candidate (codes "slow") ∷ candidate (codes "fast") ∷ []
unfolding apply_dynamic_demotion demote_from keep_first sink get_penalty_score text_eq
penalized_goes_second = refl

record_outcome_lem_example :
    let lt' = record_outcome (codes "slow") 70 none 60 1 new_latency_tracker in
    (get_penalty_score (codes "slow") lt' ≤ 3)
    × (get_penalty_score (codes "slow") lt'
        ≤ get_penalty_score (codes "slow") new_latency_tracker + 1)
    × (get_penalty_score (codes "slow") new_latency_tracker
        ≤ get_penalty_score (codes "slow") lt' + 1)
    × ((codes "slow" ≡ codes "slow")
        ⊎ (get_penalty_score (codes "slow") lt'
            ≡ get_penalty_score (codes "slow") new_latency_tracker))
record_outcome_lem_example =
    record_outcome_lem (codes "slow") (codes "slow") 70 none 60 1 new_latency_tracker low
  where
    low : get_penalty_score (codes "slow") new_latency_tracker ≤ 3
    low = unfold get_penalty_score in omega arith

abbrev big_task : Task
big_task = record setup_task {
  target_files = codes "a" ∷ codes "b" ∷ codes "c" ∷ codes "d" ∷ [];
  retries = 5;
}

split_task_lem_example :
    (all_files (split_task big_task) ≡ codes "a" ∷ codes "b" ∷ codes "c" ∷ codes "d" ∷ [])
    × IsChained [] (split_task big_task)
    × All (IsChild big_task) (split_task big_task)
split_task_lem_example = split_task_lem big_task

-- At most three upgrades, with two models.
abbrev escalator : ProgressiveTaskEscalator
escalator = record {
  cfg = record {
    enabled = true;
    thinking_threshold_turns = 0;
    model_upgrade_threshold_turns = 0;
    max_model_upgrades = 3;
    split_on_max_upgrades = none;
    clean_worktree_on_escalate = none;
    upgraded_models = [];
  };
  available_upgraded_models = codes "large" ∷ codes "larger" ∷ [];
}

abbrev cooling : Map ℕ
cooling name = if text_eq name (codes "fast") then some 90 else some 70

get_shortest_cooldown_candidate-least_example :
    (c : RouterCandidate) × (rem : ℕ) × (get_shortest_cooldown_candidate 50 cooling pair
      ≡ some (c, rem))
    × Memᴰ c pair
    × (rem ≡ time_or_zero (cooling c.name) - 50)
    × All (λ d. rem ≤ time_or_zero (cooling d.name) - 50) pair
get_shortest_cooldown_candidate-least_example =
    get_shortest_cooldown_candidate-least 50 cooling (candidate (codes "fast"))
      (candidate (codes "slow") ∷ [])
