-- ===== src/Examples/Actions.antt =====
-- The action log (pkg/domain/action_log.go) of a state, with an action whose result is short.
use noctifab.Prelude.{◌≤◌, ◌<◌, ◌+◌, ◌≡◌, ◌⊎◌, true, List, [], ◌∷◌, ◌++◌, length}
use noctifab.Prelude.Text.{Text, codes}
use noctifab.Domain.State.{Action}
use noctifab.Domain.Actions.{
  truncate_action_result, truncation_marker, truncate_action_result_lem, logged, append_action,
  append_action_lem,
}
use noctifab.Examples.Selections.{state}

abbrev tests_run : Action
tests_run = record {
  id = [];
  timestamp = 7;
  tool = codes "run_tests";
  args = [];
  reasoning = [];
  result = codes "passed";
  success = true;
}

truncate_action_result_lem_example :
    (length (truncate_action_result (codes "passed")) ≤ 4000)
    × (((length (codes "passed") ≤ 4000)
          × (truncate_action_result (codes "passed") ≡ codes "passed"))
        ⊎ ((4000 < length (codes "passed"))
            × ((dropped kept : Text) × (dropped ++ kept ≡ codes "passed")
                × (truncate_action_result (codes "passed") ≡ truncation_marker ++ kept)
                × (length kept + length truncation_marker ≡ 4000))))
truncate_action_result_lem_example = truncate_action_result_lem (codes "passed")

append_action_lem_example :
    (length (append_action (codes "x") state tests_run).last_actions ≤ 200)
    × ((dropped : List Action) × (dropped
            ++ (append_action (codes "x") state tests_run).last_actions
          ≡ logged (codes "x") tests_run ∷ [])
        × (length dropped + length (append_action (codes "x") state tests_run).last_actions
            ≡ length (logged (codes "x") tests_run ∷ []))
        × ((dropped ≡ [])
            ⊎ (length (append_action (codes "x") state tests_run).last_actions ≡ 200)))
append_action_lem_example = append_action_lem (codes "x") state tests_run
