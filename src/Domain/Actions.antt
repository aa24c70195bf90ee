-- ===== src/Domain/Actions.antt =====
-- The bounded log of actions: pkg/domain/action_log.go. Lengths are in bytes, as in Go, and the fresh
-- identifier that `uuid` makes is an argument. The state is not nil.
use noctifab.Prelude.{
  ℕ, ◌+◌, ◌-◌, ◌≤◌, ◌<◌, ◌≡◌, sym, List, [], ◌∷◌, ◌++◌, arith, leb, leb→le, ltb, if◌then◌else◌,
  length, length-append, length-drop, drop, take, ap, keep_last, length-keep_last, keep_last-all,
  take-append-drop, Bool-cases, ◌⊎◌, inl, inr, ◌∙◌,
}
use noctifab.Prelude.Text.{Text, codes, is_empty}
use noctifab.Domain.State.{Action, State}

abbrev pub max_last_actions : ℕ
max_last_actions = 200

abbrev pub max_action_result_chars : ℕ
max_action_result_chars = 4000

-- "…[truncated]" in UTF-8.
abbrev pub truncation_marker : Text
truncation_marker = 226 ∷ 128 ∷ 166 ∷ codes "[truncated]"

unfoldable pub truncate_action_result : Text → Text
truncate_action_result result =
    let keep = max_action_result_chars - length truncation_marker in
    if leb (length result) max_action_result_chars
    then result
    else truncation_marker ++ drop (length result - keep) result

-- The last entries of a log, at most as many as the cap.
unfoldable pub cap_actions : List Action → List Action
cap_actions actions =
    if ltb max_last_actions (length actions)
    then drop (length actions - max_last_actions) actions
    else actions

abbrev pub logged : Text → Action → Action
logged fresh_id action = record action {
  id = if is_empty action.id then fresh_id else action.id;
  result = truncate_action_result action.result;
}

unfoldable pub append_action : Text → State → Action → State
append_action fresh_id state action = record state {
  last_actions = cap_actions (state.last_actions ++ logged fresh_id action ∷ []);
}

-- A stored result has at most 4000 bytes. The text is unchanged, or it is longer than that and is
-- replaced by the marker and its end, of the length that fills the 4000 bytes.
pub truncate_action_result_lem :
    (result : Text)
    → (length (truncate_action_result result) ≤ max_action_result_chars)
      × (((length result ≤ max_action_result_chars) × (truncate_action_result result ≡ result))
          ⊎ ((max_action_result_chars < length result)
              × ((dropped kept : Text) × (dropped ++ kept ≡ result)
                  × (truncate_action_result result ≡ truncation_marker ++ kept)
                  × (length kept + length truncation_marker ≡ max_action_result_chars))))
unfolding truncate_action_result
truncate_action_result_lem result = (
  ground (arith, len),
  elim (Bool-cases (leb (length result) max_action_result_chars)) [
    | inl fits ↦ inl (leb→le _ _ fits, ground arith)
    | inr over ↦ inr (ground arith, long (ground arith))
  ],
)
  where
    len :
        length (truncation_marker ++ drop (length result - 3986) result)
        ≡ 14 + (length result - (length result - 3986))
    len = omega (
      arith,
      length-append {0} truncation_marker (drop (length result - 3986) result),
      length-drop {0} (length result - 3986) result,
    )

    long :
        max_action_result_chars < length result
        → (dropped kept : Text) × (dropped ++ kept ≡ result)
          × (truncate_action_result result ≡ truncation_marker ++ kept)
          × (length kept + length truncation_marker ≡ max_action_result_chars)
    long h = (
      take (length result - 3986) result,
      drop (length result - 3986) result,
      take-append-drop (length result - 3986) result,
      ground arith,
      omega (arith, length-drop {0} (length result - 3986) result),
    )

cap_actions-eq-keep_last : (log : List Action) → cap_actions log ≡ keep_last max_last_actions log
unfolding cap_actions
cap_actions-eq-keep_last log = elim (Bool-cases (ltb max_last_actions (length log))) [
  | inl over ↦ rw over
  | inr fits ↦ rw fits (sym (keep_last-all max_last_actions log (ground arith)))
]

cap_actions_lem :
    (log : List Action)
    → (length (cap_actions log) ≤ max_last_actions)
      × ((dropped : List Action) × (dropped ++ cap_actions log ≡ log)
          × (length dropped + length (cap_actions log) ≡ length log)
          × ((dropped ≡ []) ⊎ (length (cap_actions log) ≡ max_last_actions)))
cap_actions_lem log = rw (cap_actions-eq-keep_last log) (
  length-keep_last 200 log,
  (
    take (length log - 200) log,
    take-append-drop (length log - 200) log,
    sizes,
    elim (Bool-cases (leb (length log) 200)) [
      | inl fits ↦ let none_over : length log - 200 ≡ 0 = ground arith in inl (rw none_over)
      | inr over ↦ inr (ground (arith, length-drop (length log - 200) log))
    ],
  ),
)
  where
    sizes : length (take (length log - 200) log) + length (keep_last 200 log) ≡ length log
    sizes =
        sym (length-append (take (length log - 200) log) (keep_last 200 log))
        ∙ ap length (take-append-drop (length log - 200) log)

-- After an action is appended the log has at most 200 entries: it is the end of the old log with the
-- new entry behind it, less the entries dropped from its front, which are none unless 200 remain.
pub append_action_lem :
    (fresh_id : Text) (state : State) (action : Action)
    → let log = (append_action fresh_id state action).last_actions in
      let full = state.last_actions ++ logged fresh_id action ∷ [] in
      (length log ≤ max_last_actions)
      × ((dropped : List Action) × (dropped ++ log ≡ full)
          × (length dropped + length log ≡ length full)
          × ((dropped ≡ []) ⊎ (length log ≡ max_last_actions)))
unfolding append_action
append_action_lem fresh_id state action =
    cap_actions_lem (state.last_actions ++ logged fresh_id action ∷ [])
