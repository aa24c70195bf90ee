-- ===== src/Router/Latency/Demotion.antt =====
-- What `LatencyTracker` (pkg/infrastructure/llm/router_latency_tracker.go) keeps.
use mathlib.Core.List.{Perm}
use mathlib.Core.List.Perm
use noctifab.Prelude.{
  ℕ, zero, suc, ◌+◌, ◌≤◌, ◌≡◌, refl, ap, Bool, true, false, ◌&&◌, ◌||◌, List, [], ◌∷◌, Option,
  arith, leb, ltb, if◌then◌else◌, length, Bool-cases, ◌⊎◌, inl, inr, All,
}
use noctifab.Prelude.Text.{Text, text_eq_iff, text_eq, is_empty}
use noctifab.Prelude.Maps.{insert}
use noctifab.Router.Latency.{
  RouterCandidate, CandidateLatencyStats, LatencyTracker, CallError, stats_or_new, penalize,
  relieve, update_stats, record_outcome, is_timeout_or_canceled, is_none, get_penalty_score, sink,
  keep_first, demote_from, apply_dynamic_demotion,
}

sink-Perm : (n : ℕ) (c : RouterCandidate) (cs : List RouterCandidate) → Perm (sink n c cs) (c ∷ cs)
unfolding sink
sink-Perm zero c cs = Perm.refl (c ∷ cs)
sink-Perm (suc n) c [] = Perm.refl (c ∷ [])
sink-Perm (suc n) c (d ∷ cs) = Perm.trans (Perm.cons d (sink-Perm n c cs)) (Perm.swap c d cs)

keep_first-Perm :
    (rest : List RouterCandidate → List RouterCandidate) (cs : List RouterCandidate)
    → ((ds : List RouterCandidate) → Perm (rest ds) ds)
    → Perm (keep_first rest cs) cs
unfolding keep_first
keep_first-Perm rest [] h = Perm.refl []
keep_first-Perm rest (c ∷ cs) h = Perm.cons c (h cs)

demote_from-Perm :
    (lt : LatencyTracker) (places : ℕ) (processed : Text → Bool) (cs : List RouterCandidate)
    → Perm (demote_from lt places processed cs) cs
unfolding demote_from
demote_from-Perm lt zero processed cs = Perm.refl cs
demote_from-Perm lt (suc places) processed [] = Perm.refl []
demote_from-Perm lt (suc places) processed (c ∷ cs) = elim (Bool-cases (processed c.name)) [
  | inl old ↦ rw old (Perm.cons c (demote_from-Perm lt places processed cs))
  | inr new ↦ rw new (
      Perm.trans
        (keep_first-Perm (demote_from lt places (insert c.name true processed))
          (sink (get_penalty_score c.name lt) c cs)
          (λ ds. demote_from-Perm lt places (insert c.name true processed) ds))
        (sink-Perm (get_penalty_score c.name lt) c cs))
]

-- Demotion only changes the order of the candidates: none is lost and none appears twice.
pub apply_dynamic_demotion-Perm :
    (lt : LatencyTracker) (candidates : List RouterCandidate)
    → Perm (apply_dynamic_demotion lt candidates) candidates
unfolding apply_dynamic_demotion
apply_dynamic_demotion-Perm lt candidates = elim (Bool-cases (leb (length candidates) 1)) [
  | inl short ↦ rw short (Perm.refl candidates)
  | inr long ↦ rw long (demote_from-Perm lt (length candidates) (λ name. false) candidates)
]

demote_from-unpenalized :
    (lt : LatencyTracker) (places : ℕ) (processed : Text → Bool) (cs : List RouterCandidate)
    → All (λ c. get_penalty_score c.name lt ≡ 0) cs
    → demote_from lt places processed cs ≡ cs
unfolding demote_from sink keep_first
demote_from-unpenalized lt zero processed cs h = refl
demote_from-unpenalized lt (suc places) processed [] h = refl
demote_from-unpenalized lt (suc places) processed (c ∷ cs) h =
    elim (Bool-cases (processed c.name)) [
      | inl old ↦ rw (old, demote_from-unpenalized lt places processed cs h.1)
      | inr new ↦
          rw (new, h.0, demote_from-unpenalized lt places (insert c.name true processed) cs h.1)
    ]

-- Candidates without a penalty keep their order.
pub apply_dynamic_demotion-unpenalized :
    (lt : LatencyTracker) (candidates : List RouterCandidate)
    → All (λ c. get_penalty_score c.name lt ≡ 0) candidates
    → apply_dynamic_demotion lt candidates ≡ candidates
unfolding apply_dynamic_demotion
apply_dynamic_demotion-unpenalized lt candidates h =
    ground (arith, demote_from-unpenalized lt (length candidates) (λ name. false) candidates h)

-- An update moves a penalty by at most 1, and not above 3.
abbrev Moved : ℕ → ℕ → Type 0
Moved old new = (new ≤ 3) × (new ≤ old + 1) × (old ≤ new + 1)

relieve-Moved :
    (duration : ℕ) (s : CandidateLatencyStats)
    → s.penalty_score ≤ 3
    → Moved s.penalty_score (relieve duration s).penalty_score
unfolding relieve
relieve-Moved duration s h = (ground arith, ground arith, ground arith)

penalize-Moved :
    (s : CandidateLatencyStats)
    → s.penalty_score ≤ 3
    → Moved s.penalty_score (penalize s).penalty_score
unfolding penalize
penalize-Moved s h = (ground arith, ground arith, ground arith)

update_stats-Moved :
    (duration : ℕ) (failure : Option CallError) (timeout_threshold now : ℕ)
    (s : CandidateLatencyStats)
    → s.penalty_score ≤ 3
    → Moved s.penalty_score (update_stats duration failure timeout_threshold now s).penalty_score
unfolding update_stats
update_stats-Moved duration failure timeout_threshold now s h =
    let seen : CandidateLatencyStats = record s { last_duration = duration; last_updated = now } in
    elim (Bool-cases (
      is_timeout_or_canceled failure
      || (ltb 0 timeout_threshold && leb timeout_threshold duration))) [
        | inl late ↦ rw late (penalize-Moved seen h)
        | inr timely ↦ elim (Bool-cases (is_none failure)) [
          | inl fine ↦ rw (timely, fine) (relieve-Moved duration seen h)
          | inr failed ↦ rw (timely, failed) ((h, omega arith, omega arith))
        ]
      ]

record_outcome-score :
    (name other : Text) (duration : ℕ) (failure : Option CallError) (timeout_threshold now : ℕ)
    (lt : LatencyTracker)
    → is_empty name ≡ false
    → get_penalty_score other (record_outcome name duration failure timeout_threshold now lt) ≡ (
        if text_eq name other
        then (update_stats duration failure timeout_threshold now
            (stats_or_new (lt.stats name))).penalty_score
        else get_penalty_score other lt)
unfolding record_outcome get_penalty_score
record_outcome-score name other duration failure timeout_threshold now lt named =
    rw named (elim (Bool-cases (text_eq name other)) [
      | inl own ↦ rw (own, get_penalty_score)
      | inr foreign ↦ rw (foreign, get_penalty_score)
    ])

record_outcome-unnamed :
    (name : Text) (duration : ℕ) (failure : Option CallError) (timeout_threshold now : ℕ)
    (lt : LatencyTracker)
    → is_empty name ≡ true
    → record_outcome name duration failure timeout_threshold now lt ≡ lt
unfolding record_outcome
record_outcome-unnamed name duration failure timeout_threshold now lt unnamed = rw unnamed

-- A penalty of at most 3 is at most 3 after an outcome and has moved by at most 1, and it has not moved
-- unless the outcome is that of its candidate.
pub record_outcome_lem :
    (name other : Text) (duration : ℕ) (failure : Option CallError) (timeout_threshold now : ℕ)
    (lt : LatencyTracker)
    → get_penalty_score other lt ≤ 3
    → let lt' = record_outcome name duration failure timeout_threshold now lt in
      (get_penalty_score other lt' ≤ 3)
      × (get_penalty_score other lt' ≤ get_penalty_score other lt + 1)
      × (get_penalty_score other lt ≤ get_penalty_score other lt' + 1)
      × ((name ≡ other) ⊎ (get_penalty_score other lt' ≡ get_penalty_score other lt))
record_outcome_lem name other duration failure timeout_threshold now lt h =
    elim (Bool-cases (is_empty name)) [
      | inl unnamed ↦
          rw (record_outcome-unnamed name duration failure timeout_threshold now lt unnamed)
            (h, omega arith, omega arith, inr refl)
      | inr named ↦
          let score =
            record_outcome-score name other duration failure timeout_threshold now lt named in
          elim (Bool-cases (text_eq name other)) [
            | inl own ↦
                let same = (text_eq_iff name other).0 own in
                let before : (stats_or_new (lt.stats name)).penalty_score
                    ≡ get_penalty_score other lt =
                  unfold get_penalty_score in
                  ap (λ (k : Text). (stats_or_new (lt.stats k)).penalty_score) same in
                let (top, up, down) =
                  update_stats-Moved duration failure timeout_threshold now
                    (stats_or_new (lt.stats name)) (omega (arith, before, h)) in
                rw (score, own)
                  (top, omega (arith, up, before), omega (arith, down, before), inl same)
            | inr foreign ↦ rw (score, foreign) (h, omega arith, omega arith, inr refl)
          ]
    ]
