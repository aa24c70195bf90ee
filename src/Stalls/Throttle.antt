-- ===== src/Stalls/Throttle.antt =====
-- A stall is put to the model at most once in each cooldown (pkg/services/fallback_detect.go).
use noctifab.Prelude.{
  ℕ, ◌-◌, ◌<◌, ◌≡◌, ◌∙◌, All, true, false, List, [], ◌∷◌, some, refl, arith, inl, inr, Bool-cases,
  map,
}
use noctifab.Prelude.Text.{Text, elem, text_eq, text_eq_iff}
use noctifab.Prelude.Maps.{Map, insert}
use noctifab.Domain.State.{State}
use noctifab.Stalls.Detect.{StalledTask, FallbackAgent}
use noctifab.Stalls.Assess.{
  stall_cooldown_key, current_keys, assessment_cooldown, prune_assessed, is_recent, fresh_stalls,
  filter_stalls_for_llm_assessment,
}

abbrev pub keys : List StalledTask → List Text
keys = map (λ s. stall_cooldown_key s.task)

module _ (now cooldown : ℕ) (k : Text) where
  -- What was assessed within the cooldown is not assessed again, and keeps its time.
  fresh_stalls-recent :
      (assessed : Map ℕ) (stalls : List StalledTask)
      → is_recent now cooldown (assessed k) ≡ true
      → (elem k (keys (fresh_stalls now cooldown assessed stalls).fresh) ≡ false)
        × ((fresh_stalls now cooldown assessed stalls).assessed_at k ≡ assessed k)
  unfolding fresh_stalls elem
  fresh_stalls-recent assessed [] recent = (refl, refl)
  fresh_stalls-recent assessed (s ∷ stalls) recent =
      let key = stall_cooldown_key s.task in
      elim (Bool-cases (is_recent now cooldown (assessed key))) [
        | inl skip ↦ rw skip (fresh_stalls-recent assessed stalls recent)
        | inr takes ↦ elim (Bool-cases (text_eq key k)) [
          | inl same ↦
              let here : key ≡ k = (text_eq_iff key k).0 same in
              absurd (ground (arith, rw here at takes, recent))
          | inr other ↦
              let rest =
                fresh_stalls-recent (insert key (some now) assessed) stalls (rw other recent) in
              rw (takes, other, rest.0) (refl, rw other at rest.1)
        ]
      ]

  -- What is assessed now is marked with the time.
  fresh_stalls-marked :
      (assessed : Map ℕ) (stalls : List StalledTask)
      → 0 < cooldown
      → elem k (keys (fresh_stalls now cooldown assessed stalls).fresh) ≡ true
      → (fresh_stalls now cooldown assessed stalls).assessed_at k ≡ some now
  unfolding fresh_stalls elem
  fresh_stalls-marked assessed [] positive m = cc
  fresh_stalls-marked assessed (s ∷ stalls) positive m =
      let key = stall_cooldown_key s.task in
      elim (Bool-cases (is_recent now cooldown (assessed key))) [
        | inl skip ↦ rw skip (fresh_stalls-marked assessed stalls positive (rw skip at m))
        | inr takes ↦ elim (Bool-cases (text_eq key k)) [
          | inl same ↦
              let marked = insert key (some now) assessed in
              let recent : is_recent now cooldown (marked k) ≡ true = rw same (ground arith) in
              let rest = fresh_stalls-recent marked stalls recent in rw takes (rw same at rest.1)
          | inr other ↦ rw takes (
              fresh_stalls-marked (insert key (some now) assessed) stalls positive
                (ground (arith, rw (takes, other) at m)))
        ]
      ]

-- The arguments of one call, and the time that it reads.
pub record FilterCall : Type 0 where
  pub now : ℕ
  pub state : State
  pub stalls : List StalledTask

-- The stalls that each of some calls returns, the first call first.
unfoldable pub returned : List FilterCall → FallbackAgent → List (List StalledTask)
unfolding filter_stalls_for_llm_assessment
returned [] u = []
returned (c ∷ calls) u =
    let r = filter_stalls_for_llm_assessment c.now c.state c.stalls u in
    r.stalls ∷ returned calls r.agent

-- A call within the cooldown of a time, at which the task of the key still has the status of the key.
pub record IsSoon (cooldown now : ℕ) (k : Text) (c : FilterCall) : Type 0 where
  pub within : c.now - now < cooldown
  pub current : elem k (current_keys c.state.tasks) ≡ true

-- A mark of the time keeps the stall out of every such call, since none of them takes the mark away.
marked-throttled :
    (now : ℕ) (k : Text) (calls : List FilterCall) (u : FallbackAgent)
    → u.llm_assessed_at k ≡ some now
    → All (IsSoon (assessment_cooldown u) now k) calls
    → All (λ stalls. elem k (keys stalls) ≡ false) (returned calls u)
unfolding returned filter_stalls_for_llm_assessment
marked-throttled now k [] u marked soon = tt
marked-throttled now k (c ∷ calls) u marked (here, later) =
    let assessed = prune_assessed (current_keys c.state.tasks) u.llm_assessed_at in
    let kept : assessed k ≡ some now = rw (here.current, marked) refl in
    let recent : is_recent c.now (assessment_cooldown u) (assessed k) ≡ true =
      rw kept (ground (arith, here.within)) in
    let (out, same) =
      fresh_stalls-recent c.now (assessment_cooldown u) k assessed c.stalls recent in
    (
      out,
      marked-throttled now k calls (filter_stalls_for_llm_assessment c.now c.state c.stalls u).agent
          (same ∙ kept) later,
    )

-- A stall that is returned for assessment is not returned again by any of the calls that follow, as long as they are
-- within the cooldown (5 minutes where none is set) and its task has the same status at each of them.
pub filter_stalls_for_llm_assessment-throttled :
    (c : FilterCall) (calls : List FilterCall) (u : FallbackAgent) (k : Text)
    → elem k (keys (filter_stalls_for_llm_assessment c.now c.state c.stalls u).stalls) ≡ true
    → All (IsSoon (assessment_cooldown u) c.now k) calls
    → All
        (λ stalls. elem k (keys stalls) ≡ false)
        (returned calls (filter_stalls_for_llm_assessment c.now c.state c.stalls u).agent)
unfolding filter_stalls_for_llm_assessment
filter_stalls_for_llm_assessment-throttled c calls u k taken soon =
    let cooldown = assessment_cooldown u in
    let assessed = prune_assessed (current_keys c.state.tasks) u.llm_assessed_at in
    let positive : 0 < cooldown = ground arith in
    marked-throttled c.now k calls (filter_stalls_for_llm_assessment c.now c.state c.stalls u).agent
      (fresh_stalls-marked c.now cooldown k assessed c.stalls positive taken) soon
