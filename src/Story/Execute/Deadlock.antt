-- ===== src/Story/Execute/Deadlock.antt =====
-- When `Execute` of pkg/services/story_dag_scheduler.go cannot report a deadlock.
use noctifab.Prelude.{
  ℕ, zero, suc, ◌≤◌, ◌<◌, ◌≡◌, ◌≢◌, refl, Bool, true, false, not, ◌&&◌, List, [], ◌∷◌, Option, none,
  some, arith, if◌then◌else◌, leb, ◌==◌, inl, inr, Bool-cases, Option-cases, All, any-Mem, all,
}
use noctifab.Prelude.Text.{Text, text_eq, text_eq_iff, elem}
use noctifab.Prelude.Maps.{Map}
use noctifab.Story.Graph.{
  StoryNodeStatus, pending, running, success, failed, is_pending, is_running, is_success, is_failed,
  StoryDagNode, StoryDagScheduler, is_present, is_streaming, holds,
}
use noctifab.Story.Execute.{
  looping, deadlocked, Execution, has_status, is_started, is_unfinished, dep_satisfied,
  deps_satisfied, Dispatch, dispatch_one, dispatch_nodes, dispatch_of, all_finished, dispatch_round,
  round, is_none_left, Reach,
}
use noctifab.Story.Execute.Sound.{Sound, holds-present}
use noctifab.Story.Execute.Reached.{Reach-IsSound}
use noctifab.Story.Execute.Listed.{Reach-Listed}

dispatch_nodes-active :
    (pipelined : Bool) (max : ℕ) (ids : List Text) (d : Dispatch)
    → d.active ≤ (dispatch_nodes pipelined max ids d).active
unfolding dispatch_nodes
dispatch_nodes-active pipelined max [] d = omega arith
dispatch_nodes-active pipelined max (id ∷ ids) d =
    elim (Bool-cases (has_status is_pending d.nodes id && leb max d.active)) [
      | inl full ↦ rw full (omega arith)
      | inr free ↦
          elim (Bool-cases
            (has_status is_pending d.nodes id && deps_satisfied pipelined d.nodes id)) [
              | inl starts ↦
                  rw (free, starts)
                    (let rest = dispatch_nodes-active pipelined max ids (dispatch_one id d) in
                      omega arith)
              | inr waits ↦ rw (free, waits) (dispatch_nodes-active pipelined max ids d)
            ]
    ]

-- A loop that starts nothing, though it may, has seen no story that is ready.
dispatch_nodes-none :
    (pipelined : Bool) (max : ℕ) (ids : List Text) (d : Dispatch) (k : Text)
    → d.active < max
    → (dispatch_nodes pipelined max ids d).active ≡ d.active
    → elem k ids ≡ true
    → has_status is_pending d.nodes k ≡ true
    → deps_satisfied pipelined d.nodes k ≡ false
unfolding dispatch_nodes elem
dispatch_nodes-none pipelined max [] d k may same m waits = cc
dispatch_nodes-none pipelined max (id ∷ ids) d k may same m waits =
    let not_full : (has_status is_pending d.nodes id && leb max d.active) ≡ false = ground arith in
    elim (Bool-cases (has_status is_pending d.nodes id && deps_satisfied pipelined d.nodes id)) [
      | inl starts ↦
          let more = dispatch_nodes-active pipelined max ids (dispatch_one id d) in
          let equal = rw (not_full, starts) at same in absurd (omega arith)
      | inr blocked ↦ elim (Bool-cases (text_eq id k)) [
        | inl here ↦
            let e : id ≡ k = (text_eq_iff id k).0 here in ground (arith, rw e at blocked, waits)
        | inr other ↦
            dispatch_nodes-none pipelined max ids d k may (rw (not_full, blocked) at same)
              (ground (arith, m, other)) waits
      ]
    ]

-- Where something waits and nothing runs or has failed, a ready story is found by going down the ranking.
module _ (nodes : Map StoryDagNode) (rank : Text → ℕ) (pipelined : Bool)
    (known : (k : Text) (n : StoryDagNode)
      → nodes k ≡ some n
      → All (λ dep. (is_present (nodes dep) ≡ true) × (rank dep < rank k)) n.depends_on)
    (none_failed : (k : Text) → has_status is_failed nodes k ≡ false)
    (none_runs : (k : Text) → has_status is_running nodes k ≡ false) where
  not_satisfied :
      (o : Option StoryDagNode)
      → is_present o ≡ true
      → holds (λ n. is_failed n.status) o ≡ false
      → holds (λ n. is_running n.status) o ≡ false
      → (if pipelined
          then holds (λ n. is_started n.status) o
          else holds (λ n. is_success n.status) o)
        ≡ false
      → holds (λ n. is_pending n.status) o ≡ true
  not_satisfied none present no_failure not_running h = cc
  not_satisfied (some n) present no_failure not_running h =
      status n.status no_failure not_running (ground (arith, h))
    where
      status :
          (st : StoryNodeStatus)
          → is_failed st ≡ false
          → is_running st ≡ false
          → is_success st ≡ false
          → is_pending st ≡ true
      status pending a b c = refl
      status running a b c = cc
      status success a b c = cc
      status failed a b c = cc

  waiting_dep :
      (k : Text) (deps : List Text)
      → All (λ dep. (is_present (nodes dep) ≡ true) × (rank dep < rank k)) deps
      → all (dep_satisfied pipelined nodes) deps ≡ false
      → (dep : Text) × (has_status is_pending nodes dep ≡ true) × (rank dep < rank k)
  unfolding all
  waiting_dep k [] h blocked = cc
  waiting_dep k (dep ∷ deps) h blocked = elim (Bool-cases (dep_satisfied pipelined nodes dep)) [
    | inl fine ↦ waiting_dep k deps h.1 (ground arith)
    | inr waits ↦
        (dep, not_satisfied (nodes dep) h.0.0 (none_failed dep) (none_runs dep) waits, h.0.1)
  ]

  ready_below :
      (bound : ℕ) (k : Text)
      → rank k < bound
      → has_status is_pending nodes k ≡ true
      → (j : Text) × (has_status is_pending nodes j ≡ true)
        × (deps_satisfied pipelined nodes j ≡ true)
  unfolding deps_satisfied
  ready_below zero k below waits = absurd (omega arith)
  ready_below (suc bound) k below waits = elim (Bool-cases (deps_satisfied pipelined nodes k)) [
    | inl ready ↦ (k, waits, ready)
    | inr blocked ↦ elim (Option-cases (nodes k)) [
      | inl missing ↦ let h = rw missing at waits in cc
      | inr (n, found) ↦
          let (dep, dep_waits, lower) =
            waiting_dep k n.depends_on (known k n found) (rw found at blocked) in
          ready_below bound dep (omega arith) dep_waits
    ]
  ]

none_flies :
    (s : StoryDagScheduler) (max active : ℕ) (in_flight calls : List Text) (k : Text)
    → Sound max s.nodes active in_flight calls
    → active ≡ 0
    → has_status is_running s.nodes k ≡ false
unfolding elem
none_flies s max active [] calls k sound idle = ground (arith, sound.flying k)
none_flies s max active (x ∷ xs) calls k sound idle = absurd (omega (arith, sound.counted))

-- A story that waits, if the turn finds the stories unfinished and no more are to come.
waiting_story :
    (s : StoryDagScheduler)
    → all_finished s ≡ false
    → is_streaming s ≡ false
    → ((k : Text) → has_status is_running s.nodes k ≡ false)
    → (k : Text) × (has_status is_pending s.nodes k ≡ true)
unfolding all_finished
waiting_story s left closed none_runs =
    let (k, m, unfinished) =
      any-Mem (has_status is_unfinished s.nodes) s.story_ids (ground (arith, rw closed at left)) in
    (k, waits (s.nodes k) unfinished (none_runs k))
  where
    waits :
        (o : Option StoryDagNode)
        → holds (λ n. is_unfinished n.status) o ≡ true
        → holds (λ n. is_running n.status) o ≡ false
        → holds (λ n. is_pending n.status) o ≡ true
    waits none u r = u
    waits (some n) u r = ground (arith, u, r)

stuck-absurd :
    (yaml : Text → Option (List Text)) (limit : ℕ) (e : Execution) (rank : Text → ℕ)
    → Reach yaml limit e
    → ((k : Text) (n : StoryDagNode)
        → e.sched.nodes k ≡ some n
        → All (λ dep. (is_present (e.sched.nodes dep) ≡ true) × (rank dep < rank k)) n.depends_on)
    → ((k : Text) → has_status is_failed e.sched.nodes k ≡ false)
    → all_finished e.sched ≡ false
    → is_streaming e.sched ≡ false
    → (dispatch_of e.sched e.active_count).active ≢ 0
stuck-absurd yaml limit e rank reached known none_failed left closed idle =
    let s = e.sched in
    let d : Dispatch = record { nodes = s.nodes; active = e.active_count; dispatched = [] } in
    let (max, sound) = Reach-IsSound yaml limit reached in
    let grows = dispatch_nodes-active s.pipelined s.max_concurrent s.story_ids d in
    let none_active : e.active_count ≡ 0 = grind (arith, idle, grows) in
    let none_runs =
      λ (k : Text). none_flies s _ e.active_count e.in_flight e.calls k sound none_active in
    let (k, waits) = waiting_story s left closed none_runs in
    let (j, j_waits, ready) =
      ready_below s.nodes rank s.pipelined known none_failed none_runs (suc (rank k)) k
        (omega arith) waits in
    let listed = Reach-Listed yaml limit reached j in
    let present = holds-present is_pending (s.nodes j) j_waits in
    let blocked =
      dispatch_nodes-none s.pipelined s.max_concurrent s.story_ids d j
        (ground (arith, max, none_active)) (omega (arith, idle, none_active))
        (ground (arith, listed, present)) j_waits in
    cc

-- A reachable execution in which no story has failed, every dependency is a known story, and the dependencies
-- have no cycle (each has a lower rank), does not come to a deadlock in its next turn.
pub round-no_deadlock :
    (yaml : Text → Option (List Text)) (limit : ℕ) (e : Execution) (rank : Text → ℕ)
    (is_cancelled : Bool) (blocked : List Text)
    → Reach yaml limit e
    → ((k : Text) (n : StoryDagNode)
        → e.sched.nodes k ≡ some n
        → All (λ dep. (is_present (e.sched.nodes dep) ≡ true) × (rank dep < rank k)) n.depends_on)
    → ((k : Text) → has_status is_failed e.sched.nodes k ≡ false)
    → (e.phase ≡ looping)
    → (round is_cancelled e).phase ≢ deadlocked blocked
unfolding round dispatch_round
round-no_deadlock yaml limit e rank is_cancelled blocked reached known none_failed at dead =
    elim (Bool-cases (all_finished e.sched)) [
      | inl done ↦ let h = rw done at dead in cc
      | inr left ↦ elim (Bool-cases is_cancelled) [
        | inl stop ↦ let h = rw (left, stop) at dead in cc
        | inr go ↦
            let d = dispatch_of e.sched e.active_count in
            elim (Bool-cases
              (is_none_left d.dispatched && d.active == 0 && not (is_streaming e.sched))) [
                | inr fine ↦ let h = rw (left, go, fine) at dead in cc
                | inl stuck ↦
                    stuck-absurd yaml limit e rank reached known none_failed left (ground arith)
                      (ground arith)
              ]
      ]
    ]
