-- ===== src/Story/Execute/Ready.antt =====
-- Which stories a turn of `Execute` (pkg/services/story_dag_scheduler.go) starts.
use noctifab.Prelude.{
  ℕ, ◌≡◌, refl, Bool, true, false, List, [], ◌∷◌, Option, none, some, arith, leb, if◌then◌else◌,
  inl, inr, Bool-cases, Option-cases, all,
}
use noctifab.Prelude.Text.{Text, text_eq, text_eq_iff, elem, elem-append}
use noctifab.Prelude.Maps.{Map}
use noctifab.Story.Graph.{running, is_pending, is_success, StoryDagNode, holds, set_status}
use noctifab.Story.Execute.{
  has_status, is_started, dep_satisfied, deps_satisfied, Dispatch, dispatch_one, dispatch_nodes,
  dispatch_round, Execution, round, all_finished,
}

with_status-running :
    (pipelined : Bool) (o : Option StoryDagNode)
    → holds (λ n. is_pending n.status) o ≡ true
    → (if pipelined then holds (λ n. is_started n.status) o else holds (λ n. is_success n.status) o)
      ≡ false
with_status-running pipelined none waits = cc
with_status-running pipelined (some n) waits = ground (arith, waits)

-- A story that starts keeps what was satisfied so.
dep_satisfied-set_status :
    (pipelined : Bool) (id dep : Text) (nodes : Map StoryDagNode)
    → has_status is_pending nodes id ≡ true
    → dep_satisfied pipelined nodes dep ≡ true
    → dep_satisfied pipelined (set_status running id nodes) dep ≡ true
dep_satisfied-set_status pipelined id dep nodes waits holds_before =
    elim (Bool-cases (text_eq id dep)) [
      | inl same ↦
          let here : id ≡ dep = (text_eq_iff id dep).0 same in
          let never = with_status-running pipelined (nodes dep) (rw (← here) waits) in
          absurd (ground (arith, never, holds_before))
      | inr other ↦ rw other holds_before
    ]

all-dep_satisfied :
    (pipelined : Bool) (id : Text) (nodes : Map StoryDagNode) (deps : List Text)
    → has_status is_pending nodes id ≡ true
    → all (dep_satisfied pipelined nodes) deps ≡ true
    → all (dep_satisfied pipelined (set_status running id nodes)) deps ≡ true
unfolding all
all-dep_satisfied pipelined id nodes [] waits h = refl
all-dep_satisfied pipelined id nodes (dep ∷ deps) waits h = ground (
  arith,
  dep_satisfied-set_status pipelined id dep nodes waits,
  all-dep_satisfied pipelined id nodes deps waits,
)

deps_satisfied-set_status :
    (pipelined : Bool) (id k : Text) (nodes : Map StoryDagNode)
    → has_status is_pending nodes id ≡ true
    → deps_satisfied pipelined nodes k ≡ true
    → deps_satisfied pipelined (set_status running id nodes) k ≡ true
unfolding deps_satisfied
deps_satisfied-set_status pipelined id k nodes waits h = elim (Option-cases (nodes k)) [
  | inl missing ↦ let h' = rw missing at h in cc
  | inr (n, found) ↦
      let before = rw found at h in
      let after = all-dep_satisfied pipelined id nodes n.depends_on waits before in
      elim (Bool-cases (text_eq id k)) [
        | inl same ↦ rw (found, same) after
        | inr other ↦ rw (found, other) after
      ]
]

dispatch_nodes-ready :
    (pipelined : Bool) (max : ℕ) (ids : List Text) (d : Dispatch)
    → ((k : Text) → elem k d.dispatched ≡ true → deps_satisfied pipelined d.nodes k ≡ true)
    → (k : Text) → elem k (dispatch_nodes pipelined max ids d).dispatched ≡ true
    → deps_satisfied pipelined (dispatch_nodes pipelined max ids d).nodes k ≡ true
unfolding dispatch_nodes elem
dispatch_nodes-ready pipelined max [] d ready k m = ready k m
dispatch_nodes-ready pipelined max (id ∷ ids) d ready k m =
    elim (Bool-cases (has_status is_pending d.nodes id)) [
      | inr begun ↦ rw begun (dispatch_nodes-ready pipelined max ids d ready k (rw begun at m))
      | inl waits ↦ elim (Bool-cases (leb max d.active)) [
        | inl full ↦ rw (waits, full) (ready k (rw (waits, full) at m))
        | inr free ↦ elim (Bool-cases (deps_satisfied pipelined d.nodes id)) [
          | inr blocked ↦
              rw (waits, free, blocked)
                (dispatch_nodes-ready pipelined max ids d ready k (rw (waits, free, blocked) at m))
          | inl starts ↦
              let still = λ (j : Text) (listed : elem j (id ∷ d.dispatched) ≡ true).
                deps_satisfied-set_status pipelined id j d.nodes waits
                  (elim (Bool-cases (text_eq id j)) [
                    | inl same ↦ let here : id ≡ j = (text_eq_iff id j).0 same in rw (← here) starts
                    | inr other ↦ ready j (ground (arith, listed, other))
                  ]) in
              rw (waits, free, starts)
                (dispatch_nodes-ready pipelined max ids (dispatch_one id d) still k
                  (rw (waits, free, starts) at m))
        ]
      ]
    ]

-- A story that a turn of the main loop starts has all its dependencies satisfied behind the turn: each is
-- known, and has succeeded, or runs where the scheduler is pipelined.
pub round-ready :
    (is_cancelled : Bool) (e : Execution) (k : Text)
    → elem k e.calls ≡ false
    → elem k (round is_cancelled e).calls ≡ true
    → deps_satisfied e.sched.pipelined (round is_cancelled e).sched.nodes k ≡ true
unfolding round dispatch_round elem
round-ready is_cancelled e k new called = elim (Bool-cases (all_finished e.sched)) [
  | inl done ↦ absurd (ground (arith, rw done at called, new))
  | inr left ↦ elim (Bool-cases is_cancelled) [
    | inl stop ↦ absurd (ground (arith, rw (left, stop) at called, new))
    | inr go ↦
        rw (left, go)
          (dispatch_nodes-ready e.sched.pipelined e.sched.max_concurrent e.sched.story_ids _
            (λ j m. absurd (ground (arith, m))) k
            (ground (arith, rw (left, go, elem-append) at called, new)))
  ]
]
