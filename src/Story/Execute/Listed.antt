-- ===== src/Story/Execute/Listed.antt =====
-- The list of story IDs of pkg/services/story_dag_scheduler.go has the keys of the map of nodes.
use noctifab.Prelude.{
  ℕ, ◌≡◌, refl, Bool, not, ◌&&◌, List, [], ◌∷◌, Option, none, some, arith, if◌then◌else◌, leb, inl,
  inr, Bool-cases,
}
use noctifab.Prelude.Text.{Text, text_eq, text_eq_iff, elem, elem-append}
use noctifab.Prelude.Maps.{Map}
use noctifab.Story.Sort.Kept.{elem-slice_stable}
use noctifab.Story.Graph.{
  running, success, is_pending, StoryDagNode, StoryDagScheduler, StoryWorkItem, is_present,
  is_streaming, with_status, story_key, set_pipelined, set_streaming, close_story_stream,
  story_before, sort_story_ids, add_story, mark_story_completed,
}
use noctifab.Story.Execute.{
  Execution, has_status, completed, deps_satisfied, Dispatch, dispatch_one, dispatch_nodes,
  all_finished, dispatch_round, round, begin_execute, complete, start_execution, is_none_left, Step,
  begins, turns, completes, adds, marks, pipelines, streams, closes, Reach, initial, next,
}

abbrev pub IsListed : Map StoryDagNode → List Text → Type 0
IsListed nodes ids = (k : Text) → is_present (nodes k) ≡ elem k ids

pub elem-sort_story_ids :
    (k : Text) (s : StoryDagScheduler) → elem k (sort_story_ids s).story_ids ≡ elem k s.story_ids
unfolding sort_story_ids
elem-sort_story_ids k s = elem-slice_stable (story_before s.nodes) k s.story_ids

set_status-present :
    (nodes : Map StoryDagNode) (id k : Text) (o : Option StoryDagNode → Option StoryDagNode)
    → ((n : Option StoryDagNode) → is_present (o n) ≡ is_present n)
    → is_present (if text_eq id k then o (nodes k) else nodes k) ≡ is_present (nodes k)
set_status-present nodes id k o keeps = elim (Bool-cases (text_eq id k)) [
  | inl same ↦ rw same (keeps (nodes k))
  | inr other ↦ rw other
]

with_status-present : (n : Option StoryDagNode) → is_present (with_status running n) ≡ is_present n
with_status-present none = refl
with_status-present (some n) = refl

success-present : (n : Option StoryDagNode) → is_present (with_status success n) ≡ is_present n
success-present none = refl
success-present (some n) = refl

completed-present :
    (result : Option Text) (n : Option StoryDagNode)
    → is_present (completed result n) ≡ is_present n
completed-present result none = refl
completed-present none (some n) = refl
completed-present (some message) (some n) = refl

dispatch_nodes-present :
    (pipelined : Bool) (max : ℕ) (ids : List Text) (d : Dispatch) (k : Text)
    → is_present ((dispatch_nodes pipelined max ids d).nodes k) ≡ is_present (d.nodes k)
unfolding dispatch_nodes
dispatch_nodes-present pipelined max [] d k = refl
dispatch_nodes-present pipelined max (id ∷ ids) d k =
    elim (Bool-cases (has_status is_pending d.nodes id && leb max d.active)) [
      | inl full ↦ rw full
      | inr free ↦
          elim (Bool-cases
            (has_status is_pending d.nodes id && deps_satisfied pipelined d.nodes id)) [
              | inl starts ↦
                  rw (free, starts, dispatch_nodes-present pipelined max ids (dispatch_one id d) k)
                    (set_status-present d.nodes id k (with_status running) with_status-present)
              | inr waits ↦ rw (free, waits) (dispatch_nodes-present pipelined max ids d k)
            ]
    ]

abbrev pub Listed : Execution → Type 0
Listed e = IsListed e.sched.nodes e.sched.story_ids

add_story-IsListed :
    (yaml : Text → Option (List Text)) (item : StoryWorkItem) (s : StoryDagScheduler)
    → IsListed s.nodes s.story_ids
    → IsListed (add_story yaml item s).nodes (add_story yaml item s).story_ids
unfolding add_story elem
add_story-IsListed yaml item s listed k =
    let id = story_key item.path in
    rw (elem-sort_story_ids k) (elim (Bool-cases (is_present (s.nodes id))) [
      | inl known ↦ rw known (ground (arith, text_eq_iff id k, listed k, listed id, known))
      | inr fresh ↦
          rw (fresh, elem-append) (ground (arith, text_eq_iff id k, listed k, listed id, fresh))
    ])

round-Listed : (is_cancelled : Bool) (e : Execution) → Listed e → Listed (round is_cancelled e)
unfolding round dispatch_round
round-Listed is_cancelled e listed k = elim (Bool-cases (all_finished e.sched)) [
  | inl done ↦ rw done (listed k)
  | inr left ↦ elim (Bool-cases is_cancelled) [
    | inl stop ↦ rw (left, stop) (listed k)
    | inr go ↦ rw (left, go, dispatch_nodes-present) (listed k)
  ]
]

begin_execute-Listed : (e : Execution) → Listed e → Listed (begin_execute e)
unfolding begin_execute
begin_execute-Listed e listed k =
    elim (Bool-cases (is_none_left e.sched.story_ids && not (is_streaming e.sched))) [
      | inl over ↦ rw over (listed k)
      | inr goes_on ↦ rw (goes_on, elem-sort_story_ids k e.sched) (listed k)
    ]

Step-Listed :
    (yaml : Text → Option (List Text)) {e e' : Execution} → Step yaml e e' → Listed e → Listed e'
unfolding complete set_pipelined set_streaming close_story_stream mark_story_completed
Step-Listed yaml {e} (begins at same) h = rw same (begin_execute-Listed e h)
Step-Listed yaml {e} (turns is_cancelled at same) h = rw same (round-Listed is_cancelled e h)
Step-Listed yaml {e} (completes id result flies same) h = rw same (λ k.
    rw (set_status-present e.sched.nodes id k (completed result) (completed-present result)) (h k))
Step-Listed yaml {e} (adds item same) h = rw same (add_story-IsListed yaml item e.sched h)
Step-Listed yaml {e} (marks path same) h = rw same (λ k.
    rw (set_status-present e.sched.nodes (story_key path) k (with_status success) success-present)
      (h k))
Step-Listed yaml (pipelines enabled same) h = rw same h
Step-Listed yaml (streams enabled same) h = rw same h
Step-Listed yaml (closes same) h = rw same h

start_execution-Listed : (limit : ℕ) → Listed (start_execution limit)
unfolding start_execution elem
start_execution-Listed limit k = refl

pub Reach-Listed :
    (yaml : Text → Option (List Text)) (limit : ℕ) {e : Execution} → Reach yaml limit e → Listed e
Reach-Listed yaml limit (initial same) = rw same (start_execution-Listed limit)
Reach-Listed yaml limit (next before step) = Step-Listed yaml step (Reach-Listed yaml limit before)
