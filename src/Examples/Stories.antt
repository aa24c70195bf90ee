-- ===== src/Examples/Stories.antt =====
-- Two stories, the second one behind the first, in the first turns of an execution.
use noctifab.Prelude.{
  zero, suc, ℕ, ◌≤◌, ◌<◌, ◌≡◌, ◌≢◌, refl, true, false, List, [], ◌∷◌, Option, none, some, arith,
  length, ◌==◌, if◌then◌else◌, All, inl, inr, Bool-cases,
}
use noctifab.Prelude.Text.{Text, codes, text_eq, IsUnique}
use noctifab.Story.Parse.{parse_story_dependencies}
use noctifab.Story.Sort.{slice_stable}
use noctifab.Story.Graph.{
  text_lt, StoryWorkItem, StoryDagNode, pending, is_present, is_failed, story_key,
  story_dependencies, sort_story_ids, add_story,
}
use noctifab.Story.Execute.{
  Execution, looping, deadlocked, has_status, start_execution, on_sched, begin_execute, round,
  dispatch_round, deps_satisfied, Reach, initial, next, adds, begins, turns,
}
use noctifab.Story.Execute.Reached.{Reach-bounded}
use noctifab.Story.Execute.Ready.{round-ready}
use noctifab.Story.Execute.Deadlock.{round-no_deadlock}

abbrev no_yaml : Text → Option (List Text)
no_yaml value = none

abbrev first_story : StoryWorkItem
first_story = record { path = codes "US-1-base.md"; spec = codes "base"; log_path = [] }

abbrev second_story : StoryWorkItem
second_story = record { path = codes "US-2.md"; spec = codes "depends_on: [US-1]"; log_path = [] }

dependencies_are_read : parse_story_dependencies no_yaml second_story.spec ≡ codes "US-001" ∷ []
unfolding parse_story_dependencies
dependencies_are_read = refl

abbrev added : Execution
added =
    on_sched (add_story no_yaml second_story)
      (on_sched (add_story no_yaml first_story) (start_execution 0))

abbrev begun : Execution
begun = begin_execute added

abbrev turned : Execution
turned = round false begun

begun_reached : Reach no_yaml 0 begun
unfolding start_execution add_story sort_story_ids
begun_reached =
    next (next (next (initial refl) (adds first_story refl)) (adds second_story refl))
      (begins refl refl)

begun_loops : begun.phase ≡ looping
unfolding begin_execute start_execution add_story sort_story_ids
begun_loops = refl

Reach-bounded_example :
    (length turned.in_flight ≡ turned.active_count)
    × (turned.active_count ≤ (if 0 == 0 then 4 else 0))
    × IsUnique turned.calls
Reach-bounded_example =
    Reach-bounded no_yaml 0 turned (next begun_reached (turns false begun_loops refl))

round-ready_example :
    deps_satisfied begun.sched.pipelined turned.sched.nodes (codes "US-001") ≡ true
unfolding begin_execute start_execution add_story sort_story_ids round dispatch_round
round-ready_example = round-ready false begun (codes "US-001") refl refl

abbrev first_node : StoryDagNode
first_node = record {
  item = first_story;
  story_id = codes "US-001";
  depends_on = [];
  status = pending;
  error = none;
}

abbrev second_node : StoryDagNode
second_node = record {
  item = second_story;
  story_id = codes "US-002";
  depends_on = codes "US-001" ∷ [];
  status = pending;
  error = none;
}

abbrev second_last : Text → ℕ
second_last k = if text_eq (codes "US-002") k then 1 else 0

stories_are_known :
    (k : Text) (n : StoryDagNode)
    → begun.sched.nodes k ≡ some n
    → All
        (λ dep. (is_present (begun.sched.nodes dep) ≡ true) × (second_last dep < second_last k))
        n.depends_on
unfolding begin_execute start_execution add_story sort_story_ids story_key story_dependencies
stories_are_known k n found = elim (Bool-cases (text_eq (codes "US-002") k)) [
  | inl same ↦
      let e : some second_node ≡ some n = rw same at found in
      let equal : second_node ≡ n = cc in rw (← equal, same) ((refl, omega arith), tt)
  | inr other ↦ elim (Bool-cases (text_eq (codes "US-001") k)) [
    | inl same ↦
        let e : some first_node ≡ some n = rw (other, same) at found in
        let equal : first_node ≡ n = cc in rw (← equal) tt
    | inr neither ↦ let e = rw (other, neither) at found in cc
  ]
]

none_failed : (k : Text) → has_status is_failed begun.sched.nodes k ≡ false
unfolding begin_execute start_execution add_story sort_story_ids story_key story_dependencies
none_failed k = elim (Bool-cases (text_eq (codes "US-002") k)) [
  | inl same ↦ rw same
  | inr other ↦ elim (Bool-cases (text_eq (codes "US-001") k)) [
    | inl same ↦ rw (other, same)
    | inr neither ↦ rw (other, neither)
  ]
]

round-no_deadlock_example : (round false begun).phase ≢ deadlocked []
round-no_deadlock_example =
    round-no_deadlock no_yaml 0 begun second_last false [] begun_reached stories_are_known
      none_failed begun_loops

-- Texts of one byte, from 47 down, and from 1 up.
abbrev down : ℕ → List Text
down zero = []
down (suc n) = (suc n ∷ []) ∷ down n

abbrev up : ℕ → ℕ → List Text
up i zero = []
up i (suc n) = (i ∷ []) ∷ up (suc i) n

-- Three blocks, with a merge of two and one of these with the third.
long_list_is_sorted : slice_stable text_lt (down 47) ≡ up 1 47
unfolding slice_stable text_lt
long_list_is_sorted = refl
