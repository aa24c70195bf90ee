-- ===== src/Story/Execute/Reached.antt =====
-- What holds in every execution of the stories (`Execute` of pkg/services/story_dag_scheduler.go).
use noctifab.Prelude.{
  ℕ, ◌≤◌, ◌≡◌, refl, Bool, List, Option, arith, ◌==◌, if◌then◌else◌, length, inl, inr, Bool-cases,
}
use noctifab.Prelude.Text.{Text, IsUnique, elem}
use noctifab.Story.Graph.{
  is_streaming, set_pipelined, set_streaming, close_story_stream, sort_story_ids, add_story,
  mark_story_completed,
}
use noctifab.Story.Execute.{
  Execution, all_finished, dispatch_round, round, begin_execute, complete, start_execution,
  is_none_left, Step, begins, turns, completes, adds, marks, pipelines, streams, closes, Reach,
  initial, next,
}
use noctifab.Story.Execute.Sound.{
  Sound, dispatch_nodes-Sound, complete-Sound, mark_story_completed-Sound, add_story-Sound,
}

abbrev pub effective_limit : ℕ → ℕ
effective_limit limit = if limit == 0 then 4 else limit

abbrev IsSound : ℕ → Execution → Type 0
IsSound limit e =
    (e.sched.max_concurrent ≡ effective_limit limit)
    × Sound (effective_limit limit) e.sched.nodes e.active_count e.in_flight e.calls

start_execution-IsSound : (limit : ℕ) → IsSound limit (start_execution limit)
unfolding start_execution elem
start_execution-IsSound limit = (
  refl,
  record {
    counted = refl;
    bounded = omega arith;
    unique = tt;
    begun = λ k h. absurd (ground (arith, h));
    flying = λ k h. absurd (ground (arith, h));
  },
)

round-IsSound :
    (limit : ℕ) (is_cancelled : Bool) (e : Execution)
    → IsSound limit e
    → IsSound limit (round is_cancelled e)
unfolding round dispatch_round
round-IsSound limit is_cancelled e (max, s) = elim (Bool-cases (all_finished e.sched)) [
  | inl done ↦ rw done (max, s)
  | inr left ↦ elim (Bool-cases is_cancelled) [
    | inl stop ↦ rw (left, stop) (max, s)
    | inr go ↦ rw (left, go, max) (refl, dispatch_nodes-Sound _ _ _ _ e.in_flight e.calls s)
  ]
]

begin_execute-IsSound :
    (limit : ℕ) (e : Execution) → IsSound limit e → IsSound limit (begin_execute e)
unfolding begin_execute sort_story_ids
begin_execute-IsSound limit e s = elim (Bool-cases (is_none_left e.sched.story_ids)) [
  | inl none_left ↦ elim (Bool-cases (is_streaming e.sched)) [
    | inl goes_on ↦ rw (none_left, goes_on) s
    | inr closed ↦ rw (none_left, closed) s
  ]
  | inr some_left ↦ rw some_left s
]

Step-IsSound :
    (yaml : Text → Option (List Text)) (limit : ℕ) {e e' : Execution}
    → Step yaml e e'
    → IsSound limit e
    → IsSound limit e'
unfolding complete set_pipelined set_streaming close_story_stream mark_story_completed add_story
    sort_story_ids
Step-IsSound yaml limit {e} (begins at same) s = rw same (begin_execute-IsSound limit e s)
Step-IsSound yaml limit {e} (turns is_cancelled at same) s =
    rw same (round-IsSound limit is_cancelled e s)
Step-IsSound yaml limit {e} (completes id result flies same) s =
    rw same
      (s.0, complete-Sound _ e.sched.nodes e.active_count e.in_flight e.calls id result flies s.1)
Step-IsSound yaml limit {e} (adds item same) s =
    rw same (s.0, add_story-Sound yaml _ item e.sched e.active_count e.in_flight e.calls s.1)
Step-IsSound yaml limit {e} (marks path same) s =
    rw same (s.0, mark_story_completed-Sound _ path e.sched e.active_count e.in_flight e.calls s.1)
Step-IsSound yaml limit (pipelines enabled same) s = rw same s
Step-IsSound yaml limit (streams enabled same) s = rw same s
Step-IsSound yaml limit (closes same) s = rw same s

pub Reach-IsSound :
    (yaml : Text → Option (List Text)) (limit : ℕ) {e : Execution}
    → Reach yaml limit e
    → IsSound limit e
Reach-IsSound yaml limit (initial same) = rw same (start_execution-IsSound limit)
Reach-IsSound yaml limit (next before step) =
    Step-IsSound yaml limit step (Reach-IsSound yaml limit before)

-- In every execution that can be reached, the number of goroutines that run a story is the active count
-- and at most the limit that the scheduler was made with, which is 4 in place of 0; and `processFunc` was
-- called at most once for each story ID.
pub Reach-bounded :
    (yaml : Text → Option (List Text)) (limit : ℕ) (e : Execution)
    → Reach yaml limit e
    → (length e.in_flight ≡ e.active_count)
      × (e.active_count ≤ (if limit == 0 then 4 else limit))
      × IsUnique e.calls
Reach-bounded yaml limit e reached =
    let s = (Reach-IsSound yaml limit reached).1 in (s.counted, s.bounded, s.unique)
