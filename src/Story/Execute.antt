-- ===== src/Story/Execute.antt =====
-- `Execute` of pkg/services/story_dag_scheduler.go as the steps of its threads: a turn of the main loop
-- under the lock, the end of a story's goroutine under the lock, and the other methods of the scheduler.
-- The two lists of story IDs record the goroutines that run and the calls of `processFunc` so far.
pub mod Sound
pub mod Reached
pub mod Ready
pub mod Listed
pub mod Deadlock
use noctifab.Prelude.{
  ℕ, suc, ◌-◌, ◌≡◌, Bool, true, false, not, ◌&&◌, ◌||◌, List, [], ◌∷◌, ◌++◌, Option, none, some,
  leb, ◌==◌, if◌then◌else◌, any, all,
}
use noctifab.Prelude.Text.{Text, text_eq, elem, remove_one}
use noctifab.Prelude.Maps.{Map}
use noctifab.Story.Graph.{
  StoryNodeStatus, running, success, failed, is_pending, is_running, is_success, StoryDagNode,
  StoryDagScheduler, StoryWorkItem, holds, is_streaming, set_status, new_story_dag_scheduler,
  set_pipelined, set_streaming, close_story_stream, sort_story_ids, add_story, mark_story_completed,
}

pub data Phase : Type 0 where
  configuring : Phase
  looping : Phase
  finished : Option (Text × Text) → Phase
  cancelled : Phase
  deadlocked : List Text → Phase

pub record Execution : Type 0 where
  pub sched : StoryDagScheduler
  pub active_count : ℕ
  pub first_err : Option (Text × Text)
  pub in_flight : List Text
  pub calls : List Text
  pub phase : Phase

abbrev pub has_status : (StoryNodeStatus → Bool) → Map StoryDagNode → Text → Bool
has_status p nodes id = holds (λ n. p n.status) (nodes id)

abbrev pub is_started : StoryNodeStatus → Bool
is_started st = is_running st || is_success st

-- A dependency lets a story start.
abbrev pub dep_satisfied : Bool → Map StoryDagNode → Text → Bool
dep_satisfied pipelined nodes dep =
    if pipelined then has_status is_started nodes dep else has_status is_success nodes dep

unfoldable pub deps_satisfied : Bool → Map StoryDagNode → Text → Bool
unfolding all
deps_satisfied pipelined nodes id =
    holds (λ n. all (dep_satisfied pipelined nodes) n.depends_on) (nodes id)

pub record Dispatch : Type 0 where
  pub nodes : Map StoryDagNode
  pub active : ℕ
  pub dispatched : List Text

abbrev pub dispatch_one : Text → Dispatch → Dispatch
dispatch_one id d = record {
  nodes = set_status running id d.nodes;
  active = suc d.active;
  dispatched = id ∷ d.dispatched;
}

-- The loop over the story IDs; the dispatched ones are listed with the last one first.
unfoldable pub dispatch_nodes : Bool → ℕ → List Text → Dispatch → Dispatch
unfolding deps_satisfied text_eq
dispatch_nodes pipelined max [] d = d
dispatch_nodes pipelined max (id ∷ ids) d =
    let is_next = has_status is_pending d.nodes id in
    let d' = if is_next && deps_satisfied pipelined d.nodes id then dispatch_one id d else d in
    if is_next && leb max d.active then d else dispatch_nodes pipelined max ids d'

abbrev pub is_unfinished : StoryNodeStatus → Bool
is_unfinished st = is_pending st || is_running st

unfoldable pub all_finished : StoryDagScheduler → Bool
unfolding any
all_finished s =
    if is_streaming s then false else not (any (has_status is_unfinished s.nodes) s.story_ids)

unfoldable pub pending_ids : Map StoryDagNode → List Text → List Text
pending_ids nodes [] = []
pending_ids nodes (id ∷ ids) =
    let rest = pending_ids nodes ids in if has_status is_pending nodes id then id ∷ rest else rest

abbrev pub dispatch_of : StoryDagScheduler → ℕ → Dispatch
dispatch_of s active =
    dispatch_nodes s.pipelined s.max_concurrent s.story_ids
      (record { nodes = s.nodes; active = active; dispatched = [] })

abbrev pub is_none_left : List Text → Bool
is_none_left [] = true
is_none_left (x ∷ xs) = false

-- The part of a turn behind the two checks.
unfoldable pub dispatch_round : Execution → Execution
unfolding dispatch_nodes pending_ids
dispatch_round e =
    let d = dispatch_of e.sched e.active_count in
    let stuck = is_none_left d.dispatched && d.active == 0 in
    let blocked = deadlocked (pending_ids d.nodes e.sched.story_ids) in
    record e {
      sched = record e.sched { nodes = d.nodes };
      active_count = d.active;
      in_flight = d.dispatched ++ e.in_flight;
      calls = d.dispatched ++ e.calls;
      phase = if stuck && not (is_streaming e.sched) then blocked else looping;
    }

-- A turn of the loop: from the lock to the launch of the goroutines.
unfoldable pub round : Bool → Execution → Execution
unfolding all_finished dispatch_round
round is_cancelled e =
    if all_finished e.sched
    then record e { phase = finished e.first_err }
    else if is_cancelled
    then record e { phase = cancelled }
    else dispatch_round e

-- The entry of `Execute`.
unfoldable pub begin_execute : Execution → Execution
unfolding sort_story_ids
begin_execute e =
    if is_none_left e.sched.story_ids && not (is_streaming e.sched)
    then record e { phase = finished none }
    else record e { sched = sort_story_ids e.sched; phase = looping }

abbrev pub completed : Option Text → Option StoryDagNode → Option StoryDagNode
completed result none = none
completed none (some n) = some (record n { status = success })
completed (some message) (some n) = some (record n { status = failed; error = some message })

abbrev pub or_first : Option (Text × Text) → Text × Text → Option (Text × Text)
or_first none latest = some latest
or_first (some first) latest = some first

abbrev pub complete_node : Text → Option Text → Map StoryDagNode → Map StoryDagNode
complete_node id result nodes j = if text_eq id j then completed result (nodes j) else nodes j

abbrev pub complete_err : Text → Option Text → Option (Text × Text) → Option (Text × Text)
complete_err id none first_err = first_err
complete_err id (some message) first_err = or_first first_err (id, message)

-- The end of the goroutine of a story, with the error that `processFunc` gave.
unfoldable pub complete : Text → Option Text → Execution → Execution
unfolding text_eq remove_one
complete id result e = record e {
  sched = record e.sched { nodes = complete_node id result e.sched.nodes };
  active_count = e.active_count - 1;
  first_err = complete_err id result e.first_err;
  in_flight = remove_one id e.in_flight;
}

unfoldable pub start_execution : ℕ → Execution
unfolding new_story_dag_scheduler
start_execution limit = record {
  sched = new_story_dag_scheduler limit;
  active_count = 0;
  first_err = none;
  in_flight = [];
  calls = [];
  phase = configuring;
}

abbrev pub on_sched : (StoryDagScheduler → StoryDagScheduler) → Execution → Execution
on_sched f e = record e { sched = f e.sched }

-- What a thread may do next. `Execute` is called once; the other methods may be called at any time.
pub data Step (yaml : Text → Option (List Text)) : Execution → Execution → Type 0 where
  begins : {e e' : Execution} → e.phase ≡ configuring → e' ≡ begin_execute e → Step yaml e e'
  turns :
      {e e' : Execution} (is_cancelled : Bool)
      → e.phase ≡ looping
      → e' ≡ round is_cancelled e
      → Step yaml e e'
  completes :
      {e e' : Execution} (id : Text) (result : Option Text)
      → elem id e.in_flight ≡ true
      → e' ≡ complete id result e
      → Step yaml e e'
  adds :
      {e e' : Execution} (item : StoryWorkItem)
      → e' ≡ on_sched (add_story yaml item) e
      → Step yaml e e'
  marks :
      {e e' : Execution} (path : Text)
      → e' ≡ on_sched (mark_story_completed path) e
      → Step yaml e e'
  pipelines :
      {e e' : Execution} (enabled : Bool) → e' ≡ on_sched (set_pipelined enabled) e → Step yaml e e'
  streams :
      {e e' : Execution} (enabled : Bool) → e' ≡ on_sched (set_streaming enabled) e → Step yaml e e'
  closes : {e e' : Execution} → e' ≡ on_sched close_story_stream e → Step yaml e e'

-- The executions that the steps lead to from a new scheduler.
pub data Reach (yaml : Text → Option (List Text)) (limit : ℕ) : Execution → Type 0 where
  initial : {e : Execution} → e ≡ start_execution limit → Reach yaml limit e
  next : {e e' : Execution} → Reach yaml limit e → Step yaml e e' → Reach yaml limit e'
