-- ===== src/Story/Graph.antt =====
-- The scheduler of stories of pkg/services/story_dag_scheduler.go: its nodes and its settings.
-- Errors are texts. The lock and its condition variable are not state: each operation is one step.
use noctifab.Prelude.{
  ℕ, Bool, true, false, not, ◌&&◌, ◌||◌, List, [], ◌∷◌, ◌++◌, Option, none, some, length, ltb, ◌==◌,
  if◌then◌else◌,
}
use noctifab.Prelude.Text.{Text, codes, is_empty, text_eq, to_lower, contains, elem}
use noctifab.Prelude.Maps.{Map, insert, empty_map}
use noctifab.Story.Ids.{base_name, extract_story_id, extract_story_sequence}
use noctifab.Story.Sort.{slice_stable}
use noctifab.Story.Parse.{parse_story_dependencies}

pub record StoryWorkItem : Type 0 where
  pub path : Text
  pub spec : Text
  pub log_path : Text

pub data StoryNodeStatus : Type 0 where
  pending : StoryNodeStatus
  running : StoryNodeStatus
  success : StoryNodeStatus
  failed : StoryNodeStatus

abbrev pub is_pending : StoryNodeStatus → Bool
is_pending pending = true
is_pending _ = false

abbrev pub is_running : StoryNodeStatus → Bool
is_running running = true
is_running _ = false

abbrev pub is_success : StoryNodeStatus → Bool
is_success success = true
is_success _ = false

abbrev pub is_failed : StoryNodeStatus → Bool
is_failed failed = true
is_failed _ = false

pub record StoryDagNode : Type 0 where
  pub item : StoryWorkItem
  pub story_id : Text
  pub depends_on : List Text
  pub status : StoryNodeStatus
  pub error : Option Text

pub record StoryDagScheduler : Type 0 where
  pub nodes : Map StoryDagNode
  pub story_ids : List Text
  pub max_concurrent : ℕ
  pub pipelined : Bool
  pub streaming : Bool
  pub stream_closed : Bool

-- A limit of 0 stands for every limit that is not positive.
unfoldable pub new_story_dag_scheduler : ℕ → StoryDagScheduler
new_story_dag_scheduler limit = record {
  nodes = empty_map;
  story_ids = [];
  max_concurrent = if limit == 0 then 4 else limit;
  pipelined = false;
  streaming = false;
  stream_closed = false;
}

unfoldable pub set_pipelined : Bool → StoryDagScheduler → StoryDagScheduler
set_pipelined enabled s = record s { pipelined = enabled }

unfoldable pub set_streaming : Bool → StoryDagScheduler → StoryDagScheduler
set_streaming enabled s = record s {
  streaming = enabled;
  stream_closed = if enabled then s.stream_closed else true;
}

unfoldable pub close_story_stream : StoryDagScheduler → StoryDagScheduler
close_story_stream s = record s { stream_closed = true }

abbrev pub is_streaming : StoryDagScheduler → Bool
is_streaming s = s.streaming && not s.stream_closed

-- A test of the node that a map holds, false where it holds none.
abbrev pub holds : (StoryDagNode → Bool) → Option StoryDagNode → Bool
holds p none = false
holds p (some n) = p n

abbrev pub is_present : Option StoryDagNode → Bool
is_present = holds (λ n. true)

unfoldable pub is_skeleton_story : Option StoryDagNode → Bool
unfolding contains
is_skeleton_story = holds λ n.
    let lower_path = to_lower n.item.path in
    let lower_spec = to_lower n.item.spec in
    contains lower_path (codes "skeleton")
    || contains lower_path (codes "scaffold")
    || contains lower_path (codes "foundation")
    || contains lower_spec (codes "walking skeleton")

-- `a < b` on texts.
unfoldable pub text_lt : Text → Text → Bool
text_lt [] [] = false
text_lt [] (y ∷ ys) = true
text_lt (x ∷ xs) [] = false
text_lt (x ∷ xs) (y ∷ ys) = ltb x y || x == y && text_lt xs ys

abbrev dep_count : Option StoryDagNode → ℕ
dep_count none = 0
dep_count (some n) = length n.depends_on

-- The comparison of `sortStoryIDsLocked`.
unfoldable pub story_before : Map StoryDagNode → Text → Text → Bool
unfolding is_skeleton_story extract_story_sequence text_lt
story_before nodes a b =
    let len_a = dep_count (nodes a) in
    let len_b = dep_count (nodes b) in
    let skel_a = is_skeleton_story (nodes a) in
    let skel_b = is_skeleton_story (nodes b) in
    let seq_a = extract_story_sequence a in
    let seq_b = extract_story_sequence b in
    if not (is_present (nodes a)) || not (is_present (nodes b))
    then false
    else if not (len_a == len_b)
    then ltb len_a len_b
    else if skel_a && not skel_b || skel_b && not skel_a
    then skel_a
    else if not (seq_a == seq_b) && ltb 0 seq_a && ltb 0 seq_b
    then ltb seq_a seq_b
    else text_lt a b

unfoldable pub sort_story_ids : StoryDagScheduler → StoryDagScheduler
unfolding slice_stable story_before
sort_story_ids s = record s { story_ids = slice_stable (story_before s.nodes) s.story_ids }

abbrev or_base_name : Text → Text → Text
or_base_name path id = if is_empty id then base_name path else id

-- The key of the story of a path or an ID.
unfoldable pub story_key : Text → Text
unfolding base_name extract_story_id
story_key path = or_base_name path (extract_story_id path)

unfoldable pub without : (Text → Bool) → List Text → List Text
without skip [] = []
without skip (x ∷ xs) = let rest = without skip xs in if skip x then rest else x ∷ rest

-- The dependencies that `AddStory` gives the node: those of the text but for itself, and the first story.
unfoldable pub story_dependencies :
    (Text → Option (List Text)) → StoryWorkItem → StoryDagScheduler → List Text
unfolding story_key base_name extract_story_sequence parse_story_dependencies without elem text_eq
story_dependencies yaml item s =
    let id = story_key item.path in
    let deps =
      without (λ dep. text_eq dep id || text_eq dep (base_name item.path))
        (parse_story_dependencies yaml item.spec) in
    if ltb 1 (extract_story_sequence id)
      && (s.streaming || is_present (s.nodes (codes "US-001")))
      && not (elem (codes "US-001") deps)
    then codes "US-001" ∷ deps
    else deps

abbrev pub renewed : StoryWorkItem → Text → List Text → Option StoryDagNode → StoryDagNode
renewed item id deps none = record {
  item = item;
  story_id = id;
  depends_on = deps;
  status = pending;
  error = none;
}
renewed item id deps (some n) = record n { item = item; depends_on = deps }

unfoldable pub add_story :
    (Text → Option (List Text)) → StoryWorkItem → StoryDagScheduler → StoryDagScheduler
unfolding story_key story_dependencies text_eq sort_story_ids
add_story yaml item s =
    let id = story_key item.path in
    let deps = story_dependencies yaml item s in
    sort_story_ids (record s {
      nodes = insert id (some (renewed item id deps (s.nodes id))) s.nodes;
      story_ids = if is_present (s.nodes id) then s.story_ids else s.story_ids ++ id ∷ [];
    })

-- `node.Status = status` through the pointer that the map holds.
abbrev pub with_status : StoryNodeStatus → Option StoryDagNode → Option StoryDagNode
with_status st none = none
with_status st (some n) = some (record n { status = st })

abbrev pub set_status : StoryNodeStatus → Text → Map StoryDagNode → Map StoryDagNode
set_status st k nodes j = if text_eq k j then with_status st (nodes j) else nodes j

unfoldable pub mark_story_completed : Text → StoryDagScheduler → StoryDagScheduler
unfolding story_key text_eq
mark_story_completed path s = record s { nodes = set_status success (story_key path) s.nodes }
