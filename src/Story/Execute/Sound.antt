-- ===== src/Story/Execute/Sound.antt =====
-- What holds of the goroutines of `Execute` (pkg/services/story_dag_scheduler.go) after every step.
use noctifab.Prelude.{
  ℕ, ◌-◌, ◌≤◌, ◌<◌, ◌≡◌, refl, Bool, true, false, not, ◌&&◌, ◌||◌, List, [], ◌∷◌, ◌++◌, Option,
  none, some, arith, leb, length, inl, inr, Bool-cases,
}
use noctifab.Prelude.Text.{
  Text, IsUnique, text_eq, text_eq_iff, elem, remove_one, length-remove_one, elem-remove_one,
}
use noctifab.Prelude.Maps.{Map, insert}
use noctifab.Story.Graph.{
  StoryNodeStatus, pending, running, success, is_pending, is_running, StoryDagNode,
  StoryDagScheduler, StoryWorkItem, holds, with_status, set_status, story_key, renewed, add_story,
  mark_story_completed, story_dependencies, sort_story_ids,
}
use noctifab.Story.Execute.{
  has_status, Dispatch, dispatch_one, dispatch_nodes, deps_satisfied, completed, complete_node,
}

abbrev pub has_begun : StoryNodeStatus → Bool
has_begun st = not (is_pending st)

pub record Sound (max : ℕ) (nodes : Map StoryDagNode) (active : ℕ) (in_flight calls : List Text)
    : Type 0 where
  pub counted : length in_flight ≡ active
  pub bounded : active ≤ max
  pub unique : IsUnique calls
  pub begun : (k : Text) → elem k calls ≡ true → has_status has_begun nodes k ≡ true
  pub flying : (k : Text) → has_status is_running nodes k ≡ true → elem k in_flight ≡ true

-- A change of the nodes that makes none pending again and none running.
pub Sound-nodes :
    (max : ℕ) (nodes nodes' : Map StoryDagNode) (active : ℕ) (in_flight calls : List Text)
    → ((k : Text) → has_status has_begun nodes k ≡ true → has_status has_begun nodes' k ≡ true)
    → ((k : Text) → has_status is_running nodes' k ≡ true → has_status is_running nodes k ≡ true)
    → Sound max nodes active in_flight calls
    → Sound max nodes' active in_flight calls
Sound-nodes max nodes nodes' active in_flight calls keeps none_new s = record {
  counted = s.counted;
  bounded = s.bounded;
  unique = s.unique;
  begun = λ k called. keeps k (s.begun k called);
  flying = λ k runs. s.flying k (none_new k runs);
}

-- The tests of a node whose status is set.
pub with_status-holds :
    (p : StoryNodeStatus → Bool) (st : StoryNodeStatus) (o : Option StoryDagNode)
    → holds (λ n. p n.status) (with_status st o) ≡ (holds (λ n. true) o && p st)
with_status-holds p st none = refl
with_status-holds p st (some n) = refl

pub holds-present :
    (p : StoryNodeStatus → Bool) (o : Option StoryDagNode)
    → holds (λ n. p n.status) o ≡ true
    → holds (λ n. true) o ≡ true
holds-present p none h = h
holds-present p (some n) h = refl

not_both :
    (o : Option StoryDagNode)
    → holds (λ n. is_pending n.status) o ≡ true
    → holds (λ n. has_begun n.status) o ≡ false
not_both none h = refl
not_both (some n) h = ground (arith, h)

dispatch_one-Sound :
    (max : ℕ) (id : Text) (d : Dispatch) (in_flight calls : List Text)
    → has_status is_pending d.nodes id ≡ true
    → d.active < max
    → Sound max d.nodes d.active (d.dispatched ++ in_flight) (d.dispatched ++ calls)
    → let d' = dispatch_one id d in
      Sound max d'.nodes d'.active (d'.dispatched ++ in_flight) (d'.dispatched ++ calls)
unfolding text_eq elem
dispatch_one-Sound max id d in_flight calls waits free s = record {
  counted = omega (arith, s.counted);
  bounded = omega arith;
  unique = (ground (arith, s.begun id, not_both (d.nodes id) waits), s.unique);
  begun = λ k called. elim (Bool-cases (text_eq id k)) [
    | inl same ↦ rw (
      same,
      with_status-holds has_begun running (d.nodes k),
      ← (text_eq_iff id k).0 same,
      holds-present is_pending (d.nodes id) waits,
    )
    | inr other ↦ rw other (s.begun k (ground arith))
  ];
  flying = λ k runs. elim (Bool-cases (text_eq id k)) [
    | inl same ↦ rw same
    | inr other ↦ rw other (s.flying k (rw other at runs))
  ];
}

pub dispatch_nodes-Sound :
    (pipelined : Bool) (max : ℕ) (ids : List Text) (d : Dispatch) (in_flight calls : List Text)
    → Sound max d.nodes d.active (d.dispatched ++ in_flight) (d.dispatched ++ calls)
    → let d' = dispatch_nodes pipelined max ids d in
      Sound max d'.nodes d'.active (d'.dispatched ++ in_flight) (d'.dispatched ++ calls)
unfolding dispatch_nodes
dispatch_nodes-Sound pipelined max [] d in_flight calls s = s
dispatch_nodes-Sound pipelined max (id ∷ ids) d in_flight calls s =
    elim (Bool-cases (has_status is_pending d.nodes id)) [
      | inr begun ↦ rw begun (dispatch_nodes-Sound pipelined max ids d in_flight calls s)
      | inl waits ↦ elim (Bool-cases (leb max d.active)) [
        | inl full ↦ rw (waits, full) s
        | inr free ↦ elim (Bool-cases (deps_satisfied pipelined d.nodes id)) [
          | inl ready ↦
              rw (waits, free, ready)
                (dispatch_nodes-Sound pipelined max ids (dispatch_one id d) in_flight calls
                  (dispatch_one-Sound max id d in_flight calls waits (ground arith) s))
          | inr blocked ↦
              rw (waits, free, blocked) (dispatch_nodes-Sound pipelined max ids d in_flight calls s)
        ]
      ]
    ]

completed-stopped :
    (result : Option Text) (o : Option StoryDagNode)
    → holds (λ n. is_running n.status) (completed result o) ≡ false
completed-stopped result none = refl
completed-stopped none (some n) = refl
completed-stopped (some message) (some n) = refl

completed-begun :
    (result : Option Text) (o : Option StoryDagNode)
    → holds (λ n. has_begun n.status) o ≡ true
    → holds (λ n. has_begun n.status) (completed result o) ≡ true
completed-begun result none h = h
completed-begun none (some n) h = refl
completed-begun (some message) (some n) h = refl

pub complete-Sound :
    (max : ℕ) (nodes : Map StoryDagNode) (active : ℕ) (in_flight calls : List Text) (id : Text)
    (result : Option Text)
    → elem id in_flight ≡ true
    → Sound max nodes active in_flight calls
    → Sound max (complete_node id result nodes) (active - 1) (remove_one id in_flight) calls
complete-Sound max nodes active in_flight calls id result flies s = record {
  counted = omega (arith, length-remove_one id in_flight flies, s.counted);
  bounded = omega (arith, s.bounded);
  unique = s.unique;
  begun = λ k called. elim (Bool-cases (text_eq id k)) [
    | inl same ↦ rw same (completed-begun result (nodes k) (s.begun k called))
    | inr other ↦ rw other (s.begun k called)
  ];
  flying = λ k runs. elim (Bool-cases (text_eq id k)) [
    | inl same ↦
        let stopped = completed-stopped result (nodes k) in absurd (ground (arith, rw same at runs))
    | inr other ↦ elem-remove_one id k in_flight other (s.flying k (rw other at runs))
  ];
}

pub mark_story_completed-Sound :
    (max : ℕ) (path : Text) (s : StoryDagScheduler) (active : ℕ) (in_flight calls : List Text)
    → Sound max s.nodes active in_flight calls
    → Sound max (mark_story_completed path s).nodes active in_flight calls
unfolding mark_story_completed
mark_story_completed-Sound max path s active in_flight calls =
    Sound-nodes max s.nodes (set_status success (story_key path) s.nodes) active in_flight calls
      (λ k h. elim (Bool-cases (text_eq (story_key path) k)) [
        | inl same ↦ rw (
          same,
          with_status-holds has_begun success (s.nodes k),
          holds-present has_begun (s.nodes k) h,
        )
        | inr other ↦ rw other h
      ])
      (λ k h. elim (Bool-cases (text_eq (story_key path) k)) [
        | inl same ↦
            let stopped = with_status-holds is_running success (s.nodes k) in
            absurd (ground (arith, rw same at h))
        | inr other ↦ rw other at h
      ])

renewed-status :
    (p : StoryNodeStatus → Bool) (item : StoryWorkItem) (id : Text) (deps : List Text)
    (o : Option StoryDagNode)
    → p (renewed item id deps o).status
      ≡ (holds (λ n. p n.status) o || (not (holds (λ n. true) o) && p pending))
renewed-status p item id deps none = refl
renewed-status p item id deps (some n) = ground arith

pub add_story-Sound :
    (yaml : Text → Option (List Text)) (max : ℕ) (item : StoryWorkItem) (s : StoryDagScheduler)
    (active : ℕ) (in_flight calls : List Text)
    → Sound max s.nodes active in_flight calls
    → Sound max (add_story yaml item s).nodes active in_flight calls
unfolding add_story sort_story_ids
add_story-Sound yaml max item s active in_flight calls =
    let id = story_key item.path in
    let deps = story_dependencies yaml item s in
    Sound-nodes max s.nodes (insert id (some (renewed item id deps (s.nodes id))) s.nodes) active
      in_flight calls
      (λ k h. elim (Bool-cases (text_eq id k)) [
        | inl same ↦
            let here : id ≡ k = (text_eq_iff id k).0 same in
            rw (same, renewed-status has_begun item id deps (s.nodes id), here, h)
        | inr other ↦ rw other h
      ])
      (λ k h. elim (Bool-cases (text_eq id k)) [
        | inl same ↦
            let here : id ≡ k = (text_eq_iff id k).0 same in
            let status = renewed-status is_running item id deps (s.nodes id) in
            rw (← here) (ground (arith, rw same at h, status))
        | inr other ↦ rw other at h
      ])
