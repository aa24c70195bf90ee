-- ===== src/Domain/Session.antt =====
-- The review session of a specification: `SpecSession` of pkg/domain/spec_session.go. The session is
-- not nil; the time of a call and the digest function are arguments; an index out of range, on which
-- Go panics, is `index_panic`. `Laws` proves what the operations keep and undo.
use Prim.Native.Nat.{◌^◌}
use noctifab.Prelude.{
  ℕ, zero, suc, ◌+◌, ◌-◌, ◌%◌, Bool, true, false, ◌&&◌, ◌||◌, List, [], ◌∷◌, ◌++◌, Option, none,
  some, ltb, leb, ◌==◌, if◌then◌else◌, length, get_elem?,
}
use noctifab.Prelude.Text.{Text}
use noctifab.Prelude.Results.{Result, ok, err}
pub mod Laws

pub data SpecTurnKind : Type 0 where
  initial refine audit rollback : SpecTurnKind

pub record SpecRevision : Type 0 where
  pub version : ℕ
  pub content : Text
  pub snapshot_path : Text
  pub sha256 : Text
  pub prompt : Text
  pub kind : SpecTurnKind
  pub parent_ver : ℕ
  pub diff_summary : Text
  pub input_tokens : ℕ
  pub output_tokens : ℕ
  pub tokens_used : ℕ
  pub created_at : ℕ

-- An `int` index: `at i`, or `before_start n` for -(n + 1).
pub data Position : Type 0 where
  at : ℕ → Position
  before_start : ℕ → Position

pub record SpecSession : Type 0 where
  pub id : Text
  pub project_path : Text
  pub target_file : Text
  pub active_ver_index : Position
  pub revisions : List SpecRevision
  pub current_spec : Text
  pub is_complete : Bool
  pub created_at : ℕ
  pub updated_at : ℕ

pub data SessionError : Type 0 where
  cannot_undo cannot_redo no_revisions invalid_version index_panic : SessionError

unfoldable pub latest_revision : SpecSession → Option SpecRevision
latest_revision s = get_elem? s.revisions (length s.revisions - 1)

active_at : Position → SpecSession → Option SpecRevision
active_at (before_start n) s = latest_revision s
active_at (at i) s =
    if leb (length s.revisions) i then latest_revision s else get_elem? s.revisions i

unfoldable pub active_revision : SpecSession → Option SpecRevision
unfolding active_at latest_revision
active_revision s = if length s.revisions == 0 then none else active_at s.active_ver_index s

after_start : Position → Bool
after_start (before_start n) = false
after_start (at i) = ltb 0 i

unfoldable pub can_undo : SpecSession → Bool
unfolding after_start
can_undo s = if leb (length s.revisions) 1 then false else after_start s.active_ver_index

before_last : Position → ℕ → Bool
before_last (before_start n) len = true
before_last (at i) len = ltb (i + 1) len

unfoldable pub can_redo : SpecSession → Bool
unfolding before_last
can_redo s =
    if length s.revisions == 0 then false else before_last s.active_ver_index (length s.revisions)

unfoldable pub previous : Position → Position
previous (at zero) = before_start 0
previous (at (suc i)) = at i
previous (before_start n) = before_start (suc n)

unfoldable pub following : Position → Position
following (at i) = at (suc i)
following (before_start zero) = at 0
following (before_start (suc n)) = before_start n

-- `s.Revisions[i]`, and the revision becomes the current one.
unfoldable pub show_revision :
    ℕ
    → Position
    → SpecSession
    → Option SpecRevision
    → Result SessionError (SpecRevision × SpecSession)
show_revision now position s none = err index_panic
show_revision now position s (some rev) =
    ok (rev, record s { active_ver_index = position; current_spec = rev.content; updated_at = now })

unfoldable pub revision_at : List SpecRevision → Position → Option SpecRevision
revision_at revisions (before_start n) = none
revision_at revisions (at i) = get_elem? revisions i

unfoldable pub undo : ℕ → SpecSession → Result SessionError (SpecRevision × SpecSession)
unfolding previous show_revision revision_at
undo now s =
    let position = previous s.active_ver_index in
    if can_undo s
    then show_revision now position s (revision_at s.revisions position)
    else err cannot_undo

unfoldable pub redo : ℕ → SpecSession → Result SessionError (SpecRevision × SpecSession)
unfolding following show_revision revision_at
redo now s =
    let position = following s.active_ver_index in
    if can_redo s
    then show_revision now position s (revision_at s.revisions position)
    else err cannot_redo

-- A version below 1 is the version 0 here: both are refused.
unfoldable pub checkout : ℕ → ℕ → SpecSession → Result SessionError (SpecRevision × SpecSession)
unfolding show_revision revision_at
checkout now version s =
    let position = at (version - 1) in
    if length s.revisions == 0
    then err no_revisions
    else if ltb version 1 || ltb (length s.revisions) version
    then err invalid_version
    else show_revision now position s (revision_at s.revisions position)

-- The loop, from a total on; `total +=` on an `int64`, as bit patterns.
sum_tokens : ℕ → List SpecRevision → ℕ
sum_tokens total [] = total
sum_tokens total (rev ∷ revisions) = sum_tokens ((total + rev.tokens_used) % 2 ^ 64) revisions

unfoldable pub total_tokens_used : SpecSession → ℕ
unfolding sum_tokens
total_tokens_used s = sum_tokens 0 s.revisions

abbrev pub version_of : Option SpecRevision → ℕ
version_of none = 0
version_of (some rev) = rev.version

module _ (sha : Text → Text) (now : ℕ) where
  unfoldable pub new_revision : Text → Text → SpecTurnKind → Text → ℕ → SpecSession → SpecRevision
  new_revision content prompt kind diff_summary tokens_used s = record {
    version = length s.revisions + 1;
    content = content;
    snapshot_path = [];
    sha256 = sha content;
    prompt = prompt;
    kind = kind;
    parent_ver = version_of (active_revision s);
    diff_summary = diff_summary;
    input_tokens = 0;
    output_tokens = 0;
    tokens_used = tokens_used;
    created_at = now;
  }

  unfoldable pub add_revision :
      Text → Text → SpecTurnKind → Text → ℕ → SpecSession → SpecRevision × SpecSession
  unfolding new_revision
  add_revision content prompt kind diff_summary tokens_used s =
      let rev = new_revision content prompt kind diff_summary tokens_used s in
      (
        rev,
        record s {
          revisions = s.revisions ++ rev ∷ [];
          active_ver_index = at (length s.revisions);
          current_spec = content;
          updated_at = now;
        },
      )
