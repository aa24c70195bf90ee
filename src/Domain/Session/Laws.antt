-- ===== src/Domain/Session/Laws.antt =====
-- What the operations of a `SpecSession` (pkg/domain/spec_session.go) keep, and which undo others.
use noctifab.Prelude.{
  ℕ, zero, suc, ◌+◌, ◌-◌, ◌≤◌, ◌<◌, ◌≡◌, refl, ◌⊎◌, inl, inr, true, false, ◌||◌, List, [], ◌∷◌,
  ◌++◌, some, arith, length, length-append, get_elem?, get_elem?-lt, get_elem?-append,
  get_elem?-snoc, ap, sym, ◌∙◌, ltb, ltb→lt, ◌==◌, Bool-cases,
}
use noctifab.Prelude.Text.{Text}
use noctifab.Prelude.Results.{ok, err}
use noctifab.Domain.Session.{
  SpecTurnKind, SpecRevision, at, SpecSession, cannot_undo, cannot_redo, invalid_version,
  active_revision, can_undo, can_redo, undo, redo, checkout, version_of, new_revision, add_revision,
}

-- The session stands at one of its revisions, whose content is the current text, and the revisions
-- are numbered from 1.
pub record IsValid (s : SpecSession) : Type 0 where
  pub index : ℕ
  pub active : SpecRevision
  pub stands : s.active_ver_index ≡ at index
  pub found : get_elem? s.revisions index ≡ some active
  pub shown : s.current_spec ≡ active.content
  pub numbered :
      (i : ℕ) (rev : SpecRevision) → get_elem? s.revisions i ≡ some rev → rev.version ≡ i + 1

get_elem?-bound :
    (revs : List SpecRevision) (i : ℕ) (r : SpecRevision)
    → get_elem? revs i ≡ some r
    → i < length revs
get_elem?-bound [] i r e = cc
get_elem?-bound (x ∷ xs) zero r e = omega arith
get_elem?-bound (x ∷ xs) (suc i) r e = omega (arith, get_elem?-bound xs i r e)

at_index : (now : ℕ) (i : ℕ) (s : SpecSession) (r : SpecRevision) → SpecSession
at_index now i s r = record s {
  active_ver_index = at i;
  current_spec = r.content;
  updated_at = now;
}

at_index-IsValid :
    (now i : ℕ) (s : SpecSession) (r : SpecRevision)
    → IsValid s
    → get_elem? s.revisions i ≡ some r
    → IsValid (at_index now i s r)
unfolding at_index
at_index-IsValid now i s r v e = record {
  index = i;
  active = r;
  stands = refl;
  found = e;
  shown = refl;
  numbered = v.numbered;
}

undo_first : (now : ℕ) (s : SpecSession) → s.active_ver_index ≡ at 0 → undo now s ≡ err cannot_undo
unfolding undo can_undo
undo_first now s e = ground arith

undo_at :
    (now i : ℕ) (s : SpecSession) (r : SpecRevision)
    → s.active_ver_index ≡ at (suc i)
    → suc i < length s.revisions
    → get_elem? s.revisions i ≡ some r
    → undo now s ≡ ok (r, at_index now i s r)
unfolding undo can_undo at_index
undo_at now i s r e h found = ground arith

redo_last :
    (now i : ℕ) (s : SpecSession)
    → s.active_ver_index ≡ at i
    → length s.revisions ≤ suc i
    → redo now s ≡ err cannot_redo
unfolding redo can_redo
redo_last now i s e h = ground arith

redo_at :
    (now i : ℕ) (s : SpecSession) (r : SpecRevision)
    → s.active_ver_index ≡ at i
    → get_elem? s.revisions (suc i) ≡ some r
    → redo now s ≡ ok (r, at_index now (suc i) s r)
unfolding redo can_redo at_index
redo_at now i s r e found = ground (arith, get_elem?-bound s.revisions (suc i) r found)

redo_back :
    (now later i : ℕ) (s : SpecSession) (r a : SpecRevision)
    → s.active_ver_index ≡ at (suc i)
    → get_elem? s.revisions (suc i) ≡ some a
    → s.current_spec ≡ a.content
    → redo later (at_index now i s r) ≡ ok (a, record s { updated_at = later })
unfolding at_index
redo_back now later i s r a stands found shown =
    redo_at later i (at_index now i s r) a refl found ∙ λ j. ok (
      a,
      record s { active_ver_index = sym stands j; current_spec = sym shown j; updated_at = later },
    )

checkout_outside :
    (now version : ℕ) (s : SpecSession)
    → (length s.revisions == 0) ≡ false
    → (ltb version 1 || ltb (length s.revisions) version) ≡ true
    → checkout now version s ≡ err invalid_version
unfolding checkout
checkout_outside now version s some_rev outside = rw (some_rev, outside)

checkout_at :
    (now version : ℕ) (s : SpecSession) (r : SpecRevision)
    → (length s.revisions == 0) ≡ false
    → (ltb version 1 || ltb (length s.revisions) version) ≡ false
    → get_elem? s.revisions (version - 1) ≡ some r
    → checkout now version s ≡ ok (r, at_index now (version - 1) s r)
unfolding checkout at_index
checkout_at now version s r some_rev inside found = rw (some_rev, inside, found)

-- From a valid session, going back fails exactly at the first revision, and otherwise gives the
-- revision before the active one, in a valid session of the same revisions from which going forward
-- gives the active revision again.
pub undo-redo :
    (now later : ℕ) (s : SpecSession) (v : IsValid s)
    → ((v.index ≡ 0) × (undo now s ≡ err cannot_undo))
      ⊎ ((rev : SpecRevision) × (s' : SpecSession) × (undo now s ≡ ok (rev, s'))
          × (rev.version ≡ v.index)
          × IsValid s'
          × (s'.revisions ≡ s.revisions)
          × (redo later s' ≡ ok (v.active, record s { updated_at = later })))
undo-redo now later s v = by_index v.index refl
  where
    by_index :
        (i : ℕ)
        → v.index ≡ i
        → ((v.index ≡ 0) × (undo now s ≡ err cannot_undo))
          ⊎ ((rev : SpecRevision) × (s' : SpecSession) × (undo now s ≡ ok (rev, s'))
              × (rev.version ≡ v.index)
              × IsValid s'
              × (s'.revisions ≡ s.revisions)
              × (redo later s' ≡ ok (v.active, record s { updated_at = later })))
    by_index zero e = inl (e, undo_first now s (v.stands ∙ ap at e))
    by_index (suc i) e =
        let bound = get_elem?-bound s.revisions v.index v.active v.found in
        let (r, found) = get_elem?-lt s.revisions i (omega arith) in
        let active : get_elem? s.revisions (suc i) ≡ some v.active = rw e at (v.found) in
        inr (
          r,
          at_index now i s r,
          undo_at now i s r (v.stands ∙ ap at e) (omega arith) found,
          omega (arith, v.numbered i r found),
          at_index-IsValid now i s r v found,
          unfold at_index in refl,
          redo_back now later i s r v.active (v.stands ∙ ap at e) active v.shown,
        )

-- In a valid session a version from 1 to the number of revisions can be checked out: the revision of
-- that number becomes the current one, in a valid session of the same revisions. Any other version is
-- refused.
checkout_lem :
    (now version : ℕ) (s : SpecSession)
    → IsValid s
    → (((version ≡ 0) ⊎ (length s.revisions < version))
        × (checkout now version s ≡ err invalid_version))
      ⊎ ((rev : SpecRevision) × (s' : SpecSession) × (checkout now version s ≡ ok (rev, s'))
          × (rev.version ≡ version)
          × IsValid s'
          × (s'.revisions ≡ s.revisions)
          × (s'.current_spec ≡ rev.content))
checkout_lem now version s v =
    by_range (Bool-cases (ltb version 1 || ltb (length s.revisions) version))
  where
    some_revision : (length s.revisions == 0) ≡ false
    some_revision = ground (arith, get_elem?-bound s.revisions v.index v.active v.found)

    by_range :
        ((ltb version 1 || ltb (length s.revisions) version) ≡ true)
          ⊎ ((ltb version 1 || ltb (length s.revisions) version) ≡ false)
        → (((version ≡ 0) ⊎ (length s.revisions < version))
            × (checkout now version s ≡ err invalid_version))
          ⊎ ((rev : SpecRevision) × (s' : SpecSession) × (checkout now version s ≡ ok (rev, s'))
              × (rev.version ≡ version)
              × IsValid s'
              × (s'.revisions ≡ s.revisions)
              × (s'.current_spec ≡ rev.content))
    by_range (inl outside) =
        inl (ground arith, checkout_outside now version s some_revision outside)
    by_range (inr inside) =
        let (r, found) = get_elem?-lt s.revisions (version - 1) (ground arith) in
        let number : r.version ≡ version - 1 + 1 = v.numbered (version - 1) r found in
        inr (
          r,
          at_index now (version - 1) s r,
          checkout_at now version s r some_revision inside found,
          ground arith,
          at_index-IsValid now (version - 1) s r v found,
          unfold at_index in refl,
          unfold at_index in refl,
        )

active_revision_lem : (s : SpecSession) (v : IsValid s) → active_revision s ≡ some v.active
unfolding active_revision
active_revision_lem s v =
    rw (v.stands) (ground (arith, v.found, get_elem?-bound s.revisions v.index v.active v.found))

-- A new revision is numbered one above the others, names the active one as its parent, becomes the
-- current one of a valid session, keeps each earlier revision `i`, and leaves nothing to go forward to.
pub add_revision_lem :
    (sha : Text → Text) (now : ℕ) (content prompt : Text) (kind : SpecTurnKind) (summary : Text)
    (tokens : ℕ) (s : SpecSession) (v : IsValid s) (i : ℕ)
    → i < length s.revisions
    → let (rev, s') = add_revision sha now content prompt kind summary tokens s in
      IsValid s'
      × (rev.version ≡ length s.revisions + 1)
      × (rev.parent_ver ≡ v.index + 1)
      × (s'.current_spec ≡ content)
      × (redo now s' ≡ err cannot_redo)
      × (get_elem? s'.revisions i ≡ get_elem? s.revisions i)
unfolding add_revision
add_revision_lem sha now content prompt kind summary tokens s v i h =
    let rev = new_revision sha now content prompt kind summary tokens s in
    let grown = length-append s.revisions (rev ∷ []) in
    (
      record {
        index = length s.revisions;
        active = rev;
        stands = refl;
        found = get_elem?-snoc s.revisions rev;
        shown = refl;
        numbered = numbered rev refl;
      },
      refl,
      parent,
      refl,
      redo_last now (length s.revisions) _ refl (omega (arith, grown)),
      get_elem?-append s.revisions (rev ∷ []) i h,
    )
  where
    parent : version_of (active_revision s) ≡ v.index + 1
    parent = rw (active_revision_lem s v) (v.numbered v.index v.active v.found)

    numbered :
        (rev : SpecRevision)
        → rev.version ≡ length s.revisions + 1
        → (i : ℕ) (r : SpecRevision) → get_elem? (s.revisions ++ rev ∷ []) i ≡ some r
        → r.version ≡ i + 1
    numbered rev e i r found = elim (Bool-cases (ltb i (length s.revisions))) [
      | inl old ↦ v.numbered i r (
          sym (get_elem?-append s.revisions (rev ∷ []) i (ltb→lt i (length s.revisions) old))
          ∙ found)
      | inr new ↦
          let bound = get_elem?-bound (s.revisions ++ rev ∷ []) i r found in
          let last : i ≡ length s.revisions =
            ground (arith, bound, length-append s.revisions (rev ∷ [])) in
          let same : some rev ≡ some r =
            sym (get_elem?-snoc s.revisions rev) ∙ (rw last at found) in
          let named : rev ≡ r = cc in rw (← named) (omega arith)
    ]
