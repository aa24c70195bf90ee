-- ===== src/Locks/Exclusion.antt =====
-- The locks of pkg/services/scheduler.go exclude one another.
use mathlib.Core.Path.{fun_ext}
use noctifab.Prelude.{
  ◌≡◌, Bool, ap, sym, ◌∙◌, refl, ◌≢◌, ◌⊎◌, ◌↔◌, inl, inr, true, false, List, [], ◌∷◌, Option, none,
  some, arith, if◌then◌else◌, any, Bool-cases,
}
use noctifab.Prelude.Text.{Text, text_eq_iff, elem}
use noctifab.Prelude.Maps.{Map, insert}
use noctifab.Locks.{
  FileLockRegistry, held_by_other, acquire, try_acquire_locks, drop_own, release_locks,
}

pub acquire-elem :
    (task_id : Text) (files : List Text) (locks : Map Text) (f : Text)
    → acquire task_id files locks f ≡ (if elem f files then some task_id else locks f)
unfolding acquire elem
acquire-elem task_id [] locks f = refl
acquire-elem task_id (g ∷ files) locks f =
    ground (arith, acquire-elem task_id files (insert g (some task_id) locks) f, text_eq_iff g f)

free_of_any :
    (task_id : Text) (files : List Text) (locks : Map Text) (f : Text)
    → any (λ file. held_by_other task_id (locks file)) files ≡ false
    → elem f files ≡ true
    → held_by_other task_id (locks f) ≡ false
unfolding any elem
free_of_any task_id [] locks f h m = cc
free_of_any task_id (g ∷ files) locks f h m =
    ground (arith, text_eq_iff g f, free_of_any task_id files locks f)

any_of_held :
    (task_id : Text) (files : List Text) (locks : Map Text) (f : Text)
    → held_by_other task_id (locks f) ≡ true
    → elem f files ≡ true
    → any (λ file. held_by_other task_id (locks file)) files ≡ true
unfolding any elem
any_of_held task_id [] locks f h m = cc
any_of_held task_id (g ∷ files) locks f h m =
    ground (arith, text_eq_iff g f, any_of_held task_id files locks f)

-- If the locks are granted, each of the files is held by the task, every other file has the lock
-- that it had, and none of the files was held by another task. If not, nothing has changed.
pub try_acquire_locks_lem :
    (task_id : Text) (files : List Text) (r : FileLockRegistry) (f : Text)
    → let (granted, r') = try_acquire_locks task_id files r in
      (granted ≡ true
        → (r'.locks f ≡ (if elem f files then some task_id else r.locks f))
          × (elem f files ≡ true → (r.locks f ≡ none) ⊎ (r.locks f ≡ some task_id)))
      × (granted ≡ false → r' ≡ r)
unfolding try_acquire_locks
try_acquire_locks_lem task_id files r f =
    elim (Bool-cases (any (λ file. held_by_other task_id (r.locks file)) files)) [
      | inl held ↦ rw held (λ e. cc, λ e. refl)
      | inr free ↦ rw free (
        λ e. (
          acquire-elem task_id files r.locks f,
          λ m. own (r.locks f) (free_of_any task_id files r.locks f free m),
        ),
        λ e. cc,
      )
    ]
  where
    own :
        (holder : Option Text)
        → held_by_other task_id holder ≡ false
        → (holder ≡ none) ⊎ (holder ≡ some task_id)
    own none h = inl refl
    own (some other) h = inr (ground (arith, text_eq_iff other task_id))

-- If the locks are granted, each of the files is held by the task and every other file has the lock
-- that it had. No other task had locked one of the files.
pub try_acquire_locks-granted :
    (task_id : Text) (files : List Text) (r r' : FileLockRegistry) (f : Text)
    → try_acquire_locks task_id files r ≡ (true, r')
    → (r'.locks f ≡ (if elem f files then some task_id else r.locks f))
      × ((elem f files ≡ false) ⊎ ((r.locks f ≡ none) ⊎ (r.locks f ≡ some task_id)))
try_acquire_locks-granted task_id files r r' f e =
    let own =
      (try_acquire_locks_lem task_id files r f).0 (ap (λ (p : Bool × FileLockRegistry). p.0) e) in
    let after = ap (λ (p : Bool × FileLockRegistry). p.1.locks f) e in
    (
      sym after ∙ own.0,
      elim (Bool-cases (elem f files)) [ inl m ↦ inr (own.1 m) | inr out ↦ inl out ],
    )

-- If one of the files is held by another task, the locks are refused and nothing changes.
try_acquire_locks-refused :
    (task_id : Text) (files : List Text) (r : FileLockRegistry) (f : Text)
    → elem f files ≡ true
    → r.locks f ≢ none
    → r.locks f ≢ some task_id
    → try_acquire_locks task_id files r ≡ (false, r)
unfolding try_acquire_locks
try_acquire_locks-refused task_id files r f m taken foreign =
    rw (any_of_held task_id files r.locks f (other (r.locks f) taken foreign) m)
  where
    other :
        (holder : Option Text)
        → holder ≢ none
        → holder ≢ some task_id
        → held_by_other task_id holder ≡ true
    other none a b = absurd (a refl)
    other (some h) a b = ground (arith, text_eq_iff h task_id, b)

-- After a release the task holds no file, and another task holds a file just when it did before.
pub release_locks_lem :
    (task_id other : Text) (r : FileLockRegistry) (f : Text)
    → other ≢ task_id
    → ((release_locks task_id r).locks f ≢ some task_id)
      × ((r.locks f ≡ some other) ↔ ((release_locks task_id r).locks f ≡ some other))
unfolding release_locks
release_locks_lem task_id other r f ne = (gone (r.locks f), kept (r.locks f) other ne)
  where
    gone : (o : Option Text) → drop_own task_id o ≢ some task_id
    gone none e = cc
    gone (some g) e = ground (arith, text_eq_iff g task_id)

    kept : (o : Option Text) (h : Text) → h ≢ task_id → (o ≡ some h) ↔ (drop_own task_id o ≡ some h)
    kept none h ne = (λ e. e, λ e. e)
    kept (some g) h ne =
        (λ e. ground (arith, text_eq_iff g task_id), λ e. ground (arith, text_eq_iff g task_id))

-- A task that held nothing and gives its locks back leaves the registry as it was.
pub release_locks-try_acquire_locks :
    (task_id : Text) (files : List Text) (r : FileLockRegistry)
    → ((f : Text) → r.locks f ≢ some task_id)
    → release_locks task_id (try_acquire_locks task_id files r).1 ≡ r
unfolding release_locks try_acquire_locks
release_locks-try_acquire_locks task_id files r fresh =
    elim (Bool-cases (any (λ file. held_by_other task_id (r.locks file)) files)) [
      | inl held ↦ rw held (same (λ f. untouched (r.locks f) (fresh f)))
      | inr free ↦ rw free (same (λ f. rw (acquire-elem task_id files r.locks f) (back f free)))
    ]
  where
    untouched : (o : Option Text) → o ≢ some task_id → drop_own task_id o ≡ o
    untouched none ne = refl
    untouched (some g) ne = ground (arith, text_eq_iff g task_id, ne)

    back :
        (f : Text)
        → any (λ file. held_by_other task_id (r.locks file)) files ≡ false
        → drop_own task_id (if elem f files then some task_id else r.locks f) ≡ r.locks f
    back f free = elim (Bool-cases (elem f files)) [
      | inl listed ↦
          rw listed
            (was_free (r.locks f) (free_of_any task_id files r.locks f free listed) (fresh f))
      | inr other ↦ rw other (untouched (r.locks f) (fresh f))
    ]
      where
        was_free :
            (o : Option Text)
            → held_by_other task_id o ≡ false
            → o ≢ some task_id
            → drop_own task_id (some task_id) ≡ o
        was_free none h ne = ground (arith, text_eq_iff task_id task_id)
        was_free (some g) h ne = absurd (ne (ground (arith, text_eq_iff g task_id)))

    same : {m : Text → Option Text} → ((f : Text) → m f ≡ r.locks f) → record r { locks = m } ≡ r
    same h i = record r { locks = fun_ext h i }
