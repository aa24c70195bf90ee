-- ===== src/Examples/Sessions.antt =====
-- The specification session (pkg/domain/spec_session.go) with two revisions.
use noctifab.Prelude.{
  false, ◌-◌, ◌+◌, ℕ, zero, suc, ◌≡◌, refl, ◌⊎◌, List, [], ◌∷◌, some, arith, get_elem?,
}
use noctifab.Prelude.Text.{Text, codes}
use noctifab.Prelude.Results.{ok, err}
use noctifab.Domain.Session.{
  SpecTurnKind, initial, refine, SpecRevision, at, SpecSession, cannot_undo, cannot_redo, undo,
  redo, add_revision,
}
use noctifab.Domain.Session.Laws.{IsValid, undo-redo, add_revision_lem}

abbrev revision : ℕ → Text → SpecTurnKind → SpecRevision
revision version content kind = record {
  version = version;
  content = content;
  snapshot_path = [];
  sha256 = [];
  prompt = [];
  kind = kind;
  parent_ver = version - 1;
  diff_summary = [];
  input_tokens = 0;
  output_tokens = 0;
  tokens_used = 0;
  created_at = 0;
}

abbrev drafts : List SpecRevision
drafts = revision 1 (codes "one") initial ∷ revision 2 (codes "two") refine ∷ []

abbrev session : SpecSession
session = record {
  id = [];
  project_path = [];
  target_file = [];
  active_ver_index = at 1;
  revisions = drafts;
  current_spec = codes "two";
  is_complete = false;
  created_at = 0;
  updated_at = 0;
}

session-IsValid : IsValid session
session-IsValid = record {
  index = 1;
  active = revision 2 (codes "two") refine;
  stands = refl;
  found = refl;
  shown = refl;
  numbered = numbered;
}
  where
    numbered : (i : ℕ) (rev : SpecRevision) → get_elem? drafts i ≡ some rev → rev.version ≡ i + 1
    numbered zero rev e = let same : revision 1 (codes "one") initial ≡ rev = cc in rw (← same)
    numbered (suc zero) rev e = let same : revision 2 (codes "two") refine ≡ rev = cc in rw (← same)
    numbered (suc (suc i)) rev e = cc

undo-redo_example :
    ((session-IsValid.index ≡ 0) × (undo 5 session ≡ err cannot_undo))
    ⊎ ((rev : SpecRevision) × (s' : SpecSession) × (undo 5 session ≡ ok (rev, s'))
        × (rev.version ≡ 1)
        × IsValid s'
        × (s'.revisions ≡ drafts)
        × (redo 6 s' ≡ ok (revision 2 (codes "two") refine, record session { updated_at = 6 })))
unfolding session-IsValid
undo-redo_example = undo-redo 5 6 session session-IsValid

add_revision_lem_example :
    let (rev, s') = add_revision (λ t. t) 5 (codes "three") [] refine [] 9 session in
    IsValid s'
    × (rev.version ≡ 3)
    × (rev.parent_ver ≡ 2)
    × (s'.current_spec ≡ codes "three")
    × (redo 5 s' ≡ err cannot_redo)
    × (get_elem? s'.revisions 0 ≡ some (revision 1 (codes "one") initial))
unfolding session-IsValid
add_revision_lem_example =
    add_revision_lem (λ t. t) 5 (codes "three") [] refine [] 9 session session-IsValid 0
      (omega arith)
