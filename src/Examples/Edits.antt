-- ===== src/Examples/Edits.antt =====
-- One edit of a file of three lines: its target has lost the indentation, so that only the line comparison of
-- the fallbacks finds it.
use noctifab.Prelude.{◌≡◌, refl, List, [], ◌∷◌}
use noctifab.Prelude.Text.{Text, codes}
use noctifab.Prelude.Results.{ok, err}
use noctifab.Edits.Apply.{
  ReplacementChunk, apply_edit, apply_file_edits, replace_block, not_found_in_small_file,
}
use noctifab.Edits.Match.{match_normalized_lines}
use noctifab.Edits.Applied.{Applied, apply_edit-Applied}

abbrev file : List Text
file = codes "func f() {" ∷ codes "  a()" ∷ codes "  b()" ∷ codes "}" ∷ []

abbrev edit : ReplacementChunk
edit = record {
  start_line = 2;
  end_line = 3;
  target_content = codes "a()\nb()";
  replacement_content = codes "c()\nd()";
}

abbrev edited : List Text
edited = codes "func f() {" ∷ codes "  c()" ∷ codes "  d()" ∷ codes "}" ∷ []

edit_is_applied : apply_edit edit file ≡ ok edited
unfolding apply_edit replace_block
edit_is_applied = refl

apply_edit-Applied_example : Applied edit file edited
apply_edit-Applied_example = apply_edit-Applied edit file edited edit_is_applied

missing_target_is_an_error :
    apply_file_edits (codes "a\r\nb") (record edit { target_content = codes "x" } ∷ [])
    ≡ err not_found_in_small_file
unfolding apply_file_edits match_normalized_lines
missing_target_is_an_error = refl
