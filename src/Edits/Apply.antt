-- ===== src/Edits/Apply.antt =====
-- `ApplyFileEdits` of pkg/services/edit_file_helper.go. A line number that is not positive is 0, and the path
-- and the message of an error have no field.
use noctifab.Prelude.{
  ℕ, ◌+◌, ◌-◌, Bool, true, not, ◌&&◌, ◌||◌, List, [], ◌∷◌, ◌++◌, Option, none, some, ltb, leb, ◌==◌,
  if◌then◌else◌, length, take, drop, map,
}
use noctifab.Prelude.Text.{Text, is_empty, contains, trim_space}
use noctifab.Prelude.Results.{Result, ok, err, ◌>>=◌}
use noctifab.Edits.Texts.{
  replace_crlf, split_lines, join_lines, replace_first, count_from, is_indent,
  extract_leading_whitespace,
}
use noctifab.Edits.Match.{LineRange, match_trimmed_lines, match_normalized_lines}

pub record ReplacementChunk : Type 0 where
  pub start_line : ℕ
  pub end_line : ℕ
  pub target_content : Text
  pub replacement_content : Text

pub data EditError : Type 0 where
  invalid_range : (start end : ℕ) → EditError
  not_found_in_small_file : EditError
  not_found : EditError

-- `lines[a:b]`.
abbrev pub slice : ℕ → ℕ → List Text → List Text
slice a b lines = take (b - a) (drop a lines)

-- The lines with new ones in place of `lines[a:b]`.
abbrev pub splice : ℕ → ℕ → List Text → List Text → List Text
splice a b new lines = take a lines ++ new ++ drop b lines

abbrev pub first_line : List Text → Text
first_line [] = []
first_line (l ∷ ls) = l

abbrev has_no_indent : Text → Bool
has_no_indent [] = true
has_no_indent (c ∷ s) = not (is_indent c)

abbrev indent_line : Text → Text → Text
indent_line lead l = if is_empty (trim_space l) then l else lead ++ l

-- The lines of the replacement with the indentation of the first line that they replace, unless they have one.
unfoldable pub reindent : Text → List Text → List Text
unfolding extract_leading_whitespace trim_space
reindent old_first new =
    let lead = extract_leading_whitespace old_first in
    if not (is_empty lead) && has_no_indent (first_line new)
    then map (indent_line lead) new
    else new

-- The range of an edit, from a first line counted from 0 to a line behind it.
abbrev pub edit_start : ReplacementChunk → ℕ
edit_start edit = if ltb edit.start_line 1 then 1 else edit.start_line

abbrev pub edit_end : ReplacementChunk → List Text → ℕ
edit_end edit lines =
    if edit.end_line == 0 || ltb (length lines) edit.end_line then length lines else edit.end_line

abbrev pub window_start : ReplacementChunk → ℕ
window_start edit = edit_start edit - 16

abbrev pub window_end : ReplacementChunk → List Text → ℕ
window_end edit lines =
    if ltb (length lines) (edit_end edit lines + 15) then length lines else edit_end edit lines + 15

-- The replacement of the first occurrence within `lines[a:b]`.
unfoldable pub replace_between : ℕ → ℕ → ReplacementChunk → List Text → List Text
unfolding split_lines replace_first join_lines
replace_between a b edit lines =
    splice a b
      (split_lines
        (replace_first edit.target_content edit.replacement_content (join_lines (slice a b lines))))
      lines

-- The replacement of a block of lines, `offset` lines below the range.
unfoldable pub replace_block : ℕ → LineRange → ReplacementChunk → List Text → List Text
unfolding reindent split_lines
replace_block offset r edit lines =
    splice (offset + r.first) (offset + r.last + 1)
      (reindent (first_line (drop (offset + r.first) lines)) (split_lines edit.replacement_content))
      lines

-- The last fallback, and the errors.
abbrev pub normalized_edit :
    Option LineRange → ReplacementChunk → List Text → Result EditError (List Text)
normalized_edit (some r) edit lines = ok (replace_block 0 r edit lines)
normalized_edit none edit lines =
    if leb (length lines) 300 then err not_found_in_small_file else err not_found

abbrev pub file_edit :
    Option LineRange → ReplacementChunk → List Text → Result EditError (List Text)
file_edit (some r) edit lines = ok (replace_block 0 r edit lines)
file_edit none edit lines =
    normalized_edit (match_normalized_lines lines (split_lines edit.target_content)) edit lines

-- The fallbacks that compare lines, first in the window and then in the file.
abbrev pub window_edit :
    Option LineRange → ReplacementChunk → List Text → Result EditError (List Text)
window_edit (some r) edit lines = ok (replace_block (window_start edit) r edit lines)
window_edit none edit lines =
    file_edit (match_trimmed_lines lines (split_lines edit.target_content)) edit lines

unfoldable pub block_edit : ReplacementChunk → List Text → Result EditError (List Text)
unfolding match_trimmed_lines split_lines
block_edit edit lines =
    window_edit
      (match_trimmed_lines (slice (window_start edit) (window_end edit lines) lines)
        (split_lines edit.target_content))
      edit lines

-- One round of the loop, on an edit whose texts have no CRLF.
unfoldable pub apply_edit : ReplacementChunk → List Text → Result EditError (List Text)
unfolding contains join_lines replace_between count_from trim_space block_edit
apply_edit edit lines =
    let start = edit_start edit in
    let end = edit_end edit lines in
    let joined = join_lines lines in
    let trimmed = trim_space edit.target_content in
    if ltb end start
    then err (invalid_range start end)
    else if contains (join_lines (slice (start - 1) end lines)) edit.target_content
    then ok (replace_between (start - 1) end edit lines)
    else if contains (join_lines (slice (window_start edit) (window_end edit lines) lines))
        edit.target_content
    then ok (replace_between (window_start edit) (window_end edit lines) edit lines)
    else if count_from edit.target_content 0 joined == 1
    then ok (split_lines (replace_first edit.target_content edit.replacement_content joined))
    else if not (is_empty trimmed) && count_from trimmed 0 joined == 1
    then ok (split_lines (replace_first trimmed (trim_space edit.replacement_content) joined))
    else block_edit edit lines

abbrev pub without_crlf : ReplacementChunk → ReplacementChunk
without_crlf edit = record edit {
  target_content = replace_crlf edit.target_content;
  replacement_content = replace_crlf edit.replacement_content;
}

unfoldable pub apply_edits : List ReplacementChunk → List Text → Result EditError (List Text)
unfolding apply_edit replace_crlf
apply_edits [] lines = ok lines
apply_edits (edit ∷ edits) lines = apply_edit (without_crlf edit) lines >>= apply_edits edits

unfoldable pub apply_file_edits : Text → List ReplacementChunk → Result EditError Text
unfolding replace_crlf split_lines apply_edits join_lines
apply_file_edits content edits =
    apply_edits edits (split_lines (replace_crlf content)) >>= λ lines. ok (join_lines lines)
