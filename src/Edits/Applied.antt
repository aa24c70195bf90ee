-- ===== src/Edits/Applied.antt =====
-- What one edit of pkg/services/edit_file_helper.go changes.
use noctifab.Prelude.{
  ℕ, ◌+◌, ◌-◌, ◌≡◌, ◌≢◌, refl, ap, ◌⊎◌, true, not, ◌&&◌, List, [], ◌∷◌, ◌++◌, arith, ltb, ◌==◌,
  length, take, drop, inl, inr, Bool-cases, Option-cases, subst,
}
use noctifab.Prelude.Text.{Text, contains, trim_space, is_empty}
use noctifab.Prelude.Results.{ok}
use noctifab.Edits.Texts.{split_lines, join_lines, replace_first, count_from}
use noctifab.Edits.Match.{LineRange, non_blank, match_trimmed_lines, match_normalized_lines}
use noctifab.Edits.Apply.{
  ReplacementChunk, slice, splice, first_line, reindent, edit_start, edit_end, window_start,
  window_end, replace_between, replace_block, block_edit, apply_edit,
}
use noctifab.Edits.Lines.{Replaced, replace_first-Replaced, count_from-contains, join-split_lines}
use noctifab.Edits.Blocks.{match_trimmed_lines-non_blank, match_normalized_lines-non_blank}

-- How the new lines come from `lines[a:b]`: an occurrence of the target is replaced, or of the target without white
-- space around it, or the lines are the target but for blank lines and white space around the lines.
abbrev pub IsChange : ReplacementChunk → List Text → ℕ → ℕ → List Text → Type 0
IsChange edit lines a b new =
    Replaced edit.target_content edit.replacement_content (join_lines (slice a b lines))
      (join_lines new)
    ⊎ (Replaced (trim_space edit.target_content) (trim_space edit.replacement_content)
          (join_lines (slice a b lines)) (join_lines new)
        ⊎ ((non_blank (slice a b lines) ≡ non_blank (split_lines edit.target_content))
            × (new ≡ reindent (first_line (drop a lines)) (split_lines edit.replacement_content))))

-- A change of one range of lines, with the others as they were.
pub record Applied (edit : ReplacementChunk) (lines result : List Text) : Type 0 where
  pub a : ℕ
  pub b : ℕ
  pub new : List Text
  pub spliced : result ≡ splice a b new lines
  pub change : IsChange edit lines a b new

replace_between-Applied :
    (a b : ℕ) (edit : ReplacementChunk) (lines : List Text)
    → contains (join_lines (slice a b lines)) edit.target_content ≡ true
    → Applied edit lines (replace_between a b edit lines)
unfolding replace_between
replace_between-Applied a b edit lines h =
    let old = join_lines (slice a b lines) in
    let replaced = replace_first edit.target_content edit.replacement_content old in
    record {
      a = a;
      b = b;
      new = split_lines replaced;
      spliced = refl;
      change = inl (
          rw (join-split_lines replaced)
            (replace_first-Replaced edit.target_content edit.replacement_content old h));
    }

take-length : (lines : List Text) → take (length lines) lines ≡ lines
take-length [] = refl
take-length (l ∷ ls) = ap (λ ks. l ∷ ks) (take-length ls)

take-all : (lines : List Text) → take (length lines - 0) lines ≡ lines
take-all lines =
    let same : length lines - 0 ≡ length lines = omega arith in rw same (take-length lines)

splice-all : (new lines : List Text) → new ≡ new ++ drop (length lines) lines
splice-all [] [] = refl
splice-all (k ∷ ks) [] = ap (λ ls. k ∷ ls) (splice-all ks [])
splice-all new (l ∷ ls) = splice-all new ls

replace_once-Applied :
    (target new : Text) (edit : ReplacementChunk) (lines : List Text)
    → (count_from target 0 (join_lines lines) == 1) ≡ true
    → (Replaced target new
          (join_lines (slice 0 (length lines) lines))
          (join_lines (split_lines (replace_first target new (join_lines lines))))
        → IsChange edit lines 0
            (length lines)
            (split_lines (replace_first target new (join_lines lines))))
    → Applied edit lines (split_lines (replace_first target new (join_lines lines)))
replace_once-Applied target new edit lines once is_change =
    let old = join_lines lines in
    let replaced = replace_first target new old in
    let one : count_from target 0 old ≢ 0 = λ e. ground (arith, once, e) in
    let found = count_from-contains target 0 old one in
    record {
      a = 0;
      b = length lines;
      new = split_lines replaced;
      spliced = splice-all (split_lines replaced) lines;
      change = is_change (
          rw (join-split_lines replaced, take-all lines)
            (replace_first-Replaced target new old found));
    }

replace_block-Applied :
    (offset : ℕ) (r : LineRange) (edit : ReplacementChunk) (lines : List Text)
    → non_blank (slice (offset + r.first) (offset + r.last + 1) lines)
      ≡ non_blank (split_lines edit.target_content)
    → Applied edit lines (replace_block offset r edit lines)
unfolding replace_block
replace_block-Applied offset r edit lines same = record {
  a = offset + r.first;
  b = offset + r.last + 1;
  new =
      reindent (first_line (drop (offset + r.first) lines)) (split_lines edit.replacement_content);
  spliced = refl;
  change = inr (inr (same, refl));
}

block_edit-Applied :
    (edit : ReplacementChunk) (lines result : List Text)
    → block_edit edit lines ≡ ok result
    → Applied edit lines result
unfolding block_edit
block_edit-Applied edit lines result e =
    let target = split_lines edit.target_content in
    let w = window_start edit in
    elim (Option-cases (match_trimmed_lines (slice w (window_end edit lines) lines) target)) [
      | inr (r, found) ↦
          let same : replace_block w r edit lines ≡ result = cc (rw found at e) in
          subst (Applied edit lines) same (
            replace_block-Applied w r edit lines
              (match_trimmed_lines-non_blank target w _ lines r found))
      | inl not_in_window ↦ elim (Option-cases (match_trimmed_lines lines target)) [
        | inr (r, found) ↦
            let same : replace_block 0 r edit lines ≡ result =
              cc (rw (not_in_window, found) at e) in
            subst (Applied edit lines) same (
              replace_block-Applied 0 r edit lines (
                match_trimmed_lines-non_blank target 0 (length lines - 0) lines r
                  (rw (take-all lines) found)))
        | inl not_in_file ↦ elim (Option-cases (match_normalized_lines lines target)) [
          | inr (r, found) ↦
              let same : replace_block 0 r edit lines ≡ result =
                cc (rw (not_in_window, not_in_file, found) at e) in
              subst (Applied edit lines) same (
                replace_block-Applied 0 r edit lines
                  (match_normalized_lines-non_blank lines target r found))
          | inl nowhere ↦ absurd (ground (arith, rw (not_in_window, not_in_file, nowhere) at e))
        ]
      ]
    ]

-- An edit that succeeds replaces one range of lines and keeps all others. Within the range it replaces an
-- occurrence of the target by the replacement, or of the target without white space around it by the
-- replacement without it, or the lines of the range that are not blank are those of the target, up to white
-- space around them, and the new lines are those of the replacement, indented as the first line was if they
-- are not.
pub apply_edit-Applied :
    (edit : ReplacementChunk) (lines result : List Text)
    → apply_edit edit lines ≡ ok result
    → Applied edit lines result
unfolding apply_edit
apply_edit-Applied edit lines result e =
    let start = edit_start edit in
    let end = edit_end edit lines in
    let joined = join_lines lines in
    let trimmed = trim_space edit.target_content in
    elim (Bool-cases (ltb end start)) [
      | inl bad ↦ let h = rw bad at e in cc
      | inr good ↦
          elim (Bool-cases
            (contains (join_lines (slice (start - 1) end lines)) edit.target_content)) [
              | inl in_range ↦
                  let same : replace_between (start - 1) end edit lines ≡ result =
                    cc (rw (good, in_range) at e) in
                  subst (Applied edit lines) same
                    (replace_between-Applied (start - 1) end edit lines in_range)
              | inr out ↦
                  elim (Bool-cases (
                    contains (join_lines (slice (window_start edit) (window_end edit lines) lines))
                      edit.target_content)) [
                        | inl in_window ↦
                            let same : replace_between (window_start edit) (window_end edit lines)
                                  edit lines
                                ≡ result =
                              cc (rw (good, out, in_window) at e) in
                            subst (Applied edit lines) same (
                              replace_between-Applied (window_start edit) (window_end edit lines)
                                edit lines in_window)
                        | inr beyond ↦
                            elim (Bool-cases (count_from edit.target_content 0 joined == 1)) [
                              | inl once ↦
                                  let same : split_lines (
                                        replace_first edit.target_content edit.replacement_content
                                          joined)
                                      ≡ result =
                                    cc (rw (good, out, beyond, once) at e) in
                                  subst (Applied edit lines) same (
                                    replace_once-Applied edit.target_content
                                      edit.replacement_content edit lines once inl)
                              | inr more ↦
                                  elim (Bool-cases
                                    (not (is_empty trimmed) && count_from trimmed 0 joined == 1)) [
                                      | inl once ↦
                                          let same : split_lines (
                                                replace_first trimmed
                                                  (trim_space edit.replacement_content) joined)
                                              ≡ result =
                                            cc (rw (good, out, beyond, more, once) at e) in
                                          subst (Applied edit lines) same (
                                            replace_once-Applied trimmed
                                              (trim_space edit.replacement_content) edit lines
                                              (ground (arith, once)) (λ r. inr (inl r)))
                                      | inr none_left ↦
                                          block_edit-Applied edit lines result
                                            (rw (good, out, beyond, more, none_left) at e)
                                    ]
                            ]
                      ]
            ]
    ]
