-- ===== src/Edits/Match.antt =====
-- Blocks of lines that match up to white space: pkg/services/edit_file_helper.go.
use noctifab.Prelude.{
  ℕ, suc, ◌+◌, ◌-◌, Bool, true, false, ◌&&◌, List, [], ◌∷◌, Option, none, some, if◌then◌else◌,
  length,
}
use noctifab.Prelude.Text.{Text, text_eq, is_empty, trim_space}

pub record LineRange : Type 0 where
  pub first : ℕ
  pub last : ℕ

-- The only entry of a list that has one.
abbrev pub only : List LineRange → Option LineRange
only [] = none
only (r ∷ []) = some r
only (r ∷ s ∷ rs) = none

unfoldable pub lines_match : (file target : List Text) → Bool
unfolding trim_space text_eq
lines_match file [] = true
lines_match [] (t ∷ ts) = false
lines_match (f ∷ fs) (t ∷ ts) = text_eq (trim_space f) (trim_space t) && lines_match fs ts

-- The blocks of the file from line `i` on that match the target.
unfoldable pub trimmed_blocks : List Text → ℕ → List Text → List LineRange
unfolding lines_match
trimmed_blocks target i [] = []
trimmed_blocks target i (f ∷ fs) =
    let rest = trimmed_blocks target (suc i) fs in
    if lines_match (f ∷ fs) target
    then record { first = i; last = i + length target - 1 } ∷ rest
    else rest

unfoldable pub match_trimmed_lines : List Text → List Text → Option LineRange
unfolding trimmed_blocks
match_trimmed_lines file [] = none
match_trimmed_lines file (t ∷ ts) = only (trimmed_blocks (t ∷ ts) 0 file)

unfoldable pub non_blank : List Text → List Text
unfolding trim_space
non_blank [] = []
non_blank (l ∷ ls) =
    let rest = non_blank ls in if is_empty (trim_space l) then rest else trim_space l ∷ rest

pub record LineRef : Type 0 where
  pub index : ℕ
  pub text : Text

unfoldable pub line_refs : ℕ → List Text → List LineRef
unfolding trim_space
line_refs i [] = []
line_refs i (l ∷ ls) =
    let rest = line_refs (suc i) ls in
    if is_empty (trim_space l) then rest else record { index = i; text = trim_space l } ∷ rest

-- The index of the last line of a match of the target at the head, if there is one.
unfoldable pub refs_match : List LineRef → ℕ → List Text → Option ℕ
unfolding text_eq
refs_match refs last [] = some last
refs_match [] last (t ∷ ts) = none
refs_match (r ∷ rs) last (t ∷ ts) =
    let rest = refs_match rs r.index ts in if text_eq r.text t then rest else none

abbrev pub add_block : ℕ → Option ℕ → List LineRange → List LineRange
add_block first none rest = rest
add_block first (some last) rest = record { first = first; last = last } ∷ rest

unfoldable pub normalized_blocks : List Text → List LineRef → List LineRange
unfolding refs_match
normalized_blocks target [] = []
normalized_blocks target (r ∷ rs) =
    add_block r.index (refs_match (r ∷ rs) r.index target) (normalized_blocks target rs)

abbrev pub only_for : List Text → List LineRange → Option LineRange
only_for [] blocks = none
only_for (t ∷ ts) blocks = only blocks

unfoldable pub match_normalized_lines : List Text → List Text → Option LineRange
unfolding non_blank line_refs normalized_blocks
match_normalized_lines file target =
    only_for (non_blank target) (normalized_blocks (non_blank target) (line_refs 0 file))
