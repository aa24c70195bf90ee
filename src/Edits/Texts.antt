-- ===== src/Edits/Texts.antt =====
-- The texts of an edit (pkg/services/edit_file_helper.go), with what is used of Go's `strings`.
use noctifab.Prelude.{
  ℕ, zero, suc, ◌-◌, Bool, true, not, ◌&&◌, ◌||◌, List, [], ◌∷◌, ◌++◌, Option, none, some, ◌==◌,
  if◌then◌else◌, length, drop,
}
use noctifab.Prelude.Text.{Text, codes, is_empty, has_prefix}
use noctifab.Prelude.Maps.{Map}

-- The first of the keys with a text that passes the test, or the empty text.
unfoldable first_of : (Text → Bool) → Map Text → List Text → Text
first_of p args [] = []
first_of p args (k ∷ ks) = or_next (args k) (first_of p args ks)
  where
    or_next : Option Text → Text → Text
    or_next none rest = rest
    or_next (some s) rest = if p s then s else rest

-- The arguments that are texts, by their names.
unfoldable pub extract_edit_strings : Map Text → Option (Text × Text)
unfolding first_of
extract_edit_strings args =
    let target =
      first_of (λ s. not (is_empty s)) args
        (codes "target_content"
          ∷ codes "old_content"
          ∷ codes "old_str"
          ∷ codes "search"
          ∷ codes "target"
          ∷ []) in
    let replacement =
      first_of (λ s. true) args
        (codes "replacement_content"
          ∷ codes "new_content"
          ∷ codes "new_str"
          ∷ codes "replace"
          ∷ codes "replacement"
          ∷ []) in
    if not (is_empty target) && not (is_empty replacement) then some (target, replacement) else none

-- `strings.ReplaceAll(s, "\r\n", "\n")`.
unfoldable pub replace_crlf : Text → Text
replace_crlf [] = []
replace_crlf (c ∷ s) =
    let rest = replace_crlf s in if c == 13 && has_prefix s (codes "\n") then rest else c ∷ rest

abbrev pub add_front : ℕ → List Text → List Text
add_front c [] = (c ∷ []) ∷ []
add_front c (t ∷ ts) = (c ∷ t) ∷ ts

-- `strings.Split(s, "\n")`.
unfoldable pub split_lines : Text → List Text
split_lines [] = [] ∷ []
split_lines (c ∷ s) = let rest = split_lines s in if c == 10 then [] ∷ rest else add_front c rest

-- `strings.Join(lines, "\n")`.
unfoldable pub join_lines : List Text → Text
join_lines [] = []
join_lines (l ∷ []) = l
join_lines (l ∷ k ∷ ls) = l ++ 10 ∷ join_lines (k ∷ ls)

-- `strings.Replace(s, target, new, 1)`.
unfoldable pub replace_first : (target new s : Text) → Text
unfolding has_prefix
replace_first target new [] = if has_prefix [] target then new else []
replace_first target new (c ∷ s) =
    let rest = replace_first target new s in
    if has_prefix (c ∷ s) target then new ++ drop (length target) (c ∷ s) else c ∷ rest

-- `strings.Count(s, target)` for a target that is not empty; the first bytes may belong to the match before.
unfoldable pub count_from : Text → ℕ → Text → ℕ
unfolding has_prefix
count_from target skip [] = 0
count_from target (suc skip) (c ∷ s) = count_from target skip s
count_from target zero (c ∷ s) =
    let here = has_prefix (c ∷ s) target in
    let rest = count_from target (if here then length target - 1 else 0) s in
    if here then suc rest else rest

abbrev pub is_indent : ℕ → Bool
is_indent c = c == 32 || c == 9

unfoldable pub take_indent : Text → Text
take_indent [] = []
take_indent (c ∷ s) = if is_indent c then c ∷ take_indent s else []

-- A line of blanks only has no leading whitespace, as in the source.
unfoldable pub extract_leading_whitespace : Text → Text
unfolding take_indent
extract_leading_whitespace s = if length (take_indent s) == length s then [] else take_indent s
