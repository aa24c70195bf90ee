-- ===== src/Story/Ids.antt =====
-- Story identifiers: `ExtractStoryID` and `ExtractStorySequence` of
-- pkg/services/story_dag_scheduler.go, `parseStoryIndex` of pkg/services/scheduler.go and
-- `isTaskReference` of pkg/services/task_dependencies.go, on ASCII texts.
use mathlib.Core.List.{reverse}
use Prim.Native.Nat.{◌^◌}
use noctifab.Prelude.{
  ℕ, zero, suc, ◌+◌, ◌-◌, ◌*◌, ◌%◌, Bool, true, false, ◌&&◌, ◌||◌, [], ◌∷◌, ◌++◌, map, leb, ltb,
  ◌==◌, if◌then◌else◌, length,
}
use noctifab.Prelude.Text.{Text, codes, is_empty, has_prefix, contains, to_lower, trim_space}

abbrev pub is_digit : ℕ → Bool
is_digit c = leb b'0' c && leb c b'9'

strip_slashes : Text → Text
strip_slashes [] = []
strip_slashes (c ∷ s) = if c == b'/' then strip_slashes s else c ∷ s

take_to_slash : Text → Text
take_to_slash [] = []
take_to_slash (c ∷ s) = if c == b'/' then [] else c ∷ take_to_slash s

-- `filepath.Base` on a Unix path.
unfoldable pub base_name : Text → Text
unfolding strip_slashes take_to_slash
base_name [] = codes "."
base_name (c ∷ s) =
    let last = reverse (take_to_slash (strip_slashes (reverse (c ∷ s)))) in
    if is_empty last then codes "/" else last

unfoldable pub take_digits : Text → Text
take_digits [] = []
take_digits (c ∷ s) = if is_digit c then c ∷ take_digits s else []

abbrev pub drop_three : Text → Text
drop_three (a ∷ b ∷ c ∷ s) = s
drop_three _ = []

-- The digits at the first place where `(?i)US-(\d+)` matches; no match gives the empty text.
unfoldable pub story_digits : Text → Text
unfolding has_prefix take_digits
story_digits [] = []
story_digits (c ∷ s) =
    let here = take_digits (drop_three (c ∷ s)) in
    if has_prefix (to_lower (c ∷ s)) (codes "us-") && (if is_empty here then false else true)
    then here
    else story_digits s

unfoldable pub zeros : ℕ → Text
zeros zero = []
zeros (suc n) = b'0' ∷ zeros n

-- `%03s`: zeros on the left up to three characters.
unfoldable pub pad_three : Text → Text
unfolding zeros
pad_three s = zeros (3 - length s) ++ s

unfoldable pub extract_story_id : Text → Text
unfolding base_name story_digits pad_three
extract_story_id path =
    let digits = story_digits (base_name path) in
    if is_empty digits then [] else codes "US-" ++ pad_three digits

unfoldable pub decimal : ℕ → Text → ℕ
decimal acc [] = acc
decimal acc (c ∷ s) = decimal (acc * 10 + (c - b'0')) s

-- `strconv.Atoi` fails on a number that an `int` cannot hold, and the sequence is then 0.
unfoldable pub extract_story_sequence : Text → ℕ
unfolding base_name story_digits decimal
extract_story_sequence path =
    let n = decimal 0 (story_digits (base_name path)) in if ltb n (2 ^ 63) then n else 0

index_from : ℕ → Text → ℕ
index_from num [] = num
index_from num (c ∷ s) = index_from (if is_digit c then (num * 10 + (c - b'0')) % 2 ^ 64 else num) s

-- The digits of the text as one number, as the bit pattern of a 64-bit `int`.
unfoldable pub parse_story_index : Text → ℕ
unfolding index_from
parse_story_index = index_from 0

-- `n > 0` and `a < b` on such bit patterns.
abbrev pub int_pos : ℕ → Bool
int_pos n = ltb 0 n && ltb n (2 ^ 63)

abbrev pub int_lt : ℕ → ℕ → Bool
int_lt a b = ltb ((a + 2 ^ 63) % 2 ^ 64) ((b + 2 ^ 63) % 2 ^ 64)

abbrev upper : ℕ → ℕ
upper c = if leb b'a' c && leb c b'z' then c - 32 else c

abbrev pub to_upper : Text → Text
to_upper = map upper

unfoldable pub is_task_reference : Text → Bool
unfolding contains has_prefix trim_space
is_task_reference dep =
    let up = to_upper (trim_space dep) in
    contains up (codes "-TASK-") || contains up (codes "TASK-") || has_prefix up (codes "TASK-")
