-- ===== src/Story/Parse.antt =====
-- `ParseStoryDependencies` of pkg/services/story_dag_scheduler.go on ASCII texts, with the pattern
-- `dependsOnRE` as a scanner. The YAML reader is a parameter: a list of texts, or `none` on an error.
use mathlib.Core.List.{reverse}
use noctifab.Prelude.{
  ℕ, Bool, ◌&&◌, ◌||◌, List, [], ◌∷◌, Option, none, some, drop, ◌==◌, leb, if◌then◌else◌,
}
use noctifab.Prelude.Text.{
  Text, codes, is_empty, has_prefix, has_suffix, to_lower, trim_space, elem,
}
use noctifab.Story.Ids.{extract_story_id, is_digit}

-- `\s` of the pattern.
abbrev is_blank : ℕ → Bool
is_blank c = c == 9 || c == 10 || c == 12 || c == 13 || c == 32

unfoldable skip_blanks : Text → Text
skip_blanks [] = []
skip_blanks (c ∷ s) = if is_blank c then skip_blanks s else c ∷ s

-- `[\w/.-]`.
abbrev is_word : ℕ → Bool
is_word c =
    is_digit c
    || leb b'A' c && leb c b'Z'
    || leb b'a' c && leb c b'z'
    || c == b'_'
    || c == b'/'
    || c == b'.'
    || c == b'-'

unfoldable take_word : Text → Text
take_word [] = []
take_word (c ∷ s) = if is_word c then c ∷ take_word s else []

abbrev put_front : ℕ → Option Text → Option Text
put_front c none = none
put_front c (some t) = some (c ∷ t)

-- What stands before the closing character, with that character: `.*?` does not pass the end of a line.
unfoldable take_closed : ℕ → Text → Option Text
take_closed close [] = none
take_closed close (c ∷ s) =
    let rest = take_closed close s in
    if c == close then some (c ∷ []) else if c == 10 then none else put_front c rest

-- The group of the pattern: a bracketed list, a quoted text or a word.
unfoldable match_value : Text → Option Text
unfolding take_closed take_word
match_value [] = none
match_value (c ∷ s) =
    if c == b'['
    then put_front c (take_closed b']' s)
    else if c == b'"' || c == b'\''
    then put_front c (take_closed c s)
    else if is_word c
    then some (take_word (c ∷ s))
    else none

-- `\s*depends_on\s*:\s*` and the group.
unfoldable match_entry : Text → Option Text
unfolding skip_blanks has_prefix match_value
match_entry s =
    let name = skip_blanks s in
    let colon = skip_blanks (drop 10 name) in
    if has_prefix (to_lower name) (codes "depends_on") && has_prefix colon (codes ":")
    then match_value (skip_blanks (drop 1 colon))
    else none

abbrev or_else : Option Text → Option Text → Option Text
or_else none second = second
or_else (some x) second = some x

-- The first match behind a line break or `**`.
unfoldable find_inside : Text → Option Text
unfolding has_prefix match_entry
find_inside [] = none
find_inside (c ∷ s) =
    or_else
      (if c == 10
        then match_entry s
        else if has_prefix (c ∷ s) (codes "**")
        then match_entry (drop 1 s)
        else none)
      (find_inside s)

unfoldable find_depends_on : Text → Option Text
unfolding match_entry find_inside
find_depends_on markdown = or_else (match_entry markdown) (find_inside markdown)

unfoldable trim_set_left : (ℕ → Bool) → Text → Text
trim_set_left p [] = []
trim_set_left p (c ∷ s) = if p c then trim_set_left p s else c ∷ s

-- `strings.Trim` with a set of characters.
unfoldable trim_set : (ℕ → Bool) → Text → Text
unfolding trim_set_left
trim_set p s = reverse (trim_set_left p (reverse (trim_set_left p s)))

abbrev is_quote : ℕ → Bool
is_quote c = c == b'"' || c == b'\'' || c == b'`'

abbrev is_bracket : ℕ → Bool
is_bracket c = c == b'[' || c == b']'

abbrev add_front : ℕ → List Text → List Text
add_front c [] = (c ∷ []) ∷ []
add_front c (t ∷ ts) = (c ∷ t) ∷ ts

-- `strings.Split(s, ",")`.
unfoldable split_commas : Text → List Text
split_commas [] = [] ∷ []
split_commas (c ∷ s) =
    let rest = split_commas s in if c == b',' then [] ∷ rest else add_front c rest

unfoldable clean_parts : List Text → List Text
unfolding trim_set trim_space
clean_parts [] = []
clean_parts (p ∷ ps) =
    let clean = trim_set is_quote (trim_space p) in
    let rest = clean_parts ps in if is_empty clean then rest else clean ∷ rest

-- What the YAML reader gives, or else the parts of the text.
abbrev given : Option (List Text) → List Text → List Text
given none parts = parts
given (some texts) parts = texts

-- The texts that the value stands for.
unfoldable raw_list : (Text → Option (List Text)) → Text → List Text
unfolding trim_set trim_space has_prefix has_suffix split_commas clean_parts
raw_list yaml value =
    if has_prefix value (codes "[") && has_suffix value (codes "]")
    then given (yaml value) (clean_parts (split_commas (trim_set is_bracket value)))
    else let clean = trim_set is_quote value in if is_empty clean then [] else clean ∷ []

-- The name that a dependency is known by: its story ID if it has one.
unfoldable dependency_name : Text → Text
unfolding extract_story_id trim_space
dependency_name dep = let id = extract_story_id dep in if is_empty id then trim_space dep else id

-- The last loop: empty names and names that were seen are left out.
unfoldable pub normalize_dependencies : List Text → List Text → List Text
unfolding dependency_name elem
normalize_dependencies seen [] = []
normalize_dependencies seen (dep ∷ deps) =
    let name = dependency_name dep in
    let skip = is_empty name || elem name seen in
    let rest = normalize_dependencies (if skip then seen else name ∷ seen) deps in
    if skip then rest else name ∷ rest

abbrev declared : (Text → Option (List Text)) → Option Text → List Text
declared yaml none = []
declared yaml (some value) = raw_list yaml (trim_space value)

unfoldable pub parse_story_dependencies : (Text → Option (List Text)) → Text → List Text
unfolding find_depends_on raw_list trim_space normalize_dependencies
parse_story_dependencies yaml markdown =
    normalize_dependencies [] (declared yaml (find_depends_on markdown))
