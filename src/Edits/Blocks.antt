-- ===== src/Edits/Blocks.antt =====
-- The blocks that the fallbacks of pkg/services/edit_file_helper.go find: apart from blank lines and white space
-- around the lines, they are the target.
use noctifab.Prelude.{
  ℕ, zero, suc, ◌+◌, ◌-◌, ◌≤◌, ◌≡◌, refl, subst, true, false, List, [], ◌∷◌, some, arith, length,
  take, drop, drop-drop, All, inl, inr, Bool-cases, Option-cases,
}
use noctifab.Prelude.Text.{Text, text_eq, text_eq_iff, trim_space, is_empty}
use noctifab.Edits.Match.{
  LineRange, only, lines_match, trimmed_blocks, match_trimmed_lines, non_blank, line_refs,
  refs_match, normalized_blocks, only_for, match_normalized_lines,
}

All-mono {ℓ κ μ} :
    {A : Type ℓ} {P : A → Type κ} {Q : A → Type μ} (xs : List A)
    → ((x : A) → P x → Q x)
    → All P xs
    → All Q xs
All-mono [] f h = tt
All-mono (x ∷ xs) f h = (f x h.0, All-mono xs f h.1)

All-only :
    (P : LineRange → Type 0) (rs : List LineRange) (r : LineRange)
    → only rs ≡ some r
    → All P rs
    → P r
All-only P [] r e h = cc
All-only P (s ∷ []) r e h = let same : s ≡ r = cc in subst P same h.0
All-only P (s ∷ t ∷ rs) r e h = cc

lines_match-non_blank :
    (xs target : List Text)
    → lines_match xs target ≡ true
    → non_blank (take (length target) xs) ≡ non_blank target
unfolding lines_match non_blank
lines_match-non_blank xs [] h = refl
lines_match-non_blank [] (t ∷ ts) h = cc
lines_match-non_blank (x ∷ xs) (t ∷ ts) h =
    let same : trim_space x ≡ trim_space t =
      ground (arith, text_eq_iff (trim_space x) (trim_space t), h) in
    rw (same, lines_match-non_blank xs ts (ground (arith, h)))

lines_match-take :
    (n : ℕ) (xs target : List Text)
    → lines_match (take n xs) target ≡ true
    → lines_match xs target ≡ true
unfolding lines_match
lines_match-take n xs [] h = refl
lines_match-take zero xs (t ∷ ts) h = cc
lines_match-take (suc n) [] (t ∷ ts) h = h
lines_match-take (suc n) (x ∷ xs) (t ∷ ts) h = ground (arith, lines_match-take n xs ts, h)

lines_match-drop :
    (k n : ℕ) (xs target : List Text)
    → lines_match (drop k (take n xs)) target ≡ true
    → lines_match (drop k xs) target ≡ true
unfolding lines_match
lines_match-drop zero n xs target h = lines_match-take n xs target h
lines_match-drop (suc k) zero xs [] h = refl
lines_match-drop (suc k) zero xs (t ∷ ts) h = cc
lines_match-drop (suc k) (suc n) [] target h = h
lines_match-drop (suc k) (suc n) (x ∷ xs) target h = lines_match-drop k n xs target h

-- A block of the lines from line `i` on that matches the target.
record Found (target : List Text) (i : ℕ) (xs : List Text) (r : LineRange) : Type 0 where
  behind : i ≤ r.first
  ends : r.last ≡ r.first + length target - 1
  matches : lines_match (drop (r.first - i) xs) target ≡ true

trimmed_blocks-Found :
    (target : List Text) (i : ℕ) (xs : List Text)
    → All (Found target i xs) (trimmed_blocks target i xs)
unfolding trimmed_blocks
trimmed_blocks-Found target i [] = tt
trimmed_blocks-Found target i (x ∷ xs) =
    let later : All (Found target i (x ∷ xs)) (trimmed_blocks target (suc i) xs) =
      All-mono (trimmed_blocks target (suc i) xs)
        (λ r f.
          let next : r.first - i ≡ suc (r.first - suc i) = omega (arith, f.behind) in
          record { behind = omega (arith, f.behind); ends = f.ends; matches = rw next f.matches })
        (trimmed_blocks-Found target (suc i) xs) in
    elim (Bool-cases (lines_match (x ∷ xs) target)) [
      | inl here ↦
          let at : i - i ≡ 0 = omega arith in
          rw here (record { behind = omega arith; ends = refl; matches = rw at here }, later)
      | inr other ↦ rw other later
    ]

pub match_trimmed_lines-non_blank :
    (target : List Text) (offset n : ℕ) (lines : List Text) (r : LineRange)
    → match_trimmed_lines (take n (drop offset lines)) target ≡ some r
    → non_blank (take (offset + r.last + 1 - (offset + r.first)) (drop (offset + r.first) lines))
      ≡ non_blank target
unfolding match_trimmed_lines
match_trimmed_lines-non_blank [] offset n lines r e = cc
match_trimmed_lines-non_blank (t ∷ ts) offset n lines r e =
    let target = t ∷ ts in
    let window = take n (drop offset lines) in
    let f =
      All-only (Found target 0 window) (trimmed_blocks target 0 window) r e
        (trimmed_blocks-Found target 0 window) in
    let start : r.first - 0 ≡ r.first = omega arith in
    let whole = lines_match-drop r.first n (drop offset lines) target (rw start at f.matches) in
    let count : offset + r.last + 1 - (offset + r.first) ≡ length target = omega (arith, f.ends) in
    rw (count, ← drop-drop r.first offset lines)
      (lines_match-non_blank (drop r.first (drop offset lines)) target whole)

next_line :
    (i last : ℕ) (x : Text) (xs : List Text) (t : Text) (ts : List Text)
    → ((u : Text) (us : List Text)
        → refs_match (line_refs (suc i) xs) i (u ∷ us) ≡ some last
        → (suc i ≤ last) × (non_blank (take (last + 1 - suc i) xs) ≡ u ∷ us))
    → is_empty (trim_space x) ≡ false
    → trim_space x ≡ t
    → refs_match (line_refs (suc i) xs) i ts ≡ some last
    → (i ≤ last) × (non_blank (take (last + 1 - i) (x ∷ xs)) ≡ t ∷ ts)
unfolding refs_match non_blank
next_line i last x xs t [] later named equal e =
    let at : i ≡ last = cc in
    let count : last + 1 - i ≡ 1 = omega arith in (omega arith, rw (count, named, equal))
next_line i last x xs t (u ∷ us) later named equal e =
    let (behind, same) = later u us e in
    let count : last + 1 - i ≡ suc (last + 1 - suc i) = omega arith in
    (omega arith, rw (count, named, equal, same))

refs_match-non_blank :
    (i before last : ℕ) (xs : List Text) (t : Text) (ts : List Text)
    → refs_match (line_refs i xs) before (t ∷ ts) ≡ some last
    → (i ≤ last) × (non_blank (take (last + 1 - i) xs) ≡ t ∷ ts)
unfolding refs_match line_refs non_blank
refs_match-non_blank i before last [] t ts h = cc
refs_match-non_blank i before last (x ∷ xs) t ts h = elim (Bool-cases (is_empty (trim_space x))) [
  | inl blank ↦
      let (behind, same) = refs_match-non_blank (suc i) before last xs t ts (rw blank at h) in
      let count : last + 1 - i ≡ suc (last + 1 - suc i) = omega arith in
      (omega arith, rw (count, blank) same)
  | inr named ↦ elim (Bool-cases (text_eq (trim_space x) t)) [
    | inr other ↦ let e = rw (named, other) at h in cc
    | inl equal ↦
        next_line i last x xs t ts (λ u us. refs_match-non_blank (suc i) i last xs u us) named
          ((text_eq_iff (trim_space x) t).0 equal) (rw (named, equal) at h)
  ]
]

-- A block of the lines from line `i` on whose lines that are not blank are the target.
record Named (target : List Text) (i : ℕ) (xs : List Text) (r : LineRange) : Type 0 where
  behind : i ≤ r.first
  ordered : r.first ≤ r.last
  same : non_blank (take (r.last + 1 - r.first) (drop (r.first - i) xs)) ≡ target

Named-suc :
    (target : List Text) (i : ℕ) (x : Text) (xs : List Text) (r : LineRange)
    → Named target (suc i) xs r
    → Named target i (x ∷ xs) r
Named-suc target i x xs r n =
    let next : r.first - i ≡ suc (r.first - suc i) = omega (arith, n.behind) in
    record { behind = omega (arith, n.behind); ordered = n.ordered; same = rw next n.same }

normalized_blocks-Named :
    (t : Text) (ts : List Text) (i : ℕ) (xs : List Text)
    → All (Named (t ∷ ts) i xs) (normalized_blocks (t ∷ ts) (line_refs i xs))
unfolding normalized_blocks line_refs
normalized_blocks-Named t ts i [] = tt
normalized_blocks-Named t ts i (x ∷ xs) =
    let blocks = normalized_blocks (t ∷ ts) (line_refs (suc i) xs) in
    let later : All (Named (t ∷ ts) i (x ∷ xs)) blocks =
      All-mono blocks (Named-suc (t ∷ ts) i x xs) (normalized_blocks-Named t ts (suc i) xs) in
    let head = record { index = i; text = trim_space x } ∷ line_refs (suc i) xs in
    elim (Bool-cases (is_empty (trim_space x))) [
      | inl blank ↦ rw blank later
      | inr named ↦ rw named (elim (Option-cases (refs_match head i (t ∷ ts))) [
        | inl none_here ↦ rw none_here later
        | inr (last, found) ↦
            let (behind, same) = refs_match-non_blank i i last (x ∷ xs) t ts (rw named found) in
            let at : i - i ≡ 0 = omega arith in
            rw found (record { behind = omega arith; ordered = behind; same = rw at same }, later)
      ])
    ]

pub match_normalized_lines-non_blank :
    (lines target : List Text) (r : LineRange)
    → match_normalized_lines lines target ≡ some r
    → non_blank (take (0 + r.last + 1 - (0 + r.first)) (drop (0 + r.first) lines))
      ≡ non_blank target
unfolding match_normalized_lines
match_normalized_lines-non_blank lines target r e = found (non_blank target) e
  where
    found :
        (names : List Text)
        → only_for names (normalized_blocks names (line_refs 0 lines)) ≡ some r
        → non_blank (take (0 + r.last + 1 - (0 + r.first)) (drop (0 + r.first) lines)) ≡ names
    found [] e = cc
    found (t ∷ ts) e =
        let n =
          All-only (Named (t ∷ ts) 0 lines) (normalized_blocks (t ∷ ts) (line_refs 0 lines)) r e
            (normalized_blocks-Named t ts 0 lines) in
        let start : r.first - 0 ≡ 0 + r.first = omega arith in
        let count : 0 + r.last + 1 - (0 + r.first) ≡ r.last + 1 - r.first = omega arith in
        rw (count, ← start) n.same
