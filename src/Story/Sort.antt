-- ===== src/Story/Sort.antt =====
-- The stable sort of Go's `sort` package, which pkg/services/story_dag_scheduler.go calls: an insertion sort of blocks
-- of 20 entries, which are then merged in place. A segment is a list, with places counted from its start. The
-- comparison need not be an order, so the algorithm is written out.
use noctifab.Prelude.{
  ℕ, zero, suc, ◌+◌, ◌-◌, ◌*◌, ◌/◌, Bool, true, false, not, ◌&&◌, List, [], ◌∷◌, ◌++◌, Option, none,
  some, leb, ltb, ◌==◌, if◌then◌else◌, length, take, drop, get_elem?,
}
use mathlib.Core.List.{reverse}
use noctifab.Prelude.Text.{Text}
pub mod Kept

-- One pass of an insertion sort, on the sorted entries in reverse order.
unfoldable pub insert_back : (Text → Text → Bool) → Text → List Text → List Text
insert_back less x [] = x ∷ []
insert_back less x (y ∷ ys) =
    let rest = insert_back less x ys in if less x y then y ∷ rest else x ∷ y ∷ ys

unfoldable pub insert_all : (Text → Text → Bool) → List Text → List Text → List Text
unfolding insert_back
insert_all less sorted [] = sorted
insert_all less sorted (x ∷ xs) = insert_all less (insert_back less x sorted) xs

abbrev pub insertion_sort : (Text → Text → Bool) → List Text → List Text
insertion_sort less l = reverse (insert_all less [] l)

-- `data.Less(i, j)`, at places of the segment.
abbrev less_at : (Text → Text → Bool) → Option Text → Option Text → Bool
less_at less (some x) (some y) = less x y
less_at less (some x) none = false
less_at less none y = false

-- The loops `for i < j` of the merge: a binary search.
unfoldable pub search_place : (ℕ → Bool) → ℕ → ℕ → ℕ → ℕ
search_place goes_right zero i j = i
search_place goes_right (suc fuel) i j =
    let h = (i + j) / 2 in
    elim (ltb i j) [
      | false ↦ i
      | true ↦
          search_place goes_right fuel (if goes_right h then h + 1 else i)
            (if goes_right h then j else h)
    ]

-- `rotate_func`: the places from `i` to `m` change places with those from `m` to `j`.
abbrev pub rotate : ℕ → ℕ → ℕ → List Text → List Text
rotate i m j l =
    take i l
    ++ (take (j - m) (drop (m - i) (drop i l))
        ++ (take (m - i) (drop i l) ++ drop (j - m) (drop (m - i) (drop i l))))

-- `symMerge_func` of the first `m` places with the others. A segment of the fuel's length or less has enough fuel, since
-- each call is on a shorter one.
unfoldable pub sym_merge : (Text → Text → Bool) → ℕ → ℕ → List Text → List Text
unfolding search_place
sym_merge less zero m l = l
sym_merge less (suc fuel) m l =
    let b = length l in
    let mid = b / 2 in
    let n = mid + m in
    let steps = suc b in
    let start =
      search_place (λ c. not (less_at less (get_elem? l (n - 1 - c)) (get_elem? l c))) steps
        (if ltb mid m then n - b else 0) (if ltb mid m then mid else m) in
    let end = n - start in
    let turned = if ltb start m && ltb m end then rotate start m end l else l in
    elim (m == 1) [
      | true ↦
          rotate 0 1 (search_place (λ h. less_at less (get_elem? l h) (get_elem? l 0)) steps m b) l
      | false ↦ elim (b - m == 1) [
        | true ↦
            rotate
              (search_place (λ h. not (less_at less (get_elem? l m) (get_elem? l h))) steps 0 m) m b
              l
        | false ↦
            elim (ltb 0 start && ltb start mid) [
              | true ↦ sym_merge less fuel start (take mid turned)
              | false ↦ take mid turned
            ]
            ++ elim (ltb mid end && ltb end b) [
              | true ↦ sym_merge less fuel (end - mid) (drop mid turned)
              | false ↦ drop mid turned
            ]
      ]
    ]

-- The blocks, sorted.
unfoldable pub sort_blocks : (Text → Text → Bool) → ℕ → List Text → List Text
unfolding insert_all
sort_blocks less zero l = l
sort_blocks less (suc fuel) l = elim (leb 20 (length l)) [
  | true ↦ insertion_sort less (take 20 l) ++ sort_blocks less fuel (drop 20 l)
  | false ↦ insertion_sort less l
]

-- Each two neighbours of the size, merged.
unfoldable pub merge_blocks : (Text → Text → Bool) → ℕ → ℕ → List Text → List Text
unfolding sym_merge
merge_blocks less zero size l = l
merge_blocks less (suc fuel) size l = elim (leb (2 * size) (length l)) [
  | true ↦
      sym_merge less (length l) size (take (2 * size) l)
      ++ merge_blocks less fuel size (drop (2 * size) l)
  | false ↦ if ltb size (length l) then sym_merge less (length l) size l else l
]

unfoldable pub merge_all : (Text → Text → Bool) → ℕ → ℕ → List Text → List Text
unfolding merge_blocks
merge_all less zero size l = l
merge_all less (suc fuel) size l = elim (ltb size (length l)) [
  | true ↦ merge_all less fuel (size * 2) (merge_blocks less (suc (length l)) size l)
  | false ↦ l
]

-- `stable_func`. The fuel is one more than the number of blocks or of rounds can be.
unfoldable pub slice_stable : (Text → Text → Bool) → List Text → List Text
unfolding sort_blocks merge_all
slice_stable less l = let fuel = suc (length l) in merge_all less fuel 20 (sort_blocks less fuel l)
