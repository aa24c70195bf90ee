-- ===== src/Story/Sort/Kept.antt =====
-- The stable sort keeps the entries, for any comparison.
use noctifab.Prelude.{
  ℕ, zero, suc, ◌-◌, ◌*◌, ◌/◌, ◌≡◌, refl, ◌∙◌, sym, ap, Bool, true, false, ◌||◌, List, [], ◌∷◌,
  ◌++◌, arith, if◌then◌else◌, leb, ltb, ◌==◌, length, take, drop, take-append-drop,
}
use noctifab.Prelude.Text.{Text, text_eq, elem, elem-append, elem-reverse}
use noctifab.Story.Sort.{
  insert_back, insert_all, insertion_sort, rotate, sym_merge, sort_blocks, merge_blocks, merge_all,
  slice_stable,
}

elem-insert_back :
    (less : Text → Text → Bool) (k x : Text) (ys : List Text)
    → elem k (insert_back less x ys) ≡ (text_eq x k || elem k ys)
unfolding insert_back elem
elem-insert_back less k x [] = refl
elem-insert_back less k x (y ∷ ys) = ground (arith, elem-insert_back less k x ys)

elem-insert_all :
    (less : Text → Text → Bool) (k : Text) (sorted xs : List Text)
    → elem k (insert_all less sorted xs) ≡ (elem k xs || elem k sorted)
unfolding insert_all elem
elem-insert_all less k sorted [] = refl
elem-insert_all less k sorted (x ∷ xs) =
    ground (
      arith,
      elem-insert_all less k (insert_back less x sorted) xs,
      elem-insert_back less k x sorted,
    )

elem-parts :
    (k : Text) (n : ℕ) (l : List Text) → (elem k (take n l) || elem k (drop n l)) ≡ elem k l
elem-parts k n l = sym (elem-append k (take n l) (drop n l)) ∙ ap (elem k) (take-append-drop n l)

elem-rotate : (k : Text) (i m j : ℕ) (l : List Text) → elem k (rotate i m j l) ≡ elem k l
elem-rotate k i m j l =
    let rest = drop i l in
    let right = drop (m - i) rest in
    ground (
      arith,
      elem-append k (take i l) (take (j - m) right ++ (take (m - i) rest ++ drop (j - m) right)),
      elem-append k (take (j - m) right) (take (m - i) rest ++ drop (j - m) right),
      elem-append k (take (m - i) rest) (drop (j - m) right),
      elem-parts k i l,
      elem-parts k (m - i) rest,
      elem-parts k (j - m) right,
    )

module _ (less : Text → Text → Bool) (k : Text) where
  elem-insertion_sort : (l : List Text) → elem k (insertion_sort less l) ≡ elem k l
  unfolding elem
  elem-insertion_sort l =
      ground (arith, elem-reverse k (insert_all less [] l), elem-insert_all less k [] l)

  -- Two parts of a segment, each of which keeps its entries.
  elem-both :
      (n : ℕ) (l left right : List Text)
      → elem k left ≡ elem k (take n l)
      → elem k right ≡ elem k (drop n l)
      → elem k (left ++ right) ≡ elem k l
  elem-both n l left right e f = ground (arith, elem-append k left right, elem-parts k n l)

  -- A part that is changed only if the test holds.
  elem-when :
      (b : Bool) (t l : List Text)
      → elem k t ≡ elem k l
      → elem k (elim b [ true ↦ t | false ↦ l ]) ≡ elem k l
  elem-when true t l e = e
  elem-when false t l e = refl

  elem-if :
      (b : Bool) (t l : List Text) → elem k t ≡ elem k l → elem k (if b then t else l) ≡ elem k l
  elem-if true t l e = e
  elem-if false t l e = refl

  elem-choose :
      (b : Bool) (t f l : List Text)
      → elem k t ≡ elem k l
      → elem k f ≡ elem k l
      → elem k (elim b [ true ↦ t | false ↦ f ]) ≡ elem k l
  elem-choose true t f l e g = e
  elem-choose false t f l e g = g

  elem-sym_merge : (fuel m : ℕ) (l : List Text) → elem k (sym_merge less fuel m l) ≡ elem k l
  unfolding sym_merge
  elem-sym_merge zero m l = refl
  elem-sym_merge (suc fuel) m l = elem-choose (m == 1) _ _ l (elem-rotate k 0 1 _ l) (
      elem-choose (length l - m == 1) _ _ l (elem-rotate k _ m (length l) l) (
        elem-both (length l / 2) _ _ _ (elem-when _ _ _ (elem-sym_merge fuel _ _))
          (elem-when _ _ _ (elem-sym_merge fuel _ _))
        ∙ elem-if _ _ l (elem-rotate k _ m _ l)))

  elem-sort_blocks : (fuel : ℕ) (l : List Text) → elem k (sort_blocks less fuel l) ≡ elem k l
  unfolding sort_blocks
  elem-sort_blocks zero l = refl
  elem-sort_blocks (suc fuel) l =
      elem-choose (leb 20 (length l)) _ _ l
        (elem-both 20 l _ _ (elem-insertion_sort (take 20 l)) (elem-sort_blocks fuel (drop 20 l)))
        (elem-insertion_sort l)

  elem-merge_blocks :
      (fuel size : ℕ) (l : List Text) → elem k (merge_blocks less fuel size l) ≡ elem k l
  unfolding merge_blocks
  elem-merge_blocks zero size l = refl
  elem-merge_blocks (suc fuel) size l =
      elem-choose (leb (2 * size) (length l)) _ _ l
        (elem-both (2 * size) l _ _ (elem-sym_merge (length l) size (take (2 * size) l))
          (elem-merge_blocks fuel size (drop (2 * size) l)))
        (elem-if _ _ l (elem-sym_merge (length l) size l))

  elem-merge_all : (fuel size : ℕ) (l : List Text) → elem k (merge_all less fuel size l) ≡ elem k l
  unfolding merge_all
  elem-merge_all zero size l = refl
  elem-merge_all (suc fuel) size l = elem-when (ltb size (length l)) _ l (
      elem-merge_all fuel (size * 2) (merge_blocks less (suc (length l)) size l)
      ∙ elem-merge_blocks (suc (length l)) size l)

  pub elem-slice_stable : (l : List Text) → elem k (slice_stable less l) ≡ elem k l
  unfolding slice_stable
  elem-slice_stable l =
      elem-merge_all (suc (length l)) 20 (sort_blocks less (suc (length l)) l)
      ∙ elem-sort_blocks (suc (length l)) l
