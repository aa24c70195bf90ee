-- ===== src/Prelude/Lists.antt =====
-- Lists measured and indexed by native numbers, under the library's names.
use Prim.Native.Nat.{ℕ, zero, suc, ◌+◌, ◌-◌, ◌≤◌, ◌<◌}
use native.Mathlib.Nat.{zero-add}
use mathlib.Core.Path.{◌≡◌, refl, sym, subst, ap, ◌∙◌}
use mathlib.Core.List.{List, [], ◌∷◌, ◌++◌, Memᴰ}
use mathlib.Core.Option.{Option, none, some}
use mathlib.Core.Bool.{Bool, true, false, ◌&&◌, ◌||◌}
use mathlib.Core.Logic.{inl, inr}
use noctifab.Prelude.Tests.{Bool-cases}
use native.Mathlib.Omega.{arith}

-- The entries of a list all satisfy a predicate.
abbrev pub All {ℓ κ} : {A : Type ℓ} → (A → Type κ) → List A → Type κ
All P [] = Unit
All P (x ∷ xs) = P x × All P xs

pub All-Mem {ℓ κ} : {A : Type ℓ} (P : A → Type κ) {x : A} (xs : List A) → All P xs → Memᴰ x xs → P x
All-Mem P [] h m = elim m [ ]
All-Mem P (y ∷ ys) h (Memᴰ.head e) = subst P (sym e) h.0
All-Mem P (y ∷ ys) h (Memᴰ.tail m) = All-Mem P ys h.1 m

-- The entries of a list are entries of it.
pub Mem-All {ℓ} : {A : Type ℓ} (xs : List A) → All (λ x. Memᴰ x xs) xs
Mem-All {A} xs = go xs xs (λ x m. m)
  where
    go : (zs ys : List A) → ((x : A) → Memᴰ x ys → Memᴰ x zs) → All (λ x. Memᴰ x zs) ys
    go zs [] h = tt
    go zs (y ∷ ys) h = (h y (Memᴰ.head refl), go zs ys (λ x m. h x (Memᴰ.tail m)))

module _ {ℓ} {A : Type ℓ} where
  abbrev pub length : List A → ℕ
  length [] = 0
  length (x ∷ xs) = suc (length xs)

  abbrev pub get_elem? : List A → ℕ → Option A
  get_elem? [] i = none
  get_elem? (x ∷ xs) zero = some x
  get_elem? (x ∷ xs) (suc i) = get_elem? xs i

  abbrev pub drop : ℕ → List A → List A
  drop zero xs = xs
  drop (suc n) [] = []
  drop (suc n) (x ∷ xs) = drop n xs

  abbrev pub take : ℕ → List A → List A
  take zero xs = []
  take (suc n) [] = []
  take (suc n) (x ∷ xs) = x ∷ take n xs

  pub take-append-drop : (n : ℕ) (xs : List A) → take n xs ++ drop n xs ≡ xs
  take-append-drop zero xs = refl
  take-append-drop (suc n) [] = refl
  take-append-drop (suc n) (x ∷ xs) = rw (take-append-drop n xs)

  pub length-append : (xs ys : List A) → length (xs ++ ys) ≡ length xs + length ys
  length-append [] ys = omega arith
  length-append (x ∷ xs) ys = omega (arith, length-append xs ys)

  pub length-drop : (n : ℕ) (xs : List A) → length (drop n xs) ≡ length xs - n
  length-drop zero xs = omega arith
  length-drop (suc n) [] = omega arith
  length-drop (suc n) (x ∷ xs) = omega (arith, length-drop n xs)

  pub get_elem?-lt : (xs : List A) (i : ℕ) → i < length xs → (x : A) × (get_elem? xs i ≡ some x)
  get_elem?-lt [] i h = absurd (omega arith)
  get_elem?-lt (x ∷ xs) zero h = (x, refl)
  get_elem?-lt (x ∷ xs) (suc i) h = get_elem?-lt xs i (omega arith)

  pub get_elem?-append :
      (xs ys : List A) (i : ℕ) → i < length xs → get_elem? (xs ++ ys) i ≡ get_elem? xs i
  get_elem?-append [] ys i h = absurd (omega arith)
  get_elem?-append (x ∷ xs) ys zero h = refl
  get_elem?-append (x ∷ xs) ys (suc i) h = get_elem?-append xs ys i (omega arith)

  pub get_elem?-snoc : (xs : List A) (x : A) → get_elem? (xs ++ x ∷ []) (length xs) ≡ some x
  get_elem?-snoc [] x = refl
  get_elem?-snoc (y ∷ xs) x = get_elem?-snoc xs x

-- `some` of a property and `every` entry with it, as Boolean loops.
unfoldable pub any {ℓ} : {A : Type ℓ} → (A → Bool) → List A → Bool
any p [] = false
any p (x ∷ xs) = p x || any p xs

unfoldable pub all {ℓ} : {A : Type ℓ} → (A → Bool) → List A → Bool
all p [] = true
all p (x ∷ xs) = p x && all p xs

pub all-Mem {ℓ} :
    {A : Type ℓ} (p : A → Bool) {x : A} (xs : List A) → all p xs ≡ true → Memᴰ x xs → p x ≡ true
unfolding all
all-Mem p [] h m = elim m [ ]
all-Mem p (y ∷ ys) h (Memᴰ.head e) = rw e (ground arith)
all-Mem p (y ∷ ys) h (Memᴰ.tail m) = all-Mem p ys (ground arith) m

pub any-Mem {ℓ} :
    {A : Type ℓ} (p : A → Bool) (xs : List A) → any p xs ≡ true → (x : A) × Memᴰ x xs × (p x ≡ true)
unfolding any
any-Mem p [] h = cc
any-Mem p (y ∷ ys) h = elim (Bool-cases (p y)) [
  | inl yes_here ↦ (y, Memᴰ.head refl, yes_here)
  | inr not_here ↦ let (x, m, e) = any-Mem p ys (ground arith) in (x, Memᴰ.tail m, e)
]

pub any_of_Mem {ℓ} :
    {A : Type ℓ} (p : A → Bool) {x : A} (xs : List A) → Memᴰ x xs → p x ≡ true → any p xs ≡ true
unfolding any
any_of_Mem p [] m h = elim m [ ]
any_of_Mem p (y ∷ ys) (Memᴰ.head e) h = rw (rw e at h)
any_of_Mem p (y ∷ ys) (Memᴰ.tail m) h = ground (arith, any_of_Mem p ys m h)

pub all_of_Mem {ℓ} :
    {A : Type ℓ} (p : A → Bool) (xs : List A) → ((x : A) → Memᴰ x xs → p x ≡ true) → all p xs ≡ true
unfolding all
all_of_Mem p [] h = refl
all_of_Mem p (y ∷ ys) h =
    ground (arith, h y (Memᴰ.head refl), all_of_Mem p ys (λ x m. h x (Memᴰ.tail m)))

module _ {ℓ} {A : Type ℓ} where
  -- The last entries of a list, at most `n` of them.
  abbrev pub keep_last : ℕ → List A → List A
  keep_last n xs = drop (length xs - n) xs

  pub length-keep_last : (n : ℕ) (xs : List A) → length (keep_last n xs) ≤ n
  length-keep_last n xs = omega (arith, length-drop (length xs - n) xs)

  pub keep_last-all : (n : ℕ) (xs : List A) → length xs ≤ n → keep_last n xs ≡ xs
  keep_last-all n xs h = let none_over : length xs - n ≡ 0 = omega arith in rw none_over

  pub drop-drop : (m n : ℕ) (xs : List A) → drop m (drop n xs) ≡ drop (n + m) xs
  drop-drop m zero xs = rw zero-add
  drop-drop zero (suc n) [] = let s : suc n + 0 ≡ suc n = omega arith in rw s
  drop-drop (suc m) (suc n) [] = let s : suc n + suc m ≡ suc (n + suc m) = omega arith in rw s
  drop-drop m (suc n) (x ∷ xs) =
      let s : suc n + m ≡ suc (n + m) = omega arith in rw s (drop-drop m n xs)

  pub drop-append : (n : ℕ) (xs ys : List A) → n ≤ length xs → drop n (xs ++ ys) ≡ drop n xs ++ ys
  drop-append zero xs ys h = refl
  drop-append (suc n) [] ys h = absurd (omega arith)
  drop-append (suc n) (x ∷ xs) ys h = drop-append n xs ys (omega arith)

  -- Entries that are forgotten do not come back: only the kept ones and the new ones matter.
  pub keep_last-append :
      (n : ℕ) (xs ys : List A) → keep_last n (keep_last n xs ++ ys) ≡ keep_last n (xs ++ ys)
  keep_last-append n xs ys =
      let k = length xs - n in
      let moved : drop k (xs ++ ys) ≡ drop k xs ++ ys = drop-append k xs ys (omega arith) in
      let m = length (drop k xs ++ ys) - n in
      let total : k + m ≡ length (xs ++ ys) - n =
        omega (arith, length-append (drop k xs) ys, length-drop k xs, length-append xs ys) in
      ap (drop m) (sym moved) ∙ drop-drop m k (xs ++ ys) ∙ ap (λ (j : ℕ). drop j (xs ++ ys)) total
