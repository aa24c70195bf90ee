-- ===== src/Prelude/Text.antt =====
-- Texts as lists of bytes, and what the program uses of Go's `strings` package on ASCII texts.
use Prim.Native.Nat.{ℕ, suc, ◌+◌}
use Prim.Native.Char.{code}
use Prim.Native.String.{String}
use mathlib.Core.Path.{◌≡◌, refl}
use mathlib.Core.Logic.{◌↔◌}
use mathlib.Core.Bool.{Bool, true, false, ◌&&◌, ◌||◌}
use mathlib.Core.List.{List, [], ◌∷◌, ◌++◌, reverse, reverse_aux, map}
use native.Mathlib.Omega.{arith}
use noctifab.Prelude.Lists.{length}
use noctifab.Prelude.Tests.{leb, ◌==◌, if◌then◌else◌}

abbrev pub Text : Type 0
Text = List ℕ

-- The bytes of a literal.
abbrev pub codes : String → Text
codes String.[] = []
codes (String.◌∷◌ c s) = code c ∷ codes s

-- `a == b` on strings.
unfoldable pub text_eq : Text → Text → Bool
text_eq [] [] = true
text_eq [] (y ∷ ys) = false
text_eq (x ∷ xs) [] = false
text_eq (x ∷ xs) (y ∷ ys) = x == y && text_eq xs ys

pub text_eq_iff : (a b : Text) → (text_eq a b ≡ true) ↔ (a ≡ b)
unfolding text_eq
text_eq_iff [] [] = ground arith
text_eq_iff [] (y ∷ ys) = ground arith
text_eq_iff (x ∷ xs) [] = ground arith
text_eq_iff (x ∷ xs) (y ∷ ys) = ground (arith, text_eq_iff xs ys)

pub text_eq_self : (a : Text) → text_eq a a ≡ true
text_eq_self a = (text_eq_iff a a).1 refl

abbrev pub is_empty : Text → Bool
is_empty [] = true
is_empty (x ∷ xs) = false

-- `strings.ToLower`, on a byte.
abbrev pub lower : ℕ → ℕ
lower c = if leb b'A' c && leb c b'Z' then c + 32 else c

abbrev pub to_lower : Text → Text
to_lower = map lower

-- `strings.HasPrefix(s, p)`.
unfoldable pub has_prefix : (s p : Text) → Bool
has_prefix s [] = true
has_prefix [] (y ∷ ys) = false
has_prefix (x ∷ xs) (y ∷ ys) = x == y && has_prefix xs ys

-- `strings.HasSuffix(s, p)`.
unfoldable pub has_suffix : (s p : Text) → Bool
unfolding has_prefix
has_suffix s p = has_prefix (reverse s) (reverse p)

-- `strings.Contains(s, p)`.
unfoldable pub contains : (s p : Text) → Bool
unfolding has_prefix
contains [] p = has_prefix [] p
contains (x ∷ xs) p = has_prefix (x ∷ xs) p || contains xs p

-- The ASCII white space that `strings.TrimSpace` removes.
abbrev pub is_space : ℕ → Bool
is_space c = c == 32 || leb 9 c && leb c 13

unfoldable pub trim_left : Text → Text
trim_left [] = []
trim_left (c ∷ s) = if is_space c then trim_left s else c ∷ s

-- `strings.TrimSpace`.
unfoldable pub trim_space : Text → Text
unfolding trim_left
trim_space s = reverse (trim_left (reverse (trim_left s)))

-- A list of texts has an entry equal to the text.
unfoldable pub elem : Text → List Text → Bool
elem k [] = false
elem k (x ∷ xs) = text_eq x k || elem k xs

pub elem-append : (k : Text) (xs ys : List Text) → elem k (xs ++ ys) ≡ (elem k xs || elem k ys)
unfolding elem
elem-append k [] ys = refl
elem-append k (x ∷ xs) ys = ground (arith, elem-append k xs ys)

pub elem-reverse : (k : Text) (xs : List Text) → elem k (reverse xs) ≡ elem k xs
unfolding elem
elem-reverse k xs = ground (arith, aux xs [])
  where
    aux : (xs acc : List Text) → elem k (reverse_aux xs acc) ≡ (elem k xs || elem k acc)
    aux [] acc = refl
    aux (x ∷ xs) acc = ground (arith, aux xs (x ∷ acc))

-- The list without the first entry that equals the text.
unfoldable pub remove_one : Text → List Text → List Text
unfolding text_eq
remove_one k [] = []
remove_one k (x ∷ xs) = let rest = remove_one k xs in if text_eq x k then xs else x ∷ rest

pub length-remove_one :
    (k : Text) (xs : List Text) → elem k xs ≡ true → suc (length (remove_one k xs)) ≡ length xs
unfolding remove_one elem
length-remove_one k [] m = cc
length-remove_one k (x ∷ xs) m = ground (arith, length-remove_one k xs)

pub elem-remove_one :
    (k j : Text) (xs : List Text)
    → text_eq k j ≡ false
    → elem j xs ≡ true
    → elem j (remove_one k xs) ≡ true
unfolding remove_one elem
elem-remove_one k j [] other m = m
elem-remove_one k j (x ∷ xs) other m =
    ground (arith, elem-remove_one k j xs other, text_eq_iff x k, text_eq_iff x j, text_eq_iff k j)

-- No text stands twice in a list.
abbrev pub IsUnique : List Text → Type 0
IsUnique [] = Unit
IsUnique (x ∷ xs) = (elem x xs ≡ false) × IsUnique xs
