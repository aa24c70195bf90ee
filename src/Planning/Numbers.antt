-- ===== src/Planning/Numbers.antt =====
-- `%03d` of Go's `fmt` on the bit patterns of 64-bit integers, and that it can be read back.
use Prim.Native.Nat.{◌^◌}
use noctifab.Prelude.{
  ℕ, zero, suc, ◌+◌, ◌-◌, ◌*◌, ◌/◌, ◌%◌, ◌<◌, ◌≡◌, refl, sym, ap, ◌∙◌, Bool, true, false, [], ◌∷◌,
  ◌++◌, arith, ltb, ◌==◌, if◌then◌else◌, length, inl, inr, Bool-cases,
}
use noctifab.Prelude.Text.{Text}
use noctifab.Story.Ids.{decimal, zeros}

-- The decimal digits of a number below `10 ^ fuel`.
unfoldable pub digits : ℕ → ℕ → Text
digits zero n = []
digits (suc fuel) n =
    let rest = digits fuel (n / 10) in
    if ltb n 10 then (b'0' + n) ∷ [] else rest ++ (b'0' + n % 10) ∷ []

-- Zeros on the left up to the width.
unfoldable pub pad : ℕ → Text → Text
unfolding zeros
pad width s = zeros (width - length s) ++ s

unfoldable pub format_seq : ℕ → Text
unfolding digits pad
format_seq n = if ltb n (2 ^ 63) then pad 3 (digits 20 n) else b'-' ∷ pad 2 (digits 20 (2 ^ 64 - n))

decimal-snoc :
    (acc : ℕ) (s : Text) (c : ℕ) → decimal acc (s ++ c ∷ []) ≡ decimal acc s * 10 + (c - b'0')
unfolding decimal
decimal-snoc acc [] c = refl
decimal-snoc acc (d ∷ s) c = decimal-snoc (acc * 10 + (d - b'0')) s c

abbrev fits : ℕ → ℕ
fits zero = 1
fits (suc fuel) = fits fuel * 10

decimal-digits : (fuel n : ℕ) → n < fits fuel → decimal 0 (digits fuel n) ≡ n
unfolding decimal digits
decimal-digits zero n small = omega arith
decimal-digits (suc fuel) n small = elim (Bool-cases (ltb n 10)) [
  | inl one ↦ rw one (omega arith)
  | inr more ↦
      rw (more, decimal-snoc 0 (digits fuel (n / 10)) (b'0' + n % 10))
        (let ih = decimal-digits fuel (n / 10) (omega arith) in omega (arith, ih))
]

decimal-zeros : (n : ℕ) (s : Text) → decimal 0 (zeros n ++ s) ≡ decimal 0 s
unfolding decimal zeros
decimal-zeros zero s = refl
decimal-zeros (suc n) s = decimal-zeros n s

decimal-pad : (width n : ℕ) → n < 2 ^ 64 → decimal 0 (pad width (digits 20 n)) ≡ n
unfolding pad
decimal-pad width n small =
    decimal-zeros (width - length (digits 20 n)) (digits 20 n) ∙ decimal-digits 20 n (omega arith)

abbrev no_sign : Text → Bool
no_sign [] = true
no_sign (c ∷ s) = if c == b'-' then false else no_sign s

no_sign-append : (s t : Text) → no_sign s ≡ true → no_sign t ≡ true → no_sign (s ++ t) ≡ true
no_sign-append [] t h k = k
no_sign-append (c ∷ s) t h k = ground (arith, no_sign-append s t)

no_sign-digits : (fuel n : ℕ) → no_sign (digits fuel n) ≡ true
unfolding digits
no_sign-digits zero n = refl
no_sign-digits (suc fuel) n = elim (Bool-cases (ltb n 10)) [
  | inl one ↦ rw one (ground arith)
  | inr more ↦
      rw more
        (no_sign-append (digits fuel (n / 10)) _ (no_sign-digits fuel (n / 10)) (ground arith))
]

no_sign-zeros : (n : ℕ) → no_sign (zeros n) ≡ true
unfolding zeros
no_sign-zeros zero = refl
no_sign-zeros (suc n) = no_sign-zeros n

no_sign-pad : (width n : ℕ) → no_sign (pad width (digits 20 n)) ≡ true
unfolding pad
no_sign-pad width n =
    no_sign-append (zeros (width - length (digits 20 n))) (digits 20 n)
      (no_sign-zeros (width - length (digits 20 n))) (no_sign-digits 20 n)

-- The bit pattern that a formatted integer stands for.
read_seq : Text → ℕ
unfolding decimal
read_seq [] = 0
read_seq (c ∷ s) = if c == b'-' then 2 ^ 64 - decimal 0 s else decimal 0 (c ∷ s)

read_seq-no_sign : (s : Text) → no_sign s ≡ true → read_seq s ≡ decimal 0 s
unfolding read_seq decimal
read_seq-no_sign [] h = refl
read_seq-no_sign (c ∷ s) h = ground arith

read_seq-format_seq : (n : ℕ) → n < 2 ^ 64 → read_seq (format_seq n) ≡ n
unfolding read_seq format_seq
read_seq-format_seq n small = elim (Bool-cases (ltb n (2 ^ 63))) [
  | inl positive ↦
      rw positive (read_seq-no_sign (pad 3 (digits 20 n)) (no_sign-pad 3 n) ∙ decimal-pad 3 n small)
  | inr negative ↦ rw (negative, decimal-pad 2 (2 ^ 64 - n) (ground arith)) (omega arith)
]

pub format_seq-injective : (m n : ℕ) → m < 2 ^ 64 → n < 2 ^ 64 → format_seq m ≡ format_seq n → m ≡ n
format_seq-injective m n small_m small_n same =
    sym (read_seq-format_seq m small_m) ∙ ap read_seq same ∙ read_seq-format_seq n small_n
