-- ===== src/Prelude/Results.antt =====
-- Results of fallible code: a value or an error of the component's own type.
use mathlib.Core.Path.{◌≡◌, refl}
use mathlib.Core.Logic.{◌⊎◌, inl, inr}

pub data Result {ℓ} (E A : Type ℓ) : Type ℓ where
  err : E → Result E A
  ok : A → Result E A

-- The call of a fallible function, with `if err != nil { return err }` behind it.
infixl 5 ◌>>=◌
abbrev pub ◌>>=◌ {ℓ} : {E A B : Type ℓ} → Result E A → (A → Result E B) → Result E B
err problem >>= next = err problem
ok value >>= next = next value

module _ {ℓ} {E A B : Type ℓ} where
  -- A chain that fails did so at its first call or behind it.
  pub >>=-eq-err :
      (first : Result E A) (next : A → Result E B) {problem : E}
      → (first >>= next) ≡ err problem
      → (first ≡ err problem) ⊎ ((value : A) × (first ≡ ok value) × (next value ≡ err problem))
  >>=-eq-err (err early) next failed = inl cc
  >>=-eq-err (ok value) next failed = inr (value, refl, failed)

  -- A chain that succeeds has a value of its first call.
  pub >>=-eq-ok :
      (first : Result E A) (next : A → Result E B) {result : B}
      → (first >>= next) ≡ ok result
      → (value : A) × (first ≡ ok value) × (next value ≡ ok result)
  >>=-eq-ok (err early) next done = cc
  >>=-eq-ok (ok value) next done = (value, refl, done)

  pub >>=-ok :
      (first : Result E A) (next : A → Result E B) {value : A} {result : B}
      → first ≡ ok value
      → next value ≡ ok result
      → (first >>= next) ≡ ok result
  >>=-ok first next found done = rw found done
