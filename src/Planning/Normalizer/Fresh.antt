-- ===== src/Planning/Normalizer/Fresh.antt =====
-- The IDs that `NormalizeAndDeduplicateTasks` (pkg/services/task_normalizer.go) gives are new and distinct.
use Prim.Native.Nat.{◌^◌}
use noctifab.Prelude.{
  ℕ, zero, suc, ◌+◌, ◌%◌, ◌≤◌, ◌<◌, ◌≡◌, refl, ap, true, false, List, [], ◌∷◌, ◌++◌, none, some,
  arith, length, drop, inl, inr, Bool-cases, Option-cases,
}
use noctifab.Prelude.Text.{
  Text, text_eq, text_eq_iff, elem, remove_one, length-remove_one, elem-remove_one,
}
use noctifab.Planning.Normalizer.{task_base, task_id_of, free_id}
use noctifab.Planning.Numbers.{format_seq-injective}

-- A list with `n` distinct texts has at least `n` entries.
pigeonhole :
    (f : ℕ → Text) (n : ℕ) (xs : List Text)
    → ((i j : ℕ) → i < n → j < n → f i ≡ f j → i ≡ j)
    → ((i : ℕ) → i < n → elem (f i) xs ≡ true)
    → n ≤ length xs
pigeonhole f zero xs distinct listed = omega arith
pigeonhole f (suc n) xs distinct listed =
    let removed = length-remove_one (f n) xs (listed n (omega arith)) in
    let rest =
      pigeonhole f n (remove_one (f n) xs)
        (λ i j below_i below_j. distinct i j (omega arith) (omega arith))
        (λ i below.
          elem-remove_one (f n) (f i) xs
            (elim (Bool-cases (text_eq (f n) (f i))) [
              | inl same ↦
                  let equal =
                    distinct n i (omega arith) (omega arith) ((text_eq_iff (f n) (f i)).0 same) in
                  absurd (omega arith)
              | inr other ↦ other
            ])
            (listed i (omega arith))) in
    omega arith

drop-front : (xs ys : Text) → drop (length xs) (xs ++ ys) ≡ ys
drop-front [] ys = refl
drop-front (x ∷ xs) ys = drop-front xs ys

append_cancel : (xs ys zs : Text) → xs ++ ys ≡ xs ++ zs → ys ≡ zs
append_cancel xs ys zs same = cc (drop-front xs ys, drop-front xs zs, ap (drop (length xs)) same)

task_id_of-injective :
    (canonical : Text) (m n : ℕ)
    → m < 2 ^ 64
    → n < 2 ^ 64
    → task_id_of canonical m ≡ task_id_of canonical n
    → m ≡ n
unfolding task_id_of
task_id_of-injective canonical m n small_m small_n same =
    format_seq-injective m n small_m small_n (append_cancel (task_base canonical) _ _ same)

-- A search that runs out of fuel has seen only IDs that are taken.
free_id-none :
    (canonical : Text) (taken : List Text) (fuel seq : ℕ) (candidate : Text)
    → free_id canonical taken fuel seq candidate ≡ none
    → (i : ℕ) → suc i < fuel
    → elem (task_id_of canonical ((seq + suc i) % 2 ^ 64)) taken ≡ true
unfolding free_id
free_id-none canonical taken zero seq candidate failed i below = absurd (omega arith)
free_id-none canonical taken (suc zero) seq candidate failed i below = absurd (omega arith)
free_id-none canonical taken (suc (suc fuel)) seq candidate failed zero below =
    let seq' = (seq + 1) % 2 ^ 64 in
    elim (Bool-cases (elem candidate taken)) [
      | inr free ↦ let h = rw free at failed in cc
      | inl used ↦ elim (Bool-cases (elem (task_id_of canonical seq') taken)) [
        | inl here ↦ here
        | inr free ↦ let h = rw (used, free) at failed in cc
      ]
    ]
free_id-none canonical taken (suc (suc fuel)) seq candidate failed (suc i) below =
    let seq' = (seq + 1) % 2 ^ 64 in
    elim (Bool-cases (elem candidate taken)) [
      | inr free ↦ let h = rw free at failed in cc
      | inl used ↦
          let later =
            free_id-none canonical taken (suc fuel) seq' (task_id_of canonical seq')
              (rw used at failed) i (omega arith) in
          let same : (seq' + suc i) % 2 ^ 64 ≡ (seq + suc (suc i)) % 2 ^ 64 = omega arith in
          rw (← same) later
    ]

-- With the fuel that the loop is given, it ends with an ID that is not taken.
pub free_id-free :
    (canonical : Text) (taken : List Text) (seq : ℕ) (candidate : Text)
    → length taken < 2 ^ 63
    → (id : Text) × (free_id canonical taken (length taken + 2) seq candidate ≡ some id)
free_id-free canonical taken seq candidate few =
    elim (Option-cases (free_id canonical taken (length taken + 2) seq candidate)) [
      | inr found ↦ found
      | inl failed ↦
          let crowded =
            pigeonhole (λ i. task_id_of canonical ((seq + suc i) % 2 ^ 64)) (suc (length taken))
              taken
              (λ i j below_i below_j same.
                let equal =
                  task_id_of-injective canonical ((seq + suc i) % 2 ^ 64) ((seq + suc j) % 2 ^ 64)
                    (omega arith) (omega arith) same in
                omega arith)
              (λ i below.
                free_id-none canonical taken (length taken + 2) seq candidate failed i
                  (omega arith)) in
          absurd (omega arith)
    ]

pub free_id-new :
    (canonical : Text) (taken : List Text) (fuel seq : ℕ) (candidate id : Text)
    → free_id canonical taken fuel seq candidate ≡ some id
    → elem id taken ≡ false
unfolding free_id
free_id-new canonical taken zero seq candidate id found = cc
free_id-new canonical taken (suc fuel) seq candidate id found =
    let seq' = (seq + 1) % 2 ^ 64 in
    elim (Bool-cases (elem candidate taken)) [
      | inl used ↦
          free_id-new canonical taken fuel seq' (task_id_of canonical seq') id (rw used at found)
      | inr free ↦ let h = rw free at found in let same : candidate ≡ id = cc in rw (← same) free
    ]
