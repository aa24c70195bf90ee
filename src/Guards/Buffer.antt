-- ===== src/Guards/Buffer.antt =====
-- The tail buffer of command output: `BoundedBuffer` of pkg/services/bounded_buffer.go. A maximum that
-- is not positive is 0 here. The mutex makes each write one step.
use mathlib.Core.List.{append-nil, append_assoc}
use noctifab.Prelude.{
  ℕ, suc, ◌+◌, ◌-◌, ◌≤◌, ◌<◌, ◌≡◌, refl, sym, ap, ◌∙◌, Bool, true, false, List, [], ◌∷◌, ◌++◌,
  arith, leb, ltb, ◌==◌, if◌then◌else◌, length, length-append, drop, length-drop, keep_last,
  keep_last-all, keep_last-append, length-keep_last, Bool-cases, ◌⊎◌, inl, inr,
}
use noctifab.Prelude.Text.{Text}

abbrev pub default_bounded_buffer_max : ℕ
default_bounded_buffer_max = 1048576

pub record BoundedBuffer : Type 0 where
  pub max : ℕ
  pub buf : Text
  pub truncated : Bool

abbrev pub cap_or_default : ℕ → ℕ
cap_or_default max = if max == 0 then default_bounded_buffer_max else max

unfoldable pub new_bounded_buffer : ℕ → BoundedBuffer
new_bounded_buffer max = record { max = cap_or_default max; buf = []; truncated = false }

-- The buffer after a write, once the maximum is positive.
append_tail : Text → BoundedBuffer → BoundedBuffer
append_tail p b =
    let joined = b.buf ++ p in
    let overflow = length joined - b.max in
    if leb b.max (length p)
    then record b {
      buf = drop (length p - b.max) p;
      truncated = if ltb b.max (length p) then true else b.truncated;
    }
    else if ltb 0 overflow
    then record b { buf = drop overflow joined; truncated = true }
    else record b { buf = joined }

-- The number of bytes reported is always the length of the chunk.
unfoldable pub write : Text → BoundedBuffer → ℕ × BoundedBuffer
unfolding append_tail
write p b = (length p, append_tail p (record b { max = cap_or_default b.max }))

unfoldable pub write_all : List Text → BoundedBuffer → BoundedBuffer
write_all [] b = b
write_all (p ∷ ps) b = write_all ps (write p b).1

abbrev pub concat : List Text → Text
concat [] = []
concat (p ∷ ps) = p ++ concat ps

-- The buffer holds the end of what was written, and a truncated one says that this was too long.
record Holds (written : Text) (b : BoundedBuffer) : Type 0 where
  positive : 0 < b.max
  kept : b.buf ≡ keep_last b.max written
  flag : (b.truncated ≡ false) ⊎ (b.max < length written)

keep_last-suffix : (n : ℕ) (xs ys : Text) → n ≤ length ys → keep_last n (xs ++ ys) ≡ keep_last n ys
keep_last-suffix n [] ys h = refl
keep_last-suffix n (x ∷ xs) ys h =
    let longer : length (x ∷ xs ++ ys) - n ≡ suc (length (xs ++ ys) - n) =
      omega (arith, length-append xs ys) in
    rw longer (keep_last-suffix n xs ys h)

append_tail-eq :
    (p : Text) (b : BoundedBuffer) → (append_tail p b).buf ≡ keep_last b.max (b.buf ++ p)
unfolding append_tail
append_tail-eq p b = elim (Bool-cases (leb b.max (length p))) [
  | inl long ↦ rw long (sym (keep_last-suffix b.max b.buf p (ground arith)))
  | inr short ↦ elim (Bool-cases (ltb 0 (length (b.buf ++ p) - b.max))) [
    | inl over ↦ rw (short, over)
    | inr fits ↦ rw (short, fits) (sym (keep_last-all b.max (b.buf ++ p) (ground arith)))
  ]
]

append_tail-flag :
    (p : Text) (b : BoundedBuffer)
    → ((append_tail p b).max ≡ b.max)
      × (((append_tail p b).truncated ≡ b.truncated) ⊎ (b.max < length b.buf + length p))
unfolding append_tail
append_tail-flag p b = (ground arith, ground (arith, length-append b.buf p))

write-append_tail :
    (p : Text) (b : BoundedBuffer) → 0 < b.max → write p b ≡ (length p, append_tail p b)
unfolding write
write-append_tail p b h i =
    let capped : cap_or_default b.max ≡ b.max = ground arith in
    (length p, append_tail p (record b { max = capped i }))

append_tail-Holds :
    (p written : Text) (b : BoundedBuffer)
    → Holds written b
    → Holds (written ++ p) (append_tail p b)
append_tail-Holds p written b h =
    let (same, flag) = append_tail-flag p b in
    record {
      positive = omega (arith, same, h.positive);
      kept =
          append_tail-eq p b
          ∙ ap (λ (buf : Text). keep_last b.max (buf ++ p)) (h.kept)
          ∙ keep_last-append b.max written p
          ∙ ap (λ (max : ℕ). keep_last max (written ++ p)) (sym same);
      flag = ground (
        arith,
        h.flag,
        same,
        flag,
        length-append written p,
        ap length (h.kept),
        length-drop (length written - b.max) written,
      );
    }

write_all-Holds :
    (ps : List Text) (written : Text) (b : BoundedBuffer)
    → Holds written b
    → Holds (written ++ concat ps) (write_all ps b)
unfolding write_all
write_all-Holds [] written b h = rw append-nil h
write_all-Holds (p ∷ ps) written b h =
    rw (write-append_tail p b (h.positive), ← append_assoc)
      (write_all-Holds ps (written ++ p) (append_tail p b) (append_tail-Holds p written b h))

-- After any sequence of writes the buffer holds the last bytes of all that was written, at most as many
-- as its maximum. It does not say that it is truncated, or more than that was written.
pub write_all_lem :
    (max : ℕ) (ps : List Text)
    → let b = write_all ps (new_bounded_buffer max) in
      (b.buf ≡ keep_last b.max (concat ps))
      × (length b.buf ≤ b.max)
      × ((b.truncated ≡ false) ⊎ (b.max < length (concat ps)))
unfolding new_bounded_buffer
write_all_lem max ps =
    let h = write_all-Holds ps [] (new_bounded_buffer max) (record {
      positive = ground arith;
      kept = sym (keep_last-all _ [] (omega arith));
      flag = inl refl;
    }) in
    (h.kept, omega (arith, ap length (h.kept), length-keep_last _ (concat ps)), h.flag)
