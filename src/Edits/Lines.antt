-- ===== src/Edits/Lines.antt =====
-- Texts cut into lines, and the replacement of an occurrence: lemmas on pkg/services/edit_file_helper.go.
use noctifab.Prelude.{
  ℕ, zero, suc, ◌≡◌, ◌≢◌, refl, ap, ◌∙◌, true, List, [], ◌∷◌, ◌++◌, arith, ◌==◌, if◌then◌else◌,
  length, drop, inl, inr, Bool-cases,
}
use noctifab.Prelude.Text.{Text, has_prefix, contains}
use noctifab.Edits.Texts.{add_front, split_lines, join_lines, replace_first, count_from}

join_lines-add_front :
    (c : ℕ) (l : Text) (ls : List Text)
    → join_lines (add_front c (l ∷ ls)) ≡ c ∷ join_lines (l ∷ ls)
unfolding join_lines
join_lines-add_front c l [] = refl
join_lines-add_front c l (k ∷ ls) = refl

record Cons (s : Text) : Type 0 where
  head : Text
  tail : List Text
  eq : split_lines s ≡ head ∷ tail

split_lines-Cons : (s : Text) → Cons s
unfolding split_lines
split_lines-Cons [] = record { head = []; tail = []; eq = refl }
split_lines-Cons (c ∷ s) = elim (Bool-cases (c == 10)) [
  | inl breaks ↦ record { head = []; tail = split_lines s; eq = rw breaks }
  | inr stays ↦
      let r = split_lines-Cons s in
      record { head = c ∷ r.head; tail = r.tail; eq = rw (stays, r.eq) }
]

pub join-split_lines : (s : Text) → join_lines (split_lines s) ≡ s
unfolding join_lines split_lines
join-split_lines [] = refl
join-split_lines (c ∷ s) =
    let r = split_lines-Cons s in
    let ih = join-split_lines s in
    elim (Bool-cases (c == 10)) [
      | inl breaks ↦
          let e : c ≡ 10 = ground (arith, breaks) in
          let again : join_lines (r.head ∷ r.tail) ≡ s = rw r.eq at ih in
          rw (breaks, r.eq, again, e)
      | inr stays ↦
          let again : join_lines (r.head ∷ r.tail) ≡ s = rw r.eq at ih in
          rw (stays, r.eq) (join_lines-add_front c r.head r.tail ∙ ap (λ t. c ∷ t) again)
    ]

has_prefix-drop : (s t : Text) → has_prefix s t ≡ true → s ≡ t ++ drop (length t) s
unfolding has_prefix
has_prefix-drop s [] h = refl
has_prefix-drop [] (d ∷ t) h = cc
has_prefix-drop (c ∷ s) (d ∷ t) h =
    let e : c ≡ d = ground (arith, h) in
    rw e (ap (λ u. d ∷ u) (has_prefix-drop s t (ground (arith, h))))

-- A text with an occurrence is cut at it, and the replacement stands in its place.
pub record Replaced (target new old result : Text) : Type 0 where
  pub before : Text
  pub after : Text
  pub old_eq : old ≡ before ++ target ++ after
  pub result_eq : result ≡ before ++ new ++ after

append_nil : (s : Text) → s ≡ s ++ []
append_nil [] = refl
append_nil (c ∷ s) = ap (λ t. c ∷ t) (append_nil s)

Replaced-empty :
    (target new : Text)
    → has_prefix [] target ≡ true
    → Replaced target new [] (if has_prefix [] target then new else [])
unfolding has_prefix
Replaced-empty [] new h = record {
  before = [];
  after = [];
  old_eq = refl;
  result_eq = append_nil new;
}
Replaced-empty (c ∷ t) new h = cc

pub replace_first-Replaced :
    (target new s : Text)
    → contains s target ≡ true
    → Replaced target new s (replace_first target new s)
unfolding contains replace_first
replace_first-Replaced target new [] h = Replaced-empty target new h
replace_first-Replaced target new (c ∷ s) h = elim (Bool-cases (has_prefix (c ∷ s) target)) [
  | inl here ↦ rw here (record {
    before = [];
    after = drop (length target) (c ∷ s);
    old_eq = has_prefix-drop (c ∷ s) target here;
    result_eq = refl;
  })
  | inr later ↦
      let r = replace_first-Replaced target new s (ground (arith, h, later)) in
      rw later (record {
        before = c ∷ r.before;
        after = r.after;
        old_eq = ap (λ t. c ∷ t) r.old_eq;
        result_eq = ap (λ t. c ∷ t) r.result_eq;
      })
]

pub count_from-contains :
    (target : Text) (skip : ℕ) (s : Text) → count_from target skip s ≢ 0 → contains s target ≡ true
unfolding count_from contains
count_from-contains target skip [] h = absurd (h refl)
count_from-contains target (suc skip) (c ∷ s) h =
    ground (arith, count_from-contains target skip s h)
count_from-contains target zero (c ∷ s) h = elim (Bool-cases (has_prefix (c ∷ s) target)) [
  | inl here ↦ rw here
  | inr later ↦ ground (arith, later, count_from-contains target 0 s (λ e. h (rw later e)))
]
