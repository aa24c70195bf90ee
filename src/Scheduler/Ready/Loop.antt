-- ===== src/Scheduler/Ready/Loop.antt =====
-- The selection loop of `GetReadyTasks` (pkg/services/scheduler.go): a rule for its invariants.
use mathlib.Core.List.{Memᴰ}
use noctifab.Prelude.{
  ℕ, ◌≤◌, ◌<◌, ◌+◌, ◌≡◌, refl, ◌⊎◌, inl, inr, Bool, true, false, ◌&&◌, List, [], ◌∷◌, ◌++◌, arith,
  All, leb, length, length-append, Bool-cases, sym, ap, ◌∙◌, ◌≢◌,
}
use noctifab.Domain.Task.{Task}
use noctifab.Locks.{FileLockRegistry, try_acquire_locks}
use noctifab.Locks.Exclusion.{try_acquire_locks_lem}
use noctifab.Scheduler.Ready.{Selection, consider, select}

module _ (eligible : Task → Bool) where
  abbrev pub joined : Task → Selection → FileLockRegistry → Selection
  joined t s r = record { ready = s.ready ++ t ∷ []; registry = r }

  -- A task is passed over, or it is eligible, gets its locks and joins.
  pub consider-cases :
      (t : Task) (s : Selection)
      → ((consider eligible t s ≡ (s, false))
          × ((eligible t ≡ false) ⊎ ((try_acquire_locks t.id t.target_files s.registry).0 ≡ false)))
        ⊎ ((r : FileLockRegistry) × (eligible t ≡ true)
            × (try_acquire_locks t.id t.target_files s.registry ≡ (true, r))
            × (consider eligible t s ≡ (joined t s r, true)))
  unfolding consider
  consider-cases t s = elim (Bool-cases (eligible t)) [
    | inl fits ↦ elim (Bool-cases (try_acquire_locks t.id t.target_files s.registry).0) [
      | inl granted ↦
          let pair : try_acquire_locks t.id t.target_files s.registry
              ≡ (true, (try_acquire_locks t.id t.target_files s.registry).1) =
            ground arith in
          inr (_, fits, pair, rw (fits, pair))
      | inr refused ↦
          let same : (try_acquire_locks t.id t.target_files s.registry).1 ≡ s.registry =
            (try_acquire_locks_lem t.id t.target_files s.registry []).1 refused in
          inl (rw fits (ground arith), inr refused)
    ]
    | inr unfit ↦ inl (rw unfit, inl unfit)
  ]

  -- What a joining task keeps holds of the selection.
  pub select_ind :
      (tasks : List Task) (P : Selection → Type 0)
      → ((t : Task) (s : Selection) (r : FileLockRegistry)
          → Memᴰ t tasks
          → eligible t ≡ true
          → try_acquire_locks t.id t.target_files s.registry ≡ (true, r)
          → P s
          → P (joined t s r))
      → (slots : ℕ) (ts : List Task) (s : Selection) → All (λ t. Memᴰ t tasks) ts
      → P s
      → P (select eligible slots ts s)
  unfolding select
  select_ind tasks P step slots [] s ms p = p
  select_ind tasks P step slots (t ∷ ts) s ms p =
      let next : P (consider eligible t s).0 = elim (consider-cases t s) [
        | inl (same, _) ↦ rw same p
        | inr (r, fits, granted, same) ↦ rw same (step t s r ms.0 fits granted p)
      ] in
      elim (Bool-cases
        ((consider eligible t s).1 && leb slots (length (consider eligible t s).0.ready))) [
          | inl full ↦ rw (full, select) next
          | inr room ↦ rw (room, select) (select_ind tasks P step slots ts _ ms.1 next)
        ]

  -- The loop after a round whose outcome is known.
  abbrev go_on : ℕ → List Task → Selection × Bool → Selection
  go_on slots ts round = elim (round.1 && leb slots (length round.0.ready)) [
    | true ↦ round.0
    | false ↦ select eligible slots ts round.0
  ]

  select_step :
      (slots : ℕ) (t : Task) (ts : List Task) (s : Selection) {round : Selection × Bool}
      → consider eligible t s ≡ round
      → select eligible slots (t ∷ ts) s ≡ go_on slots ts round
  unfolding select
  select_step slots t ts s same = ap (go_on slots ts) same

  go_on_ind :
      (P : Selection → Type 0) (slots : ℕ) (ts : List Task) (s : Selection)
      → (slots ≤ length s.ready → P s)
      → (length s.ready < slots → P (select eligible slots ts s))
      → P (go_on slots ts (s, true))
  go_on_ind P slots ts s full room = by_test (leb slots (length s.ready)) refl
    where
      by_test :
          (b : Bool)
          → leb slots (length s.ready) ≡ b
          → P (elim b [ true ↦ s | false ↦ select eligible slots ts s ])
      by_test true e = full (ground arith)
      by_test false e = room (ground arith)

  pub length-select :
      (slots : ℕ) (ts : List Task) (s : Selection)
      → length s.ready < slots
      → length (select eligible slots ts s).ready ≤ slots
  unfolding select
  length-select slots [] s h = omega arith
  length-select slots (t ∷ ts) s h = elim (consider-cases t s) [
    | inl (same, _) ↦ rw (select_step slots t ts s same) (length-select slots ts s h)
    | inr (r, fits, granted, same) ↦
        let grown : length (joined t s r).ready ≡ length s.ready + 1 =
          omega (arith, length-append s.ready (t ∷ [])) in
        rw (select_step slots t ts s same) (
          go_on_ind (λ u. length u.ready ≤ slots) slots ts (joined t s r) (λ full. omega arith)
            (length-select slots ts (joined t s r)))
  ]

  snoc-ne-nil : (ts : List Task) (t : Task) → ts ++ t ∷ [] ≢ []
  snoc-ne-nil [] t e = cc
  snoc-ne-nil (u ∷ us) t e = cc

  -- A selection that is not empty stays so.
  select-keeps :
      (slots : ℕ) (ts : List Task) (s : Selection)
      → s.ready ≢ []
      → (select eligible slots ts s).ready ≢ []
  unfolding select
  select-keeps slots [] s h = h
  select-keeps slots (t ∷ ts) s h = elim (consider-cases t s) [
    | inl (same, _) ↦ rw (select_step slots t ts s same) (select-keeps slots ts s h)
    | inr (r, _, _, same) ↦ rw (select_step slots t ts s same) (
        go_on_ind (λ u. u.ready ≢ []) slots ts (joined t s r) (λ full. snoc-ne-nil s.ready t)
          (λ room. select-keeps slots ts (joined t s r) (snoc-ne-nil s.ready t)))
  ]

  -- An eligible task that can have its locks is not left behind an empty selection.
  pub select-nonempty :
      (slots : ℕ) (ts : List Task) (s : Selection) (t : Task)
      → Memᴰ t ts
      → eligible t ≡ true
      → (try_acquire_locks t.id t.target_files s.registry).0 ≡ true
      → (select eligible slots ts s).ready ≢ []
  unfolding select
  select-nonempty slots [] s t m fits free = elim m [ ]
  select-nonempty slots (u ∷ us) s t m fits free = elim (consider-cases u s) [
    | inl (same, why) ↦
        rw (select_step slots u us s same) (select-nonempty slots us s t (later m why) fits free)
    | inr (r, _, _, same) ↦ rw (select_step slots u us s same) (
        go_on_ind (λ v. v.ready ≢ []) slots us (joined u s r) (λ full. snoc-ne-nil s.ready u)
          (λ room. select-keeps slots us (joined u s r) (snoc-ne-nil s.ready u)))
  ]
    where
      true_ne_false : ◌≢◌ {A = Bool} true false
      true_ne_false e = cc

      later :
          Memᴰ t (u ∷ us)
          → (eligible u ≡ false) ⊎ ((try_acquire_locks u.id u.target_files s.registry).0 ≡ false)
          → Memᴰ t us
      later (Memᴰ.tail m') why = m'
      later (Memᴰ.head e) (inl unfit) = cc
      later (Memᴰ.head e) (inr refused) = absurd (
          true_ne_false (
            sym free
            ∙ ap (λ (v : Task). (try_acquire_locks v.id v.target_files s.registry).0) e
            ∙ refused))
