-- ===== src/Dag/Edges.antt =====
-- What the maps and edges of `ResolveAndSortTasks` (pkg/services/dag.go) hold, against a reading of
-- the dependencies straight from the list of tasks.
use noctifab.Prelude.{
  ◌≡◌, refl, subst, ◌⊎◌, inl, inr, Bool, true, false, List, [], ◌∷◌, map, Option, none, some, arith,
  All, if◌then◌else◌, Bool-cases,
}
use noctifab.Prelude.Text.{Text, text_eq, text_eq_iff, elem}
use noctifab.Prelude.Results.{Result, ok, err}
use noctifab.Domain.Task.{Task}
use noctifab.Dag.Graph.{
  DagError, Index, empty_index, title_taken, index_tasks, or_else, lookup_dep, is_external, add_dep,
  resolve_deps,
}

abbrev pub ids : List Task → List Text
ids tasks = map (λ t. t.id) tasks

-- The ID of the last task whose key is the text.
unfoldable pub last_named : (Task → Text) → Text → List Task → Option Text
last_named key k [] = none
last_named key k (t ∷ ts) =
    or_else (last_named key k ts) (if text_eq (key t) k then some t.id else none)

-- The task that a dependency stands for: the last of that title, or else the one of that ID.
unfoldable pub dep_target : List Task → Text → Option Text
dep_target tasks dep =
    or_else (last_named (λ t. t.title) dep tasks) (last_named (λ t. t.id) dep tasks)

abbrev IsIndexed : List Task → Index → Index → Type 0
IsIndexed ts idx idx' =
    (k : Text)
    → (idx'.title_map k ≡ or_else (last_named (λ t. t.title) k ts) (idx.title_map k))
      × (idx'.id_map k ≡ or_else (last_named (λ t. t.id) k ts) (idx.id_map k))

index_tasks-IsIndexed :
    (ts : List Task) (idx idx' : Index) → index_tasks ts idx ≡ ok idx' → IsIndexed ts idx idx'
unfolding index_tasks last_named
index_tasks-IsIndexed [] idx idx' e k = let same : idx ≡ idx' = cc in rw (← same) (refl, refl)
index_tasks-IsIndexed (t ∷ ts) idx idx' e k =
    elim (Bool-cases (title_taken (idx.title_map t.title) t.id)) [
      | inl taken ↦ cc (rw taken at e)
      | inr free ↦
          let ih = index_tasks-IsIndexed ts _ idx' (rw free at e) k in
          (ground (arith, ih.0), ground (arith, ih.1))
    ]

pub lookup_dep-eq-dep_target :
    (tasks : List Task) (idx : Index) (dep : Text)
    → index_tasks tasks empty_index ≡ ok idx
    → lookup_dep idx dep ≡ dep_target tasks dep
unfolding dep_target lookup_dep
lookup_dep-eq-dep_target tasks idx dep e =
    let h = index_tasks-IsIndexed tasks empty_index idx e dep in ground (arith, h.0, h.1)

last_named-elem :
    (key : Task → Text) (k id : Text) (ts : List Task)
    → last_named key k ts ≡ some id
    → elem id (ids ts) ≡ true
unfolding last_named elem
last_named-elem key k id [] e = cc
last_named-elem key k id (t ∷ ts) e =
    ground (arith, last_named-elem key k id ts, text_eq_iff t.id id)

pub dep_target-elem :
    (tasks : List Task) (dep id : Text)
    → dep_target tasks dep ≡ some id
    → elem id (ids tasks) ≡ true
unfolding dep_target
dep_target-elem tasks dep id e =
    ground
      (arith, last_named-elem (λ t. t.title) dep id tasks, last_named-elem (λ t. t.id) dep id tasks)

-- The edges of one task are what its dependencies stand for.
abbrev pub Covers : (Text → Option Text) → List Text → List Text → Type 0
Covers target found deps =
    All (λ dep. (id : Text) → target dep ≡ some id → elem id found ≡ true) deps

Covers-cons :
    (target : Text → Option Text) (x : Text) (found deps : List Text)
    → Covers target found deps
    → Covers target (x ∷ found) deps
unfolding elem
Covers-cons target x found [] c = tt
Covers-cons target x found (d ∷ ds) c =
    (λ id e. ground (arith, c.0 id e), Covers-cons target x found ds c.1)

-- A round that succeeds: the dependency is known and comes first, or it is left out.
add_dep-cases :
    (target : Option Text) (external : Bool) (title dep : Text) (rest : Result DagError (List Text))
    (found : List Text)
    → add_dep target external title dep rest ≡ ok found
    → ((id : Text) × (ids' : List Text) × (target ≡ some id)
        × (rest ≡ ok ids')
        × (id ∷ ids' ≡ found))
      ⊎ ((target ≡ none) × (rest ≡ ok found))
unfolding add_dep
add_dep-cases (some id) external title dep (ok ids') found e = inl (id, ids', refl, refl, cc)
add_dep-cases (some id) external title dep (err x) found e = cc
add_dep-cases none true title dep rest found e = inr (refl, e)
add_dep-cases none false title dep rest found e = cc

pub resolve_deps-Covers :
    (idx : Index) (title : Text) (deps found : List Text)
    → resolve_deps idx title deps ≡ ok found
    → Covers (lookup_dep idx) found deps
unfolding resolve_deps elem
resolve_deps-Covers idx title [] found e = tt
resolve_deps-Covers idx title (d ∷ ds) found e =
    elim (add_dep-cases (lookup_dep idx d) (is_external d) title d _ found e) [
      | inl (id, rest, known, ok_rest, same) ↦
          subst (λ f. Covers (lookup_dep idx) f (d ∷ ds)) same
            (
              λ j p. ground (arith, known, text_eq_iff id j),
              Covers-cons (lookup_dep idx) id rest ds
                  (resolve_deps-Covers idx title ds rest ok_rest),
            )
      | inr (unknown, ok_rest) ↦ (λ j p. cc, resolve_deps-Covers idx title ds found ok_rest)
    ]

pub resolve_deps-All :
    (P : Text → Type 0) (idx : Index) (title : Text) (deps found : List Text)
    → All (λ dep. (id : Text) → lookup_dep idx dep ≡ some id → P id) deps
    → resolve_deps idx title deps ≡ ok found
    → All P found
unfolding resolve_deps
resolve_deps-All P idx title [] found h e = let same : [] ≡ found = cc in rw (← same) tt
resolve_deps-All P idx title (d ∷ ds) found h e =
    elim (add_dep-cases (lookup_dep idx d) (is_external d) title d _ found e) [
      | inl (id, rest, known, ok_rest, same) ↦
          rw (← same) (h.0 id known, resolve_deps-All P idx title ds rest h.1 ok_rest)
      | inr (unknown, ok_rest) ↦ resolve_deps-All P idx title ds found h.1 ok_rest
    ]
