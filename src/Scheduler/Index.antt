-- ===== src/Scheduler/Index.antt =====
-- How a dependency string finds its task: `dependencyIndex` of pkg/services/scheduler.go.
use noctifab.Prelude.{
  ℕ, Bool, ◌&&◌, ◌||◌, List, [], ◌∷◌, ◌++◌, Option, none, some, leb, if◌then◌else◌,
}
use noctifab.Prelude.Text.{Text, to_lower, is_empty, contains}
use noctifab.Prelude.Maps.{Map, insert, empty_map}
use noctifab.Domain.Task.{Task}

abbrev is_alphanumeric : ℕ → Bool
is_alphanumeric c = leb b'a' c && leb c b'z' || leb b'0' c && leb c b'9'

keep_alphanumeric : Text → Text
keep_alphanumeric [] = []
keep_alphanumeric (c ∷ s) =
    let rest = keep_alphanumeric s in if is_alphanumeric c then c ∷ rest else rest

unfoldable pub normalize_dependency_token : Text → Text
unfolding keep_alphanumeric
normalize_dependency_token str = keep_alphanumeric (to_lower str)

pub record DependencyIndexEntry : Type 0 where
  pub id : Text
  pub norm_id : Text
  pub norm_title : Text

pub record DependencyIndex : Type 0 where
  pub exact : Map Text
  pub normalized : Map Text
  pub entries : List DependencyIndexEntry

-- `if _, ok := m[k]; !ok { m[k] = v }`.
unfoldable pub insert_first : Text → Text → Map Text → Map Text
insert_first k v m = elim (m k) [ none ↦ insert k (some v) m | some old ↦ m ]

unfoldable pub insert_nonempty : Text → Text → Map Text → Map Text
unfolding insert_first
insert_nonempty k v m = if is_empty k then m else insert_first k v m

abbrev pub entry_of : Task → DependencyIndexEntry
entry_of t = record {
  id = t.id;
  norm_id = normalize_dependency_token t.id;
  norm_title = normalize_dependency_token t.title;
}

unfoldable pub index_task : Task → DependencyIndex → DependencyIndex
unfolding insert_first insert_nonempty
index_task t idx = record {
  exact = insert_first t.title t.id (insert_first t.id t.id idx.exact);
  normalized =
      insert_nonempty (entry_of t).norm_title t.id
        (insert_nonempty (entry_of t).norm_id t.id idx.normalized);
  entries = idx.entries ++ entry_of t ∷ [];
}

unfoldable pub index_from : List Task → DependencyIndex → DependencyIndex
index_from [] idx = idx
index_from (t ∷ ts) idx = index_from ts (index_task t idx)

unfoldable pub new_dependency_index : List Task → DependencyIndex
new_dependency_index tasks =
    index_from tasks (record { exact = empty_map; normalized = empty_map; entries = [] })

abbrev pub entry_matches : Text → DependencyIndexEntry → Bool
entry_matches norm_dep e =
    (contains e.norm_title norm_dep || contains norm_dep e.norm_title)
    || (contains e.norm_id norm_dep || contains norm_dep e.norm_id)

unfoldable pub find_entry : Text → List DependencyIndexEntry → Option Text
find_entry norm_dep [] = none
find_entry norm_dep (e ∷ es) =
    if entry_matches norm_dep e then some e.id else find_entry norm_dep es

-- `some id` for `(id, true)`, and `none` for `("", false)`.
unfoldable pub resolve : DependencyIndex → Text → Option Text
resolve idx dep =
    let norm_dep = normalize_dependency_token dep in
    elim (idx.exact dep) [
      | some id ↦ some id
      | none ↦ if is_empty norm_dep then none else elim (idx.normalized norm_dep) [
        | some id ↦ some id
        | none ↦ find_entry norm_dep idx.entries
      ]
    ]

-- The ID that a dependency resolves to, or the dependency itself.
unfoldable pub dep_id : DependencyIndex → Text → Text
dep_id idx dep = elim (resolve idx dep) [ some id ↦ id | none ↦ dep ]
