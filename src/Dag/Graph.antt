-- ===== src/Dag/Graph.antt =====
-- The first two loops of `ResolveAndSortTasks` (pkg/services/dag.go): titles, IDs and edges.
use noctifab.Prelude.{
  Bool, true, false, not, ◌&&◌, List, [], ◌∷◌, Option, none, some, if◌then◌else◌,
}
use noctifab.Prelude.Text.{Text, text_eq, is_empty}
use noctifab.Prelude.Maps.{Map, insert, empty_map}
use noctifab.Prelude.Results.{Result, ok, err, ◌>>=◌}
use noctifab.Domain.Task.{Task}
use noctifab.Story.Ids.{is_task_reference, extract_story_id}

-- The errors of the source, and `out_of_fuel` for the recursion of the model.
pub data DagError : Type 0 where
  duplicate_title : Text → DagError
  unresolved : (title dep : Text) → DagError
  cycle : Text → DagError
  out_of_fuel : DagError

pub record Index : Type 0 where
  pub title_map : Map Text
  pub id_map : Map Text

abbrev pub empty_index : Index
empty_index = record { title_map = empty_map; id_map = empty_map }

-- Another task has claimed the title.
abbrev pub title_taken : Option Text → Text → Bool
title_taken none id = false
title_taken (some other) id = not (text_eq other id)

unfoldable pub index_tasks : List Task → Index → Result DagError Index
index_tasks [] idx = ok idx
index_tasks (t ∷ ts) idx =
    let rest = index_tasks ts (record {
      title_map = insert t.title (some t.id) idx.title_map;
      id_map = insert t.id (some t.id) idx.id_map;
    }) in
    if title_taken (idx.title_map t.title) t.id then err (duplicate_title t.title) else rest

abbrev pub or_else : Option Text → Option Text → Option Text
or_else none o = o
or_else (some id) o = some id

-- A dependency names a task by its title first, and by its ID otherwise.
unfoldable pub lookup_dep : Index → Text → Option Text
lookup_dep idx dep = or_else (idx.title_map dep) (idx.id_map dep)

-- A reference to a task of another story, which the global scheduler resolves.
abbrev pub is_external : Text → Bool
is_external dep = is_task_reference dep && not (is_empty (extract_story_id dep))

-- One round of the loop over the dependencies, with the result of the rounds after it.
unfoldable pub add_dep :
    Option Text
    → Bool
    → (title dep : Text) → Result DagError (List Text)
    → Result DagError (List Text)
add_dep (some id) external title dep rest = rest >>= λ ids. ok (id ∷ ids)
add_dep none true title dep rest = rest
add_dep none false title dep rest = err (unresolved title dep)

unfoldable pub resolve_deps : Index → Text → List Text → Result DagError (List Text)
resolve_deps idx title [] = ok []
resolve_deps idx title (dep ∷ ds) =
    add_dep (lookup_dep idx dep) (is_external dep) title dep (resolve_deps idx title ds)

pub record Graph : Type 0 where
  pub adj : Text → List Text
  pub task_map : Map Task

abbrev pub empty_graph : Graph
empty_graph = record { adj = λ id. []; task_map = empty_map }

unfoldable pub link_tasks : Index → List Task → Graph → Result DagError Graph
link_tasks idx [] g = ok g
link_tasks idx (t ∷ ts) g = resolve_deps idx t.title t.depends_on >>= λ deps.
    link_tasks idx ts
      (record { adj = insert t.id deps g.adj; task_map = insert t.id (some t) g.task_map })
