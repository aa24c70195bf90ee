-- ===== src/Steering.antt =====
-- The broker of steering orders: pkg/services/steering_service.go. The map of directives is a function, and a
-- channel of capacity 1 is a flag that says whether a signal is waiting in it. The two
-- readings of the clock and the decimal digits of a time are arguments.
use noctifab.Prelude.{ℕ, Bool, true, false, List, [], ◌∷◌, ◌++◌, if◌then◌else◌}
use noctifab.Prelude.Text.{Text, codes, text_eq}
pub mod Orders

pub record SteeringDirective : Type 0 where
  pub id : Text
  pub task_id : Text
  pub author : Text
  pub directive : Text
  pub created_at : ℕ
  pub consumed : Bool

pub record SteeringService : Type 0 where
  pub task_directives : Text → List SteeringDirective
  pub global_directives : List SteeringDirective
  pub pause_chan : Bool
  pub resume_chan : Bool
  pub is_paused : Bool

unfoldable pub new_steering_service : SteeringService
new_steering_service = record {
  task_directives = λ task_id. [];
  global_directives = [];
  pause_chan = false;
  resume_chan = false;
  is_paused = false;
}

-- The map with other directives for a task.
abbrev pub put :
    Text → List SteeringDirective → (Text → List SteeringDirective) → Text → List SteeringDirective
put task_id ds directives key = if text_eq key task_id then ds else directives key

abbrev pub task_directive : (ℕ → Text) → ℕ → ℕ → Text → Text → SteeringDirective
task_directive show nanos now task_id text = record {
  id = codes "dir-" ++ show nanos;
  task_id = task_id;
  author = codes "HUMAN_OPERATOR";
  directive = text;
  created_at = now;
  consumed = false;
}

unfoldable pub inject_directive :
    (ℕ → Text) → ℕ → ℕ → Text → Text → SteeringService → SteeringService
unfolding text_eq
inject_directive show nanos now task_id text s =
    let ds = s.task_directives task_id ++ task_directive show nanos now task_id text ∷ [] in
    record s { task_directives = put task_id ds s.task_directives }

abbrev pub global_directive : (ℕ → Text) → ℕ → ℕ → Text → SteeringDirective
global_directive show nanos now text = record {
  id = codes "gdir-" ++ show nanos;
  task_id = [];
  author = codes "HUMAN_OPERATOR";
  directive = text;
  created_at = now;
  consumed = false;
}

unfoldable pub inject_global_directive :
    (ℕ → Text) → ℕ → ℕ → Text → SteeringService → SteeringService
inject_global_directive show nanos now text s = record s {
  global_directives = s.global_directives ++ global_directive show nanos now text ∷ [];
}

-- The texts that a loop over the directives appends to its result.
unfoldable pub unconsumed : List SteeringDirective → List Text
unconsumed [] = []
unconsumed (d ∷ ds) = let rest = unconsumed ds in if d.consumed then rest else d.directive ∷ rest

-- The directives after that loop.
unfoldable pub mark_consumed : List SteeringDirective → List SteeringDirective
mark_consumed [] = []
mark_consumed (d ∷ ds) = (if d.consumed then d else record d { consumed = true }) ∷ mark_consumed ds

unfoldable pub consume_directives : Text → SteeringService → List Text × SteeringService
unfolding unconsumed mark_consumed text_eq
consume_directives task_id s =
    let list = s.task_directives task_id in
    (
      unconsumed s.global_directives ++ unconsumed list,
      record s {
        global_directives = mark_consumed s.global_directives;
        task_directives = put task_id (mark_consumed list) s.task_directives;
      },
    )

unfoldable pub pause : SteeringService → SteeringService
pause s = if s.is_paused then s else record s { is_paused = true; pause_chan = true }

unfoldable pub resume : SteeringService → SteeringService
resume s = if s.is_paused then record s { is_paused = false; resume_chan = true } else s
