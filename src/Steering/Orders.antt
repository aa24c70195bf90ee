-- ===== src/Steering/Orders.antt =====
-- What `ConsumeDirectives` of pkg/services/steering_service.go returns, in terms of the calls before it.
use noctifab.Prelude.{
  ℕ, ◌≡◌, refl, false, List, [], ◌∷◌, ◌++◌, if◌then◌else◌, arith, inl, inr, Bool-cases,
}
use noctifab.Prelude.Text.{Text, text_eq, text_eq_iff}
use noctifab.Steering.{
  SteeringDirective, task_directive, global_directive, SteeringService, new_steering_service,
  inject_directive, inject_global_directive, unconsumed, mark_consumed, consume_directives, pause,
  resume,
}

pub data SteeringCall : Type 0 where
  injected : (nanos now : ℕ) → (task_id text : Text) → SteeringCall
  injected_global : (nanos now : ℕ) → (text : Text) → SteeringCall
  consumed_by : (task_id : Text) → SteeringCall
  pausing resuming : SteeringCall

unfoldable pub steer : (ℕ → Text) → SteeringCall → SteeringService → SteeringService
unfolding inject_directive inject_global_directive consume_directives pause resume
steer show (injected nanos now task_id text) s = inject_directive show nanos now task_id text s
steer show (injected_global nanos now text) s = inject_global_directive show nanos now text s
steer show (consumed_by task_id) s = (consume_directives task_id s).1
steer show pausing s = pause s
steer show resuming s = resume s

-- The service after some calls, the latest one first.
unfoldable pub steered : (ℕ → Text) → List SteeringCall → SteeringService
unfolding steer new_steering_service
steered show [] = new_steering_service
steered show (c ∷ calls) = steer show c (steered show calls)

-- The global orders given since any task last consumed orders.
unfoldable pub global_orders : List SteeringCall → List Text
global_orders [] = []
global_orders (injected nanos now task_id text ∷ calls) = global_orders calls
global_orders (injected_global nanos now text ∷ calls) = global_orders calls ++ text ∷ []
global_orders (consumed_by task_id ∷ calls) = []
global_orders (pausing ∷ calls) = global_orders calls
global_orders (resuming ∷ calls) = global_orders calls

-- The orders given to a task since it last consumed orders.
unfoldable pub task_orders : Text → List SteeringCall → List Text
unfolding text_eq
task_orders key [] = []
task_orders key (injected nanos now task_id text ∷ calls) =
    let rest = task_orders key calls in if text_eq key task_id then rest ++ text ∷ [] else rest
task_orders key (injected_global nanos now text ∷ calls) = task_orders key calls
task_orders key (consumed_by task_id ∷ calls) =
    let rest = task_orders key calls in if text_eq key task_id then [] else rest
task_orders key (pausing ∷ calls) = task_orders key calls
task_orders key (resuming ∷ calls) = task_orders key calls

unconsumed-mark_consumed : (ds : List SteeringDirective) → unconsumed (mark_consumed ds) ≡ []
unfolding unconsumed mark_consumed
unconsumed-mark_consumed [] = refl
unconsumed-mark_consumed (d ∷ ds) = elim (Bool-cases d.consumed) [
  | inl old ↦ rw old (unconsumed-mark_consumed ds)
  | inr new ↦ rw new (unconsumed-mark_consumed ds)
]

unconsumed-snoc :
    (ds : List SteeringDirective) (d : SteeringDirective)
    → d.consumed ≡ false
    → unconsumed (ds ++ d ∷ []) ≡ unconsumed ds ++ d.directive ∷ []
unfolding unconsumed
unconsumed-snoc [] d new = rw new
unconsumed-snoc (x ∷ xs) d new = ground (arith, unconsumed-snoc xs d new)

global_orders-steered :
    (show : ℕ → Text) (calls : List SteeringCall)
    → unconsumed (steered show calls).global_directives ≡ global_orders calls
unfolding steered steer new_steering_service inject_directive inject_global_directive
    consume_directives pause resume global_orders unconsumed
global_orders-steered show [] = refl
global_orders-steered show (injected nanos now task_id text ∷ calls) =
    global_orders-steered show calls
global_orders-steered show (injected_global nanos now text ∷ calls) = rw (
  unconsumed-snoc (steered show calls).global_directives (global_directive show nanos now text)
      refl,
  global_orders-steered show calls,
)
global_orders-steered show (consumed_by task_id ∷ calls) =
    unconsumed-mark_consumed (steered show calls).global_directives
global_orders-steered show (pausing ∷ calls) = ground (arith, global_orders-steered show calls)
global_orders-steered show (resuming ∷ calls) = ground (arith, global_orders-steered show calls)

task_orders-steered :
    (key : Text) (show : ℕ → Text) (calls : List SteeringCall)
    → unconsumed ((steered show calls).task_directives key) ≡ task_orders key calls
unfolding steered steer new_steering_service inject_directive inject_global_directive
    consume_directives pause resume task_orders unconsumed
task_orders-steered key show [] = refl
task_orders-steered key show (injected nanos now task_id text ∷ calls) =
    elim (Bool-cases (text_eq key task_id)) [
      | inl same ↦
          let here : key ≡ task_id = (text_eq_iff key task_id).0 same in
          rw (
            same,
            ← here,
            unconsumed-snoc ((steered show calls).task_directives key)
                (task_directive show nanos now key text) refl,
            task_orders-steered key show calls,
          )
      | inr other ↦ rw other (task_orders-steered key show calls)
    ]
task_orders-steered key show (injected_global nanos now text ∷ calls) =
    task_orders-steered key show calls
task_orders-steered key show (consumed_by task_id ∷ calls) =
    elim (Bool-cases (text_eq key task_id)) [
      | inl same ↦ rw same (unconsumed-mark_consumed ((steered show calls).task_directives task_id))
      | inr other ↦ rw other (task_orders-steered key show calls)
    ]
task_orders-steered key show (pausing ∷ calls) = ground (arith, task_orders-steered key show calls)
task_orders-steered key show (resuming ∷ calls) = ground (arith, task_orders-steered key show calls)

-- After any calls, a task consumes the global orders given since any task last consumed orders, and
-- then its own orders given since it last did so, each in the order in which they were given.
pub consume_directives-steered :
    (show : ℕ → Text) (calls : List SteeringCall) (task_id : Text)
    → (consume_directives task_id (steered show calls)).0
      ≡ global_orders calls ++ task_orders task_id calls
unfolding consume_directives
consume_directives-steered show calls task_id =
    rw (global_orders-steered show calls, task_orders-steered task_id show calls)
