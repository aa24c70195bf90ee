-- ===== src/Examples/Steering.antt =====
-- Steering orders at concrete inputs: an order for every task, and orders for two tasks.
use noctifab.Prelude.{ℕ, ◌≡◌, List, [], ◌∷◌}
use noctifab.Prelude.Text.{Text, codes, text_eq}
use noctifab.Steering.{consume_directives}
use noctifab.Steering.Orders.{
  SteeringCall, injected, injected_global, consumed_by, pausing, steered, global_orders,
  task_orders, consume_directives-steered,
}

-- The digits of a time are left out.
abbrev no_digits : ℕ → Text
no_digits nanos = []

-- Task b has consumed the first global order; the latest call comes first.
abbrev orders : List SteeringCall
orders =
    injected 6 6 (codes "a") (codes "four")
    ∷ injected_global 5 5 (codes "three")
    ∷ pausing
    ∷ consumed_by (codes "b")
    ∷ injected 2 2 (codes "a") (codes "two")
    ∷ injected_global 1 1 (codes "one")
    ∷ []

consume_directives-steered_example :
    (consume_directives (codes "a") (steered no_digits orders)).0
    ≡ codes "three" ∷ codes "two" ∷ codes "four" ∷ []
unfolding global_orders task_orders text_eq
consume_directives-steered_example = consume_directives-steered no_digits orders (codes "a")
