-- ===== src/Lifecycle/Manager/Single.antt =====
-- `start` and `stop` of `ComponentManager`, for one component with its closure.
use ferroly.Base.{ℕ, Bool, true, false, List, Option, none, some}
use ferroly.Lifecycle.Graph.{Deps, Topo, sorted, cyclic, out_of_fuel, contains, filter, topo_order}
use ferroly.Lifecycle.Graph.Closure.{dependency_closure, dependent_closure}
use ferroly.Lifecycle.Manager.{
  ComponentState, running, Answer, component_not_found, component_already_started, Outcome, err,
  Call, Manager, each, reverse, ordered, start_one, stop_one,
}

-- The order, without what is not in the closure.
abbrev pub within : Option (List ℕ) → Topo → Topo
within none t = out_of_fuel
within (some closure) (sorted order) = sorted (filter (λ n. contains n closure) order)
within (some closure) (cyclic stuck) = cyclic stuck
within (some closure) out_of_fuel = out_of_fuel

unfoldable pub start_order_for : Deps → ℕ → Topo
unfolding dependency_closure topo_order filter contains
start_order_for deps id = within (dependency_closure deps id) (topo_order deps)

unfoldable pub stop_order_for : Deps → ℕ → Topo
unfolding dependent_closure topo_order filter contains
stop_order_for deps id = within (dependent_closure deps id) (topo_order deps)

abbrev pub already : ComponentState → Bool
already running = true
already _ = false

module _ (on_start on_stop : List Call → ℕ → Answer) where
  unfoldable pub start : ℕ → Manager → Outcome × Manager
  unfolding start_order_for each start_one
  start id m = elim (m.watchers id) [
    | none ↦ (err (component_not_found id), m)
    | some s ↦ elim (already s) [
      | true ↦ (err (component_already_started id), m)
      | false ↦ ordered (start_order_for m.deps id) m (each (start_one on_start on_stop))
    ]
  ]

  unfoldable pub stop : ℕ → Manager → Outcome × Manager
  unfolding stop_order_for each stop_one
  stop id m = elim (m.watchers id) [
    | none ↦ (err (component_not_found id), m)
    | some s ↦
        ordered (stop_order_for m.deps id) m
          (λ order. each (stop_one on_start on_stop) (reverse order))
  ]
