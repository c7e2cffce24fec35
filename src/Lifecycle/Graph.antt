-- ===== src/Lifecycle/Graph.antt =====
-- The dependency graph of crates/ferroly/src/lifecycle/manager.rs: `topo_order`.
-- A hash map is the list of its entries, in the order in which the source happens to meet them.
pub mod Count
pub mod Degrees
pub mod Built
pub mod Orders
pub mod Kahn
pub mod Knots
pub mod Closure
use ferroly.Base.{
  ℕ, zero, suc, ◌+◌, ◌-◌, Bool, true, false, not, ◌||◌, List, [], ◌∷◌, ◌++◌, Option, none, some,
  ◌==◌, ltb, leb, if◌then◌else◌, length, any,
}

-- `deps` of `Inner`.
abbrev pub Deps : Type 0
Deps = List (ℕ × List ℕ)

unfoldable pub contains : ℕ → List ℕ → Bool
contains x [] = false
contains x (y ∷ ys) = x == y || contains x ys

abbrev pub update : {A : Type 0} → (ℕ → A) → ℕ → A → ℕ → A
update f k v x = if x == k then v else f x

-- `in_degree`, whose keys are `nodes`, and `dependents`.
pub record Graph : Type 0 where
  pub nodes : List ℕ
  pub in_degree : ℕ → ℕ
  pub dependents : ℕ → List ℕ

-- `in_degree.entry(n).or_insert(0)`; a node that is no key has the degree 0.
unfoldable pub add : ℕ → List ℕ → List ℕ
unfolding contains
add n nodes = if contains n nodes then nodes else nodes ++ (n ∷ [])

unfoldable pub touch : ℕ → Graph → Graph
unfolding add
touch n g = record g { nodes = add n g.nodes }

-- The body of the loop over the dependencies of `id`.
unfoldable pub edge : ℕ → ℕ → Graph → Graph
unfolding touch
edge id d g =
    let h = touch id g in
    touch d (record h {
      in_degree = update h.in_degree id (h.in_degree id + 1);
      dependents = update h.dependents d (h.dependents d ++ (id ∷ []));
    })

unfoldable pub edges : ℕ → List ℕ → Graph → Graph
unfolding edge
edges id [] g = g
edges id (d ∷ ds) g = edges id ds (edge id d g)

unfoldable pub build_from : Deps → Graph → Graph
unfolding edges
build_from [] g = g
build_from ((id, ds) ∷ deps) g = build_from deps (edges id ds (touch id g))

unfoldable pub build : Deps → Graph
unfolding build_from
build deps = build_from deps (record { nodes = []; in_degree = λ n. 0; dependents = λ n. [] })

-- `sort_unstable`.
unfoldable pub insert : ℕ → List ℕ → List ℕ
insert x [] = x ∷ []
insert x (y ∷ ys) = if leb x y then x ∷ y ∷ ys else y ∷ insert x ys

unfoldable pub sort : List ℕ → List ℕ
unfolding insert
sort [] = []
sort (x ∷ xs) = insert x (sort xs)

unfoldable pub filter : (ℕ → Bool) → List ℕ → List ℕ
filter p [] = []
filter p (x ∷ xs) = let rest = filter p xs in if p x then x ∷ rest else rest

-- The loop over `deps_of`: the degrees, and the nodes that become ready.
unfoldable pub release : List ℕ → (ℕ → ℕ) → List ℕ → (ℕ → ℕ) × List ℕ
release [] degree ready = (degree, ready)
release (m ∷ ms) degree ready =
    release ms (update degree m (degree m - 1))
      (if degree m - 1 == 0 then ready ++ (m ∷ []) else ready)

-- The loop of `topo_order`, on fuel: the order, and the degrees that are left.
unfoldable pub topo_loop : (ℕ → List ℕ) → ℕ → List ℕ → (ℕ → ℕ) → List ℕ → Option (List ℕ × (ℕ → ℕ))
unfolding release sort
topo_loop dependents fuel [] degree order = some (order, degree)
topo_loop dependents zero (n ∷ queue) degree order = none
topo_loop dependents (suc fuel) (n ∷ queue) degree order =
    topo_loop dependents fuel (queue ++ sort (release (dependents n) degree []).1)
      (release (dependents n) degree []).0 (order ++ (n ∷ []))

-- `CyclicDependency` carries the unresolved nodes.
pub data Topo : Type 0 where
  sorted : List ℕ → Topo
  cyclic : List ℕ → Topo
  out_of_fuel : Topo

abbrev pub conclude : List ℕ → Option (List ℕ × (ℕ → ℕ)) → Topo
conclude nodes none = out_of_fuel
conclude nodes (some (order, degree)) =
    if length order == length nodes
    then sorted order
    else cyclic (filter (λ n. ltb 0 (degree n)) nodes)

abbrev pub seed : Graph → List ℕ
seed g = sort (filter (λ n. g.in_degree n == 0) g.nodes)

unfoldable pub topo_order : Deps → Topo
unfolding build sort filter topo_loop
topo_order deps =
    let g = build deps in
    conclude g.nodes (topo_loop g.dependents (length g.nodes) (seed g) g.in_degree [])
